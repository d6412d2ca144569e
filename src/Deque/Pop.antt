-- ===== src/Deque/Pop.antt =====
-- `Worker::pop`.
use crossbeam.Prelude.{
  ℕ, zero, suc, ◌+◌, ◌/◌, ◌%◌, ◌≤◌, ◌<◌, ◌≡◌, ◌⊎◌, inl, inr, refl, ap, ◌∙◌, arith, none, some, true,
  false, List, [], ◌∷◌, ◌++◌, length, length-snoc, Bool, word_mod, wrapping_add, wrapping_sub, leb,
  ltb, ==_refl, ◌&&◌, if◌then◌else◌, Option,
}
use crossbeam.Prelude.Int.{pos, leb_int}
use crossbeam.ArrayQueue.Defs.{Outcome, returned}
use crossbeam.Deque.Defs.{
  Deque, Flavor, fifo, lifo, read, resize, signed_len, pop_front, pop_back, pop,
}
use crossbeam.Deque.Tickets.{wrapping_add-word, wrapping_sub_one-word}
use crossbeam.Deque.Window.{Held-nil, Held-tail, Held-init, Held-drop}
use crossbeam.Deque.Invariant.{Represents, read-head}
use crossbeam.Deque.Resize.{shrink-Represents, Holds}
use crossbeam.Deque.Push.{signed_len-lem}

module _ {ℓ} {T : Type ℓ} where
  -- Moving the front past the first task.
  pub advance-Represents :
      {e h : ℕ} {x : T} {xs : List T} {d : Deque T}
      → Represents e h (x ∷ xs) d
      → Represents e (h + 1) xs (record d { front = wrapping_add d.front 1 })
  advance-Represents {e} {h} {x} {xs} {d} rep = record {
    cap_at = rep.cap_at;
    least = rep.least;
    most = rep.most;
    same = rep.same;
    allocated = rep.allocated;
    front_at = ap (λ w. wrapping_add w 1) rep.front_at ∙ wrapping_add-word h 1;
    back_at = rep.back_at ∙ ap (λ n. n % word_mod) (omega arith);
    room = omega (arith, rep.room);
    held = Held-tail rep.held;
  }

  -- Moving the back before the last task.
  pub retreat-Represents :
      {e h : ℕ} (xs : List T) (y : T) {d : Deque T}
      → Represents e h (xs ++ (y ∷ [])) d
      → Represents e h xs (record d { back = wrapping_sub d.back 1 })
  retreat-Represents {e} {h} xs y {d} rep = record {
    cap_at = rep.cap_at;
    least = rep.least;
    most = rep.most;
    same = rep.same;
    allocated = rep.allocated;
    front_at = rep.front_at;
    back_at =
        ap (λ w. wrapping_sub w 1)
          (rep.back_at ∙ ap (λ n. n % word_mod) (omega (arith, length-snoc xs y)))
        ∙ wrapping_sub_one-word (h + length xs);
    room = omega (arith, length-snoc xs y, rep.room);
    held = Held-init xs (y ∷ []) rep.held;
  }

  -- The tail of both pops: whether the buffer is halved or not, it holds the same tasks.
  shrunk-Holds :
      (shrink : Bool) {e h : ℕ} {xs : List T} {d : Deque T}
      → Represents e h xs d
      → (shrink ≡ true → (64 < d.own.cap) × (length xs ≤ d.own.cap / 2))
      → Holds h xs (if shrink then resize (d.own.cap / 2) d else d)
  shrunk-Holds false {e = e} rep few = (e, rep)
  shrunk-Holds true {e = zero} rep few = absurd (omega (arith, rep.least))
  shrunk-Holds true {e = suc e} rep few =
      let (large, half) = few refl in (e, shrink-Represents e rep large half)

  pub shrunk-flavor :
      (shrink : Bool) (c : ℕ) (d : Deque T) → (if shrink then resize c d else d).flavor ≡ d.flavor
  unfolding resize
  shrunk-flavor false c d = refl
  shrunk-flavor true c d = refl

  -- What a pop does to a deque: it returns the task and leaves one that holds the rest.
  pub record Popped (flavor : Flavor) (h : ℕ) (xs : List T) (task : T)
      (r : Outcome (Option T × Deque T)) : Type ℓ where
    pub left : Deque T
    pub result : r ≡ returned (some task, left)
    pub holds : Holds h xs left
    pub flavor_at : left.flavor ≡ flavor

  pub read-front :
      {e h : ℕ} {x : T} {xs : List T} {d : Deque T}
      → Represents e h (x ∷ xs) d
      → read d.heap d.own d.front ≡ some x
  read-front {d = d} rep =
      ap (read d.heap d.own) rep.front_at ∙ read-head d.heap d.own rep.cap_at rep.most rep.held

  pop-fifo :
      {e h : ℕ} {xs : List T} {d : Deque T}
      → Represents e h xs d
      → leb (length xs) 0 ≡ false
      → d.flavor ≡ fifo
      → pop d ≡ pop_front (pos (length xs)) d
  unfolding pop
  pop-fifo {xs = xs} {d = d} rep some_task flavor =
      let test : leb_int (signed_len d) (pos 0) ≡ false = rw (signed_len-lem rep) some_task in
      rw test (
        ap (λ f. elim f [ fifo ↦ pop_front (signed_len d) d | lifo ↦ pop_back d ]) flavor
        ∙ ap (λ l. pop_front l d) (signed_len-lem rep))

  pop-lifo :
      {e h : ℕ} {xs : List T} {d : Deque T}
      → Represents e h xs d
      → leb (length xs) 0 ≡ false
      → d.flavor ≡ lifo
      → pop d ≡ pop_back d
  unfolding pop
  pop-lifo {xs = xs} {d = d} rep some_task flavor =
      let test : leb_int (signed_len d) (pos 0) ≡ false = rw (signed_len-lem rep) some_task in
      rw test (ap (λ f. elim f [ fifo ↦ pop_front (signed_len d) d | lifo ↦ pop_back d ]) flavor)

  -- A FIFO pop takes the first task.
  pub pop-front :
      {e h : ℕ} {x : T} {xs : List T} {d : Deque T}
      → Represents e h (x ∷ xs) d
      → d.flavor ≡ fifo
      → Popped fifo (h + 1) xs x (pop d)
  unfolding pop_front
  pop-front {e} {h} {x} {xs} {d} rep flavor =
      let moved = advance-Represents rep in
      let d' = record d { front = wrapping_add d.front 1 } in
      let shrink = ltb 64 d.own.cap && leb (suc (length xs)) (d.own.cap / 4) in
      let stays : ltb (length xs) 0 ≡ false = ground arith in
      record {
        left = if shrink then resize (d.own.cap / 2) d' else d';
        result =
            pop-fifo rep (ground arith) flavor
            ∙ rw (signed_len-lem moved, stays, read-front rep) refl;
        holds = shrunk-Holds shrink moved (λ yes_shrink. ground (arith, yes_shrink));
        flavor_at = shrunk-flavor shrink (d.own.cap / 2) d' ∙ flavor;
      }

  read-back :
      {e h : ℕ} (xs : List T) (y : T) {d : Deque T}
      → Represents e h (xs ++ (y ∷ [])) d
      → read d.heap d.own (wrapping_sub d.back 1) ≡ some y
  read-back {h = h} xs y {d} rep =
      ap (read d.heap d.own) (retreat-Represents xs y rep).back_at
      ∙ read-head d.heap d.own rep.cap_at rep.most (Held-drop xs rep.held)

  -- A LIFO pop takes the last task.
  pub pop-back :
      {e h : ℕ} (xs : List T) (y : T) {d : Deque T}
      → Represents e h (xs ++ (y ∷ [])) d
      → d.flavor ≡ lifo
      → (k : ℕ) × ((k ≡ h) × ((x : T) × (rest : List T) × (xs ≡ x ∷ rest))
          ⊎ (k ≡ h + 1) × (xs ≡ []))
        × Popped lifo k xs y (pop d)
  unfolding pop_back
  pop-back {e} {h} [] y {d} rep flavor =
      let moved = retreat-Represents [] y rep in
      let b = wrapping_sub d.back 1 in
      (
        h + 1,
        inr (refl, refl),
        record {
          left = record d { front = wrapping_add d.front 1; back = wrapping_add b 1 };
          result =
              pop-lifo rep (ground arith) flavor
              ∙ rw (signed_len-lem moved, ==_refl, read-back [] y rep) refl;
          holds = (
            e,
            record {
              cap_at = rep.cap_at;
              least = rep.least;
              most = rep.most;
              same = rep.same;
              allocated = rep.allocated;
              front_at = ap (λ w. wrapping_add w 1) rep.front_at ∙ wrapping_add-word h 1;
              back_at =
                  ap (λ w. wrapping_add w 1) moved.back_at
                  ∙ wrapping_add-word (h + 0) 1
                  ∙ ap (λ n. n % word_mod) (omega arith);
              room = omega arith;
              held = Held-nil;
            },
          );
          flavor_at = flavor;
        },
      )
  pop-back {e} {h} (x ∷ xs) y {d} rep flavor =
      let moved = retreat-Represents (x ∷ xs) y rep in
      let d' = record d { back = wrapping_sub d.back 1 } in
      let shrink = ltb 64 d.own.cap && ltb (suc (length xs)) (d.own.cap / 4) in
      let stays : ltb (suc (length xs)) 0 ≡ false = ground arith in
      let many : leb (suc (length xs)) 0 ≡ false = ground arith in
      (
        h,
        inl (refl, (x, xs, refl)),
        record {
          left = if shrink then resize (d.own.cap / 2) d' else d';
          result =
              pop-lifo rep (ground arith) flavor
              ∙ rw (signed_len-lem moved, stays, many, read-back (x ∷ xs) y rep) refl;
          holds = shrunk-Holds shrink moved (λ yes_shrink. ground (arith, yes_shrink));
          flavor_at = shrunk-flavor shrink (d.own.cap / 2) d' ∙ flavor;
        },
      )

  -- A pop of an empty deque returns nothing and leaves it as it was.
  pub pop-empty : {e h : ℕ} {d : Deque T} → Represents e h [] d → pop d ≡ returned (none, d)
  unfolding pop
  pop-empty rep = rw (signed_len-lem rep) refl
