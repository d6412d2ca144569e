-- ===== src/Deque/BatchSteal.antt =====
-- What a batch that is stolen does to the source and the destination.
use crossbeam.Prelude.{
  ℕ, suc, ◌+◌, ◌%◌, ◌^◌, ◌≤◌, ◌≡◌, refl, sym, ap, subst, ◌∙◌, arith, false, List, [], ◌∷◌, ◌++◌,
  length, length-append, word_mod, wrapping_add, ne→==, ◌==◌,
}
use crossbeam.Deque.Defs.{Heap, Deque, Flavor, fifo, lifo}
use crossbeam.Deque.Tickets.{wrapping_add-word}
use crossbeam.Deque.Window.{Held, Held-move, Held-init, Held-drop, Held-nil}
use crossbeam.Deque.Invariant.{Represents}
use crossbeam.Deque.Batch.{
  Moved, BatchResult, finished, copy_batch, reversed, lifo_loop, batch_from,
}
use crossbeam.Deque.BatchCopy.{reverse_onto, copy_up-Held, copy_down-Held}
use crossbeam.Deque.Resize.{Holds, two_pow-small}
use crossbeam.Deque.Reverse.{reverse-Held}
use crossbeam.Deque.BatchLoop.{commit-some, TookAll, lifo_loop-whole}
use crossbeam.Deque.Steal.{success}

module _ {ℓ} {T : Type ℓ} where
  -- The order in which the tasks of a batch end up at the back of the destination.
  abbrev pub arranged : Flavor → Flavor → List T → List T
  arranged fifo fifo xs = xs
  arranged fifo lifo xs = reverse_onto xs []
  arranged lifo fifo xs = reverse_onto xs []
  arranged lifo lifo xs = xs

  length-reverse_onto : (xs ys : List T) → length (reverse_onto xs ys) ≡ length xs + length ys
  length-reverse_onto [] ys = omega arith
  length-reverse_onto (x ∷ xs) ys = omega (arith, length-reverse_onto xs (x ∷ ys))

  pub length-arranged : (a b : Flavor) (xs : List T) → length (arranged a b xs) ≡ length xs
  length-arranged fifo fifo xs = refl
  length-arranged fifo lifo xs = omega (arith, length-reverse_onto xs [])
  length-arranged lifo fifo xs = omega (arith, length-reverse_onto xs [])
  length-arranged lifo lifo xs = refl

  -- Moving the front past several tasks.
  pub advance_by-Represents :
      {e h : ℕ} (taken : List T) {rest : List T} {d : Deque T}
      → Represents e h (taken ++ rest) d
      → Represents e
          (h + length taken)
          rest
          (record d { front = wrapping_add d.front (length taken) })
  advance_by-Represents {e} {h} taken {rest} {d} rep = record {
    cap_at = rep.cap_at;
    least = rep.least;
    most = rep.most;
    same = rep.same;
    allocated = rep.allocated;
    front_at =
        ap (λ w. wrapping_add w (length taken)) rep.front_at ∙ wrapping_add-word h (length taken);
    back_at = rep.back_at ∙ ap (λ n. n % word_mod) (omega (arith, length-append taken rest));
    room = omega (arith, rep.room, length-append taken rest);
    held = Held-drop taken rep.held;
  }

  -- A destination whose slots hold more tasks, with its back behind them.
  pub filled-Represents :
      {f k : ℕ} {ys : List T} {d : Deque T} (zs : List T) {heap : Heap T} {b : ℕ}
      → Represents f k ys d
      → length ys + length zs ≤ d.own.cap
      → b ≡ (k + length (ys ++ zs)) % word_mod
      → Held (heap d.own.ptr) d.own.cap k (ys ++ zs)
      → Represents f k (ys ++ zs) (record d { heap = heap; back = b })
  filled-Represents {ys = ys} zs rep room at held = record {
    cap_at = rep.cap_at;
    least = rep.least;
    most = rep.most;
    same = rep.same;
    allocated = rep.allocated;
    front_at = rep.front_at;
    back_at = at;
    room = omega (arith, length-append ys zs);
    held = held;
  }

  module _ {e h : ℕ} {source : Deque T} where
    shared_cap : {xs : List T} → Represents e h xs source → source.shared.cap ≡ 2 ^ e
    shared_cap rep = ap (λ b. b.cap) rep.same ∙ rep.cap_at

    -- The tasks of a source that follow the ones that are skipped.
    shared-left :
        (skip : ℕ) (skipped taken rest : List T)
        → length skipped ≡ skip
        → Represents e h (skipped ++ (taken ++ rest)) source
        → Held (source.heap source.shared.ptr) source.shared.cap (h + (0 + skip)) taken
    shared-left skip skipped taken rest count rep =
        subst (λ b. Held (source.heap b.ptr) b.cap (h + (0 + skip)) taken) (sym rep.same)
          (Held-move (Held-init taken rest (Held-drop skipped rep.held)) (omega (arith, count)))

  module _ {e h f k : ℕ} {ys : List T} {source dest : Deque T} where
    -- What the copy from a FIFO source leaves in the destination.
    pub copy_batch-Held :
        (g : Flavor) (skip : ℕ) (skipped taken rest : List T)
        → length skipped ≡ skip
        → Represents e h (skipped ++ (taken ++ rest)) source
        → Represents f k ys dest
        → length ys + length taken ≤ dest.own.cap
        → Held
            (copy_batch g (length taken) skip source dest dest.own.ptr)
            dest.own.cap
            k
            (ys ++ arranged fifo g taken)
    copy_batch-Held fifo skip skipped taken rest count rep_s rep_d room =
        rw (rep_s.front_at, rep_d.back_at)
          (copy_up-Held source.heap source.shared dest.own (shared_cap rep_s) rep_d.cap_at
            rep_s.most rep_d.most h 0 skip k (k + length ys) ys taken dest.heap
            (shared-left skip skipped taken rest count rep_s) rep_d.held (omega arith) room)
    copy_batch-Held lifo skip skipped taken rest count rep_s rep_d room =
        rw (rep_s.front_at, rep_d.back_at)
          (copy_down-Held source.heap source.shared dest.own (shared_cap rep_s) rep_d.cap_at
            rep_s.most rep_d.most h 0 skip k ys [] taken dest.heap
            (shared-left skip skipped taken rest count rep_s) rep_d.held Held-nil (omega arith))

  module _ {e f k : ℕ} {ys : List T} {dest : Deque T} where
    -- What the loop on a LIFO source and the reversal leave in the destination.
    pub reversed-Held :
        (g : Flavor) (p : ℕ) (taken rest : List T) (moved : Moved T)
        → Represents f k ys dest
        → TookAll e p k dest.own (ys ++ taken) rest (length taken) moved
        → length ys + length taken ≤ dest.own.cap
        → Held (reversed g moved dest.own dest.own.ptr) dest.own.cap k (ys ++ arranged lifo g taken)
    reversed-Held fifo p taken rest moved rep_d took room =
        let at : k + length (ys ++ taken) ≡ k + length ys + length taken =
          omega (arith, length-append ys taken) in
        rw (took.size_at, took.dest_b_at, at)
          (reverse-Held dest.own rep_d.cap_at rep_d.most moved.heap k ys taken took.dest_holds room
            (omega (arith, two_pow-small f rep_d.most, rep_d.cap_at)))
    reversed-Held lifo p taken rest moved rep_d took room = took.dest_holds

  -- The batch is taken from the front of the source and put at the back of the destination.
  pub record BatchTaken (h : ℕ) (taken rest : List T) (k : ℕ) (ys : List T) (a b : Flavor)
      (source dest : Deque T) : Type ℓ where
    pub source_holds : Holds (h + length taken) rest source
    pub dest_holds : Holds k (ys ++ arranged a b taken) dest

  -- Such a result of the part after the reservation.
  abbrev pub Takes :
      ℕ → List T → List T → ℕ → List T → Flavor → Flavor → BatchResult T (Unit {ℓ}) → Type ℓ
  Takes h taken rest k ys a b r =
      (source' : Deque T) × (dest' : Deque T) × (r ≡ finished (success tt) source' dest')
      × BatchTaken h taken rest k ys a b source' dest'

  module _ {e h f k : ℕ} {ys : List T} {source dest : Deque T} (x : T) (taken rest : List T)
      (rep_s : Represents e h ((x ∷ taken) ++ rest) source) (rep_d : Represents f k ys dest)
      (room : length ys + suc (length taken) ≤ dest.own.cap) where
    batch_from-fifo :
        Takes h
          (x ∷ taken)
          rest
          k
          ys
          fifo
          dest.flavor
          (batch_from fifo (suc (length taken)) source dest)
    unfolding batch_from
    batch_from-fifo =
        let n = suc (length taken) in
        let zs = arranged fifo dest.flavor (x ∷ taken) in
        let count : length zs ≡ n = length-arranged fifo dest.flavor (x ∷ taken) in
        (
          record source { front = wrapping_add source.front n },
          record dest {
            heap = copy_batch dest.flavor n 0 source dest;
            back = wrapping_add dest.back n;
          },
          rw (batch_from, commit-some n source) refl,
          record {
            source_holds = (e, advance_by-Represents (x ∷ taken) rep_s);
            dest_holds = (
              f,
              filled-Represents zs rep_d (omega (arith, count))
                  (ap (λ w. wrapping_add w n) rep_d.back_at
                    ∙ wrapping_add-word (k + length ys) n
                    ∙ ap (λ p. p % word_mod) (omega (arith, count, length-append ys zs)))
                  (copy_batch-Held dest.flavor 0 [] (x ∷ taken) rest refl rep_s rep_d room),
            );
          },
        )

    batch_from-lifo :
        Takes h
          (x ∷ taken)
          rest
          k
          ys
          lifo
          dest.flavor
          (batch_from lifo (suc (length taken)) source dest)
    unfolding batch_from
    batch_from-lifo =
        let n = suc (length taken) in
        let moved = lifo_loop n 0 source.front dest.back source.shared source dest.own dest.heap in
        let zs = arranged lifo dest.flavor (x ∷ taken) in
        let count : length zs ≡ n = length-arranged lifo dest.flavor (x ∷ taken) in
        let took : TookAll e (h + n) k dest.own (ys ++ (x ∷ taken)) rest n moved =
          lifo_loop-whole dest.own rep_d.cap_at rep_d.most k ys (x ∷ taken) rest source dest.heap
            rep_s rep_d.back_at rep_d.held room in
        let some_moved : (moved.size == 0) ≡ false =
          ne→== moved.size 0 (omega (arith, took.size_at)) in
        (
          moved.source,
          record dest { heap = reversed dest.flavor moved dest.own; back = moved.dest_b },
          rw (batch_from, some_moved) refl,
          record {
            source_holds = (e, took.source_holds);
            dest_holds = (
              f,
              filled-Represents zs rep_d (omega (arith, count))
                  (took.dest_b_at
                    ∙ ap (λ p. p % word_mod)
                        (omega (arith, count, length-append ys zs, length-append ys (x ∷ taken))))
                  (reversed-Held dest.flavor (h + n) (x ∷ taken) rest moved rep_d took room),
            );
          },
        )

    pub batch_from-Takes :
        (a : Flavor)
        → Takes h
            (x ∷ taken)
            rest
            k
            ys
            a
            dest.flavor
            (batch_from a (suc (length taken)) source dest)
    batch_from-Takes fifo = batch_from-fifo
    batch_from-Takes lifo = batch_from-lifo
