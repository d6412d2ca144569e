-- ===== src/Deque/Reverse.antt =====
-- The loop that reverses a batch in the destination.
use crossbeam.Prelude.{
  ℕ, zero, suc, ◌+◌, ◌/◌, ◌%◌, ◌^◌, ◌≤◌, ◌<◌, ◌≡◌, inl, inr, refl, sym, ap, subst, ◌∙◌, arith,
  Option, some, List, [], ◌∷◌, ◌++◌, length, length-append, length-snoc, word_mod, ==_refl,
}
use mathlib.Core.List.{append-nil, append_assoc}
use crossbeam.Deque.Defs.{Buffer, Heap, read, write}
use crossbeam.Deque.Tickets.{turn-first, turn-last}
use crossbeam.Deque.Window.{
  Held, put, Held-tail, Held-cons, Held-append, Held-init, Held-drop, Held-put,
}
use crossbeam.Deque.Invariant.{read-head, buffer-slot, write_own}
use crossbeam.Deque.Spec.{split_last, split_last-append}
use crossbeam.Deque.Batch.{reverse_loop}
use crossbeam.Deque.BatchCopy.{reverse_onto}

module _ {ℓ} {T : Type ℓ} where
  reverse_onto-append :
      (xs : List T) (y : T) (ys : List T)
      → reverse_onto (xs ++ (y ∷ [])) ys ≡ y ∷ reverse_onto xs ys
  reverse_onto-append [] y ys = refl
  reverse_onto-append (x ∷ xs) y ys = reverse_onto-append xs y (x ∷ ys)

  -- A list from both of its ends, with the number of the pairs.
  data Ends : List T → ℕ → Type ℓ where
    ends_none : Ends [] 0
    ends_one : {x : T} → Ends (x ∷ []) 0
    ends_both :
        (x : T) {mid : List T} {n : ℕ} → Ends mid n → (y : T) → Ends (x ∷ (mid ++ (y ∷ []))) (suc n)

  -- Replacing one task of a window.
  Held-set :
      {slots : ℕ → Option T} {cap h : ℕ} (xs : List T) (x : T) (ys : List T) (z : T)
      → Held slots cap h (xs ++ (x ∷ ys))
      → length xs + suc (length ys) ≤ cap
      → Held (put slots ((h + length xs) % cap) (some z)) cap h (xs ++ (z ∷ ys))
  Held-set {h = h} xs x ys z held room =
      Held-append xs
        (Held-put (Held-init xs _ held) (h + length xs) (some z) (omega arith)
          (inl (omega arith, omega arith)))
        (Held-cons (rw ==_refl refl) (
          Held-put (Held-tail (Held-drop xs held)) (h + length xs) (some z) (omega arith)
            (inr (omega arith, omega arith))))

  module _ (buffer : Buffer) {e : ℕ} (cap_at : buffer.cap ≡ 2 ^ e) (e_le : e ≤ 62) where
    write-set :
        (heap : Heap T) (k : ℕ) (xs : List T) (x : T) (ys : List T) (z : T)
        → Held (heap buffer.ptr) buffer.cap k (xs ++ (x ∷ ys))
        → length xs + suc (length ys) ≤ buffer.cap
        → Held
            (write heap buffer ((k + length xs) % word_mod) (some z) buffer.ptr)
            buffer.cap
            k
            (xs ++ (z ∷ ys))
    write-set heap k xs x ys z held room =
        subst (λ slots. Held slots buffer.cap k (xs ++ (z ∷ ys)))
          (ap (λ j. put (heap buffer.ptr) j (some z))
              (sym (buffer-slot buffer (k + length xs) cap_at e_le))
            ∙ sym (write_own heap buffer ((k + length xs) % word_mod) (some z)))
          (Held-set xs x ys z held room)

    read-in :
        (heap : Heap T) (k : ℕ) (xs : List T) {x : T} (ys : List T)
        → Held (heap buffer.ptr) buffer.cap k (xs ++ (x ∷ ys))
        → read heap buffer ((k + length xs) % word_mod) ≡ some x
    read-in heap k xs ys held = read-head heap buffer cap_at e_le (Held-drop xs held)

    read-last :
        (heap : Heap T) (k : ℕ) (pre : List T) (x : T) (mid : List T) (y : T) (post : List T)
        → Held (heap buffer.ptr) buffer.cap k (pre ++ (x ∷ (mid ++ (y ∷ post))))
        → read heap buffer ((k + length pre + suc (length mid)) % word_mod) ≡ some y
    read-last heap k pre x mid y post held =
        let at_end : k + length pre + suc (length mid) ≡ k + length (pre ++ (x ∷ mid)) =
          omega (arith, length-append pre (x ∷ mid)) in
        ap (λ p. read heap buffer (p % word_mod)) at_end
        ∙ read-in heap k (pre ++ (x ∷ mid)) post (
            subst (λ l. Held (heap buffer.ptr) buffer.cap k l)
              (sym (append_assoc pre (x ∷ mid) (y ∷ post))) held)

    -- Exchanging two tasks.
    swap-Held :
        (heap : Heap T) (k : ℕ) (pre : List T) (x : T) (mid : List T) (y : T) (post : List T)
        → Held (heap buffer.ptr) buffer.cap k (pre ++ (x ∷ (mid ++ (y ∷ post))))
        → length pre + length mid + length post + 2 ≤ buffer.cap
        → Held
            (write
              (write heap buffer ((k + length pre) % word_mod) (some y))
              buffer
              ((k + length pre + suc (length mid)) % word_mod)
              (some x)
              buffer.ptr)
            buffer.cap
            k
            ((pre ++ (y ∷ [])) ++ (mid ++ (x ∷ post)))
    swap-Held heap k pre x mid y post held room =
        let front = pre ++ (y ∷ mid) in
        let size : length front ≡ length pre + suc (length mid) = length-append pre (y ∷ mid) in
        let split : (zs : List T) → pre ++ (y ∷ (mid ++ zs)) ≡ front ++ zs =
          λ zs. sym (append_assoc pre (y ∷ mid) zs) in
        let one =
          write-set heap k pre x (mid ++ (y ∷ post)) y held
            (omega (arith, length-append mid (y ∷ post))) in
        let first = write heap buffer ((k + length pre) % word_mod) (some y) in
        let two =
          write-set first k front y post x
            (subst (λ l. Held (first buffer.ptr) buffer.cap k l) (split (y ∷ post)) one)
            (omega (arith, size)) in
        let at_end : k + length front ≡ k + length pre + suc (length mid) = omega (arith, size) in
        let list : front ++ (x ∷ post) ≡ (pre ++ (y ∷ [])) ++ (mid ++ (x ∷ post)) =
          sym (split (x ∷ post)) ∙ sym (append_assoc pre (y ∷ []) (mid ++ (x ∷ post))) in
        subst
          (λ p.
            Held (write first buffer (p % word_mod) (some x) buffer.ptr) buffer.cap k
              ((pre ++ (y ∷ [])) ++ (mid ++ (x ∷ post))))
          at_end
          (subst
            (λ l.
              Held (write first buffer ((k + length front) % word_mod) (some x) buffer.ptr)
                buffer.cap k l)
            list two)

    -- The loop reverses the tasks between `pre` and `post`.
    reverse_loop-Held :
        {zs : List T} {n : ℕ}
        → Ends zs n
        → (heap : Heap T) (k i size : ℕ) (pre post : List T)
        → Held (heap buffer.ptr) buffer.cap k (pre ++ (zs ++ post))
        → size ≡ i + length zs + i
        → size < word_mod
        → length pre + length zs + length post ≤ buffer.cap
        → Held
            (reverse_loop n i size
              ((k + length pre + length zs + i) % word_mod)
              buffer
              heap
              buffer.ptr)
            buffer.cap
            k
            (pre ++ reverse_onto zs post)
    unfolding reverse_loop
    reverse_loop-Held ends_none heap k i size pre post held s small room = held
    reverse_loop-Held ends_one heap k i size pre post held s small room = held
    reverse_loop-Held (ends_both x {mid} {n} ends y) heap k i size pre post held s small room =
        let count : length (mid ++ (y ∷ [])) ≡ length mid + 1 = length-snoc mid y in
        let held' : Held (heap buffer.ptr) buffer.cap k (pre ++ (x ∷ (mid ++ (y ∷ post)))) =
          subst (λ l. Held (heap buffer.ptr) buffer.cap k (pre ++ (x ∷ l)))
            (append_assoc mid (y ∷ []) post) held in
        let p = k + length pre in
        let m = length mid in
        let size_at : size ≡ i + suc (m + 1) + i = omega (arith, s, count) in
        let next : p + suc (m + 1) + i ≡ k + length (pre ++ (y ∷ [])) + m + (i + 1) =
          omega (arith, length-snoc pre y) in
        rw
          (
            reverse_loop,
            count,
            turn-first p m size i size_at small,
            turn-last p m size i size_at small,
            read-in heap k pre (mid ++ (y ∷ post)) held',
            read-last heap k pre x mid y post held',
            next,
            reverse_onto-append mid y (x ∷ post),
            ← append_assoc pre (y ∷ []) (reverse_onto mid (x ∷ post)),
          )
          (reverse_loop-Held ends
            (write (write heap buffer (p % word_mod) (some y)) buffer ((p + suc m) % word_mod)
              (some x))
            k (i + 1) size (pre ++ (y ∷ [])) (x ∷ post)
            (swap-Held heap k pre x mid y post held' (omega (arith, count)))
            (omega (arith, s, count)) small (omega (arith, count, length-snoc pre y)))

  -- Every list is read from both of its ends.
  list-Ends : (fuel : ℕ) (zs : List T) → length zs ≤ fuel → Ends zs (length zs / 2)
  list-Ends fuel [] le = ends_none
  list-Ends fuel (x ∷ []) le = ends_one
  list-Ends zero (x ∷ y ∷ zs) le = absurd (omega arith)
  list-Ends (suc fuel) (x ∷ y ∷ zs) le =
      let last = (split_last y zs).0 in
      let before = (split_last y zs).1 in
      let split : y ∷ zs ≡ before ++ (last ∷ []) = split_last-append y zs in
      let count : suc (length zs) ≡ length before + 1 = ap length split ∙ length-snoc before last in
      let half : suc (length before / 2) ≡ suc (suc (length zs)) / 2 = omega (arith, count) in
      subst (λ l. Ends (x ∷ l) (suc (suc (length zs)) / 2)) (sym split)
        (subst (λ n. Ends (x ∷ (before ++ (last ∷ []))) n) half
          (ends_both x (list-Ends fuel before (omega (arith, count))) last))

  -- The whole loop of a batch.
  pub reverse-Held :
      (buffer : Buffer) {e : ℕ}
      → buffer.cap ≡ 2 ^ e
      → e ≤ 62
      → (heap : Heap T) (k : ℕ) (ys zs : List T) → Held (heap buffer.ptr) buffer.cap k (ys ++ zs)
      → length ys + length zs ≤ buffer.cap
      → length zs < word_mod
      → Held
          (reverse_loop
            (length zs / 2)
            0
            (length zs)
            ((k + length ys + length zs) % word_mod)
            buffer
            heap
            buffer.ptr)
          buffer.cap
          k
          (ys ++ reverse_onto zs [])
  reverse-Held buffer cap_at e_le heap k ys zs held room small =
      let end : k + length ys + length zs + 0 ≡ k + length ys + length zs = omega arith in
      subst
        (λ p.
          Held (reverse_loop (length zs / 2) 0 (length zs) (p % word_mod) buffer heap buffer.ptr)
            buffer.cap k (ys ++ reverse_onto zs []))
        end
        (reverse_loop-Held buffer cap_at e_le (list-Ends (length zs) zs (omega arith)) heap k 0
          (length zs) ys []
          (subst (λ l. Held (heap buffer.ptr) buffer.cap k (ys ++ l)) (sym (append-nil zs)) held)
          (omega arith) small (omega arith))
