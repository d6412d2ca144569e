-- ===== src/Deque/BatchLoop.antt =====
-- The loops that steal from a LIFO source one by one.
use crossbeam.Prelude.{
  ℕ, suc, ◌+◌, ◌%◌, ◌^◌, ◌≤◌, ◌≡◌, refl, sym, ap, subst, ◌∙◌, arith, some, false, Bool-cases, List,
  [], ◌∷◌, ◌++◌, length, length-snoc, word_mod, ltb, wrapping_add, ==_refl, inl, inr,
}
use mathlib.Core.List.{append-nil, append_assoc}
use crossbeam.Prelude.Int.{pos, leb_int}
use crossbeam.Deque.Defs.{Buffer, Heap, Deque, read, write, signed_len}
use crossbeam.Deque.Tickets.{wrapping_add-word}
use crossbeam.Deque.Window.{Held}
use crossbeam.Deque.Invariant.{Represents, write-Held}
use crossbeam.Deque.Push.{signed_len-lem}
use crossbeam.Deque.Pop.{advance-Represents, read-front}
use crossbeam.Deque.Batch.{Moved, commit, lifo_loop}

module _ {ℓ} {T : Type ℓ} where
  -- An exchange on a front and a buffer that did not change succeeds.
  pub commit-some :
      (n : ℕ) (source : Deque T)
      → commit source.front n source.shared source
        ≡ some (record source { front = wrapping_add source.front n })
  unfolding commit
  commit-some n source = rw (==_refl source.shared.ptr, ==_refl source.front) refl

  -- What the loop leaves: `taken` at the end of the destination and the rest in the source.
  pub record TookAll (e h k : ℕ) (dest_buffer : Buffer) (all rest : List T) (size : ℕ) (r : Moved T)
      : Type ℓ where
    pub size_at : r.size ≡ size
    pub dest_b_at : r.dest_b ≡ (k + length all) % word_mod
    pub source_holds : Represents e h rest r.source
    pub dest_holds : Held (r.heap dest_buffer.ptr) dest_buffer.cap k all

  module _ (dest_buffer : Buffer) {e f : ℕ} (dest_cap : dest_buffer.cap ≡ 2 ^ f)
      (f_le : f ≤ 62) where
    -- A turn of the loop: the source has a task, which is read and taken.
    lifo_loop-step :
        (n i dest_b : ℕ) {h : ℕ} {x : T} {xs : List T} {source : Deque T} (heap : Heap T)
        → Represents e h (x ∷ xs) source
        → lifo_loop (suc n) i source.front dest_b source.shared source dest_buffer heap
          ≡ lifo_loop n
              (i + 1)
              (wrapping_add source.front 1)
              (wrapping_add dest_b 1)
              source.shared
              (record source { front = wrapping_add source.front 1 })
              dest_buffer
              (write heap dest_buffer dest_b (some x))
    unfolding lifo_loop
    lifo_loop-step n i dest_b {xs = xs} {source} heap rep =
        let more : leb_int (signed_len source) (pos 0) ≡ false =
          rw (signed_len-lem rep) (ground arith) in
        let shared_read : read source.heap source.shared source.front ≡ some _ =
          ap (λ b. read source.heap b source.front) rep.same ∙ read-front rep in
        elim (Bool-cases (ltb 0 i)) [
          | inl later ↦ rw (lifo_loop, later, more, commit-some 1 source, shared_read) refl
          | inr first ↦ rw (lifo_loop, first, commit-some 1 source, shared_read) refl
        ]

    lifo_loop-end :
        (i k : ℕ) {h : ℕ} (ys rest : List T) (source : Deque T) (heap : Heap T)
        → Represents e h rest source
        → Held (heap dest_buffer.ptr) dest_buffer.cap k ys
        → TookAll e (h + 0) k dest_buffer (ys ++ []) rest (i + 0) (
            lifo_loop 0 i source.front
              ((k + length ys) % word_mod)
              source.shared
              source
              dest_buffer
              heap)
    unfolding lifo_loop
    lifo_loop-end i k {h} ys rest source heap rep held =
        let stay : h ≡ h + 0 = omega arith in
        record {
          size_at = omega arith;
          dest_b_at = ap (λ l. (k + length l) % word_mod) (sym (append-nil ys));
          source_holds = subst (λ p. Represents e p rest source) stay rep;
          dest_holds = rw (append-nil ys) held;
        }

    pub lifo_loop-TookAll :
        (i k : ℕ) {h : ℕ} (ys taken rest : List T) (source : Deque T) (heap : Heap T)
        → Represents e h (taken ++ rest) source
        → Held (heap dest_buffer.ptr) dest_buffer.cap k ys
        → length ys + length taken ≤ dest_buffer.cap
        → TookAll e (h + length taken) k dest_buffer (ys ++ taken) rest (i + length taken) (
            lifo_loop
              (length taken)
              i
              source.front
              ((k + length ys) % word_mod)
              source.shared
              source
              dest_buffer
              heap)
    lifo_loop-TookAll i k ys [] rest source heap rep held room =
        lifo_loop-end i k ys rest source heap rep held
    lifo_loop-TookAll i k {h} ys (x ∷ taken) rest source heap rep held room =
        let turn : i + 1 + length taken ≡ i + suc (length taken) = omega arith in
        let ticket : h + 1 + length taken ≡ h + suc (length taken) = omega arith in
        let dest_b : wrapping_add ((k + length ys) % word_mod) 1
            ≡ (k + length (ys ++ (x ∷ []))) % word_mod =
          wrapping_add-word (k + length ys) 1
          ∙ ap (λ n. n % word_mod) (omega (arith, length-snoc ys x)) in
        let rest_of : TookAll e (h + 1 + length taken) k dest_buffer ((ys ++ (x ∷ [])) ++ taken)
            rest (i + 1 + length taken) _ =
          lifo_loop-TookAll (i + 1) k (ys ++ (x ∷ [])) taken rest
            (record source { front = wrapping_add source.front 1 })
            (write heap dest_buffer ((k + length ys) % word_mod) (some x)) (advance-Represents rep)
            (write-Held heap dest_buffer x dest_cap f_le held (omega arith))
            (omega (arith, length-snoc ys x)) in
        rw
          (
            lifo_loop-step (length taken) i ((k + length ys) % word_mod) heap rep,
            dest_b,
            ← turn,
            ← ticket,
            ← append_assoc ys (x ∷ []) taken,
          )
          rest_of

    -- The whole loop.
    pub lifo_loop-whole :
        (k : ℕ) {h b : ℕ} (ys taken rest : List T) (source : Deque T) (heap : Heap T)
        → Represents e h (taken ++ rest) source
        → b ≡ (k + length ys) % word_mod
        → Held (heap dest_buffer.ptr) dest_buffer.cap k ys
        → length ys + length taken ≤ dest_buffer.cap
        → TookAll e
            (h + length taken)
            k
            dest_buffer
            (ys ++ taken)
            rest
            (length taken)
            (lifo_loop (length taken) 0 source.front b source.shared source dest_buffer heap)
    lifo_loop-whole k {h} ys taken rest source heap rep at held room =
        let all : 0 + length taken ≡ length taken = omega arith in
        subst
          (λ w.
            TookAll e (h + length taken) k dest_buffer (ys ++ taken) rest (length taken)
              (lifo_loop (length taken) 0 source.front w source.shared source dest_buffer heap))
          (sym at)
          (subst
            (λ n. TookAll e (h + length taken) k dest_buffer (ys ++ taken) rest n (
              lifo_loop (length taken) 0 source.front ((k + length ys) % word_mod) source.shared
                source dest_buffer heap))
            all (lifo_loop-TookAll 0 k ys taken rest source heap rep held room))
