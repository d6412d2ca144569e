-- ===== src/Deque/BatchPopLoop.antt =====
-- The loop that steals from a LIFO source one by one and holds a task back.
use crossbeam.Prelude.{
  ℕ, suc, ◌+◌, ◌%◌, ◌^◌, ◌≤◌, ◌≡◌, refl, sym, ap, subst, ◌∙◌, arith, Option, some, false, List, [],
  ◌∷◌, ◌++◌, length, length-snoc, word_mod, wrapping_add,
}
use mathlib.Core.List.{append-nil, append_assoc}
use crossbeam.Prelude.Int.{pos, leb_int}
use crossbeam.Deque.Defs.{Buffer, Heap, Deque, read, write, signed_len}
use crossbeam.Deque.Tickets.{wrapping_add-word}
use crossbeam.Deque.Window.{Held}
use crossbeam.Deque.Invariant.{Represents, write-Held}
use crossbeam.Deque.Push.{signed_len-lem}
use crossbeam.Deque.Pop.{advance-Represents, read-front}
use crossbeam.Deque.Batch.{lifo_pop_loop}
use crossbeam.Deque.BatchLoop.{TookAll, commit-some}
use crossbeam.Deque.Spec.{split_last}

module _ {ℓ} {T : Type ℓ} where
  module _ (dest_buffer : Buffer) {e f : ℕ} (dest_cap : dest_buffer.cap ≡ 2 ^ f)
      (f_le : f ≤ 62) where
    lifo_pop_loop-step :
        (n i dest_b : ℕ) {h : ℕ} {x : T} {xs : List T} {source : Deque T} (heap : Heap T)
        (task : Option T)
        → Represents e h (x ∷ xs) source
        → lifo_pop_loop (suc n) i source.front dest_b source.shared source dest_buffer heap task
          ≡ lifo_pop_loop n
              (i + 1)
              (wrapping_add source.front 1)
              (wrapping_add dest_b 1)
              source.shared
              (record source { front = wrapping_add source.front 1 })
              dest_buffer
              (write heap dest_buffer dest_b task)
              (some x)
    unfolding lifo_pop_loop
    lifo_pop_loop-step n i dest_b {xs = xs} {source} heap task rep =
        let more : leb_int (signed_len source) (pos 0) ≡ false =
          rw (signed_len-lem rep) (ground arith) in
        let shared_read : read source.heap source.shared source.front ≡ some _ =
          ap (λ b. read source.heap b source.front) rep.same ∙ read-front rep in
        rw (lifo_pop_loop, more, commit-some 1 source, shared_read) refl

    lifo_pop_loop-end :
        (i k : ℕ) {h : ℕ} (ys rest : List T) (source : Deque T) (heap : Heap T) (task : T)
        → Represents e h rest source
        → Held (heap dest_buffer.ptr) dest_buffer.cap k ys
        → let r =
            lifo_pop_loop 0 i source.front
              ((k + length ys) % word_mod)
              source.shared
              source
              dest_buffer
              heap
              (some task) in
          TookAll e (h + 0) k dest_buffer (ys ++ []) rest (i + 0) r × (r.task ≡ some task)
    unfolding lifo_pop_loop
    lifo_pop_loop-end i k {h} ys rest source heap task rep held =
        let stay : h ≡ h + 0 = omega arith in
        (
          record {
            size_at = omega arith;
            dest_b_at = ap (λ l. (k + length l) % word_mod) (sym (append-nil ys));
            source_holds = subst (λ p. Represents e p rest source) stay rep;
            dest_holds = rw (append-nil ys) held;
          },
          refl,
        )

    -- The loop with a task held back moves it and all that it takes but the last, which it holds back.
    pub lifo_pop_loop-TookAll :
        (i k : ℕ) {h : ℕ} (ys : List T) (task : T) (taken rest : List T) (source : Deque T)
        (heap : Heap T)
        → Represents e h (taken ++ rest) source
        → Held (heap dest_buffer.ptr) dest_buffer.cap k ys
        → length ys + length taken ≤ dest_buffer.cap
        → let r =
            lifo_pop_loop
              (length taken)
              i
              source.front
              ((k + length ys) % word_mod)
              source.shared
              source
              dest_buffer
              heap
              (some task) in
          TookAll e
            (h + length taken)
            k
            dest_buffer
            (ys ++ (split_last task taken).1)
            rest
            (i + length taken)
            r
          × (r.task ≡ some (split_last task taken).0)
    lifo_pop_loop-TookAll i k ys task [] rest source heap rep held room =
        lifo_pop_loop-end i k ys rest source heap task rep held
    lifo_pop_loop-TookAll i k {h} ys task (x ∷ taken) rest source heap rep held room =
        let turn : i + 1 + length taken ≡ i + suc (length taken) = omega arith in
        let ticket : h + 1 + length taken ≡ h + suc (length taken) = omega arith in
        let dest_b : wrapping_add ((k + length ys) % word_mod) 1
            ≡ (k + length (ys ++ (task ∷ []))) % word_mod =
          wrapping_add-word (k + length ys) 1
          ∙ ap (λ n. n % word_mod) (omega (arith, length-snoc ys task)) in
        rw
          (
            lifo_pop_loop-step (length taken) i ((k + length ys) % word_mod) heap (some task) rep,
            dest_b,
            ← turn,
            ← ticket,
            ← append_assoc ys (task ∷ []) (split_last x taken).1,
          )
          (lifo_pop_loop-TookAll (i + 1) k (ys ++ (task ∷ [])) x taken rest
            (record source { front = wrapping_add source.front 1 })
            (write heap dest_buffer ((k + length ys) % word_mod) (some task))
            (advance-Represents rep)
            (write-Held heap dest_buffer task dest_cap f_le held (omega arith))
            (omega (arith, length-snoc ys task)))

    pub lifo_pop_loop-whole :
        (k : ℕ) {h b : ℕ} (ys : List T) (task : T) (taken rest : List T) (source : Deque T)
        (heap : Heap T)
        → Represents e h (taken ++ rest) source
        → b ≡ (k + length ys) % word_mod
        → Held (heap dest_buffer.ptr) dest_buffer.cap k ys
        → length ys + length taken ≤ dest_buffer.cap
        → let r =
            lifo_pop_loop
              (length taken)
              0
              source.front
              b
              source.shared
              source
              dest_buffer
              heap
              (some task) in
          TookAll e
            (h + length taken)
            k
            dest_buffer
            (ys ++ (split_last task taken).1)
            rest
            (length taken)
            r
          × (r.task ≡ some (split_last task taken).0)
    lifo_pop_loop-whole k {h} ys task taken rest source heap rep at held room =
        let all : 0 + length taken ≡ length taken = omega arith in
        let whole = lifo_pop_loop-TookAll 0 k ys task taken rest source heap rep held room in
        rw at (
          subst
              (λ n.
                TookAll e (h + length taken) k dest_buffer (ys ++ (split_last task taken).1) rest n
                  (lifo_pop_loop (length taken) 0 source.front ((k + length ys) % word_mod)
                    source.shared source dest_buffer heap (some task)))
              all whole.0,
          whole.1,
        )
