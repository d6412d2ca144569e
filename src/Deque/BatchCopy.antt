-- ===== src/Deque/BatchCopy.antt =====
-- The loops that copy a batch into the destination.
use crossbeam.Prelude.{
  ℕ, ◌+◌, ◌%◌, ◌^◌, ◌≤◌, ◌≡◌, inl, sym, ap, subst, ◌∙◌, arith, some, List, [], ◌∷◌, ◌++◌, length,
  length-snoc, word_mod, wrapping_add,
}
use mathlib.Core.List.{append-nil, append_assoc}
use crossbeam.Deque.Defs.{Buffer, Heap, read, write}
use crossbeam.Deque.Tickets.{wrapping_add-word}
use crossbeam.Deque.Window.{Held, put, Held-move, Held-tail, Held-append, Held-put, Held-unshift}
use crossbeam.Deque.Invariant.{read-head, buffer-slot, write_own, write-Held}
use crossbeam.Deque.Batch.{copy_up, copy_down}

module _ {ℓ} {T : Type ℓ} where
  -- The tasks of a list, the last first, before another list.
  abbrev pub reverse_onto : List T → List T → List T
  reverse_onto [] ys = ys
  reverse_onto (x ∷ xs) ys = reverse_onto xs (x ∷ ys)

  module _ (source : Heap T) (buffer dest_buffer : Buffer) {e f : ℕ} (cap_at : buffer.cap ≡ 2 ^ e)
      (dest_cap : dest_buffer.cap ≡ 2 ^ f) (e_le : e ≤ 62) (f_le : f ≤ 62) where
    -- Reading at an index past the front.
    pub read-at :
        (h i : ℕ) {x : T} {xs : List T}
        → Held (source buffer.ptr) buffer.cap (h + i) (x ∷ xs)
        → read source buffer (wrapping_add (h % word_mod) i) ≡ some x
    read-at h i held =
        ap (read source buffer) (wrapping_add-word h i) ∙ read-head source buffer cap_at e_le held

    -- Copying upwards appends the tasks.
    pub copy_up-Held :
        (h i skip k q : ℕ) (ys xs : List T) (heap : Heap T)
        → Held (source buffer.ptr) buffer.cap (h + (i + skip)) xs
        → Held (heap dest_buffer.ptr) dest_buffer.cap k ys
        → q + i ≡ k + length ys
        → length ys + length xs ≤ dest_buffer.cap
        → Held
            (copy_up
              (length xs)
              i
              skip
              (h % word_mod)
              (q % word_mod)
              source
              buffer
              dest_buffer
              heap
              dest_buffer.ptr)
            dest_buffer.cap
            k
            (ys ++ xs)
    unfolding copy_up
    copy_up-Held h i skip k q ys [] heap left held at room = rw (append-nil ys) held
    copy_up-Held h i skip k q ys (x ∷ xs) heap left held at room =
        rw
          (
            copy_up,
            read-at h (i + skip) left,
            wrapping_add-word q i,
            at,
            ← append_assoc ys (x ∷ []) xs,
          )
          (copy_up-Held h (i + 1) skip k q (ys ++ (x ∷ [])) xs
            (write heap dest_buffer ((k + length ys) % word_mod) (some x))
            (Held-move (Held-tail left) (omega arith))
            (write-Held heap dest_buffer x dest_cap f_le held (omega arith))
            (omega (arith, length-snoc ys x)) (omega (arith, length-snoc ys x)))

    -- Copying downwards puts each task before the ones that were copied.
    pub copy_down-Held :
        (h i skip k : ℕ) (ys acc xs : List T) (heap : Heap T)
        → Held (source buffer.ptr) buffer.cap (h + (i + skip)) xs
        → Held (heap dest_buffer.ptr) dest_buffer.cap k ys
        → Held (heap dest_buffer.ptr) dest_buffer.cap (k + length ys + length xs) acc
        → length ys + length xs + length acc ≤ dest_buffer.cap
        → Held
            (copy_down
              (length xs)
              i
              skip
              (h % word_mod)
              ((k + length ys) % word_mod)
              source
              buffer
              dest_buffer
              heap
              dest_buffer.ptr)
            dest_buffer.cap
            k
            (ys ++ reverse_onto xs acc)
    unfolding copy_down
    copy_down-Held h i skip k ys acc [] heap left held top room =
        Held-append ys held (Held-move top (omega arith))
    copy_down-Held h i skip k ys acc (x ∷ xs) heap left held top room =
        rw (copy_down, read-at h (i + skip) left, wrapping_add-word (k + length ys) (length xs))
          (copy_down-Held h (i + 1) skip k ys (x ∷ acc) xs
            (write heap dest_buffer ((k + length ys + length xs) % word_mod) (some x))
            (Held-move (Held-tail left) (omega arith))
            (at_slot ys (
              Held-put held (k + length ys + length xs) (some x) (omega arith)
                (inl (omega arith, omega arith))))
            (at_slot (x ∷ acc)
              (Held-unshift top (k + length ys + length xs) x (omega arith) (omega arith)))
            (omega arith))
      where
        at_slot :
            (zs : List T) {p : ℕ}
            → Held
                (put
                  (heap dest_buffer.ptr)
                  ((k + length ys + length xs) % dest_buffer.cap)
                  (some x))
                dest_buffer.cap
                p
                zs
            → Held
                (write heap dest_buffer
                  ((k + length ys + length xs) % word_mod)
                  (some x)
                  dest_buffer.ptr)
                dest_buffer.cap
                p
                zs
        at_slot zs {p} =
            subst (λ slots. Held slots dest_buffer.cap p zs)
              (ap (λ j. put (heap dest_buffer.ptr) j (some x))
                  (sym (buffer-slot dest_buffer (k + length ys + length xs) dest_cap f_le))
                ∙ sym
                    (write_own heap dest_buffer ((k + length ys + length xs) % word_mod) (some x)))
