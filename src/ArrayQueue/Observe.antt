-- ===== src/ArrayQueue/Observe.antt =====
-- The methods that look at a queue, and `Drop`, against the list that it represents.
use native.Mathlib.Nat.{mod-lt}
use crossbeam.Prelude.{
  ℕ, suc, ◌+◌, ◌-◌, ◌%◌, ◌≤◌, ◌≡◌, ◌↔◌, refl, sym, ap, ◌∙◌, arith, true, some, List, [], ◌∷◌,
  length, get_elem?, low_bits, ltb, if◌then◌else◌, ==_iff, map,
}
use mathlib.Core.Path.{ap₂}
use crossbeam.Stamp.{slot-add}
use crossbeam.ArrayQueue.Defs.{ArrayQueue}
use crossbeam.ArrayQueue.Exclusive.{is_empty, is_full, len, capacity, drop_indices, dropped}
use crossbeam.ArrayQueue.Invariant.{Represents, full_iff, empty_iff, index-head, index-tail}

module _ {ℓ} {A : Type ℓ} {laps h : ℕ} {xs : List A} {q : ArrayQueue A}
    (r : Represents laps h xs q) where
  open r use {layout, held}

  tail_slot : low_bits q.tail q.one_lap ≡ (
      if ltb (h % q.cap + length xs) q.cap
      then h % q.cap + length xs
      else h % q.cap + length xs - q.cap)
  tail_slot = index-tail r ∙ slot-add q.cap h (length xs) layout.cap_pos held.room

  -- On a queue that represents `xs`, `len` is the number of elements.
  pub len-length : len q ≡ length xs
  unfolding len
  len-length =
      ground (arith, tail_slot, index-head r, empty_iff r, mod-lt h layout.cap_pos, held.room)

  -- On a queue that represents `xs`, `is_empty` tells whether there is no element, and `is_full`
  -- whether there are as many as the capacity.
  pub empty_full_iff :
      ((is_empty q ≡ true) ↔ (length xs ≡ 0)) × ((is_full q ≡ true) ↔ (length xs ≡ capacity q))
  unfolding is_empty is_full capacity
  empty_full_iff = (
    (λ e. (empty_iff r).0 ((==_iff _ _).0 e), λ e. (==_iff _ _).1 ((empty_iff r).1 e)),
    (λ e. (full_iff r).0 ((==_iff _ _).0 e), λ e. (==_iff _ _).1 ((full_iff r).1 e)),
  )

  -- The values at the indices that `Drop` goes through, from the `i`-th on, are those of the elements
  -- from the `i`-th on.
  dropped_from :
      (i : ℕ) (ys : List A)
      → ((j : ℕ) (y : A)
          → get_elem? ys j ≡ some y
          → (q.buffer ((h + (i + j)) % q.cap)).value ≡ some y)
      → i + length ys ≤ q.cap
      → map (λ k. (q.buffer k).value) (drop_indices q i (length ys)) ≡ map some ys
  unfolding drop_indices
  dropped_from i [] at fits = refl
  dropped_from i (y ∷ ys) at fits =
      ap₂ ◌∷◌ (ap (λ k. (q.buffer k).value) index ∙ at 0 y refl)
        (dropped_from (i + 1) ys later (omega arith))
    where
      index :
          (if ltb (low_bits q.head q.one_lap + i) q.cap
            then low_bits q.head q.one_lap + i
            else low_bits q.head q.one_lap + i - q.cap)
          ≡ (h + (i + 0)) % q.cap
      index = rw (index-head r) (
          sym (slot-add q.cap h i layout.cap_pos (omega arith))
          ∙ ap (λ p. (h + p) % q.cap) (omega arith))

      later :
          (j : ℕ) (z : A)
          → get_elem? ys j ≡ some z
          → (q.buffer ((h + (i + 1 + j)) % q.cap)).value ≡ some z
      later j z e = ap (λ p. (q.buffer ((h + p) % q.cap)).value) (omega arith) ∙ at (suc j) z e

  -- On a queue that represents `xs`, `Drop` drops every element once, from the oldest on, and
  -- nothing that is uninitialised.
  pub dropped-elements : dropped q ≡ map some xs
  unfolding dropped
  dropped-elements = rw len-length (
      dropped_from 0 xs
        (λ j y e.
          ap (λ p. (q.buffer ((h + p) % q.cap)).value) (omega arith)
          ∙ ap (λ s. s.value) (held.taken j y e))
        (omega (arith, held.room)))
