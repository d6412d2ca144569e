-- ===== src/ArrayQueue/Invariant.antt =====
-- When a queue represents a list of elements, and what its slots then hold.
use native.Mathlib.Nat.{add-mod_right}
use crossbeam.Prelude.{
  ℕ, ◌+◌, ◌%◌, ◌<◌, ◌≡◌, refl, sym, ap, subst, ◌↔◌, ◌∙◌, arith, some, List, [], ◌∷◌, ◌++◌, length,
  length-snoc, low_bits, wrapping_add,
}
use crossbeam.Stamp.{
  IsLayout, stamp_at, advance, advance-stamp_at, low_bits-stamp_at, suc-stamp_at, stamp_at-add_cap,
  stamp_at-injective,
}
use crossbeam.Ring.{update, Holds, Holds-write, Holds-read}
use crossbeam.ArrayQueue.Defs.{ArrayQueue, commit_push, commit_pop}

-- `q` holds `xs`, of which the oldest has the ticket `h`.
pub record Represents {ℓ} {A : Type ℓ} (laps h : ℕ) (xs : List A) (q : ArrayQueue A) : Type ℓ where
  pub layout : IsLayout q.one_lap q.cap laps
  pub head_at : q.head ≡ stamp_at q.one_lap q.cap laps h
  pub tail_at : q.tail ≡ stamp_at q.one_lap q.cap laps (h + length xs)
  pub held : Holds (stamp_at q.one_lap q.cap laps) q.cap h xs q.buffer

module _ {ℓ} {A : Type ℓ} {laps h : ℕ} {xs : List A} {q : ArrayQueue A}
    (r : Represents laps h xs q) where
  open r use {layout, head_at, tail_at, held}

  pub index-head : low_bits q.head q.one_lap ≡ h % q.cap
  index-head = rw head_at (low_bits-stamp_at layout h)

  pub index-tail : low_bits q.tail q.one_lap ≡ (h + length xs) % q.cap
  index-tail = rw tail_at (low_bits-stamp_at layout (h + length xs))

  -- The slot at the tail is free if there is room.
  pub tail_slot_free : length xs < q.cap → (q.buffer (low_bits q.tail q.one_lap)).stamp ≡ q.tail
  tail_slot_free lt =
      ap (λ i. (q.buffer i).stamp) index-tail
      ∙ held.free (h + length xs) (omega arith) (omega arith)
      ∙ sym tail_at

  suc-tail : wrapping_add q.tail 1 ≡ stamp_at q.one_lap q.cap laps (h + length xs) + 1
  suc-tail = ap (λ s. wrapping_add s 1) tail_at ∙ suc-stamp_at layout (h + length xs)

  pub suc-head : wrapping_add q.head 1 ≡ stamp_at q.one_lap q.cap laps h + 1
  suc-head = ap (λ s. wrapping_add s 1) head_at ∙ suc-stamp_at layout h

  pub lap-head : wrapping_add q.head q.one_lap ≡ stamp_at q.one_lap q.cap laps (h + q.cap)
  lap-head = ap (λ s. wrapping_add s q.one_lap) head_at ∙ stamp_at-add_cap layout h

  -- The head lags one lap behind the tail exactly when the queue is full.
  pub full_iff : (wrapping_add q.head q.one_lap ≡ q.tail) ↔ (length xs ≡ q.cap)
  full_iff = (
    λ e. omega (
      arith,
      held.room,
      stamp_at-injective layout (h + length xs) (h + q.cap) (omega (arith, held.room)) (omega arith)
          (sym tail_at ∙ sym e ∙ lap-head),
    ),
    λ e. lap-head ∙ ap (λ n. stamp_at q.one_lap q.cap laps (h + n)) (sym e) ∙ sym tail_at,
  )

  -- The head and the tail are equal exactly when the queue is empty.
  pub empty_iff : (q.tail ≡ q.head) ↔ (length xs ≡ 0)
  empty_iff = (
    λ e. omega (
      arith,
      stamp_at-injective layout h (h + length xs) (omega arith) (omega (arith, held.room))
          (sym head_at ∙ sym e ∙ tail_at),
    ),
    λ e. tail_at ∙ ap (stamp_at q.one_lap q.cap laps) (omega arith) ∙ sym head_at,
  )

  pub commit_push-Represents :
      (v : A) → length xs < q.cap → Represents laps h (xs ++ (v ∷ [])) (commit_push q q.tail v)
  commit_push-Represents v lt = record {
    layout = layout;
    head_at = head_at;
    tail_at =
        ap (advance q.one_lap q.cap) tail_at
        ∙ advance-stamp_at layout (h + length xs)
        ∙ ap (stamp_at q.one_lap q.cap laps) (omega (arith, length-snoc xs v));
    held =
        subst
          (λ i.
            Holds at q.cap h (xs ++ (v ∷ []))
              (update q.buffer i (record { stamp = wrapping_add q.tail 1; value = some v })))
          (sym index-tail)
          (subst
            (λ s.
              Holds at q.cap h (xs ++ (v ∷ []))
                (update q.buffer ((h + length xs) % q.cap) (record { stamp = s; value = some v })))
            (sym suc-tail) (Holds-write v held lt));
  }
    where
      at : ℕ → ℕ
      at = stamp_at q.one_lap q.cap laps

module _ {ℓ} {A : Type ℓ} {laps h : ℕ} {x : A} {xs : List A} {q : ArrayQueue A}
    (r : Represents laps h (x ∷ xs) q) where
  open r use {layout, head_at, tail_at, held}

  -- The slot at the head holds the oldest element.
  pub head_slot :
      q.buffer (low_bits q.head q.one_lap)
      ≡ record { stamp = wrapping_add q.head 1; value = some x }
  head_slot =
      ap q.buffer (index-head r ∙ ap (λ p. p % q.cap) (omega arith))
      ∙ held.taken 0 x refl
      ∙ ap (λ s. record { stamp = s; value = some x })
          (ap (λ p. stamp_at q.one_lap q.cap laps p + 1) (omega arith) ∙ sym (suc-head r))

  -- In a full queue it is also the slot at the tail.
  pub index_full : length (x ∷ xs) ≡ q.cap → low_bits q.tail q.one_lap ≡ low_bits q.head q.one_lap
  index_full e =
      index-tail r ∙ ap (λ n. (h + n) % q.cap) e ∙ add-mod_right h q.cap ∙ sym (index-head r)

  pub commit_pop-Represents : Represents laps (h + 1) xs (commit_pop q q.head)
  commit_pop-Represents = record {
    layout = layout;
    head_at = ap (advance q.one_lap q.cap) head_at ∙ advance-stamp_at layout h;
    tail_at = tail_at ∙ ap (stamp_at q.one_lap q.cap laps) (omega arith);
    held =
        subst
          (λ i. Holds at q.cap (h + 1) xs (
            update q.buffer i (record {
              stamp = wrapping_add q.head q.one_lap;
              value = (q.buffer (low_bits q.head q.one_lap)).value;
            })))
          (sym (index-head r))
          (subst
            (λ s. Holds at q.cap (h + 1) xs (
              update q.buffer (h % q.cap)
                (record { stamp = s; value = (q.buffer (low_bits q.head q.one_lap)).value })))
            (sym (lap-head r)) (Holds-read (q.buffer (low_bits q.head q.one_lap)).value held));
  }
    where
      at : ℕ → ℕ
      at = stamp_at q.one_lap q.cap laps
