-- ===== src/Channel/Invariant.antt =====
-- When a channel holds a list of messages, connected or not, and what its slots then hold.
use native.Mathlib.Nat.{add-mod_right}
use crossbeam.Prelude.{
  ℕ, ◌+◌, ◌%◌, ◌<◌, ◌≡◌, ◌≢◌, ◌↔◌, refl, sym, ap, ◌∙◌, arith, Bool, some, List, ◌∷◌, length,
  low_bits, wrapping_add,
}
use crossbeam.Stamp.{stamp_at, suc-stamp_at, stamp_at-add_cap, stamp_at-injective, stamp_at-ne_suc}
use crossbeam.Ring.{Holds}
use crossbeam.Channel.Defs.{Channel, marked, unmark, next_stamp}
use crossbeam.Channel.Marks.{
  IsMarkedLayout, index-stamp_at, next-stamp_at, with_mark, with_mark-unmark,
}

abbrev pub IsMarked {ℓ} : {A : Type ℓ} → ℕ → Channel A → Type 0
IsMarked laps q = IsMarkedLayout q.one_lap q.cap q.mark_bit laps

-- `q` holds `xs`, of which the oldest has the ticket `h`; the mark bit says whether it is disconnected.
pub record Represents {ℓ} {A : Type ℓ} (laps h : ℕ) (xs : List A) (gone : Bool) (q : Channel A)
    : Type ℓ where
  pub marks : IsMarked laps q
  pub head_at : q.head ≡ stamp_at q.one_lap q.cap laps h
  pub tail_at : q.tail ≡ with_mark gone (stamp_at q.one_lap q.cap laps (h + length xs)) q.mark_bit
  pub held : Holds (stamp_at q.one_lap q.cap laps) q.cap h xs q.buffer

module _ {ℓ} {A : Type ℓ} {laps h : ℕ} {xs : List A} {gone : Bool} {q : Channel A}
    (r : Represents laps h xs gone q) where
  open r use {marks, head_at, tail_at, held}

  abbrev at : ℕ → ℕ
  at = stamp_at q.one_lap q.cap laps

  pub index-head : low_bits q.head q.mark_bit ≡ h % q.cap
  index-head = ap (λ s. low_bits s q.mark_bit) head_at ∙ index-stamp_at marks h

  pub suc-head : wrapping_add q.head 1 ≡ at h + 1
  suc-head = ap (λ s. wrapping_add s 1) head_at ∙ suc-stamp_at marks.layout h

  pub lap-head : wrapping_add q.head q.one_lap ≡ at (h + q.cap)
  lap-head = ap (λ s. wrapping_add s q.one_lap) head_at ∙ stamp_at-add_cap marks.layout h

  pub next-head : next_stamp q q.head ≡ at (h + 1)
  next-head = ap (next_stamp q) head_at ∙ next-stamp_at marks h

  -- What the tail says: its ticket, whether the channel is disconnected, and its slot.
  pub tail_parts :
      (unmark q.tail q.mark_bit ≡ at (h + length xs))
      × (marked q.tail q.mark_bit ≡ gone)
      × (low_bits q.tail q.mark_bit ≡ (h + length xs) % q.cap)
  tail_parts =
      let p = with_mark-unmark marks gone (h + length xs) in
      (
        ap (λ s. unmark s q.mark_bit) tail_at ∙ p.0,
        ap (λ s. marked s q.mark_bit) tail_at ∙ p.1,
        ap (λ s. low_bits s q.mark_bit) tail_at ∙ p.2,
      )

  -- The unmarked tail is one lap ahead of the head exactly when the channel is full.
  pub full_iff : (wrapping_add q.head q.one_lap ≡ unmark q.tail q.mark_bit) ↔ (length xs ≡ q.cap)
  full_iff = (
    λ e. omega (
      arith,
      held.room,
      stamp_at-injective marks.layout (h + length xs) (h + q.cap) (omega (arith, held.room))
          (omega arith) (sym tail_parts.0 ∙ sym e ∙ lap-head),
    ),
    λ e. lap-head ∙ ap (λ n. at (h + n)) (sym e) ∙ sym tail_parts.0,
  )

  -- It equals the head exactly when the channel is empty.
  pub empty_iff : (unmark q.tail q.mark_bit ≡ q.head) ↔ (length xs ≡ 0)
  empty_iff = (
    λ e. omega (
      arith,
      stamp_at-injective marks.layout h (h + length xs) (omega arith) (omega (arith, held.room))
          (sym head_at ∙ sym e ∙ tail_parts.0),
    ),
    λ e. tail_parts.0 ∙ ap at (omega arith) ∙ sym head_at,
  )

  -- The slot at the tail is free if there is room.
  pub tail_slot_free :
      length xs < q.cap → (q.buffer (low_bits q.tail q.mark_bit)).stamp ≡ at (h + length xs)
  tail_slot_free lt =
      ap (λ i. (q.buffer i).stamp) tail_parts.2
      ∙ held.free (h + length xs) (omega arith) (omega arith)

module _ {ℓ} {A : Type ℓ} {laps h : ℕ} {x : A} {xs : List A} {gone : Bool} {q : Channel A}
    (r : Represents laps h (x ∷ xs) gone q) where
  open r use {marks, head_at, tail_at, held}

  -- The slot at the head holds the oldest message.
  pub head_slot :
      q.buffer (low_bits q.head q.mark_bit)
      ≡ record { stamp = wrapping_add q.head 1; value = some x }
  head_slot =
      ap q.buffer (index-head r ∙ ap (λ p. p % q.cap) (omega arith))
      ∙ held.taken 0 x refl
      ∙ ap (λ s. record { stamp = s; value = some x })
          (ap (λ p. stamp_at q.one_lap q.cap laps p + 1) (omega arith) ∙ sym (suc-head r))

  -- In a full channel it is also the slot at the tail, whose stamp is not the tail.
  pub tail_slot_full :
      length (x ∷ xs) ≡ q.cap
      → ((q.buffer (low_bits q.tail q.mark_bit)).stamp ≡ wrapping_add q.head 1)
        × (unmark q.tail q.mark_bit ≢ wrapping_add q.head 1)
  tail_slot_full e = (
    ap (λ i. (q.buffer i).stamp)
          ((tail_parts r).2
            ∙ ap (λ n. (h + n) % q.cap) e
            ∙ add-mod_right h q.cap
            ∙ sym (index-head r))
        ∙ ap (λ s. s.stamp) head_slot,
    λ same.
        stamp_at-ne_suc marks.layout (h + length (x ∷ xs)) h
          (ap (λ n. (h + n) % q.cap) e ∙ add-mod_right h q.cap)
          (sym (tail_parts r).0 ∙ same ∙ suc-head r),
  )
