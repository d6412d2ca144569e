-- ===== src/Channel/Marks.antt =====
-- The mark bit of the bounded channel's tail: it lies above the index and below the lap.
use native.Mathlib.Nat.{div-eq_of_lt-le, div-add-mod', mod-lt}
use crossbeam.Prelude.{
  ℕ, ◌+◌, ◌*◌, ◌/◌, ◌%◌, ◌<◌, ◌≡◌, sym, ap, ◌∙◌, arith, Bool, true, false, if◌then◌else◌, ltb,
  low_bits, high_bits, wrapping_add,
}
use crossbeam.Stamp.{IsLayout, stamp_at, stamp_at_lem, advance-stamp_at, low_bits-stamp_at}
use crossbeam.Channel.Defs.{marked, unmark, set_mark}

pub record IsMarkedLayout (one_lap cap mark laps : ℕ) : Type 0 where
  pub layout : IsLayout one_lap cap laps
  pub halves : one_lap ≡ 2 * mark
  pub below : cap < mark

abbrev pub with_mark : Bool → ℕ → ℕ → ℕ
with_mark true s mark = s + mark
with_mark false s mark = s

module _ {one_lap cap mark laps : ℕ} (g : IsMarkedLayout one_lap cap mark laps) where
  open g use {layout, halves, below}

  abbrev at : ℕ → ℕ
  at = stamp_at one_lap cap laps

  -- A stamp is an even number of marks and an index.
  parts : (p : ℕ) → at p ≡ (p / cap) % laps * 2 * mark + p % cap
  parts p =
      omega (arith, stamp_at_lem one_lap cap laps p, ap (λ (m : ℕ). p / cap % laps * m) halves)

  div-mark : (p : ℕ) → at p / mark ≡ (p / cap) % laps * 2
  div-mark p =
      div-eq_of_lt-le mark (omega (arith, parts p))
        (omega (arith, parts p, mod-lt p layout.cap_pos))

  div-mark_set : (p : ℕ) → (at p + mark) / mark ≡ (p / cap) % laps * 2 + 1
  div-mark_set p =
      div-eq_of_lt-le mark (omega (arith, parts p))
        (omega (arith, parts p, mod-lt p layout.cap_pos))

  pub marked-stamp_at : (p : ℕ) → marked (at p) mark ≡ false
  marked-stamp_at p = ground (arith, div-mark p)

  pub marked-set : (p : ℕ) → marked (at p + mark) mark ≡ true
  marked-set p = ground (arith, div-mark_set p)

  pub index-stamp_at : (p : ℕ) → low_bits (at p) mark ≡ p % cap
  index-stamp_at p =
      omega (arith, div-add-mod' (at p) mark, parts p, ap (λ (d : ℕ). d * mark) (div-mark p))

  pub index-set : (p : ℕ) → low_bits (at p + mark) mark ≡ p % cap
  index-set p =
      omega
        (arith, div-add-mod' (at p + mark) mark, parts p, ap (λ (d : ℕ). d * mark) (div-mark_set p))

  pub unmark-stamp_at : (p : ℕ) → unmark (at p) mark ≡ at p
  unmark-stamp_at p = ground (arith, marked-stamp_at p)

  pub unmark-set : (p : ℕ) → unmark (at p + mark) mark ≡ at p
  unmark-set p = ground (arith, marked-set p)

  -- The channel's next stamp is that of the next ticket.
  pub next-stamp_at :
      (p : ℕ)
      → (if ltb (low_bits (at p) mark + 1) cap
          then wrapping_add (at p) 1
          else wrapping_add (high_bits (at p) one_lap) one_lap)
        ≡ at (p + 1)
  next-stamp_at p =
      ap
        (λ i.
          if ltb (i + 1) cap
          then wrapping_add (at p) 1
          else wrapping_add (high_bits (at p) one_lap) one_lap)
        (index-stamp_at p ∙ sym (low_bits-stamp_at layout p))
      ∙ advance-stamp_at layout p

  -- The word that the tail is at a ticket, with the mark bit as `gone` says.
  pub with_mark-unmark :
      (gone : Bool) (p : ℕ)
      → (unmark (with_mark gone (at p) mark) mark ≡ at p)
        × (marked (with_mark gone (at p) mark) mark ≡ gone)
        × (low_bits (with_mark gone (at p) mark) mark ≡ p % cap)
        × (set_mark (with_mark gone (at p) mark) mark ≡ at p + mark)
  with_mark-unmark true p = (unmark-set p, marked-set p, index-set p, ground (arith, marked-set p))
  with_mark-unmark false p =
      (unmark-stamp_at p, marked-stamp_at p, index-stamp_at p, ground (arith, marked-stamp_at p))
