-- ===== src/Stamp.antt =====
-- The stamps of the two ring buffers, `crossbeam-queue/src/array_queue.rs` and
-- `crossbeam-channel/src/flavors/array.rs`: a lap and an index packed into one 64-bit word.
-- A ticket counts the elements since the queue was made, without wrapping; `stamp_at` packs it.
use native.Mathlib.Nat.{
  mod-lt, mod-add-mod, mod-eq-sub-mod, div-eq_of_lt, mod-eq_of_lt, mul-add-mod_self_right,
  add-mod_right, add-div_right, div-add-mod', div-eq_of_lt-le, add_assoc, eq_of_mul-eq-mul_right,
  le-div_iff_mul-le,
}
use crossbeam.Prelude.{
  ℕ, ◌+◌, ◌-◌, ◌*◌, ◌/◌, ◌%◌, ◌≤◌, ◌<◌, ◌≡◌, ◌≢◌, refl, sym, ap, ◌∙◌, ltb, if◌then◌else◌, low_bits,
  high_bits, wrapping_add, wrapping_sub, word_mod, subst, arith, dec_lt, lt→ltb, not_lt→ltb,
}

-- The stamp after `stamp`: the next index of the same lap, or index 0 one lap forward.
abbrev pub advance : ℕ → ℕ → ℕ → ℕ
advance one_lap cap stamp =
    if ltb (low_bits stamp one_lap + 1) cap
    then wrapping_add stamp 1
    else wrapping_add (high_bits stamp one_lap) one_lap

-- A lap is larger than the capacity, and a whole number of laps, two at least, makes up a word.
pub record IsLayout (one_lap cap laps : ℕ) : Type 0 where
  pub cap_pos : 0 < cap
  pub fits : cap < one_lap
  pub whole : laps * one_lap ≡ word_mod
  pub many : 2 ≤ laps

-- The stamp of a ticket.
pub stamp_at : ℕ → ℕ → ℕ → ℕ → ℕ
stamp_at one_lap cap laps p = (p / cap) % laps * one_lap + p % cap

pub stamp_at_lem :
    (one_lap cap laps p : ℕ) → stamp_at one_lap cap laps p ≡ (p / cap) % laps * one_lap + p % cap
unfolding stamp_at
stamp_at_lem one_lap cap laps p = refl

div-suc_lap : (p cap : ℕ) → 0 < cap → cap ≤ p % cap + 1 → (p + 1) / cap ≡ p / cap + 1
div-suc_lap p cap h k =
    div-eq_of_lt-le cap (omega (arith, div-add-mod' p cap, mod-lt p h))
      (omega (arith, div-add-mod' p cap, mod-lt p h))

div-suc_same : (p cap : ℕ) → p % cap + 1 < cap → (p + 1) / cap ≡ p / cap
div-suc_same p cap k =
    div-eq_of_lt-le cap (omega (arith, div-add-mod' p cap)) (omega (arith, div-add-mod' p cap))

mod-suc_lap : (p cap : ℕ) → 0 < cap → cap ≤ p % cap + 1 → (p + 1) % cap ≡ 0
mod-suc_lap p cap h k = omega (
  arith,
  div-add-mod' p cap,
  div-add-mod' (p + 1) cap,
  div-suc_lap p cap h k,
  mod-lt p h,
  ap (λ (d : ℕ). d * cap) (div-suc_lap p cap h k),
)

mod-suc_same : (p cap : ℕ) → p % cap + 1 < cap → (p + 1) % cap ≡ p % cap + 1
mod-suc_same p cap k = omega (
  arith,
  div-add-mod' p cap,
  div-add-mod' (p + 1) cap,
  ap (λ (d : ℕ). d * cap) (div-suc_same p cap k),
)

mod-suc-ne : (d m : ℕ) → 2 ≤ m → (d + 1) % m ≢ d % m
mod-suc-ne d m h e = elim (dec_lt (d % m + 1) m) [
  | yes l ↦ omega (arith, mod-suc_same d m l)
  | no l ↦ omega (arith, mod-suc_lap d m (omega arith) (omega arith))
]

module _ {one_lap cap laps : ℕ} (g : IsLayout one_lap cap laps) where
  open g use {cap_pos, fits, whole, many}

  lap_bound : (p : ℕ) → (p / cap) % laps * one_lap + one_lap ≤ word_mod
  lap_bound p = grind (arith, mod-lt (p / cap) {m = laps} (omega arith))

  -- The low bits of a stamp are the ticket's slot.
  pub low_bits-stamp_at : (p : ℕ) → low_bits (stamp_at one_lap cap laps p) one_lap ≡ p % cap
  unfolding stamp_at
  low_bits-stamp_at p =
      mul-add-mod_self_right ((p / cap) % laps) one_lap (p % cap)
      ∙ mod-eq_of_lt (omega (arith, mod-lt p cap_pos))

  pub slot-lt-cap : (p : ℕ) → p % cap < cap
  slot-lt-cap p = mod-lt p cap_pos

  pub high_bits-stamp_at :
      (p : ℕ) → high_bits (stamp_at one_lap cap laps p) one_lap ≡ (p / cap) % laps * one_lap
  unfolding stamp_at
  high_bits-stamp_at p = omega (arith, low_bits-stamp_at p)

  -- Adding one to a stamp never overflows.
  pub suc-stamp_at-lt : (p : ℕ) → stamp_at one_lap cap laps p + 1 < word_mod
  unfolding stamp_at
  suc-stamp_at-lt p = omega (arith, lap_bound p, mod-lt p cap_pos)

  pub suc-stamp_at :
      (p : ℕ) → wrapping_add (stamp_at one_lap cap laps p) 1 ≡ stamp_at one_lap cap laps p + 1
  suc-stamp_at p = mod-eq_of_lt (suc-stamp_at-lt p)

  small_lap : (l : ℕ) → l < laps → l * one_lap + one_lap ≤ word_mod
  small_lap l h = grind arith

  -- One lap forward from a lap.
  next_lap : (l : ℕ) → wrapping_add (l % laps * one_lap) one_lap ≡ (l + 1) % laps * one_lap
  next_lap l = elim (dec_lt (l % laps + 1) laps) [
    | yes h ↦ rw (mod-suc_same l laps h) (omega (arith, small_lap (l % laps + 1) h))
    | no h ↦
        rw (mod-suc_lap l laps (omega arith) (omega arith))
          (omega (arith, whole, ap (λ (d : ℕ). d * one_lap) (last l h)))
  ]
    where
      last : (k : ℕ) → ¬ (k % laps + 1 < laps) → k % laps + 1 ≡ laps
      last k q = omega (arith, mod-lt k {m = laps} (omega arith))

  -- The code's advance moves a stamp to the next ticket.
  pub advance-stamp_at :
      (p : ℕ)
      → advance one_lap cap (stamp_at one_lap cap laps p) ≡ stamp_at one_lap cap laps (p + 1)
  advance-stamp_at p = rw (low_bits-stamp_at p) (elim (dec_lt (p % cap + 1) cap) [
    | yes h ↦ rw (lt→ltb _ _ h) (suc-stamp_at p ∙ same h)
    | no h ↦ rw (not_lt→ltb _ _ h) (lap h)
  ])
    where
      same : p % cap + 1 < cap → stamp_at one_lap cap laps p + 1 ≡ stamp_at one_lap cap laps (p + 1)
      same h = unfold stamp_at in rw (div-suc_same p cap h, mod-suc_same p cap h) (omega arith)

      lap :
          ¬ (p % cap + 1 < cap)
          → (stamp_at one_lap cap laps p - p % cap + one_lap) % word_mod
            ≡ stamp_at one_lap cap laps (p + 1)
      lap h =
          unfold stamp_at in
          rw (div-suc_lap p cap cap_pos (omega arith), mod-suc_lap p cap cap_pos (omega arith))
            (omega (arith, next_lap (p / cap)))

  -- One lap forward is one capacity of tickets.
  pub stamp_at-add_cap :
      (p : ℕ)
      → wrapping_add (stamp_at one_lap cap laps p) one_lap ≡ stamp_at one_lap cap laps (p + cap)
  unfolding stamp_at
  stamp_at-add_cap p =
      rw (add-div_right p cap_pos, add-mod_right)
        (omega (
          arith,
          next_lap (p / cap),
          lap_bound p,
          small_lap ((p / cap + 1) % laps) (mod-lt (p / cap + 1) {m = laps} (omega arith)),
          mod-lt p cap_pos,
        ))

  one_lap-lt : one_lap < word_mod
  one_lap-lt = grind arith

  -- One lap back is one capacity of tickets back.
  pub stamp_at-sub_cap :
      (p : ℕ)
      → wrapping_sub (stamp_at one_lap cap laps (p + cap)) one_lap ≡ stamp_at one_lap cap laps p
  stamp_at-sub_cap p =
      omega (arith, stamp_at-add_cap p, suc-stamp_at-lt p, suc-stamp_at-lt (p + cap), one_lap-lt)

  -- In the first lap a stamp is its ticket.
  pub stamp_at-small : (p : ℕ) → p < cap → stamp_at one_lap cap laps p ≡ p
  unfolding stamp_at
  stamp_at-small p h =
      rw (div-eq_of_lt h, mod-eq_of_lt h, mod-eq_of_lt {n = 0} {m = laps} (omega arith))
        (omega arith)

  -- Within one capacity, different tickets have different stamps.
  pub stamp_at-injective :
      (p q : ℕ)
      → p ≤ q
      → q ≤ p + cap
      → stamp_at one_lap cap laps p ≡ stamp_at one_lap cap laps q
      → p ≡ q
  unfolding stamp_at
  stamp_at-injective p q h k e = elim (dec_lt (p / cap) (q / cap)) [
    | yes lt ↦ absurd (mod-suc-ne (p / cap) laps many (rw (one_more lt) (sym same_lap)))
    | no ge ↦ omega (
      arith,
      between,
      div-add-mod' p cap,
      div-add-mod' q cap,
      same_slot,
      ap (λ (d : ℕ). d * cap) (same_div ge),
    )
  ]
    where
      same_slot : p % cap ≡ q % cap
      same_slot = sym (low_bits-stamp_at p) ∙ ap (λ s. s % one_lap) e ∙ low_bits-stamp_at q

      same_lap : p / cap % laps ≡ q / cap % laps
      same_lap =
          eq_of_mul-eq-mul_right one_lap (omega arith) (p / cap % laps) (q / cap % laps)
            (omega (arith, same_slot))

      div_mono : {a b : ℕ} → a ≤ b → a / cap ≤ b / cap
      div_mono {a} le = (le-div_iff_mul-le cap_pos).1 (omega (arith, div-add-mod' a cap))

      between : (p / cap ≤ q / cap) × (q / cap ≤ p / cap + 1)
      between = (div_mono h, subst (λ d. q / cap ≤ d) (add-div_right p cap_pos) (div_mono k))

      one_more : p / cap < q / cap → p / cap + 1 ≡ q / cap
      one_more lt = omega (arith, between)

      same_div : ¬ (p / cap < q / cap) → p / cap ≡ q / cap
      same_div ge = omega (arith, between)

  low_bits-suc : (q : ℕ) → (stamp_at one_lap cap laps q + 1) % one_lap ≡ q % cap + 1
  unfolding stamp_at
  low_bits-suc q = rw (add_assoc (q / cap % laps * one_lap) (q % cap) 1) (
      mul-add-mod_self_right (q / cap % laps) one_lap (q % cap + 1)
      ∙ mod-eq_of_lt (omega (arith, slot-lt-cap q)))

  -- The stamp of an empty slot is not the stamp of a full one.
  pub stamp_at-ne_suc :
      (p q : ℕ) → p % cap ≡ q % cap → stamp_at one_lap cap laps p ≢ stamp_at one_lap cap laps q + 1
  stamp_at-ne_suc p q h e =
      omega
        (arith, low_bits-stamp_at p, low_bits-stamp_at q, low_bits-suc q, ap (λ s. s % one_lap) e)

-- Two tickets less than one capacity apart have different slots.
pub slot-injective : (cap p q : ℕ) → 0 < cap → p ≤ q → q < p + cap → p % cap ≡ q % cap → p ≡ q
slot-injective cap p q c h k e = omega (arith, div-add-mod' p cap, div-add-mod' q cap, multiple)
  where
    multiple : p / cap * cap ≡ q / cap * cap
    multiple = grind (arith, div-add-mod' p cap, div-add-mod' q cap)

-- The slot `n` tickets after another, without a division.
pub slot-add :
    (cap h n : ℕ)
    → 0 < cap
    → n ≤ cap
    → (h + n) % cap ≡ (if ltb (h % cap + n) cap then h % cap + n else h % cap + n - cap)
slot-add cap h n pos le = elim (dec_lt (h % cap + n) cap) [
  | yes lt ↦ rw (lt→ltb _ _ lt, ← mod-add-mod) (mod-eq_of_lt lt)
  | no ge ↦
      rw (not_lt→ltb _ _ ge, ← mod-add-mod, mod-eq-sub-mod (not_lt ge))
        (mod-eq_of_lt (omega (arith, mod-lt h pos)))
]
  where
    not_lt : ¬ (h % cap + n < cap) → cap ≤ h % cap + n
    not_lt ge = omega arith
