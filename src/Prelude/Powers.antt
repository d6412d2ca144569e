-- ===== src/Prelude/Powers.antt =====
-- What `checked_next_power_of_two` returns: a power of two that divides the modulus.
use Prim.Native.Nat.{ℕ, zero, suc, ◌+◌, ◌*◌, ◌^◌, ◌≤◌, ◌<◌}
use mathlib.Core.Path.{◌≡◌, refl, ap}
use mathlib.Core.Logic.{◌≢◌, inl, inr}
use mathlib.Core.Option.{some}
use native.Mathlib.Nat.{pow-suc, two-pow-succ, one-le-pow, mul_assoc}
use native.Mathlib.Omega.{arith}
use crossbeam.Prelude.Tests.{leb, Bool-cases, leb→le, le→leb}
use crossbeam.Prelude.Words.{word_mod, power_from, checked_next_power_of_two}

-- A power of two, at least `n`, that fits a word, and the number that times it makes up the modulus.
pub record NextPower (n p laps : ℕ) : Type 0 where
  pub large : n ≤ p
  pub whole : laps * p ≡ word_mod
  pub many : 2 ≤ laps
  pub halves : 2 < laps → (half : ℕ) × (laps ≡ 2 * half) × (2 ≤ half)

halved : (fuel p : ℕ) → 2 ^ suc fuel * p ≡ word_mod → 2 ^ fuel * (2 * p) ≡ word_mod
halved fuel p w = rw (← mul_assoc, ← pow-suc) w

power_from-NextPower :
    (fuel p n : ℕ) {r : ℕ}
    → power_from fuel p n ≡ some r
    → 2 ^ fuel * p ≡ word_mod
    → (laps : ℕ) × NextPower n r laps
unfolding power_from
power_from-NextPower zero p n e w = absurd (cc)
power_from-NextPower (suc fuel) p n {r} e w = elim (Bool-cases (leb n p)) [
  | inl fits ↦
      let same : p ≡ r = ground (arith, fits) in
      (
        2 ^ suc fuel,
        record {
          large = omega (arith, leb→le n p fits, same);
          whole = rw (← same) w;
          many = omega (arith, two-pow-succ fuel, one-le-pow fuel 2 (omega arith));
          halves = λ more.
              (2 ^ fuel, omega (arith, two-pow-succ fuel), omega (arith, two-pow-succ fuel));
        },
      )
  | inr more ↦ power_from-NextPower fuel (2 * p) n (ground (arith, more)) (halved fuel p w)
]

power_from-tight : (fuel p n : ℕ) {r : ℕ} → power_from fuel p n ≡ some r → p < 2 * n → r < 2 * n
unfolding power_from
power_from-tight zero p n e small = absurd (cc)
power_from-tight (suc fuel) p n {r} e small = elim (Bool-cases (leb n p)) [
  | inl fits ↦ let same : p ≡ r = ground (arith, fits) in omega arith
  | inr more ↦ power_from-tight fuel (2 * p) n (ground (arith, more)) (ground (arith, more))
]

power_from-total :
    (fuel p n : ℕ)
    → 2 ^ suc fuel * p ≡ word_mod
    → 2 * n ≤ word_mod
    → (r : ℕ) × (power_from (suc fuel) p n ≡ some r)
unfolding power_from
power_from-total zero p n w k = (p, rw (le→leb n p (omega (arith, last_power p w))))
  where
    last_power : (p : ℕ) → 2 ^ suc zero * p ≡ word_mod → 2 * p ≡ word_mod
    last_power p w = w
power_from-total (suc fuel) p n w k = elim (Bool-cases (leb n p)) [
  | inl fits ↦ (p, rw fits)
  | inr more ↦
      let (r, e) = power_from-total fuel (2 * p) n (halved (suc fuel) p w) k in (r, rw more e)
]

-- `checked_next_power_of_two` returns a power of two that is large enough and divides the modulus.
pub checked_next_power_of_two-NextPower :
    (n : ℕ) {r : ℕ} → checked_next_power_of_two n ≡ some r → (laps : ℕ) × NextPower n r laps
unfolding checked_next_power_of_two
checked_next_power_of_two-NextPower n e = power_from-NextPower 64 1 n e refl

-- It returns one whenever `2 ^ 63` is large enough.
pub checked_next_power_of_two-total :
    (n : ℕ) → 2 * n ≤ word_mod → (r : ℕ) × (checked_next_power_of_two n ≡ some r)
unfolding checked_next_power_of_two
checked_next_power_of_two-total n k = power_from-total 63 1 n refl k

-- What it returns for a positive number is less than twice that.
pub checked_next_power_of_two-tight :
    (n : ℕ) {r : ℕ} → checked_next_power_of_two n ≡ some r → 0 < n → r < 2 * n
unfolding checked_next_power_of_two
checked_next_power_of_two-tight n e pos = power_from-tight 64 1 n e (omega arith)

-- The search for a power of two finds one below `2 ^ 62` for a number that is not larger.
pub power_from-two_pow :
    (fuel j n : ℕ)
    → 62 < j + fuel
    → j ≤ 62
    → n ≤ 2 ^ 62
    → (k : ℕ) × (power_from fuel (2 ^ j) n ≡ some (2 ^ k)) × (k ≤ 62) × (n ≤ 2 ^ k)
unfolding power_from
power_from-two_pow zero j n enough small fits = absurd (omega arith)
power_from-two_pow (suc fuel) j n enough small fits = elim (Bool-cases (leb n (2 ^ j))) [
  | inl found ↦ (j, rw found refl, small, leb→le _ _ found)
  | inr more ↦
      let less : j ≢ 62 = λ top. ground (arith, more, ap (λ i. 2 ^ i) top) in
      let (k, e, k_le, k_fits) =
        power_from-two_pow fuel (suc j) n (omega arith) (omega (arith, less)) fits in
      let twice : 2 ^ suc j ≡ 2 * 2 ^ j = omega (arith, two-pow-succ j) in
      (k, rw (more, ← twice) e, k_le, k_fits)
]
