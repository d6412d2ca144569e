-- ===== src/Prelude/Words.antt =====
-- Unsigned machine words as numbers below `2 ^ 64`, with the operations of Rust's `u64` and `usize`.
-- For a power of two `m`, `x & (m - 1)` is `x % m` and `x & !(m - 1)` is `x - x % m`.
use Prim.Native.Nat.{ℕ, zero, suc, ◌+◌, ◌-◌, ◌*◌, ◌%◌, ◌^◌}
use mathlib.Core.Option.{Option, none, some}
use crossbeam.Prelude.Tests.{leb, ltb, if◌then◌else◌}

abbrev pub word_mod : ℕ
word_mod = 2 ^ 64

-- `a.wrapping_add(b)`, and `a + b` where overflow checks are off.
abbrev pub wrapping_add : ℕ → ℕ → ℕ
wrapping_add a b = (a + b) % word_mod

-- `a.wrapping_sub(b)` for a word `b`; `-` on ℕ stops at 0, so the modulus is added first.
abbrev pub wrapping_sub : ℕ → ℕ → ℕ
wrapping_sub a b = (a + word_mod - b) % word_mod

-- `x & (m - 1)` for a power of two `m`
abbrev pub low_bits : ℕ → ℕ → ℕ
low_bits x m = x % m

-- `x & !(m - 1)` for a power of two `m`
abbrev pub high_bits : ℕ → ℕ → ℕ
high_bits x m = x - x % m

-- `u64::checked_add`
abbrev pub checked_add : ℕ → ℕ → Option ℕ
checked_add a b = if ltb (a + b) word_mod then some (a + b) else none

-- `u64::checked_mul`
abbrev pub checked_mul : ℕ → ℕ → Option ℕ
checked_mul a b = if ltb (a * b) word_mod then some (a * b) else none

-- The smallest of the powers `2 ^ k`, `2 ^ (k + 1)`, … of at most `fuel` terms that is at least `n`.
unfoldable pub power_from : ℕ → ℕ → ℕ → Option ℕ
power_from zero p n = none
power_from (suc fuel) p n = let more = power_from fuel (2 * p) n in if leb n p then some p else more

-- `u64::checked_next_power_of_two`: `2 ^ 63` is the largest power of two that is a word.
unfoldable pub checked_next_power_of_two : ℕ → Option ℕ
unfolding power_from
checked_next_power_of_two n = power_from 64 1 n
