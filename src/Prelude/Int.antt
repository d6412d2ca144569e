-- ===== src/Prelude/Int.antt =====
-- Signed machine words: what a word means as an `i64` or `isize`, and the order on them.
use Prim.Native.Nat.{ℕ, ◌-◌, ◌/◌, ◌^◌, ◌<◌}
use mathlib.Core.Bool.{Bool, true, false}
use mathlib.Core.Path.{◌≡◌}
use native.Mathlib.Omega.{arith}
use crossbeam.Prelude.Tests.{ltb, leb, if◌then◌else◌}
use crossbeam.Prelude.Words.{word_mod}

-- A number, or one below -1 by a number.
pub data ℤ : Type 0 where
  pos : ℕ → ℤ
  negsuc : ℕ → ℤ

-- `w as i64`
abbrev pub as_signed : ℕ → ℤ
as_signed w = if ltb w (2 ^ 63) then pos w else negsuc (word_mod - 1 - w)

-- `>> 1`
abbrev pub halve : ℤ → ℤ
halve (pos n) = pos (n / 2)
halve (negsuc n) = negsuc (n / 2)

abbrev pub ltb_int : ℤ → ℤ → Bool
ltb_int (pos a) (pos b) = ltb a b
ltb_int (pos a) (negsuc b) = false
ltb_int (negsuc a) (pos b) = true
ltb_int (negsuc a) (negsuc b) = ltb b a

abbrev pub leb_int : ℤ → ℤ → Bool
leb_int (pos a) (pos b) = leb a b
leb_int (pos a) (negsuc b) = false
leb_int (negsuc a) (pos b) = true
leb_int (negsuc a) (negsuc b) = leb b a

-- `x.max(0) as usize`
abbrev pub to_nat : ℤ → ℕ
to_nat (pos n) = n
to_nat (negsuc n) = 0

pub as_signed-pos : (n : ℕ) → n < 2 ^ 63 → as_signed n ≡ pos n
as_signed-pos n small = ground arith
