-- ===== src/SegQueue/Positions.antt =====
-- The indices of the values of a queue. The value with the ticket `t` stands in the block `t / 31` at
-- the offset `t % 31`; each block takes 32 positions, of which the last is never used.
use crossbeam.Prelude.{ℕ, ◌+◌, ◌*◌, ◌/◌, ◌%◌, ◌^◌, ◌<◌, ◌≡◌, arith}

abbrev pub position : ℕ → ℕ
position t = t / 31 * 32 + t % 31

pub position-offset : (t : ℕ) → position t % 32 ≡ t % 31
position-offset t = omega arith

pub position-block : (t : ℕ) → position t / 32 ≡ t / 31
position-block t = omega arith

pub position-next : (t : ℕ) → t % 31 + 1 < 31 → position (t + 1) ≡ position t + 1
position-next t more = omega arith

pub position-next_block : (t : ℕ) → t % 31 + 1 ≡ 31 → position (t + 1) ≡ position t + 2
position-next_block t last = omega arith

pub position-small : (t : ℕ) → t < 2 ^ 60 → position t < 2 ^ 61
position-small t small = omega arith

pub position-monotone : (s t : ℕ) → s < t → position s < position t
position-monotone s t less = omega arith

pub block-next : (t : ℕ) → t % 31 + 1 < 31 → (t + 1) / 31 ≡ t / 31
block-next t more = omega arith

pub block-next_block : (t : ℕ) → t % 31 + 1 ≡ 31 → (t + 1) / 31 ≡ t / 31 + 1
block-next_block t last = omega arith
