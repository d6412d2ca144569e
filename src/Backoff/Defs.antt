-- ===== src/Backoff/Defs.antt =====
-- `Backoff` is its `step`. What a call waits is returned: turns of a spin loop, or a yield of the thread
-- (where the standard library is there).
use crossbeam.Prelude.{ℕ, ◌+◌, ◌^◌, Bool, if◌then◌else◌, leb, ltb}

abbrev pub spin_limit : ℕ
spin_limit = 6

abbrev pub yield_limit : ℕ
yield_limit = 10

pub data Wait : Type 0 where
  spins : ℕ → Wait
  yields : Wait

abbrev pub new : ℕ
new = 0

abbrev pub reset : ℕ → ℕ
reset step = 0

unfoldable pub spin : ℕ → Wait × ℕ
spin step = (
  spins (2 ^ (if leb step spin_limit then step else spin_limit)),
  if leb step spin_limit then step + 1 else step,
)

unfoldable pub snooze : ℕ → Wait × ℕ
snooze step = (
  if leb step spin_limit then spins (2 ^ step) else yields,
  if leb step yield_limit then step + 1 else step,
)

unfoldable pub is_completed : ℕ → Bool
is_completed step = ltb yield_limit step

-- A call of `spin` or `snooze`.
pub data Call : Type 0 where
  spin_call : Call
  snooze_call : Call

abbrev pub step_of : Call → ℕ → Wait × ℕ
step_of spin_call step = spin step
step_of snooze_call step = snooze step
