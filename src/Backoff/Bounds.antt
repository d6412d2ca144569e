-- ===== src/Backoff/Bounds.antt =====
-- The waits are bounded, and snoozing completes.
use crossbeam.Prelude.{
  ℕ, zero, suc, ◌+◌, ◌^◌, ◌≤◌, ◌≡◌, arith, true, List, [], ◌∷◌, Bool-cases, inl, inr, leb, leb→le,
}
use native.Mathlib.Nat.{pow-le-pow_right}
use crossbeam.Backoff.Defs.{
  Wait, spins, yields, new, spin_limit, yield_limit, spin, snooze, is_completed, Call, spin_call,
  snooze_call, step_of,
}

-- The step after a list of calls.
unfoldable pub after : List Call → ℕ → ℕ
after [] step = step
after (c ∷ cs) step = after cs (step_of c step).1

unfoldable pub snoozes : ℕ → List Call
snoozes zero = []
snoozes (suc n) = snooze_call ∷ snoozes n

-- At most 64 turns of the spin loop.
abbrev pub IsShort : Wait → Type 0
IsShort (spins n) = n ≤ 64
IsShort yields = Unit

step-bounded : (c : Call) (step : ℕ) → step ≤ 11 → (step_of c step).1 ≤ 11
unfolding spin snooze
step-bounded spin_call step le = ground (arith, le)
step-bounded snooze_call step le = ground (arith, le)

after-bounded : (cs : List Call) (step : ℕ) → step ≤ 11 → after cs step ≤ 11
unfolding after
after-bounded [] step le = le
after-bounded (c ∷ cs) step le = after-bounded cs (step_of c step).1 (step-bounded c step le)

power_small : (k : ℕ) → k ≤ 6 → 2 ^ k ≤ 64
power_small k le = pow-le-pow_right (omega arith) le

step_of-IsShort : (c : Call) (step : ℕ) → IsShort (step_of c step).0
unfolding spin snooze
step_of-IsShort spin_call step = elim (Bool-cases (leb step spin_limit)) [
  | inl few ↦ rw few (power_small step (leb→le _ _ few))
  | inr many ↦ rw many (power_small 6 (omega arith))
]
step_of-IsShort snooze_call step = elim (Bool-cases (leb step spin_limit)) [
  | inl few ↦ rw few (power_small step (leb→le _ _ few))
  | inr many ↦ rw many tt
]

-- After any calls the step is at most 11, and the next call spins at most 64 times or yields.
pub waits_bounded :
    (cs : List Call) (c : Call) → (after cs new ≤ 11) × IsShort (step_of c (after cs new)).0
waits_bounded cs c = (after-bounded cs 0 (omega arith), step_of-IsShort c (after cs new))

completes_from : (n step : ℕ) → 11 ≤ n + step → is_completed (after (snoozes n) step) ≡ true
unfolding after snoozes snooze is_completed
completes_from zero step le = ground (arith, le)
completes_from (suc n) step le = elim (Bool-cases (leb step yield_limit)) [
  | inl few ↦ rw (after, few) (completes_from n (step + 1) (omega (arith, le)))
  | inr many ↦ rw (after, many) (completes_from n step (ground (arith, many)))
]

-- Eleven snoozes or more complete a backoff, however many calls came before them.
pub snoozes_complete :
    (n : ℕ) (cs : List Call) → 11 ≤ n → is_completed (after (snoozes n) (after cs new)) ≡ true
snoozes_complete n cs le = completes_from n (after cs new) (omega (arith, le))
