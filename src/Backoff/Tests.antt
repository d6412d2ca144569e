-- ===== src/Backoff/Tests.antt =====
-- Each theorem about a backoff at an input.
use crossbeam.Prelude.{◌≡◌, arith, true, List, [], ◌∷◌}
use crossbeam.Backoff.Defs.{new, is_completed, Call, spin_call, snooze_call}
use crossbeam.Backoff.Bounds.{after, snoozes, snoozes_complete}

abbrev calls : List Call
calls = spin_call ∷ snooze_call ∷ spin_call ∷ []

snoozes_complete_example : is_completed (after (snoozes 12) (after calls new)) ≡ true
snoozes_complete_example = snoozes_complete 12 calls (omega arith)
