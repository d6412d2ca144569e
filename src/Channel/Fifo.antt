-- ===== src/Channel/Fifo.antt =====
-- The bounded channel as a list, oldest message first, and whether it is disconnected; and the calls
-- on it that do not block.
use crossbeam.Prelude.{ℕ, Bool, true, false, not, List, [], ◌∷◌, ◌++◌, length, if◌then◌else◌, ltb}
use crossbeam.Channel.Defs.{
  SendResult, sent, full, send_disconnected, RecvResult, received, empty, recv_disconnected,
}

-- A call, with the thread that makes it and the verdicts of its `compare_exchange_weak`s.
pub data Call {ℓ} (A : Type ℓ) : Type ℓ where
  try_send : ℕ → A → List Bool → Call A
  try_recv : ℕ → List Bool → Call A
  disconnect_senders : Call A

pub data Answer {ℓ} (A : Type ℓ) : Type ℓ where
  of_send : SendResult A → Answer A
  of_recv : RecvResult A → Answer A
  of_disconnect : Bool → Answer A

module _ {ℓ} {A : Type ℓ} where
  unfoldable pub step : ℕ → Call A → List A → Bool → Answer A × List A × Bool
  step cap (try_send _ msg _) xs true = (of_send (send_disconnected msg), xs, true)
  step cap (try_send _ msg _) xs false =
      if ltb (length xs) cap
      then (of_send sent, xs ++ (msg ∷ []), false)
      else (of_send (full msg), xs, false)
  step cap (try_recv _ _) (x ∷ xs) gone = (of_recv (received x), xs, gone)
  step cap (try_recv _ _) [] true = (of_recv recv_disconnected, [], true)
  step cap (try_recv _ _) [] false = (of_recv empty, [], false)
  step cap disconnect_senders xs gone = (of_disconnect (not gone), xs, true)

  unfoldable pub run : ℕ → List (Call A) → List A → Bool → List (Answer A)
  run cap [] xs gone = []
  run cap (c ∷ cs) xs gone = let (a, xs', gone') = step cap c xs gone in a ∷ run cap cs xs' gone'
