-- ===== src/Channel/Calls.antt =====
-- The calls of the bounded channel that do not block, disconnection, and the methods that look.
use crossbeam.Prelude.{
  ℕ, zero, suc, ◌+◌, ◌-◌, Bool, true, false, not, Option, none, some, List, [], ◌∷◌, if◌then◌else◌,
  ◌==◌, ltb, low_bits, wrapping_add,
}
use crossbeam.ArrayQueue.Defs.{Outcome, returned, undefined, out_of_fuel}
use crossbeam.Waker.Context.{World}
use crossbeam.Waker.Sync
use crossbeam.Channel.Defs.{
  Channel, marked, unmark, set_mark, SendResult, sent, full, send_disconnected, RecvResult,
  received, empty, recv_disconnected, next_stamp, start_send, write, start_recv, read,
}

module _ {ℓ} {A : Type ℓ} where
  unfoldable pub try_send :
      ℕ → ℕ → World → A → Channel A → List Bool → Outcome (SendResult A × Channel A × World)
  try_send fuel me w msg q verdicts = elim (start_send fuel q verdicts) [
    | returned (true, token, q') ↦
        let (back, q'', w') = write me w token msg q' in
        elim back [
          | none ↦ returned (sent, q'', w')
          | some m ↦ returned (send_disconnected m, q'', w')
        ]
    | returned (false, token, q') ↦ returned (full msg, q', w)
    | undefined ↦ undefined
    | out_of_fuel ↦ out_of_fuel
  ]

  unfoldable pub try_recv :
      ℕ → ℕ → World → Channel A → List Bool → Outcome (RecvResult A × Channel A × World)
  try_recv fuel me w q verdicts = elim (start_recv fuel q verdicts) [
    | returned (true, token, q') ↦ elim (read me w token q') [
      | returned (some msg, q'', w') ↦ returned (received msg, q'', w')
      | returned (none, q'', w') ↦ returned (recv_disconnected, q'', w')
      | undefined ↦ undefined
      | out_of_fuel ↦ out_of_fuel
    ]
    | returned (false, token, q') ↦ returned (empty, q', w)
    | undefined ↦ undefined
    | out_of_fuel ↦ out_of_fuel
  ]

  -- The last sender goes.
  unfoldable pub disconnect_senders : World → Channel A → Bool × Channel A × World
  disconnect_senders w q =
      let (receivers, w') = Sync.disconnect w q.receivers in
      let q' = record q { tail = set_mark q.tail q.mark_bit } in
      if marked q.tail q.mark_bit
      then (false, q', w)
      else (true, record q' { receivers = receivers }, w')

  -- The loop of `discard_all_messages`: the messages that it drops, in order. The head of the channel
  -- is not stored.
  unfoldable pub discard_loop : ℕ → ℕ → ℕ → Channel A → Outcome (List (Option A))
  discard_loop zero head tail q = out_of_fuel
  discard_loop (suc fuel) head tail q =
      let slot = q.buffer (low_bits head q.mark_bit) in
      let rest = discard_loop fuel (next_stamp q head) tail q in
      let again = discard_loop fuel head tail q in
      elim (wrapping_add head 1 == slot.stamp) [
        | true ↦ elim rest [
          | returned dropped ↦ returned (slot.value ∷ dropped)
          | undefined ↦ undefined
          | out_of_fuel ↦ out_of_fuel
        ]
        | false ↦ if tail == head then returned [] else again
      ]

  -- The last receiver goes: whether it disconnected the channel, and what it dropped.
  unfoldable pub disconnect_receivers :
      ℕ → World → Channel A → Outcome (Bool × List (Option A) × Channel A × World)
  disconnect_receivers fuel w q =
      let (senders, w') = Sync.disconnect w q.senders in
      let was = marked q.tail q.mark_bit in
      let q' = record q { tail = set_mark q.tail q.mark_bit } in
      let q'' = if was then q' else record q' { senders = senders } in
      elim (discard_loop fuel q.head (unmark q.tail q.mark_bit) q'') [
        | returned dropped ↦ returned (not was, dropped, q'', if was then w else w')
        | undefined ↦ undefined
        | out_of_fuel ↦ out_of_fuel
      ]

  unfoldable pub is_disconnected : Channel A → Bool
  is_disconnected q = marked q.tail q.mark_bit

  unfoldable pub is_empty : Channel A → Bool
  is_empty q = unmark q.tail q.mark_bit == q.head

  unfoldable pub is_full : Channel A → Bool
  is_full q = wrapping_add q.head q.one_lap == unmark q.tail q.mark_bit

  unfoldable pub capacity : Channel A → Option ℕ
  capacity q = some q.cap

  -- `len`: with no other thread the second read of the tail agrees with the first.
  unfoldable pub len : Channel A → ℕ
  len q =
      let hix = low_bits q.head q.mark_bit in
      let tix = low_bits q.tail q.mark_bit in
      if ltb hix tix
      then tix - hix
      else if ltb tix hix
      then q.cap - hix + tix
      else if unmark q.tail q.mark_bit == q.head
      then 0
      else q.cap
