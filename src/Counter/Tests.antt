-- ===== src/Counter/Tests.antt =====
-- A channel whose only sender and receiver go, the receiver first, and each theorem about it.
use crossbeam.Prelude.{ℕ, ◌+◌, ◌≡◌, refl, arith, true, false, ltb}
use crossbeam.Counter.Defs.{
  gone, Side, Counter, new, release, disconnect_senders, disconnect_receivers, destroy_senders,
  destroy_receivers, release_sender, release_receiver, senders_disconnect, receivers_disconnect,
  senders_destroy, receivers_destroy, Steps, stay, then_step,
}
use crossbeam.Counter.Safety.{freed_once}

abbrev gone_side : Side
gone_side = record { count = 0; phase = gone }

-- The channel is a number here, to which each disconnection adds.
abbrev ended : Counter ℕ
ended = record { senders = gone_side; receivers = gone_side; destroy = true; freed = 1; chan = 11 }

abbrev add_one : ℕ → ℕ
add_one n = n + 1

abbrev add_ten : ℕ → ℕ
add_ten n = n + 10

to_end : Steps add_one add_ten (new 0) ended
unfolding release disconnect_senders disconnect_receivers destroy_senders destroy_receivers
to_end =
    then_step
      (then_step
        (then_step
          (then_step
            (then_step (then_step stay (release_receiver (omega arith)))
              (receivers_disconnect refl))
            (release_sender (omega arith)))
          (receivers_destroy refl))
        (senders_disconnect refl))
      (senders_destroy refl)

freed_once_example :
    (ended.freed ≡ 1) × (false ≡ ltb 0 ended.senders.count) × (false ≡ ltb 0 ended.receivers.count)
freed_once_example = freed_once add_one add_ten 0 to_end
