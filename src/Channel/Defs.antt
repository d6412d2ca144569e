-- ===== src/Channel/Defs.antt =====
-- The state of the bounded channel and its methods.
use crossbeam.Prelude.{
  ℕ, zero, suc, ◌+◌, ◌-◌, ◌/◌, ◌%◌, Bool, true, false, Option, none, some, List, if◌then◌else◌,
  ◌==◌, ltb, low_bits, high_bits, wrapping_add, checked_add, checked_mul, checked_next_power_of_two,
}
use crossbeam.Ring.{Buffer, update}
use crossbeam.ArrayQueue.Defs.{Outcome, returned, undefined, out_of_fuel, cas_weak}
use crossbeam.Waker.Context.{World}
use crossbeam.Waker.Sync.{SyncWaker, new as new_waker}
use crossbeam.Waker.Sync

-- `Channel`; `cap` is `buffer.len()`.
pub record Channel {ℓ} (A : Type ℓ) : Type ℓ where
  pub head : ℕ
  pub tail : ℕ
  pub buffer : Buffer A
  pub cap : ℕ
  pub one_lap : ℕ
  pub mark_bit : ℕ
  pub senders : SyncWaker
  pub receivers : SyncWaker

-- `ArrayToken`: the index of the slot, none for a null pointer, and the stamp to store.
pub record Token : Type 0 where
  pub slot : Option ℕ
  pub stamp : ℕ

abbrev pub null_token : Token
null_token = record { slot = none; stamp = 0 }

-- For a power of two `mark`: `x & mark != 0`, `x & !mark` and `x | mark`.
abbrev pub marked : ℕ → ℕ → Bool
marked x mark = x / mark % 2 == 1

abbrev pub unmark : ℕ → ℕ → ℕ
unmark x mark = if marked x mark then x - mark else x

abbrev pub set_mark : ℕ → ℕ → ℕ
set_mark x mark = if marked x mark then x else x + mark

-- `TrySendError` and `TryRecvError`, as results.
pub data SendResult {ℓ} (A : Type ℓ) : Type ℓ where
  sent : SendResult A
  full : A → SendResult A
  send_disconnected : A → SendResult A

pub data RecvResult {ℓ} (A : Type ℓ) : Type ℓ where
  received : A → RecvResult A
  empty : RecvResult A
  recv_disconnected : RecvResult A

module _ {ℓ} {A : Type ℓ} where
  -- `Channel::with_capacity`; `none` is a panic.
  unfoldable pub with_capacity : ℕ → Option (Channel A)
  with_capacity cap = if cap == 0 then none else elim (checked_add cap 1) [
    | none ↦ none
    | some n ↦ elim (checked_next_power_of_two n) [
      | none ↦ none
      | some mark_bit ↦ elim (checked_mul mark_bit 2) [
        | none ↦ none
        | some one_lap ↦ some (record {
          head = 0;
          tail = 0;
          buffer = λ i. record { stamp = i; value = none };
          cap = cap;
          one_lap = one_lap;
          mark_bit = mark_bit;
          senders = new_waker;
          receivers = new_waker;
        })
      ]
    ]
  ]

  -- The stamp after `stamp`, as `start_send`, `start_recv` and `discard_all_messages` compute it.
  abbrev pub next_stamp : Channel A → ℕ → ℕ
  next_stamp q stamp =
      if ltb (low_bits stamp q.mark_bit + 1) q.cap
      then wrapping_add stamp 1
      else wrapping_add (high_bits stamp q.one_lap) q.one_lap

  -- The loop of `start_send`, entered with the tail that was read last.
  unfoldable pub send_loop : ℕ → ℕ → Channel A → List Bool → Outcome (Bool × Token × Channel A)
  send_loop zero tail q verdicts = out_of_fuel
  send_loop (suc fuel) tail q verdicts =
      let index = low_bits tail q.mark_bit in
      let stamp = (q.buffer index).stamp in
      let (won, rest) = cas_weak q.tail tail verdicts in
      elim (marked tail q.mark_bit) [
        | true ↦ returned (true, null_token, q)
        | false ↦ elim (tail == stamp) [
          | true ↦ elim won [
            | true ↦ returned (
              true,
              record { slot = some index; stamp = wrapping_add tail 1 },
              record q { tail = next_stamp q tail },
            )
            | false ↦ send_loop fuel q.tail q rest
          ]
          | false ↦ elim (wrapping_add stamp q.one_lap == wrapping_add tail 1) [
            | true ↦ elim (wrapping_add q.head q.one_lap == tail) [
              | true ↦ returned (false, null_token, q)
              | false ↦ send_loop fuel q.tail q verdicts
            ]
            | false ↦ send_loop fuel q.tail q verdicts
          ]
        ]
      ]

  unfoldable pub start_send : ℕ → Channel A → List Bool → Outcome (Bool × Token × Channel A)
  start_send fuel q verdicts = send_loop fuel q.tail q verdicts

  -- `write` on the thread `me`: `some` gives the message back.
  unfoldable pub write : ℕ → World → Token → A → Channel A → Option A × Channel A × World
  write me w token msg q = elim token.slot [
    | none ↦ (some msg, q, w)
    | some index ↦
        let (receivers, w') = Sync.notify me w q.receivers.is_empty q.receivers in
        (
          none,
          record q {
            buffer = update q.buffer index (record { stamp = token.stamp; value = some msg });
            receivers = receivers;
          },
          w',
        )
  ]

  -- The loop of `start_recv`, entered with the head that was read last.
  unfoldable pub recv_loop : ℕ → ℕ → Channel A → List Bool → Outcome (Bool × Token × Channel A)
  recv_loop zero head q verdicts = out_of_fuel
  recv_loop (suc fuel) head q verdicts =
      let index = low_bits head q.mark_bit in
      let stamp = (q.buffer index).stamp in
      let (won, rest) = cas_weak q.head head verdicts in
      elim (wrapping_add head 1 == stamp) [
        | true ↦ elim won [
          | true ↦ returned (
            true,
            record { slot = some index; stamp = wrapping_add head q.one_lap },
            record q { head = next_stamp q head },
          )
          | false ↦ recv_loop fuel q.head q rest
        ]
        | false ↦ elim (stamp == head) [
          | true ↦ elim (unmark q.tail q.mark_bit == head) [
            | true ↦ returned (marked q.tail q.mark_bit, null_token, q)
            | false ↦ recv_loop fuel q.head q verdicts
          ]
          | false ↦ recv_loop fuel q.head q verdicts
        ]
      ]

  unfoldable pub start_recv : ℕ → Channel A → List Bool → Outcome (Bool × Token × Channel A)
  start_recv fuel q verdicts = recv_loop fuel q.head q verdicts

  -- `read` on the thread `me`: `none` is `Err(())`; reading an empty slot is undefined.
  unfoldable pub read : ℕ → World → Token → Channel A → Outcome (Option A × Channel A × World)
  read me w token q = elim token.slot [
    | none ↦ returned (none, q, w)
    | some index ↦
        let (senders, w') = Sync.notify me w q.senders.is_empty q.senders in
        elim (q.buffer index).value [
          | none ↦ undefined
          | some msg ↦ returned (
            some msg,
            record q {
              buffer = update q.buffer index (record { stamp = token.stamp; value = some msg });
              senders = senders;
            },
            w',
          )
        ]
  ]
