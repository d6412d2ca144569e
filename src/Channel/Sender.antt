-- ===== src/Channel/Sender.antt =====
-- `SelectHandle` for the `Sender` of a bounded channel.
use crossbeam.Prelude.{ℕ, Bool, not, ◌||◌, Option, none, List}
use crossbeam.ArrayQueue.Defs.{Outcome}
use crossbeam.Waker.Sync
use crossbeam.Channel.Defs.{Channel, Token, start_send}
use crossbeam.Channel.Calls.{is_full, is_disconnected}

module _ {ℓ} {A : Type ℓ} where
  unfoldable pub try_select : ℕ → Channel A → List Bool → Outcome (Bool × Token × Channel A)
  try_select fuel q verdicts = start_send fuel q verdicts

  abbrev pub deadline : Channel A → Option ℕ
  deadline q = none

  unfoldable pub is_ready : Channel A → Bool
  unfolding is_full is_disconnected
  is_ready q = not (is_full q) || is_disconnected q

  unfoldable pub register : ℕ → ℕ → Channel A → Bool × Channel A
  unfolding is_ready Sync.register
  register oper cx q =
      let q' = record q { senders = Sync.register q.senders oper cx } in (is_ready q', q')

  unfoldable pub unregister : ℕ → Channel A → Channel A
  unfolding Sync.unregister
  unregister oper q = record q { senders = (Sync.unregister q.senders oper).1 }

  unfoldable pub accept : ℕ → Channel A → List Bool → Outcome (Bool × Token × Channel A)
  unfolding try_select
  accept fuel q verdicts = try_select fuel q verdicts

  unfoldable pub watch : ℕ → ℕ → Channel A → Bool × Channel A
  unfolding is_ready Sync.watch
  watch oper cx q =
      let q' = record q { senders = Sync.watch q.senders oper cx } in (is_ready q', q')

  unfoldable pub unwatch : ℕ → Channel A → Channel A
  unfolding Sync.unwatch
  unwatch oper q = record q { senders = Sync.unwatch q.senders oper }
