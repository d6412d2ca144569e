-- ===== src/Channel/Ready.antt =====
-- What `SelectHandle::is_ready` promises to `select`.
use crossbeam.Prelude.{
  ℕ, ◌<◌, ◌≡◌, ap, ◌∙◌, arith, Bool, true, false, List, [], ◌∷◌, length, dec_lt,
}
use crossbeam.ArrayQueue.Defs.{Outcome, returned}
use crossbeam.Channel.Defs.{Channel, Token, start_send, start_recv}
use crossbeam.Channel.Calls.{is_empty, is_full, is_disconnected}
use crossbeam.Channel.Invariant.{Represents, tail_parts, empty_iff, full_iff}
use crossbeam.Channel.Send.{start_send-gone, start_loop-room, start_send-full}
use crossbeam.Channel.Recv.{start_recv-empty, recv_loop-some}
use crossbeam.Channel.Receiver
use crossbeam.Channel.Sender

-- An attempt that returns the flag `b` returns whatever `b` equals.
as_ready {ℓ} :
    {A : Type ℓ} {o : Outcome (Bool × Token × Channel A)} {b ready : Bool} {token : Token}
    {q : Channel A}
    → o ≡ returned (b, token, q)
    → b ≡ ready
    → (t : Token) × (p : Channel A) × (o ≡ returned (ready, t, p))
as_ready {token = token} {q = q} e same = (token, q, e ∙ ap (λ b. returned (b, token, q)) same)

module _ {ℓ} {A : Type ℓ} {laps h : ℕ} (fuel : ℕ) (verdicts : List Bool)
    (lt : length verdicts < fuel) where
  -- `try_select` of a receiver returns and finds a slot, or a disconnected channel, exactly where
  -- `is_ready` says so, with more fuel than verdicts.
  pub receiver_ready :
      (xs : List A) (gone : Bool) {q : Channel A}
      → Represents laps h xs gone q
      → (token : Token) × (q' : Channel A) × (Receiver.try_select fuel q verdicts
          ≡ returned (Receiver.is_ready q, token, q'))
  unfolding Receiver.try_select Receiver.is_ready is_empty is_disconnected start_recv
  receiver_ready [] gone r =
      as_ready (start_recv-empty r fuel verdicts (omega (arith, lt)))
        (ground (arith, (tail_parts r).1, empty_iff r))
  receiver_ready (x ∷ xs) gone r =
      as_ready (recv_loop-some r fuel verdicts lt) (ground (arith, empty_iff r))

  -- `try_select` of a sender returns and finds a slot, or a disconnected channel, exactly where
  -- `is_ready` says so, with more fuel than verdicts.
  pub sender_ready :
      (xs : List A) (gone : Bool) {q : Channel A}
      → Represents laps h xs gone q
      → (token : Token) × (q' : Channel A) × (Sender.try_select fuel q verdicts
          ≡ returned (Sender.is_ready q, token, q'))
  unfolding Sender.try_select Sender.is_ready is_full is_disconnected start_send
  sender_ready xs true r =
      as_ready (start_send-gone fuel verdicts r (omega (arith, lt)))
        (ground (arith, (tail_parts r).1))
  sender_ready [] false r =
      as_ready (start_loop-room r fuel verdicts r.marks.layout.cap_pos lt)
        (ground (arith, full_iff r, r.marks.layout.cap_pos))
  sender_ready (x ∷ xs) false {q} r = elim (dec_lt (length (x ∷ xs)) q.cap) [
    | yes room ↦
        as_ready (start_loop-room r fuel verdicts room lt) (ground (arith, full_iff r, room))
    | no none_left ↦
        let all : length (x ∷ xs) ≡ q.cap = omega (arith, none_left, r.held.room) in
        as_ready (start_send-full r all fuel verdicts (omega (arith, lt)))
          (ground (arith, (tail_parts r).1, full_iff r, all))
  ]
