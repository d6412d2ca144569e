-- ===== src/Channel/Refine.antt =====
-- No sequence of calls tells a `Channel` from the bounded list that it represents.
use crossbeam.Prelude.{
  ℕ, ◌+◌, ◌<◌, ◌≡◌, refl, ap, subst, arith, Bool, true, false, List, [], ◌∷◌, length, lt→ltb,
  not_lt→ltb, dec_lt,
}
use crossbeam.ArrayQueue.Defs.{Outcome, returned, undefined, out_of_fuel}
use crossbeam.Waker.Context.{World}
use crossbeam.Channel.Defs.{Channel, SendResult, RecvResult, full}
use crossbeam.Channel.Calls
use crossbeam.Channel.Fifo
use crossbeam.Channel.Fifo.{Call, Answer, of_send, of_recv, of_disconnect}
use crossbeam.Channel.Invariant.{Represents}
use crossbeam.Channel.Send.{try_send-gone, try_send-room, with_message-Represents, try_send-full}
use crossbeam.Channel.Recv.{
  try_recv-empty, try_recv-gone, try_recv-some, without_message-Represents,
}
use crossbeam.Channel.Disconnect.{disconnect_senders-cut, cut-Represents}

module _ {ℓ} {A : Type ℓ} where
  abbrev answer_send :
      Outcome (SendResult A × Channel A × World) → Outcome (Answer A × Channel A × World)
  answer_send (returned (r, q, w)) = returned (of_send r, q, w)
  answer_send undefined = undefined
  answer_send out_of_fuel = out_of_fuel

  abbrev answer_recv :
      Outcome (RecvResult A × Channel A × World) → Outcome (Answer A × Channel A × World)
  answer_recv (returned (r, q, w)) = returned (of_recv r, q, w)
  answer_recv undefined = undefined
  answer_recv out_of_fuel = out_of_fuel

  abbrev answer_disconnect : Bool × Channel A × World → Outcome (Answer A × Channel A × World)
  answer_disconnect (b, q, w) = returned (of_disconnect b, q, w)

  -- One call on the channel.
  unfoldable pub step : ℕ → Call A → World → Channel A → Outcome (Answer A × Channel A × World)
  step fuel (Call.try_send me msg verdicts) w q =
      answer_send (Calls.try_send fuel me w msg q verdicts)
  step fuel (Call.try_recv me verdicts) w q = answer_recv (Calls.try_recv fuel me w q verdicts)
  step fuel Call.disconnect_senders w q = answer_disconnect (Calls.disconnect_senders w q)

  -- The calls in order, with what each returns.
  unfoldable pub run : ℕ → List (Call A) → World → Channel A → Outcome (List (Answer A))
  run fuel [] w q = returned []
  run fuel (c ∷ cs) w q = elim (step fuel c w q) [
    | returned (a, q', w') ↦ elim (run fuel cs w' q') [
      | returned rest ↦ returned (a ∷ rest)
      | undefined ↦ undefined
      | out_of_fuel ↦ out_of_fuel
    ]
    | undefined ↦ undefined
    | out_of_fuel ↦ out_of_fuel
  ]

  abbrev pub verdicts_of : Call A → List Bool
  verdicts_of (Call.try_send _ _ verdicts) = verdicts
  verdicts_of (Call.try_recv _ verdicts) = verdicts
  verdicts_of Call.disconnect_senders = []

  -- The fuel exceeds the number of verdicts of each call.
  abbrev pub Enough : ℕ → List (Call A) → Type 0
  Enough fuel [] = Unit
  Enough fuel (c ∷ cs) = (length (verdicts_of c) < fuel) × Enough fuel cs

  -- A call on `q` answers and leaves what `r` says.
  abbrev Simulates : ℕ → ℕ → Call A → World → Channel A → Answer A × List A × Bool → Type ℓ
  Simulates laps fuel c w q r =
      (h' : ℕ) × (q' : Channel A) × (w' : World) × (step fuel c w q ≡ returned (r.0, q', w'))
      × Represents laps h' r.1 r.2 q'
      × (q'.cap ≡ q.cap)

  module _ (fuel : ℕ) (w : World) {laps h : ℕ} {q : Channel A} where
    full-Simulates :
        (me : ℕ) (msg : A) (verdicts : List Bool) (xs : List A)
        → Represents laps h xs false q
        → length verdicts < fuel
        → ¬ (length xs < q.cap)
        → Calls.try_send fuel me w msg q verdicts ≡ returned (full msg, q, w)
    full-Simulates me msg verdicts [] r lt no_room = absurd (no_room r.marks.layout.cap_pos)
    full-Simulates me msg verdicts (x ∷ xs) r lt no_room =
        try_send-full r (omega (arith, no_room, r.held.room)) fuel me w msg verdicts (omega arith)

    send-Simulates :
        (me : ℕ) (msg : A) (verdicts : List Bool) (xs : List A) (gone : Bool)
        → Represents laps h xs gone q
        → length verdicts < fuel
        → Simulates laps fuel
            (Call.try_send me msg verdicts)
            w
            q
            (Fifo.step q.cap (Call.try_send me msg verdicts) xs gone)
    unfolding step Fifo.step
    send-Simulates me msg verdicts xs true r lt =
        (h, q, w, ap answer_send (try_send-gone fuel me w msg verdicts r (omega arith)), r, refl)
    send-Simulates me msg verdicts xs false r lt = elim (dec_lt (length xs) q.cap) [
      | yes room ↦ rw (lt→ltb _ _ room) (
        h,
        _,
        _,
        ap answer_send (try_send-room r fuel me w msg verdicts room lt),
        with_message-Represents r msg _ room,
        refl,
      )
      | no no_room ↦
          rw (not_lt→ltb _ _ no_room)
            (h, q, w, ap answer_send (full-Simulates me msg verdicts xs r lt no_room), r, refl)
    ]

    recv-Simulates :
        (me : ℕ) (verdicts : List Bool) (xs : List A) (gone : Bool)
        → Represents laps h xs gone q
        → length verdicts < fuel
        → Simulates laps fuel
            (Call.try_recv me verdicts)
            w
            q
            (Fifo.step q.cap (Call.try_recv me verdicts) xs gone)
    unfolding step Fifo.step
    recv-Simulates me verdicts [] true r lt =
        (h, q, w, ap answer_recv (try_recv-gone fuel me w verdicts r (omega arith)), r, refl)
    recv-Simulates me verdicts [] false r lt =
        (h, q, w, ap answer_recv (try_recv-empty fuel me w verdicts r (omega arith)), r, refl)
    recv-Simulates me verdicts (x ∷ xs) gone r lt = (
      h + 1,
      _,
      _,
      ap answer_recv (try_recv-some r fuel me w verdicts lt),
      without_message-Represents r _,
      refl,
    )

    disconnect-Simulates :
        (xs : List A) (gone : Bool)
        → Represents laps h xs gone q
        → Simulates laps fuel Call.disconnect_senders w q
            (Fifo.step q.cap Call.disconnect_senders xs gone)
    unfolding step Fifo.step
    disconnect-Simulates xs false r =
        (h, _, _, ap answer_disconnect (disconnect_senders-cut r w), cut-Represents r _ _, refl)
    disconnect-Simulates xs true r =
        (h, _, _, ap answer_disconnect (disconnect_senders-cut r w), cut-Represents r _ _, refl)

  -- One call returns within its fuel, never reads uninitialised memory, and answers as the list does.
  pub step-Simulates :
      (fuel : ℕ) (c : Call A) (w : World) {laps h : ℕ} (xs : List A) (gone : Bool) {q : Channel A}
      → Represents laps h xs gone q
      → length (verdicts_of c) < fuel
      → Simulates laps fuel c w q (Fifo.step q.cap c xs gone)
  step-Simulates fuel (Call.try_send me msg verdicts) w xs gone r lt =
      send-Simulates fuel w me msg verdicts xs gone r lt
  step-Simulates fuel (Call.try_recv me verdicts) w xs gone r lt =
      recv-Simulates fuel w me verdicts xs gone r lt
  step-Simulates fuel Call.disconnect_senders w xs gone r lt = disconnect-Simulates fuel w xs gone r

  -- Any calls on a channel that represents `xs`, each with more fuel than verdicts, all return and
  -- give the answers that the bounded list gives from `xs`.
  pub calls_refine :
      (fuel : ℕ) (cs : List (Call A)) (w : World) {laps h : ℕ} (xs : List A) (gone : Bool)
      {q : Channel A}
      → Represents laps h xs gone q
      → Enough fuel cs
      → run fuel cs w q ≡ returned (Fifo.run q.cap cs xs gone)
  unfolding run Fifo.run
  calls_refine fuel [] w xs gone r lt = refl
  calls_refine fuel (c ∷ cs) w xs gone {q} r lt =
      let (h', q', w', e, r', same) = step-Simulates fuel c w xs gone r lt.0 in
      let next = Fifo.step q.cap c xs gone in
      let tail : run fuel cs w' q' ≡ returned (Fifo.run q.cap cs next.1 next.2) =
        subst (λ k. run fuel cs w' q' ≡ returned (Fifo.run k cs next.1 next.2)) same
          (calls_refine fuel cs w' _ _ r' lt.1) in
      ground (arith, e, tail)
