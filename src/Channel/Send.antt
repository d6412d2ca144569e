-- ===== src/Channel/Send.antt =====
-- `try_send` against a bounded list of messages.
use crossbeam.Prelude.{
  ℕ, zero, suc, ◌+◌, ◌%◌, ◌<◌, ◌≡◌, refl, sym, ap, subst, ◌∙◌, arith, Bool, true, false, some, List,
  [], ◌∷◌, ◌++◌, length, length-snoc, low_bits, wrapping_add,
}
use crossbeam.Stamp.{stamp_at, suc-stamp_at}
use crossbeam.Ring.{update, Holds, Holds-write}
use crossbeam.ArrayQueue.Defs.{returned, cas_weak}
use crossbeam.Waker.Context.{World}
use crossbeam.Waker.Sync.{SyncWaker}
use crossbeam.Waker.Sync
use crossbeam.Channel.Defs.{
  Channel, Token, null_token, marked, unmark, next_stamp, sent, full, send_disconnected, send_loop,
  start_send, write,
}
use crossbeam.Channel.Calls.{try_send}
use crossbeam.Channel.Marks.{next-stamp_at}
use crossbeam.Channel.Invariant.{Represents, tail_parts, full_iff, tail_slot_free, tail_slot_full}

module _ {ℓ} {A : Type ℓ} {laps h : ℕ} {xs : List A} {q : Channel A} where
  -- On a disconnected channel the token is null.
  pub start_send-gone :
      (fuel : ℕ) (verdicts : List Bool)
      → Represents laps h xs true q
      → 0 < fuel
      → start_send fuel q verdicts ≡ returned (true, null_token, q)
  unfolding start_send send_loop
  start_send-gone zero verdicts r lt = absurd (omega arith)
  start_send-gone (suc fuel) verdicts r lt = ground (arith, (tail_parts r).1)

  -- `try_send` on a disconnected channel gives the message back and changes nothing.
  pub try_send-gone :
      (fuel me : ℕ) (w : World) (msg : A) (verdicts : List Bool)
      → Represents laps h xs true q
      → 0 < fuel
      → try_send fuel me w msg q verdicts ≡ returned (send_disconnected msg, q, w)
  unfolding try_send write
  try_send-gone fuel me w msg verdicts r lt = ground (arith, start_send-gone fuel verdicts r lt)

module _ {ℓ} {A : Type ℓ} {laps h : ℕ} {xs : List A} {q : Channel A}
    (r : Represents laps h xs false q) where
  open r use {marks, head_at, tail_at, held}

  connected : marked q.tail q.mark_bit ≡ false
  connected = (tail_parts r).1

  suc-tail : wrapping_add q.tail 1 ≡ stamp_at q.one_lap q.cap laps (h + length xs) + 1
  suc-tail = ap (λ s. wrapping_add s 1) tail_at ∙ suc-stamp_at marks.layout (h + length xs)

  tail_free : length xs < q.cap → (q.buffer (low_bits q.tail q.mark_bit)).stamp ≡ q.tail
  tail_free room = tail_slot_free r room ∙ sym tail_at

  -- The token of a claimed slot.
  abbrev claim : Token
  claim = record { slot = some (low_bits q.tail q.mark_bit); stamp = wrapping_add q.tail 1 }

  pub start_loop-room :
      (fuel : ℕ) (verdicts : List Bool)
      → length xs < q.cap
      → length verdicts < fuel
      → send_loop fuel q.tail q verdicts
        ≡ returned (true, claim, record q { tail = next_stamp q q.tail })
  unfolding send_loop cas_weak
  start_loop-room zero verdicts room lt = absurd (omega arith)
  start_loop-room (suc fuel) [] room lt = ground (arith, connected, tail_free room)
  start_loop-room (suc fuel) (false ∷ verdicts) room lt = ground (arith, connected, tail_free room)
  start_loop-room (suc fuel) (true ∷ verdicts) room lt =
      ground (arith, connected, tail_free room, start_loop-room fuel verdicts room)

  -- The channel with the message in the slot at its tail, and its receivers notified.
  abbrev pub with_message : A → SyncWaker → Channel A
  with_message msg receivers = record q {
    tail = next_stamp q q.tail;
    buffer =
        update q.buffer (low_bits q.tail q.mark_bit)
          (record { stamp = wrapping_add q.tail 1; value = some msg });
    receivers = receivers;
  }

  -- On a connected channel with room, with more fuel than verdicts, `try_send` returns `Ok`, leaves
  -- the message in the slot at the tail, and notifies the receivers.
  pub try_send-room :
      (fuel me : ℕ) (w : World) (msg : A) (verdicts : List Bool)
      → length xs < q.cap
      → length verdicts < fuel
      → let (receivers, w') = Sync.notify me w q.receivers.is_empty q.receivers in
        try_send fuel me w msg q verdicts ≡ returned (sent, with_message msg receivers, w')
  unfolding try_send start_send write
  try_send-room fuel me w msg verdicts room lt =
      ground (arith, start_loop-room fuel verdicts room lt)

  -- The message is then the last one that the channel holds.
  pub with_message-Represents :
      (msg : A) (receivers : SyncWaker)
      → length xs < q.cap
      → Represents laps h (xs ++ (msg ∷ [])) false (with_message msg receivers)
  with_message-Represents msg receivers room = record {
    marks = marks;
    head_at = head_at;
    tail_at =
        ap (next_stamp q) tail_at
        ∙ next-stamp_at marks (h + length xs)
        ∙ ap (stamp_at q.one_lap q.cap laps) (omega (arith, length-snoc xs msg));
    held =
        subst
          (λ i.
            Holds at q.cap h (xs ++ (msg ∷ []))
              (update q.buffer i (record { stamp = wrapping_add q.tail 1; value = some msg })))
          (sym (tail_parts r).2)
          (subst
            (λ s.
              Holds at q.cap h (xs ++ (msg ∷ [])) (
                update q.buffer ((h + length xs) % q.cap) (record { stamp = s; value = some msg })))
            (sym suc-tail) (Holds-write msg held room));
  }
    where
      at : ℕ → ℕ
      at = stamp_at q.one_lap q.cap laps

  -- On a connected channel with room for a message, with more fuel than verdicts, `try_send` returns:
  -- whatever attempts fail before, the message stands behind the others, the receivers are notified and
  -- the senders left as they were.
  pub try_send-appends :
      (fuel me : ℕ) (w : World) (msg : A) (verdicts : List Bool)
      → length xs < q.cap
      → length verdicts < fuel
      → let (receivers, w') = Sync.notify me w q.receivers.is_empty q.receivers in
        (q' : Channel A) × (try_send fuel me w msg q verdicts ≡ returned (sent, q', w'))
        × Represents laps h (xs ++ (msg ∷ [])) false q'
        × (q'.receivers ≡ receivers)
        × (q'.senders ≡ q.senders)
  try_send-appends fuel me w msg verdicts room lt =
      let (receivers, _) = Sync.notify me w q.receivers.is_empty q.receivers in
      (
        with_message msg receivers,
        try_send-room fuel me w msg verdicts room lt,
        with_message-Represents msg receivers room,
        refl,
        refl,
      )

module _ {ℓ} {A : Type ℓ} {laps h : ℕ} {x : A} {xs : List A} {q : Channel A}
    (r : Represents laps h (x ∷ xs) false q) (no_room : length (x ∷ xs) ≡ q.cap) where
  tail_now : unmark q.tail q.mark_bit ≡ q.tail
  tail_now = (tail_parts r).0 ∙ sym r.tail_at

  lags : wrapping_add q.head q.one_lap ≡ q.tail
  lags = (full_iff r).1 no_room ∙ tail_now

  lags_by_one : wrapping_add (wrapping_add q.head 1) q.one_lap ≡ wrapping_add q.tail 1
  lags_by_one = omega (arith, lags)

  pub start_send-full :
      (fuel : ℕ) (verdicts : List Bool)
      → 0 < fuel
      → start_send fuel q verdicts ≡ returned (false, null_token, q)
  unfolding start_send send_loop
  start_send-full zero verdicts lt = absurd (omega arith)
  start_send-full (suc fuel) verdicts lt =
      ground (arith, (tail_parts r).1, tail_slot_full r no_room, tail_now, lags, lags_by_one)

  -- `try_send` on a full channel gives the message back and changes nothing.
  pub try_send-full :
      (fuel me : ℕ) (w : World) (msg : A) (verdicts : List Bool)
      → 0 < fuel
      → try_send fuel me w msg q verdicts ≡ returned (full msg, q, w)
  unfolding try_send
  try_send-full fuel me w msg verdicts lt = ground (arith, start_send-full fuel verdicts lt)
