-- ===== src/Channel/Recv.antt =====
-- `try_recv` against a bounded list of messages.
use crossbeam.Prelude.{
  ℕ, zero, suc, ◌+◌, ◌%◌, ◌<◌, ◌≡◌, refl, sym, ap, subst, ◌∙◌, arith, Bool, true, false, some, List,
  [], ◌∷◌, length, low_bits, wrapping_add,
}
use crossbeam.Stamp.{stamp_at}
use crossbeam.Ring.{update, Holds, Holds-read}
use crossbeam.ArrayQueue.Defs.{returned, cas_weak}
use crossbeam.Waker.Context.{World}
use crossbeam.Waker.Sync.{SyncWaker}
use crossbeam.Waker.Sync
use crossbeam.Channel.Defs.{
  Channel, Token, null_token, unmark, next_stamp, received, empty, recv_disconnected, recv_loop,
  start_recv, read,
}
use crossbeam.Channel.Calls.{try_recv}
use crossbeam.Channel.Marks.{with_mark}
use crossbeam.Channel.Invariant.{
  Represents, tail_parts, empty_iff, tail_slot_free, head_slot, index-head, lap-head, next-head,
}

module _ {ℓ} {A : Type ℓ} {laps h : ℕ} {gone : Bool} {q : Channel A}
    (r : Represents {A = A} laps h [] gone q) where
  head_is_tail : unmark q.tail q.mark_bit ≡ q.head
  head_is_tail = (empty_iff r).1 refl

  head_slot_free : (q.buffer (low_bits q.head q.mark_bit)).stamp ≡ q.head
  head_slot_free =
      ap (λ i. (q.buffer i).stamp)
        (index-head r ∙ ap (λ p. p % q.cap) (omega arith) ∙ sym (tail_parts r).2)
      ∙ tail_slot_free r r.marks.layout.cap_pos
      ∙ sym (tail_parts r).0
      ∙ head_is_tail

  pub start_recv-empty :
      (fuel : ℕ) (verdicts : List Bool)
      → 0 < fuel
      → start_recv fuel q verdicts ≡ returned (gone, null_token, q)
  unfolding start_recv recv_loop
  start_recv-empty zero verdicts lt = absurd (omega arith)
  start_recv-empty (suc fuel) verdicts lt =
      ground (arith, (tail_parts r).1, head_slot_free, head_is_tail)

module _ {ℓ} {A : Type ℓ} {laps h : ℕ} {q : Channel A} where
  -- `try_recv` on an empty channel says so, or that it is disconnected, and changes nothing.
  pub try_recv-empty :
      (fuel me : ℕ) (w : World) (verdicts : List Bool)
      → Represents {A = A} laps h [] false q
      → 0 < fuel
      → try_recv fuel me w q verdicts ≡ returned (empty, q, w)
  unfolding try_recv
  try_recv-empty fuel me w verdicts r lt = ground (arith, start_recv-empty r fuel verdicts lt)

  pub try_recv-gone :
      (fuel me : ℕ) (w : World) (verdicts : List Bool)
      → Represents {A = A} laps h [] true q
      → 0 < fuel
      → try_recv fuel me w q verdicts ≡ returned (recv_disconnected, q, w)
  unfolding try_recv read
  try_recv-gone fuel me w verdicts r lt = ground (arith, start_recv-empty r fuel verdicts lt)

module _ {ℓ} {A : Type ℓ} {laps h : ℕ} {x : A} {xs : List A} {gone : Bool} {q : Channel A}
    (r : Represents laps h (x ∷ xs) gone q) where
  open r use {marks, head_at, tail_at, held}

  slot_facts :
      ((q.buffer (low_bits q.head q.mark_bit)).stamp ≡ wrapping_add q.head 1)
      × ((q.buffer (low_bits q.head q.mark_bit)).value ≡ some x)
  slot_facts = (ap (λ s. s.stamp) (head_slot r), ap (λ s. s.value) (head_slot r))

  abbrev claim : Token
  claim = record { slot = some (low_bits q.head q.mark_bit); stamp = wrapping_add q.head q.one_lap }

  pub recv_loop-some :
      (fuel : ℕ) (verdicts : List Bool)
      → length verdicts < fuel
      → recv_loop fuel q.head q verdicts
        ≡ returned (true, claim, record q { head = next_stamp q q.head })
  unfolding recv_loop cas_weak
  recv_loop-some zero verdicts lt = absurd (omega arith)
  recv_loop-some (suc fuel) [] lt = ground (arith, slot_facts)
  recv_loop-some (suc fuel) (false ∷ verdicts) lt = ground (arith, slot_facts)
  recv_loop-some (suc fuel) (true ∷ verdicts) lt =
      ground (arith, slot_facts, recv_loop-some fuel verdicts)

  -- The channel with its oldest message taken, and its senders notified.
  abbrev pub without_message : SyncWaker → Channel A
  without_message senders = record q {
    head = next_stamp q q.head;
    buffer =
        update q.buffer (low_bits q.head q.mark_bit)
          (record { stamp = wrapping_add q.head q.one_lap; value = some x });
    senders = senders;
  }

  -- On a channel with a message, disconnected or not, with more fuel than verdicts, `try_recv`
  -- takes the oldest message and notifies the senders.
  pub try_recv-some :
      (fuel me : ℕ) (w : World) (verdicts : List Bool)
      → length verdicts < fuel
      → let (senders, w') = Sync.notify me w q.senders.is_empty q.senders in
        try_recv fuel me w q verdicts ≡ returned (received x, without_message senders, w')
  unfolding try_recv start_recv read
  try_recv-some fuel me w verdicts lt = ground (arith, slot_facts, recv_loop-some fuel verdicts lt)

  pub without_message-Represents :
      (senders : SyncWaker) → Represents laps (h + 1) xs gone (without_message senders)
  without_message-Represents senders = record {
    marks = marks;
    head_at = next-head r;
    tail_at = tail_at ∙ ap (λ p. with_mark gone (at p) q.mark_bit) (omega arith);
    held =
        subst
          (λ i.
            Holds at q.cap (h + 1) xs (
              update q.buffer i (record { stamp = wrapping_add q.head q.one_lap; value = some x })))
          (sym (index-head r))
          (subst
            (λ s.
              Holds at q.cap (h + 1) xs
                (update q.buffer (h % q.cap) (record { stamp = s; value = some x })))
            (sym (lap-head r)) (Holds-read (some x) held));
  }
    where
      at : ℕ → ℕ
      at = stamp_at q.one_lap q.cap laps
