-- ===== src/Channel/Disconnect.antt =====
-- Disconnection of the bounded channel, and the methods that look at it.
use native.Mathlib.Nat.{add-mod_right, mod-lt}
use mathlib.Core.Path.{ap₂}
use crossbeam.Prelude.{
  ℕ, zero, suc, ◌+◌, ◌%◌, ◌<◌, ◌≡◌, ◌≢◌, ◌↔◌, refl, sym, ap, subst, ◌∙◌, arith, Bool, true, false,
  some, List, [], ◌∷◌, length, get_elem?, map, low_bits, wrapping_add, ==_iff, if◌then◌else◌,
  dec_lt,
}
use crossbeam.Stamp.{stamp_at, suc-stamp_at, stamp_at-injective, slot-add}
use crossbeam.ArrayQueue.Defs.{returned}
use crossbeam.Waker.Context.{World}
use crossbeam.Waker.Sync
use crossbeam.Channel.Defs.{Channel, unmark, set_mark}
use crossbeam.Channel.Calls.{
  disconnect_senders, discard_loop, disconnect_receivers, is_disconnected, is_empty, is_full, len,
}
use crossbeam.Channel.Marks.{next-stamp_at, index-stamp_at, with_mark, with_mark-unmark}
use crossbeam.Channel.Invariant.{
  IsMarked, Represents, tail_parts, empty_iff, full_iff, index-head, suc-head, head_slot,
}

module _ {ℓ} {A : Type ℓ} {laps h : ℕ} {xs : List A} {gone : Bool} {q : Channel A}
    (r : Represents laps h xs gone q) where
  open r use {marks, head_at, tail_at, held}

  abbrev at : ℕ → ℕ
  at = stamp_at q.one_lap q.cap laps

  pub marked_tail : set_mark q.tail q.mark_bit ≡ with_mark true (at (h + length xs)) q.mark_bit
  marked_tail =
      ap (λ s. set_mark s q.mark_bit) tail_at ∙ (with_mark-unmark marks gone (h + length xs)).3

  -- The channel with its mark bit set, and its queues of blocked operations as given.
  abbrev pub cut : Sync.SyncWaker → Sync.SyncWaker → Channel A
  cut senders receivers = record q {
    tail = set_mark q.tail q.mark_bit;
    senders = senders;
    receivers = receivers;
  }

  pub cut-Represents :
      (senders receivers : Sync.SyncWaker) → Represents laps h xs true (cut senders receivers)
  cut-Represents senders receivers = record {
    marks = marks;
    head_at = head_at;
    tail_at = marked_tail;
    held = held;
  }

  pub disconnect_senders-cut :
      (w : World)
      → let (receivers, w') = Sync.disconnect w q.receivers in
        disconnect_senders w q ≡ (
          if gone
          then (false, cut q.senders q.receivers, w)
          else (true, cut q.senders receivers, w'))
  unfolding disconnect_senders
  disconnect_senders-cut w = ground (arith, (tail_parts r).1)

  pub cut-is_disconnected :
      (senders receivers : Sync.SyncWaker) → is_disconnected (cut senders receivers) ≡ true
  unfolding is_disconnected
  cut-is_disconnected senders receivers = (tail_parts (cut-Represents senders receivers)).1

-- The slot at the tail never looks like one that holds the next message.
not_written-full {ℓ} :
    {A : Type ℓ} {laps h : ℕ} {x : A} {xs : List A} {gone : Bool} {q : Channel A}
    → (r : Represents laps h (x ∷ xs) gone q) → length (x ∷ xs) ≡ q.cap
    → (q.buffer ((h + length (x ∷ xs)) % q.cap)).stamp
      ≢ stamp_at q.one_lap q.cap laps (h + length (x ∷ xs)) + 1
not_written-full {h = h} {x = x} {xs = xs} {q = q} r full e =
    let index : (h + length (x ∷ xs)) % q.cap ≡ low_bits q.head q.mark_bit =
      ap (λ n. (h + n) % q.cap) full ∙ add-mod_right h q.cap ∙ sym (index-head r) in
    let stamp = ap (λ i. (q.buffer i).stamp) index ∙ ap (λ s. s.stamp) (head_slot r) ∙ suc-head r in
    let same =
      stamp_at-injective r.marks.layout h (h + length (x ∷ xs)) (omega arith) (omega (arith, full))
        (omega (arith, stamp, e)) in
    absurd (omega (arith, same, full, r.marks.layout.cap_pos))

not_written {ℓ} :
    {A : Type ℓ} {laps h : ℕ} (xs : List A) {gone : Bool} {q : Channel A}
    → (r : Represents laps h xs gone q)
    → (q.buffer ((h + length xs) % q.cap)).stamp ≢ stamp_at q.one_lap q.cap laps (h + length xs) + 1
not_written {h = h} [] r e =
    absurd
      (omega (arith, e, r.held.free (h + 0) (omega arith) (omega (arith, r.marks.layout.cap_pos))))
not_written {h = h} (x ∷ xs) {q = q} r e = elim (dec_lt (length (x ∷ xs)) q.cap) [
  | yes room ↦
      absurd (omega (arith, e, r.held.free (h + length (x ∷ xs)) (omega arith) (omega arith)))
  | no none_left ↦ absurd (not_written-full r (omega (arith, none_left, r.held.room)) e)
]

module _ {ℓ} {A : Type ℓ} {laps : ℕ} (q : Channel A) (marks : IsMarked laps q) (t : ℕ) where
  abbrev stamp_of : ℕ → ℕ
  stamp_of = stamp_at q.one_lap q.cap laps

  -- The loop of `discard_all_messages` over the messages from the ticket `h` on.
  discard_loop-all :
      (fuel h : ℕ) (ys : List A)
      → h + length ys ≡ t
      → ((j : ℕ) (y : A)
          → get_elem? ys j ≡ some y
          → q.buffer ((h + j) % q.cap) ≡ record { stamp = stamp_of (h + j) + 1; value = some y })
      → (q.buffer (t % q.cap)).stamp ≢ stamp_of t + 1
      → length ys < fuel
      → discard_loop fuel (stamp_of h) (stamp_of t) q ≡ returned (map some ys)
  unfolding discard_loop
  discard_loop-all zero h ys at_end taken last lt = absurd (omega arith)
  discard_loop-all (suc fuel) h [] at_end taken last lt =
      let same : h ≡ t = omega arith in
      rw same (ground (arith, index-stamp_at marks t, suc-stamp_at marks.layout t))
  discard_loop-all (suc fuel) h (y ∷ ys) at_end taken last lt =
      rw (discard_loop, (==_iff _ _).1 is_next)
        (rw (next-stamp_at marks h) (
          rw (discard_loop-all fuel (h + 1) ys (omega arith) later last (omega arith))
            (ap (λ s. returned (s.value ∷ map some ys)) here)))
    where
      here :
          q.buffer (low_bits (stamp_of h) q.mark_bit)
          ≡ record { stamp = stamp_of h + 1; value = some y }
      here =
          ap q.buffer (index-stamp_at marks h)
          ∙ subst (λ p. q.buffer (p % q.cap) ≡ record { stamp = stamp_of p + 1; value = some y })
              (omega arith) (taken 0 y refl)

      is_next : wrapping_add (stamp_of h) 1 ≡ (q.buffer (low_bits (stamp_of h) q.mark_bit)).stamp
      is_next = suc-stamp_at marks.layout h ∙ sym (ap (λ s. s.stamp) here)

      later :
          (j : ℕ) (z : A)
          → get_elem? ys j ≡ some z
          → q.buffer ((h + 1 + j) % q.cap)
            ≡ record { stamp = stamp_of (h + 1 + j) + 1; value = some z }
      later j z e =
          subst (λ p. q.buffer (p % q.cap) ≡ record { stamp = stamp_of p + 1; value = some z })
            (omega arith) (taken (suc j) z e)

-- The messages that it drops from a channel whose mark bit is now set.
cut-all {ℓ} :
    {A : Type ℓ} {laps h : ℕ} {xs : List A} {gone : Bool} {q : Channel A}
    → (r : Represents laps h xs gone q) → (senders receivers : Sync.SyncWaker) (fuel : ℕ)
    → length xs < fuel
    → discard_loop fuel q.head (unmark q.tail q.mark_bit) (cut r senders receivers)
      ≡ returned (map some xs)
cut-all {h = h} {xs = xs} r senders receivers fuel lt =
    ap₂ (λ a b. discard_loop fuel a b (cut r senders receivers)) r.head_at (tail_parts r).0
    ∙ discard_loop-all (cut r senders receivers) r.marks (h + length xs) fuel h xs refl r.held.taken
        (not_written xs r) lt

-- On a channel that represents `xs`, with more fuel than messages, `disconnect_receivers` sets the
-- mark bit and drops every message, in order. Where the channel was connected, and only then, it
-- returns true and disconnects the senders that wait.
pub disconnect_receivers_lem {ℓ} :
    {A : Type ℓ} {laps h : ℕ} {xs : List A} {gone : Bool} {q : Channel A}
    → (r : Represents laps h xs gone q) → (fuel : ℕ) (w : World) → length xs < fuel
    → let (senders, w') = Sync.disconnect w q.senders in
      disconnect_receivers fuel w q ≡ (
        if gone
        then returned (false, map some xs, cut r q.senders q.receivers, w)
        else returned (true, map some xs, cut r senders q.receivers, w'))
unfolding disconnect_receivers
disconnect_receivers_lem {gone = false} {q = q} r fuel w lt =
    ground (arith, (tail_parts r).1, cut-all r (Sync.disconnect w q.senders).0 q.receivers fuel lt)
disconnect_receivers_lem {gone = true} {q = q} r fuel w lt =
    ground (arith, (tail_parts r).1, cut-all r q.senders q.receivers fuel lt)

module _ {ℓ} {A : Type ℓ} {laps h : ℕ} {xs : List A} {gone : Bool} {q : Channel A}
    (r : Represents laps h xs gone q) where
  open r use {marks, held}

  -- On a channel that represents `xs`, `len` is the number of messages.
  pub len-messages : len q ≡ length xs
  unfolding len
  len-messages = ground (
    arith,
    (tail_parts r).2 ∙ slot-add q.cap h (length xs) marks.layout.cap_pos held.room,
    index-head r,
    empty_iff r,
    mod-lt h marks.layout.cap_pos,
    held.room,
  )

  -- On a channel that represents `xs`, `is_empty` tells whether there is no message, `is_full`
  -- whether there are as many as the capacity, and `is_disconnected` whether it is disconnected.
  pub observers_iff :
      ((is_empty q ≡ true) ↔ (length xs ≡ 0))
      × ((is_full q ≡ true) ↔ (length xs ≡ q.cap))
      × (is_disconnected q ≡ gone)
  unfolding is_empty is_full is_disconnected
  observers_iff = (
    (λ e. (empty_iff r).0 ((==_iff _ _).0 e), λ e. (==_iff _ _).1 ((empty_iff r).1 e)),
    (λ e. (full_iff r).0 ((==_iff _ _).0 e), λ e. (==_iff _ _).1 ((full_iff r).1 e)),
    (tail_parts r).1,
  )
