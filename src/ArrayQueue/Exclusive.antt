-- ===== src/ArrayQueue/Exclusive.antt =====
-- The methods of `ArrayQueue` that hold the queue exclusively, and those that only look at it.
use crossbeam.Prelude.{
  ℕ, zero, suc, ◌+◌, ◌-◌, Bool, Option, none, some, List, [], ◌∷◌, map, if◌then◌else◌, ◌==◌, ltb,
  low_bits, wrapping_add,
}
use crossbeam.Stamp.{advance}
use crossbeam.ArrayQueue.Defs.{
  ArrayQueue, Outcome, returned, undefined, PushResult, ok, err, commit_push, commit_pop,
}

module _ {ℓ} {A : Type ℓ} where
  unfoldable pub push_mut : A → ArrayQueue A → PushResult A × ArrayQueue A
  push_mut value q =
      if wrapping_add q.head q.one_lap == q.tail
      then (err value, q)
      else (ok, commit_push q q.tail value)

  -- The value is read before the slot is freed; reading an empty slot is undefined.
  unfoldable pub pop_mut : ArrayQueue A → Outcome (Option A × ArrayQueue A)
  pop_mut q =
      if q.tail == q.head
      then returned (none, q)
      else elim (q.buffer (low_bits q.head q.one_lap)).value [
        | none ↦ undefined
        | some msg ↦ returned (some msg, commit_pop q q.head)
      ]

  -- `IntoIter::next`: it moves the head and leaves the slot's stamp.
  unfoldable pub next : ArrayQueue A → Outcome (Option A × ArrayQueue A)
  next q =
      if q.head == q.tail
      then returned (none, q)
      else elim (q.buffer (low_bits q.head q.one_lap)).value [
        | none ↦ undefined
        | some val ↦ returned (some val, record q { head = advance q.one_lap q.cap q.head })
      ]

  unfoldable pub capacity : ArrayQueue A → ℕ
  capacity q = q.cap

  unfoldable pub is_empty : ArrayQueue A → Bool
  is_empty q = q.tail == q.head

  unfoldable pub is_full : ArrayQueue A → Bool
  is_full q = wrapping_add q.head q.one_lap == q.tail

  -- `len`: with no other thread the second read of the tail agrees with the first.
  unfoldable pub len : ArrayQueue A → ℕ
  len q =
      let hix = low_bits q.head q.one_lap in
      let tix = low_bits q.tail q.one_lap in
      if ltb hix tix
      then tix - hix
      else if ltb tix hix
      then q.cap - hix + tix
      else if q.tail == q.head
      then 0
      else q.cap

  -- The slots that `Drop` drops a value in, from the oldest on: `count` of them, from the `i`-th.
  unfoldable pub drop_indices : ArrayQueue A → ℕ → ℕ → List ℕ
  drop_indices q i zero = []
  drop_indices q i (suc count) =
      let hix = low_bits q.head q.one_lap in
      (if ltb (hix + i) q.cap then hix + i else hix + i - q.cap) ∷ drop_indices q (i + 1) count

  -- `Drop`: `none` for a slot that holds no value is undefined behaviour.
  unfoldable pub dropped : ArrayQueue A → List (Option A)
  unfolding len drop_indices
  dropped q = map (λ i. (q.buffer i).value) (drop_indices q 0 (len q))
