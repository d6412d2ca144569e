-- ===== src/ArrayQueue/Defs.antt =====
-- The state of `ArrayQueue` and its methods.
use crossbeam.Prelude.{
  ℕ, zero, suc, Bool, true, false, Option, none, some, List, [], ◌∷◌, if◌then◌else◌, ◌==◌, low_bits,
  wrapping_add, wrapping_sub, checked_add, checked_next_power_of_two,
}
use crossbeam.Stamp.{advance}
use crossbeam.Ring.{Buffer, update}

-- `ArrayQueue`; `cap` is `buffer.len()`.
pub record ArrayQueue {ℓ} (A : Type ℓ) : Type ℓ where
  pub head : ℕ
  pub tail : ℕ
  pub buffer : Buffer A
  pub cap : ℕ
  pub one_lap : ℕ

-- How a call ends: with a result, with a read of uninitialised memory, or not within its fuel.
pub data Outcome {ℓ} (R : Type ℓ) : Type ℓ where
  returned : R → Outcome R
  undefined : Outcome R
  out_of_fuel : Outcome R

-- `Result<(), T>`
pub data PushResult {ℓ} (A : Type ℓ) : Type ℓ where
  ok : PushResult A
  err : A → PushResult A

-- What the closure of `push_or_else` returns, a `Result<T, T>`, if it does not read uninitialised
-- memory first.
pub data Verdict {ℓ} (A : Type ℓ) : Type ℓ where
  again : A → Verdict A
  give_up : A → Verdict A
  uninitialised : Verdict A

-- `compare_exchange_weak` on a cell that holds `current`: whether it swaps, and the verdicts left.
-- A verdict `true` is a spurious failure; after the last verdict there are none.
unfoldable pub cas_weak : ℕ → ℕ → List Bool → Bool × List Bool
cas_weak current expected [] = (current == expected, [])
cas_weak current expected (true ∷ rest) = (false, rest)
cas_weak current expected (false ∷ rest) = (current == expected, rest)

-- A closure given to `push_or_else`: what it sees and changes are the queue and the verdicts of its
-- exchanges.
abbrev pub Closure {ℓ} : Type ℓ → Type ℓ
Closure A = A → ℕ → ℕ → ℕ → ArrayQueue A → List Bool → Verdict A × ArrayQueue A × List Bool

module _ {ℓ} {A : Type ℓ} where
  -- `ArrayQueue::new`; `none` is a panic.
  unfoldable pub new : ℕ → Option (ArrayQueue A)
  new cap = if cap == 0 then none else elim (checked_add cap 1) [
    | none ↦ none
    | some n ↦ elim (checked_next_power_of_two n) [
      | none ↦ none
      | some one_lap ↦ some (record {
        head = 0;
        tail = 0;
        buffer = λ i. record { stamp = i; value = none };
        cap = cap;
        one_lap = one_lap;
      })
    ]
  ]

  -- The write of `push_or_else` after it has moved the tail, and the tail it has moved.
  abbrev pub commit_push : ArrayQueue A → ℕ → A → ArrayQueue A
  commit_push q tail value = record q {
    tail = advance q.one_lap q.cap tail;
    buffer =
        update q.buffer (low_bits tail q.one_lap)
          (record { stamp = wrapping_add tail 1; value = some value });
  }

  -- The loop of `push_or_else`, entered with the tail that was read last.
  unfoldable pub push_loop :
      ℕ → Closure A → A → ℕ → ArrayQueue A → List Bool → Outcome (PushResult A × ArrayQueue A)
  push_loop zero f value tail q verdicts = out_of_fuel
  push_loop (suc fuel) f value tail q verdicts =
      let index = low_bits tail q.one_lap in
      let new_tail = advance q.one_lap q.cap tail in
      let stamp = (q.buffer index).stamp in
      let (won, rest) = cas_weak q.tail tail verdicts in
      let (verdict, q', rest') = f value tail new_tail index q verdicts in
      elim (tail == stamp) [
        | true ↦ elim won [
          | true ↦ returned (ok, commit_push q tail value)
          | false ↦ push_loop fuel f value q.tail q rest
        ]
        | false ↦ elim (wrapping_add stamp q.one_lap == wrapping_add tail 1) [
          | true ↦ elim verdict [
            | again v ↦ push_loop fuel f v q'.tail q' rest'
            | give_up e ↦ returned (err e, q')
            | uninitialised ↦ undefined
          ]
          | false ↦ push_loop fuel f value q.tail q verdicts
        ]
      ]

  unfoldable pub push_or_else :
      ℕ → Closure A → A → ArrayQueue A → List Bool → Outcome (PushResult A × ArrayQueue A)
  push_or_else fuel f value q verdicts = push_loop fuel f value q.tail q verdicts

  -- The closure of `push`: the queue is full if the head lags one lap behind the tail.
  unfoldable pub push_closure : Closure A
  push_closure v tail new_tail index q verdicts =
      if wrapping_add q.head q.one_lap == tail
      then (give_up v, q, verdicts)
      else (again v, q, verdicts)

  unfoldable pub push : ℕ → A → ArrayQueue A → List Bool → Outcome (PushResult A × ArrayQueue A)
  push fuel value q verdicts = push_or_else fuel push_closure value q verdicts

  -- The closure of `force_push`: it moves the head and the tail, and swaps the oldest value.
  unfoldable pub force_closure : Closure A
  force_closure v tail new_tail index q verdicts =
      let head = wrapping_sub tail q.one_lap in
      let new_head = wrapping_sub new_tail q.one_lap in
      let (won, rest) = cas_weak q.head head verdicts in
      elim won [
        | true ↦ elim (q.buffer index).value [
          | none ↦ (uninitialised, q, rest)
          | some old ↦ (give_up old, replaced new_head, rest)
        ]
        | false ↦ (again v, q, rest)
      ]
    where
      replaced : ℕ → ArrayQueue A
      replaced new_head = record q {
        head = new_head;
        tail = new_tail;
        buffer = update q.buffer index (record { stamp = wrapping_add tail 1; value = some v });
      }

  -- `Result::err`
  abbrev pub err_of : PushResult A → Option A
  err_of ok = none
  err_of (err e) = some e

  abbrev pub map_err : Outcome (PushResult A × ArrayQueue A) → Outcome (Option A × ArrayQueue A)
  map_err (returned (r, q)) = returned (err_of r, q)
  map_err undefined = undefined
  map_err out_of_fuel = out_of_fuel

  unfoldable pub force_push : ℕ → A → ArrayQueue A → List Bool → Outcome (Option A × ArrayQueue A)
  force_push fuel value q verdicts = map_err (push_or_else fuel force_closure value q verdicts)

  -- What `pop` does once it has moved the head from `head`: read the value, free the slot.
  abbrev pub commit_pop : ArrayQueue A → ℕ → ArrayQueue A
  commit_pop q head =
      let index = low_bits head q.one_lap in
      record q {
        head = advance q.one_lap q.cap head;
        buffer =
            update q.buffer index
              (record { stamp = wrapping_add head q.one_lap; value = (q.buffer index).value });
      }

  -- The loop of `pop`, entered with the head that was read last.
  unfoldable pub pop_loop : ℕ → ℕ → ArrayQueue A → List Bool → Outcome (Option A × ArrayQueue A)
  pop_loop zero head q verdicts = out_of_fuel
  pop_loop (suc fuel) head q verdicts =
      let index = low_bits head q.one_lap in
      let stamp = (q.buffer index).stamp in
      let (won, rest) = cas_weak q.head head verdicts in
      elim (wrapping_add head 1 == stamp) [
        | true ↦ elim won [
          | true ↦ elim (q.buffer index).value [
            | none ↦ undefined
            | some msg ↦ returned (some msg, commit_pop q head)
          ]
          | false ↦ pop_loop fuel q.head q rest
        ]
        | false ↦ elim (stamp == head) [
          | true ↦ elim (q.tail == head) [
            | true ↦ returned (none, q)
            | false ↦ pop_loop fuel q.head q verdicts
          ]
          | false ↦ pop_loop fuel q.head q verdicts
        ]
      ]

  unfoldable pub pop : ℕ → ArrayQueue A → List Bool → Outcome (Option A × ArrayQueue A)
  pop fuel q verdicts = pop_loop fuel q.head q verdicts
