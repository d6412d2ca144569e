-- ===== src/SegQueue/Refine.antt =====
-- No sequence of calls tells a `SegQueue` from the list that it represents.
use crossbeam.Prelude.{
  ℕ, ◌+◌, ◌-◌, ◌*◌, ◌/◌, ◌%◌, ◌^◌, ◌<◌, ◌≡◌, ℕ_discrete, refl, arith, Option, none, some, List, [],
  ◌∷◌, ◌++◌, length, length-snoc, eq→==, ne→==, ◌==◌, wrapping_sub, high_bits,
}
use crossbeam.ArrayQueue.Defs.{Outcome, returned, undefined}
use crossbeam.SegQueue.Defs.{SegQueue, new, push_mut, pop_mut, is_empty, len, fix_up, lap}
use crossbeam.SegQueue.Positions.{position}
use crossbeam.SegQueue.Push.{Represents, linked_queue, new_queue, push_mut-Represents}
use crossbeam.SegQueue.Pop.{pop_mut-some, pop_mut-none}

pub data Call {ℓ} (T : Type ℓ) : Type ℓ where
  pushing : T → Call T
  popping : Call T

fix_up-position : (t : ℕ) → fix_up (2 * position t) ≡ 2 * position t
fix_up-position t = rw (ne→== (2 * position t / 2 % lap) (lap - 1) (λ e. omega (arith, e))) refl

module _ {ℓ} {T : Type ℓ} where
  -- What the pops among the calls return, on a list and on a queue.
  unfoldable pub answers : List (Call T) → List T → List (Option T)
  answers [] xs = []
  answers (pushing value ∷ calls) xs = answers calls (xs ++ (value ∷ []))
  answers (popping ∷ calls) [] = none ∷ answers calls []
  answers (popping ∷ calls) (x ∷ xs) = some x ∷ answers calls xs

  unfoldable pub run : List (Call T) → SegQueue T → Outcome (List (Option T))
  run [] q = returned []
  run (pushing value ∷ calls) q = run calls (push_mut value q)
  run (popping ∷ calls) q = elim (pop_mut q) [
    | returned (answer, q') ↦ elim (run calls q') [
      | returned rest ↦ returned (answer ∷ rest)
      | _ ↦ undefined
    ]
    | _ ↦ undefined
  ]

  run-answers :
      (calls : List (Call T)) {h : ℕ} (xs : List T) (q : SegQueue T)
      → Represents h xs q
      → h + length xs + length calls < 2 ^ 60
      → run calls q ≡ returned (answers calls xs)
  unfolding run answers
  run-answers [] xs q rep small = refl
  run-answers (pushing value ∷ calls) xs q rep small =
      run-answers calls (xs ++ (value ∷ [])) (push_mut value q)
        (push_mut-Represents value rep (omega arith)) (omega (arith, length-snoc xs value))
  run-answers (popping ∷ calls) [] q rep small =
      rw (run, pop_mut-none rep, run-answers calls [] q rep (omega arith)) refl
  run-answers (popping ∷ calls) (x ∷ xs) q rep small =
      let (q', e, rep') = pop_mut-some rep (omega arith) in
      rw (run, e, run-answers calls xs q' rep' (omega arith)) refl

  -- Fewer than `2 ^ 60` pushes and pops on a new queue, with exclusive access, return what they return on
  -- an empty list, to whose end a push puts its value and from whose front a pop takes one.
  pub new-run-answers :
      (calls : List (Call T)) → length calls < 2 ^ 60 → run calls new ≡ returned (answers calls [])
  new-run-answers calls few = run-answers calls [] new (new_queue refl refl refl) (omega arith)

  -- `len` is the number of the values that the queue holds, and `is_empty` tells whether it is 0, where
  -- fewer than `2 ^ 60` values came so far.
  pub len-values :
      {h : ℕ} {xs : List T} {q : SegQueue T}
      → Represents h xs q
      → h + length xs < 2 ^ 60
      → (len q ≡ length xs) × (is_empty q ≡ (length xs == 0))
  unfolding len is_empty
  len-values {h} {xs} {q} (linked_queue addr linked) small =
      let t = h + length xs in
      let tail : high_bits q.tail_index 2 ≡ 2 * position t = omega (arith, linked.tail_at) in
      let head : high_bits q.head_index 2 ≡ 2 * position h = omega (arith, linked.head_at) in
      let laps : 2 * position h / 2 / 32 ≡ h / 31 = omega arith in
      let tail' : wrapping_sub (2 * position t) (h / 31 * 32 * 2) / 2 ≡ position t - h / 31 * 32 =
        omega (arith, small) in
      let head' : wrapping_sub (2 * position h) (h / 31 * 32 * 2) / 2 ≡ h % 31 =
        omega (arith, small) in
      let count : position t - h / 31 * 32 - h % 31 - (position t - h / 31 * 32) / 32 ≡ length xs =
        omega arith in
      (
        rw (tail, head, fix_up-position t, fix_up-position h, laps, tail', head') count,
        elim (ℕ_discrete (length xs) 0) [
          | yes none_left ↦
              rw
                (
                  eq→== (q.head_index / 2) (q.tail_index / 2)
                      (omega (arith, none_left, linked.head_at, linked.tail_at)),
                  eq→== (length xs) 0 none_left,
                )
                refl
          | no some_left ↦
              rw
                (
                  ne→== (q.head_index / 2) (q.tail_index / 2)
                      (λ e. omega (arith, e, some_left, linked.head_at, linked.tail_at)),
                  ne→== (length xs) 0 some_left,
                )
                refl
        ],
      )
  len-values (new_queue at empty q_new) small = rw (empty, q_new) (refl, refl)
