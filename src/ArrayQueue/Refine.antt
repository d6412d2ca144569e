-- ===== src/ArrayQueue/Refine.antt =====
-- No sequence of calls tells an `ArrayQueue` from the bounded list that it represents.
use crossbeam.Prelude.{
  ℕ, ◌+◌, ◌<◌, ◌≡◌, refl, ap, subst, arith, Bool, Option, List, [], ◌∷◌, length, lt→ltb, not_lt→ltb,
  dec_lt,
}
use crossbeam.ArrayQueue.Defs.{
  ArrayQueue, Outcome, returned, undefined, out_of_fuel, PushResult, ok, err, new,
}
use crossbeam.ArrayQueue.Defs
use crossbeam.ArrayQueue.Exclusive
use crossbeam.ArrayQueue.Fifo
use crossbeam.ArrayQueue.Fifo.{Call, Answer, pushed, taken}
use crossbeam.ArrayQueue.Invariant.{Represents, commit_push-Represents, commit_pop-Represents}
use crossbeam.ArrayQueue.Push.{
  push-room, push-full, force_push-room, force_push-full, replaced-Represents, push_mut-room,
  push_mut-full,
}
use crossbeam.ArrayQueue.Pop.{pop-empty, pop-some, pop_mut-empty, pop_mut-some}

module _ {ℓ} {A : Type ℓ} where
  abbrev answer_push : Outcome (PushResult A × ArrayQueue A) → Outcome (Answer A × ArrayQueue A)
  answer_push (returned (r, q)) = returned (pushed r, q)
  answer_push undefined = undefined
  answer_push out_of_fuel = out_of_fuel

  abbrev answer_pop : Outcome (Option A × ArrayQueue A) → Outcome (Answer A × ArrayQueue A)
  answer_pop (returned (r, q)) = returned (taken r, q)
  answer_pop undefined = undefined
  answer_pop out_of_fuel = out_of_fuel

  -- One call on the queue.
  unfoldable pub step : ℕ → Call A → ArrayQueue A → Outcome (Answer A × ArrayQueue A)
  step fuel (Call.push v verdicts) q = answer_push (Defs.push fuel v q verdicts)
  step fuel (Call.force_push v verdicts) q = answer_pop (Defs.force_push fuel v q verdicts)
  step fuel (Call.pop verdicts) q = answer_pop (Defs.pop fuel q verdicts)
  step fuel (Call.push_mut v) q = answer_push (returned (Exclusive.push_mut v q))
  step fuel Call.pop_mut q = answer_pop (Exclusive.pop_mut q)

  -- The calls in order, with what each returns.
  unfoldable pub run : ℕ → List (Call A) → ArrayQueue A → Outcome (List (Answer A))
  run fuel [] q = returned []
  run fuel (c ∷ cs) q = elim (step fuel c q) [
    | returned (a, q') ↦ elim (run fuel cs q') [
      | returned rest ↦ returned (a ∷ rest)
      | undefined ↦ undefined
      | out_of_fuel ↦ out_of_fuel
    ]
    | undefined ↦ undefined
    | out_of_fuel ↦ out_of_fuel
  ]

  abbrev pub verdicts_of : Call A → List Bool
  verdicts_of (Call.push _ verdicts) = verdicts
  verdicts_of (Call.force_push _ verdicts) = verdicts
  verdicts_of (Call.pop verdicts) = verdicts
  verdicts_of (Call.push_mut _) = []
  verdicts_of Call.pop_mut = []

  -- The fuel exceeds the number of verdicts of each call.
  abbrev pub Enough : ℕ → List (Call A) → Type 0
  Enough fuel [] = Unit
  Enough fuel (c ∷ cs) = (length (verdicts_of c) < fuel) × Enough fuel cs

  -- A call on `q` answers and leaves what `r` says.
  abbrev Simulates : ℕ → ℕ → Call A → ArrayQueue A → Answer A × List A → Type ℓ
  Simulates laps fuel c q r =
      (h' : ℕ) × (q' : ArrayQueue A) × (step fuel c q ≡ returned (r.0, q'))
      × Represents laps h' r.1 q'
      × (q'.cap ≡ q.cap)

  module _ (fuel : ℕ) {laps h : ℕ} {q : ArrayQueue A} where
    push-Simulates :
        (v : A) (verdicts : List Bool) (xs : List A)
        → Represents laps h xs q
        → length verdicts < fuel
        → Simulates laps fuel (Call.push v verdicts) q (Fifo.push_list q.cap v xs)
    unfolding step
    push-Simulates v verdicts xs r lt = elim (dec_lt (length xs) q.cap) [
      | yes room ↦ rw (lt→ltb _ _ room) (
        h,
        _,
        ap answer_push (push-room r fuel v verdicts room lt),
        commit_push-Represents r v room,
        refl,
      )
      | no full ↦ rw (not_lt→ltb _ _ full) (h, q, ap answer_push (refused xs r full), r, refl)
    ]
      where
        refused :
            (ys : List A)
            → Represents laps h ys q
            → ¬ (length ys < q.cap)
            → Defs.push fuel v q verdicts ≡ returned (err v, q)
        refused [] s full = absurd (full s.layout.cap_pos)
        refused (y ∷ ys) s full =
            push-full s (omega (arith, s.held.room)) fuel v verdicts (omega arith)

    push_mut-Simulates :
        (v : A) (xs : List A)
        → Represents laps h xs q
        → Simulates laps fuel (Call.push_mut v) q (Fifo.push_list q.cap v xs)
    unfolding step
    push_mut-Simulates v xs r = elim (dec_lt (length xs) q.cap) [
      | yes room ↦ rw (lt→ltb _ _ room) (
        h,
        _,
        ap (λ p. answer_push (returned p)) (push_mut-room r v room),
        commit_push-Represents r v room,
        refl,
      )
      | no full ↦ rw (not_lt→ltb _ _ full) (
        h,
        q,
        ap (λ p. answer_push (returned p)) (push_mut-full r v (omega (arith, r.held.room))),
        r,
        refl,
      )
    ]

    force-Simulates :
        (v : A) (verdicts : List Bool) (xs : List A)
        → Represents laps h xs q
        → length verdicts < fuel
        → Simulates laps fuel (Call.force_push v verdicts) q (Fifo.force_list q.cap v xs)
    unfolding step
    force-Simulates v verdicts [] r lt = (
      h,
      _,
      ap answer_pop (force_push-room r fuel v verdicts r.layout.cap_pos lt),
      commit_push-Represents r v r.layout.cap_pos,
      refl,
    )
    force-Simulates v verdicts (x ∷ xs) r lt = elim (dec_lt (length (x ∷ xs)) q.cap) [
      | yes room ↦ rw (lt→ltb _ _ room) (
        h,
        _,
        ap answer_pop (force_push-room r fuel v verdicts room lt),
        commit_push-Represents r v room,
        refl,
      )
      | no full ↦
          let all : length (x ∷ xs) ≡ q.cap = omega (arith, r.held.room) in
          rw (not_lt→ltb _ _ full) (
            h + 1,
            _,
            ap answer_pop (force_push-full r all fuel v verdicts lt),
            replaced-Represents r all v,
            refl,
          )
    ]

    pop-Simulates :
        (verdicts : List Bool) (xs : List A)
        → Represents laps h xs q
        → length verdicts < fuel
        → Simulates laps fuel (Call.pop verdicts) q (Fifo.pop_list xs)
    unfolding step
    pop-Simulates verdicts [] r lt =
        (h, q, ap answer_pop (pop-empty r fuel verdicts (omega arith)), r, refl)
    pop-Simulates verdicts (x ∷ xs) r lt =
        (h + 1, _, ap answer_pop (pop-some r fuel verdicts lt), commit_pop-Represents r, refl)

    pop_mut-Simulates :
        (xs : List A)
        → Represents laps h xs q
        → Simulates laps fuel Call.pop_mut q (Fifo.pop_list xs)
    unfolding step
    pop_mut-Simulates [] r = (h, q, ap answer_pop (pop_mut-empty r), r, refl)
    pop_mut-Simulates (x ∷ xs) r =
        (h + 1, _, ap answer_pop (pop_mut-some r), commit_pop-Represents r, refl)

  -- One call returns within its fuel, never reads uninitialised memory, and answers as the list does.
  pub step-Simulates :
      (fuel : ℕ) (c : Call A) {laps h : ℕ} (xs : List A) {q : ArrayQueue A}
      → Represents laps h xs q
      → length (verdicts_of c) < fuel
      → Simulates laps fuel c q (Fifo.step q.cap c xs)
  unfolding Fifo.step
  step-Simulates fuel (Call.push v verdicts) xs r lt = push-Simulates fuel v verdicts xs r lt
  step-Simulates fuel (Call.force_push v verdicts) xs r lt = force-Simulates fuel v verdicts xs r lt
  step-Simulates fuel (Call.pop verdicts) xs r lt = pop-Simulates fuel verdicts xs r lt
  step-Simulates fuel (Call.push_mut v) xs r lt = push_mut-Simulates fuel v xs r
  step-Simulates fuel Call.pop_mut xs r lt = pop_mut-Simulates fuel xs r

  -- Any calls on a queue that represents `xs`, each with more fuel than verdicts, all return and
  -- give the answers that the bounded list gives from `xs`.
  pub run_refines :
      (fuel : ℕ) (cs : List (Call A)) {laps h : ℕ} (xs : List A) {q : ArrayQueue A}
      → Represents laps h xs q
      → Enough fuel cs
      → run fuel cs q ≡ returned (Fifo.run q.cap cs xs)
  unfolding run Fifo.run
  run_refines fuel [] xs r lt = refl
  run_refines fuel (c ∷ cs) xs {q} r lt =
      let (h', q', e, r', same) = step-Simulates fuel c xs r lt.0 in
      let tail : run fuel cs q' ≡ returned (Fifo.run q.cap cs (Fifo.step q.cap c xs).1) =
        subst (λ k. run fuel cs q' ≡ returned (Fifo.run k cs (Fifo.step q.cap c xs).1)) same
          (run_refines fuel cs _ r' lt.1) in
      ground (arith, e, tail)
