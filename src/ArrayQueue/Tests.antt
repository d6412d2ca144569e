-- ===== src/ArrayQueue/Tests.antt =====
-- Runs of small queues, and each theorem at an input that meets its hypotheses.
use crossbeam.Prelude.{ℕ, ◌^◌, ◌≡◌, refl, arith, true, none, some, List, [], ◌∷◌}
use crossbeam.Stamp.{IsLayout}
use crossbeam.ArrayQueue.Defs.{
  ArrayQueue, Outcome, returned, ok, err, new, push, pop, force_push, push_loop, commit_push,
}
use crossbeam.ArrayQueue.Exclusive.{len, dropped, is_empty, is_full}
use crossbeam.ArrayQueue.Fifo
use crossbeam.ArrayQueue.Defs
use crossbeam.ArrayQueue.Exclusive
use crossbeam.ArrayQueue.Refine
use crossbeam.ArrayQueue.Fifo.{Call, Answer, pushed, taken}
use crossbeam.ArrayQueue.Invariant.{Represents, commit_push-Represents}
use crossbeam.ArrayQueue.Observe.{dropped-elements}
use crossbeam.ArrayQueue.Iterate.{collect, collect-elements}
use crossbeam.ArrayQueue.Refine.{run, run_refines}
use crossbeam.ArrayQueue.New.{fresh, fresh-Represents, new-run_refines}

IsLayout-two : IsLayout 4 2 (2 ^ 62)
IsLayout-two = record {
  cap_pos = omega arith;
  fits = omega arith;
  whole = refl;
  many = omega arith;
}

abbrev two : ArrayQueue ℕ
two = fresh 2 4

abbrev with_seven : ArrayQueue ℕ
with_seven = commit_push two 0 7

with_seven-Represents : Represents (2 ^ 62) 0 (7 ∷ []) with_seven
with_seven-Represents = commit_push-Represents (fresh-Represents IsLayout-two) 7 (omega arith)

-- Two pushes fill the queue; `force_push` then replaces the 10, and its weak exchange fails once.
abbrev script : List (Call ℕ)
script =
    Call.push 10 (true ∷ [])
    ∷ Call.push_mut 20
    ∷ Call.push 30 []
    ∷ Call.force_push 30 (true ∷ [])
    ∷ Call.pop []
    ∷ Call.pop_mut
    ∷ Call.pop []
    ∷ []

abbrev answers : List (Answer ℕ)
answers =
    pushed ok
    ∷ pushed ok
    ∷ pushed (err 30)
    ∷ taken (some 10)
    ∷ taken (some 20)
    ∷ taken (some 30)
    ∷ taken none
    ∷ []

run-script : run 5 script two ≡ returned answers
unfolding run Refine.step push Defs.push_or_else push_loop Defs.cas_weak Exclusive.push_mut
    Defs.push_closure force_push Defs.force_closure pop Defs.pop_loop Exclusive.pop_mut
run-script = refl

new-run_refines_example :
    (q : ArrayQueue ℕ) × (new 2 ≡ some q) × (run 5 script q ≡ returned (Fifo.run 2 script []))
new-run_refines_example = new-run_refines 2 5 script (omega arith) (omega arith) (omega arith)

dropped-elements_example : dropped with_seven ≡ some 7 ∷ []
dropped-elements_example = dropped-elements with_seven-Represents

collect-elements_example : collect 3 with_seven ≡ returned (7 ∷ [])
collect-elements_example = collect-elements 3 (7 ∷ []) with_seven-Represents (omega arith)
