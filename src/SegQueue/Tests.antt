-- ===== src/SegQueue/Tests.antt =====
-- Each theorem at an input that meets its hypotheses.
use crossbeam.Prelude.{ℕ, ◌≡◌, refl, arith, List, [], ◌∷◌}
use crossbeam.ArrayQueue.Defs.{returned}
use crossbeam.SegQueue.Defs.{SegQueue, new, push_mut, first_block, dropped}
use crossbeam.SegQueue.Invariant.{Linked}
use crossbeam.SegQueue.Drop.{addresses_from, values_read, dropped-values}
use crossbeam.SegQueue.Push.{
  push_mut-Linked, first_block-Linked, Represents, linked_queue, new_queue, push_mut-Represents,
}
use crossbeam.SegQueue.Refine.{Call, pushing, popping, run, answers, new-run-answers}

abbrev script : List (Call ℕ)
script = pushing 1 ∷ pushing 2 ∷ popping ∷ popping ∷ popping ∷ []

abbrev two : SegQueue ℕ
two = push_mut 2 (push_mut 1 new)

two-Represents : Represents 0 (1 ∷ 2 ∷ []) two
two-Represents =
    push_mut-Represents 2 (push_mut-Represents 1 (new_queue refl refl refl) (omega arith))
      (omega arith)

new-run-answers_example : run script new ≡ returned (answers script [])
new-run-answers_example = new-run-answers script (omega arith)

abbrev one_pushed : SegQueue ℕ
one_pushed = push_mut 1 (first_block new)

one-Linked : (addr : ℕ → ℕ) × Linked addr 0 (1 ∷ []) one_pushed
one-Linked = push_mut-Linked first_block-Linked 1 (omega arith)

dropped-values_example :
    dropped one_pushed ≡ (values_read (1 ∷ []), addresses_from one-Linked.0 0 1)
dropped-values_example = dropped-values (linked_queue one-Linked.0 one-Linked.1) (omega arith)

-- A queue that no value came to frees no block.
dropped-new : dropped {T = ℕ} new ≡ ([], [])
dropped-new = dropped-values (new_queue refl refl refl) (omega arith)
