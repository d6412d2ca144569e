-- ===== src/Deque/Threads.antt =====
-- A deque with its owner and any number of stealers. The calls of the owner are steps; a steal is three
-- steps, with any steps of the others between them.
use crossbeam.Prelude.{ℕ, Option, List, [], ◌∷◌, if◌then◌else◌, ◌==◌}
use crossbeam.ArrayQueue.Defs.{Outcome, returned, undefined}
use crossbeam.Deque.Defs.{Buffer, Deque, push, pop}
use crossbeam.Deque.Steal.{success}
use crossbeam.Deque.Stealer.{nothing, pending, steal_load, steal_read, steal_commit}
use crossbeam.Deque.Spec.{Seen, pushed, popped, stole, saw_empty, silent}

-- How far a stealer has come in `steal`.
pub data Thief {ℓ} (T : Type ℓ) : Type ℓ where
  idle : Thief T
  loaded : ℕ → Thief T
  reading : ℕ → Buffer → Option T → Thief T

pub record System {ℓ} (T : Type ℓ) : Type ℓ where
  pub deque : Deque T
  pub thieves : ℕ → Thief T

-- The owner pushes or pops, or the stealer of that number goes on.
pub data Event {ℓ} (T : Type ℓ) : Type ℓ where
  pushing : T → Event T
  popping : Event T
  stealing : ℕ → Event T

module _ {ℓ} {T : Type ℓ} where
  abbrev pub set_thief : ℕ → Thief T → (ℕ → Thief T) → ℕ → Thief T
  set_thief i thief thieves j = if j == i then thief else thieves j

  -- The next part of a steal.
  unfoldable pub proceed : Thief T → Deque T → Outcome (Seen T × Thief T × Deque T)
  proceed idle d = returned (silent, loaded (steal_load d), d)
  proceed (loaded f) d = elim (steal_read f d) [
    | nothing ↦ returned (saw_empty, idle, d)
    | pending buffer task ↦ returned (silent, reading f buffer task, d)
  ]
  proceed (reading f buffer task) d = elim (steal_commit f buffer task d) [
    | returned (success x, d') ↦ returned (stole x, idle, d')
    | returned (_, d') ↦ returned (silent, idle, d')
    | _ ↦ undefined
  ]

  unfoldable pub act : Event T → System T → Outcome (Seen T × System T)
  act (pushing x) s = returned (pushed x, record s { deque = push x s.deque })
  act popping s = elim (pop s.deque) [
    | returned (r, d') ↦ returned (popped r, record s { deque = d' })
    | _ ↦ undefined
  ]
  act (stealing i) s = elim (proceed (s.thieves i) s.deque) [
    | returned (seen, thief, d') ↦
        returned (seen, record { deque = d'; thieves = set_thief i thief s.thieves })
    | _ ↦ undefined
  ]

  -- The events one after another, with what each shows.
  unfoldable pub run : List (Event T) → System T → Outcome (List (Seen T) × System T)
  run [] s = returned ([], s)
  run (event ∷ events) s = elim (act event s) [
    | returned (seen, s') ↦ elim (run events s') [
      | returned (rest, final) ↦ returned (seen ∷ rest, final)
      | _ ↦ undefined
    ]
    | _ ↦ undefined
  ]

  -- A deque with stealers that have not begun.
  abbrev pub start : Deque T → System T
  start d = record { deque = d; thieves = λ i. idle }
