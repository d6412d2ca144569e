-- ===== src/Deque/Tests.antt =====
-- Runs of small deques, and each theorem at an input that meets its hypotheses.
use crossbeam.Prelude.{ℕ, ◌^◌, ◌≡◌, ◌≤◌, ◌++◌, refl, arith, some, List, [], ◌∷◌}
use crossbeam.ArrayQueue.Defs.{returned}
use crossbeam.Deque.Defs.{Deque, new_fifo, new_lifo, push, resize, reserve, dropped}
use crossbeam.Deque.Invariant.{Represents}
use crossbeam.Deque.Resize.{Holds, resize-Represents}
use crossbeam.Deque.Reserve.{new_fifo-Represents, new_lifo-Represents, reserve-Holds}
use crossbeam.Deque.Push.{push-Holds}
use crossbeam.Deque.Drop.{dropped-tasks}
use crossbeam.Deque.Steal.{Steal, empty, success, retry}
use crossbeam.Deque.Spec.{Seen}
use crossbeam.Deque.Threads.{Event, pushing, popping, stealing, System, run, start}
use crossbeam.Deque.Linear.{Runs, fifo-Runs, lifo-Runs}
use crossbeam.Deque.Order.{pushes, takes, fifo-order}
use crossbeam.Deque.Batch.{steal_batch_with_limit, steal_batch_with_limit_and_pop}
use crossbeam.Deque.BatchSteal.{Takes}
use crossbeam.Deque.BatchLimit.{steal_batch-Takes}
use crossbeam.Deque.BatchPop.{Pops, steal_batch_and_pop-Pops}

abbrev fifo_deque : Deque ℕ
fifo_deque = push 3 (push 2 (push 1 new_fifo))

abbrev lifo_deque : Deque ℕ
lifo_deque = push 9 new_lifo

-- A deque after three pushes.
three : Holds 0 (1 ∷ 2 ∷ 3 ∷ []) fifo_deque
three =
    push-Holds (push-Holds (push-Holds (new_fifo-Represents ℕ) 1 (omega arith)).1 2 (omega arith)).1
      3 (omega arith)

one : Holds 0 (9 ∷ []) lifo_deque
one = push-Holds (new_lifo-Represents ℕ) 9 (omega arith)

-- A stealer reads the first task, another one steals it, and the first stealer fails; then the owner
-- pops, and a stealer finds nothing.
abbrev script : List (Event ℕ)
script =
    pushing 1
    ∷ pushing 2
    ∷ stealing 0
    ∷ stealing 0
    ∷ stealing 1
    ∷ stealing 1
    ∷ stealing 1
    ∷ stealing 0
    ∷ popping
    ∷ stealing 1
    ∷ stealing 1
    ∷ []

fifo-Runs_example : Runs [] script (start new_fifo)
fifo-Runs_example = fifo-Runs script (omega arith)

lifo-Runs_example : Runs [] script (start new_lifo)
lifo-Runs_example = lifo-Runs script (omega arith)

fifo-order_example :
    (log : List (Seen ℕ)) × (final : System ℕ) × (k : ℕ) × (left : List ℕ) × (run script
        (start new_fifo)
      ≡ returned (log, final))
    × Holds k left final.deque
    × (pushes log ≡ takes log ++ left)
fifo-order_example = fifo-order script (omega arith)

push-Holds_example : Holds 0 (1 ∷ 2 ∷ 3 ∷ 4 ∷ []) (push 4 fifo_deque)
push-Holds_example = push-Holds three.1 4 (omega arith)

resize-Represents_example : Represents 7 0 (1 ∷ 2 ∷ 3 ∷ []) (resize (2 ^ 7) fifo_deque)
resize-Represents_example = resize-Represents three.1 7 (omega arith) (omega arith) (omega arith)

reserve-Holds_example :
    (d' : Deque ℕ) × (e' : ℕ) × (reserve 100 fifo_deque ≡ some d')
    × Represents e' 0 (1 ∷ 2 ∷ 3 ∷ []) d'
    × (103 ≤ d'.own.cap)
    × (d'.flavor ≡ fifo_deque.flavor)
reserve-Holds_example = reserve-Holds three.1 100 (omega arith)

dropped-tasks_example : dropped fifo_deque ≡ (some 1 ∷ some 2 ∷ some 3 ∷ [], fifo_deque.own.ptr)
dropped-tasks_example = dropped-tasks three.1

abbrev steals : List (Steal ℕ)
steals = retry ∷ empty ∷ success 3 ∷ []

steal_batch-Takes_example :
    Takes 0
      (1 ∷ 2 ∷ [])
      (3 ∷ [])
      0
      (9 ∷ [])
      fifo_deque.flavor
      lifo_deque.flavor
      (steal_batch_with_limit 5 fifo_deque lifo_deque)
steal_batch-Takes_example =
    steal_batch-Takes 5 1 (2 ∷ []) (3 ∷ []) three.1 one.1 (omega arith) refl (omega arith)

steal_batch_and_pop-Pops_example :
    Pops 0 1
      (2 ∷ [])
      (3 ∷ [])
      0
      (9 ∷ [])
      fifo_deque.flavor
      lifo_deque.flavor
      (steal_batch_with_limit_and_pop 5 fifo_deque lifo_deque)
steal_batch_and_pop-Pops_example =
    steal_batch_and_pop-Pops 5 1 (2 ∷ []) (3 ∷ []) three.1 one.1 (omega arith) refl (omega arith)
