-- ===== src/Deque/Order.antt =====
-- The order of the tasks through a FIFO deque.
use crossbeam.Prelude.{ℕ, ◌^◌, ◌<◌, ◌≡◌, sym, ap, ◌∙◌, some, List, [], ◌∷◌, ◌++◌, length}
use mathlib.Core.List.{append-nil, append_assoc}
use crossbeam.ArrayQueue.Defs.{returned}
use crossbeam.Deque.Defs.{fifo, new_fifo}
use crossbeam.Deque.Spec.{
  Seen, pushed, popped, stole, move_push, move_pop, move_steal, move_empty, move_silent, Replay,
  done, onward,
}
use crossbeam.Deque.Threads.{Event, System, run, start}
use crossbeam.Deque.Resize.{Holds}
use crossbeam.Deque.Linear.{fifo-Runs}

module _ {ℓ} {T : Type ℓ} where
  -- The tasks that the owner pushed.
  unfoldable pub pushes : List (Seen T) → List T
  pushes [] = []
  pushes (pushed x ∷ log) = x ∷ pushes log
  pushes (_ ∷ log) = pushes log

  -- The tasks that the owner popped or a stealer stole.
  unfoldable pub takes : List (Seen T) → List T
  takes [] = []
  takes (popped (some x) ∷ log) = x ∷ takes log
  takes (stole x ∷ log) = x ∷ takes log
  takes (_ ∷ log) = takes log

  Replay-order :
      {log : List (Seen T)} {xs ys : List T}
      → Replay fifo log xs ys
      → xs ++ pushes log ≡ takes log ++ ys
  unfolding pushes takes
  Replay-order (done {xs}) = append-nil xs
  Replay-order (onward {rest = log} (move_push {x} {xs}) r) =
      sym (append_assoc xs (x ∷ []) (pushes log)) ∙ Replay-order r
  Replay-order (onward (move_pop {xs = []}) r) = Replay-order r
  Replay-order (onward (move_pop {xs = x ∷ xs}) r) = ap (λ l. x ∷ l) (Replay-order r)
  Replay-order (onward (move_steal {x}) r) = ap (λ l. x ∷ l) (Replay-order r)
  Replay-order (onward move_empty r) = Replay-order r
  Replay-order (onward move_silent r) = Replay-order r

  -- On a new FIFO deque, whatever pushes and pops of the owner and parts of steals are run in whatever
  -- order, fewer than `2 ^ 62` in all, every step returns, and the tasks that were pushed are, in order,
  -- those that were popped or stolen followed by those that the deque still holds.
  pub fifo-order :
      (events : List (Event T))
      → length events < 2 ^ 62
      → (log : List (Seen T)) × (final : System T) × (k : ℕ) × (left : List T) × (run events
            (start new_fifo)
          ≡ returned (log, final))
        × Holds k left final.deque
        × (pushes log ≡ takes log ++ left)
  unfolding new_fifo
  fifo-order events few =
      let r = fifo-Runs events few in
      (r.log, r.final, r.k, r.ys, r.result, r.holds, Replay-order r.replay)
