-- ===== src/Deque/Spec.antt =====
-- A deque as a list of tasks, and what the calls of its owner and of stealers do to it.
use crossbeam.Prelude.{Option, none, some, List, [], ◌∷◌, ◌++◌, ◌≡◌, refl, ap}
use crossbeam.Deque.Defs.{Flavor, fifo, lifo}

module _ {ℓ} {T : Type ℓ} where
  -- The last of the tasks and those before it.
  abbrev pub split_last : T → List T → T × List T
  split_last x [] = (x, [])
  split_last x (y ∷ ys) = let (last, before) = split_last y ys in (last, x ∷ before)

  -- What a pop takes from a list.
  abbrev pub take_next : Flavor → List T → Option T × List T
  take_next fifo [] = (none, [])
  take_next fifo (x ∷ xs) = (some x, xs)
  take_next lifo [] = (none, [])
  take_next lifo (x ∷ xs) = let (last, before) = split_last x xs in (some last, before)

  pub split_last-append :
      (x : T) (xs : List T) → x ∷ xs ≡ (split_last x xs).1 ++ ((split_last x xs).0 ∷ [])
  split_last-append x [] = refl
  split_last-append x (y ∷ ys) = ap (λ l. x ∷ l) (split_last-append y ys)

-- What one step of the owner or of a stealer shows: a task that is pushed, the answer of a pop, a task
-- that is stolen, an empty queue seen by a stealer, or nothing.
pub data Seen {ℓ} (T : Type ℓ) : Type ℓ where
  pushed : T → Seen T
  popped : Option T → Seen T
  stole : T → Seen T
  saw_empty : Seen T
  silent : Seen T

-- What each of these does at once to the list of tasks; a stealer takes the first one.
pub data Move {ℓ} {T : Type ℓ} (flavor : Flavor) : Seen T → List T → List T → Type ℓ where
  move_push : {x : T} {xs : List T} → Move flavor (pushed x) xs (xs ++ (x ∷ []))
  move_pop : {xs : List T} → Move flavor (popped (take_next flavor xs).0) xs (take_next flavor xs).1
  move_steal : {x : T} {xs : List T} → Move flavor (stole x) (x ∷ xs) xs
  move_empty : Move flavor saw_empty [] []
  move_silent : {xs : List T} → Move flavor silent xs xs

-- The moves of a whole run.
pub data Replay {ℓ} {T : Type ℓ} (flavor : Flavor) : List (Seen T) → List T → List T → Type ℓ where
  done : {xs : List T} → Replay flavor [] xs xs
  onward :
      {s : Seen T} {rest : List (Seen T)} {xs ys zs : List T}
      → Move flavor s xs ys
      → Replay flavor rest ys zs
      → Replay flavor (s ∷ rest) xs zs
