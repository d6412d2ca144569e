-- ===== src/ArrayQueue/Fifo.antt =====
-- A bounded queue as a list, oldest element first, and the calls that a client makes.
use crossbeam.Prelude.{ℕ, Bool, Option, none, some, List, [], ◌∷◌, ◌++◌, length, if◌then◌else◌, ltb}
use crossbeam.ArrayQueue.Defs.{PushResult, ok, err}

-- A call, with the verdicts of its `compare_exchange_weak`s.
pub data Call {ℓ} (A : Type ℓ) : Type ℓ where
  push : A → List Bool → Call A
  force_push : A → List Bool → Call A
  pop : List Bool → Call A
  push_mut : A → Call A
  pop_mut : Call A

pub data Answer {ℓ} (A : Type ℓ) : Type ℓ where
  pushed : PushResult A → Answer A
  taken : Option A → Answer A

module _ {ℓ} {A : Type ℓ} where
  abbrev pub pop_list : List A → Answer A × List A
  pop_list [] = (taken none, [])
  pop_list (x ∷ xs) = (taken (some x), xs)

  abbrev pub push_list : ℕ → A → List A → Answer A × List A
  push_list cap v xs =
      if ltb (length xs) cap then (pushed ok, xs ++ (v ∷ [])) else (pushed (err v), xs)

  -- A full queue makes room by giving up its oldest element; a queue of no capacity does not exist.
  abbrev pub force_list : ℕ → A → List A → Answer A × List A
  force_list cap v [] = (taken none, v ∷ [])
  force_list cap v (x ∷ xs) =
      if ltb (length (x ∷ xs)) cap
      then (taken none, (x ∷ xs) ++ (v ∷ []))
      else (taken (some x), xs ++ (v ∷ []))

  unfoldable pub step : ℕ → Call A → List A → Answer A × List A
  step cap (push v _) xs = push_list cap v xs
  step cap (force_push v _) xs = force_list cap v xs
  step cap (pop _) xs = pop_list xs
  step cap (push_mut v) xs = push_list cap v xs
  step cap pop_mut xs = pop_list xs

  unfoldable pub run : ℕ → List (Call A) → List A → List (Answer A)
  run cap [] xs = []
  run cap (c ∷ cs) xs = let (a, xs') = step cap c xs in a ∷ run cap cs xs'
