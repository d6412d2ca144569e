-- ===== src/Deque/Steal.antt =====
-- `Steal`, the result of a steal operation.
use crossbeam.Prelude.{
  Bool, true, false, Option, none, some, List, [], ◌∷◌, ◌≡◌, refl, sym, ◌∙◌, ◌⊎◌, inl, inr,
  if◌then◌else◌,
}

pub data Steal {ℓ} (T : Type ℓ) : Type ℓ where
  empty : Steal T
  success : T → Steal T
  retry : Steal T

module _ {ℓ} {T : Type ℓ} where
  unfoldable pub is_empty : Steal T → Bool
  is_empty empty = true
  is_empty _ = false

  unfoldable pub is_success : Steal T → Bool
  is_success (success task) = true
  is_success _ = false

  unfoldable pub is_retry : Steal T → Bool
  is_retry retry = true
  is_retry _ = false

  -- `Steal::success`
  unfoldable pub success_value : Steal T → Option T
  success_value (success task) = some task
  success_value _ = none

  -- The second attempt is a closure in the code.
  unfoldable pub or_else : Steal T → (Unit {0} → Steal T) → Steal T
  or_else empty f = f tt
  or_else (success task) f = success task
  or_else retry f = elim (f tt) [ success res ↦ success res | _ ↦ retry ]

  -- The loop of `from_iter`, with its flag.
  unfoldable pub from_iter_loop : Bool → List (Steal T) → Steal T
  from_iter_loop seen [] = if seen then retry else empty
  from_iter_loop seen (empty ∷ rest) = from_iter_loop seen rest
  from_iter_loop seen (success task ∷ rest) = success task
  from_iter_loop seen (retry ∷ rest) = from_iter_loop true rest

  unfoldable pub from_iter : List (Steal T) → Steal T
  from_iter steals = from_iter_loop false steals

  -- Attempts one after another, each made only where the ones before stole nothing.
  unfoldable pub attempts : List (Steal T) → Steal T
  attempts [] = empty
  attempts (s ∷ rest) = or_else s (λ _. attempts rest)

  retry_twice : (s : Steal T) → or_else retry (λ _. or_else retry (λ _. s)) ≡ or_else retry (λ _. s)
  unfolding or_else
  retry_twice empty = refl
  retry_twice (success task) = refl
  retry_twice retry = refl

  from_iter_loop-retry :
      (steals : List (Steal T)) → from_iter_loop true steals ≡ or_else retry (λ _. attempts steals)
  unfolding from_iter_loop or_else attempts
  from_iter_loop-retry [] = refl
  from_iter_loop-retry (empty ∷ rest) = from_iter_loop-retry rest
  from_iter_loop-retry (success task ∷ rest) = refl
  from_iter_loop-retry (retry ∷ rest) =
      from_iter_loop-retry rest ∙ sym (retry_twice (attempts rest))

  from_iter_loop-attempts :
      (steals : List (Steal T)) → from_iter_loop false steals ≡ attempts steals
  unfolding from_iter_loop or_else attempts
  from_iter_loop-attempts [] = refl
  from_iter_loop-attempts (empty ∷ rest) = from_iter_loop-attempts rest
  from_iter_loop-attempts (success task ∷ rest) = refl
  from_iter_loop-attempts (retry ∷ rest) = from_iter_loop-retry rest

  -- Collecting the results of steals is the same as trying them in order with `or_else`.
  pub from_iter-attempts : (steals : List (Steal T)) → from_iter steals ≡ attempts steals
  unfolding from_iter
  from_iter-attempts steals = from_iter_loop-attempts steals

  -- A result is exactly one of the three, and `success` returns a task for that one only.
  pub Steal-tests :
      (s : Steal T)
      → ((is_empty s ≡ true)
          × (is_success s ≡ false)
          × (is_retry s ≡ false)
          × (success_value s ≡ none))
        ⊎ ((is_empty s ≡ false)
            × (is_success s ≡ true)
            × (is_retry s ≡ false)
            × ((task : T) × (success_value s ≡ some task)))
        ⊎ ((is_empty s ≡ false)
            × (is_success s ≡ false)
            × (is_retry s ≡ true)
            × (success_value s ≡ none))
  unfolding is_empty is_success is_retry success_value
  Steal-tests empty = inl (refl, refl, refl, refl)
  Steal-tests (success task) = inr (inl (refl, refl, refl, (task, refl)))
  Steal-tests retry = inr (inr (refl, refl, refl, refl))
