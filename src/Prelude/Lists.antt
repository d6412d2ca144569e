-- ===== src/Prelude/Lists.antt =====
-- Lists measured by native numbers, under the library's names.
use Prim.Native.Nat.{ℕ, zero, suc, ◌+◌, ◌<◌}
use mathlib.Core.Logic.{◌⊎◌, inl, inr}
use mathlib.Core.Option.{Option, none, some}
use mathlib.Core.Path.{◌≡◌, refl, ap}
use mathlib.Core.List.{List, [], ◌∷◌, ◌++◌}
use native.Mathlib.Omega.{arith}

module _ {ℓ} {A : Type ℓ} where
  abbrev pub length : List A → ℕ
  length [] = 0
  length (x ∷ xs) = suc (length xs)

  pub length-append : (xs ys : List A) → length (xs ++ ys) ≡ length xs + length ys
  length-append [] ys = omega arith
  length-append (x ∷ xs) ys = omega (arith, length-append xs ys)

  abbrev pub get_elem? : List A → ℕ → Option A
  get_elem? [] i = none
  get_elem? (x ∷ xs) zero = some x
  get_elem? (x ∷ xs) (suc i) = get_elem? xs i

  pub get_elem?-lt : (xs : List A) (i : ℕ) (x : A) → get_elem? xs i ≡ some x → i < length xs
  get_elem?-lt [] i x e = cc
  get_elem?-lt (y ∷ xs) zero x e = omega arith
  get_elem?-lt (y ∷ xs) (suc i) x e = omega (arith, get_elem?-lt xs i x e)

  -- An element of a list with `v` put at the end is one of the list's, or `v`.
  pub get_elem?-snoc :
      (xs : List A) (v : A) (i : ℕ) (x : A)
      → get_elem? (xs ++ (v ∷ [])) i ≡ some x
      → (get_elem? xs i ≡ some x) ⊎ ((i ≡ length xs) × (some v ≡ some x))
  get_elem?-snoc [] v zero x e = inr (refl, e)
  get_elem?-snoc [] v (suc i) x e = absurd (cc)
  get_elem?-snoc (y ∷ xs) v zero x e = inl e
  get_elem?-snoc (y ∷ xs) v (suc i) x e = elim (get_elem?-snoc xs v i x e) [
    | inl old ↦ inl old
    | inr (at_end, same) ↦ inr (ap suc at_end, same)
  ]

  pub length-snoc : (xs : List A) (v : A) → length (xs ++ (v ∷ [])) ≡ length xs + 1
  length-snoc xs v = length-append xs (v ∷ [])
