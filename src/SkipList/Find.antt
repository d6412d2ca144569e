-- ===== src/SkipList/Find.antt =====
-- What a search finds: the first node at which it stops, or the last that it passes.
use crossbeam.Prelude.{
  ℕ, ◌≡◌, inl, inr, refl, sym, ap, ◌∙◌, Bool, true, false, not, Option, none, some, List, [], ◌∷◌,
  ◌++◌, if◌then◌else◌, arith, Bool-cases, Option-cases,
}
use crossbeam.SkipList.Chain.{All, end}
use crossbeam.SkipList.Compare.{Comparator, leq}
use crossbeam.SkipList.Defs.{NodeRef, Link, SkipList, is_removed}
use crossbeam.SkipList.Search.{Verdict}
use crossbeam.SkipList.Invariant.{live}
use crossbeam.SkipList.Walk.{IsPlace, Faces}

module _ {ℓ κ} {K : Type ℓ} {V : Type κ} where
  -- What a search finds in the live nodes: the first node at which it stops, if it takes that one.
  unfoldable pub find_first : (K → Verdict) → List (NodeRef K V) → Option (NodeRef K V)
  find_first judge [] = none
  find_first judge (x ∷ xs) =
      let rest = find_first judge xs in
      if (judge x.key).stop then (if (judge x.key).take then some x else none) else rest

  -- The last of the nodes that it passes.
  unfoldable pub find_last : (K → Verdict) → List (NodeRef K V) → Option (NodeRef K V)
  find_last judge [] = none
  find_last judge (x ∷ xs) =
      let rest = find_last judge xs in
      if (judge x.key).stop then none else elim rest [ none ↦ some x | some y ↦ some y ]

  -- A search has its place at a level, and faces a node that is not removed.
  abbrev pub IsAt :
      (K → Verdict) → SkipList K V → (ℕ → List (NodeRef K V)) → ℕ → ℕ → Link K V → Type (ℓ ⊔ κ)
  IsAt judge s chain i left right = IsPlace judge s chain i left right × Faces s right

  pub find_first-passed :
      (judge : K → Verdict) (s : SkipList K V) (xs ys : List (NodeRef K V))
      → All (λ x. (judge x.key).stop ≡ false) xs
      → find_first judge (live s (xs ++ ys)) ≡ find_first judge (live s ys)
  unfolding find_first
  find_first-passed judge s [] ys p = refl
  find_first-passed judge s (x ∷ xs) ys p = elim (Bool-cases (is_removed s x)) [
    | inl gone ↦ rw gone (find_first-passed judge s xs ys p.1)
    | inr lives ↦ rw (lives, find_first, p.0) (find_first-passed judge s xs ys p.1)
  ]

  find_last-ahead :
      (judge : K → Verdict) (s : SkipList K V) (ys : List (NodeRef K V))
      → All (λ x. (judge x.key).stop ≡ true) ys
      → find_last judge (live s ys) ≡ none
  unfolding find_last
  find_last-ahead judge s [] a = refl
  find_last-ahead judge s (y ∷ ys) a = elim (Bool-cases (is_removed s y)) [
    | inl gone ↦ rw gone (find_last-ahead judge s ys a.1)
    | inr lives ↦ rw (lives, find_last, a.0)
  ]

  pub find_last-none :
      (judge : K → Verdict) (s : SkipList K V) (xs ys : List (NodeRef K V))
      → All (λ x. (judge x.key).stop ≡ false) xs
      → All (λ x. (judge x.key).stop ≡ true) ys
      → ((x : NodeRef K V) → end xs ≡ some x → is_removed s x ≡ false)
      → find_last judge (live s (xs ++ ys)) ≡ end xs
  unfolding find_last
  find_last-none judge s [] ys p a stand = find_last-ahead judge s ys a
  find_last-none judge s (x ∷ xs) ys p a stand = elim (Option-cases (end xs)) [
    | inl n ↦
        let lives : is_removed s x ≡ false =
          stand x (ap (λ o. elim o [ none ↦ some x | some z ↦ some z ]) n) in
        let rest : find_last judge (live s (xs ++ ys)) ≡ end xs =
          find_last-none judge s xs ys p.1 a (λ z f. absurd (ground (arith, n, f))) in
        rw (lives, find_last, p.0) (ap (λ o. elim o [ none ↦ some x | some z ↦ some z ]) rest)
    | inr (z, f) ↦
        let rest : find_last judge (live s (xs ++ ys)) ≡ end xs =
          find_last-none judge s xs ys p.1 a
            (λ u g. stand u (ap (λ o. elim o [ none ↦ some x | some z ↦ some z ]) g)) in
        elim (Bool-cases (is_removed s x)) [
          | inl gone ↦
              rw gone (rest ∙ (f ∙ sym (ap (λ o. elim o [ none ↦ some x | some z ↦ some z ]) f)))
          | inr lives ↦
              rw (lives, find_last, p.0) (ap (λ o. elim o [ none ↦ some x | some z ↦ some z ]) rest)
        ]
  ]

  abbrev pub find : Bool → (K → Verdict) → List (NodeRef K V) → Option (NodeRef K V)
  find true = find_last
  find false = find_first

module _ {ℓ} {K : Type ℓ} ⦃o : Comparator K⦄ where
  -- The two kinds of search: of the last node passed, and of the node stopped at.
  abbrev pub IsKind : (K → Verdict) → Bool → Type ℓ
  IsKind judge true = (k : K) → (judge k).take ≡ not (judge k).stop
  IsKind judge false =
      ((k : K) → (judge k).take ≡ true → (judge k).stop ≡ true)
      × ((a b : K)
          → leq a b ≡ true
          → (judge b).take ≡ true
          → (judge a).stop ≡ true
          → (judge a).take ≡ true)

  abbrev pub IsMonotone : (K → Verdict) → Type ℓ
  IsMonotone judge = (a b : K) → leq a b ≡ true → (judge a).stop ≡ true → (judge b).stop ≡ true
