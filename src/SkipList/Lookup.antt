-- ===== src/SkipList/Lookup.antt =====
-- What `search_bound`, `search_position` and the lookups return.
use Prim.Native.Nat.Ordering.{lt, eq, gt}
use crossbeam.Prelude.{
  ℕ, zero, suc, ◌<◌, ◌≤◌, ◌≡◌, inl, inr, refl, sym, ap, ◌∙◌, subst, Bool, true, false, Option, none,
  some, List, [], ◌∷◌, if◌then◌else◌, arith, Bool-cases, ℕ_discrete,
}
use crossbeam.SkipList.Chain.{All, Pairwise, first, Linked-first, end}
use crossbeam.SkipList.Compare.{
  Comparator, leq-eq, equivalent, Bound, included, above_lower_bound, below_upper_bound,
  below_upper_bound-leq,
}
use crossbeam.SkipList.Defs.{NodeRef, Link, SkipList, is_removed, is_null, null, head}
use crossbeam.SkipList.Search.{
  Position, again, finished, Verdict, skip_empty, descend, search, at_head, nowhere, judge_bound,
  judge_key, search_position,
}
use crossbeam.SkipList.Invariant.{live, live-SameTags, Before, IsSkipList, IsTidied}
use crossbeam.SkipList.Unlink.{true_ne_false}
use crossbeam.SkipList.Find.{find, find_first, find_last, IsKind, IsMonotone, IsAt}
use crossbeam.SkipList.Judge.{judge_key-IsMonotone, judge_key-IsKind}
use crossbeam.SkipList.Descend.{IsDescended, descend-IsDescended}
use crossbeam.SkipList.Result.{HasResult-none}
use crossbeam.SkipList.Start.{StandsAt-none}

module _ {ℓ κ} {K : Type ℓ} {V : Type κ} where
  null-first :
      (xs : List (NodeRef K V)) (l : Link K V) → l.ptr ≡ first xs → is_null l ≡ true → xs ≡ []
  null-first [] l e n = refl
  null-first (x ∷ xs) l e n = absurd (ground (arith, e, n))

module _ {ℓ κ} {K : Type ℓ} {V : Type κ} ⦃o : Comparator K⦄ where
  -- Every level that the first loop skips is empty.
  skip_empty-empty :
      (s : SkipList K V) (chain : ℕ → List (NodeRef K V)) (level : ℕ)
      → IsSkipList s chain
      → ((i : ℕ) → level ≤ i → chain i ≡ [])
      → (i : ℕ) → skip_empty s level ≤ i
      → chain i ≡ []
  unfolding skip_empty
  skip_empty-empty s chain zero w above i h = above i h
  skip_empty-empty s chain (suc level) w above i h =
      elim (Bool-cases (is_null (s.links head level))) [
        | inr f ↦
            above i (subst (λ n. n ≤ i) (ap (λ b. if b then skip_empty s level else suc level) f) h)
        | inl n ↦
            let level_empty : chain level ≡ [] =
              null-first (chain level) (s.links head level)
                (Linked-first s level 0 (chain level) (w.linked level)) n in
            skip_empty-empty s chain level w
              (λ j le. elim (ℕ_discrete j level) [
                | yes e ↦ subst (λ k. chain k ≡ []) (sym e) level_empty
                | no ne ↦ above j (omega (arith, le, ne))
              ])
              i (subst (λ n. n ≤ i) (ap (λ b. if b then skip_empty s level else suc level) n) h)
      ]

  -- What a search returns, for a well-formed list and enough fuel.
  pub record IsSearched (upper : Bool) (judge : K → Verdict) (s : SkipList K V)
      (chain : ℕ → List (NodeRef K V)) (run : Option (Position K V × SkipList K V))
      : Type (ℓ ⊔ κ) where
    pub list : SkipList K V
    pub position : Position K V
    pub ran : run ≡ some (position, list)
    pub rest : ℕ → List (NodeRef K V)
    pub tidied : IsTidied s chain list rest
    pub places : (i : ℕ) → IsAt judge list rest i (position.left i) (position.right i)
    pub found : position.found ≡ find upper judge (live s (chain 0))

  pub search-IsSearched :
      (upper : Bool) (judge : K → Verdict) (tries fuel : ℕ) (s : SkipList K V)
      (chain : ℕ → List (NodeRef K V))
      → IsMonotone judge
      → IsKind judge upper
      → IsSkipList s chain
      → s.allocated < fuel
      → IsSearched upper judge s chain (search (suc tries) fuel judge s)
  unfolding search
  search-IsSearched upper judge tries fuel s chain mono law w h =
      let level : ℕ = skip_empty s s.max_height in
      let empty : (i : ℕ) → level ≤ i → chain i ≡ [] =
        skip_empty-empty s chain s.max_height w w.low in
      let d : IsDescended upper judge s chain (descend fuel judge level (at_head s) nowhere) =
        descend-IsDescended upper judge mono law level fuel s chain none none null nowhere w h
          (StandsAt-none judge s chain level) (HasResult-none upper judge s chain level empty)
          (λ i le. (
            record {
              before = [];
              after = [];
              split = empty i le;
              passed = tt;
              ahead = tt;
              at = refl;
              next = refl;
              unmarked = w.clean i;
              standing = λ x f. absurd (ground (arith, f));
            },
            λ x f. absurd (ground (arith, f)),
          )) in
      record {
        list = d.list;
        position = d.position;
        ran =
            ap
              (λ m. elim m [
                | none ↦ none
                | some (again t) ↦ search tries fuel judge t
                | some (finished t p) ↦ some (p, t)
              ])
              d.ran;
        rest = d.rest;
        tidied = d.tidied;
        places = d.places;
        found =
            d.found
            ∙ ap (find upper judge)
                (live-SameTags s d.list (d.rest 0) d.tidied.tags ∙ d.tidied.lives 0);
      }

  pub search_position-IsSearched :
      (fuel : ℕ) (key : K) (s : SkipList K V) (chain : ℕ → List (NodeRef K V))
      → IsSkipList s chain
      → s.allocated < fuel
      → IsSearched false (judge_key key) s chain (search_position fuel key s)
  unfolding search_position
  search_position-IsSearched zero key s chain w h = absurd (omega (arith, h))
  search_position-IsSearched (suc fuel) key s chain w h =
      search-IsSearched false (judge_key key) fuel (suc fuel) s chain (judge_key-IsMonotone key)
        (judge_key-IsKind key) w h

  -- The first of some nodes that is above a bound, and the last that is below it.
  abbrev pub first_above : Bound K → List (NodeRef K V) → Option (NodeRef K V)
  first_above b [] = none
  first_above b (x ∷ xs) = if above_lower_bound b x.key then some x else first_above b xs

  abbrev pub below : Bound K → List (NodeRef K V) → List (NodeRef K V)
  below b [] = []
  below b (x ∷ xs) = if below_upper_bound b x.key then x ∷ below b xs else below b xs

  -- The node with a key.
  abbrev pub lookup : K → List (NodeRef K V) → Option (NodeRef K V)
  lookup key [] = none
  lookup key (x ∷ xs) = if equivalent x.key key then some x else lookup key xs

  -- The keys ascend.
  abbrev pub IsAscending : List (NodeRef K V) → Type 0
  IsAscending xs = Pairwise (λ x y. o.compare x.key y.key ≡ lt) xs

  live-All :
      (s : SkipList K V) (x : NodeRef K V) (xs : List (NodeRef K V))
      → All (Before s x) xs
      → All (λ y. o.compare x.key y.key ≡ lt) (live s xs)
  live-All s x [] a = tt
  live-All s x (y ∷ ys) a = elim (Bool-cases (is_removed s y)) [
    | inl gone ↦ rw gone (live-All s x ys a.1)
    | inr lives ↦
        rw lives
          (elim a.0 [ inl l ↦ l | inr (_, gone) ↦ true_ne_false gone lives ], live-All s x ys a.1)
  ]

  pub live-IsAscending :
      (s : SkipList K V) (xs : List (NodeRef K V))
      → Pairwise (Before s) xs
      → IsAscending (live s xs)
  live-IsAscending s [] p = tt
  live-IsAscending s (x ∷ xs) p = elim (Bool-cases (is_removed s x)) [
    | inl gone ↦ rw gone (live-IsAscending s xs p.1)
    | inr lives ↦ rw lives (live-All s x xs p.0, live-IsAscending s xs p.1)
  ]

  pub find_first-first_above :
      (b : Bound K) (xs : List (NodeRef K V))
      → find_first (judge_bound b false) xs ≡ first_above b xs
  unfolding find_first judge_bound
  find_first-first_above b [] = refl
  find_first-first_above b (x ∷ xs) = ground (arith, find_first-first_above b xs)

  below-none :
      (b : Bound K) (x : NodeRef K V) (xs : List (NodeRef K V))
      → below_upper_bound b x.key ≡ false
      → All (λ y. o.compare x.key y.key ≡ lt) xs
      → below b xs ≡ []
  below-none b x [] f a = refl
  below-none b x (y ∷ ys) f a = elim (Bool-cases (below_upper_bound b y.key)) [
    | inl t ↦ true_ne_false (below_upper_bound-leq b x.key y.key (rw a.0) t) f
    | inr n ↦ rw n (below-none b x ys f a.1)
  ]

  pub find_last-below :
      (b : Bound K) (xs : List (NodeRef K V))
      → IsAscending xs
      → find_last (judge_bound b true) xs ≡ end (below b xs)
  unfolding find_last judge_bound
  find_last-below b [] p = refl
  find_last-below b (x ∷ xs) p = elim (Bool-cases (below_upper_bound b x.key)) [
    | inl t ↦
        rw (t, find_last)
          (ap (λ r. elim r [ none ↦ some x | some y ↦ some y ]) (find_last-below b xs p.1))
    | inr f ↦ rw (f, find_last, below-none b x xs f p.0)
  ]

  lookup-none :
      (key : K) (x : NodeRef K V) (xs : List (NodeRef K V))
      → o.compare x.key key ≡ gt
      → All (λ y. o.compare x.key y.key ≡ lt) xs
      → lookup key xs ≡ none
  lookup-none key x [] g a = refl
  lookup-none key x (y ∷ ys) g a =
      let other : equivalent y.key key ≡ false = elim (Bool-cases (equivalent y.key key)) [
        | inr f ↦ f
        | inl e ↦
            let same : o.compare y.key key ≡ eq = ground (arith, e) in
            absurd (ground (arith, g, leq-eq x.key y.key key (rw a.0) same))
      ] in
      rw other (lookup-none key x ys g a.1)

  -- Among ascending keys, the search for a key stops at it or where it is missing.
  pub find_first-lookup :
      (key : K) (xs : List (NodeRef K V))
      → IsAscending xs
      → find_first (judge_key key) xs ≡ lookup key xs
  unfolding find_first judge_key
  find_first-lookup key [] p = refl
  find_first-lookup key (x ∷ xs) p = ground (
    arith,
    find_first-lookup key xs p.1,
    λ (g : o.compare x.key key ≡ gt). lookup-none key x xs g p.0,
  )

  pub first_above-lookup :
      (key : K) (xs : List (NodeRef K V))
      → IsAscending xs
      → (elim (first_above (included key) xs) [
        | none ↦ none
        | some n ↦ if equivalent n.key key then some n else none
      ])
        ≡ lookup key xs
  unfolding above_lower_bound
  first_above-lookup key [] p = refl
  first_above-lookup key (x ∷ xs) p = ground (
    arith,
    first_above-lookup key xs p.1,
    λ (g : o.compare x.key key ≡ gt). lookup-none key x xs g p.0,
  )
