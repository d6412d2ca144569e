-- ===== src/SkipList/Queries.antt =====
-- What the lookups return.
use crossbeam.Prelude.{
  ℕ, zero, suc, ◌<◌, ◌≡◌, ap, ◌∙◌, Bool, true, false, Option, none, some, List, if◌then◌else◌,
  arith,
}
use crossbeam.SkipList.Chain.{end}
use crossbeam.SkipList.Compare.{Comparator, equivalent, Bound, included}
use crossbeam.SkipList.Defs.{NodeRef, SkipList}
use crossbeam.SkipList.Search.{judge_bound, search, search_bound, get, lower_bound, upper_bound}
use crossbeam.SkipList.Invariant.{live, IsSkipList, IsTidied}
use crossbeam.SkipList.Find.{find}
use crossbeam.SkipList.Judge.{judge_bound-IsMonotone, judge_bound-IsKind}
use crossbeam.SkipList.Lookup.{
  IsSearched, search-IsSearched, first_above, below, lookup, live-IsAscending,
  find_first-first_above, find_last-below, first_above-lookup,
}

module _ {ℓ κ} {K : Type ℓ} {V : Type κ} ⦃o : Comparator K⦄ where
  -- A run returns `a`, and changes the list by no more than that removed nodes are unlinked.
  pub record Answers {μ} {A : Type μ} (s : SkipList K V) (chain : ℕ → List (NodeRef K V))
      (run : Option (A × SkipList K V)) (a : A) : Type (ℓ ⊔ κ ⊔ μ) where
    pub list : SkipList K V
    pub rest : ℕ → List (NodeRef K V)
    pub ran : run ≡ some (a, list)
    pub tidied : IsTidied s chain list rest

  pub search_bound-find :
      (fuel : ℕ) (b : Bound K) (upper : Bool) (s : SkipList K V) (chain : ℕ → List (NodeRef K V))
      → IsSkipList s chain
      → s.allocated < fuel
      → Answers s chain
          (search_bound fuel b upper s)
          (find upper (judge_bound b upper) (live s (chain 0)))
  unfolding search_bound
  search_bound-find zero b upper s chain w h = absurd (omega (arith, h))
  search_bound-find (suc fuel) b upper s chain w h =
      let k : IsSearched upper (judge_bound b upper) s chain
          (search (suc fuel) (suc fuel) (judge_bound b upper) s) =
        search-IsSearched upper (judge_bound b upper) fuel (suc fuel) s chain
          (judge_bound-IsMonotone b upper) (judge_bound-IsKind b upper) w h in
      record {
        list = k.list;
        rest = k.rest;
        ran =
            ap (λ m. elim m [ none ↦ none | some (p, t) ↦ some (p.found, t) ]) k.ran
            ∙ ap (λ f. some (f, k.list)) k.found;
        tidied = k.tidied;
      }

  -- In a well-formed list, `lower_bound` returns the first node above the bound that is not
  -- removed, with any fuel that is more than the number of nodes ever made; the list stays
  -- well-formed, and the nodes that are not removed stay as they were.
  pub lower_bound-first_above :
      (fuel : ℕ) (b : Bound K) (s : SkipList K V) (chain : ℕ → List (NodeRef K V))
      → IsSkipList s chain
      → s.allocated < fuel
      → Answers s chain (lower_bound fuel b s) (first_above b (live s (chain 0)))
  unfolding lower_bound
  lower_bound-first_above fuel b s chain w h =
      let k : Answers s chain (search_bound fuel b false s)
          (find false (judge_bound b false) (live s (chain 0))) =
        search_bound-find fuel b false s chain w h in
      record {
        list = k.list;
        rest = k.rest;
        ran = k.ran ∙ ap (λ f. some (f, k.list)) (find_first-first_above b (live s (chain 0)));
        tidied = k.tidied;
      }

  -- In a well-formed list, `upper_bound` returns the last of the nodes below the bound that are not
  -- removed, with any fuel that is more than the number of nodes ever made; the list stays
  -- well-formed, and the nodes that are not removed stay as they were.
  pub upper_bound-below :
      (fuel : ℕ) (b : Bound K) (s : SkipList K V) (chain : ℕ → List (NodeRef K V))
      → IsSkipList s chain
      → s.allocated < fuel
      → Answers s chain (upper_bound fuel b s) (end (below b (live s (chain 0))))
  unfolding upper_bound
  upper_bound-below fuel b s chain w h =
      let k : Answers s chain (search_bound fuel b true s)
          (find true (judge_bound b true) (live s (chain 0))) =
        search_bound-find fuel b true s chain w h in
      record {
        list = k.list;
        rest = k.rest;
        ran =
            k.ran
            ∙ ap (λ f. some (f, k.list))
                (find_last-below b (live s (chain 0)) (live-IsAscending s (chain 0) (w.sorted 0)));
        tidied = k.tidied;
      }

  -- In a well-formed list, `get` returns the node with an equivalent key that is not removed, or
  -- nothing where there is none, with any fuel that is more than the number of nodes ever made; the
  -- list stays well-formed, and the nodes that are not removed stay as they were.
  pub get-lookup :
      (fuel : ℕ) (key : K) (s : SkipList K V) (chain : ℕ → List (NodeRef K V))
      → IsSkipList s chain
      → s.allocated < fuel
      → Answers s chain (get fuel key s) (lookup key (live s (chain 0)))
  unfolding get
  get-lookup fuel key s chain w h =
      let k : Answers s chain (search_bound fuel (included key) false s)
          (find false (judge_bound (included key) false) (live s (chain 0))) =
        search_bound-find fuel (included key) false s chain w h in
      record {
        list = k.list;
        rest = k.rest;
        ran =
            ap
              (λ m. elim m [
                | none ↦ none
                | some (r, t) ↦ some (
                  elim r [ none ↦ none | some n ↦ if equivalent n.key key then some n else none ],
                  t,
                )
              ])
              (k.ran
                ∙ ap (λ f. some (f, k.list))
                    (find_first-first_above (included key) (live s (chain 0))))
            ∙ ap (λ f. some (f, k.list))
                (first_above-lookup key (live s (chain 0))
                  (live-IsAscending s (chain 0) (w.sorted 0)));
        tidied = k.tidied;
      }
