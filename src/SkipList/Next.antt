-- ===== src/SkipList/Next.antt =====
-- What follows the head, or an entry.
use crossbeam.Prelude.{
  ℕ, zero, suc, ◌<◌, ◌≤◌, ◌≡◌, inl, inr, refl, sym, ap, ◌∙◌, subst, true, false, Option, none, some,
  List, [], ◌∷◌, ◌++◌, if◌then◌else◌, length, length-append, arith, Bool-cases,
}
use crossbeam.SkipList.Chain.{
  All, Mem, last, last-end, first, address_of, some_inj, Linked, Linked-right, Linked-first,
  Pairwise, Pairwise-across, end-Mem,
}
use crossbeam.SkipList.Compare.{
  Comparator, compare_refl, Bound, unbounded, excluded, above_lower_bound,
}
use crossbeam.SkipList.Defs.{NodeRef, Link, SkipList, is_removed, put}
use crossbeam.SkipList.Search.{next_live, next_node, front, search_bound, help_unlink, judge_bound}
use crossbeam.SkipList.Iterate.{entry_next}
use crossbeam.SkipList.Invariant.{
  live, live-SameTags, Before, IsSkipList, IsTidied, IsTidied-refl, IsTidied-trans,
}
use crossbeam.SkipList.Unlink.{
  true_ne_false, put-there, unlinked, help_unlink-succeeds, unlinked-IsTidied,
}
use crossbeam.SkipList.Walk.{link_to, link_eq}
use crossbeam.SkipList.Find.{find, find_first, find_first-passed}
use crossbeam.SkipList.Start.{IsStart, start}
use crossbeam.SkipList.Judge.{judge_bound-IsMonotone}
use crossbeam.SkipList.Lookup.{first_above, find_first-first_above}
use crossbeam.SkipList.Queries.{Answers, search_bound-find}

module _ {ℓ κ} {K : Type ℓ} {V : Type κ} ⦃o : Comparator K⦄ where
  next_live-end :
      (fuel more pred : ℕ) (b : Bound K) (s : SkipList K V)
      → next_live fuel (suc more) pred b (link_to []) s ≡ some (none, s)
  unfolding next_live
  next_live-end fuel more pred b s = refl

  next_live-found :
      (fuel more pred : ℕ) (b : Bound K) (y : NodeRef K V) (ys : List (NodeRef K V))
      (s : SkipList K V)
      → is_removed s y ≡ false
      → next_live fuel (suc more) pred b (link_to (y ∷ ys)) s ≡ some (some y, s)
  unfolding next_live
  next_live-found fuel more pred b y ys s f = rw (next_live, f)

  next_live-skips :
      (fuel more pred : ℕ) (b : Bound K) (y : NodeRef K V) (ys : List (NodeRef K V))
      (s : SkipList K V)
      → is_removed s y ≡ true
      → (s.links pred 0).ptr ≡ some y
      → (s.links pred 0).tag ≡ false
      → (s.links y.address 0).ptr ≡ first ys
      → next_live fuel (suc more) pred b (link_to (y ∷ ys)) s
        ≡ next_live fuel more pred b (link_to ys) (unlinked s pred 0 y)
  unfolding next_live
  next_live-skips fuel more pred b y ys s gone p f after =
      let next : Option (Link K V × SkipList K V) → Option (Option (NodeRef K V) × SkipList K V) =
        λ m. elim m [
          | none ↦ search_bound fuel b false s
          | some (l, t) ↦ next_live fuel more pred b l t
        ] in
      ap (λ g. if g then next (help_unlink s pred 0 y (s.links y.address 0)) else some (some y, s))
        gone
      ∙ (ap next (help_unlink-succeeds s pred 0 y p f)
          ∙ ap
              (λ q.
                next_live fuel more pred b (record { ptr = q; tag = false }) (unlinked s pred 0 y))
              after)

  -- From a tower that is not marked, the first of the following nodes that is not removed.
  next_live-first :
      (ys : List (NodeRef K V)) (fuel more : ℕ) (b : Bound K) (s : SkipList K V)
      (chain : ℕ → List (NodeRef K V)) (xs : List (NodeRef K V))
      → length ys < more
      → IsSkipList s chain
      → chain 0 ≡ xs ++ ys
      → (s.links (last 0 xs) 0).tag ≡ false
      → Answers s chain (next_live fuel more (last 0 xs) b (link_to ys) s) (first (live s ys))
  next_live-first ys fuel zero b s chain xs h w e f = absurd (omega (arith, h))
  next_live-first [] fuel (suc more) b s chain xs h w e f = record {
    list = s;
    rest = chain;
    ran = next_live-end fuel more (last 0 xs) b s;
    tidied = IsTidied-refl s chain w;
  }
  next_live-first (y ∷ ys) fuel (suc more) b s chain xs h w e f =
      elim (Bool-cases (is_removed s y)) [
        | inr lives ↦ record {
          list = s;
          rest = chain;
          ran =
              next_live-found fuel more (last 0 xs) b y ys s lives
              ∙ ap (λ g. some (first (if g then live s ys else y ∷ live s ys), s)) (sym lives);
          tidied = IsTidied-refl s chain w;
        }
        | inl gone ↦
            let linked : Linked s 0 (last 0 xs) (y ∷ ys) =
              Linked-right s 0 0 xs (y ∷ ys) (subst (Linked s 0 0) e (w.linked 0)) in
            let t : SkipList K V = unlinked s (last 0 xs) 0 y in
            let tidy : IsTidied s chain t (put chain 0 (xs ++ ys)) =
              unlinked-IsTidied s chain 0 xs y ys w e f gone in
            let a : Answers t (put chain 0 (xs ++ ys))
                (next_live fuel more (last 0 xs) b (link_to ys) t) (first (live t ys)) =
              next_live-first ys fuel more b t (put chain 0 (xs ++ ys)) xs (omega (arith, h))
                tidy.list (put-there chain 0 (xs ++ ys)) (tidy.tags (last 0 xs) 0 ∙ f) in
            let same : first (live t ys) ≡ first (live s (y ∷ ys)) = ap first (
              live-SameTags s t ys tidy.tags
              ∙ ap (λ g. if g then live s ys else y ∷ live s ys) (sym gone)) in
            record {
              list = a.list;
              rest = a.rest;
              ran =
                  next_live-skips fuel more (last 0 xs) b y ys s gone linked.0 f
                    (Linked-first s 0 y.address ys linked.1)
                  ∙ (a.ran ∙ ap (λ r. some (r, a.list)) same);
              tidied =
                  IsTidied-trans s t a.list chain (put chain 0 (xs ++ ys)) a.rest tidy a.tidied;
            }
      ]

  next_node-open :
      (fuel pred : ℕ) (b : Bound K) (s : SkipList K V) (l : Link K V)
      → s.links pred 0 ≡ l
      → l.tag ≡ false
      → next_node fuel pred b s ≡ next_live fuel fuel pred b l s
  unfolding next_node
  next_node-open fuel pred b s l e f =
      ap (λ m. if m.tag then search_bound fuel b false s else next_live fuel fuel pred b m s) e
      ∙ ap (λ g. if g then search_bound fuel b false s else next_live fuel fuel pred b l s) f

  next_node-marked :
      (fuel pred : ℕ) (b : Bound K) (s : SkipList K V)
      → (s.links pred 0).tag ≡ true
      → next_node fuel pred b s ≡ search_bound fuel b false s
  unfolding next_node
  next_node-marked fuel pred b s e =
      ap
        (λ g.
          if g then search_bound fuel b false s else next_live fuel fuel pred b (s.links pred 0) s)
        e

  next_node-first :
      (fuel : ℕ) (b : Bound K) (s : SkipList K V) (chain : ℕ → List (NodeRef K V))
      (xs ys : List (NodeRef K V))
      → IsSkipList s chain
      → s.allocated < fuel
      → chain 0 ≡ xs ++ ys
      → (s.links (last 0 xs) 0).tag ≡ false
      → Answers s chain (next_node fuel (last 0 xs) b s) (first (live s ys))
  next_node-first fuel b s chain xs ys w h e f =
      let linked : Linked s 0 (last 0 xs) ys =
        Linked-right s 0 0 xs ys (subst (Linked s 0 0) e (w.linked 0)) in
      let enough : length ys < fuel =
        let all : length (xs ++ ys) ≤ s.allocated =
          subst (λ l. length l ≤ s.allocated) e (w.short 0) in
        omega (arith, all, length-append xs ys, h) in
      let a : Answers s chain (next_live fuel fuel (last 0 xs) b (link_to ys) s)
          (first (live s ys)) =
        next_live-first ys fuel fuel b s chain xs enough w e f in
      record {
        list = a.list;
        rest = a.rest;
        ran =
            next_node-open fuel (last 0 xs) b s (link_to ys)
              (link_eq (s.links (last 0 xs) 0) (first ys) false
                (Linked-first s 0 (last 0 xs) ys linked) f)
              refl
            ∙ a.ran;
        tidied = a.tidied;
      }

  -- In a well-formed list, `front` returns the first node that is not removed, with any fuel that is
  -- more than the number of nodes ever made; the list stays well-formed, and the nodes that are not
  -- removed stay as they were.
  pub front-first :
      (fuel : ℕ) (s : SkipList K V) (chain : ℕ → List (NodeRef K V))
      → IsSkipList s chain
      → s.allocated < fuel
      → Answers s chain (front fuel s) (first (live s (chain 0)))
  unfolding front
  front-first fuel s chain w h =
      next_node-first fuel unbounded s chain [] (chain 0) w h refl (w.clean 0)

  above-first :
      (n : NodeRef K V) (s : SkipList K V) (ys : List (NodeRef K V))
      → All (Before s n) ys
      → first_above (excluded n.key) (live s ys) ≡ first (live s ys)
  unfolding above_lower_bound
  above-first n s [] a = refl
  above-first n s (y ∷ ys) a = elim (Bool-cases (is_removed s y)) [
    | inl gone ↦ rw gone (above-first n s ys a.1)
    | inr lives ↦ elim a.0 [
      | inl l ↦ rw (lives, o.flip n.key y.key, l)
      | inr (_, gone) ↦ true_ne_false gone lives
    ]
  ]

  -- In a well-formed list, `Entry::next` on a node that is removed, or that stands in the lowest
  -- chain, returns the first of the nodes that are not removed whose key is greater, with any fuel
  -- that is more than the number of nodes ever made; the list stays well-formed, and the nodes that
  -- are not removed stay as they were.
  pub entry_next-first_above :
      (fuel : ℕ) (n : NodeRef K V) (s : SkipList K V) (chain : ℕ → List (NodeRef K V))
      → IsSkipList s chain
      → s.allocated < fuel
      → (is_removed s n ≡ false → Mem n (chain 0))
      → Answers s chain (entry_next fuel n s) (first_above (excluded n.key) (live s (chain 0)))
  unfolding entry_next judge_bound above_lower_bound
  entry_next-first_above fuel n s chain w h inside = elim (Bool-cases (is_removed s n)) [
    | inl gone ↦
        let a : Answers s chain (search_bound fuel (excluded n.key) false s)
            (find false (judge_bound (excluded n.key) false) (live s (chain 0))) =
          search_bound-find fuel (excluded n.key) false s chain w h in
        record {
          list = a.list;
          rest = a.rest;
          ran =
              next_node-marked fuel n.address (excluded n.key) s gone
              ∙ (a.ran
                  ∙ ap (λ r. some (r, a.list))
                      (find_first-first_above (excluded n.key) (live s (chain 0))));
          tidied = a.tidied;
        }
    | inr lives ↦
        let stops : (judge_bound (excluded n.key) false n.key).stop ≡ false =
          rw (compare_refl n.key) in
        let b : IsStart (judge_bound (excluded n.key) false) s chain 0 (some n) =
          start (judge_bound (excluded n.key) false) s chain 0 (some n)
            (judge_bound-IsMonotone (excluded n.key) false) w
            (λ x e.
              subst
                (λ z.
                  (is_removed s z ≡ false)
                  × ((judge_bound (excluded n.key) false z.key).stop ≡ false)
                  × Mem z (chain 0))
                (some_inj e) (lives, stops, inside lives)) in
        let from : last 0 b.xs ≡ n.address = last-end b.xs ∙ ap address_of b.ends in
        let a : Answers s chain (next_node fuel (last 0 b.xs) (excluded n.key) s)
            (first (live s b.ys)) =
          next_node-first fuel (excluded n.key) s chain b.xs b.ys w h b.split b.unmarked in
        let order : All (Before s n) b.ys =
          Pairwise-across (Before s) b.ys (end-Mem b.xs n b.ends)
            (subst (Pairwise (Before s)) b.split (w.sorted 0)) in
        let same : first (live s b.ys) ≡ first_above (excluded n.key) (live s (chain 0)) =
          sym (above-first n s b.ys order)
          ∙ (sym (find_first-first_above (excluded n.key) (live s b.ys))
              ∙ (sym (find_first-passed (judge_bound (excluded n.key) false) s b.xs b.ys b.passed)
                  ∙ (ap (λ l. find_first (judge_bound (excluded n.key) false) (live s l))
                        (sym b.split)
                      ∙ find_first-first_above (excluded n.key) (live s (chain 0))))) in
        record {
          list = a.list;
          rest = a.rest;
          ran =
              ap (λ p. next_node fuel p (excluded n.key) s) (sym from)
              ∙ (a.ran ∙ ap (λ r. some (r, a.list)) same);
          tidied = a.tidied;
        }
  ]
