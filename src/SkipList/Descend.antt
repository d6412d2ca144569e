-- ===== src/SkipList/Descend.antt =====
-- A search over all levels finds what the live nodes say, and its place at each level.
use crossbeam.Prelude.{
  ℕ, zero, suc, ◌<◌, ◌≤◌, ◌≡◌, refl, sym, ap, ◌∙◌, subst, Bool, false, Option, none, some, List,
  ◌++◌, if◌then◌else◌, length, length-append, arith, ℕ_discrete,
}
use crossbeam.SkipList.Chain.{
  last, first, end, address_of, last-end, Linked, Linked-right, Linked-first,
}
use crossbeam.SkipList.Compare.{Comparator}
use crossbeam.SkipList.Defs.{NodeRef, Link, SkipList, put}
use crossbeam.SkipList.Search.{
  Cursor, Position, Walk, restart, stopped, Descent, again, finished, Verdict, walk, descend,
}
use crossbeam.SkipList.Invariant.{
  live, IsSkipList, IsTidied, IsTidied-refl, IsTidied-trans, SameTags,
}
use crossbeam.SkipList.Unlink.{put-there, put-elsewhere}
use crossbeam.SkipList.Walk.{link_to, link_eq, IsPlace, IsWalked, walk-IsWalked}
use crossbeam.SkipList.Find.{find, IsKind, IsMonotone, IsAt}
use crossbeam.SkipList.Start.{StandsAt, IsStart, start, StandsAt-walked}
use crossbeam.SkipList.Result.{HasResult, HasResult-walked}

module _ {ℓ κ} {K : Type ℓ} {V : Type κ} where
  descend-step :
      (fuel : ℕ) (judge : K → Verdict) (level : ℕ) (c : Cursor K V) (p : Position K V)
      (d : Cursor K V)
      → (c.list.links c.pred level).tag ≡ false
      → walk fuel level judge (record c { curr = c.list.links c.pred level }) ≡ some (stopped d)
      → descend fuel judge (suc level) c p
        ≡ descend fuel judge level d
            (record p { left = put p.left level d.pred; right = put p.right level d.curr })
  unfolding descend
  descend-step fuel judge level c p d f e =
      let next : Walk K V → Option (Descent K V) = λ w. elim w [
        | restart s ↦ some (again s)
        | stopped d ↦
            descend fuel judge level d
              (record p { left = put p.left level d.pred; right = put p.right level d.curr })
      ] in
      let run : Option (Walk K V) =
        walk fuel level judge (record c { curr = c.list.links c.pred level }) in
      ap (λ b. if b then some (again c.list) else elim run [ none ↦ none | some w ↦ next w ]) f
      ∙ ap (λ o. elim o [ none ↦ none | some w ↦ next w ]) e

  descend-end :
      (fuel : ℕ) (judge : K → Verdict) (c : Cursor K V) (p : Position K V)
      → descend fuel judge zero c p ≡ some (finished c.list (record p { found = c.result }))
  unfolding descend
  descend-end fuel judge c p = refl

  -- A place stays one while other levels are tidied.
  pub IsPlace-tidied :
      (judge : K → Verdict) (s t : SkipList K V) (chain rest : ℕ → List (NodeRef K V)) (i left : ℕ)
      (right : Link K V)
      → rest i ≡ chain i
      → SameTags s t
      → IsPlace judge s chain i left right
      → IsPlace judge t rest i left right
  IsPlace-tidied judge s t chain rest i left right e tags p = record {
    before = p.before;
    after = p.after;
    split = e ∙ p.split;
    passed = p.passed;
    ahead = p.ahead;
    at = p.at;
    next = p.next;
    unmarked = tags left i ∙ p.unmarked;
    standing = λ x g. tags x.address 0 ∙ p.standing x g;
  }

  IsAt-tidied :
      (judge : K → Verdict) (s t : SkipList K V) (chain rest : ℕ → List (NodeRef K V)) (i left : ℕ)
      (right : Link K V)
      → rest i ≡ chain i
      → SameTags s t
      → IsAt judge s chain i left right
      → IsAt judge t rest i left right
  IsAt-tidied judge s t chain rest i left right e tags (p, f) =
      (IsPlace-tidied judge s t chain rest i left right e tags p, λ x g. tags x.address 0 ∙ f x g)

module _ {ℓ κ} {K : Type ℓ} {V : Type κ} ⦃o : Comparator K⦄ where
  -- How a run over the levels ends.
  pub record IsDescended (upper : Bool) (judge : K → Verdict) (s : SkipList K V)
      (chain : ℕ → List (NodeRef K V)) (run : Option (Descent K V)) : Type (ℓ ⊔ κ) where
    pub list : SkipList K V
    pub position : Position K V
    pub ran : run ≡ some (finished list position)
    pub rest : ℕ → List (NodeRef K V)
    pub tidied : IsTidied s chain list rest
    pub places : (i : ℕ) → IsAt judge list rest i (position.left i) (position.right i)
    pub found : position.found ≡ find upper judge (live list (rest 0))

  module _ (upper : Bool) (judge : K → Verdict) (mono : IsMonotone judge)
      (law : IsKind judge upper) where
    pub descend-IsDescended :
        (level fuel : ℕ) (s : SkipList K V) (chain : ℕ → List (NodeRef K V))
        (m r : Option (NodeRef K V)) (curr : Link K V) (p : Position K V)
        → IsSkipList s chain
        → s.allocated < fuel
        → StandsAt judge s chain level m
        → HasResult upper judge s chain level m r
        → ((i : ℕ) → level ≤ i → IsAt judge s chain i (p.left i) (p.right i))
        → IsDescended upper judge s chain (
            descend fuel judge level
              (record { list = s; pred = address_of m; curr = curr; result = r })
              p)
    descend-IsDescended zero fuel s chain m r curr p w h st res places = record {
      list = s;
      position = record p { found = r };
      ran = descend-end fuel judge _ p;
      rest = chain;
      tidied = IsTidied-refl s chain w;
      places = λ i. places i (omega arith);
      found = res;
    }
    descend-IsDescended (suc l) fuel s chain m r curr p w h st res places =
        let b : IsStart judge s chain l m = start judge s chain l m mono w st in
        let from : last 0 b.xs ≡ address_of m = last-end b.xs ∙ ap address_of b.ends in
        let linked : Linked s l (last 0 b.xs) b.ys =
          Linked-right s l 0 b.xs b.ys (subst (Linked s l 0) b.split (w.linked l)) in
        let load : s.links (address_of m) l ≡ link_to b.ys =
          subst (λ a. s.links a l ≡ link_to b.ys) from
            (link_eq (s.links (last 0 b.xs) l) (first b.ys) false
              (Linked-first s l (last 0 b.xs) b.ys linked) b.unmarked) in
        let enough : length b.ys < fuel =
          let all : length (b.xs ++ b.ys) ≤ s.allocated =
            subst (λ l. length l ≤ s.allocated) b.split (w.short l) in
          omega (arith, all, length-append b.xs b.ys, h) in
        let k : IsWalked judge s chain l b.xs r (
            walk fuel l judge
              (record { list = s; pred = last 0 b.xs; curr = link_to b.ys; result = r })) =
          walk-IsWalked judge mono b.ys fuel l s chain b.xs r enough w b.split b.passed b.unmarked
            b.standing in
        let q : Position K V = record p {
          left = put p.left l k.cursor.pred;
          right = put p.right l k.cursor.curr;
        } in
        let where_to : k.cursor.pred ≡ address_of (end k.place.before) =
          k.place.at ∙ last-end k.place.before in
        let next : IsDescended upper judge k.cursor.list k.rest (
            descend fuel judge l
              (record {
                list = k.cursor.list;
                pred = address_of (end k.place.before);
                curr = k.cursor.curr;
                result = k.cursor.result;
              })
              q) =
          descend-IsDescended l fuel k.cursor.list k.rest (end k.place.before) k.cursor.result
            k.cursor.curr q k.tidied.list (subst (λ n. n < fuel) (sym k.tidied.allocated) h)
            (StandsAt-walked l judge k.cursor.list k.rest k.cursor.pred k.cursor.curr k.tidied.list
              k.place)
            (HasResult-walked upper judge s chain l m r b.xs _ law res b.ends k)
            (λ i le. elim (ℕ_discrete i l) [
              | yes e ↦
                  subst (λ j. IsAt judge k.cursor.list k.rest j (q.left j) (q.right j)) (sym e)
                    (subst (λ a. IsAt judge k.cursor.list k.rest l a (q.right l))
                      (sym (put-there p.left l k.cursor.pred))
                      (subst (λ c. IsAt judge k.cursor.list k.rest l k.cursor.pred c)
                        (sym (put-there p.right l k.cursor.curr)) (k.place, k.faces)))
              | no ne ↦
                  subst (λ a. IsAt judge k.cursor.list k.rest i a (q.right i))
                    (sym (put-elsewhere p.left l k.cursor.pred i ne))
                    (subst (λ c. IsAt judge k.cursor.list k.rest i (p.left i) c)
                      (sym (put-elsewhere p.right l k.cursor.curr i ne))
                      (IsAt-tidied judge s k.cursor.list chain k.rest i (p.left i) (p.right i)
                        (k.others i ne) k.tidied.tags (places i (omega (arith, le, ne)))))
            ]) in
        record {
          list = next.list;
          position = next.position;
          ran =
              descend-step fuel judge l
                (record { list = s; pred = address_of m; curr = curr; result = r }) p k.cursor
                (ap (λ c. c.tag) load)
                (ap
                    (λ c.
                      walk fuel l judge
                        (record { list = s; pred = address_of m; curr = c; result = r }))
                    load
                  ∙ (ap
                        (λ a.
                          walk fuel l judge
                            (record { list = s; pred = a; curr = link_to b.ys; result = r }))
                        (sym from)
                      ∙ k.ran))
              ∙ (ap
                    (λ a.
                      descend fuel judge l
                        (record {
                          list = k.cursor.list;
                          pred = a;
                          curr = k.cursor.curr;
                          result = k.cursor.result;
                        })
                        q)
                    where_to
                  ∙ next.ran);
          rest = next.rest;
          tidied =
              IsTidied-trans s k.cursor.list next.list chain k.rest next.rest k.tidied next.tidied;
          places = next.places;
          found = next.found;
        }
