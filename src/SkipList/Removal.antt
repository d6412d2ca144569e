-- ===== src/SkipList/Removal.antt =====
-- The loop of `remove` that unlinks the node.
use crossbeam.Prelude.{
  ℕ, zero, suc, ◌<◌, ◌≡◌, inl, inr, refl, sym, ap, ◌∙◌, subst, Bool, true, false, ◌&&◌, Option,
  none, some, List, [], ◌∷◌, ◌++◌, if◌then◌else◌, arith, Bool-cases, Option-cases,
}
use crossbeam.SkipList.Chain.{
  Mem, Linked, Linked-right, Linked-first, here, last, first, some_inj, Mem-right,
}
use crossbeam.SkipList.Compare.{Comparator, included}
use crossbeam.SkipList.Defs.{
  NodeRef, Link, SkipList, put, set_level, is_removed, decrement, compare_exchange, with_tag,
  to_node, same_ptr, same_tag,
}
use crossbeam.SkipList.Search.{Position, judge_key, judge_bound, search_bound}
use crossbeam.SkipList.Remove.{unlink_levels}
use crossbeam.SkipList.Invariant.{live, IsSkipList, IsTidied, IsTidied-refl, IsTidied-trans}
use crossbeam.SkipList.Unlink.{put-elsewhere, unlinked, unlinked-IsTidied}
use crossbeam.SkipList.Walk.{IsPlace}
use crossbeam.SkipList.Find.{find}
use crossbeam.SkipList.Descend.{IsPlace-tidied}
use crossbeam.SkipList.Queries.{Answers, search_bound-find}

module _ {ℓ κ} {K : Type ℓ} {V : Type κ} where
  -- A compare-exchange that succeeds wrote, and found the pointer that it expected.
  pub compare_exchange-some :
      (s : SkipList K V) (a i : ℕ) (old l : Link K V) (t : SkipList K V)
      → compare_exchange s a i old l ≡ some t
      → (set_level s a i l ≡ t) × (same_ptr (s.links a i).ptr old.ptr ≡ true)
  unfolding compare_exchange
  compare_exchange-some s a i old l t e =
      let test : Bool = same_ptr (s.links a i).ptr old.ptr && same_tag (s.links a i).tag old.tag in
      elim (Bool-cases test) [
        | inl y ↦ (
          some_inj (sym (ap (λ b. if b then some (set_level s a i l) else none) y) ∙ e),
          ground (arith, y),
        )
        | inr n ↦
            let clash : none ≡ some t =
              sym (ap (λ b. if b then some (set_level s a i l) else none) n) ∙ e in
            absurd (ground (arith, clash))
      ]

  first-same :
      (ys : List (NodeRef K V)) (n : NodeRef K V)
      → same_ptr (first ys) (some n) ≡ true
      → (y : NodeRef K V) × (zs : List (NodeRef K V)) × (ys ≡ y ∷ zs) × (y.address ≡ n.address)
  first-same [] n e = absurd (ground (arith, e))
  first-same (y ∷ zs) n e = (y, zs, refl, ground (arith, e))

module _ {ℓ κ} {K : Type ℓ} {V : Type κ} ⦃o : Comparator K⦄ where
  -- A run ends with a list that is the one before but for unlinked nodes.
  pub record Leaves (s : SkipList K V) (chain : ℕ → List (NodeRef K V))
      (run : Option (SkipList K V)) : Type (ℓ ⊔ κ) where
    pub list : SkipList K V
    pub rest : ℕ → List (NodeRef K V)
    pub ran : run ≡ some list
    pub tidied : IsTidied s chain list rest

  unlink_levels-taken :
      (fuel : ℕ) (key : K) (n : NodeRef K V) (p : Position K V) (level : ℕ) (s t : SkipList K V)
      → compare_exchange s
          (p.left level)
          level
          (to_node n)
          (with_tag (s.links n.address level) false)
        ≡ some t
      → unlink_levels fuel key n p (suc level) s ≡ unlink_levels fuel key n p level (decrement t n)
  unfolding unlink_levels
  unlink_levels-taken fuel key n p level s t e = rw (unlink_levels, e)

  unlink_levels-missed :
      (fuel : ℕ) (key : K) (n : NodeRef K V) (p : Position K V) (level : ℕ) (s : SkipList K V)
      (r : Option (NodeRef K V)) (t : SkipList K V)
      → compare_exchange s
          (p.left level)
          level
          (to_node n)
          (with_tag (s.links n.address level) false)
        ≡ none
      → search_bound fuel (included key) false s ≡ some (r, t)
      → unlink_levels fuel key n p (suc level) s ≡ some t
  unfolding unlink_levels
  unlink_levels-missed fuel key n p level s r t e f = rw (unlink_levels, e, f)

  unlink_levels-zero :
      (fuel : ℕ) (key : K) (n : NodeRef K V) (p : Position K V) (s : SkipList K V)
      → unlink_levels fuel key n p zero s ≡ some s
  unfolding unlink_levels
  unlink_levels-zero fuel key n p s = refl

  -- The removed node is unlinked level by level, or by a search where it has moved.
  pub unlink_levels-Leaves :
      (level fuel : ℕ) (key : K) (n : NodeRef K V) (p : Position K V) (s : SkipList K V)
      (chain : ℕ → List (NodeRef K V))
      → IsSkipList s chain
      → s.allocated < fuel
      → is_removed s n ≡ true
      → ((i : ℕ) (x : NodeRef K V) → Mem x (chain i) → x.address ≡ n.address → x ≡ n)
      → ((i : ℕ) → i < level → IsPlace (judge_key key) s chain i (p.left i) (p.right i))
      → Leaves s chain (unlink_levels fuel key n p level s)
  unlink_levels-Leaves zero fuel key n p s chain w h gone known places = record {
    list = s;
    rest = chain;
    ran = unlink_levels-zero fuel key n p s;
    tidied = IsTidied-refl s chain w;
  }
  unlink_levels-Leaves (suc level) fuel key n p s chain w h gone known places =
      let succ : Link K V = with_tag (s.links n.address level) false in
      elim (Option-cases (compare_exchange s (p.left level) level (to_node n) succ)) [
        | inl missed ↦
            let a : Answers s chain (search_bound fuel (included key) false s)
                (find false (judge_bound (included key) false) (live s (chain 0))) =
              search_bound-find fuel (included key) false s chain w h in
            record {
              list = a.list;
              rest = a.rest;
              ran = unlink_levels-missed fuel key n p level s _ a.list missed a.ran;
              tidied = a.tidied;
            }
        | inr (t, taken) ↦
            let q : IsPlace (judge_key key) s chain level (p.left level) (p.right level) =
              places level (omega arith) in
            let (wrote, same) =
              compare_exchange-some s (p.left level) level (to_node n) succ t taken in
            let ptr : (s.links (p.left level) level).ptr ≡ first q.after =
              ap (λ a. (s.links a level).ptr) q.at
              ∙ Linked-first s level (last 0 q.before) q.after (
                  Linked-right s level 0 q.before q.after
                    (subst (Linked s level 0) q.split (w.linked level))) in
            let (y, zs, e, address) =
              first-same q.after n (subst (λ r. same_ptr r (some n) ≡ true) ptr same) in
            let split : chain level ≡ q.before ++ (y ∷ zs) = q.split ∙ ap (λ l. q.before ++ l) e in
            let is_n : y ≡ n =
              known level y (subst (Mem y) (sym split) (Mem-right q.before here)) address in
            let tidy : IsTidied s chain (unlinked s (last 0 q.before) level n)
                (put chain level (q.before ++ zs)) =
              unlinked-IsTidied s chain level q.before n zs w
                (subst (λ x. chain level ≡ q.before ++ (x ∷ zs)) is_n split)
                (subst (λ a. (s.links a level).tag ≡ false) q.at q.unmarked) gone in
            let now : unlinked s (last 0 q.before) level n ≡ decrement t n =
              ap (λ a. unlinked s a level n) (sym q.at) ∙ ap (λ u. decrement u n) wrote in
            let tidy2 : IsTidied s chain (decrement t n) (put chain level (q.before ++ zs)) =
              subst (λ u. IsTidied s chain u (put chain level (q.before ++ zs))) now tidy in
            let k : Leaves (decrement t n) (put chain level (q.before ++ zs))
                (unlink_levels fuel key n p level (decrement t n)) =
              unlink_levels-Leaves level fuel key n p (decrement t n)
                (put chain level (q.before ++ zs)) tidy2.list
                (subst (λ m. m < fuel) (sym tidy2.allocated) h) (tidy2.tags n.address 0 ∙ gone)
                (λ i x m. known i x (tidy2.subset i x m))
                (λ i lt.
                  IsPlace-tidied (judge_key key) s (decrement t n) chain
                    (put chain level (q.before ++ zs)) i (p.left i) (p.right i)
                    (put-elsewhere chain level (q.before ++ zs) i
                      (λ f. absurd (omega (arith, lt, f))))
                    tidy2.tags (places i (omega (arith, lt)))) in
            record {
              list = k.list;
              rest = k.rest;
              ran = unlink_levels-taken fuel key n p level s t taken ∙ k.ran;
              tidied =
                  IsTidied-trans s (decrement t n) k.list chain (put chain level (q.before ++ zs))
                    k.rest tidy2 k.tidied;
            }
      ]
