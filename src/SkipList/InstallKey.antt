-- ===== src/SkipList/InstallKey.antt =====
-- A search for a key and the installation of a new node at the place it finds.
use Prim.Native.Nat.Ordering.{eq, gt}
use crossbeam.Prelude.{
  ℕ, zero, suc, ◌+◌, ◌<◌, ◌≤◌, ◌≡◌, ◌≢◌, inl, inr, refl, sym, ap, ◌∙◌, subst, Bool, true, false,
  Option, none, some, List, [], ◌∷◌, ◌++◌, if◌then◌else◌, arith, Bool-cases, ==_refl, ne→==,
}
use crossbeam.SkipList.Chain.{
  All, All-imp, All-left, All-Mem, Mem, Mem-right, here, last, first, Linked, Linked-right,
  Linked-first, Pairwise, Pairwise-right,
}
use crossbeam.SkipList.Compare.{Comparator}
use crossbeam.SkipList.Defs.{
  NodeRef, Link, SkipList, is_removed, sub_len, mark_tower, max_tower, put, set_level,
  compare_exchange, to_node,
}
use crossbeam.SkipList.Search.{Position, judge_key, search_position}
use crossbeam.SkipList.Insert.{alloc, abandon, install, installed}
use crossbeam.SkipList.Invariant.{live, live-SameTags, Before, IsNode, IsSkipList, set_level-tower}
use crossbeam.SkipList.Walk.{link_to, link_eq, pick, IsPlace}
use crossbeam.SkipList.Find.{find_first}
use crossbeam.SkipList.Result.{pick-find_first}
use crossbeam.SkipList.Judge.{judge_key-IsKind}
use crossbeam.SkipList.Lookup.{IsSearched, search_position-IsSearched}
use crossbeam.SkipList.Mark.{mark_levels-IsMarked, mark_levels-won}
use crossbeam.SkipList.Install.{placed, placed-IsPut, IsPut}
use crossbeam.SkipList.Fresh.{enter, IsNew, put-tag}
use crossbeam.SkipList.Installed.{IsInserted, IsInserted-missing, IsInserted-replacing, after-gt}

module _ {ℓ κ} {K : Type ℓ} {V : Type κ} where
  compare_exchange-link_to :
      (s : SkipList K V) (a i : ℕ) (ys : List (NodeRef K V)) (l : Link K V)
      → s.links a i ≡ link_to ys
      → compare_exchange s a i (link_to ys) l ≡ some (set_level s a i l)
  unfolding compare_exchange
  compare_exchange-link_to s a i [] l e = rw e
  compare_exchange-link_to s a i (y ∷ ys) l e = rw (e, ==_refl y.address)

  abandon-won :
      (s : SkipList K V) (r : NodeRef K V)
      → (mark_tower s r).0 ≡ true
      → abandon (some r) s ≡ sub_len (mark_tower s r).1
  unfolding abandon
  abandon-won s r e = rw e

  abandon-none : (s : SkipList K V) → abandon none s ≡ s
  unfolding abandon
  abandon-none s = refl

  made_link :
      (s : SkipList K V) (n : NodeRef K V) (a : ℕ)
      → a ≢ s.allocated + 1
      → (alloc n.key n.value n.height s).1.links a 0 ≡ s.links a 0
  unfolding alloc
  made_link s n a ne = rw (ne→== a (s.allocated + 1) ne)

  last-low :
      (a b : ℕ) (xs : List (NodeRef K V)) → a ≤ b → All (λ x. x.address ≤ b) xs → last a xs ≤ b
  last-low a b [] h l = h
  last-low a b (x ∷ xs) h l = last-low x.address b xs l.0 l.1

module _ {ℓ κ} {K : Type ℓ} {V : Type κ} ⦃o : Comparator K⦄ where
  -- What the installation makes of the list, for each of the nodes that may follow.
  abandoned :
      (s t : SkipList K V) (chain : ℕ → List (NodeRef K V)) (n : NodeRef K V)
      (before after : List (NodeRef K V)) (found : Option (NodeRef K V))
      → IsSkipList s chain
      → chain 0 ≡ before ++ after
      → IsPut s t n before after
      → IsNew s n before
      → found ≡ pick (judge_key n.key) (first after) none
      → All (λ x. (judge_key n.key x.key).stop ≡ true) after
      → ((x : NodeRef K V) → first after ≡ some x → is_removed s x ≡ false)
      → IsInserted s chain n before after (abandon found t)
  unfolding judge_key
  abandoned s t chain n before [] found w e k new picked ahead faces =
      subst (IsInserted s chain n before []) (sym (ap (λ f. abandon f t) picked ∙ abandon-none t))
        (IsInserted-missing s t chain n before [] w e k new tt refl)
  abandoned s t chain n before (y ∷ ys) found w e k new picked ahead faces =
      elim (Bool-cases (judge_key n.key y.key).take) [
        | inl y_eq ↦
            let q : o.compare y.key n.key ≡ eq = ground (arith, y_eq) in
            let live_y : is_removed s y ≡ false = faces y refl in
            let off : y.address ≢ n.address = λ f.
              let node : IsNode s 0 y =
                All-Mem (IsNode s 0) (subst (Mem y) (sym e) (Mem-right before here)) (w.nodes 0) in
              let made : y.address ≤ s.allocated = node.made in
              omega (arith, made, f, new.address) in
            let won : (mark_tower t y).0 ≡ true =
              mark_levels-won t y y.height
                (put-tag s t n before (y ∷ ys) k new.unmarked y.address off ∙ live_y) in
            let chosen : found ≡ some y = picked ∙ ap (λ b. if b then some y else none) y_eq in
            subst (IsInserted s chain n before (y ∷ ys))
              (sym (ap (λ f. abandon f t) chosen ∙ abandon-won t y won))
              (IsInserted-replacing s t (mark_tower t y).1 chain n before y ys w e k new
                (mark_levels-IsMarked t y y.height) live_y q)
        | inr other ↦
            let g : o.compare y.key n.key ≡ gt = ground (arith, other, ahead.0) in
            let sorted : All (Before s y) ys =
              (Pairwise-right (Before s) before (y ∷ ys)
                (subst (Pairwise (Before s)) e (w.sorted 0))).0 in
            let enters : enter n (y ∷ live s ys) ≡ n ∷ y ∷ live s ys = rw (enter, g) in
            let chosen : found ≡ none = picked ∙ ap (λ b. if b then some y else none) other in
            let lives_y : live s (y ∷ ys) ≡ y ∷ live s ys =
              ap (λ b. if b then live s ys else y ∷ live s ys) (faces y refl) in
            subst (IsInserted s chain n before (y ∷ ys))
              (sym (ap (λ f. abandon f t) chosen ∙ abandon-none t))
              (IsInserted-missing s t chain n before (y ∷ ys) w e k new
                (after-gt s t n y ys g sorted)
                (ap (enter n) lives_y ∙ (enters ∙ ap (λ l. n ∷ l) (sym lives_y))))
      ]

  -- How a search for a key and the installation of a new node with it end.
  pub record Enters (fuel tries : ℕ) (key : K) (value : V) (height : ℕ) (replace : V → Bool)
      (s : SkipList K V) (chain : ℕ → List (NodeRef K V)) : Type (ℓ ⊔ κ) where
    pub position : Position K V
    pub before : SkipList K V
    pub searched : search_position fuel key s ≡ some (position, before)
    pub list : SkipList K V
    pub rest : ℕ → List (NodeRef K V)
    pub ran :
        install tries fuel replace
          (alloc key value height before).0
          position
          (alloc key value height before).1
        ≡ some (installed position list)
    pub well : IsSkipList list rest
    pub lives : live list (rest 0) ≡ enter (alloc key value height before).0 (live s (chain 0))

  install-won :
      (tries fuel : ℕ) (replace : V → Bool) (n : NodeRef K V) (p : Position K V)
      (s t : SkipList K V)
      → compare_exchange (set_level s n.address 0 (p.right 0)) (p.left 0) 0 (p.right 0) (to_node n)
        ≡ some t
      → install (suc tries) fuel replace n p s ≡ some (installed p (abandon p.found t))
  unfolding install
  install-won tries fuel replace n p s t e = rw (install, e)

  -- A search for a key in a well-formed list, and then the installation of a new node with that key,
  -- with a height from 1 to 32 and at most the list's greatest, succeed at the first try: the new
  -- node stands in its place among the nodes that are not removed, instead of the one with an
  -- equivalent key, and the list stays well-formed. Any fuel that is more than the number of nodes
  -- ever made is enough.
  pub install-enter :
      (tries fuel : ℕ) (key : K) (value : V) (height : ℕ) (replace : V → Bool) (s : SkipList K V)
      (chain : ℕ → List (NodeRef K V))
      → IsSkipList s chain
      → s.allocated < fuel
      → 0 < tries
      → 0 < height
      → height ≤ max_tower
      → height ≤ s.max_height
      → Enters fuel tries key value height replace s chain
  unfolding alloc judge_key
  install-enter zero fuel key value height replace s chain w h pos tall limit low =
      absurd (omega (arith, pos))
  install-enter (suc tries) fuel key value height replace s chain w h pos tall limit low =
      let k : IsSearched false (judge_key key) s chain (search_position fuel key s) =
        search_position-IsSearched fuel key s chain w h in
      let w1 : IsSkipList k.list k.rest = k.tidied.list in
      let p : IsPlace (judge_key key) k.list k.rest 0 (k.position.left 0) (k.position.right 0) =
        (k.places 0).0 in
      let n : NodeRef K V = (alloc key value height k.list).0 in
      let made : SkipList K V = (alloc key value height k.list).1 in
      let kept : live k.list (k.rest 0) ≡ live s (chain 0) =
        live-SameTags s k.list (k.rest 0) k.tidied.tags ∙ k.tidied.lives 0 in
      let bounded : last 0 p.before ≤ k.list.allocated =
        last-low 0 k.list.allocated p.before (omega arith) (
          All-imp (λ x node. node.made) p.before
            (All-left (IsNode k.list 0) p.before p.after
              (subst (All (IsNode k.list 0)) p.split (w1.nodes 0)))) in
      let off : last 0 p.before ≢ n.address = λ f. omega (arith, bounded, f) in
      let free : (k.list.links (last 0 p.before) 0).tag ≡ false =
        subst (λ a. (k.list.links a 0).tag ≡ false) p.at p.unmarked in
      let new : IsNew k.list n p.before = record {
        address = refl;
        some_tower = tall;
        limit = limit;
        low = subst (λ m. height ≤ m) (sym k.tidied.max_height) low;
        before_new = All-imp (λ x e. ground (arith, e)) p.before p.passed;
        off = off;
        unmarked = free;
      } in
      let put_in : IsPut k.list (placed k.list n p.before p.after) n p.before p.after =
        placed-IsPut k.list n p.before p.after refl off in
      let facing : (x : NodeRef K V) → first p.after ≡ some x → is_removed k.list x ≡ false =
        λ x e. (k.places 0).1 x (ap (λ l. l.ptr) p.next ∙ e) in
      let picked : k.position.found ≡ pick (judge_key key) (first p.after) none =
        k.found
        ∙ (ap (find_first (judge_key key)) (sym kept)
            ∙ sym (
                pick-find_first (judge_key key) k.list k.rest (k.position.left 0)
                  (k.position.right 0) none (judge_key-IsKind key) w1 p (k.places 0).1
                  (λ x e. absurd (ground (arith, e))))) in
      let result : IsInserted k.list k.rest n p.before p.after
          (abandon k.position.found (placed k.list n p.before p.after)) =
        abandoned k.list (placed k.list n p.before p.after) k.rest n p.before p.after
          k.position.found w1 p.split put_in new picked p.ahead facing in
      let link : (set_level made n.address 0 (link_to p.after)).links (last 0 p.before) 0
          ≡ link_to p.after =
        set_level-tower made n.address 0 (link_to p.after) (last 0 p.before) 0 off
        ∙ (made_link k.list n (last 0 p.before) off
            ∙ link_eq (k.list.links (last 0 p.before) 0) (first p.after) false
                (Linked-first k.list 0 (last 0 p.before) p.after (
                  Linked-right k.list 0 0 p.before p.after
                    (subst (Linked k.list 0 0) p.split (w1.linked 0))))
                free) in
      let exchange : compare_exchange (set_level made n.address 0 (k.position.right 0))
            (k.position.left 0) 0 (k.position.right 0) (to_node n)
          ≡ some (placed k.list n p.before p.after) =
        subst
          (λ a.
            compare_exchange (set_level made n.address 0 (k.position.right 0)) a 0
              (k.position.right 0) (to_node n)
            ≡ some (placed k.list n p.before p.after))
          (sym p.at)
          (subst
            (λ l.
              compare_exchange (set_level made n.address 0 l) (last 0 p.before) 0 l (to_node n)
              ≡ some (placed k.list n p.before p.after))
            (sym p.next)
            (compare_exchange-link_to (set_level made n.address 0 (link_to p.after))
              (last 0 p.before) 0 p.after (to_node n) link)) in
      record {
        position = k.position;
        before = k.list;
        searched = k.ran;
        list = abandon k.position.found (placed k.list n p.before p.after);
        rest = put k.rest 0 (p.before ++ (n ∷ p.after));
        ran =
            install-won tries fuel replace n k.position made (placed k.list n p.before p.after)
              exchange;
        well = result.well;
        lives = result.lives ∙ ap (enter n) (ap (live k.list) (sym p.split) ∙ kept);
      }
