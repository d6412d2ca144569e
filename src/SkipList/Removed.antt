-- ===== src/SkipList/Removed.antt =====
-- What `remove` and `Entry::remove` do to the live nodes.
use crossbeam.Prelude.{ℕ, suc, ◌<◌, ◌≡◌, sym, ◌∙◌, subst, true, false, Option, none, some, List}
use crossbeam.SkipList.Chain.{Mem}
use crossbeam.SkipList.Compare.{Comparator, compare_refl, equivalent, included}
use crossbeam.SkipList.Defs.{NodeRef, SkipList, is_removed, mark_tower, sub_len, try_increment}
use crossbeam.SkipList.Search.{Position, judge_bound, search_position, search_bound}
use crossbeam.SkipList.Remove.{unlink_levels, remove_once, remove, entry_remove}
use crossbeam.SkipList.Invariant.{live, live-SameTags, IsSkipList}
use crossbeam.SkipList.Find.{find}
use crossbeam.SkipList.Queries.{Answers, search_bound-find}
use crossbeam.SkipList.Mark.{IsMarked, mark_levels-IsMarked, mark_levels-won, marked-IsSkipList}
use crossbeam.SkipList.Erase.{erase, live-erase}

module _ {ℓ κ} {K : Type ℓ} {V : Type κ} ⦃o : Comparator K⦄ where
  -- How a call ends that takes the node with a key away.
  pub record Erases {μ} {A : Type μ} (key : K) (s : SkipList K V) (chain : ℕ → List (NodeRef K V))
      (run : Option (A × SkipList K V)) (a : A) : Type (ℓ ⊔ κ ⊔ μ) where
    pub list : SkipList K V
    pub rest : ℕ → List (NodeRef K V)
    pub ran : run ≡ some (a, list)
    pub well : IsSkipList list rest
    pub lives : live list (rest 0) ≡ erase key (live s (chain 0))
    pub allocated : list.allocated ≡ s.allocated

  entry_remove-won :
      (fuel : ℕ) (n : NodeRef K V) (s : SkipList K V) (r : Option (NodeRef K V)) (t : SkipList K V)
      → (mark_tower s n).0 ≡ true
      → search_bound fuel (included n.key) false (sub_len (mark_tower s n).1) ≡ some (r, t)
      → entry_remove fuel n s ≡ some (true, t)
  unfolding entry_remove
  entry_remove-won fuel n s r t e f = rw (entry_remove, e, f)

  -- `Entry::remove` on a node of a well-formed list that is not removed returns `true` and takes the
  -- node away from those that are not removed, and the list stays well-formed, with any fuel that is
  -- more than the number of nodes ever made.
  pub entry_remove-erase :
      (fuel : ℕ) (n : NodeRef K V) (s : SkipList K V) (chain : ℕ → List (NodeRef K V))
      → IsSkipList s chain
      → s.allocated < fuel
      → Mem n (chain 0)
      → is_removed s n ≡ false
      → Erases n.key s chain (entry_remove fuel n s) true
  entry_remove-erase fuel n s chain w h inside lives =
      let m : IsMarked n n.height s (mark_tower s n).1 = mark_levels-IsMarked s n n.height in
      let t : SkipList K V = sub_len (mark_tower s n).1 in
      let well : IsSkipList t chain =
        marked-IsSkipList n s (mark_tower s n).1 chain w inside lives m in
      let a : Answers t chain (search_bound fuel (included n.key) false t)
          (find false (judge_bound (included n.key) false) (live t (chain 0))) =
        search_bound-find fuel (included n.key) false t chain well
          (subst (λ k. k < fuel) (sym m.allocated) h) in
      let itself : equivalent n.key n.key ≡ true = rw (compare_refl n.key) in
      record {
        list = a.list;
        rest = a.rest;
        ran = entry_remove-won fuel n s _ a.list (mark_levels-won s n n.height lives) a.ran;
        well = a.tidied.list;
        lives =
            live-SameTags t a.list (a.rest 0) a.tidied.tags
            ∙ (a.tidied.lives 0
                ∙ live-erase n.key n s (mark_tower s n).1 chain w inside lives itself m);
        allocated = a.tidied.allocated ∙ m.allocated;
      }

  pub remove-none :
      (tries fuel : ℕ) (key : K) (s : SkipList K V) (p : Position K V) (t : SkipList K V)
      → search_position fuel key s ≡ some (p, t)
      → p.found ≡ none
      → remove (suc tries) fuel key s ≡ some (none, t)
  unfolding remove remove_once
  remove-none tries fuel key s p t e f = rw (remove, remove_once, e, f)

  pub remove-some :
      (tries fuel : ℕ) (key : K) (s : SkipList K V) (p : Position K V) (s1 s2 : SkipList K V)
      (n : NodeRef K V) (t : SkipList K V)
      → search_position fuel key s ≡ some (p, s1)
      → p.found ≡ some n
      → try_increment s1 n ≡ some (true, s2)
      → (mark_tower s2 n).0 ≡ true
      → unlink_levels fuel key n p n.height (sub_len (mark_tower s2 n).1) ≡ some t
      → remove (suc tries) fuel key s ≡ some (some n, t)
  unfolding remove remove_once
  remove-some tries fuel key s p s1 s2 n t e f g h k = rw (remove, remove_once, e, f, g, h, k)
