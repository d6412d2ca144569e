-- ===== src/SkipList/RemoveKey.antt =====
-- `remove` takes the node with a key away.
use crossbeam.Prelude.{
  ℕ, zero, suc, ◌+◌, ◌^◌, ◌<◌, ◌≡◌, ◌≢◌, inl, inr, refl, sym, ap, ◌∙◌, subst, true, false, some,
  List, arith, Option-cases,
}
use crossbeam.SkipList.Chain.{
  All-Mem, Mem, Mem-left, Apart-Avoids, last-end, end, end-Mem, address_of,
}
use crossbeam.SkipList.Compare.{Comparator, equivalent}
use crossbeam.SkipList.Defs.{NodeRef, Link, SkipList, set_refs, is_removed, mark_tower, sub_len}
use crossbeam.SkipList.Search.{Verdict, judge_key, search_position}
use crossbeam.SkipList.Remove.{unlink_levels, remove}
use crossbeam.SkipList.Invariant.{live, live-SameTags, IsNode, IsSkipList}
use crossbeam.SkipList.Unlink.{true_ne_false}
use crossbeam.SkipList.Walk.{IsPlace}
use crossbeam.SkipList.Descend.{IsPlace-tidied}
use crossbeam.SkipList.Lookup.{
  IsSearched, search_position-IsSearched, lookup, live-IsAscending, find_first-lookup,
}
use crossbeam.SkipList.Removal.{Leaves, unlink_levels-Leaves}
use crossbeam.SkipList.Removed.{Erases, remove-none, remove-some}
use crossbeam.SkipList.Mark.{IsMarked, mark_levels-IsMarked, mark_levels-won, marked-IsSkipList}
use crossbeam.SkipList.Erase.{
  erase, erase-missing, lookup-Mem, live-Mem, live-erase, HasRoom, try_increment-succeeds,
  set_refs-IsSkipList,
}

module _ {ℓ κ} {K : Type ℓ} {V : Type κ} ⦃o : Comparator K⦄ where
  -- A place before a node stays one when the node is marked.
  pub IsPlace-marked :
      (judge : K → Verdict) (n : NodeRef K V) (s t : SkipList K V) (chain : ℕ → List (NodeRef K V))
      (i left : ℕ) (right : Link K V)
      → ((x : NodeRef K V) → Mem x (chain i) → x.address ≡ n.address → x ≡ n)
      → 0 ≢ n.address
      → (judge n.key).stop ≡ true
      → IsMarked n n.height s t
      → IsPlace judge s chain i left right
      → IsPlace judge (sub_len t) chain i left right
  IsPlace-marked judge n s t chain i left right known zero_other stop m p =
      let other : (x : NodeRef K V) → end p.before ≡ some x → x.address ≢ n.address = λ x e f.
        let k : Mem x p.before = end-Mem p.before x e in
        let same : x ≡ n = known x (subst (Mem x) (sym p.split) (Mem-left p.after k)) f in
        true_ne_false stop (
          subst (λ z. (judge z.key).stop ≡ false) same
            (All-Mem (λ z. (judge z.key).stop ≡ false) k p.passed)) in
      let off : left ≢ n.address =
        subst (λ a. a ≢ n.address) (sym (p.at ∙ last-end p.before))
          (elim (Option-cases (end p.before)) [
            | inl e ↦ subst (λ a. address_of a ≢ n.address) (sym e) zero_other
            | inr (x, e) ↦ subst (λ a. address_of a ≢ n.address) (sym e) (other x e)
          ]) in
      record {
        before = p.before;
        after = p.after;
        split = p.split;
        passed = p.passed;
        ahead = p.ahead;
        at = p.at;
        next = p.next;
        unmarked = m.others left i off ∙ p.unmarked;
        standing = λ x e. m.others x.address 0 (other x e) ∙ p.standing x e;
      }

  -- The live nodes do not depend on the reference counts.
  pub kept_refs :
      (s : SkipList K V) (a r : ℕ) (xs : List (NodeRef K V)) → live (set_refs s a r) xs ≡ live s xs
  kept_refs s a r xs = live-SameTags s (set_refs s a r) xs (λ b i. refl)

  pub judge_key-stop :
      (key : K) (n : NodeRef K V) → equivalent n.key key ≡ true → (judge_key key n.key).stop ≡ true
  unfolding judge_key
  judge_key-stop key n e = ground (arith, e)

  -- In a well-formed list whose reference counts are all below `2 ^ 58`, `remove` returns the node
  -- with an equivalent key that is not removed, or nothing where there is none, and takes it away
  -- from those that are not removed; the list stays well-formed. One try is enough, and any fuel
  -- that is more than the number of nodes ever made.
  pub remove-erase :
      (tries fuel : ℕ) (key : K) (s : SkipList K V) (chain : ℕ → List (NodeRef K V))
      → IsSkipList s chain
      → HasRoom s
      → s.allocated < fuel
      → 0 < tries
      → Erases key s chain (remove tries fuel key s) (lookup key (live s (chain 0)))
  remove-erase zero fuel key s chain w room h pos = absurd (omega (arith, pos))
  remove-erase (suc tries) fuel key s chain w room h pos =
      let k : IsSearched false (judge_key key) s chain (search_position fuel key s) =
        search_position-IsSearched fuel key s chain w h in
      let found : k.position.found ≡ lookup key (live s (chain 0)) =
        k.found
        ∙ find_first-lookup key (live s (chain 0)) (live-IsAscending s (chain 0) (w.sorted 0)) in
      let kept : live k.list (k.rest 0) ≡ live s (chain 0) =
        live-SameTags s k.list (k.rest 0) k.tidied.tags ∙ k.tidied.lives 0 in
      elim (Option-cases (lookup key (live s (chain 0)))) [
        | inl e ↦ record {
          list = k.list;
          rest = k.rest;
          ran =
              remove-none tries fuel key s k.position k.list k.ran (found ∙ e)
              ∙ ap (λ r. some (r, k.list)) (sym e);
          well = k.tidied.list;
          lives = kept ∙ sym (erase-missing key (live s (chain 0)) e);
          allocated = k.tidied.allocated;
        }
        | inr (n, e) ↦
            let (there_, q) = lookup-Mem key (live s (chain 0)) n e in
            let (inside, lives) = live-Mem s (chain 0) n there_ in
            let inside1 : Mem n (k.rest 0) = k.tidied.kept 0 n inside lives in
            let lives1 : is_removed k.list n ≡ false = k.tidied.tags n.address 0 ∙ lives in
            let node : IsNode k.list 0 n =
              All-Mem (IsNode k.list 0) inside1 (k.tidied.list.nodes 0) in
            let count : ℕ = k.list.refs n.address + 1 in
            let s2 : SkipList K V = set_refs k.list n.address count in
            let w2 : IsSkipList s2 k.rest =
              set_refs-IsSkipList k.list k.rest n.address count k.tidied.list (omega arith) in
            let m : IsMarked n n.height s2 (mark_tower s2 n).1 =
              mark_levels-IsMarked s2 n n.height in
            let t : SkipList K V = sub_len (mark_tower s2 n).1 in
            let well : IsSkipList t k.rest =
              marked-IsSkipList n s2 (mark_tower s2 n).1 k.rest w2 inside1 lives1 m in
            let fits : t.allocated < fuel =
              subst (λ a. a < fuel) (sym (m.allocated ∙ k.tidied.allocated)) h in
            let l : Leaves t k.rest (unlink_levels fuel key n k.position n.height t) =
              unlink_levels-Leaves n.height fuel key n k.position t k.rest well fits
                (m.marked 0 node.tall) (λ i x mx f. w2.one i 0 x n mx inside1 f)
                (λ i lt.
                  IsPlace-marked (judge_key key) n s2 (mark_tower s2 n).1 k.rest i
                    (k.position.left i) (k.position.right i) (λ x mx f. w2.one i 0 x n mx inside1 f)
                    (All-Mem (λ x. 0 ≢ x.address) inside1 (Apart-Avoids 0 (k.rest 0) (w2.apart 0)))
                    (judge_key-stop key n q) m
                    (IsPlace-tidied (judge_key key) k.list s2 k.rest k.rest i (k.position.left i)
                      (k.position.right i) refl (λ a j. refl) (k.places i).0)) in
            let has_room : k.list.refs n.address < 2 ^ 58 =
              subst (λ r. r < 2 ^ 58) (sym (k.tidied.refs n.address lives)) (room n.address) in
            record {
              list = l.list;
              rest = l.rest;
              ran =
                  remove-some tries fuel key s k.position k.list s2 n l.list k.ran (found ∙ e)
                    (try_increment-succeeds k.list n (node.held lives1) has_room
                      (omega (arith, node.limit)))
                    (mark_levels-won s2 n n.height lives1) l.ran
                  ∙ ap (λ r. some (r, l.list)) (sym e);
              well = l.tidied.list;
              lives =
                  live-SameTags t l.list (l.rest 0) l.tidied.tags
                  ∙ (l.tidied.lives 0
                      ∙ (live-erase key n s2 (mark_tower s2 n).1 k.rest w2 inside1 lives1 q m
                          ∙ ap (erase key) (kept_refs k.list n.address count (k.rest 0) ∙ kept)));
              allocated = l.tidied.allocated ∙ (m.allocated ∙ k.tidied.allocated);
            }
      ]
