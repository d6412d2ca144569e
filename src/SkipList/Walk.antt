-- ===== src/SkipList/Walk.antt =====
-- A search along one level.
use crossbeam.Prelude.{
  ℕ, zero, suc, ◌<◌, ◌≡◌, ◌≢◌, inl, inr, refl, sym, ap, ◌∙◌, subst, Bool, true, false, not, Option,
  none, some, List, [], ◌∷◌, ◌++◌, if◌then◌else◌, length, arith, Bool-cases,
}
use mathlib.Core.List.{append_assoc}
use crossbeam.SkipList.Chain.{
  All, All-imp, All-append, Mem-right, here, Pairwise, Pairwise-right, last, first, end, end-snoc,
  Linked, Linked-right, Linked-first, last-append, All-Mem, some_inj,
}
use crossbeam.SkipList.Compare.{Comparator, leq}
use crossbeam.SkipList.Defs.{NodeRef, Link, SkipList, put, is_removed, with_tag, decrement}
use crossbeam.SkipList.Search.{Cursor, Walk, stopped, halt, go, Verdict, inspect, walk, help_unlink}
use crossbeam.SkipList.Invariant.{
  IsNode, Before, IsSkipList, IsTidied, IsTidied-refl, IsTidied-trans,
}
use crossbeam.SkipList.Unlink.{
  put-there, put-elsewhere, unlinked, help_unlink-succeeds, unlinked-IsTidied,
}

module _ {ℓ κ} {K : Type ℓ} {V : Type κ} where
  -- A link that is not marked, to the first node of a list.
  abbrev pub link_to : List (NodeRef K V) → Link K V
  link_to xs = record { ptr = first xs; tag = false }

  pub link_eq :
      (l : Link K V) (p : Option (NodeRef K V)) (b : Bool)
      → l.ptr ≡ p
      → l.tag ≡ b
      → l ≡ record { ptr = p; tag = b }
  link_eq l p b e f =
      ap (λ q. record { ptr = q; tag = l.tag }) e ∙ ap (λ c. record { ptr = p; tag = c }) f

  -- One pass, in the cases that the link tells apart.
  pub inspect-removed :
      (i : ℕ) (judge : K → Verdict) (s : SkipList K V) (a : ℕ) (c : NodeRef K V)
      (r : Option (NodeRef K V))
      → (s.links a i).ptr ≡ some c
      → (s.links a i).tag ≡ false
      → (s.links c.address i).tag ≡ true
      → inspect i judge
          (record { list = s; pred = a; curr = record { ptr = some c; tag = false }; result = r })
        ≡ go (record {
          list = unlinked s a i c;
          pred = a;
          curr = with_tag (s.links c.address i) false;
          result = r;
        })
  unfolding inspect help_unlink decrement
  inspect-removed i judge s a c r p f gone = rw (gone, help_unlink-succeeds s a i c p f)

  pub inspect-stop :
      (i : ℕ) (judge : K → Verdict) (s : SkipList K V) (a : ℕ) (c : NodeRef K V)
      (r : Option (NodeRef K V))
      → (s.links c.address i).tag ≡ false
      → (judge c.key).stop ≡ true
      → inspect i judge
          (record { list = s; pred = a; curr = record { ptr = some c; tag = false }; result = r })
        ≡ halt (
            stopped (record {
              list = s;
              pred = a;
              curr = record { ptr = some c; tag = false };
              result = if (judge c.key).take then some c else r;
            }))
  unfolding inspect
  inspect-stop i judge s a c r f e = rw (f, e)

  pub inspect-pass :
      (i : ℕ) (judge : K → Verdict) (s : SkipList K V) (a : ℕ) (c : NodeRef K V)
      (r : Option (NodeRef K V))
      → (s.links c.address i).tag ≡ false
      → (judge c.key).stop ≡ false
      → inspect i judge
          (record { list = s; pred = a; curr = record { ptr = some c; tag = false }; result = r })
        ≡ go (record {
          list = s;
          pred = c.address;
          curr = s.links c.address i;
          result = if (judge c.key).take then some c else r;
        })
  unfolding inspect
  inspect-pass i judge s a c r f e = rw (f, e)

  walk-go :
      (fuel i : ℕ) (judge : K → Verdict) (c d : Cursor K V)
      → inspect i judge c ≡ go d
      → walk (suc fuel) i judge c ≡ walk fuel i judge d
  unfolding walk
  walk-go fuel i judge c d e = ap (λ m. elim m [ halt w ↦ some w | go d ↦ walk fuel i judge d ]) e

  walk-halt :
      (fuel i : ℕ) (judge : K → Verdict) (c : Cursor K V) (w : Walk K V)
      → inspect i judge c ≡ halt w
      → walk (suc fuel) i judge c ≡ some w
  unfolding walk
  walk-halt fuel i judge c w e = ap (λ m. elim m [ halt w ↦ some w | go d ↦ walk fuel i judge d ]) e

  inspect-end :
      (i : ℕ) (judge : K → Verdict) (s : SkipList K V) (a : ℕ) (r : Option (NodeRef K V))
      → inspect i judge
          (record { list = s; pred = a; curr = record { ptr = none; tag = false }; result = r })
        ≡ halt (
            stopped (record {
              list = s;
              pred = a;
              curr = record { ptr = none; tag = false };
              result = r;
            }))
  unfolding inspect
  inspect-end i judge s a r = refl

  -- The result of a search that takes the node it stops at.
  abbrev pub pick :
      (K → Verdict) → Option (NodeRef K V) → Option (NodeRef K V) → Option (NodeRef K V)
  pick judge none r = r
  pick judge (some y) r = if (judge y.key).take then some y else r

  -- The place of a search in the chain of a level.
  pub record IsPlace (judge : K → Verdict) (s : SkipList K V) (chain : ℕ → List (NodeRef K V))
      (i left : ℕ) (right : Link K V) : Type (ℓ ⊔ κ) where
    pub before : List (NodeRef K V)
    pub after : List (NodeRef K V)
    pub split : chain i ≡ before ++ after
    pub passed : All (λ x. (judge x.key).stop ≡ false) before
    pub ahead : All (λ x. (judge x.key).stop ≡ true) after
    pub at : left ≡ last 0 before
    pub next : right ≡ link_to after
    pub unmarked : (s.links left i).tag ≡ false
    pub standing : (x : NodeRef K V) → end before ≡ some x → is_removed s x ≡ false

  -- The next node is not removed.
  abbrev pub Faces : SkipList K V → Link K V → Type (ℓ ⊔ κ)
  Faces s right = (x : NodeRef K V) → right.ptr ≡ some x → is_removed s x ≡ false

module _ {ℓ κ} {K : Type ℓ} {V : Type κ} ⦃o : Comparator K⦄ where
  -- A search along level `i` from the end of `xs` ended at its place.
  pub record IsWalked (judge : K → Verdict) (s : SkipList K V) (chain : ℕ → List (NodeRef K V))
      (i : ℕ) (xs : List (NodeRef K V)) (r : Option (NodeRef K V)) (run : Option (Walk K V))
      : Type (ℓ ⊔ κ) where
    pub cursor : Cursor K V
    pub ran : run ≡ some (stopped cursor)
    pub rest : ℕ → List (NodeRef K V)
    pub others : (j : ℕ) → j ≢ i → rest j ≡ chain j
    pub tidied : IsTidied s chain cursor.list rest
    pub place : IsPlace judge cursor.list rest i cursor.pred cursor.curr
    pub faces : Faces cursor.list cursor.curr
    pub first_found :
        ((k : K) → (judge k).take ≡ true → (judge k).stop ≡ true)
        → cursor.result ≡ pick judge (first place.after) r
    pub last_found :
        ((k : K) → (judge k).take ≡ not (judge k).stop)
        → r ≡ end xs
        → cursor.result ≡ end place.before

  Before-stop :
      (judge : K → Verdict) (s : SkipList K V) (x y : NodeRef K V)
      → ((a b : K) → leq a b ≡ true → (judge a).stop ≡ true → (judge b).stop ≡ true)
      → (judge x.key).stop ≡ true
      → Before s x y
      → (judge y.key).stop ≡ true
  Before-stop judge s x y mono e (inl l) = mono x.key y.key (rw l) e
  Before-stop judge s x y mono e (inr (q, _)) = mono x.key y.key (rw q) e

  module _ (judge : K → Verdict)
      (mono : (a b : K) → leq a b ≡ true → (judge a).stop ≡ true → (judge b).stop ≡ true) where
    pub walk-IsWalked :
        (ys : List (NodeRef K V)) (fuel i : ℕ) (s : SkipList K V) (chain : ℕ → List (NodeRef K V))
        (xs : List (NodeRef K V)) (r : Option (NodeRef K V))
        → length ys < fuel
        → IsSkipList s chain
        → chain i ≡ xs ++ ys
        → All (λ x. (judge x.key).stop ≡ false) xs
        → (s.links (last 0 xs) i).tag ≡ false
        → ((x : NodeRef K V) → end xs ≡ some x → is_removed s x ≡ false)
        → IsWalked judge s chain i xs r (
            walk fuel i judge
              (record { list = s; pred = last 0 xs; curr = link_to ys; result = r }))
    walk-IsWalked ys zero i s chain xs r h w e pass unmarked stand = absurd (omega (arith, h))
    walk-IsWalked [] (suc fuel) i s chain xs r h w e pass unmarked stand = record {
      cursor = record { list = s; pred = last 0 xs; curr = link_to []; result = r };
      ran = walk-halt fuel i judge _ _ (inspect-end i judge s (last 0 xs) r);
      rest = chain;
      others = λ j ne. refl;
      tidied = IsTidied-refl s chain w;
      place = record {
        before = xs;
        after = [];
        split = e;
        passed = pass;
        ahead = tt;
        at = refl;
        next = refl;
        unmarked = unmarked;
        standing = stand;
      };
      faces = λ x f. absurd (ground (arith, f));
      first_found = λ law. refl;
      last_found = λ law f. f;
    }
    walk-IsWalked (y ∷ ys) (suc fuel) i s chain xs r h w e pass unmarked stand =
        let a : ℕ = last 0 xs in
        let linked : Linked s i a (y ∷ ys) =
          Linked-right s i 0 xs (y ∷ ys) (subst (Linked s i 0) e (w.linked i)) in
        let node : IsNode s i y =
          All-Mem (IsNode s i) (Mem-right xs here) (subst (All (IsNode s i)) e (w.nodes i)) in
        let after_y : (s.links y.address i).ptr ≡ first ys =
          Linked-first s i y.address ys linked.1 in
        let fewer : length ys < fuel = omega (arith, h) in
        elim (Bool-cases (is_removed s y)) [
          | inl gone ↦
              let t : SkipList K V = unlinked s a i y in
              let tidy : IsTidied s chain t (put chain i (xs ++ ys)) =
                unlinked-IsTidied s chain i xs y ys w e unmarked gone in
              let next : IsWalked judge t (put chain i (xs ++ ys)) i xs r (
                  walk fuel i judge
                    (record { list = t; pred = a; curr = link_to ys; result = r })) =
                walk-IsWalked ys fuel i t (put chain i (xs ++ ys)) xs r fewer tidy.list
                  (put-there chain i (xs ++ ys)) pass (tidy.tags a i ∙ unmarked)
                  (λ x f. tidy.tags x.address 0 ∙ stand x f) in
              record {
                cursor = next.cursor;
                ran =
                    walk-go fuel i judge _ _
                      (inspect-removed i judge s a y r linked.0 unmarked (node.marked ∙ gone))
                    ∙ (ap
                          (λ p. walk fuel i judge (record {
                            list = t;
                            pred = a;
                            curr = record { ptr = p; tag = false };
                            result = r;
                          }))
                          after_y
                        ∙ next.ran);
                rest = next.rest;
                others = λ j ne. next.others j ne ∙ put-elsewhere chain i (xs ++ ys) j ne;
                tidied =
                    IsTidied-trans s t next.cursor.list chain (put chain i (xs ++ ys)) next.rest
                      tidy next.tidied;
                place = next.place;
                faces = next.faces;
                first_found = next.first_found;
                last_found = next.last_found;
              }
          | inr lives ↦ elim (Bool-cases (judge y.key).stop) [
            | inl stop ↦ record {
              cursor = record {
                list = s;
                pred = a;
                curr = link_to (y ∷ ys);
                result = if (judge y.key).take then some y else r;
              };
              ran =
                  walk-halt fuel i judge _ _
                    (inspect-stop i judge s a y r (node.marked ∙ lives) stop);
              rest = chain;
              others = λ j ne. refl;
              tidied = IsTidied-refl s chain w;
              place = record {
                before = xs;
                after = y ∷ ys;
                split = e;
                passed = pass;
                ahead = (
                  stop,
                  All-imp (λ z. Before-stop judge s y z mono stop) ys
                      (Pairwise-right (Before s) xs (y ∷ ys)
                        (subst (Pairwise (Before s)) e (w.sorted i))).0,
                );
                at = refl;
                next = refl;
                unmarked = unmarked;
                standing = stand;
              };
              faces = λ x f. ground (arith, f, lives);
              first_found = λ law. refl;
              last_found = λ law f. ground (arith, law y.key, stop, f);
            }
            | inr passes ↦
                let r2 : Option (NodeRef K V) = if (judge y.key).take then some y else r in
                let xs2 : List (NodeRef K V) = xs ++ (y ∷ []) in
                let here_now : last 0 xs2 ≡ y.address = last-append 0 xs (y ∷ []) in
                let next : IsWalked judge s chain i xs2 r2 (
                    walk fuel i judge
                      (record { list = s; pred = last 0 xs2; curr = link_to ys; result = r2 })) =
                  walk-IsWalked ys fuel i s chain xs2 r2 fewer w
                    (e ∙ sym (append_assoc xs (y ∷ []) ys))
                    (All-append (λ x. (judge x.key).stop ≡ false) xs (y ∷ []) pass (passes, tt))
                    (subst (λ b. (s.links b i).tag ≡ false) (sym here_now) (node.marked ∙ lives))
                    (λ x f.
                      subst (λ z. is_removed s z ≡ false) (some_inj (sym (end-snoc xs y) ∙ f))
                        lives) in
                record {
                  cursor = next.cursor;
                  ran =
                      walk-go fuel i judge _ _
                        (inspect-pass i judge s a y r (node.marked ∙ lives) passes)
                      ∙ (ap
                            (λ l.
                              walk fuel i judge
                                (record { list = s; pred = y.address; curr = l; result = r2 }))
                            (link_eq (s.links y.address i) (first ys) false after_y
                              (node.marked ∙ lives))
                          ∙ (ap
                                (λ b.
                                  walk fuel i judge
                                    (record { list = s; pred = b; curr = link_to ys; result = r2 }))
                                (sym here_now)
                              ∙ next.ran));
                  rest = next.rest;
                  others = next.others;
                  tidied = next.tidied;
                  place = next.place;
                  faces = next.faces;
                  first_found = λ law.
                      next.first_found law
                      ∙ ap (pick judge (first next.place.after))
                          (ground (arith, law y.key, passes));
                  last_found = λ law f.
                      next.last_found law (ground (arith, law y.key, passes, end-snoc xs y));
                }
          ]
        ]
