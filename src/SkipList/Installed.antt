-- ===== src/SkipList/Installed.antt =====
-- The installation of a new node at level 0.
use Prim.Native.Nat.Ordering.{lt, eq, gt}
use crossbeam.Prelude.{
  ℕ, ◌%◌, ◌<◌, ◌≤◌, ◌≡◌, ◌≢◌, inl, inr, sym, ap, ◌∙◌, subst, true, false, List, ◌∷◌, ◌++◌,
  if◌then◌else◌, length, length-append, arith, word_mod,
}
use crossbeam.SkipList.Chain.{
  All, All-left, All-right, All-Mem, All-each, All-imp, Mem, Mem-right, Mem-left, here, there,
  Apart, Apart-Avoids, Apart-right, Pairwise, Pairwise-right,
}
use crossbeam.SkipList.Compare.{Comparator, reverse}
use crossbeam.SkipList.Defs.{NodeRef, SkipList, is_removed, sub_len, put}
use crossbeam.SkipList.Invariant.{live, live-append, Before, IsNode, IsSkipList}
use crossbeam.SkipList.Mark.{IsMarked, Avoids-before}
use crossbeam.SkipList.Enter.{IsFresh, fresh-IsSkipList}
use crossbeam.SkipList.Install.{IsPut, IsThen, IsThen-refl, IsThen-marked}
use crossbeam.SkipList.Fresh.{
  enter, enter-live, IsNew, put-tag, IsFresh-put, live-agree, live-entered,
}

module _ {ℓ κ} {K : Type ℓ} {V : Type κ} ⦃o : Comparator K⦄ where
  -- The order of what follows the new node, for a next key that is greater and for one that is equal.
  pub after-gt :
      (s u : SkipList K V) (n y : NodeRef K V) (ys : List (NodeRef K V))
      → o.compare y.key n.key ≡ gt
      → All (Before s y) ys
      → All (Before u n) (y ∷ ys)
  after-gt s u n y ys g a =
      let less : o.compare n.key y.key ≡ lt = ground (arith, g, o.flip y.key n.key) in
      (
        inl less,
        All-imp
            (λ z b. elim b [
              | inl l ↦ inl (o.lt_trans n.key y.key z.key less l)
              | inr (q, _) ↦
                  inl (o.flip z.key n.key ∙ ap reverse (sym (o.eq_left y.key z.key n.key q) ∙ g))
            ])
            ys a,
      )

  after-eq :
      (s u : SkipList K V) (n y : NodeRef K V) (ys : List (NodeRef K V))
      → o.compare y.key n.key ≡ eq
      → is_removed u y ≡ true
      → ((z : NodeRef K V) → Mem z ys → is_removed s z ≡ true → is_removed u z ≡ true)
      → All (Before s y) ys
      → All (Before u n) (y ∷ ys)
  after-eq s u n y ys q gone grow a = (
    inr (ground (arith, q, o.flip y.key n.key), gone),
    All-each ys
        (λ z m b. elim b [
          | inl l ↦ inl (sym (o.eq_left y.key n.key z.key q) ∙ l)
          | inr (e, r) ↦ inr (sym (o.eq_left y.key n.key z.key q) ∙ e, grow z m r)
        ])
        a,
  )

  -- What holds once the node stands at level 0.
  pub record IsInserted (s : SkipList K V) (chain : ℕ → List (NodeRef K V)) (n : NodeRef K V)
      (before after : List (NodeRef K V)) (u : SkipList K V) : Type (ℓ ⊔ κ) where
    pub well : IsSkipList u (put chain 0 (before ++ (n ∷ after)))
    pub lives : live u (before ++ (n ∷ after)) ≡ enter n (live s (before ++ after))
    pub fresh : IsFresh s u chain n before after

  -- Where no node has the key.
  pub IsInserted-missing :
      (s t : SkipList K V) (chain : ℕ → List (NodeRef K V)) (n : NodeRef K V)
      (before after : List (NodeRef K V))
      → IsSkipList s chain
      → chain 0 ≡ before ++ after
      → IsPut s t n before after
      → IsNew s n before
      → All (Before t n) after
      → enter n (live s after) ≡ n ∷ live s after
      → IsInserted s chain n before after t
  IsInserted-missing s t chain n before after w e k new order enters =
      let agree : All (λ x. is_removed t x ≡ is_removed s x) (chain 0) =
        All-each (chain 0)
          (λ x m node. put-tag s t n before after k new.unmarked x.address (λ f.
            let made : x.address ≤ s.allocated = node.made in omega (arith, made, f, new.address)))
          (w.nodes 0) in
      let parts : All (λ x. is_removed t x ≡ is_removed s x) (before ++ after) =
        subst (All (λ x. is_removed t x ≡ is_removed s x)) e agree in
      let lives : live t (before ++ (n ∷ after)) ≡ live s before ++ (n ∷ live s after) =
        live-entered s t n before after (ap (λ l. l.tag) k.onto)
          (All-left (λ x. is_removed t x ≡ is_removed s x) before after parts)
        ∙ ap (λ l. live s before ++ (n ∷ l))
            (live-agree s t after
              (All-right (λ x. is_removed t x ≡ is_removed s x) before after parts)) in
      let counts : t.len ≡ length (live t (before ++ (n ∷ after))) % word_mod =
        let was : s.len ≡ length (live s before ++ live s after) % word_mod =
          w.counted ∙ ap (λ l. length l % word_mod) (ap (live s) e ∙ live-append s before after) in
        omega (
          arith,
          was,
          k.len,
          ap length lives,
          length-append (live s before) (live s after),
          length-append (live s before) (n ∷ live s after),
        ) in
      let fresh : IsFresh s t chain n before after =
        IsFresh-put s t t chain n before after w k (IsThen-refl t n chain) new order counts in
      record {
        well = fresh-IsSkipList s t chain n before after w e fresh;
        lives =
            lives
            ∙ sym (
                ap (enter n) (live-append s before after)
                ∙ (enter-live n s before (live s after) new.before_new
                    ∙ ap (λ l. live s before ++ l) enters));
        fresh = fresh;
      }

  -- Where the next node has the key, and is marked after the installation.
  pub IsInserted-replacing :
      (s t u : SkipList K V) (chain : ℕ → List (NodeRef K V)) (n : NodeRef K V)
      (before : List (NodeRef K V)) (y : NodeRef K V) (ys : List (NodeRef K V))
      → IsSkipList s chain
      → chain 0 ≡ before ++ (y ∷ ys)
      → IsPut s t n before (y ∷ ys)
      → IsNew s n before
      → IsMarked y y.height t u
      → is_removed s y ≡ false
      → o.compare y.key n.key ≡ eq
      → IsInserted s chain n before (y ∷ ys) (sub_len u)
  IsInserted-replacing s t u chain n before y ys w e k new m alive q =
      let inside : Mem y (chain 0) = subst (Mem y) (sym e) (Mem-right before here) in
      let node : IsNode s 0 y = All-Mem (IsNode s 0) inside (w.nodes 0) in
      let made : y.address ≤ s.allocated = node.made in
      let d : Apart 0 (before ++ (y ∷ ys)) = subst (Apart 0) e (w.apart 0) in
      let then_ : IsThen t (sub_len u) n chain =
        IsThen-marked t u n y chain m node.tall (λ f. omega (arith, f, made, new.address))
          (All-Mem (λ x. 0 ≢ x.address) inside (Apart-Avoids 0 (chain 0) (w.apart 0)))
          (λ i x mx f.
            let k : IsNode s i x = All-Mem (IsNode s i) mx (w.nodes i) in
            subst (λ z. i < z.height) (w.one i 0 x y mx inside f) k.tall) in
      let off : (x : NodeRef K V) → Mem x (chain 0) → x.address ≢ n.address = λ x mx f.
        let low : x.address ≤ s.allocated =
          let k : IsNode s 0 x = All-Mem (IsNode s 0) mx (w.nodes 0) in k.made in
        omega (arith, low, f, new.address) in
      let same : (x : NodeRef K V)
          → Mem x (chain 0)
          → y.address ≢ x.address
          → is_removed u x ≡ is_removed s x =
        λ x mx ne.
          m.others x.address 0 (λ f. ne (sym f))
          ∙ put-tag s t n before (y ∷ ys) k new.unmarked x.address (off x mx) in
      let part : (x : NodeRef K V) → Mem x (before ++ (y ∷ ys)) → Mem x (chain 0) =
        λ x mx. subst (Mem x) (sym e) mx in
      let agree_before : All (λ x. is_removed u x ≡ is_removed s x) before =
        All-each before (λ x mx ne. same x (part x (Mem-left (y ∷ ys) mx)) ne)
          (Avoids-before 0 before y ys d) in
      let agree_after : All (λ x. is_removed u x ≡ is_removed s x) ys =
        All-each ys (λ x mx ne. same x (part x (Mem-right before (there mx))) ne)
          (Apart-Avoids y.address ys (Apart-right 0 before (y ∷ ys) d).1) in
      let gone : is_removed u y ≡ true = m.marked 0 node.tall in
      let rest : live u (y ∷ ys) ≡ live s ys =
        ap (λ b. if b then live u ys else y ∷ live u ys) gone ∙ live-agree s u ys agree_after in
      let lives : live u (before ++ (n ∷ y ∷ ys)) ≡ live s before ++ (n ∷ live s ys) =
        live-entered s u n before (y ∷ ys) (then_.new ∙ ap (λ l. l.tag) k.onto) agree_before
        ∙ ap (λ l. live s before ++ (n ∷ l)) rest in
      let old : live s (before ++ (y ∷ ys)) ≡ live s before ++ (y ∷ live s ys) =
        live-append s before (y ∷ ys)
        ∙ ap (λ b. live s before ++ (if b then live s ys else y ∷ live s ys)) alive in
      let counts : (sub_len u).len ≡ length (live u (before ++ (n ∷ y ∷ ys))) % word_mod =
        let was : s.len ≡ length (live s before ++ (y ∷ live s ys)) % word_mod =
          w.counted ∙ ap (λ l. length l % word_mod) (ap (live s) e ∙ old) in
        omega (
          arith,
          was,
          k.len,
          m.len,
          ap length lives,
          length-append (live s before) (y ∷ live s ys),
          length-append (live s before) (n ∷ live s ys),
        ) in
      let sorted : All (Before s y) ys =
        (Pairwise-right (Before s) before (y ∷ ys)
          (subst (Pairwise (Before s)) e (w.sorted 0))).0 in
      let order : All (Before (sub_len u) n) (y ∷ ys) =
        after-eq s (sub_len u) n y ys q gone
          (λ z mz r.
            let inside_z : Mem z (chain 0) = part z (Mem-right before (there mz)) in
            then_.grow z
              (put-tag s t n before (y ∷ ys) k new.unmarked z.address (off z inside_z) ∙ r))
          sorted in
      let fresh : IsFresh s (sub_len u) chain n before (y ∷ ys) =
        IsFresh-put s t (sub_len u) chain n before (y ∷ ys) w k then_ new order counts in
      record {
        well = fresh-IsSkipList s (sub_len u) chain n before (y ∷ ys) w e fresh;
        lives =
            lives
            ∙ sym (
                ap (enter n) old
                ∙ (enter-live n s before (y ∷ live s ys) new.before_new ∙ rw (enter, q)));
        fresh = fresh;
      }
