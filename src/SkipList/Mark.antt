-- ===== src/SkipList/Mark.antt =====
-- `mark_tower`, and the list after it.
use crossbeam.Prelude.{
  ℕ, zero, suc, ◌%◌, ◌<◌, ◌≤◌, ◌≡◌, ◌≢◌, inl, inr, refl, sym, ap, ◌∙◌, subst, true, false, List, [],
  ◌∷◌, ◌++◌, if◌then◌else◌, length, length-append, arith, ne→==, ℕ_discrete, eq→==, word_mod,
  Bool-cases,
}
use crossbeam.SkipList.Chain.{
  All-each, All-Mem, All-right, Mem, Mem-split, Linked-same, Apart, Apart-Avoids, Apart-right,
  Avoids, Pairwise-imp,
}
use crossbeam.SkipList.Compare.{Comparator}
use crossbeam.SkipList.Defs.{
  NodeRef, Link, SkipList, set_level, is_removed, with_tag, mark_levels, sub_len,
}
use crossbeam.SkipList.Invariant.{
  live, live-append, set_level-there, set_level-level, set_level-tower, IsNode, Before, IsSkipList,
}
use crossbeam.SkipList.Unlink.{true_ne_false}

module _ {ℓ κ} {K : Type ℓ} {V : Type κ} where
  -- `t` is `s` with the links of `n` below the level `l` marked.
  pub record IsMarked (n : NodeRef K V) (l : ℕ) (s t : SkipList K V) : Type (ℓ ⊔ κ) where
    pub ptrs : (a i : ℕ) → (t.links a i).ptr ≡ (s.links a i).ptr
    pub others : (a i : ℕ) → a ≢ n.address → (t.links a i).tag ≡ (s.links a i).tag
    pub marked : (i : ℕ) → i < l → (t.links n.address i).tag ≡ true
    pub above : (i : ℕ) → l ≤ i → (t.links n.address i).tag ≡ (s.links n.address i).tag
    pub refs : t.refs ≡ s.refs
    pub allocated : t.allocated ≡ s.allocated
    pub max_height : t.max_height ≡ s.max_height
    pub len : t.len ≡ s.len

  abbrev mark_level : SkipList K V → NodeRef K V → ℕ → SkipList K V
  mark_level s n l = set_level s n.address l (with_tag (s.links n.address l) true)

  mark_levels-next :
      (s : SkipList K V) (n : NodeRef K V) (l : ℕ)
      → (mark_levels s n (suc l)).1 ≡ (mark_levels (mark_level s n l) n l).1
  unfolding mark_levels
  mark_levels-next s n zero = refl
  mark_levels-next s n (suc l) = refl

  pub mark_levels-won :
      (s : SkipList K V) (n : NodeRef K V) (l : ℕ)
      → (s.links n.address 0).tag ≡ false
      → (mark_levels s n l).0 ≡ true
  unfolding mark_levels
  mark_levels-won s n zero f = refl
  mark_levels-won s n (suc zero) f = rw f
  mark_levels-won s n (suc (suc l)) f = mark_levels-won (mark_level s n (suc l)) n (suc l) (
      ap (λ m. m.tag)
        (set_level-level s n.address (suc l) (with_tag (s.links n.address (suc l)) true) n.address 0
          (omega arith))
      ∙ f)

  mark_level-ptrs :
      (s : SkipList K V) (n : NodeRef K V) (l a i : ℕ)
      → ((mark_level s n l).links a i).ptr ≡ (s.links a i).ptr
  unfolding set_level
  mark_level-ptrs s n l a i = elim (ℕ_discrete a n.address) [
    | no ne ↦ rw (ne→== a n.address ne)
    | yes e ↦ elim (ℕ_discrete i l) [
      | no ne ↦ rw (eq→== a n.address e, ne→== i l ne, e)
      | yes f ↦ rw (eq→== a n.address e, eq→== i l f, e, f)
    ]
  ]

  level_rest :
      (s : SkipList K V) (n : NodeRef K V) (l : ℕ) (new : Link K V)
      → set_level s n.address l new ≡ record s { links = (set_level s n.address l new).links }
  unfolding set_level
  level_rest s n l new = refl

  mark_levels-zero : (s : SkipList K V) (n : NodeRef K V) → (mark_levels s n zero).1 ≡ s
  unfolding mark_levels
  mark_levels-zero s n = refl

  mark_level-IsMarked :
      (s : SkipList K V) (n : NodeRef K V) (l : ℕ) (t : SkipList K V)
      → IsMarked n l (mark_level s n l) t
      → IsMarked n (suc l) s t
  mark_level-IsMarked s n l t m =
      let new : Link K V = with_tag (s.links n.address l) true in
      record {
        ptrs = λ a i. m.ptrs a i ∙ mark_level-ptrs s n l a i;
        others =
            λ a i ne. m.others a i ne ∙ ap (λ k. k.tag) (set_level-tower s n.address l new a i ne);
        marked = λ i lt. elim (ℕ_discrete i l) [
          | yes e ↦
              subst (λ j. (t.links n.address j).tag ≡ true) (sym e)
                (m.above l (omega arith) ∙ ap (λ k. k.tag) (set_level-there s n.address l new))
          | no ne ↦ m.marked i (omega (arith, lt, ne))
        ];
        above = λ i le.
            m.above i (omega (arith, le))
            ∙ ap (λ k. k.tag)
                (set_level-level s n.address l new n.address i
                  (λ e. absurd (omega (arith, le, e))));
        refs = m.refs ∙ ap (λ u. u.refs) (level_rest s n l new);
        allocated = m.allocated ∙ ap (λ u. u.allocated) (level_rest s n l new);
        max_height = m.max_height ∙ ap (λ u. u.max_height) (level_rest s n l new);
        len = m.len ∙ ap (λ u. u.len) (level_rest s n l new);
      }

  pub mark_levels-IsMarked :
      (s : SkipList K V) (n : NodeRef K V) (l : ℕ) → IsMarked n l s (mark_levels s n l).1
  mark_levels-IsMarked s n zero = subst (IsMarked n 0 s) (sym (mark_levels-zero s n)) (record {
    ptrs = λ a i. refl;
    others = λ a i ne. refl;
    marked = λ i lt. absurd (omega (arith, lt));
    above = λ i le. refl;
    refs = refl;
    allocated = refl;
    max_height = refl;
    len = refl;
  })
  mark_levels-IsMarked s n (suc l) =
      subst (IsMarked n (suc l) s) (sym (mark_levels-next s n l))
        (mark_level-IsMarked s n l _ (mark_levels-IsMarked (mark_level s n l) n l))

  -- The live nodes of a part of the chain without the marked node.
  live-others :
      (n : NodeRef K V) (l : ℕ) (s t : SkipList K V) (xs : List (NodeRef K V))
      → IsMarked n l s t
      → Avoids n.address xs
      → live t xs ≡ live s xs
  live-others n l s t [] m av = refl
  live-others n l s t (x ∷ xs) m av =
      rw (m.others x.address 0 (λ e. av.0 (sym e)), live-others n l s t xs m av.1)

  pub Avoids-before :
      (a : ℕ) (xs : List (NodeRef K V)) (n : NodeRef K V) (ys : List (NodeRef K V))
      → Apart a (xs ++ (n ∷ ys))
      → Avoids n.address xs
  Avoids-before a [] n ys d = tt
  Avoids-before a (x ∷ xs) n ys d = (
    (λ e.
        (All-right (λ y. x.address ≢ y.address) xs (n ∷ ys)
            (Apart-Avoids x.address (xs ++ (n ∷ ys)) d.1)).0
          (sym e)),
    Avoids-before x.address xs n ys d.1,
  )

  -- The marked node is the one that is missing.
  pub live-marked :
      (n : NodeRef K V) (l : ℕ) (s t : SkipList K V) (xs ys : List (NodeRef K V))
      → 0 < l
      → is_removed s n ≡ false
      → IsMarked n l s t
      → Apart 0 (xs ++ (n ∷ ys))
      → (live t (xs ++ (n ∷ ys)) ≡ live s xs ++ live s ys)
        × (live s (xs ++ (n ∷ ys)) ≡ live s xs ++ (n ∷ live s ys))
  live-marked n l s t xs ys pos lives m d =
      let after : Avoids n.address ys = Apart-Avoids n.address ys (Apart-right 0 xs (n ∷ ys) d).1 in
      let tail : live t (n ∷ ys) ≡ live s ys =
        rw (m.marked 0 pos) (live-others n l s t ys m after) in
      (
        live-append t xs (n ∷ ys)
            ∙ (ap (λ l. l ++ live t (n ∷ ys)) (live-others n l s t xs m (Avoids-before 0 xs n ys d))
                ∙ ap (λ l. live s xs ++ l) tail),
        live-append s xs (n ∷ ys)
            ∙ ap (λ b. live s xs ++ (if b then live s ys else n ∷ live s ys)) lives,
      )

module _ {ℓ κ} {K : Type ℓ} {V : Type κ} ⦃o : Comparator K⦄ where
  -- A removed node stays removed, and a live one was live.
  marked-grows :
      (n : NodeRef K V) (l : ℕ) (s t : SkipList K V) (x : NodeRef K V)
      → 0 < l
      → IsMarked n l s t
      → is_removed s x ≡ true
      → is_removed t x ≡ true
  marked-grows n l s t x pos m e = elim (ℕ_discrete x.address n.address) [
    | yes f ↦ subst (λ a. (t.links a 0).tag ≡ true) (sym f) (m.marked 0 pos)
    | no ne ↦ m.others x.address 0 ne ∙ e
  ]

  was-live :
      (n : NodeRef K V) (l : ℕ) (s t : SkipList K V) (x : NodeRef K V)
      → 0 < l
      → IsMarked n l s t
      → is_removed t x ≡ false
      → is_removed s x ≡ false
  was-live n l s t x pos m e = elim (Bool-cases (is_removed s x)) [
    | inl r ↦ true_ne_false (marked-grows n l s t x pos m r) e
    | inr f ↦ f
  ]

  marked-IsNode :
      (n : NodeRef K V) (s t : SkipList K V) (i : ℕ) (x : NodeRef K V)
      → 0 < n.height
      → IsMarked n n.height s t
      → (x.address ≡ n.address → x ≡ n)
      → IsNode s i x
      → IsNode (sub_len t) i x
  marked-IsNode n s t i x pos m known k = record {
    made = subst (λ a. x.address ≤ a) (sym m.allocated) k.made;
    tall = k.tall;
    limit = k.limit;
    marked = elim (ℕ_discrete x.address n.address) [
      | yes e ↦
          let inside : i < n.height = subst (λ y. i < y.height) (known e) k.tall in
          subst (λ a. (t.links a i).tag ≡ (t.links a 0).tag) (sym e)
            (m.marked i inside ∙ sym (m.marked 0 pos))
      | no ne ↦ m.others x.address i ne ∙ (k.marked ∙ sym (m.others x.address 0 ne))
    ];
    held = λ alive.
        subst (λ r. 0 < r x.address) (sym m.refs) (k.held (was-live n n.height s t x pos m alive));
  }

  -- The list without a live node: marked, and no longer counted.
  pub marked-IsSkipList :
      (n : NodeRef K V) (s t : SkipList K V) (chain : ℕ → List (NodeRef K V))
      → IsSkipList s chain
      → Mem n (chain 0)
      → is_removed s n ≡ false
      → IsMarked n n.height s t
      → IsSkipList (sub_len t) chain
  marked-IsSkipList n s t chain w inside lives m =
      let here_now : IsNode s 0 n = All-Mem (IsNode s 0) inside (w.nodes 0) in
      let pos : 0 < n.height = here_now.tall in
      let (xs, ys, e) = Mem-split inside in
      let d : Apart 0 (xs ++ (n ∷ ys)) = subst (Apart 0) e (w.apart 0) in
      let (now, then_) = live-marked n n.height s t xs ys pos lives m d in
      let order : (x y : NodeRef K V) → Before s x y → Before (sub_len t) x y = λ x y b. elim b [
        | inl l ↦ inl l
        | inr (q, r) ↦ inr (q, marked-grows n n.height s t y pos m r)
      ] in
      record {
        linked = λ i. Linked-same s (sub_len t) i 0 (chain i) (λ a. m.ptrs a i) (w.linked i);
        apart = w.apart;
        sorted = λ i. Pairwise-imp order (chain i) (w.sorted i);
        nodes = λ i.
            All-each (chain i) (λ x k. marked-IsNode n s t i x pos m (w.one i 0 x n k inside))
              (w.nodes i);
        nested = λ i x k alive. w.nested i x k (was-live n n.height s t x pos m alive);
        one = w.one;
        short = λ i. subst (λ a. length (chain i) ≤ a) (sym m.allocated) (w.short i);
        clean = λ i.
            m.others 0 i
              (All-Mem (λ x. 0 ≢ x.address) inside (Apart-Avoids 0 (chain 0) (w.apart 0)))
            ∙ w.clean i;
        low = λ i h. w.low i (subst (λ a. a ≤ i) m.max_height h);
        counted =
            let before : s.len ≡ length (live s xs ++ (n ∷ live s ys)) % word_mod =
              w.counted ∙ ap (λ l. length l % word_mod) (ap (live s) e ∙ then_) in
            let after : length (live t (chain 0)) ≡ length (live s xs ++ live s ys) =
              ap length (ap (live t) e ∙ now) in
            omega (
              arith,
              before,
              after,
              m.len,
              length-append (live s xs) (n ∷ live s ys),
              length-append (live s xs) (live s ys),
            );
      }
