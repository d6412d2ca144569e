-- ===== src/SkipList/Unlink.antt =====
-- `help_unlink` on a removed node that follows a tower whose link is not marked.
use crossbeam.Prelude.{
  ℕ, suc, ◌%◌, ◌<◌, ◌≤◌, ◌≡◌, ◌≢◌, inl, inr, refl, sym, ap, ◌∙◌, subst, Bool, true, false, none,
  some, List, [], ◌∷◌, ◌++◌, length, arith, ==_refl, ne→==, ℕ_discrete, word_mod,
}
use crossbeam.SkipList.Chain.{
  All, All-imp, All-middle, Mem, here, Mem-middle, Mem-insert, Mem-right, Linked, Linked-relink,
  Linked-right, Linked-same, Linked-move, Apart, Apart-right, Apart-middle, Avoids, Pairwise,
  Pairwise-middle, Pairwise-imp, last, length-middle,
}
use crossbeam.SkipList.Compare.{Comparator}
use crossbeam.SkipList.Defs.{
  NodeRef, Link, SkipList, put, set_level, is_removed, decrement, compare_exchange, with_tag,
  to_node,
}
use crossbeam.SkipList.Search.{help_unlink}
use crossbeam.SkipList.Invariant.{
  live, live-SameTags, live-skip, SameTags, set_level-there, set_level-level, set_level-tower,
  set_level-SameTags, IsNode, Before, IsSkipList, IsTidied,
}

pub true_ne_false {ℓ} : {P : Type ℓ} {b : Bool} → b ≡ true → b ≡ false → P
true_ne_false h g = absurd (ground (arith, h, g))

module _ {ℓ} {A : Type ℓ} where
  pub put-there : (f : ℕ → A) (i : ℕ) (x : A) → put f i x i ≡ x
  put-there f i x = rw (==_refl i)

  pub put-elsewhere : (f : ℕ → A) (i : ℕ) (x : A) (j : ℕ) → j ≢ i → put f i x j ≡ f j
  put-elsewhere f i x j ne = rw (ne→== j i ne)

  -- What holds of the new value at its place and of the others at theirs.
  pub put-each {μ} :
      (P : ℕ → A → Type μ) (f : ℕ → A) (i : ℕ) (x : A)
      → P i x
      → ((j : ℕ) → j ≢ i → P j (f j))
      → (j : ℕ) → P j (put f i x j)
  put-each P f i x new old j = elim (ℕ_discrete j i) [
    | yes e ↦ subst (λ k. P k (put f i x k)) (sym e) (subst (P i) (sym (put-there f i x)) new)
    | no ne ↦ subst (P j) (sym (put-elsewhere f i x j ne)) (old j ne)
  ]

module _ {ℓ κ} {K : Type ℓ} {V : Type κ} where
  -- The state after the removed node `c` was unlinked from the tower at `a`.
  abbrev pub unlinked : SkipList K V → ℕ → ℕ → NodeRef K V → SkipList K V
  unlinked s a i c = decrement (set_level s a i (with_tag (s.links c.address i) false)) c

  -- A compare-exchange of the link that is there succeeds.
  pub compare_exchange-to_node :
      (s : SkipList K V) (a i : ℕ) (c : NodeRef K V) (l : Link K V)
      → (s.links a i).ptr ≡ some c
      → (s.links a i).tag ≡ false
      → compare_exchange s a i (to_node c) l ≡ some (set_level s a i l)
  unfolding compare_exchange
  compare_exchange-to_node s a i c l p f = rw (p, f, ==_refl c.address)

  pub help_unlink-succeeds :
      (s : SkipList K V) (a i : ℕ) (c : NodeRef K V)
      → (s.links a i).ptr ≡ some c
      → (s.links a i).tag ≡ false
      → help_unlink s a i c (s.links c.address i)
        ≡ some (with_tag (s.links c.address i) false, unlinked s a i c)
  unfolding help_unlink
  help_unlink-succeeds s a i c p f =
      ap
        (λ m. elim m [
          | none ↦ none
          | some t ↦ some (with_tag (s.links c.address i) false, decrement t c)
        ])
        (compare_exchange-to_node s a i c (with_tag (s.links c.address i) false) p f)

  unlinked-SameTags :
      (s : SkipList K V) (a i : ℕ) (c : NodeRef K V)
      → (s.links a i).tag ≡ false
      → SameTags s (unlinked s a i c)
  unfolding decrement
  unlinked-SameTags s a i c f b j =
      set_level-SameTags s a i (with_tag (s.links c.address i) false) (sym f) b j

  unlinked-refs :
      (s : SkipList K V) (a i : ℕ) (c : NodeRef K V)
      → is_removed s c ≡ true
      → (b : ℕ) → (s.links b 0).tag ≡ false
      → (unlinked s a i c).refs b ≡ s.refs b
  unfolding decrement set_level
  unlinked-refs s a i c gone b f =
      rw (ne→== b c.address λ e. true_ne_false gone (subst (λ d. (s.links d 0).tag ≡ false) e f))

  unlinked-IsNode :
      (s : SkipList K V) (a i : ℕ) (c : NodeRef K V) (j : ℕ) (x : NodeRef K V)
      → (s.links a i).tag ≡ false
      → is_removed s c ≡ true
      → IsNode s j x
      → IsNode (unlinked s a i c) j x
  unfolding decrement set_level
  unlinked-IsNode s a i c j x f gone n =
      let tags : SameTags s (unlinked s a i c) = unlinked-SameTags s a i c f in
      record {
        made = n.made;
        tall = n.tall;
        limit = n.limit;
        marked = tags x.address j ∙ (n.marked ∙ sym (tags x.address 0));
        held = λ e.
            let was : is_removed s x ≡ false = sym (tags x.address 0) ∙ e in
            subst (λ r. 0 < r) (sym (unlinked-refs s a i c gone x.address was)) (n.held was);
      }

  -- The chain of the level goes around the node.
  unlinked-Linked :
      (s : SkipList K V) (i : ℕ) (xs : List (NodeRef K V)) (c : NodeRef K V)
      (ys : List (NodeRef K V))
      → Linked s i 0 (xs ++ (c ∷ ys))
      → Apart 0 (xs ++ (c ∷ ys))
      → Linked (unlinked s (last 0 xs) i c) i 0 (xs ++ ys)
  unfolding decrement
  unlinked-Linked s i xs c ys l d =
      let a : ℕ = last 0 xs in
      let new : Link K V = with_tag (s.links c.address i) false in
      let same : (b : ℕ) → b ≢ a → ((unlinked s a i c).links b i).ptr ≡ (s.links b i).ptr =
        λ b ne. ap (λ m. m.ptr) (set_level-tower s a i new b i ne) in
      let off : Avoids a (c ∷ ys) = (Apart-right 0 xs (c ∷ ys) d).0 in
      Linked-relink s (unlinked s a i c) i 0 xs (c ∷ ys) ys d same l (
        Linked-move s (unlinked s a i c) i a c.address ys same
          (ap (λ m. m.ptr) (set_level-there s a i new)) off.1 (Linked-right s i 0 xs (c ∷ ys) l).1)

module _ {ℓ κ} {K : Type ℓ} {V : Type κ} ⦃o : Comparator K⦄ where
  pub Before-SameTags :
      (s t : SkipList K V) (x y : NodeRef K V) → SameTags s t → Before s x y → Before t x y
  Before-SameTags s t x y same (inl e) = inl e
  Before-SameTags s t x y same (inr (e, r)) = inr (e, same y.address 0 ∙ r)

  pub unlinked-IsTidied :
      (s : SkipList K V) (chain : ℕ → List (NodeRef K V)) (i : ℕ) (xs : List (NodeRef K V))
      (c : NodeRef K V) (ys : List (NodeRef K V))
      → IsSkipList s chain
      → chain i ≡ xs ++ (c ∷ ys)
      → (s.links (last 0 xs) i).tag ≡ false
      → is_removed s c ≡ true
      → IsTidied s chain (unlinked s (last 0 xs) i c) (put chain i (xs ++ ys))
  unfolding decrement set_level
  unlinked-IsTidied s chain i xs c ys w e f gone =
      let a : ℕ = last 0 xs in
      let t : SkipList K V = unlinked s a i c in
      let tags : SameTags s t = unlinked-SameTags s a i c f in
      let subset : (j : ℕ) (x : NodeRef K V) → Mem x (put chain i (xs ++ ys) j) → Mem x (chain j) =
        put-each (λ j l. (x : NodeRef K V) → Mem x l → Mem x (chain j)) chain i (xs ++ ys)
          (λ x m. subst (Mem x) (sym e) (Mem-insert xs c ys m)) (λ j ne x m. m) in
      let kept : (j : ℕ) (x : NodeRef K V)
          → Mem x (chain j)
          → is_removed s x ≡ false
          → Mem x (put chain i (xs ++ ys) j) =
        put-each (λ j l. (x : NodeRef K V) → Mem x (chain j) → is_removed s x ≡ false → Mem x l)
          chain i (xs ++ ys)
          (λ x n was. elim (Mem-middle xs c ys (subst (Mem x) e n)) [
            | inl same ↦ true_ne_false gone (subst (λ y. is_removed s y ≡ false) same was)
            | inr k ↦ k
          ])
          (λ j ne x n was. n) in
      let lives : (j : ℕ) → live s (put chain i (xs ++ ys) j) ≡ live s (chain j) =
        put-each (λ j l. live s l ≡ live s (chain j)) chain i (xs ++ ys)
          (sym (live-skip s xs c ys gone) ∙ ap (live s) (sym e)) (λ j ne. refl) in
      let list : IsSkipList t (put chain i (xs ++ ys)) = record {
        linked =
            put-each (λ j l. Linked t j 0 l) chain i (xs ++ ys)
              (unlinked-Linked s i xs c ys (subst (Linked s i 0) e (w.linked i))
                (subst (Apart 0) e (w.apart i)))
              (λ j ne.
                Linked-same s t j 0 (chain j)
                  (λ b.
                    ap (λ m. m.ptr)
                      (set_level-level s a i (with_tag (s.links c.address i) false) b j ne))
                  (w.linked j));
        apart =
            put-each (λ j l. Apart 0 l) chain i (xs ++ ys)
              (Apart-middle 0 xs c ys (subst (Apart 0) e (w.apart i))) (λ j ne. w.apart j);
        sorted =
            put-each (λ j l. Pairwise (Before t) l) chain i (xs ++ ys)
              (Pairwise-imp (λ x y. Before-SameTags s t x y tags) (xs ++ ys)
                (Pairwise-middle (Before s) xs c ys (subst (Pairwise (Before s)) e (w.sorted i))))
              (λ j ne. Pairwise-imp (λ x y. Before-SameTags s t x y tags) (chain j) (w.sorted j));
        nodes =
            put-each (λ j l. All (IsNode t j) l) chain i (xs ++ ys)
              (All-imp (λ x. unlinked-IsNode s a i c i x f gone) (xs ++ ys)
                (All-middle (IsNode s i) xs c ys (subst (All (IsNode s i)) e (w.nodes i))))
              (λ j ne. All-imp (λ x. unlinked-IsNode s a i c j x f gone) (chain j) (w.nodes j));
        nested = λ j x m alive.
            let was : is_removed s x ≡ false = sym (tags x.address 0) ∙ alive in
            kept j x (w.nested j x (subset (suc j) x m) was) was;
        one = λ j k x y m n. w.one j k x y (subset j x m) (subset k y n);
        short =
            put-each (λ j l. length l ≤ s.allocated) chain i (xs ++ ys)
              (let long : length (xs ++ (c ∷ ys)) ≤ s.allocated =
                  subst (λ l. length l ≤ s.allocated) e (w.short i) in
                omega (arith, long, length-middle xs c ys))
              (λ j ne. w.short j);
        clean = λ j. tags 0 j ∙ w.clean j;
        low = λ j h.
            put-each (λ k l. chain k ≡ [] → l ≡ []) chain i (xs ++ ys)
              (λ n. elim (subst (Mem c) (sym e ∙ n) (Mem-right xs here)) [ ]) (λ k ne n. n) j
              (w.low j h);
        counted =
            w.counted
            ∙ ap (λ l. length l % word_mod)
                (sym (lives 0) ∙ sym (live-SameTags s t (put chain i (xs ++ ys) 0) tags));
      } in
      record {
        list = list;
        tags = tags;
        lives = lives;
        subset = subset;
        kept = kept;
        refs = unlinked-refs s a i c gone;
        allocated = refl;
        max_height = refl;
        len = refl;
      }
