-- ===== src/SkipList/Fresh.antt =====
-- The nodes of a list after a new node was installed at level 0.
use Prim.Native.Nat.Ordering.{lt, eq, gt}
use crossbeam.Prelude.{
  ℕ, ◌+◌, ◌%◌, ◌<◌, ◌≤◌, ◌≡◌, ◌≢◌, inl, inr, refl, sym, ap, ◌∙◌, subst, false, List, [], ◌∷◌, ◌++◌,
  if◌then◌else◌, length, arith, Bool-cases, word_mod, ℕ_discrete,
}
use crossbeam.SkipList.Chain.{All, All-Mem, last}
use crossbeam.SkipList.Compare.{Comparator}
use crossbeam.SkipList.Defs.{NodeRef, SkipList, is_removed, max_tower}
use crossbeam.SkipList.Invariant.{live, live-append, Before, IsNode, IsSkipList}
use crossbeam.SkipList.Enter.{IsFresh}
use crossbeam.SkipList.Install.{IsPut, IsThen}

module _ {ℓ κ} {K : Type ℓ} {V : Type κ} where
  -- Lists on whose nodes two states agree.
  pub live-agree :
      (s t : SkipList K V) (xs : List (NodeRef K V))
      → All (λ x. is_removed t x ≡ is_removed s x) xs
      → live t xs ≡ live s xs
  live-agree s t [] a = refl
  live-agree s t (x ∷ xs) a = rw (a.0, live-agree s t xs a.1)

module _ {ℓ κ} {K : Type ℓ} {V : Type κ} ⦃o : Comparator K⦄ where
  -- `n` in its place among ascending keys, instead of the node with an equivalent key.
  abbrev pub enter : NodeRef K V → List (NodeRef K V) → List (NodeRef K V)
  enter n [] = n ∷ []
  enter n (x ∷ xs) = elim (o.compare x.key n.key) [
    | lt ↦ x ∷ enter n xs
    | eq ↦ n ∷ xs
    | gt ↦ n ∷ x ∷ xs
  ]

  pub enter-live :
      (n : NodeRef K V) (s : SkipList K V) (xs zs : List (NodeRef K V))
      → All (λ x. o.compare x.key n.key ≡ lt) xs
      → enter n (live s xs ++ zs) ≡ live s xs ++ enter n zs
  enter-live n s [] zs a = refl
  enter-live n s (x ∷ xs) zs a = elim (Bool-cases (is_removed s x)) [
    | inl gone ↦ rw gone (enter-live n s xs zs a.1)
    | inr lives ↦ rw (lives, a.0, enter-live n s xs zs a.1)
  ]

  -- What is known of a node before it is installed.
  pub record IsNew (s : SkipList K V) (n : NodeRef K V) (before : List (NodeRef K V))
      : Type (ℓ ⊔ κ) where
    pub address : n.address ≡ s.allocated + 1
    pub some_tower : 0 < n.height
    pub limit : n.height ≤ max_tower
    pub low : n.height ≤ s.max_height
    pub before_new : All (λ x. o.compare x.key n.key ≡ lt) before
    pub off : last 0 before ≢ n.address
    pub unmarked : (s.links (last 0 before) 0).tag ≡ false

  pub put-tag :
      (s t : SkipList K V) (n : NodeRef K V) (before after : List (NodeRef K V))
      → IsPut s t n before after
      → (s.links (last 0 before) 0).tag ≡ false
      → (a : ℕ) → a ≢ n.address
      → (t.links a 0).tag ≡ (s.links a 0).tag
  put-tag s t n before after k f a na = elim (ℕ_discrete a (last 0 before)) [
    | no nl ↦ ap (λ l. l.tag) (k.towers a na nl)
    | yes e ↦
        subst (λ b. (t.links b 0).tag ≡ (s.links b 0).tag) (sym e) (ap (λ l. l.tag) k.into ∙ sym f)
  ]

  pub IsFresh-put :
      (s t u : SkipList K V) (chain : ℕ → List (NodeRef K V)) (n : NodeRef K V)
      (before after : List (NodeRef K V))
      → IsSkipList s chain
      → IsPut s t n before after
      → IsThen t u n chain
      → IsNew s n before
      → All (Before u n) after
      → u.len ≡ length (live u (before ++ (n ∷ after))) % word_mod
      → IsFresh s u chain n before after
  IsFresh-put s t u chain n before after w k h new order counted =
      let tag : (a : ℕ) → a ≢ n.address → (t.links a 0).tag ≡ (s.links a 0).tag =
        put-tag s t n before after k new.unmarked in
      let level_tag : (a i : ℕ) → a ≢ n.address → (t.links a i).tag ≡ (s.links a i).tag = λ a i na.
        elim (ℕ_discrete i 0) [
          | yes e ↦ subst (λ j. (t.links a j).tag ≡ (s.links a j).tag) (sym e) (tag a na)
          | no ni ↦ ap (λ l. l.tag) (k.levels a i na ni)
        ] in
      record {
        installed = record {
          into = h.ptrs (last 0 before) 0 ∙ ap (λ l. l.ptr) k.into;
          onto = h.ptrs n.address 0 ∙ ap (λ l. l.ptr) k.onto;
          others = λ a na nl. h.ptrs a 0 ∙ ap (λ l. l.ptr) (k.towers a na nl);
        };
        ptrs = λ a i ni na. h.ptrs a i ∙ ap (λ l. l.ptr) (k.levels a i na ni);
        grow = λ x na e. h.grow x (tag x.address na ∙ e);
        was = λ x na e. sym (tag x.address na) ∙ h.was x e;
        even = λ i x na m. h.even i x m (
            level_tag x.address i na
            ∙ ((let node : IsNode s i x = All-Mem (IsNode s i) m (w.nodes i) in node.marked)
                ∙ sym (tag x.address na)));
        new_live = h.new ∙ ap (λ l. l.tag) k.onto;
        clean =
            λ i. h.head_tag i ∙ (level_tag 0 i (λ e. omega (arith, e, new.address)) ∙ w.clean i);
        refs = λ a na. ap (λ r. r a) h.refs ∙ k.refs a na;
        new_refs = subst (λ r. 0 < r n.address) (sym h.refs) k.new_refs;
        address = new.address;
        allocated = h.allocated ∙ k.allocated;
        max_height = h.max_height ∙ k.max_height;
        before_new = new.before_new;
        after_new = order;
        counted = counted;
        some_tower = new.some_tower;
        limit = new.limit;
        low = new.low;
      }

  -- The live nodes around the new one.
  pub live-entered :
      (s u : SkipList K V) (n : NodeRef K V) (before after : List (NodeRef K V))
      → is_removed u n ≡ false
      → All (λ x. is_removed u x ≡ is_removed s x) before
      → live u (before ++ (n ∷ after)) ≡ live s before ++ (n ∷ live u after)
  live-entered s u n before after f a =
      live-append u before (n ∷ after)
      ∙ (ap (λ l. l ++ live u (n ∷ after)) (live-agree s u before a)
          ∙ ap (λ b. live s before ++ (if b then live u after else n ∷ live u after)) f)
