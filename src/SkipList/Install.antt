-- ===== src/SkipList/Install.antt =====
-- The list after a new node was installed at level 0.
use crossbeam.Prelude.{
  ℕ, ◌+◌, ◌%◌, ◌<◌, ◌≡◌, ◌≢◌, inl, inr, refl, sym, ◌∙◌, subst, true, false, List, arith, Bool-cases,
  word_mod, ℕ_discrete, ne→==, ==_refl,
}
use crossbeam.SkipList.Chain.{Mem, last}
use crossbeam.SkipList.Defs.{NodeRef, SkipList, null, to_node, set_level, is_removed, sub_len}
use crossbeam.SkipList.Insert.{alloc}
use crossbeam.SkipList.Invariant.{set_level-there, set_level-level, set_level-tower}
use crossbeam.SkipList.Unlink.{true_ne_false}
use crossbeam.SkipList.Walk.{link_to}
use crossbeam.SkipList.Mark.{IsMarked}

module _ {ℓ κ} {K : Type ℓ} {V : Type κ} where
  -- The state with the node made and installed, before another is marked.
  abbrev pub placed :
      SkipList K V → NodeRef K V → List (NodeRef K V) → List (NodeRef K V) → SkipList K V
  placed s n before after =
      set_level (set_level (alloc n.key n.value n.height s).1 n.address 0 (link_to after))
        (last 0 before) 0 (to_node n)

  -- What the links are then.
  pub record IsPut (s t : SkipList K V) (n : NodeRef K V) (before after : List (NodeRef K V))
      : Type (ℓ ⊔ κ) where
    pub into : t.links (last 0 before) 0 ≡ to_node n
    pub onto : t.links n.address 0 ≡ link_to after
    pub upper : (i : ℕ) → i ≢ 0 → t.links n.address i ≡ null
    pub levels : (a i : ℕ) → a ≢ n.address → i ≢ 0 → t.links a i ≡ s.links a i
    pub towers : (a : ℕ) → a ≢ n.address → a ≢ last 0 before → t.links a 0 ≡ s.links a 0
    pub refs : (a : ℕ) → a ≢ n.address → t.refs a ≡ s.refs a
    pub new_refs : 0 < t.refs n.address
    pub allocated : t.allocated ≡ s.allocated + 1
    pub max_height : t.max_height ≡ s.max_height
    pub len : t.len ≡ (s.len + 1) % word_mod

  pub placed-IsPut :
      (s : SkipList K V) (n : NodeRef K V) (before after : List (NodeRef K V))
      → n.address ≡ s.allocated + 1
      → last 0 before ≢ n.address
      → IsPut s (placed s n before after) n before after
  unfolding alloc set_level
  placed-IsPut s n before after e ne =
      let made : SkipList K V = (alloc n.key n.value n.height s).1 in
      let linked : SkipList K V = set_level made n.address 0 (link_to after) in
      record {
        into = set_level-there linked (last 0 before) 0 (to_node n);
        onto =
            set_level-tower linked (last 0 before) 0 (to_node n) n.address 0 (λ f. ne (sym f))
            ∙ set_level-there made n.address 0 (link_to after);
        upper = λ i ni.
            set_level-level linked (last 0 before) 0 (to_node n) n.address i ni
            ∙ (set_level-level made n.address 0 (link_to after) n.address i ni
                ∙ rw (e, ==_refl (s.allocated + 1)));
        levels = λ a i na ni.
            set_level-level linked (last 0 before) 0 (to_node n) a i ni
            ∙ (set_level-level made n.address 0 (link_to after) a i ni
                ∙ rw (ne→== a (s.allocated + 1) (λ f. na (f ∙ sym e))));
        towers = λ a na nl.
            set_level-tower linked (last 0 before) 0 (to_node n) a 0 nl
            ∙ (set_level-tower made n.address 0 (link_to after) a 0 na
                ∙ rw (ne→== a (s.allocated + 1) (λ f. na (f ∙ sym e))));
        refs = λ a na. rw (ne→== a (s.allocated + 1) (λ f. na (f ∙ sym e)));
        new_refs = rw (e, ==_refl (s.allocated + 1)) (omega arith);
        allocated = refl;
        max_height = refl;
        len = refl;
      }

  -- `u` is `t` with perhaps one node of the chains marked.
  pub record IsThen (t u : SkipList K V) (n : NodeRef K V) (chain : ℕ → List (NodeRef K V))
      : Type (ℓ ⊔ κ) where
    pub ptrs : (a i : ℕ) → (u.links a i).ptr ≡ (t.links a i).ptr
    pub grow : (x : NodeRef K V) → is_removed t x ≡ true → is_removed u x ≡ true
    pub was : (x : NodeRef K V) → is_removed u x ≡ false → is_removed t x ≡ false
    pub even :
        (i : ℕ) (x : NodeRef K V)
        → Mem x (chain i)
        → (t.links x.address i).tag ≡ (t.links x.address 0).tag
        → (u.links x.address i).tag ≡ (u.links x.address 0).tag
    pub new : is_removed u n ≡ is_removed t n
    pub head_tag : (i : ℕ) → (u.links 0 i).tag ≡ (t.links 0 i).tag
    pub refs : u.refs ≡ t.refs
    pub allocated : u.allocated ≡ t.allocated
    pub max_height : u.max_height ≡ t.max_height

  pub IsThen-refl :
      (t : SkipList K V) (n : NodeRef K V) (chain : ℕ → List (NodeRef K V)) → IsThen t t n chain
  IsThen-refl t n chain = record {
    ptrs = λ a i. refl;
    grow = λ x e. e;
    was = λ x e. e;
    even = λ i x m e. e;
    new = refl;
    head_tag = λ i. refl;
    refs = refl;
    allocated = refl;
    max_height = refl;
  }

  pub IsThen-marked :
      (t u : SkipList K V) (n r : NodeRef K V) (chain : ℕ → List (NodeRef K V))
      → IsMarked r r.height t u
      → 0 < r.height
      → n.address ≢ r.address
      → 0 ≢ r.address
      → ((i : ℕ) (x : NodeRef K V) → Mem x (chain i) → x.address ≡ r.address → i < r.height)
      → IsThen t (sub_len u) n chain
  IsThen-marked t u n r chain m pos ne nz known =
      let grow : (x : NodeRef K V) → is_removed t x ≡ true → is_removed u x ≡ true = λ x e.
        elim (ℕ_discrete x.address r.address) [
          | yes f ↦ subst (λ a. (u.links a 0).tag ≡ true) (sym f) (m.marked 0 pos)
          | no nf ↦ m.others x.address 0 nf ∙ e
        ] in
      record {
        ptrs = m.ptrs;
        grow = grow;
        was = λ x e. elim (Bool-cases (is_removed t x)) [
          | inl y ↦ true_ne_false (grow x y) e
          | inr f ↦ f
        ];
        even = λ i x k e. elim (ℕ_discrete x.address r.address) [
          | yes f ↦
              subst (λ a. (u.links a i).tag ≡ (u.links a 0).tag) (sym f)
                (m.marked i (known i x k f) ∙ sym (m.marked 0 pos))
          | no nf ↦ m.others x.address i nf ∙ (e ∙ sym (m.others x.address 0 nf))
        ];
        new = m.others n.address 0 ne;
        head_tag = λ i. m.others 0 i nz;
        refs = m.refs;
        allocated = m.allocated;
        max_height = m.max_height;
      }
