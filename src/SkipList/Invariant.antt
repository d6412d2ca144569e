-- ===== src/SkipList/Invariant.antt =====
-- Well-formed skip lists.
use Prim.Native.Nat.Ordering.{lt, eq}
use crossbeam.Prelude.{
  ℕ, suc, ◌%◌, ◌<◌, ◌≤◌, ◌≡◌, ◌≢◌, ◌⊎◌, refl, sym, ap, ◌∙◌, subst, true, false, List, [], ◌∷◌, ◌++◌,
  if◌then◌else◌, length, arith, ==_refl, ne→==, ℕ_discrete, eq→==, word_mod,
}
use crossbeam.SkipList.Chain.{All, Mem, Linked, Apart, Pairwise}
use crossbeam.SkipList.Compare.{Comparator}
use crossbeam.SkipList.Defs.{NodeRef, Link, SkipList, set_level, is_removed, max_tower}

module _ {ℓ κ} {K : Type ℓ} {V : Type κ} where
  -- The nodes of a chain that are not removed.
  abbrev pub live : SkipList K V → List (NodeRef K V) → List (NodeRef K V)
  live s [] = []
  live s (x ∷ xs) = if is_removed s x then live s xs else x ∷ live s xs

  abbrev pub SameTags : SkipList K V → SkipList K V → Type 0
  SameTags s t = (a i : ℕ) → (t.links a i).tag ≡ (s.links a i).tag

  pub live-SameTags :
      (s t : SkipList K V) (xs : List (NodeRef K V)) → SameTags s t → live t xs ≡ live s xs
  live-SameTags s t [] same = refl
  live-SameTags s t (x ∷ xs) same = rw (same x.address 0, live-SameTags s t xs same)

  pub live-append :
      (s : SkipList K V) (xs ys : List (NodeRef K V)) → live s (xs ++ ys) ≡ live s xs ++ live s ys
  live-append s [] ys = refl
  live-append s (x ∷ xs) ys = ground (arith, live-append s xs ys)

  pub live-skip :
      (s : SkipList K V) (xs : List (NodeRef K V)) (c : NodeRef K V) (ys : List (NodeRef K V))
      → is_removed s c ≡ true
      → live s (xs ++ (c ∷ ys)) ≡ live s (xs ++ ys)
  live-skip s [] c ys r = rw r
  live-skip s (x ∷ xs) c ys r = ground (arith, live-skip s xs c ys r)

  -- The store changes one link.
  pub set_level-there :
      (s : SkipList K V) (a i : ℕ) (l : Link K V) → (set_level s a i l).links a i ≡ l
  unfolding set_level
  set_level-there s a i l = rw (==_refl a, ==_refl i)

  pub set_level-level :
      (s : SkipList K V) (a i : ℕ) (l : Link K V) (b j : ℕ)
      → j ≢ i
      → (set_level s a i l).links b j ≡ s.links b j
  unfolding set_level
  set_level-level s a i l b j ne = elim (ℕ_discrete b a) [
    | yes e ↦ rw (eq→== b a e, ne→== j i ne, e)
    | no n ↦ rw (ne→== b a n)
  ]

  pub set_level-tower :
      (s : SkipList K V) (a i : ℕ) (l : Link K V) (b j : ℕ)
      → b ≢ a
      → (set_level s a i l).links b j ≡ s.links b j
  unfolding set_level
  set_level-tower s a i l b j ne = rw (ne→== b a ne)

  pub set_level-SameTags :
      (s : SkipList K V) (a i : ℕ) (l : Link K V)
      → l.tag ≡ (s.links a i).tag
      → SameTags s (set_level s a i l)
  set_level-SameTags s a i l e b j = elim (ℕ_discrete j i) [
    | no n ↦ ap (λ m. m.tag) (set_level-level s a i l b j n)
    | yes same ↦ elim (ℕ_discrete b a) [
      | no n ↦ ap (λ m. m.tag) (set_level-tower s a i l b j n)
      | yes too ↦
          subst (λ k. ((set_level s a i l).links b k).tag ≡ (s.links b k).tag) (sym same)
            (subst (λ c. ((set_level s a i l).links c i).tag ≡ (s.links c i).tag) (sym too)
              (ap (λ m. m.tag) (set_level-there s a i l) ∙ e))
    ]
  ]

  -- What a node of the chain of level `i` is.
  pub record IsNode (s : SkipList K V) (i : ℕ) (x : NodeRef K V) : Type 0 where
    pub made : x.address ≤ s.allocated
    pub tall : i < x.height
    pub limit : x.height ≤ max_tower
    pub marked : (s.links x.address i).tag ≡ (s.links x.address 0).tag
    pub held : is_removed s x ≡ false → 0 < s.refs x.address

module _ {ℓ κ} {K : Type ℓ} {V : Type κ} ⦃o : Comparator K⦄ where
  -- The order of a chain: keys do not descend, and of equal ones all but the first are removed.
  abbrev pub Before : SkipList K V → NodeRef K V → NodeRef K V → Type 0
  Before s x y =
      (o.compare x.key y.key ≡ lt) ⊎ ((o.compare x.key y.key ≡ eq) × (is_removed s y ≡ true))

  pub record IsSkipList (s : SkipList K V) (chain : ℕ → List (NodeRef K V)) : Type (ℓ ⊔ κ) where
    pub linked : (i : ℕ) → Linked s i 0 (chain i)
    pub apart : (i : ℕ) → Apart 0 (chain i)
    pub sorted : (i : ℕ) → Pairwise (Before s) (chain i)
    pub nodes : (i : ℕ) → All (IsNode s i) (chain i)
    pub nested :
        (i : ℕ) (x : NodeRef K V) → Mem x (chain (suc i)) → is_removed s x ≡ false → Mem x (chain i)
    pub one :
        (i j : ℕ) (x y : NodeRef K V)
        → Mem x (chain i)
        → Mem y (chain j)
        → x.address ≡ y.address
        → x ≡ y
    pub short : (i : ℕ) → length (chain i) ≤ s.allocated
    pub clean : (i : ℕ) → (s.links 0 i).tag ≡ false
    pub low : (i : ℕ) → s.max_height ≤ i → chain i ≡ []
    pub counted : s.len ≡ length (live s (chain 0)) % word_mod

  -- `t` is `s` with some removed nodes unlinked.
  pub record IsTidied (s : SkipList K V) (chain : ℕ → List (NodeRef K V)) (t : SkipList K V)
      (rest : ℕ → List (NodeRef K V)) : Type (ℓ ⊔ κ) where
    pub list : IsSkipList t rest
    pub tags : SameTags s t
    pub lives : (i : ℕ) → live s (rest i) ≡ live s (chain i)
    pub subset : (i : ℕ) (x : NodeRef K V) → Mem x (rest i) → Mem x (chain i)
    pub kept : (i : ℕ) (x : NodeRef K V) → Mem x (chain i) → is_removed s x ≡ false → Mem x (rest i)
    pub refs : (a : ℕ) → (s.links a 0).tag ≡ false → t.refs a ≡ s.refs a
    pub allocated : t.allocated ≡ s.allocated
    pub max_height : t.max_height ≡ s.max_height
    pub len : t.len ≡ s.len

  pub IsTidied-refl :
      (s : SkipList K V) (chain : ℕ → List (NodeRef K V))
      → IsSkipList s chain
      → IsTidied s chain s chain
  IsTidied-refl s chain i = record {
    list = i;
    tags = λ a j. refl;
    lives = λ j. refl;
    subset = λ j x m. m;
    kept = λ j x m e. m;
    refs = λ a e. refl;
    allocated = refl;
    max_height = refl;
    len = refl;
  }

  pub IsTidied-trans :
      (s t u : SkipList K V) (c d e : ℕ → List (NodeRef K V))
      → IsTidied s c t d
      → IsTidied t d u e
      → IsTidied s c u e
  IsTidied-trans s t u c d e p q = record {
    list = q.list;
    tags = λ a i. q.tags a i ∙ p.tags a i;
    lives = λ i.
        sym (live-SameTags s t (e i) p.tags)
        ∙ (q.lives i ∙ (live-SameTags s t (d i) p.tags ∙ p.lives i));
    subset = λ i x m. p.subset i x (q.subset i x m);
    kept = λ i x m f. q.kept i x (p.kept i x m f) (p.tags x.address 0 ∙ f);
    refs = λ a f. q.refs a (p.tags a 0 ∙ f) ∙ p.refs a f;
    allocated = q.allocated ∙ p.allocated;
    max_height = q.max_height ∙ p.max_height;
    len = q.len ∙ p.len;
  }
