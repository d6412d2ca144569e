-- ===== src/SkipList/Start.antt =====
-- Where a search starts on a level.
use crossbeam.Prelude.{
  ℕ, zero, suc, ◌≡◌, inl, inr, refl, sym, ◌∙◌, subst, false, Option, none, some, List, [], ◌∷◌,
  ◌++◌, arith, Bool-cases,
}
use mathlib.Core.List.{append_assoc}
use crossbeam.SkipList.Chain.{
  All, All-Mem, All-append, Mem, Mem-split, Mem-left, Mem-right, here, last, last-append, end,
  end-snoc, end-Mem, some_inj, Pairwise,
}
use crossbeam.SkipList.Compare.{Comparator}
use crossbeam.SkipList.Defs.{NodeRef, Link, SkipList, is_removed}
use crossbeam.SkipList.Search.{Verdict}
use crossbeam.SkipList.Invariant.{Before, IsNode, IsSkipList}
use crossbeam.SkipList.Unlink.{true_ne_false}
use crossbeam.SkipList.Walk.{IsPlace}
use crossbeam.SkipList.Find.{IsMonotone}

module _ {ℓ κ} {K : Type ℓ} {V : Type κ} ⦃o : Comparator K⦄ where
  -- Where a search over the levels below `level` starts: at the node `m`, or at the head.
  abbrev pub StandsAt :
      (K → Verdict)
      → SkipList K V
      → (ℕ → List (NodeRef K V))
      → ℕ
      → Option (NodeRef K V)
      → Type (ℓ ⊔ κ)
  StandsAt judge s chain zero m = Unit
  StandsAt judge s chain (suc l) m =
      (x : NodeRef K V)
      → m ≡ some x
      → (is_removed s x ≡ false) × ((judge x.key).stop ≡ false) × Mem x (chain l)

  -- A search starts at the head, without a result.
  pub StandsAt-none :
      (judge : K → Verdict) (s : SkipList K V) (chain : ℕ → List (NodeRef K V)) (level : ℕ)
      → StandsAt judge s chain level none
  StandsAt-none judge s chain zero = tt
  StandsAt-none judge s chain (suc l) = λ x f. absurd (ground (arith, f))

  -- The part of a level's chain before a search's start.
  pub record IsStart (judge : K → Verdict) (s : SkipList K V) (chain : ℕ → List (NodeRef K V))
      (l : ℕ) (m : Option (NodeRef K V)) : Type (ℓ ⊔ κ) where
    pub xs : List (NodeRef K V)
    pub ys : List (NodeRef K V)
    pub split : chain l ≡ xs ++ ys
    pub passed : All (λ x. (judge x.key).stop ≡ false) xs
    pub ends : end xs ≡ m
    pub unmarked : (s.links (last 0 xs) l).tag ≡ false
    pub standing : (x : NodeRef K V) → end xs ≡ some x → is_removed s x ≡ false

  passed_earlier :
      (judge : K → Verdict) (s : SkipList K V) (xs : List (NodeRef K V)) (x : NodeRef K V)
      (ys : List (NodeRef K V))
      → IsMonotone judge
      → Pairwise (Before s) (xs ++ (x ∷ ys))
      → (judge x.key).stop ≡ false
      → is_removed s x ≡ false
      → All (λ y. (judge y.key).stop ≡ false) xs
  passed_earlier judge s [] x ys mono p f lives = tt
  passed_earlier judge s (y ∷ xs) x ys mono p f lives = (
    elim (All-Mem (Before s y) (Mem-right xs here) p.0) [
      | inl l ↦ elim (Bool-cases (judge y.key).stop) [
        | inl e ↦ true_ne_false (mono y.key x.key (rw l) e) f
        | inr n ↦ n
      ]
      | inr (_, gone) ↦ true_ne_false gone lives
    ],
    passed_earlier judge s xs x ys mono p.1 f lives,
  )

  pub start :
      (judge : K → Verdict) (s : SkipList K V) (chain : ℕ → List (NodeRef K V)) (l : ℕ)
      (m : Option (NodeRef K V))
      → IsMonotone judge
      → IsSkipList s chain
      → StandsAt judge s chain (suc l) m
      → IsStart judge s chain l m
  start judge s chain l none mono w st = record {
    xs = [];
    ys = chain l;
    split = refl;
    passed = tt;
    ends = refl;
    unmarked = w.clean l;
    standing = λ x f. absurd (ground (arith, f));
  }
  start judge s chain l (some x) mono w st =
      let (lives, passes, m) = st x refl in
      let (before, after, e) = Mem-split m in
      let marked : (s.links x.address l).tag ≡ false =
        let node : IsNode s l x = All-Mem (IsNode s l) m (w.nodes l) in node.marked ∙ lives in
      record {
        xs = before ++ (x ∷ []);
        ys = after;
        split = e ∙ sym (append_assoc before (x ∷ []) after);
        passed =
            All-append (λ z. (judge z.key).stop ≡ false) before (x ∷ [])
              (passed_earlier judge s before x after mono
                (subst (Pairwise (Before s)) e (w.sorted l)) passes lives)
              (passes, tt);
        ends = end-snoc before x;
        unmarked =
            subst (λ a. (s.links a l).tag ≡ false) (sym (last-append 0 before (x ∷ []))) marked;
        standing = λ z f.
            subst (λ u. is_removed s u ≡ false) (some_inj (sym (end-snoc before x) ∙ f)) lives;
      }

  -- The node where a level ends is where the next one starts.
  pub StandsAt-walked :
      (l : ℕ) (judge : K → Verdict) (t : SkipList K V) (rest : ℕ → List (NodeRef K V)) (left : ℕ)
      (right : Link K V)
      → IsSkipList t rest
      → (p : IsPlace judge t rest l left right) → StandsAt judge t rest l (end p.before)
  StandsAt-walked zero judge t rest left right w p = tt
  StandsAt-walked (suc l) judge t rest left right w p = λ x e.
      let inside : Mem x p.before = end-Mem p.before x e in
      let lives : is_removed t x ≡ false = p.standing x e in
      (
        lives,
        All-Mem (λ z. (judge z.key).stop ≡ false) inside p.passed,
        w.nested l x (subst (Mem x) (sym p.split) (Mem-left p.after inside)) lives,
      )
