-- ===== src/SkipList/Result.antt =====
-- The result of a search, on its way down.
use crossbeam.Prelude.{
  ℕ, zero, suc, ◌≤◌, ◌≡◌, ◌⊎◌, inl, inr, refl, sym, ap, ◌∙◌, subst, Bool, true, false, Option, none,
  some, List, [], ◌∷◌, if◌then◌else◌, arith, Bool-cases, Option-cases,
}
use crossbeam.SkipList.Chain.{
  All, All-Mem, Mem, Mem-append, Mem-right, here, there, first, end, some_inj, Pairwise,
  Pairwise-right,
}
use crossbeam.SkipList.Compare.{Comparator}
use crossbeam.SkipList.Defs.{NodeRef, Link, SkipList, is_removed}
use crossbeam.SkipList.Search.{Walk, Verdict}
use crossbeam.SkipList.Invariant.{live, Before, IsSkipList}
use crossbeam.SkipList.Unlink.{true_ne_false}
use crossbeam.SkipList.Walk.{pick, IsPlace, Faces, IsWalked}
use crossbeam.SkipList.Find.{find_first, find_last, find, IsKind, find_first-passed, find_last-none}

module _ {ℓ κ} {K : Type ℓ} {V : Type κ} where
  first-Mem : (xs : List (NodeRef K V)) (x : NodeRef K V) → first xs ≡ some x → Mem x xs
  first-Mem [] x e = absurd (ground (arith, e))
  first-Mem (y ∷ ys) x e = subst (λ z. Mem z (y ∷ ys)) (some_inj e) here

  pick-cases :
      (judge : K → Verdict) (n r : Option (NodeRef K V)) (x : NodeRef K V)
      → pick judge n r ≡ some x
      → ((n ≡ some x) × ((judge x.key).take ≡ true)) ⊎ (r ≡ some x)
  pick-cases judge none r x e = inr e
  pick-cases judge (some y) r x e = elim (Bool-cases (judge y.key).take) [
    | inl t ↦
        let same : y ≡ x = some_inj (sym (ap (λ b. if b then some y else r) t) ∙ e) in
        inl (ap some same, subst (λ z. (judge z.key).take ≡ true) same t)
    | inr f ↦ inr (sym (ap (λ b. if b then some y else r) f) ∙ e)
  ]

module _ {ℓ κ} {K : Type ℓ} {V : Type κ} ⦃o : Comparator K⦄ where
  -- What its result is then.
  abbrev pub HasResult :
      Bool
      → (K → Verdict)
      → SkipList K V
      → (ℕ → List (NodeRef K V))
      → ℕ
      → Option (NodeRef K V)
      → Option (NodeRef K V)
      → Type (ℓ ⊔ κ)
  HasResult upper judge s chain zero m r = r ≡ find upper judge (live s (chain 0))
  HasResult true judge s chain (suc l) m r = r ≡ m
  HasResult false judge s chain (suc l) m r =
      (x : NodeRef K V)
      → r ≡ some x
      → (is_removed s x ≡ false) × ((judge x.key).take ≡ true) × Mem x (chain l)

  pub HasResult-none :
      (upper : Bool) (judge : K → Verdict) (s : SkipList K V) (chain : ℕ → List (NodeRef K V))
      (level : ℕ)
      → ((i : ℕ) → level ≤ i → chain i ≡ [])
      → HasResult upper judge s chain level none none
  unfolding find_first find_last
  HasResult-none true judge s chain zero empty =
      sym (ap (λ l. find_last judge (live s l)) (empty 0 (omega arith)))
  HasResult-none false judge s chain zero empty =
      sym (ap (λ l. find_first judge (live s l)) (empty 0 (omega arith)))
  HasResult-none true judge s chain (suc l) empty = refl
  HasResult-none false judge s chain (suc l) empty = λ x f. absurd (ground (arith, f))

  takes-first :
      (judge : K → Verdict) (s : SkipList K V) (y : NodeRef K V) (ys : List (NodeRef K V))
      (x : NodeRef K V)
      → IsKind judge false
      → All (Before s y) ys
      → (judge y.key).stop ≡ true
      → Mem x (y ∷ ys)
      → (judge x.key).take ≡ true
      → is_removed s x ≡ false
      → (judge y.key).take ≡ true
  takes-first judge s y ys x law sorted stop here t lives = t
  takes-first judge s y ys x law sorted stop (there m) t lives =
      elim (All-Mem (Before s y) m sorted) [
        | inl l ↦ law.1 y.key x.key (rw l) t stop
        | inr (_, gone) ↦ true_ne_false gone lives
      ]

  pick-after :
      (judge : K → Verdict) (s : SkipList K V) (ys : List (NodeRef K V)) (r : Option (NodeRef K V))
      → IsKind judge false
      → Pairwise (Before s) ys
      → All (λ x. (judge x.key).stop ≡ true) ys
      → ((x : NodeRef K V) → first ys ≡ some x → is_removed s x ≡ false)
      → ((x : NodeRef K V)
          → r ≡ some x
          → ((judge x.key).take ≡ true) × Mem x ys × (is_removed s x ≡ false))
      → pick judge (first ys) r ≡ find_first judge (live s ys)
  unfolding find_first
  pick-after judge s [] r law sorted ahead facing found = elim (Option-cases r) [
    | inl n ↦ n
    | inr (x, e) ↦ elim (found x e).1 [ ]
  ]
  pick-after judge s (y ∷ ys) r law sorted ahead facing found =
      elim (Bool-cases (judge y.key).take) [
        | inl t ↦ rw (facing y refl, find_first, ahead.0, t)
        | inr f ↦ elim (Option-cases r) [
          | inl n ↦ rw (facing y refl, find_first, ahead.0, f) n
          | inr (x, e) ↦
              true_ne_false
                (takes-first judge s y ys x law sorted.0 ahead.0 (found x e).1 (found x e).0
                  (found x e).2)
                f
        ]
      ]

  -- The node that a search took on the way down is the one where it stops at the lowest level.
  pub pick-find_first :
      (judge : K → Verdict) (s : SkipList K V) (chain : ℕ → List (NodeRef K V)) (left : ℕ)
      (right : Link K V) (r : Option (NodeRef K V))
      → IsKind judge false
      → IsSkipList s chain
      → (p : IsPlace judge s chain 0 left right) → Faces s right
      → ((x : NodeRef K V)
          → r ≡ some x
          → (is_removed s x ≡ false) × ((judge x.key).take ≡ true) × Mem x (chain 0))
      → pick judge (first p.after) r ≡ find_first judge (live s (chain 0))
  pick-find_first judge s chain left right r law w p faces found =
      pick-after judge s p.after r law
        (Pairwise-right (Before s) p.before p.after
          (subst (Pairwise (Before s)) p.split (w.sorted 0)))
        p.ahead (λ x e. faces x (ap (λ l. l.ptr) p.next ∙ e))
        (λ x e.
          let (lives, t, m) = found x e in
          (
            t,
            elim (Mem-append p.before (subst (Mem x) p.split m)) [
              | inl b ↦
                  true_ne_false (law.0 x.key t)
                    (All-Mem (λ z. (judge z.key).stop ≡ false) b p.passed)
              | inr a ↦ a
            ],
            lives,
          ))
      ∙ sym (
          ap (λ l. find_first judge (live s l)) p.split
          ∙ find_first-passed judge s p.before p.after p.passed)

  -- The result at the end of a level, for each kind.
  HasResult-last :
      (judge : K → Verdict) (s : SkipList K V) (chain : ℕ → List (NodeRef K V)) (l : ℕ)
      (m r : Option (NodeRef K V)) (xs : List (NodeRef K V)) (run : Option (Walk K V))
      → IsKind judge true
      → r ≡ m
      → end xs ≡ m
      → (k : IsWalked judge s chain l xs r run)
      → HasResult true judge k.cursor.list k.rest l (end k.place.before) k.cursor.result
  HasResult-last judge s chain zero m r xs run law e f k =
      k.last_found law (e ∙ sym f)
      ∙ sym (
          ap (λ l. find_last judge (live k.cursor.list l)) k.place.split
          ∙ find_last-none judge k.cursor.list k.place.before k.place.after k.place.passed
              k.place.ahead k.place.standing)
  HasResult-last judge s chain (suc l) m r xs run law e f k = k.last_found law (e ∙ sym f)

  HasResult-first :
      (judge : K → Verdict) (s : SkipList K V) (chain : ℕ → List (NodeRef K V)) (l : ℕ)
      (m r : Option (NodeRef K V)) (xs : List (NodeRef K V)) (run : Option (Walk K V))
      → IsKind judge false
      → HasResult false judge s chain (suc l) m r
      → (k : IsWalked judge s chain l xs r run)
      → HasResult false judge k.cursor.list k.rest l (end k.place.before) k.cursor.result
  HasResult-first judge s chain zero m r xs run law found k =
      k.first_found law.0
      ∙ pick-find_first judge k.cursor.list k.rest k.cursor.pred k.cursor.curr r law k.tidied.list
          k.place k.faces
          (λ x e.
            let (lives, t, m) = found x e in
            (k.tidied.tags x.address 0 ∙ lives, t, k.tidied.kept 0 x m lives))
  HasResult-first judge s chain (suc l) m r xs run law found k = λ x e.
      elim (pick-cases judge (first k.place.after) r x (sym (k.first_found law.0) ∙ e)) [
        | inl (here_now, t) ↦
            let lives : is_removed k.cursor.list x ≡ false =
              k.faces x (ap (λ l. l.ptr) k.place.next ∙ here_now) in
            (
              lives,
              t,
              k.tidied.list.nested l x
                  (subst (Mem x) (sym k.place.split)
                    (Mem-right k.place.before (first-Mem k.place.after x here_now)))
                  lives,
            )
        | inr old ↦
            let (lives, t, m) = found x old in
            let alive : is_removed k.cursor.list x ≡ false = k.tidied.tags x.address 0 ∙ lives in
            (alive, t, k.tidied.list.nested l x (k.tidied.kept (suc l) x m lives) alive)
      ]

  pub HasResult-walked :
      (upper : Bool) (judge : K → Verdict) (s : SkipList K V) (chain : ℕ → List (NodeRef K V))
      (l : ℕ) (m r : Option (NodeRef K V)) (xs : List (NodeRef K V)) (run : Option (Walk K V))
      → IsKind judge upper
      → HasResult upper judge s chain (suc l) m r
      → end xs ≡ m
      → (k : IsWalked judge s chain l xs r run)
      → HasResult upper judge k.cursor.list k.rest l (end k.place.before) k.cursor.result
  HasResult-walked true judge s chain l m r xs run law e f k =
      HasResult-last judge s chain l m r xs run law e f k
  HasResult-walked false judge s chain l m r xs run law e f k =
      HasResult-first judge s chain l m r xs run law e k
