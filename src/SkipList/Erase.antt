-- ===== src/SkipList/Erase.antt =====
-- The live nodes without the one with a key.
use Prim.Native.Nat.Ordering.{lt, eq}
use crossbeam.Prelude.{
  ℕ, ◌+◌, ◌^◌, ◌<◌, ◌≤◌, ◌≡◌, inl, inr, refl, sym, ap, ◌∙◌, subst, true, false, none, some, List,
  [], ◌∷◌, ◌++◌, if◌then◌else◌, arith, Bool-cases,
}
use crossbeam.SkipList.Chain.{
  All-Mem, All-imp, Mem, Mem-cons, Mem-split, Mem-right, here, there, Pairwise, some_inj, Apart,
}
use crossbeam.SkipList.Compare.{Comparator, equivalent}
use crossbeam.SkipList.Defs.{NodeRef, SkipList, is_removed, set_refs, try_increment}
use crossbeam.SkipList.Invariant.{live, Before, IsNode, IsSkipList}
use crossbeam.SkipList.Unlink.{true_ne_false}
use crossbeam.SkipList.Mark.{IsMarked, live-marked}
use crossbeam.SkipList.Lookup.{lookup}

module _ {ℓ κ} {K : Type ℓ} {V : Type κ} ⦃o : Comparator K⦄ where
  -- Some nodes without the first that has an equivalent key.
  abbrev pub erase : K → List (NodeRef K V) → List (NodeRef K V)
  erase key [] = []
  erase key (x ∷ xs) = if equivalent x.key key then xs else x ∷ erase key xs

  pub erase-missing : (key : K) (xs : List (NodeRef K V)) → lookup key xs ≡ none → erase key xs ≡ xs
  erase-missing key [] e = refl
  erase-missing key (x ∷ xs) e = ground (arith, e, erase-missing key xs)

  pub lookup-Mem :
      (key : K) (xs : List (NodeRef K V)) (n : NodeRef K V)
      → lookup key xs ≡ some n
      → Mem n xs × (equivalent n.key key ≡ true)
  lookup-Mem key [] n e = absurd (ground (arith, e))
  lookup-Mem key (x ∷ xs) n e = elim (Bool-cases (equivalent x.key key)) [
    | inl t ↦
        let same : x ≡ n = some_inj (sym (ap (λ b. if b then some x else lookup key xs) t) ∙ e) in
        subst (λ z. Mem z (x ∷ xs) × (equivalent z.key key ≡ true)) same (here, t)
    | inr f ↦
        let (m, q) =
          lookup-Mem key xs n (sym (ap (λ b. if b then some x else lookup key xs) f) ∙ e) in
        (there m, q)
  ]

  pub live-Mem :
      (s : SkipList K V) (xs : List (NodeRef K V)) (n : NodeRef K V)
      → Mem n (live s xs)
      → Mem n xs × (is_removed s n ≡ false)
  live-Mem s [] n m = elim m [ ]
  live-Mem s (x ∷ xs) n m = elim (Bool-cases (is_removed s x)) [
    | inl gone ↦
        let (k, f) =
          live-Mem s xs n (subst (λ b. Mem n (if b then live s xs else x ∷ live s xs)) gone m) in
        (there k, f)
    | inr lives ↦
        elim (Mem-cons (subst (λ b. Mem n (if b then live s xs else x ∷ live s xs)) lives m)) [
          | inl e ↦ subst (λ z. Mem z (x ∷ xs) × (is_removed s z ≡ false)) (sym e) (here, lives)
          | inr k ↦ let (j, f) = live-Mem s xs n k in (there j, f)
        ]
  ]

  erase-middle :
      (key : K) (s : SkipList K V) (xs : List (NodeRef K V)) (n : NodeRef K V)
      (ys zs : List (NodeRef K V))
      → equivalent n.key key ≡ true
      → is_removed s n ≡ false
      → Pairwise (Before s) (xs ++ (n ∷ ys))
      → erase key (live s xs ++ (n ∷ zs)) ≡ live s xs ++ zs
  erase-middle key s [] n ys zs q lives p = rw q
  erase-middle key s (x ∷ xs) n ys zs q lives p =
      let rest : erase key (live s xs ++ (n ∷ zs)) ≡ live s xs ++ zs =
        erase-middle key s xs n ys zs q lives p.1 in
      let less : o.compare x.key n.key ≡ lt = elim (All-Mem (Before s x) (Mem-right xs here) p.0) [
        | inl l ↦ l
        | inr (_, gone) ↦ true_ne_false gone lives
      ] in
      let same : o.compare n.key key ≡ eq = ground (arith, q) in
      let other : equivalent x.key key ≡ false =
        let turn : o.compare key x.key ≡ o.compare n.key x.key =
          sym (o.eq_left n.key key x.key same) in
        ground (arith, turn, less, o.flip x.key n.key, o.flip key x.key) in
      elim (Bool-cases (is_removed s x)) [
        | inl gone ↦ rw gone rest
        | inr here_too ↦ rw (here_too, other, rest)
      ]

  -- Marking a live node takes it away from the live nodes.
  pub live-erase :
      (key : K) (n : NodeRef K V) (s t : SkipList K V) (chain : ℕ → List (NodeRef K V))
      → IsSkipList s chain
      → Mem n (chain 0)
      → is_removed s n ≡ false
      → equivalent n.key key ≡ true
      → IsMarked n n.height s t
      → live t (chain 0) ≡ erase key (live s (chain 0))
  live-erase key n s t chain w inside lives q m =
      let node : IsNode s 0 n = All-Mem (IsNode s 0) inside (w.nodes 0) in
      let (xs, ys, e) = Mem-split inside in
      let (now, before) =
        live-marked n n.height s t xs ys node.tall lives m (subst (Apart 0) e (w.apart 0)) in
      ap (live t) e
      ∙ (now
          ∙ sym (
              ap (erase key) (ap (live s) e ∙ before)
              ∙ erase-middle key s xs n ys (live s ys) q lives
                  (subst (Pairwise (Before s)) e (w.sorted 0))))

  -- No reference count comes near the end of its word.
  abbrev pub HasRoom : SkipList K V → Type 0
  HasRoom s = (a : ℕ) → s.refs a < 2 ^ 58

  pub try_increment-succeeds :
      (s : SkipList K V) (n : NodeRef K V)
      → 0 < s.refs n.address
      → s.refs n.address < 2 ^ 58
      → n.height ≤ 32
      → try_increment s n ≡ some (true, set_refs s n.address (s.refs n.address + 1))
  unfolding try_increment
  try_increment-succeeds s n pos room low = ground (arith, pos, room, low)

  pub set_refs-IsSkipList :
      (s : SkipList K V) (chain : ℕ → List (NodeRef K V)) (a r : ℕ)
      → IsSkipList s chain
      → 0 < r
      → IsSkipList (set_refs s a r) chain
  set_refs-IsSkipList s chain a r w pos = record {
    linked = w.linked;
    apart = w.apart;
    sorted = w.sorted;
    nodes = λ i. All-imp (λ x k. set_refs-IsNode s a r i x pos k) (chain i) (w.nodes i);
    nested = w.nested;
    one = w.one;
    short = w.short;
    clean = w.clean;
    low = w.low;
    counted = w.counted;
  }
    where
      set_refs-IsNode :
          (s : SkipList K V) (a r i : ℕ) (x : NodeRef K V)
          → 0 < r
          → IsNode s i x
          → IsNode (set_refs s a r) i x
      set_refs-IsNode s a r i x pos k = record {
        made = k.made;
        tall = k.tall;
        limit = k.limit;
        marked = k.marked;
        held = λ alive. ground (arith, pos, k.held alive);
      }
