-- ===== src/SkipList/Enter.antt =====
-- Chains that a new node enters.
use Prim.Native.Nat.Ordering.{lt}
use crossbeam.Prelude.{
  ℕ, suc, ◌+◌, ◌%◌, ◌<◌, ◌≤◌, ◌≡◌, ◌≢◌, ◌⊎◌, inl, inr, refl, sym, ap, ◌∙◌, subst, true, false, some,
  List, [], ◌∷◌, ◌++◌, length, arith, word_mod,
}
use crossbeam.SkipList.Chain.{
  All, All-Mem, All-each, All-imp, Mem, Mem-insert, Mem-middle, there, Linked, Linked-elsewhere,
  Apart, Avoids, Apart-Avoids, Pairwise, last, first, length-middle,
}
use crossbeam.SkipList.Compare.{Comparator}
use crossbeam.SkipList.Defs.{NodeRef, SkipList, put, is_removed, max_tower}
use crossbeam.SkipList.Invariant.{live, IsNode, Before, IsSkipList}
use crossbeam.SkipList.Unlink.{put-each, put-there, put-elsewhere}

module _ {ℓ κ} {K : Type ℓ} {V : Type κ} where
  pub All-insert {μ} :
      (P : NodeRef K V → Type μ) (xs : List (NodeRef K V)) (n : NodeRef K V)
      (ys : List (NodeRef K V))
      → All P (xs ++ ys)
      → P n
      → All P (xs ++ (n ∷ ys))
  All-insert P [] n ys a p = (p, a)
  All-insert P (x ∷ xs) n ys a p = (a.0, All-insert P xs n ys a.1 p)

  Apart-cons :
      (n : NodeRef K V) (ys : List (NodeRef K V)) (a : ℕ)
      → Avoids n.address ys
      → Apart a ys
      → Apart n.address ys
  Apart-cons n [] a av d = tt
  Apart-cons n (y ∷ ys) a av d = (av, d.1)

  pub Apart-insert :
      (a : ℕ) (xs : List (NodeRef K V)) (n : NodeRef K V) (ys : List (NodeRef K V))
      → a ≢ n.address
      → Avoids n.address (xs ++ ys)
      → Apart a (xs ++ ys)
      → Apart a (xs ++ (n ∷ ys))
  Apart-insert a [] n [] ne av d = ((ne, tt), tt)
  Apart-insert a [] n (y ∷ ys) ne av d = ((ne, d.0), Apart-cons n (y ∷ ys) a av d)
  Apart-insert a (x ∷ xs) n ys ne av d = (
    All-insert (λ z. a ≢ z.address) (x ∷ xs) n ys d.0 ne,
    Apart-insert x.address xs n ys (λ e. av.0 (sym e)) av.1 d.1,
  )

  pub Pairwise-insert {μ} :
      (R : NodeRef K V → NodeRef K V → Type μ) (xs : List (NodeRef K V)) (n : NodeRef K V)
      (ys : List (NodeRef K V))
      → All (λ x. R x n) xs
      → All (R n) ys
      → Pairwise R (xs ++ ys)
      → Pairwise R (xs ++ (n ∷ ys))
  Pairwise-insert R [] n ys a b p = (b, p)
  Pairwise-insert R (x ∷ xs) n ys a b p =
      (All-insert (R x) xs n ys p.0 a.0, Pairwise-insert R xs n ys a.1 b p.1)

  pub Pairwise-each {μ ν} :
      {R : NodeRef K V → NodeRef K V → Type μ} {Q : NodeRef K V → NodeRef K V → Type ν}
      (xs : List (NodeRef K V))
      → ((x y : NodeRef K V) → Mem y xs → R x y → Q x y)
      → Pairwise R xs
      → Pairwise Q xs
  Pairwise-each [] f p = tt
  Pairwise-each (x ∷ xs) f p = (
    All-each xs (λ y m r. f x y (there m) r) p.0,
    Pairwise-each xs (λ y z m r. f y z (there m) r) p.1,
  )

  -- `n` stands at level `i` between two parts of the chain.
  pub record IsInstalled (s t : SkipList K V) (n : NodeRef K V) (i : ℕ)
      (before after : List (NodeRef K V)) : Type (ℓ ⊔ κ) where
    pub into : (t.links (last 0 before) i).ptr ≡ some n
    pub onto : (t.links n.address i).ptr ≡ first after
    pub others : (a : ℕ) → a ≢ n.address → a ≢ last 0 before → (t.links a i).ptr ≡ (s.links a i).ptr

  Linked-off :
      (s t : SkipList K V) (i a c d : ℕ) (xs : List (NodeRef K V))
      → ((b : ℕ) → b ≢ c → b ≢ d → (t.links b i).ptr ≡ (s.links b i).ptr)
      → a ≢ c
      → a ≢ d
      → Avoids c xs
      → Avoids d xs
      → Linked s i a xs
      → Linked t i a xs
  Linked-off s t i a c d [] same ne nd av aw l = same a ne nd ∙ l
  Linked-off s t i a c d (x ∷ xs) same ne nd av aw l = (
    same a ne nd ∙ l.0,
    Linked-off s t i x.address c d xs same (λ e. av.0 (sym e)) (λ e. aw.0 (sym e)) av.1 aw.1 l.1,
  )

  Linked-onto :
      (s t : SkipList K V) (i a d : ℕ) (n : NodeRef K V) (ys : List (NodeRef K V))
      → ((b : ℕ) → b ≢ n.address → b ≢ d → (t.links b i).ptr ≡ (s.links b i).ptr)
      → (t.links n.address i).ptr ≡ first ys
      → Avoids n.address ys
      → Avoids d ys
      → Linked s i a ys
      → Linked t i n.address ys
  Linked-onto s t i a d n [] same e av aw l = e
  Linked-onto s t i a d n (y ∷ ys) same e av aw l = (
    e,
    Linked-off s t i y.address n.address d ys same (λ f. av.0 (sym f)) (λ f. aw.0 (sym f)) av.1 aw.1
        l.1,
  )

  Apart-ne-last :
      (a : ℕ) (x : NodeRef K V) (xs ys : List (NodeRef K V))
      → Avoids a ((x ∷ xs) ++ ys)
      → a ≢ last x.address xs
  Apart-ne-last a x [] ys av = av.0
  Apart-ne-last a x (z ∷ zs) ys av = Apart-ne-last a z zs ys av.1

  enter_from :
      (s t : SkipList K V) (i a d : ℕ) (n : NodeRef K V) (xs ys : List (NodeRef K V))
      → d ≡ last a xs
      → ((b : ℕ) → b ≢ n.address → b ≢ d → (t.links b i).ptr ≡ (s.links b i).ptr)
      → (t.links d i).ptr ≡ some n
      → (t.links n.address i).ptr ≡ first ys
      → a ≢ n.address
      → Avoids n.address (xs ++ ys)
      → Apart a (xs ++ ys)
      → Linked s i a (xs ++ ys)
      → Linked t i a (xs ++ (n ∷ ys))
  enter_from s t i a d n [] ys e same into onto ne av p l = (
    subst (λ b. (t.links b i).ptr ≡ some n) e into,
    Linked-onto s t i a d n ys same onto av (subst (λ b. Avoids b ys) (sym e) (Apart-Avoids a ys p))
        l,
  )
  enter_from s t i a d n (x ∷ xs) ys e same into onto ne av p l = (
    same a ne (λ f. Apart-ne-last a x xs ys p.0 (f ∙ e)) ∙ l.0,
    enter_from s t i x.address d n xs ys e same into onto (λ f. av.0 (sym f)) av.1 p.1 l.1,
  )

  pub Linked-enter :
      (s t : SkipList K V) (i : ℕ) (n : NodeRef K V) (xs ys : List (NodeRef K V))
      → IsInstalled s t n i xs ys
      → 0 ≢ n.address
      → Avoids n.address (xs ++ ys)
      → Apart 0 (xs ++ ys)
      → Linked s i 0 (xs ++ ys)
      → Linked t i 0 (xs ++ (n ∷ ys))
  Linked-enter s t i n xs ys k ne av p l =
      enter_from s t i 0 (last 0 xs) n xs ys refl k.others k.into k.onto ne av p l

module _ {ℓ κ} {K : Type ℓ} {V : Type κ} ⦃o : Comparator K⦄ where
  -- `t` is `s` with the new node `n` at level 0, and with the node that it replaces marked.
  pub record IsFresh (s t : SkipList K V) (chain : ℕ → List (NodeRef K V)) (n : NodeRef K V)
      (before after : List (NodeRef K V)) : Type (ℓ ⊔ κ) where
    pub installed : IsInstalled s t n 0 before after
    pub ptrs : (a i : ℕ) → i ≢ 0 → a ≢ n.address → (t.links a i).ptr ≡ (s.links a i).ptr
    pub grow :
        (x : NodeRef K V) → x.address ≢ n.address → is_removed s x ≡ true → is_removed t x ≡ true
    pub was :
        (x : NodeRef K V) → x.address ≢ n.address → is_removed t x ≡ false → is_removed s x ≡ false
    pub even :
        (i : ℕ) (x : NodeRef K V)
        → x.address ≢ n.address
        → Mem x (chain i)
        → (t.links x.address i).tag ≡ (t.links x.address 0).tag
    pub new_live : is_removed t n ≡ false
    pub clean : (i : ℕ) → (t.links 0 i).tag ≡ false
    pub refs : (a : ℕ) → a ≢ n.address → t.refs a ≡ s.refs a
    pub new_refs : 0 < t.refs n.address
    pub address : n.address ≡ s.allocated + 1
    pub allocated : t.allocated ≡ s.allocated + 1
    pub max_height : t.max_height ≡ s.max_height
    pub before_new : All (λ x. o.compare x.key n.key ≡ lt) before
    pub after_new : All (Before t n) after
    pub counted : t.len ≡ length (live t (before ++ (n ∷ after))) % word_mod
    pub some_tower : 0 < n.height
    pub limit : n.height ≤ max_tower
    pub low : n.height ≤ s.max_height

  old-IsNode :
      (s t : SkipList K V) (chain : ℕ → List (NodeRef K V)) (n : NodeRef K V)
      (before after : List (NodeRef K V))
      → IsFresh s t chain n before after
      → (i : ℕ) (x : NodeRef K V) → x.address ≢ n.address
      → Mem x (chain i)
      → IsNode s i x
      → IsNode t i x
  old-IsNode s t chain n before after f i x off m k =
      let made : x.address ≤ s.allocated = k.made in
      record {
        made = omega (arith, made, f.allocated);
        tall = k.tall;
        limit = k.limit;
        marked = f.even i x off m;
        held =
            λ alive. subst (λ r. 0 < r) (sym (f.refs x.address off)) (k.held (f.was x off alive));
      }

  pub fresh-IsSkipList :
      (s t : SkipList K V) (chain : ℕ → List (NodeRef K V)) (n : NodeRef K V)
      (before after : List (NodeRef K V))
      → IsSkipList s chain
      → chain 0 ≡ before ++ after
      → IsFresh s t chain n before after
      → IsSkipList t (put chain 0 (before ++ (n ∷ after)))
  fresh-IsSkipList s t chain n before after w e f =
      let new : List (NodeRef K V) = before ++ (n ∷ after) in
      let off : (i : ℕ) (x : NodeRef K V) → Mem x (chain i) → x.address ≢ n.address = λ i x m g.
        let made : x.address ≤ s.allocated =
          let k : IsNode s i x = All-Mem (IsNode s i) m (w.nodes i) in k.made in
        omega (arith, made, g, f.address) in
      let avoids : (i : ℕ) → Avoids n.address (chain i) =
        λ i. All-each (chain i) (λ x m k g. off i x m (sym g)) (w.nodes i) in
      let zero_off : 0 ≢ n.address = λ g. omega (arith, g, f.address) in
      let order : (i : ℕ) → Pairwise (Before t) (chain i) = λ i.
        Pairwise-each (chain i)
          (λ x y m b. elim b [ inl l ↦ inl l | inr (q, r) ↦ inr (q, f.grow y (off i y m) r) ])
          (w.sorted i) in
      let olds : (i : ℕ) → All (IsNode t i) (chain i) = λ i.
        All-each (chain i) (λ x m k. old-IsNode s t chain n before after f i x (off i x m) m k)
          (w.nodes i) in
      let old_or_new : (i : ℕ) (x : NodeRef K V)
          → Mem x (put chain 0 new i)
          → (x ≡ n) ⊎ Mem x (chain i) =
        λ i x.
          put-each (λ j l. Mem x l → (x ≡ n) ⊎ Mem x (chain j)) chain 0 new
            (λ m. elim (Mem-middle before n after m) [
              | inl g ↦ inl g
              | inr k ↦ inr (subst (Mem x) (sym e) k)
            ])
            (λ j ne m. inr m) i in
      record {
        linked =
            put-each (λ i l. Linked t i 0 l) chain 0 new
              (Linked-enter s t 0 n before after f.installed zero_off
                (subst (Avoids n.address) e (avoids 0)) (subst (Apart 0) e (w.apart 0))
                (subst (Linked s 0 0) e (w.linked 0)))
              (λ i ne.
                Linked-elsewhere s t i 0 n.address (chain i) (λ b nb. f.ptrs b i ne nb) zero_off
                  (avoids i) (w.linked i));
        apart =
            put-each (λ i l. Apart 0 l) chain 0 new
              (Apart-insert 0 before n after zero_off (subst (Avoids n.address) e (avoids 0))
                (subst (Apart 0) e (w.apart 0)))
              (λ i ne. w.apart i);
        sorted =
            put-each (λ i l. Pairwise (Before t) l) chain 0 new
              (Pairwise-insert (Before t) before n after
                (All-imp (λ x l. inl l) before f.before_new) f.after_new
                (subst (Pairwise (Before t)) e (order 0)))
              (λ i ne. order i);
        nodes =
            put-each (λ i l. All (IsNode t i) l) chain 0 new
              (All-insert (IsNode t 0) before n after (subst (All (IsNode t 0)) e (olds 0))
                (record {
                  made = omega (arith, f.address, f.allocated);
                  tall = f.some_tower;
                  limit = f.limit;
                  marked = refl;
                  held = λ g. f.new_refs;
                }))
              (λ i ne. olds i);
        nested = λ i x m alive.
            let inside : Mem x (chain (suc i)) =
              subst (Mem x) (put-elsewhere chain 0 new (suc i) (omega arith)) m in
            put-each (λ j l. Mem x (chain j) → Mem x l) chain 0 new
              (λ k. Mem-insert before n after (subst (Mem x) e k)) (λ j ne k. k) i
              (w.nested i x inside (f.was x (off (suc i) x inside) alive));
        one = λ i j x y m k g. elim (old_or_new i x m) [
          | inl a ↦ elim (old_or_new j y k) [
            | inl b ↦ a ∙ sym b
            | inr b ↦ absurd (off j y b (sym g ∙ ap (λ z. z.address) a))
          ]
          | inr a ↦ elim (old_or_new j y k) [
            | inl b ↦ absurd (off i x a (g ∙ ap (λ z. z.address) b))
            | inr b ↦ w.one i j x y a b g
          ]
        ];
        short =
            put-each (λ i l. length l ≤ t.allocated) chain 0 new
              (let room : length (before ++ after) ≤ s.allocated =
                  subst (λ l. length l ≤ s.allocated) e (w.short 0) in
                omega (arith, room, f.allocated, length-middle before n after))
              (λ i ne.
                let room : length (chain i) ≤ s.allocated = w.short i in
                omega (arith, room, f.allocated));
        clean = f.clean;
        low =
            put-each (λ i l. t.max_height ≤ i → l ≡ []) chain 0 new
              (λ h. absurd (omega (arith, h, f.max_height, f.low, f.some_tower)))
              (λ i ne h. w.low i (omega (arith, h, f.max_height)));
        counted = f.counted ∙ ap (λ l. length (live t l) % word_mod) (sym (put-there chain 0 new));
      }
