-- ===== src/SkipList/Chain.antt =====
-- The chains of nodes that the links of one level lead through, and their order.
use crossbeam.Prelude.{
  ℕ, suc, ◌+◌, ◌≡◌, ◌≢◌, ◌⊎◌, inl, inr, refl, sym, ap, ◌∙◌, subst, Option, none, some, List, [],
  ◌∷◌, ◌++◌, length, arith, Option-cases,
}
use crossbeam.SkipList.Defs.{NodeRef, SkipList}

module _ {ℓ} {A : Type ℓ} where
  pub some_inj : {a b : A} → some a ≡ some b → a ≡ b
  some_inj e = ground (arith, e)

  abbrev pub All {μ} : (A → Type μ) → List A → Type μ
  All P [] = Unit
  All P (x ∷ xs) = P x × All P xs

  pub All-imp {μ ν} :
      {P : A → Type μ} {Q : A → Type ν}
      → ((x : A) → P x → Q x)
      → (xs : List A) → All P xs
      → All Q xs
  All-imp f [] a = tt
  All-imp f (x ∷ xs) (p, a) = (f x p, All-imp f xs a)

  pub All-append {μ} : (P : A → Type μ) (xs ys : List A) → All P xs → All P ys → All P (xs ++ ys)
  All-append P [] ys a b = b
  All-append P (x ∷ xs) ys (p, a) b = (p, All-append P xs ys a b)

  pub All-left {μ} : (P : A → Type μ) (xs ys : List A) → All P (xs ++ ys) → All P xs
  All-left P [] ys a = tt
  All-left P (x ∷ xs) ys (p, a) = (p, All-left P xs ys a)

  pub All-right {μ} : (P : A → Type μ) (xs ys : List A) → All P (xs ++ ys) → All P ys
  All-right P [] ys a = a
  All-right P (x ∷ xs) ys (p, a) = All-right P xs ys a

  -- `x` stands in a list.
  pub data Mem (x : A) : List A → Type ℓ where
    here : {xs : List A} → Mem x (x ∷ xs)
    there : {y : A} {xs : List A} → Mem x xs → Mem x (y ∷ xs)

  pub All-Mem {μ} : (P : A → Type μ) {x : A} {xs : List A} → Mem x xs → All P xs → P x
  All-Mem P here a = a.0
  All-Mem P (there m) a = All-Mem P m a.1

  pub All-each {μ ν} :
      {P : A → Type μ} {Q : A → Type ν} (xs : List A)
      → ((x : A) → Mem x xs → P x → Q x)
      → All P xs
      → All Q xs
  All-each [] f a = tt
  All-each (x ∷ xs) f (p, a) = (f x here p, All-each xs (λ y m. f y (there m)) a)

  pub Mem-right : {x : A} (xs : List A) {ys : List A} → Mem x ys → Mem x (xs ++ ys)
  Mem-right [] m = m
  Mem-right (y ∷ xs) m = there (Mem-right xs m)

  pub Mem-left : {x : A} {xs : List A} (ys : List A) → Mem x xs → Mem x (xs ++ ys)
  Mem-left ys here = here
  Mem-left ys (there m) = there (Mem-left ys m)

  pub Mem-cons : {x y : A} {xs : List A} → Mem x (y ∷ xs) → (x ≡ y) ⊎ Mem x xs
  Mem-cons here = inl refl
  Mem-cons (there m) = inr m

  pub Mem-append : {x : A} (xs : List A) {ys : List A} → Mem x (xs ++ ys) → Mem x xs ⊎ Mem x ys
  Mem-append [] m = inr m
  Mem-append (y ∷ xs) here = inl here
  Mem-append (y ∷ xs) (there m) = elim (Mem-append xs m) [ inl l ↦ inl (there l) | inr r ↦ inr r ]

  -- A member of a list with one more element in the middle.
  pub Mem-middle :
      {x : A} (xs : List A) (c : A) (ys : List A)
      → Mem x (xs ++ (c ∷ ys))
      → (x ≡ c) ⊎ Mem x (xs ++ ys)
  Mem-middle [] c ys here = inl refl
  Mem-middle [] c ys (there m) = inr m
  Mem-middle (y ∷ xs) c ys here = inr here
  Mem-middle (y ∷ xs) c ys (there m) = elim (Mem-middle xs c ys m) [
    | inl e ↦ inl e
    | inr l ↦ inr (there l)
  ]

  pub Mem-insert :
      {x : A} (xs : List A) (c : A) (ys : List A) → Mem x (xs ++ ys) → Mem x (xs ++ (c ∷ ys))
  Mem-insert [] c ys m = there m
  Mem-insert (y ∷ xs) c ys here = here
  Mem-insert (y ∷ xs) c ys (there m) = there (Mem-insert xs c ys m)

  pub Mem-split :
      {x : A} {l : List A} → Mem x l → (xs : List A) × (ys : List A) × (l ≡ xs ++ (x ∷ ys))
  Mem-split (here {xs}) = ([], xs, refl)
  Mem-split (there {y} m) = let (xs, ys, e) = Mem-split m in (y ∷ xs, ys, ap (λ l. y ∷ l) e)

  pub All-middle {μ} :
      (P : A → Type μ) (xs : List A) (c : A) (ys : List A)
      → All P (xs ++ (c ∷ ys))
      → All P (xs ++ ys)
  All-middle P [] c ys (p, a) = a
  All-middle P (x ∷ xs) c ys (p, a) = (p, All-middle P xs c ys a)

module _ {ℓ κ} {K : Type ℓ} {V : Type κ} where
  -- The address where a walk over `xs` from the address `a` ends.
  abbrev pub last : ℕ → List (NodeRef K V) → ℕ
  last a [] = a
  last a (x ∷ xs) = last x.address xs

  abbrev pub first : List (NodeRef K V) → Option (NodeRef K V)
  first [] = none
  first (x ∷ xs) = some x

  -- The last node of a list.
  abbrev pub end : List (NodeRef K V) → Option (NodeRef K V)
  end [] = none
  end (x ∷ xs) = elim (end xs) [ none ↦ some x | some y ↦ some y ]

  -- The links of level `i` lead from the tower at `a` through `xs` to the end.
  abbrev pub Linked : SkipList K V → ℕ → ℕ → List (NodeRef K V) → Type (ℓ ⊔ κ)
  Linked s i a [] = (s.links a i).ptr ≡ none
  Linked s i a (x ∷ xs) = ((s.links a i).ptr ≡ some x) × Linked s i x.address xs

  abbrev pub Avoids : ℕ → List (NodeRef K V) → Type 0
  Avoids a xs = All (λ x. a ≢ x.address) xs

  -- The address `a` and those of `xs` are different from each other.
  abbrev pub Apart : ℕ → List (NodeRef K V) → Type 0
  Apart a [] = Unit
  Apart a (x ∷ xs) = Avoids a (x ∷ xs) × Apart x.address xs

  -- Each node of a list is `R`-related to all that follow it.
  abbrev pub Pairwise {μ} : (NodeRef K V → NodeRef K V → Type μ) → List (NodeRef K V) → Type μ
  Pairwise R [] = Unit
  Pairwise R (x ∷ xs) = All (R x) xs × Pairwise R xs

  pub last-append : (a : ℕ) (xs ys : List (NodeRef K V)) → last a (xs ++ ys) ≡ last (last a xs) ys
  last-append a [] ys = refl
  last-append a (x ∷ xs) ys = last-append x.address xs ys

  pub end-snoc : (xs : List (NodeRef K V)) (y : NodeRef K V) → end (xs ++ (y ∷ [])) ≡ some y
  end-snoc [] y = refl
  end-snoc (x ∷ xs) y = rw (end-snoc xs y)

  pub end-Mem : (xs : List (NodeRef K V)) (y : NodeRef K V) → end xs ≡ some y → Mem y xs
  end-Mem [] y e = absurd (ground (arith, e))
  end-Mem (x ∷ xs) y e = elim (Option-cases (end xs)) [
    | inl n ↦
        let same : some x ≡ some y =
          sym (ap (λ o. elim o [ none ↦ some x | some z ↦ some z ]) n) ∙ e in
        subst (λ z. Mem z (x ∷ xs)) (some_inj same) here
    | inr (z, f) ↦
        let same : some z ≡ some y =
          sym (ap (λ o. elim o [ none ↦ some x | some z ↦ some z ]) f) ∙ e in
        there (end-Mem xs y (f ∙ same))
  ]

  -- Where a walk ends is the last node, or where it began.
  abbrev pub address_of : Option (NodeRef K V) → ℕ
  address_of none = 0
  address_of (some x) = x.address

  last-from :
      (a : ℕ) (xs : List (NodeRef K V))
      → last a xs ≡ elim (end xs) [ none ↦ a | some x ↦ x.address ]
  last-from a [] = refl
  last-from a (x ∷ xs) = last-from x.address xs ∙ ground arith

  pub last-end : (xs : List (NodeRef K V)) → last 0 xs ≡ address_of (end xs)
  last-end xs = last-from 0 xs ∙ ground arith

  pub Linked-right :
      (s : SkipList K V) (i a : ℕ) (xs ys : List (NodeRef K V))
      → Linked s i a (xs ++ ys)
      → Linked s i (last a xs) ys
  Linked-right s i a [] ys l = l
  Linked-right s i a (x ∷ xs) ys l = Linked-right s i x.address xs ys l.1

  pub Linked-first :
      (s : SkipList K V) (i a : ℕ) (xs : List (NodeRef K V))
      → Linked s i a xs
      → (s.links a i).ptr ≡ first xs
  Linked-first s i a [] l = l
  Linked-first s i a (x ∷ xs) l = l.0

  -- A chain keeps its links where no link of its level changes.
  pub Linked-same :
      (s t : SkipList K V) (i a : ℕ) (xs : List (NodeRef K V))
      → ((b : ℕ) → (t.links b i).ptr ≡ (s.links b i).ptr)
      → Linked s i a xs
      → Linked t i a xs
  Linked-same s t i a [] same l = same a ∙ l
  Linked-same s t i a (x ∷ xs) same l = (same a ∙ l.0, Linked-same s t i x.address xs same l.1)

  -- A change elsewhere leaves a chain as it was.
  pub Linked-elsewhere :
      (s t : SkipList K V) (i a c : ℕ) (xs : List (NodeRef K V))
      → ((b : ℕ) → b ≢ c → (t.links b i).ptr ≡ (s.links b i).ptr)
      → a ≢ c
      → Avoids c xs
      → Linked s i a xs
      → Linked t i a xs
  Linked-elsewhere s t i a c [] same ne av l = same a ne ∙ l
  Linked-elsewhere s t i a c (x ∷ xs) same ne av l =
      (same a ne ∙ l.0, Linked-elsewhere s t i x.address c xs same (λ e. av.0 (sym e)) av.1 l.1)

  Apart-last :
      (a : ℕ) (x : NodeRef K V) (xs : List (NodeRef K V))
      → Avoids a (x ∷ xs)
      → a ≢ last x.address xs
  Apart-last a x [] av = av.0
  Apart-last a x (y ∷ ys) av = Apart-last a y ys av.1

  -- A change of the link of the last node of the first part changes the chain from there on.
  pub Linked-relink :
      (s t : SkipList K V) (i a : ℕ) (xs ys zs : List (NodeRef K V))
      → Apart a (xs ++ ys)
      → ((b : ℕ) → b ≢ last a xs → (t.links b i).ptr ≡ (s.links b i).ptr)
      → Linked s i a (xs ++ ys)
      → Linked t i (last a xs) zs
      → Linked t i a (xs ++ zs)
  Linked-relink s t i a [] ys zs ap_ same l r = r
  Linked-relink s t i a (x ∷ xs) ys zs ap_ same l r = (
    same a (Apart-last a x xs (All-left (λ n. a ≢ n.address) (x ∷ xs) ys ap_.0)) ∙ l.0,
    Linked-relink s t i x.address xs ys zs ap_.1 same l.1 r,
  )

  pub Apart-right : (a : ℕ) (xs ys : List (NodeRef K V)) → Apart a (xs ++ ys) → Apart (last a xs) ys
  Apart-right a [] ys d = d
  Apart-right a (x ∷ xs) ys d = Apart-right x.address xs ys d.1

  Apart-drop : (a : ℕ) (c : NodeRef K V) (ys : List (NodeRef K V)) → Apart a (c ∷ ys) → Apart a ys
  Apart-drop a c [] d = tt
  Apart-drop a c (y ∷ ys) d = (d.0.1, d.1.1)

  pub Apart-middle :
      (a : ℕ) (xs : List (NodeRef K V)) (c : NodeRef K V) (ys : List (NodeRef K V))
      → Apart a (xs ++ (c ∷ ys))
      → Apart a (xs ++ ys)
  Apart-middle a [] c ys d = Apart-drop a c ys d
  Apart-middle a (x ∷ xs) c ys d =
      (All-middle (λ n. a ≢ n.address) (x ∷ xs) c ys d.0, Apart-middle x.address xs c ys d.1)

  pub Pairwise-imp {μ ν} :
      {R : NodeRef K V → NodeRef K V → Type μ} {Q : NodeRef K V → NodeRef K V → Type ν}
      → ((x y : NodeRef K V) → R x y → Q x y)
      → (xs : List (NodeRef K V)) → Pairwise R xs
      → Pairwise Q xs
  Pairwise-imp f [] p = tt
  Pairwise-imp f (x ∷ xs) p = (All-imp (f x) xs p.0, Pairwise-imp f xs p.1)

  -- A chain goes on from another tower that has the same link.
  pub Linked-move :
      (s t : SkipList K V) (i a b : ℕ) (xs : List (NodeRef K V))
      → ((c : ℕ) → c ≢ a → (t.links c i).ptr ≡ (s.links c i).ptr)
      → (t.links a i).ptr ≡ (s.links b i).ptr
      → Avoids a xs
      → Linked s i b xs
      → Linked t i a xs
  Linked-move s t i a b [] same e av l = e ∙ l
  Linked-move s t i a b (x ∷ xs) same e av l =
      (e ∙ l.0, Linked-elsewhere s t i x.address a xs same (λ f. av.0 (sym f)) av.1 l.1)

  pub Apart-Avoids : (a : ℕ) (xs : List (NodeRef K V)) → Apart a xs → Avoids a xs
  Apart-Avoids a [] d = tt
  Apart-Avoids a (x ∷ xs) d = d.0

  pub Pairwise-middle {μ} :
      (R : NodeRef K V → NodeRef K V → Type μ) (xs : List (NodeRef K V)) (c : NodeRef K V)
      (ys : List (NodeRef K V))
      → Pairwise R (xs ++ (c ∷ ys))
      → Pairwise R (xs ++ ys)
  Pairwise-middle R [] c ys p = p.1
  Pairwise-middle R (x ∷ xs) c ys p = (All-middle (R x) xs c ys p.0, Pairwise-middle R xs c ys p.1)

  pub Pairwise-right {μ} :
      (R : NodeRef K V → NodeRef K V → Type μ) (xs ys : List (NodeRef K V))
      → Pairwise R (xs ++ ys)
      → Pairwise R ys
  Pairwise-right R [] ys p = p
  Pairwise-right R (x ∷ xs) ys p = Pairwise-right R xs ys p.1

  -- What stands in the first part is related to what stands in the second.
  pub Pairwise-across {μ} :
      (R : NodeRef K V → NodeRef K V → Type μ) (ys : List (NodeRef K V)) {x : NodeRef K V}
      {xs : List (NodeRef K V)}
      → Mem x xs
      → Pairwise R (xs ++ ys)
      → All (R x) ys
  Pairwise-across R ys (here {xs}) p = All-right (R _) xs ys p.0
  Pairwise-across R ys (there m) p = Pairwise-across R ys m p.1

  pub length-middle :
      (xs : List (NodeRef K V)) (c : NodeRef K V) (ys : List (NodeRef K V))
      → length (xs ++ (c ∷ ys)) ≡ length (xs ++ ys) + 1
  length-middle [] c ys = omega arith
  length-middle (x ∷ xs) c ys = ap suc (length-middle xs c ys) ∙ omega arith
