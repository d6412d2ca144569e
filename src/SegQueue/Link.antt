-- ===== src/SegQueue/Link.antt =====
-- Linking the next block, of number `n + 1`, after the block of number `n`.
use crossbeam.Prelude.{
  ℕ, zero, suc, ◌+◌, ◌/◌, ◌%◌, ◌≤◌, ◌<◌, ◌≡◌, ◌≢◌, refl, sym, ap, ◌∙◌, arith, false, List, length,
  get_elem?-lt, ==_refl, eq→==, ne→==, ℕ_discrete, if◌then◌else◌, ◌==◌,
}
use crossbeam.SegQueue.Defs.{Block, set_block, empty_block}
use crossbeam.SegQueue.Invariant.{Apart, Values, addresses_before}

-- The addresses with that of the next block.
abbrev pub extended : (ℕ → ℕ) → ℕ → ℕ → ℕ → ℕ
extended addr n p b = if b == n + 1 then p else addr b

pub extended-old : (addr : ℕ → ℕ) (n p b : ℕ) → b ≤ n → extended addr n p b ≡ addr b
extended-old addr n p b le = rw (ne→== b (n + 1) (λ e. omega arith)) refl

pub extended-new : (addr : ℕ → ℕ) (n p : ℕ) → extended addr n p (n + 1) ≡ p
extended-new addr n p = rw (==_refl (n + 1)) refl

pub extended-elim {ℓ} :
    (P : ℕ → Type ℓ) (addr : ℕ → ℕ) (n p b : ℕ)
    → b ≤ n + 1
    → (b ≤ n → P (addr b))
    → P p
    → P (extended addr n p b)
extended-elim P addr n p b le old new = elim (ℕ_discrete b (n + 1)) [
  | yes at ↦ rw (eq→== b (n + 1) at) new
  | no before ↦ rw (ne→== b (n + 1) before) (old (omega arith))
]

-- The new address differs from the others.
pub extended-Apart :
    (addr : ℕ → ℕ) (n p : ℕ)
    → Apart addr n
    → ((b : ℕ) → b ≤ n → addr b < p)
    → Apart (extended addr n p) (n + 1)
extended-Apart addr n p apart below b c le le' same = elim (ℕ_discrete b (n + 1)) [
  | yes b_new ↦ elim (ℕ_discrete c (n + 1)) [
    | yes c_new ↦ b_new ∙ sym c_new
    | no c_old ↦
        let e : p ≡ addr c =
          sym (rw (eq→== b (n + 1) b_new) refl) ∙ same ∙ extended-old addr n p c (omega arith) in
        absurd (omega (arith, below c (omega arith), e))
  ]
  | no b_old ↦ elim (ℕ_discrete c (n + 1)) [
    | yes c_new ↦
        let e : addr b ≡ p =
          sym (extended-old addr n p b (omega arith)) ∙ same ∙ rw (eq→== c (n + 1) c_new) refl in
        absurd (omega (arith, below b (omega arith), e))
    | no c_old ↦
        apart b c (omega arith) (omega arith) (
          sym (extended-old addr n p b (omega arith))
          ∙ same
          ∙ extended-old addr n p c (omega arith))
  ]
]

pub addresses_before-extended :
    (addr : ℕ → ℕ) (n p k : ℕ)
    → k ≤ n + 1
    → addresses_before (extended addr n p) k ≡ addresses_before addr k
addresses_before-extended addr n p zero le = refl
addresses_before-extended addr n p (suc k) le =
    rw (extended-old addr n p k (omega arith), addresses_before-extended addr n p k (omega arith))
      refl

module _ {ℓ} {T : Type ℓ} where
  -- The blocks after the link: `p` is the new one and `tail` the one before it.
  abbrev pub link : ℕ → ℕ → (ℕ → Block T) → ℕ → Block T
  link p tail blocks =
      let blocks' = set_block p empty_block blocks in
      set_block tail (record (blocks' tail) { next = p }) blocks'

  module _ (p tail : ℕ) (blocks : ℕ → Block T) (ne : tail ≢ p) where
    pub link-tail : (link p tail blocks tail).next ≡ p
    link-tail = rw (==_refl tail) refl

    pub link-new : (link p tail blocks p).next ≡ 0
    link-new = rw (ne→== p tail (λ e. ne (sym e)), ==_refl p) refl

    pub link-other : (a : ℕ) → a ≢ tail → a ≢ p → (link p tail blocks a).next ≡ (blocks a).next
    link-other a other old = rw (ne→== a tail other, ne→== a p old) refl

    pub link-slots : (a : ℕ) → a ≢ p → (link p tail blocks a).slots ≡ (blocks a).slots
    link-slots a old = elim (ℕ_discrete a tail) [
      | yes at ↦ rw (eq→== a tail at, ne→== tail p ne) (ap (λ b. (blocks b).slots) (sym at))
      | no other ↦ rw (ne→== a tail other, ne→== a p old) refl
    ]

    pub link-unmarked :
        ((a j : ℕ) → ((blocks a).slots j).destroyed ≡ false)
        → (a j : ℕ) → ((link p tail blocks a).slots j).destroyed ≡ false
    link-unmarked all a j = elim (ℕ_discrete a p) [
      | yes new ↦ rw (ne→== a tail (λ e. ne (sym e ∙ new)), eq→== a p new) refl
      | no old ↦ ap (λ slots. (slots j).destroyed) (link-slots a old) ∙ all a j
    ]

  -- Values stay where the blocks up to `n` keep their addresses.
  pub extended-Values :
      (addr : ℕ → ℕ) (n p h : ℕ) (xs : List T) (blocks : ℕ → Block T)
      → ((i : ℕ) → i < length xs → (h + i) / 31 ≤ n)
      → Values addr h xs blocks
      → Values (extended addr n p) h xs blocks
  extended-Values addr n p h xs blocks within values i x e =
      ap (λ a. ((blocks a).slots ((h + i) % 31)).value)
        (extended-old addr n p ((h + i) / 31) (within i (get_elem?-lt xs i x e)))
      ∙ values i x e

  -- The links with the new block.
  pub link-links :
      (addr : ℕ → ℕ) (n p : ℕ) (blocks : ℕ → Block T)
      → Apart addr n
      → ((b : ℕ) → b ≤ n → addr b < p)
      → ((b : ℕ) → b < n → (blocks (addr b)).next ≡ addr (b + 1))
      → (b : ℕ) → b ≤ n
      → (link p (addr n) blocks (addr b)).next ≡ extended addr n p (b + 1)
  link-links addr n p blocks apart below links b le =
      let ne : addr n ≢ p = λ e. omega (arith, below n (omega arith), e) in
      elim (ℕ_discrete b n) [
        | yes at ↦
            ap (λ c. (link p (addr n) blocks (addr c)).next) at
            ∙ link-tail p (addr n) blocks ne
            ∙ sym (extended-new addr n p)
            ∙ ap (λ c. extended addr n p (c + 1)) (sym at)
        | no before ↦
            link-other p (addr n) blocks ne (addr b) (λ e. before (apart b n le (omega arith) e))
              (λ e. omega (arith, below b le, e))
            ∙ links b (omega arith)
            ∙ sym (extended-old addr n p (b + 1) (omega arith))
      ]

  pub link-Values :
      (addr : ℕ → ℕ) (n p h : ℕ) (xs : List T) (tail : ℕ) (blocks : ℕ → Block T)
      → tail ≢ p
      → ((b : ℕ) → b ≤ n → addr b < p)
      → ((i : ℕ) → i < length xs → (h + i) / 31 ≤ n)
      → Values addr h xs blocks
      → Values addr h xs (link p tail blocks)
  link-Values addr n p h xs tail blocks ne below within values i x e =
      let le : (h + i) / 31 ≤ n = within i (get_elem?-lt xs i x e) in
      ap (λ slots. (slots ((h + i) % 31)).value)
        (link-slots p tail blocks ne (addr ((h + i) / 31))
          (λ same. omega (arith, below ((h + i) / 31) le, same)))
      ∙ values i x e
