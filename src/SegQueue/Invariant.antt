-- ===== src/SegQueue/Invariant.antt =====
-- When a queue of blocks holds a list of values.
use crossbeam.Prelude.{
  ℕ, zero, suc, ◌+◌, ◌*◌, ◌/◌, ◌%◌, ◌≤◌, ◌<◌, ◌≡◌, inl, inr, refl, sym, ap, ◌∙◌, arith, false, some,
  List, [], ◌∷◌, ◌++◌, length, get_elem?, get_elem?-lt, get_elem?-snoc, Bool-cases, ==_refl, ne→==,
  ==_iff, eq→==, ℕ_discrete, ◌==◌,
}
use crossbeam.SegQueue.Defs.{Slot, Block, SegQueue, set_block, set_slot}
use crossbeam.SegQueue.Positions.{position}

-- The addresses of the blocks before `n`, the last first.
abbrev pub addresses_before : (ℕ → ℕ) → ℕ → List ℕ
addresses_before addr zero = []
addresses_before addr (suc n) = addr n ∷ addresses_before addr n

-- The blocks up to the number `n` have different addresses.
abbrev pub Apart : (ℕ → ℕ) → ℕ → Type 0
Apart addr n = (b c : ℕ) → b ≤ n → c ≤ n → addr b ≡ addr c → b ≡ c

-- The values from the ticket `h` on stand in the blocks, of which the block of number `b` is at `addr b`.
-- The blocks up to the one of the tail are linked, and those before the head are freed.
pub record Linked {ℓ} {T : Type ℓ} (addr : ℕ → ℕ) (h : ℕ) (xs : List T) (q : SegQueue T)
    : Type ℓ where
  pub head_at : q.head_index / 2 ≡ position h
  pub flagged : q.head_index % 2 ≡ 1 → h / 31 < (h + length xs) / 31
  pub tail_at : q.tail_index ≡ 2 * position (h + length xs)
  pub head_block_at : q.head_block ≡ addr (h / 31)
  pub tail_block_at : q.tail_block ≡ addr ((h + length xs) / 31)
  pub positive : (b : ℕ) → b ≤ (h + length xs) / 31 → 0 < addr b
  pub allocated : (b : ℕ) → b ≤ (h + length xs) / 31 → addr b < q.next_ptr
  pub apart : Apart addr ((h + length xs) / 31)
  pub links : (b : ℕ) → b < (h + length xs) / 31 → (q.blocks (addr b)).next ≡ addr (b + 1)
  pub last : (q.blocks (addr ((h + length xs) / 31))).next ≡ 0
  pub values :
      (i : ℕ) (x : T)
      → get_elem? xs i ≡ some x
      → ((q.blocks (addr ((h + i) / 31))).slots ((h + i) % 31)).value ≡ some x
  pub unmarked : (p i : ℕ) → ((q.blocks p).slots i).destroyed ≡ false
  pub freed_at : q.freed ≡ addresses_before addr (h / 31)

module _ {ℓ} {T : Type ℓ} where
  -- Setting a slot keeps the links and the other slots.
  pub set_slot-next :
      (blocks : ℕ → Block T) (a i : ℕ) (s : Slot T) (p : ℕ)
      → (set_block a (set_slot i s (blocks a)) blocks p).next ≡ (blocks p).next
  set_slot-next blocks a i s p = elim (Bool-cases (p == a)) [
    | inl same ↦ rw same (ap (λ b. (blocks b).next) (sym ((==_iff p a).0 same)))
    | inr other ↦ rw other refl
  ]

  pub set_slot-same :
      (blocks : ℕ → Block T) (a i : ℕ) (s : Slot T)
      → (set_block a (set_slot i s (blocks a)) blocks a).slots i ≡ s
  set_slot-same blocks a i s = rw (==_refl a, ==_refl i) refl

  pub set_slot-other :
      (blocks : ℕ → Block T) (a i : ℕ) (s : Slot T) (p j : ℕ)
      → ¬ ((p ≡ a) × (j ≡ i))
      → (set_block a (set_slot i s (blocks a)) blocks p).slots j ≡ (blocks p).slots j
  set_slot-other blocks a i s p j ne = elim (ℕ_discrete p a) [
    | yes same ↦
        rw (eq→== p a same, ne→== j i (λ e. ne (same, e))) (ap (λ b. (blocks b).slots j) (sym same))
    | no other ↦ rw (ne→== p a other) refl
  ]

  -- Where the values stand.
  abbrev pub Values : (ℕ → ℕ) → ℕ → List T → (ℕ → Block T) → Type ℓ
  Values addr h xs blocks =
      (i : ℕ) (x : T)
      → get_elem? xs i ≡ some x
      → ((blocks (addr ((h + i) / 31))).slots ((h + i) % 31)).value ≡ some x

  -- Writing the slot after the last value appends to the values.
  pub set_slot-Values :
      (addr : ℕ → ℕ) (h : ℕ) (xs : List T) (blocks : ℕ → Block T) (s : Slot T) (v : T)
      → Values addr h xs blocks
      → Apart addr ((h + length xs) / 31)
      → s.value ≡ some v
      → Values addr h (xs ++ (v ∷ [])) (
          set_block
            (addr ((h + length xs) / 31))
            (set_slot ((h + length xs) % 31) s (blocks (addr ((h + length xs) / 31))))
            blocks)
  set_slot-Values addr h xs blocks s v values apart at i x e = elim (get_elem?-snoc xs v i x e) [
    | inl old ↦
        ap (λ slot. slot.value)
          (set_slot-other blocks (addr ((h + length xs) / 31)) ((h + length xs) % 31) s
            (addr ((h + i) / 31)) ((h + i) % 31) (ne i (get_elem?-lt xs i x old)))
        ∙ values i x old
    | inr (here, same) ↦ rw here (
        ap (λ slot. slot.value)
          (set_slot-same blocks (addr ((h + length xs) / 31)) ((h + length xs) % 31) s)
        ∙ at
        ∙ same)
  ]
    where
      ne :
          (i : ℕ)
          → i < length xs
          → ¬ (
              (addr ((h + i) / 31) ≡ addr ((h + length xs) / 31))
              × ((h + i) % 31 ≡ (h + length xs) % 31))
      ne i less (same_block, same_offset) =
          let same : (h + i) / 31 ≡ (h + length xs) / 31 =
            apart ((h + i) / 31) ((h + length xs) / 31) (omega arith) (omega arith) same_block in
          omega (arith, same, same_offset)

  pub set_slot-unmarked :
      (blocks : ℕ → Block T) (a i : ℕ) (s : Slot T)
      → ((p j : ℕ) → ((blocks p).slots j).destroyed ≡ false)
      → s.destroyed ≡ false
      → (p j : ℕ) → ((set_block a (set_slot i s (blocks a)) blocks p).slots j).destroyed ≡ false
  set_slot-unmarked blocks a i s all one p j = elim (ℕ_discrete p a) [
    | yes same ↦ elim (ℕ_discrete j i) [
      | yes at ↦ rw (eq→== p a same, eq→== j i at) one
      | no else_where ↦ rw (eq→== p a same, ne→== j i else_where) (all a j)
    ]
    | no other ↦ rw (ne→== p a other) (all p j)
  ]

  -- Setting a slot to one with the same value keeps every value.
  pub set_slot-value :
      (blocks : ℕ → Block T) (a i : ℕ) (s : Slot T)
      → s.value ≡ ((blocks a).slots i).value
      → (p j : ℕ)
      → ((set_block a (set_slot i s (blocks a)) blocks p).slots j).value
        ≡ ((blocks p).slots j).value
  set_slot-value blocks a i s same p j = elim (ℕ_discrete p a) [
    | yes at ↦ elim (ℕ_discrete j i) [
      | yes here ↦
          rw (eq→== p a at, eq→== j i here)
            (same
              ∙ ap (λ b. ((blocks b).slots i).value) (sym at)
              ∙ ap (λ k. ((blocks p).slots k).value) (sym here))
      | no there ↦
          rw (eq→== p a at, ne→== j i there) (ap (λ b. ((blocks b).slots j).value) (sym at))
    ]
    | no other ↦ rw (ne→== p a other) refl
  ]

  pub Values-tail :
      (addr : ℕ → ℕ) (h : ℕ) (x : T) (xs : List T) (blocks : ℕ → Block T)
      → Values addr h (x ∷ xs) blocks
      → Values addr (h + 1) xs blocks
  Values-tail addr h x xs blocks values i y e =
      let next : h + 1 + i ≡ h + suc i = omega arith in
      ap (λ p. ((blocks (addr (p / 31))).slots (p % 31)).value) next ∙ values (suc i) y e
