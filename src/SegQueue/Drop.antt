-- ===== src/SegQueue/Drop.antt =====
-- `SegQueue::drop`.
use crossbeam.Prelude.{
  ℕ, zero, suc, ◌+◌, ◌-◌, ◌*◌, ◌/◌, ◌%◌, ◌^◌, ◌≤◌, ◌<◌, ◌≡◌, ◌≢◌, refl, sym, ap, ◌∙◌, arith, Option,
  some, List, [], ◌∷◌, length, eq→==, ne→==, lt→ltb, ℕ_discrete, word_mod, wrapping_add, high_bits,
}
use crossbeam.SegQueue.Defs.{SegQueue, offset_of, drop_loop, dropped}
use crossbeam.SegQueue.Positions.{
  position, position-next, position-next_block, block-next, block-next_block,
}
use crossbeam.SegQueue.Invariant.{Linked, Values, Values-tail}
use crossbeam.SegQueue.Push.{Represents, linked_queue, new_queue}

-- The addresses of `n` blocks from the number `b` on.
abbrev pub addresses_from : (ℕ → ℕ) → ℕ → ℕ → List ℕ
addresses_from addr b zero = []
addresses_from addr b (suc n) = addr b ∷ addresses_from addr (b + 1) n

module _ {ℓ} {T : Type ℓ} where
  -- The values of a list as what is read from their slots.
  abbrev pub values_read : List T → List (Option T)
  values_read [] = []
  values_read (x ∷ xs) = some x ∷ values_read xs

  module _ (addr : ℕ → ℕ) (t : ℕ) (q : SegQueue T) (small : t < 2 ^ 60)
      (positive : (b : ℕ) → b ≤ t / 31 → 0 < addr b)
      (links : (b : ℕ) → b < t / 31 → (q.blocks (addr b)).next ≡ addr (b + 1)) where
    -- The turn of a value.
    drop_loop-value :
        (fuel h : ℕ) (x : T)
        → h < t
        → ((q.blocks (addr (h / 31))).slots (h % 31)).value ≡ some x
        → let r = drop_loop fuel (2 * (position h + 1)) (2 * position t) (addr (h / 31)) q in
          drop_loop (suc fuel) (2 * position h) (2 * position t) (addr (h / 31)) q
          ≡ (some x ∷ r.0, r.1)
    unfolding drop_loop
    drop_loop-value fuel h x less at =
        let apart : 2 * position h ≢ 2 * position t = λ e. omega (arith, e, less) in
        let offset : offset_of (2 * position h) ≡ h % 31 = omega arith in
        let step : wrapping_add (2 * position h) 2 ≡ 2 * (position h + 1) =
          omega (arith, less, small) in
        rw (drop_loop, ne→== _ _ apart, offset, lt→ltb (h % 31) 31 (omega arith), at, step) refl

    -- The turn of the position at the end of a block.
    drop_loop-block :
        (fuel h : ℕ)
        → h < t
        → h % 31 + 1 ≡ 31
        → let r = drop_loop fuel (2 * position (h + 1)) (2 * position t) (addr (h / 31 + 1)) q in
          drop_loop (suc fuel) (2 * (position h + 1)) (2 * position t) (addr (h / 31)) q
          ≡ (r.0, addr (h / 31) ∷ r.1)
    unfolding drop_loop
    drop_loop-block fuel h less full =
        let apart : 2 * (position h + 1) ≢ 2 * position t = λ e. omega (arith, e, full) in
        let offset : offset_of (2 * (position h + 1)) ≡ 31 = omega (arith, full) in
        let step : wrapping_add (2 * (position h + 1)) 2 ≡ 2 * position (h + 1) =
          omega (arith, less, small, full, position-next_block h full) in
        rw (drop_loop, ne→== _ _ apart, offset, step, links (h / 31) (omega (arith, less, full)))
          refl

    -- The last turn.
    drop_loop-end :
        (fuel h : ℕ)
        → h ≡ t
        → drop_loop (suc fuel) (2 * position h) (2 * position t) (addr (h / 31)) q
          ≡ ([], addr (h / 31) ∷ [])
    unfolding drop_loop
    drop_loop-end fuel h at_end =
        let some_block : addr (h / 31) ≢ 0 =
          λ e. omega (arith, positive (h / 31) (omega (arith, at_end)), e) in
        rw
          (
            drop_loop,
            eq→== (2 * position h) (2 * position t) (ap (λ p. 2 * position p) at_end),
            ne→== _ _ some_block,
          )
          refl

    drop_loop-all :
        (xs : List T) (fuel h : ℕ)
        → h + length xs ≡ t
        → 2 * length xs < fuel
        → Values addr h xs q.blocks
        → drop_loop fuel (2 * position h) (2 * position t) (addr (h / 31)) q
          ≡ (values_read xs, addresses_from addr (h / 31) (suc (t / 31 - h / 31)))
    drop_loop-all [] zero h at enough values = absurd (omega arith)
    drop_loop-all [] (suc fuel) h at enough values =
        let none_left : t / 31 - h / 31 ≡ 0 = omega arith in
        rw none_left (drop_loop-end fuel h (omega arith))
    drop_loop-all (x ∷ xs) zero h at enough values = absurd (omega arith)
    drop_loop-all (x ∷ xs) (suc zero) h at enough values = absurd (omega arith)
    drop_loop-all (x ∷ xs) (suc (suc fuel)) h at enough values =
        let start : h ≡ h + 0 = omega arith in
        let first : ((q.blocks (addr (h / 31))).slots (h % 31)).value ≡ some x =
          ap (λ p. ((q.blocks (addr (p / 31))).slots (p % 31)).value) start ∙ values 0 x refl in
        let tail = Values-tail addr h x xs q.blocks values in
        drop_loop-value (suc fuel) h x (omega arith) first ∙ elim (ℕ_discrete (h % 31 + 1) 31) [
          | yes full ↦
              let count : suc (t / 31 - (h + 1) / 31) ≡ t / 31 - h / 31 =
                omega (arith, block-next_block h full) in
              rw
                (
                  drop_loop-block fuel h (omega arith) full,
                  ← block-next_block h full,
                  drop_loop-all xs fuel (h + 1) (omega arith) (omega arith) tail,
                  ← count,
                )
                refl
          | no more ↦
              rw
                (
                  ← position-next h (omega (arith, more)),
                  ← block-next h (omega (arith, more)),
                  drop_loop-all xs (suc fuel) (h + 1) (omega arith) (omega arith) tail,
                )
                refl
        ]

  dropped-Linked :
      {addr : ℕ → ℕ} {h : ℕ} {xs : List T} {q : SegQueue T}
      → Linked addr h xs q
      → h + length xs < 2 ^ 60
      → dropped q
        ≡ (values_read xs, addresses_from addr (h / 31) (suc ((h + length xs) / 31 - h / 31)))
  unfolding dropped
  dropped-Linked {addr} {h} {xs} {q} linked small =
      let head : high_bits q.head_index 2 ≡ 2 * position h = omega (arith, linked.head_at) in
      let tail : high_bits q.tail_index 2 ≡ 2 * position (h + length xs) =
        omega (arith, linked.tail_at) in
      ap (λ p. drop_loop word_mod p (high_bits q.tail_index 2) q.head_block q) head
      ∙ ap (λ p. drop_loop word_mod (2 * position h) p q.head_block q) tail
      ∙ ap (λ b. drop_loop word_mod (2 * position h) (2 * position (h + length xs)) b q)
          linked.head_block_at
      ∙ drop_loop-all addr (h + length xs) q small linked.positive linked.links xs word_mod h refl
          (omega arith) linked.values

  -- There is no block to free where the head and the tail are at the same place of no block.
  drop_loop-nothing :
      (fuel : ℕ) {head tail block : ℕ} (q : SegQueue T)
      → 0 < fuel
      → head ≡ tail
      → block ≡ 0
      → drop_loop fuel head tail block q ≡ ([], [])
  unfolding drop_loop
  drop_loop-nothing zero q enough same null = absurd (omega arith)
  drop_loop-nothing (suc fuel) {head} {tail} {block} q enough same null =
      rw (drop_loop, eq→== head tail same, eq→== block 0 null) refl

  -- The blocks of a queue, from that of the head to that of the tail; a queue that no value came to
  -- has none.
  abbrev pub held_blocks : {h : ℕ} {xs : List T} {q : SegQueue T} → Represents h xs q → List ℕ
  held_blocks {h} {xs} (linked_queue addr _) =
      addresses_from addr (h / 31) (suc ((h + length xs) / 31 - h / 31))
  held_blocks (new_queue _ _ _) = []

  -- Dropping a queue drops exactly the values that it holds, in order, and frees exactly the blocks from
  -- that of the head to that of the tail, and no block where no value ever came to the queue. Fewer than
  -- `2 ^ 60` values came so far.
  pub dropped-values :
      {h : ℕ} {xs : List T} {q : SegQueue T} (rep : Represents h xs q)
      → h + length xs < 2 ^ 60
      → dropped q ≡ (values_read xs, held_blocks rep)
  unfolding dropped
  dropped-values (linked_queue addr linked) small = dropped-Linked linked small
  dropped-values {q = q} (new_queue at empty q_new) small =
      let no_block : q.head_block ≡ 0 = ap (λ p. p.head_block) q_new in
      let same : high_bits q.head_index 2 ≡ high_bits q.tail_index 2 =
        ap (λ p. high_bits p.head_index 2) q_new ∙ sym (ap (λ p. high_bits p.tail_index 2) q_new) in
      rw empty (drop_loop-nothing word_mod q (omega arith) same no_block)
