-- ===== src/SegQueue/Pop.antt =====
-- `SegQueue::pop_mut`.
use crossbeam.Prelude.{
  ℕ, suc, ◌+◌, ◌*◌, ◌/◌, ◌%◌, ◌^◌, ◌<◌, ◌≡◌, ◌≢◌, refl, ap, ◌∙◌, arith, true, none, some, List, [],
  ◌∷◌, length, eq→==, ne→==, ℕ_discrete, wrapping_add, high_bits,
}
use crossbeam.ArrayQueue.Defs.{returned}
use crossbeam.SegQueue.Defs.{
  Slot, SegQueue, set_block, set_slot, offset_of, free_block, pop_from, pop_mut,
}
use crossbeam.SegQueue.Positions.{
  position, position-next, position-next_block, block-next, block-next_block,
}
use crossbeam.SegQueue.Invariant.{
  Linked, set_slot-value, Values-tail, set_slot-next, set_slot-unmarked,
}
use crossbeam.SegQueue.Push.{Represents, linked_queue, new_queue}

module _ {ℓ} {T : Type ℓ} where
  module _ {addr : ℕ → ℕ} {h : ℕ} {x : T} {xs : List T} {q : SegQueue T}
      (linked : Linked addr h (x ∷ xs) q) (new_head : ℕ) (moved : new_head / 2 ≡ position h + 1)
      (flag : new_head % 2 ≡ 1 → h / 31 < (h + suc (length xs)) / 31) where
    abbrev end : h + 1 + length xs ≡ h + suc (length xs)
    end = omega arith

    head_value : ((q.blocks q.head_block).slots (h % 31)).value ≡ some x
    head_value =
        let start : h ≡ h + 0 = omega arith in
        ap (λ b. ((q.blocks b).slots (h % 31)).value) linked.head_block_at
        ∙ ap (λ p. ((q.blocks (addr (p / 31))).slots (p % 31)).value) start
        ∙ linked.values 0 x refl

    offset_at : offset_of q.head_index ≡ h % 31
    offset_at = omega (arith, linked.head_at)

    -- A pop inside a block.
    pop-within :
        h % 31 + 1 < 31
        → Linked addr (h + 1) xs (record q {
          head_index = new_head;
          blocks =
              set_block q.head_block
                (set_slot
                  (h % 31)
                  (record ((q.blocks q.head_block).slots (h % 31)) { was_read = true })
                  (q.blocks q.head_block))
                q.blocks;
        })
    pop-within more =
        let slot : Slot T = record ((q.blocks q.head_block).slots (h % 31)) { was_read = true } in
        let next = set_slot-next q.blocks q.head_block (h % 31) slot in
        record {
          head_at = omega (arith, moved, position-next h more);
          flagged = λ f. omega (arith, flag f, block-next h more, end);
          tail_at = rw end linked.tail_at;
          head_block_at = rw (block-next h more) linked.head_block_at;
          tail_block_at = rw end linked.tail_block_at;
          positive = λ b le. linked.positive b (omega (arith, end));
          allocated = λ b le. linked.allocated b (omega (arith, end));
          apart = λ b c le le'. linked.apart b c (omega (arith, end)) (omega (arith, end));
          links = λ b less. next (addr b) ∙ linked.links b (omega (arith, end));
          last = rw end (next (addr ((h + suc (length xs)) / 31)) ∙ linked.last);
          values = λ i y e.
              set_slot-value q.blocks q.head_block (h % 31) slot refl (addr ((h + 1 + i) / 31))
                ((h + 1 + i) % 31)
              ∙ Values-tail addr h x xs q.blocks linked.values i y e;
          unmarked =
              set_slot-unmarked q.blocks q.head_block (h % 31) slot linked.unmarked
                (linked.unmarked q.head_block (h % 31));
          freed_at = rw (block-next h more) linked.freed_at;
        }

    -- A pop of the last value of a block, which is freed.
    pop-across :
        h % 31 + 1 ≡ 31
        → h < 2 ^ 60
        → (flagged_head : ℕ) → flagged_head / 2 ≡ position h + 2
        → (flagged_head % 2 ≡ 1 → (q.blocks (addr (h / 31 + 1))).next ≢ 0)
        → Linked addr (h + 1) xs (
            free_block q.head_block
              (record q { head_block = (q.blocks q.head_block).next; head_index = flagged_head }))
    pop-across full small flagged_head at has_next =
        let next_at : (q.blocks q.head_block).next ≡ addr (h / 31 + 1) =
          ap (λ b. (q.blocks b).next) linked.head_block_at
          ∙ linked.links (h / 31) (omega (arith, block-next_block h full)) in
        let block : (h + 1) / 31 ≡ suc (h / 31) = omega (arith, block-next_block h full) in
        let block' : h / 31 + 1 ≡ (h + 1) / 31 = omega (arith, block-next_block h full) in
        let more : flagged_head % 2 ≡ 1 → h / 31 + 1 ≢ (h + suc (length xs)) / 31 =
          λ f e. has_next f (ap (λ b. (q.blocks (addr b)).next) e ∙ linked.last) in
        record {
          head_at = omega (arith, at, position-next_block h full);
          flagged = λ f. omega (arith, more f, block, end);
          tail_at = rw end linked.tail_at;
          head_block_at = next_at ∙ ap addr block';
          tail_block_at = rw end linked.tail_block_at;
          positive = λ b le. linked.positive b (omega (arith, end));
          allocated = λ b le. linked.allocated b (omega (arith, end));
          apart = λ b c le le'. linked.apart b c (omega (arith, end)) (omega (arith, end));
          links = λ b less. linked.links b (omega (arith, end));
          last = rw end linked.last;
          values = Values-tail addr h x xs q.blocks linked.values;
          unmarked = linked.unmarked;
          freed_at = rw (block, linked.head_block_at, linked.freed_at) refl;
        }

    -- The part of a pop after its test for emptiness.
    pop_from-some :
        h < 2 ^ 60
        → (q' : SegQueue T) × (pop_from new_head q ≡ returned (some x, q'))
          × Linked addr (h + 1) xs q'
    unfolding pop_from
    pop_from-some small = elim (ℕ_discrete (h % 31 + 1) 31) [
      | yes full ↦
          let next = (q.blocks q.head_block).next in
          let ni = wrapping_add (high_bits new_head 2) 2 in
          let ni_at : ni ≡ 2 * (position h + 2) = omega (arith, moved, small) in
          let next_at : next ≡ addr (h / 31 + 1) =
            ap (λ b. (q.blocks b).next) linked.head_block_at
            ∙ linked.links (h / 31) (omega (arith, block-next_block h full)) in
          elim (ℕ_discrete (q.blocks next).next 0) [
            | yes last ↦ (
              free_block q.head_block (record q { head_block = next; head_index = ni }),
              rw
                  (
                    offset_at,
                    eq→== (h % 31 + 1) 31 full,
                    eq→== (q.blocks next).next 0 last,
                    head_value,
                  )
                  refl,
              pop-across full small ni (omega (arith, ni_at))
                  (λ f. absurd (omega (arith, f, ni_at))),
            )
            | no linked_on ↦ (
              free_block q.head_block (record q { head_block = next; head_index = ni + 1 }),
              rw
                  (
                    offset_at,
                    eq→== (h % 31 + 1) 31 full,
                    ne→== (q.blocks next).next 0 linked_on,
                    head_value,
                  )
                  refl,
              pop-across full small (ni + 1) (omega (arith, ni_at))
                  (λ f e. linked_on (ap (λ b. (q.blocks b).next) next_at ∙ e)),
            )
          ]
      | no more ↦ (
        record q {
          head_index = new_head;
          blocks =
              set_block q.head_block
                (set_slot (h % 31)
                  (record ((q.blocks q.head_block).slots (h % 31)) { was_read = true })
                  (q.blocks q.head_block))
                q.blocks;
        },
        rw
            (
              offset_at,
              ne→== (h % 31 + 1) 31 more,
              head_value,
              linked.unmarked q.head_block (h % 31),
            )
            refl,
        pop-within (omega (arith, more)),
      )
    ]

  pop_mut-Linked :
      {addr : ℕ → ℕ} {h : ℕ} {x : T} {xs : List T} {q : SegQueue T}
      → Linked addr h (x ∷ xs) q
      → h < 2 ^ 60
      → (q' : SegQueue T) × (pop_mut q ≡ returned (some x, q')) × Linked addr (h + 1) xs q'
  unfolding pop_mut
  pop_mut-Linked {addr} {h} {x} {xs} {q} linked small =
      let end : h + 1 + length xs ≡ h + suc (length xs) = omega arith in
      let new_head = wrapping_add q.head_index 2 in
      let next : new_head ≡ q.head_index + 2 = omega (arith, linked.head_at, small) in
      elim (ℕ_discrete (new_head % 2) 0) [
        | yes plain ↦
            let apart : q.head_index / 2 ≢ q.tail_index / 2 =
              λ e. omega (arith, e, linked.head_at, linked.tail_at) in
            elim (ℕ_discrete (q.head_index / 2 / 32) (q.tail_index / 2 / 32)) [
              | yes same ↦
                  let (q', e, linked') =
                    pop_from-some linked new_head (omega (arith, next, linked.head_at))
                      (λ f. absurd (omega (arith, f, plain))) small in
                  (q', rw (eq→== _ _ plain, ne→== _ _ apart, eq→== _ _ same) e, linked')
              | no further ↦
                  let (q', e, linked') =
                    pop_from-some linked (new_head + 1) (omega (arith, next, linked.head_at, plain))
                      (λ f. omega (arith, further, next, linked.head_at, linked.tail_at)) small in
                  (q', rw (eq→== _ _ plain, ne→== _ _ apart, ne→== _ _ further) e, linked')
            ]
        | no flagged ↦
            let (q', e, linked') =
              pop_from-some linked new_head (omega (arith, next, linked.head_at))
                (λ f. linked.flagged (omega (arith, next, f))) small in
            (q', rw (ne→== _ _ flagged) e, linked')
      ]

  -- `pop_mut` of a queue that holds values returns the first and leaves the rest.
  pub pop_mut-some :
      {h : ℕ} {x : T} {xs : List T} {q : SegQueue T}
      → Represents h (x ∷ xs) q
      → h < 2 ^ 60
      → (q' : SegQueue T) × (pop_mut q ≡ returned (some x, q')) × Represents (h + 1) xs q'
  pop_mut-some (linked_queue addr linked) small =
      let (q', e, linked') = pop_mut-Linked linked small in (q', e, linked_queue addr linked')
  pop_mut-some (new_queue at empty q_new) small = absurd (cc (empty))

  -- `pop_mut` of an empty queue returns nothing and leaves it as it was.
  pub pop_mut-none : {h : ℕ} {q : SegQueue T} → Represents h [] q → pop_mut q ≡ returned (none, q)
  unfolding pop_mut
  pop_mut-none {h} {q} (linked_queue addr linked) =
      let plain : wrapping_add q.head_index 2 % 2 ≡ 0 = elim (ℕ_discrete (q.head_index % 2) 1) [
        | yes f ↦ absurd (omega (arith, linked.flagged f))
        | no n ↦ omega (arith, n)
      ] in
      let same : q.head_index / 2 ≡ q.tail_index / 2 =
        omega (arith, linked.head_at, linked.tail_at) in
      rw (eq→== _ _ plain, eq→== _ _ same) refl
  pop_mut-none (new_queue at empty q_new) = rw q_new refl
