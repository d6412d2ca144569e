-- ===== src/SegQueue/Push.antt =====
-- `SegQueue::push_mut`.
use crossbeam.Prelude.{
  ℕ, ◌+◌, ◌/◌, ◌%◌, ◌^◌, ◌≤◌, ◌<◌, ◌≡◌, ◌≢◌, inl, inr, refl, sym, ap, subst, ◌∙◌, arith, true,
  false, some, List, [], ◌∷◌, ◌++◌, length, length-snoc, Bool-cases, eq→==, ne→==, ℕ_discrete, ◌==◌,
  wrapping_add,
}
use crossbeam.SegQueue.Defs.{
  Slot, SegQueue, set_block, set_slot, write_slot, link_block, first_block, offset_of, new,
  push_mut,
}
use crossbeam.SegQueue.Positions.{position-next, position-next_block, block-next, block-next_block}
use crossbeam.SegQueue.Link.{
  extended, extended-old, extended-new, extended-Apart, extended-elim, addresses_before-extended,
  link, link-new, link-links, link-Values, link-unmarked, extended-Values,
}
use crossbeam.SegQueue.Invariant.{Linked, set_slot-next, Values, set_slot-Values, set_slot-unmarked}

module _ {ℓ} {T : Type ℓ} {addr : ℕ → ℕ} {h : ℕ} {xs : List T} {q : SegQueue T}
    (linked : Linked addr h xs q) (value : T) where
  abbrev t : ℕ
  t = h + length xs

  -- A push that does not fill its block.
  push-within :
      (new_tail : ℕ)
      → new_tail ≡ q.tail_index + 2
      → t % 31 + 1 < 31
      → Linked addr h
          (xs ++ (value ∷ []))
          (write_slot q.tail_block (t % 31) value (record q { tail_index = new_tail }))
  push-within new_tail moved more =
      let count : h + length (xs ++ (value ∷ [])) ≡ t + 1 = omega (arith, length-snoc xs value) in
      let block : (h + length (xs ++ (value ∷ []))) / 31 ≡ t / 31 =
        ap (λ n. n / 31) count ∙ block-next t more in
      let written_slot : Slot T = record ((q.blocks q.tail_block).slots (t % 31)) {
        value = some value;
        written = true;
      } in
      record {
        head_at = linked.head_at;
        flagged = λ f. rw block (linked.flagged f);
        tail_at = rw count (omega (arith, moved, linked.tail_at, position-next t more));
        head_block_at = linked.head_block_at;
        tail_block_at = rw block linked.tail_block_at;
        positive = λ b le. linked.positive b (omega (arith, block));
        allocated = λ b le. linked.allocated b (omega (arith, block));
        apart = λ b c le le'. linked.apart b c (omega (arith, block)) (omega (arith, block));
        links = λ b less.
            set_slot-next q.blocks q.tail_block (t % 31) written_slot (addr b)
            ∙ linked.links b (omega (arith, block));
        last =
            set_slot-next q.blocks q.tail_block (t % 31) written_slot _
            ∙ ap (λ n. (q.blocks (addr n)).next) block
            ∙ linked.last;
        values =
            subst
              (λ a.
                Values addr h (xs ++ (value ∷ []))
                  (set_block a (set_slot (t % 31) written_slot (q.blocks a)) q.blocks))
              (sym linked.tail_block_at)
              (set_slot-Values addr h xs q.blocks written_slot value linked.values linked.apart
                refl);
        unmarked =
            set_slot-unmarked q.blocks q.tail_block (t % 31) written_slot linked.unmarked
              (linked.unmarked q.tail_block (t % 31));
        freed_at = linked.freed_at;
      }

  -- A push to the last slot of a block.
  push-across :
      (new_tail : ℕ)
      → new_tail ≡ q.tail_index + 2
      → t % 31 + 1 ≡ 31
      → t < 2 ^ 60
      → Linked (extended addr (t / 31) q.next_ptr) h (xs ++ (value ∷ [])) (
          write_slot q.tail_block
            (t % 31)
            value
            (link_block new_tail (record q { tail_index = new_tail })))
  push-across new_tail moved full small =
      let n = t / 31 in
      let p = q.next_ptr in
      let a = q.tail_block in
      let ext = extended addr n p in
      let blocks = link p a q.blocks in
      let written_slot : Slot T = record ((blocks a).slots (t % 31)) {
        value = some value;
        written = true;
      } in
      let count : h + length (xs ++ (value ∷ [])) ≡ t + 1 = omega (arith, length-snoc xs value) in
      let block : (h + length (xs ++ (value ∷ []))) / 31 ≡ n + 1 =
        ap (λ m. m / 31) count ∙ block-next_block t full in
      let ne : a ≢ p =
        λ e. omega (arith, linked.allocated n (omega arith), linked.tail_block_at, e) in
      let next : (b : ℕ)
          → (set_block a (set_slot (t % 31) written_slot (blocks a)) blocks b).next
            ≡ (blocks b).next =
        set_slot-next blocks a (t % 31) written_slot in
      record {
        head_at = linked.head_at;
        flagged = λ f. rw block (omega (arith, linked.flagged f));
        tail_at =
            rw count (omega (arith, moved, linked.tail_at, position-next_block t full, small));
        head_block_at = linked.head_block_at ∙ sym (extended-old addr n p (h / 31) (omega arith));
        tail_block_at = rw block (sym (extended-new addr n p));
        positive = λ b le.
            extended-elim (λ c. 0 < c) addr n p b (omega (arith, block)) (linked.positive b)
              (omega (arith, linked.allocated n (omega arith)));
        allocated = λ b le.
            extended-elim (λ c. c < p + 1) addr n p b (omega (arith, block))
              (λ old. omega (arith, linked.allocated b old)) (omega arith);
        apart = rw block (extended-Apart addr n p linked.apart linked.allocated);
        links = λ b less.
            let le : b ≤ n = omega (arith, block) in
            next (ext b)
            ∙ ap (λ c. (blocks c).next) (extended-old addr n p b le)
            ∙ ap (λ c. (link p c q.blocks (addr b)).next) linked.tail_block_at
            ∙ link-links addr n p q.blocks linked.apart linked.allocated linked.links b le;
        last = rw (block, extended-new addr n p) (next p ∙ link-new p a q.blocks ne);
        values =
            extended-Values addr n p h (xs ++ (value ∷ []))
              (set_block a (set_slot (t % 31) written_slot (blocks a)) blocks)
              (λ i less. omega (arith, count))
              (subst
                (λ c.
                  Values addr h (xs ++ (value ∷ []))
                    (set_block c (set_slot (t % 31) written_slot (blocks c)) blocks))
                (sym linked.tail_block_at)
                (set_slot-Values addr h xs blocks written_slot value
                  (link-Values addr n p h xs a q.blocks ne linked.allocated (λ i less. omega arith)
                    linked.values)
                  linked.apart refl));
        unmarked =
            set_slot-unmarked blocks a (t % 31) written_slot
              (link-unmarked p a q.blocks ne linked.unmarked)
              (link-unmarked p a q.blocks ne linked.unmarked a (t % 31));
        freed_at =
            linked.freed_at ∙ sym (addresses_before-extended addr n p (h / 31) (omega arith));
      }

  -- A push to a queue whose first block is there.
  pub push_mut-Linked :
      t < 2 ^ 60 → (addr' : ℕ → ℕ) × Linked addr' h (xs ++ (value ∷ [])) (push_mut value q)
  unfolding push_mut
  push_mut-Linked small =
      let there : (q.tail_block == 0) ≡ false =
        ne→== q.tail_block 0
          (λ e. omega (arith, linked.positive (t / 31) (omega arith), linked.tail_block_at, e)) in
      let offset : offset_of q.tail_index ≡ t % 31 = omega (arith, linked.tail_at) in
      let next : wrapping_add q.tail_index 2 ≡ q.tail_index + 2 =
        omega (arith, linked.tail_at, small) in
      elim (ℕ_discrete (t % 31 + 1) 31) [
        | yes full ↦ (
          extended addr (t / 31) q.next_ptr,
          rw (there, offset, eq→== (t % 31 + 1) 31 full) (push-across _ next full small),
        )
        | no more ↦ (
          addr,
          rw (there, offset, ne→== (t % 31 + 1) 31 more) (push-within _ next (omega (arith, more))),
        )
      ]

-- A queue holds `xs`, the first of which has the ticket `h`: it is linked, or no value came yet.
pub data Represents {ℓ} {T : Type ℓ} (h : ℕ) (xs : List T) (q : SegQueue T) : Type ℓ where
  linked_queue : (addr : ℕ → ℕ) → Linked addr h xs q → Represents h xs q
  new_queue : h ≡ 0 → xs ≡ [] → q ≡ new → Represents h xs q

module _ {ℓ} {T : Type ℓ} where
  -- The first block of a new queue.
  pub first_block-Linked : Linked {T = T} (λ b. 1) 0 [] (first_block new)
  first_block-Linked = record {
    head_at = refl;
    flagged = λ f. absurd (omega (arith, f));
    tail_at = refl;
    head_block_at = refl;
    tail_block_at = refl;
    positive = λ b le. omega arith;
    allocated = λ b le. omega arith;
    apart = λ b c le le' e. omega arith;
    links = λ b less. absurd (omega arith);
    last = refl;
    values = λ i x e. absurd (cc);
    unmarked = λ p i. elim (Bool-cases (p == 1)) [ inl e ↦ rw e refl | inr e ↦ rw e refl ];
    freed_at = refl;
  }

  push_mut-first : (value : T) → push_mut value new ≡ push_mut value (first_block new)
  unfolding push_mut
  push_mut-first value = refl

  -- `push_mut` puts the value behind the others, in a new block where it is the first.
  pub push_mut-Represents :
      {h : ℕ} {xs : List T} {q : SegQueue T} (value : T)
      → Represents h xs q
      → h + length xs < 2 ^ 60
      → Represents h (xs ++ (value ∷ [])) (push_mut value q)
  push_mut-Represents value (linked_queue addr linked) small =
      let (addr', linked') = push_mut-Linked linked value small in linked_queue addr' linked'
  push_mut-Represents value (new_queue at empty q_new) small =
      let (addr', linked') = push_mut-Linked first_block-Linked value (omega arith) in
      rw (at, empty, q_new, push_mut-first value) (linked_queue addr' linked')
