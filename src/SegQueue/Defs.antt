-- ===== src/SegQueue/Defs.antt =====
-- `Slot`, `Block`, `Position` and `SegQueue`, with the methods that have exclusive access.
use crossbeam.Prelude.{
  ℕ, zero, suc, ◌+◌, ◌-◌, ◌*◌, ◌/◌, ◌%◌, Bool, true, false, Option, none, some, List, [], ◌∷◌,
  if◌then◌else◌, ◌==◌, ltb, word_mod, wrapping_add, wrapping_sub, high_bits,
}
use crossbeam.ArrayQueue.Defs.{Outcome, returned, undefined}

abbrev pub lap : ℕ
lap = 32

abbrev pub block_cap : ℕ
block_cap = 31

-- The offset of an index into its block.
abbrev pub offset_of : ℕ → ℕ
offset_of index = index / 2 % lap

-- An index that falls onto the end of a block moves to the next one.
abbrev pub fix_up : ℕ → ℕ
fix_up index = if index / 2 % lap == lap - 1 then wrapping_add index 2 else index

-- A slot; the bits `WRITE`, `READ` and `DESTROY` of its state are three flags.
pub record Slot {ℓ} (T : Type ℓ) : Type ℓ where
  pub value : Option T
  pub written : Bool
  pub was_read : Bool
  pub destroyed : Bool

-- A block; `next` is an address, of which 0 is the null pointer.
pub record Block {ℓ} (T : Type ℓ) : Type ℓ where
  pub next : ℕ
  pub slots : ℕ → Slot T

-- The two positions of the queue, and the blocks by their address. `freed` are the blocks that were
-- deallocated.
pub record SegQueue {ℓ} (T : Type ℓ) : Type ℓ where
  pub head_index : ℕ
  pub head_block : ℕ
  pub tail_index : ℕ
  pub tail_block : ℕ
  pub blocks : ℕ → Block T
  pub next_ptr : ℕ
  pub freed : List ℕ

module _ {ℓ} {T : Type ℓ} where
  abbrev pub empty_slot : Slot T
  empty_slot = record { value = none; written = false; was_read = false; destroyed = false }

  -- `Block::new`, which is zeroed.
  abbrev pub empty_block : Block T
  empty_block = record { next = 0; slots = λ i. empty_slot }

  -- `SegQueue::new`
  abbrev pub new : SegQueue T
  new = record {
    head_index = 0;
    head_block = 0;
    tail_index = 0;
    tail_block = 0;
    blocks = λ p. empty_block;
    next_ptr = 1;
    freed = [];
  }

  abbrev pub set_block : ℕ → Block T → (ℕ → Block T) → ℕ → Block T
  set_block p block blocks a = if a == p then block else blocks a

  abbrev pub set_slot : ℕ → Slot T → Block T → Block T
  set_slot i slot block = record block { slots = λ j. if j == i then slot else block.slots j }

  -- The allocation of a block, at `next_ptr`.
  abbrev pub alloc_block : SegQueue T → SegQueue T
  alloc_block q = record q {
    blocks = set_block q.next_ptr empty_block q.blocks;
    next_ptr = q.next_ptr + 1;
  }

  -- The first block is allocated by the first push.
  abbrev pub first_block : SegQueue T → SegQueue T
  first_block q =
      if q.tail_block == 0
      then record (alloc_block q) { head_block = q.next_ptr; tail_block = q.next_ptr }
      else q

  -- A push to the last slot of a block links the next one.
  abbrev pub link_block : ℕ → SegQueue T → SegQueue T
  link_block new_tail q =
      let q' = alloc_block q in
      record q' {
        tail_block = q.next_ptr;
        tail_index = wrapping_add new_tail 2;
        blocks =
            set_block q.tail_block (record (q'.blocks q.tail_block) { next = q.next_ptr })
              q'.blocks;
      }

  -- The write of a value into a slot.
  abbrev pub write_slot : ℕ → ℕ → T → SegQueue T → SegQueue T
  write_slot p offset value q = record q {
    blocks =
        set_block p
          (set_slot offset
            (record ((q.blocks p).slots offset) { value = some value; written = true })
            (q.blocks p))
          q.blocks;
  }

  unfoldable pub push_mut : T → SegQueue T → SegQueue T
  push_mut value q =
      let tail = q.tail_index in
      let offset = offset_of tail in
      let started = first_block q in
      let block = started.tail_block in
      let new_tail = wrapping_add tail 2 in
      let moved = record started { tail_index = new_tail } in
      let linked = if offset + 1 == block_cap then link_block new_tail moved else moved in
      write_slot block offset value linked

  abbrev pub free_block : ℕ → SegQueue T → SegQueue T
  free_block p q = record q { freed = p ∷ q.freed }

  -- The loop of `Block::destroy` from the slot `i` on, with `n` slots left: it stops at a slot that is
  -- still in use, which it marks.
  unfoldable pub destroy_loop : ℕ → ℕ → ℕ → SegQueue T → SegQueue T
  destroy_loop zero i p q = free_block p q
  destroy_loop (suc n) i p q =
      let slot = (q.blocks p).slots i in
      let marked =
        set_block p (set_slot i (record slot { destroyed = true }) (q.blocks p)) q.blocks in
      let rest = destroy_loop n (i + 1) p q in
      if slot.was_read then rest else record q { blocks = marked }

  -- `Block::destroy`
  unfoldable pub destroy : ℕ → ℕ → SegQueue T → SegQueue T
  destroy p start q = destroy_loop (block_cap - 1 - start) start p q

  -- What a pop does to the slot that it read: the last slot frees the block.
  abbrev pub release_slot : ℕ → ℕ → SegQueue T → SegQueue T
  release_slot p offset q =
      if offset + 1 == block_cap
      then free_block p q
      else let slot = (q.blocks p).slots offset in
        let q' = record q {
          blocks =
              set_block p (set_slot offset (record slot { was_read = true }) (q.blocks p)) q.blocks;
        } in
        if slot.destroyed then destroy p (offset + 1) q' else q'

  -- `assume_init` on a value.
  abbrev pub taken : Option T → SegQueue T → Outcome (Option T × SegQueue T)
  taken none q = undefined
  taken (some value) q = returned (some value, q)

  -- The part of `pop_mut` on a queue that is not empty; `head` moves to `new_head`.
  unfoldable pub pop_from : ℕ → SegQueue T → Outcome (Option T × SegQueue T)
  pop_from new_head q =
      let block = q.head_block in
      let offset = offset_of q.head_index in
      let next = (q.blocks block).next in
      let next_index = wrapping_add (high_bits new_head 2) 2 in
      let moved =
        if offset + 1 == block_cap
        then record q {
          head_block = next;
          head_index = if (q.blocks next).next == 0 then next_index else next_index + 1;
        }
        else record q { head_index = new_head } in
      taken ((q.blocks block).slots offset).value (release_slot block offset moved)

  unfoldable pub pop_mut : SegQueue T → Outcome (Option T × SegQueue T)
  pop_mut q =
      let head = q.head_index in
      let tail = q.tail_index in
      let new_head = wrapping_add head 2 in
      if new_head % 2 == 0
      then if head / 2 == tail / 2
        then returned (none, q)
        else pop_from (if head / 2 / lap == tail / 2 / lap then new_head else new_head + 1) q
      else pop_from new_head q

  -- `SegQueue::is_empty`
  unfoldable pub is_empty : SegQueue T → Bool
  is_empty q = q.head_index / 2 == q.tail_index / 2

  -- `SegQueue::len`, where no other thread moves the tail.
  unfoldable pub len : SegQueue T → ℕ
  len q =
      let tail = fix_up (high_bits q.tail_index 2) in
      let head = fix_up (high_bits q.head_index 2) in
      let laps = head / 2 / lap in
      let tail' = wrapping_sub tail (laps * lap * 2) / 2 in
      let head' = wrapping_sub head (laps * lap * 2) / 2 in tail' - head' - tail' / lap

  -- The loop of `SegQueue::drop`: the values that it drops and the blocks that it frees, in order.
  unfoldable pub drop_loop : ℕ → ℕ → ℕ → ℕ → SegQueue T → List (Option T) × List ℕ
  drop_loop zero head tail block q = ([], [])
  drop_loop (suc fuel) head tail block q =
      let offset = offset_of head in
      let is_value = ltb offset block_cap in
      let (values, freed) =
        drop_loop fuel (wrapping_add head 2) tail
          (if is_value then block else (q.blocks block).next) q in
      if head == tail
      then ([], if block == 0 then [] else block ∷ [])
      else if is_value
      then (((q.blocks block).slots offset).value ∷ values, freed)
      else (values, block ∷ freed)

  unfoldable pub dropped : SegQueue T → List (Option T) × List ℕ
  dropped q =
      drop_loop word_mod (high_bits q.head_index 2) (high_bits q.tail_index 2) q.head_block q
