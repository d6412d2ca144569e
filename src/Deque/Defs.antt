-- ===== src/Deque/Defs.antt =====
-- `Buffer`, `Inner` and `Worker`.
use crossbeam.Prelude.{
  ℕ, zero, suc, ◌+◌, ◌-◌, ◌*◌, ◌/◌, ◌%◌, Bool, ◌&&◌, Option, none, some, List, [], ◌∷◌,
  if◌then◌else◌, ◌==◌, ltb, word_mod, low_bits, wrapping_add, wrapping_sub, power_from,
}
use crossbeam.Prelude.Int.{ℤ, pos, as_signed, ltb_int, leb_int, to_nat}
use crossbeam.ArrayQueue.Defs.{Outcome, returned, undefined}

abbrev pub min_cap : ℕ
min_cap = 64

abbrev pub max_batch : ℕ
max_batch = 32

-- `Buffer`: the address of an array and its length.
pub record Buffer : Type 0 where
  pub ptr : ℕ
  pub cap : ℕ

-- What the arrays hold, by their address and the index; `none` is uninitialised.
abbrev pub Heap {ℓ} : Type ℓ → Type ℓ
Heap T = ℕ → ℕ → Option T

pub data Flavor : Type 0 where
  fifo : Flavor
  lifo : Flavor

-- An `Inner` and its `Worker`: `shared` is the buffer of the former and `own` that of the latter. The
-- arrays and the next address are those of this deque; `retired` are the buffers whose deallocation
-- was deferred.
pub record Deque {ℓ} (T : Type ℓ) : Type ℓ where
  pub front : ℕ
  pub back : ℕ
  pub shared : Buffer
  pub own : Buffer
  pub flavor : Flavor
  pub heap : Heap T
  pub next_ptr : ℕ
  pub retired : List Buffer

module _ {ℓ} {T : Type ℓ} where
  -- `Buffer::read`; the index of `Buffer::at` is masked.
  abbrev pub read : Heap T → Buffer → ℕ → Option T
  read heap buffer index = heap buffer.ptr (low_bits index buffer.cap)

  -- `Buffer::write`
  abbrev pub write : Heap T → Buffer → ℕ → Option T → Heap T
  write heap buffer index task p i =
      if p == buffer.ptr
      then if i == low_bits index buffer.cap then task else heap p i
      else heap p i

  -- `Buffer::alloc`
  abbrev pub alloc : ℕ → Deque T → Buffer × Deque T
  alloc cap d = (
    record { ptr = d.next_ptr; cap = cap },
    record d {
      heap = λ p i. if p == d.next_ptr then none else d.heap p i;
      next_ptr = d.next_ptr + 1;
    },
  )

  -- A deque with no buffer yet.
  abbrev pub unallocated : Flavor → Deque T
  unallocated flavor = record {
    front = 0;
    back = 0;
    shared = record { ptr = 0; cap = 0 };
    own = record { ptr = 0; cap = 0 };
    flavor = flavor;
    heap = λ p i. none;
    next_ptr = 1;
    retired = [];
  }

  unfoldable pub new_fifo : Deque T
  new_fifo =
      let (buffer, d) = alloc min_cap (unallocated fifo) in
      record d { shared = buffer; own = buffer }

  unfoldable pub new_lifo : Deque T
  new_lifo =
      let (buffer, d) = alloc min_cap (unallocated lifo) in
      record d { shared = buffer; own = buffer }

  -- The loop of `resize` from the index `i` on. It goes through every index at most once, so `2 ^ 64`
  -- turns are always enough.
  unfoldable pub copy_loop : ℕ → ℕ → ℕ → Buffer → Buffer → Heap T → Heap T
  copy_loop zero i b old new heap = heap
  copy_loop (suc fuel) i b old new heap =
      let rest = copy_loop fuel (wrapping_add i 1) b old new (write heap new i (read heap old i)) in
      if i == b then heap else rest

  -- `Worker::resize`; the flush of the garbage of a large buffer is left out.
  unfoldable pub resize : ℕ → Deque T → Deque T
  resize new_cap d =
      let (new, d') = alloc new_cap d in
      record d' {
        heap = copy_loop word_mod d.front d.back d.own new d'.heap;
        own = new;
        shared = new;
        retired = d.shared ∷ d.retired;
      }

  -- The length as the code computes it.
  abbrev pub signed_len : Deque T → ℤ
  signed_len d = as_signed (wrapping_sub d.back d.front)

  -- `Worker::reserve`; `none` is the overflow of `next_power_of_two`.
  unfoldable pub reserve : ℕ → Deque T → Option (Deque T)
  reserve reserve_cap d =
      let len = wrapping_sub d.back d.front in
      if reserve_cap == 0
      then some d
      else if ltb (d.own.cap - len) reserve_cap
      then elim (power_from 64 1 (reserve_cap + len)) [
        | none ↦ none
        | some new_cap ↦ some (resize new_cap d)
      ]
      else some d

  -- `Worker::is_empty` and `Stealer::is_empty`, which read the indices in another order.
  unfoldable pub is_empty : Deque T → Bool
  is_empty d = leb_int (signed_len d) (pos 0)

  -- `Worker::len` and `Stealer::len`.
  unfoldable pub len : Deque T → ℕ
  len d = to_nat (signed_len d)

  unfoldable pub push : T → Deque T → Deque T
  push task d =
      let d' =
        if leb_int (as_signed d.own.cap) (signed_len d)
        then resize (2 * d.own.cap % word_mod) d
        else d in
      record d' { heap = write d'.heap d'.own d.back (some task); back = wrapping_add d.back 1 }

  -- `assume_init` on a task that was read, and the shrinking of the buffer that follows.
  abbrev pub take_task : Option T → Deque T → Outcome (Option T × Deque T)
  take_task none d = undefined
  take_task (some task) d = returned (some task, d)

  -- `Worker::pop` of a FIFO queue that was not empty when it had the length `len`.
  unfoldable pub pop_front : ℤ → Deque T → Outcome (Option T × Deque T)
  pop_front len d =
      let f = d.front in
      let d' = record d { front = wrapping_add f 1 } in
      if ltb_int (as_signed (wrapping_sub d.back (wrapping_add f 1))) (pos 0)
      then returned (none, record d' { front = f })
      else take_task (read d.heap d.own f) (
          if ltb min_cap d.own.cap && leb_int len (pos (d.own.cap / 4))
          then resize (d.own.cap / 2) d'
          else d')

  -- `Worker::pop` of a LIFO queue that was not empty. Where the last task is popped, the exchange on the
  -- front may fail if a stealer came first.
  unfoldable pub pop_back : Deque T → Outcome (Option T × Deque T)
  pop_back d =
      let b = wrapping_sub d.back 1 in
      let d' = record d { back = b } in
      let f = d'.front in
      let len = as_signed (wrapping_sub b f) in
      if ltb_int len (pos 0)
      then returned (none, record d' { back = wrapping_add b 1 })
      else if leb_int len (pos 0)
      then (if d'.front == f
          then take_task (read d.heap d.own b)
              (record d' { front = wrapping_add f 1; back = wrapping_add b 1 })
          else returned (none, record d' { back = wrapping_add b 1 }))
      else take_task (read d.heap d.own b) (
          if ltb min_cap d.own.cap && ltb_int len (pos (d.own.cap / 4))
          then resize (d.own.cap / 2) d'
          else d')

  unfoldable pub pop : Deque T → Outcome (Option T × Deque T)
  pop d =
      if leb_int (signed_len d) (pos 0)
      then returned (none, d)
      else elim d.flavor [ fifo ↦ pop_front (signed_len d) d | lifo ↦ pop_back d ]

  -- The loop of `Inner::drop`: the tasks that it drops, in order.
  unfoldable pub drop_loop : ℕ → ℕ → ℕ → Deque T → List (Option T)
  drop_loop zero i b d = []
  drop_loop (suc fuel) i b d =
      let rest = drop_loop fuel (wrapping_add i 1) b d in
      if i == b then [] else read d.heap d.shared i ∷ rest

  -- `Inner::drop`: the tasks that it drops, and the buffer that it frees.
  unfoldable pub dropped : Deque T → List (Option T) × ℕ
  dropped d = (drop_loop word_mod d.front d.back d, d.shared.ptr)
