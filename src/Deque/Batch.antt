-- ===== src/Deque/Batch.antt =====
-- `Stealer::steal_batch_with_limit` and `Stealer::steal_batch_with_limit_and_pop`, with a destination
-- other than the source, where no other thread interrupts them.
use crossbeam.Prelude.{
  ℕ, zero, suc, ◌+◌, ◌-◌, ◌/◌, true, false, not, ◌&&◌, ◌||◌, Option, none, some, if◌then◌else◌,
  ◌==◌, ltb, wrapping_add, wrapping_sub,
}
use crossbeam.Prelude.Int.{pos, as_signed, leb_int, to_nat}
use crossbeam.Deque.Defs.{
  Buffer, Heap, Deque, Flavor, fifo, lifo, max_batch, read, write, reserve, signed_len,
}
use crossbeam.Deque.Steal.{Steal, empty, success, retry}

-- The result with the source and the destination; the code panics on a limit of 0 and where the size of
-- a buffer overflows, and a task that is not there is undefined behaviour.
pub data BatchResult {ℓ} (T R : Type ℓ) : Type ℓ where
  panicked : BatchResult T R
  undefined : BatchResult T R
  finished : Steal R → Deque T → Deque T → BatchResult T R

-- What the loop of a LIFO source leaves: the number of tasks that it moved, the next index of the
-- destination, the source, the slots of the destination and the task that it holds back.
pub record Moved {ℓ} (T : Type ℓ) : Type ℓ where
  pub size : ℕ
  pub dest_b : ℕ
  pub source : Deque T
  pub heap : Heap T
  pub task : Option T

-- `cmp::min`
abbrev pub min : ℕ → ℕ → ℕ
min a b = if ltb b a then b else a

module _ {ℓ} {T : Type ℓ} where
  -- The loops that copy tasks of a FIFO source from the turn `i` on, with `n` turns left. The first task
  -- has the index `f + skip`, and the indices of the destination go up from `dest_b` or down to it.
  unfoldable pub copy_up : ℕ → ℕ → ℕ → ℕ → ℕ → Heap T → Buffer → Buffer → Heap T → Heap T
  copy_up zero i skip f dest_b source buffer dest_buffer heap = heap
  copy_up (suc n) i skip f dest_b source buffer dest_buffer heap =
      copy_up n (i + 1) skip f dest_b source buffer dest_buffer (
        write heap dest_buffer (wrapping_add dest_b i)
          (read source buffer (wrapping_add f (i + skip))))

  unfoldable pub copy_down : ℕ → ℕ → ℕ → ℕ → ℕ → Heap T → Buffer → Buffer → Heap T → Heap T
  copy_down zero i skip f dest_b source buffer dest_buffer heap = heap
  copy_down (suc n) i skip f dest_b source buffer dest_buffer heap =
      copy_down n (i + 1) skip f dest_b source buffer dest_buffer (
        write heap dest_buffer (wrapping_add dest_b n)
          (read source buffer (wrapping_add f (i + skip))))

  -- The copy of `n` tasks from a FIFO source, by the flavor of the destination.
  abbrev pub copy_batch : Flavor → ℕ → ℕ → Deque T → Deque T → Heap T
  copy_batch fifo n skip source dest =
      copy_up n 0 skip source.front dest.back source.heap source.shared dest.own dest.heap
  copy_batch lifo n skip source dest =
      copy_down n 0 skip source.front dest.back source.heap source.shared dest.own dest.heap

  -- The check of the buffer and the exchange on the front; `none` is a failure.
  unfoldable pub commit : ℕ → ℕ → Buffer → Deque T → Option (Deque T)
  commit f n buffer source =
      if not (source.shared.ptr == buffer.ptr) || not (source.front == f)
      then none
      else some (record source { front = wrapping_add f n })

  -- The loop that reverses the stolen tasks, from the turn `i` on.
  unfoldable pub reverse_loop : ℕ → ℕ → ℕ → ℕ → Buffer → Heap T → Heap T
  reverse_loop zero i size dest_b buffer heap = heap
  reverse_loop (suc n) i size dest_b buffer heap =
      let i1 = wrapping_sub dest_b (size - i) in
      let i2 = wrapping_sub dest_b (i + 1) in
      let t1 = read heap buffer i1 in
      let t2 = read heap buffer i2 in
      reverse_loop n (i + 1) size dest_b buffer (write (write heap buffer i1 t2) buffer i2 t1)

  -- Where tasks of a LIFO source went into a FIFO destination, they are reversed.
  abbrev pub reversed : Flavor → Moved T → Buffer → Heap T
  reversed fifo moved buffer =
      reverse_loop (moved.size / 2) 0 moved.size moved.dest_b buffer moved.heap
  reversed lifo moved buffer = moved.heap

  -- The loop that steals from a LIFO source one by one, from the turn `i` on.
  unfoldable pub lifo_loop : ℕ → ℕ → ℕ → ℕ → Buffer → Deque T → Buffer → Heap T → Moved T
  lifo_loop zero i f dest_b buffer source dest_buffer heap = record {
    size = i;
    dest_b = dest_b;
    source = source;
    heap = heap;
    task = none;
  }
  lifo_loop (suc n) i f dest_b buffer source dest_buffer heap =
      let stop : Moved T = record {
        size = i;
        dest_b = dest_b;
        source = source;
        heap = heap;
        task = none;
      } in
      elim (ltb 0 i && leb_int (as_signed (wrapping_sub source.back f)) (pos 0)) [
        | true ↦ stop
        | false ↦ elim (commit f 1 buffer source) [
          | none ↦ stop
          | some source' ↦
              lifo_loop n (i + 1) (wrapping_add f 1) (wrapping_add dest_b 1) buffer source'
                dest_buffer (write heap dest_buffer dest_b (read source.heap buffer f))
        ]
      ]

  -- The same with a task that is held back: each turn writes the one before.
  unfoldable pub lifo_pop_loop :
      ℕ → ℕ → ℕ → ℕ → Buffer → Deque T → Buffer → Heap T → Option T → Moved T
  lifo_pop_loop zero i f dest_b buffer source dest_buffer heap task = record {
    size = i;
    dest_b = dest_b;
    source = source;
    heap = heap;
    task = task;
  }
  lifo_pop_loop (suc n) i f dest_b buffer source dest_buffer heap task =
      let stop : Moved T = record {
        size = i;
        dest_b = dest_b;
        source = source;
        heap = heap;
        task = task;
      } in
      elim (leb_int (as_signed (wrapping_sub source.back f)) (pos 0)) [
        | true ↦ stop
        | false ↦ elim (commit f 1 buffer source) [
          | none ↦ stop
          | some source' ↦
              lifo_pop_loop n (i + 1) (wrapping_add f 1) (wrapping_add dest_b 1) buffer source'
                dest_buffer (write heap dest_buffer dest_b task) (read source.heap buffer f)
        ]
      ]

  -- The part after the reservation.
  unfoldable pub batch_from : Flavor → ℕ → Deque T → Deque T → BatchResult T (Unit {ℓ})
  batch_from fifo size source dest =
      let f = source.front in
      let heap = copy_batch dest.flavor size 0 source dest in
      elim (commit f size source.shared source) [
        | none ↦ finished retry source (record dest { heap = heap })
        | some source' ↦
            finished (success tt) source'
              (record dest { heap = heap; back = wrapping_add dest.back size })
      ]
  batch_from lifo size source dest =
      let moved = lifo_loop size 0 source.front dest.back source.shared source dest.own dest.heap in
      if moved.size == 0
      then finished retry moved.source (record dest { heap = moved.heap })
      else finished (success tt) moved.source
          (record dest { heap = reversed dest.flavor moved dest.own; back = moved.dest_b })

  unfoldable pub steal_batch_with_limit : ℕ → Deque T → Deque T → BatchResult T (Unit {ℓ})
  steal_batch_with_limit limit source dest =
      if limit == 0
      then panicked
      else if leb_int (signed_len source) (pos 0)
      then finished empty source dest
      else let size = min ((to_nat (signed_len source) + 1) / 2) limit in
        elim (reserve size dest) [
          | none ↦ panicked
          | some dest' ↦ batch_from source.flavor size source dest'
        ]

  unfoldable pub steal_batch : Deque T → Deque T → BatchResult T (Unit {ℓ})
  steal_batch source dest = steal_batch_with_limit max_batch source dest

  -- `assume_init` on the task that is returned.
  abbrev pub finish_pop : Option T → Deque T → Deque T → BatchResult T T
  finish_pop none source dest = undefined
  finish_pop (some task) source dest = finished (success task) source dest

  -- The part after the reservation.
  unfoldable pub batch_pop_from : Flavor → ℕ → Deque T → Deque T → BatchResult T T
  batch_pop_from fifo size source dest =
      let f = source.front in
      let task = read source.heap source.shared f in
      let heap = copy_batch dest.flavor size 1 source dest in
      elim (commit f (size + 1) source.shared source) [
        | none ↦ finished retry source (record dest { heap = heap })
        | some source' ↦
            finish_pop task source'
              (record dest { heap = heap; back = wrapping_add dest.back size })
      ]
  batch_pop_from lifo size source dest =
      let f = source.front in
      let task = read source.heap source.shared f in
      if not (source.front == f)
      then finished retry source dest
      else let moved =
          lifo_pop_loop size 0 (wrapping_add f 1) dest.back source.shared
            (record source { front = wrapping_add f 1 }) dest.own dest.heap task in
        finish_pop moved.task moved.source
          (record dest { heap = reversed dest.flavor moved dest.own; back = moved.dest_b })

  unfoldable pub steal_batch_with_limit_and_pop : ℕ → Deque T → Deque T → BatchResult T T
  steal_batch_with_limit_and_pop limit source dest =
      if limit == 0
      then panicked
      else if leb_int (signed_len source) (pos 0)
      then finished empty source dest
      else let size = min ((to_nat (signed_len source) - 1) / 2) (limit - 1) in
        elim (reserve size dest) [
          | none ↦ panicked
          | some dest' ↦ batch_pop_from source.flavor size source dest'
        ]

  unfoldable pub steal_batch_and_pop : Deque T → Deque T → BatchResult T T
  steal_batch_and_pop source dest = steal_batch_with_limit_and_pop max_batch source dest
