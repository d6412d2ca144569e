-- ===== src/Deque/Stealer.antt =====
-- `Stealer::steal`, in the three parts that other threads may run between.
use crossbeam.Prelude.{
  ℕ, not, ◌||◌, Option, none, some, if◌then◌else◌, ◌==◌, wrapping_add, wrapping_sub,
}
use crossbeam.Prelude.Int.{pos, as_signed, leb_int}
use crossbeam.ArrayQueue.Defs.{Outcome, returned, undefined}
use crossbeam.Deque.Defs.{Buffer, Deque, read}
use crossbeam.Deque.Steal.{Steal, success, retry}

-- What a stealer has read of a deque that was not empty: the buffer and the task at the front.
pub data Reading {ℓ} (T : Type ℓ) : Type ℓ where
  nothing : Reading T
  pending : Buffer → Option T → Reading T

module _ {ℓ} {T : Type ℓ} where
  -- The load of the front.
  abbrev pub steal_load : Deque T → ℕ
  steal_load d = d.front

  -- The load of the back and of the buffer, and the read of the task.
  unfoldable pub steal_read : ℕ → Deque T → Reading T
  steal_read f d =
      if leb_int (as_signed (wrapping_sub d.back f)) (pos 0)
      then nothing
      else pending d.shared (read d.heap d.shared f)

  -- `assume_init` on the stolen task.
  abbrev pub take_stolen : Option T → Deque T → Outcome (Steal T × Deque T)
  take_stolen none d = undefined
  take_stolen (some task) d = returned (success task, d)

  -- The check of the buffer and the exchange on the front.
  unfoldable pub steal_commit : ℕ → Buffer → Option T → Deque T → Outcome (Steal T × Deque T)
  steal_commit f buffer task d =
      if not (d.shared.ptr == buffer.ptr) || not (d.front == f)
      then returned (retry, d)
      else take_stolen task (record d { front = wrapping_add f 1 })
