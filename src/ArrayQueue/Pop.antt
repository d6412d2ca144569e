-- ===== src/ArrayQueue/Pop.antt =====
-- `pop`, `pop_mut`, `IntoIter::next` and the methods that look at the queue, against a bounded list.
use crossbeam.Prelude.{
  ℕ, zero, suc, ◌<◌, ◌≡◌, ◌≢◌, refl, sym, ap, ◌∙◌, arith, Bool, true, false, none, some, List, [],
  ◌∷◌, length, low_bits, wrapping_add, eq→==,
}
use crossbeam.ArrayQueue.Defs.{ArrayQueue, returned, cas_weak, commit_pop, pop_loop, pop}
use crossbeam.ArrayQueue.Exclusive.{pop_mut}
use crossbeam.ArrayQueue.Invariant.{Represents, empty_iff, head_slot, tail_slot_free}

module _ {ℓ} {A : Type ℓ} {laps h : ℕ} {q : ArrayQueue A} (r : Represents {A = A} laps h [] q) where
  head_slot_free : (q.buffer (low_bits q.head q.one_lap)).stamp ≡ q.head
  head_slot_free =
      ap (λ s. (q.buffer (low_bits s q.one_lap)).stamp) (sym tail_head)
      ∙ tail_slot_free r r.layout.cap_pos
      ∙ tail_head
    where
      tail_head : q.tail ≡ q.head
      tail_head = (empty_iff r).1 refl

  -- `pop` on an empty queue returns `None` and does not change it.
  pub pop-empty :
      (fuel : ℕ) (verdicts : List Bool) → 0 < fuel → pop fuel q verdicts ≡ returned (none, q)
  unfolding pop pop_loop
  pop-empty zero verdicts lt = absurd (omega arith)
  pop-empty (suc fuel) verdicts lt = ground (arith, head_slot_free, (empty_iff r).1 refl)

  pub pop_mut-empty : pop_mut q ≡ returned (none, q)
  unfolding pop_mut
  pop_mut-empty = rw (eq→== _ _ ((empty_iff r).1 refl))

module _ {ℓ} {A : Type ℓ} {laps h : ℕ} {x : A} {xs : List A} {q : ArrayQueue A}
    (r : Represents laps h (x ∷ xs) q) where
  slot_facts :
      ((q.buffer (low_bits q.head q.one_lap)).stamp ≡ wrapping_add q.head 1)
      × ((q.buffer (low_bits q.head q.one_lap)).value ≡ some x)
  slot_facts = (ap (λ s. s.stamp) (head_slot r), ap (λ s. s.value) (head_slot r))

  not_empty : q.tail ≢ q.head
  not_empty e = absurd (omega (arith, (empty_iff r).0 e))

  -- `pop` returns the oldest element once its exchange does not fail spuriously.
  pop_loop-some :
      (fuel : ℕ) (verdicts : List Bool)
      → length verdicts < fuel
      → pop_loop fuel q.head q verdicts ≡ returned (some x, commit_pop q q.head)
  unfolding pop_loop cas_weak
  pop_loop-some zero verdicts lt = absurd (omega arith)
  pop_loop-some (suc fuel) [] lt = ground (arith, slot_facts)
  pop_loop-some (suc fuel) (false ∷ verdicts) lt = ground (arith, slot_facts)
  pop_loop-some (suc fuel) (true ∷ verdicts) lt =
      ground (arith, slot_facts, pop_loop-some fuel verdicts)

  pub pop-some :
      (fuel : ℕ) (verdicts : List Bool)
      → length verdicts < fuel
      → pop fuel q verdicts ≡ returned (some x, commit_pop q q.head)
  unfolding pop
  pop-some fuel verdicts lt = pop_loop-some fuel verdicts lt

  pub pop_mut-some : pop_mut q ≡ returned (some x, commit_pop q q.head)
  unfolding pop_mut
  pop_mut-some = ground (arith, slot_facts, not_empty)
