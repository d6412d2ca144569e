-- ===== src/ArrayQueue/Push.antt =====
-- `push`, `force_push` and `push_mut` against a bounded list: what they return, and what the queue
-- then holds.
use crossbeam.Prelude.{
  ℕ, zero, suc, ◌+◌, ◌<◌, ◌≡◌, ◌≢◌, sym, ap, subst, ◌∙◌, arith, Bool, true, false, none, some, List,
  [], ◌∷◌, ◌++◌, length, low_bits, wrapping_add, wrapping_sub, ◌%◌, ne→==, eq→==,
}
use native.Mathlib.Nat.{add-mod_right}
use crossbeam.Ring.{update, update-update}
use crossbeam.Stamp.{advance, stamp_at, stamp_at-ne_suc, stamp_at-sub_cap, advance-stamp_at}
use crossbeam.ArrayQueue.Defs.{
  ArrayQueue, returned, ok, err, Closure, cas_weak, commit_push, push_loop, push_or_else,
  push_closure, push, force_closure, force_push, map_err,
}
use crossbeam.ArrayQueue.Exclusive.{push_mut}
use crossbeam.ArrayQueue.Invariant.{
  Represents, tail_slot_free, full_iff, commit_push-Represents, head_slot, index_full, suc-head,
  commit_pop-Represents,
}

module _ {ℓ} {A : Type ℓ} {laps h : ℕ} {xs : List A} {q : ArrayQueue A}
    (r : Represents laps h xs q) where
  -- With room the loop writes at the tail, whatever its closure, once an exchange does not fail
  -- spuriously.
  push_loop-room :
      (fuel : ℕ) (f : Closure A) (v : A) (verdicts : List Bool)
      → length xs < q.cap
      → length verdicts < fuel
      → push_loop fuel f v q.tail q verdicts ≡ returned (ok, commit_push q q.tail v)
  unfolding push_loop cas_weak
  push_loop-room zero f v verdicts room lt = absurd (omega arith)
  push_loop-room (suc fuel) f v [] room lt = ground (arith, tail_slot_free r room)
  push_loop-room (suc fuel) f v (true ∷ rest) room lt =
      ground (arith, tail_slot_free r room, push_loop-room fuel f v rest room)
  push_loop-room (suc fuel) f v (false ∷ rest) room lt = ground (arith, tail_slot_free r room)

module _ {ℓ} {A : Type ℓ} {laps h : ℕ} {x : A} {xs : List A} {q : ArrayQueue A}
    (r : Represents laps h (x ∷ xs) q) (full : length (x ∷ xs) ≡ q.cap) where
  open r use {layout, head_at, tail_at}

  pub tail_slot_full :
      q.buffer (low_bits q.tail q.one_lap)
      ≡ record { stamp = wrapping_add q.head 1; value = some x }
  tail_slot_full = ap q.buffer (index_full r full) ∙ head_slot r

  tail-lap : wrapping_add q.head q.one_lap ≡ q.tail
  tail-lap = (full_iff r).1 full

  tail_differs : q.tail ≢ wrapping_add q.head 1
  tail_differs e =
      stamp_at-ne_suc layout (h + length (x ∷ xs)) h
        (ap (λ n. (h + n) % q.cap) full ∙ add-mod_right h q.cap) (sym tail_at ∙ e ∙ suc-head r)

  lags : wrapping_add (wrapping_add q.head 1) q.one_lap ≡ wrapping_add q.tail 1
  lags = omega (arith, tail-lap)

  -- A full queue gives the value back and does not change.
  pub push-full :
      (fuel : ℕ) (v : A) (verdicts : List Bool)
      → 0 < fuel
      → push fuel v q verdicts ≡ returned (err v, q)
  unfolding push push_or_else push_loop push_closure
  push-full zero v verdicts lt = absurd (omega arith)
  push-full (suc fuel) v verdicts lt =
      ground (arith, ap (λ s. s.stamp) tail_slot_full, tail_differs, lags, tail-lap)

  abbrev at : ℕ → ℕ
  at = stamp_at q.one_lap q.cap laps

  advance-tail : advance q.one_lap q.cap q.tail ≡ at (h + 1 + q.cap)
  advance-tail =
      ap (advance q.one_lap q.cap) tail_at
      ∙ advance-stamp_at layout (h + length (x ∷ xs))
      ∙ ap at (omega (arith, full))

  -- The heads that `force_push` computes from the tail are the queue's own.
  head-back : wrapping_sub q.tail q.one_lap ≡ q.head
  head-back =
      ap (λ s. wrapping_sub s q.one_lap) (tail_at ∙ ap (λ n. at (h + n)) full)
      ∙ stamp_at-sub_cap layout h
      ∙ sym head_at

  new_head-back :
      wrapping_sub (advance q.one_lap q.cap q.tail) q.one_lap ≡ advance q.one_lap q.cap q.head
  new_head-back =
      ap (λ s. wrapping_sub s q.one_lap) advance-tail
      ∙ stamp_at-sub_cap layout (h + 1)
      ∙ sym (advance-stamp_at layout h)
      ∙ ap (advance q.one_lap q.cap) (sym head_at)

  -- The state after `force_push` has replaced the oldest element.
  abbrev pub replaced : A → ArrayQueue A
  replaced v = record q {
    head = advance q.one_lap q.cap q.head;
    tail = advance q.one_lap q.cap q.tail;
    buffer =
        update q.buffer (low_bits q.tail q.one_lap)
          (record { stamp = wrapping_add q.tail 1; value = some v });
  }

  pub replaced-Represents : (v : A) → Represents laps (h + 1) (xs ++ (v ∷ [])) (replaced v)
  replaced-Represents v =
      subst (λ b. Represents laps (h + 1) (xs ++ (v ∷ [])) (record (replaced v) { buffer = b }))
        (update-update q.buffer _ _ (sym (index_full r full)))
        (commit_push-Represents (commit_pop-Represents r) v (omega (arith, full)))

  slot_facts :
      ((q.buffer (low_bits q.tail q.one_lap)).stamp ≡ wrapping_add q.head 1)
      × ((q.buffer (low_bits q.tail q.one_lap)).value ≡ some x)
  slot_facts = (ap (λ s. s.stamp) tail_slot_full, ap (λ s. s.value) tail_slot_full)

  -- In a full queue the loop of `force_push` replaces the oldest element once its exchange does not
  -- fail spuriously.
  force_loop-full :
      (fuel : ℕ) (v : A) (verdicts : List Bool)
      → length verdicts < fuel
      → push_loop fuel force_closure v q.tail q verdicts ≡ returned (err x, replaced v)
  unfolding push_loop force_closure cas_weak
  force_loop-full zero v verdicts lt = absurd (omega arith)
  force_loop-full (suc fuel) v [] lt =
      ground (arith, slot_facts, tail_differs, lags, head-back, new_head-back)
  force_loop-full (suc fuel) v (false ∷ verdicts) lt =
      ground (arith, slot_facts, tail_differs, lags, head-back, new_head-back)
  force_loop-full (suc fuel) v (true ∷ verdicts) lt =
      ground (arith, slot_facts, tail_differs, lags, head-back, force_loop-full fuel v verdicts)

module _ {ℓ} {A : Type ℓ} {laps h : ℕ} {xs : List A} {q : ArrayQueue A}
    (r : Represents laps h xs q) where
  -- `push` on a queue with room returns `Ok`.
  pub push-room :
      (fuel : ℕ) (v : A) (verdicts : List Bool)
      → length xs < q.cap
      → length verdicts < fuel
      → push fuel v q verdicts ≡ returned (ok, commit_push q q.tail v)
  unfolding push push_or_else
  push-room fuel v verdicts room lt = push_loop-room r fuel push_closure v verdicts room lt

  -- `force_push` on a queue with room returns `None`.
  pub force_push-room :
      (fuel : ℕ) (v : A) (verdicts : List Bool)
      → length xs < q.cap
      → length verdicts < fuel
      → force_push fuel v q verdicts ≡ returned (none, commit_push q q.tail v)
  unfolding force_push push_or_else
  force_push-room fuel v verdicts room lt =
      ap map_err (push_loop-room r fuel force_closure v verdicts room lt)

  -- `push_mut` does the same as `push`.
  pub push_mut-room : (v : A) → length xs < q.cap → push_mut v q ≡ (ok, commit_push q q.tail v)
  unfolding push_mut
  push_mut-room v room = rw (ne→== _ _ not_full)
    where
      not_full : wrapping_add q.head q.one_lap ≢ q.tail
      not_full e = omega (arith, (full_iff r).0 e)

  pub push_mut-full : (v : A) → length xs ≡ q.cap → push_mut v q ≡ (err v, q)
  unfolding push_mut
  push_mut-full v full = rw (eq→== _ _ ((full_iff r).1 full))

module _ {ℓ} {A : Type ℓ} {laps h : ℕ} {x : A} {xs : List A} {q : ArrayQueue A}
    (r : Represents laps h (x ∷ xs) q) (full : length (x ∷ xs) ≡ q.cap) where
  -- `force_push` on a full queue returns the oldest element, drops it and appends the value.
  pub force_push-full :
      (fuel : ℕ) (v : A) (verdicts : List Bool)
      → length verdicts < fuel
      → force_push fuel v q verdicts ≡ returned (some x, replaced r full v)
  unfolding force_push push_or_else
  force_push-full fuel v verdicts lt = ap map_err (force_loop-full r full fuel v verdicts lt)
