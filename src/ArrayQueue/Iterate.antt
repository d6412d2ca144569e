-- ===== src/ArrayQueue/Iterate.antt =====
-- `IntoIter`, which empties a queue that it owns, against the list that it represents.
use crossbeam.Prelude.{
  ℕ, zero, suc, ◌+◌, ◌%◌, ◌≤◌, ◌<◌, ◌≡◌, ◌≢◌, refl, sym, ap, ◌∙◌, arith, none, some, List, [], ◌∷◌,
  length, get_elem?, low_bits, eq→==,
}
use crossbeam.Stamp.{
  IsLayout, stamp_at, stamp_at-injective, low_bits-stamp_at, advance-stamp_at, advance,
}
use crossbeam.ArrayQueue.Defs.{ArrayQueue, Outcome, returned, undefined, out_of_fuel}
use crossbeam.ArrayQueue.Exclusive.{next}
use crossbeam.ArrayQueue.Invariant.{Represents}

-- What `IntoIter` still has to give: it leaves the stamps behind it as they are.
pub record Remaining {ℓ} {A : Type ℓ} (laps h : ℕ) (xs : List A) (q : ArrayQueue A) : Type ℓ where
  pub layout : IsLayout q.one_lap q.cap laps
  pub room : length xs ≤ q.cap
  pub head_at : q.head ≡ stamp_at q.one_lap q.cap laps h
  pub tail_at : q.tail ≡ stamp_at q.one_lap q.cap laps (h + length xs)
  pub valued :
      (j : ℕ) (x : A) → get_elem? xs j ≡ some x → (q.buffer ((h + j) % q.cap)).value ≡ some x

module _ {ℓ} {A : Type ℓ} where
  Represents-Remaining :
      {laps h : ℕ} {xs : List A} {q : ArrayQueue A} → Represents laps h xs q → Remaining laps h xs q
  Represents-Remaining r = record {
    layout = r.layout;
    room = r.held.room;
    head_at = r.head_at;
    tail_at = r.tail_at;
    valued = λ j x e. ap (λ s. s.value) (r.held.taken j x e);
  }

  -- The elements that `count` calls of `next` give, up to the first `None`.
  unfoldable pub collect : ℕ → ArrayQueue A → Outcome (List A)
  collect zero q = out_of_fuel
  collect (suc fuel) q = elim (next q) [
    | returned (none, q') ↦ returned []
    | returned (some x, q') ↦ elim (collect fuel q') [
      | returned rest ↦ returned (x ∷ rest)
      | undefined ↦ undefined
      | out_of_fuel ↦ out_of_fuel
    ]
    | undefined ↦ undefined
    | out_of_fuel ↦ out_of_fuel
  ]

  moved : ArrayQueue A → ArrayQueue A
  moved q = record q { head = advance q.one_lap q.cap q.head }

  next-nil :
      {laps h : ℕ} {q : ArrayQueue A} → Remaining {A = A} laps h [] q → next q ≡ returned (none, q)
  unfolding next
  next-nil r = rw (eq→== _ _ (r.head_at ∙ ap (stamp_at _ _ _) (omega arith) ∙ sym r.tail_at))

  next-cons :
      {laps h : ℕ} {x : A} {xs : List A} {q : ArrayQueue A}
      → Remaining laps h (x ∷ xs) q
      → (next q ≡ returned (some x, moved q)) × Remaining laps (h + 1) xs (moved q)
  unfolding next moved
  next-cons {laps} {h} {x} {xs} {q} r = (
    ground (arith, not_empty, value),
    record {
      layout = r.layout;
      room = omega (arith, r.room);
      head_at = ap (advance q.one_lap q.cap) r.head_at ∙ advance-stamp_at r.layout h;
      tail_at = r.tail_at ∙ ap (stamp_at q.one_lap q.cap laps) (omega arith);
      valued = λ j y e. ap (λ p. (q.buffer (p % q.cap)).value) (omega arith) ∙ r.valued (suc j) y e;
    },
  )
    where
      not_empty : q.head ≢ q.tail
      not_empty e = absurd (
          omega (
            arith,
            stamp_at-injective r.layout h (h + length (x ∷ xs)) (omega arith)
                (omega (arith, r.room)) (sym r.head_at ∙ e ∙ r.tail_at),
          ))

      value : (q.buffer (low_bits q.head q.one_lap)).value ≡ some x
      value =
          ap (λ s. (q.buffer (low_bits s q.one_lap)).value) r.head_at
          ∙ ap (λ i. (q.buffer i).value)
              (low_bits-stamp_at r.layout h ∙ ap (λ p. p % q.cap) (omega arith))
          ∙ r.valued 0 x refl

  collect-Remaining :
      (fuel : ℕ) {laps h : ℕ} (xs : List A) {q : ArrayQueue A}
      → Remaining laps h xs q
      → length xs < fuel
      → collect fuel q ≡ returned xs
  unfolding collect
  collect-Remaining zero xs r lt = absurd (omega arith)
  collect-Remaining (suc fuel) [] r lt = ground (arith, next-nil r)
  collect-Remaining (suc fuel) (x ∷ xs) r lt =
      let (e, r') = next-cons r in ground (arith, e, collect-Remaining fuel xs r')

  -- On a queue that represents `xs`, with more fuel than elements, `IntoIter` gives every element,
  -- in order, and then ends.
  pub collect-elements :
      (fuel : ℕ) {laps h : ℕ} (xs : List A) {q : ArrayQueue A}
      → Represents laps h xs q
      → length xs < fuel
      → collect fuel q ≡ returned xs
  collect-elements fuel xs r lt = collect-Remaining fuel xs (Represents-Remaining r) lt
