-- ===== src/Waker/Wait.antt =====
-- How a context is selected once, and how `wait_until` ends.
use crossbeam.Prelude.{
  ℕ, zero, suc, ◌≤◌, ◌<◌, ◌≡◌, ◌≢◌, refl, arith, Option, none, some, List, [], ◌∷◌, ◌++◌, ◌==◌, ltb,
  ◌⊎◌, inl, inr, Bool-cases,
}
use crossbeam.Waker.Context.{
  Selected, waiting, aborted, disconnected, operation, decode, encode, World, won, lost, try_select,
  reset, selected, Turn, wait_until,
}

-- Every word reads back as itself.
pub encode-decode : (n : ℕ) → encode (decode n) ≡ n
unfolding encode decode
encode-decode zero = refl
encode-decode (suc zero) = refl
encode-decode (suc (suc zero)) = refl
encode-decode (suc (suc (suc n))) = refl

-- What a `Selected` may be: an operation's address is above 2.
abbrev pub IsHooked : Selected → Type 0
IsHooked (operation val) = 2 < val
IsHooked _ = Unit

-- A `Selected` whose operation was hooked survives the way through the word and back.
pub decode-encode : (s : Selected) → IsHooked s → decode (encode s) ≡ s
unfolding encode decode
decode-encode waiting h = refl
decode-encode aborted h = refl
decode-encode disconnected h = refl
decode-encode (operation zero) h = absurd (omega arith)
decode-encode (operation (suc zero)) h = absurd (omega arith)
decode-encode (operation (suc (suc zero))) h = absurd (omega arith)
decode-encode (operation (suc (suc (suc n)))) h = refl

encode-ne_zero : (s : Selected) → IsHooked s → s ≢ waiting → encode s ≢ 0
unfolding encode
encode-ne_zero waiting h ne = absurd (ne refl)
encode-ne_zero aborted h ne = λ e. omega arith
encode-ne_zero disconnected h ne = λ e. omega arith
encode-ne_zero (operation val) h ne = λ e. omega arith

decode-ne_waiting : (n : ℕ) → n ≢ 0 → decode n ≢ waiting
unfolding decode
decode-ne_waiting zero h = absurd (h refl)
decode-ne_waiting (suc zero) h = λ e. cc
decode-ne_waiting (suc (suc zero)) h = λ e. cc
decode-ne_waiting (suc (suc (suc n))) h = λ e. cc

-- A context is selected once: an operation above 2, `Aborted` or `Disconnected` wins the exchange
-- on a reset context, and is what every later attempt is told; those attempts change nothing.
pub one_winner :
    (w : World) (cx : ℕ) (s t : Selected)
    → IsHooked s
    → s ≢ waiting
    → let (first, w') = try_select (reset w cx) cx s in
      (first ≡ won) × (selected w' cx ≡ s) × (try_select w' cx t ≡ (lost s, w'))
unfolding try_select reset selected encode
one_winner w cx s t h ne = ground (arith, encode-ne_zero s h ne, decode-encode s h)

Selected-cases : (s : Selected) → (s ≡ waiting) ⊎ (s ≢ waiting)
Selected-cases waiting = inl refl
Selected-cases aborted = inr (λ e. cc)
Selected-cases disconnected = inr (λ e. cc)
Selected-cases (operation val) = inr (λ e. cc)

-- What `wait_until` returns is never `Waiting`.
pub wait_until-ne_waiting :
    (deadline : Option ℕ) (ts : List Turn) {s : Selected}
    → wait_until deadline ts ≡ some s
    → s ≢ waiting
unfolding wait_until
wait_until-ne_waiting deadline [] e = absurd (cc)
wait_until-ne_waiting none (t ∷ ts) {s} e = ground (arith, wait_until-ne_waiting none ts {s = s})
wait_until-ne_waiting (some end) (t ∷ ts) {s} e =
    ground (arith, wait_until-ne_waiting (some end) ts {s = s}, decode-ne_waiting t.at_abort)

-- With a deadline `wait_until` returns by the first turn that reaches it.
pub wait_until-deadline :
    (end : ℕ) (before : List Turn) (t : Turn) (after : List Turn)
    → end ≤ t.now
    → (s : Selected) × (wait_until (some end) (before ++ (t ∷ after)) ≡ some s)
unfolding wait_until
wait_until-deadline end [] t after late = elim (Selected-cases (decode t.seen)) [
  | inl still ↦ elim (Bool-cases (t.at_abort == 0)) [
    | inl open_still ↦ (aborted, ground (arith, still, open_still))
    | inr other ↦ (decode t.at_abort, ground (arith, still, other))
  ]
  | inr done ↦ (decode t.seen, ground (arith, done))
]
wait_until-deadline end (b ∷ before) t after late =
    let (s, e) = wait_until-deadline end before t after late in
    elim (Selected-cases (decode b.seen)) [
      | inl still ↦ elim (Bool-cases (ltb b.now end)) [
        | inl early ↦ (s, ground (arith, still, early, e))
        | inr over ↦ elim (Bool-cases (b.at_abort == 0)) [
          | inl open_still ↦ (aborted, ground (arith, still, over, open_still))
          | inr other ↦ (decode b.at_abort, ground (arith, still, over, other))
        ]
      ]
      | inr done ↦ (decode b.seen, ground (arith, done))
    ]
