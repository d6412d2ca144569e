-- ===== src/SkipList/Iterate.antt =====
-- Entries and iterators that move along the list, `clear`, and `Drop`.
use crossbeam.Prelude.{
  ℕ, zero, suc, Bool, true, false, Option, none, some, List, [], ◌∷◌, if◌then◌else◌,
}
use crossbeam.SkipList.Compare.{
  Comparator, is_ge, Bound, unbounded, excluded, above_lower_bound, below_upper_bound,
}
use crossbeam.SkipList.Defs.{NodeRef, Link, SkipList, head, mark_tower, sub_len}
use crossbeam.SkipList.Search.{search_bound, next_node, lower_bound}

-- `Iter` and `Range`: how far the two ends have come.
pub record Iter {ℓ κ} (K : Type ℓ) (V : Type κ) : Type (ℓ ⊔ κ) where
  pub front : Option (NodeRef K V)
  pub back : Option (NodeRef K V)

abbrev pub batch_size : ℕ
batch_size = 100

module _ {ℓ κ} {K : Type ℓ} {V : Type κ} where
  abbrev pub ended : Iter K V
  ended = record { front = none; back = none }

  -- `Drop`: the nodes that it destroys.
  unfoldable pub dropped : ℕ → SkipList K V → Link K V → Option (List (NodeRef K V))
  dropped zero s curr = none
  dropped (suc fuel) s curr = elim curr.ptr [
    | none ↦ some []
    | some n ↦ elim (dropped fuel s (s.links n.address 0)) [ none ↦ none | some ns ↦ some (n ∷ ns) ]
  ]

module _ {ℓ κ} {K : Type ℓ} {V : Type κ} ⦃o : Comparator K⦄ where
  -- `Entry::next` and `Entry::prev`
  unfoldable pub entry_next :
      ℕ → NodeRef K V → SkipList K V → Option (Option (NodeRef K V) × SkipList K V)
  entry_next fuel n s = next_node fuel n.address (excluded n.key) s

  unfoldable pub entry_prev :
      ℕ → NodeRef K V → SkipList K V → Option (Option (NodeRef K V) × SkipList K V)
  entry_prev fuel n s = search_bound fuel (excluded n.key) true s

  -- Whether the two ends have met.
  unfoldable pub have_met : Option (NodeRef K V) → Option (NodeRef K V) → Bool
  have_met none t = false
  have_met (some h) none = false
  have_met (some h) (some t) = is_ge (o.compare h.key t.key)

  -- `Iter::next` and `Iter::next_back`
  unfoldable pub iter_next :
      ℕ → Iter K V → SkipList K V → Option (Option (NodeRef K V) × Iter K V × SkipList K V)
  iter_next fuel it s =
      let run : Option (Option (NodeRef K V) × SkipList K V) = elim it.front [
        | some n ↦ next_node fuel n.address (excluded n.key) s
        | none ↦ next_node fuel head unbounded s
      ] in
      elim run [
        | none ↦ none
        | some (h, t) ↦
            if have_met h it.back
            then some (none, ended, t)
            else some (h, record it { front = h }, t)
      ]

  unfoldable pub iter_next_back :
      ℕ → Iter K V → SkipList K V → Option (Option (NodeRef K V) × Iter K V × SkipList K V)
  iter_next_back fuel it s =
      let run : Option (Option (NodeRef K V) × SkipList K V) = elim it.back [
        | some n ↦ search_bound fuel (excluded n.key) true s
        | none ↦ search_bound fuel unbounded true s
      ] in
      elim run [
        | none ↦ none
        | some (b, t) ↦
            if have_met it.front b
            then some (none, ended, t)
            else some (b, record it { back = b }, t)
      ]

  -- `Range::next`, with the bounds of the range.
  unfoldable pub range_next :
      ℕ
      → Bound K
      → Bound K
      → Iter K V
      → SkipList K V
      → Option (Option (NodeRef K V) × Iter K V × SkipList K V)
  range_next fuel start end it s =
      let run : Option (Option (NodeRef K V) × SkipList K V) = elim it.front [
        | some n ↦ next_node fuel n.address (excluded n.key) s
        | none ↦ search_bound fuel start false s
      ] in
      let bound : Bound K = elim it.back [ some t ↦ excluded t.key | none ↦ end ] in
      elim run [
        | none ↦ none
        | some (none, t) ↦ some (none, record it { front = none }, t)
        | some (some h, t) ↦
            if below_upper_bound bound h.key
            then some (some h, record it { front = some h }, t)
            else some (none, ended, t)
      ]

  -- `Range::next_back`
  unfoldable pub range_next_back :
      ℕ
      → Bound K
      → Bound K
      → Iter K V
      → SkipList K V
      → Option (Option (NodeRef K V) × Iter K V × SkipList K V)
  range_next_back fuel start end it s =
      let run : Option (Option (NodeRef K V) × SkipList K V) = elim it.back [
        | some n ↦ search_bound fuel (excluded n.key) true s
        | none ↦ search_bound fuel end true s
      ] in
      let bound : Bound K = elim it.front [ some h ↦ excluded h.key | none ↦ start ] in
      elim run [
        | none ↦ none
        | some (none, t) ↦ some (none, record it { back = none }, t)
        | some (some b, t) ↦
            if above_lower_bound bound b.key
            then some (some b, record it { back = some b }, t)
            else some (none, ended, t)
      ]

  -- A batch of `clear`, and whether the end of the list was reached.
  unfoldable pub clear_batch :
      ℕ → ℕ → Option (NodeRef K V) → SkipList K V → Option (Bool × SkipList K V)
  clear_batch fuel zero entry s = some (false, s)
  clear_batch fuel (suc more) entry s = elim entry [
    | none ↦ some (true, s)
    | some e ↦ elim (entry_next fuel e s) [
      | none ↦ none
      | some (next, t) ↦
          let (won, u) = mark_tower t e in clear_batch fuel more next (if won then sub_len u else u)
    ]
  ]

  unfoldable pub clear : ℕ → ℕ → SkipList K V → Option (SkipList K V)
  clear zero fuel s = none
  clear (suc rounds) fuel s = elim (lower_bound fuel unbounded s) [
    | none ↦ none
    | some (entry, t) ↦ elim (clear_batch fuel batch_size entry t) [
      | none ↦ none
      | some (true, u) ↦ some u
      | some (false, u) ↦ clear rounds fuel u
    ]
  ]
