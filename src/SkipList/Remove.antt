-- ===== src/SkipList/Remove.antt =====
-- `remove`, `Entry::remove`, `pop_front`, `pop_back` and `clear`.
use crossbeam.Prelude.{ℕ, zero, suc, Bool, true, false, Option, none, some}
use crossbeam.SkipList.Compare.{Comparator, included}
use crossbeam.SkipList.Defs.{
  NodeRef, SkipList, to_node, with_tag, compare_exchange, try_increment, decrement, mark_tower,
  sub_len,
}
use crossbeam.SkipList.Search.{Position, search_bound, search_position, front, back}

module _ {ℓ κ} {K : Type ℓ} {V : Type κ} ⦃o : Comparator K⦄ where
  -- The loop of `remove` that unlinks the node at the levels below `level`.
  unfoldable pub unlink_levels :
      ℕ → K → NodeRef K V → Position K V → ℕ → SkipList K V → Option (SkipList K V)
  unlink_levels fuel key n p zero s = some s
  unlink_levels fuel key n p (suc level) s =
      let succ = with_tag (s.links n.address level) false in
      elim (compare_exchange s (p.left level) level (to_node n) succ) [
        | some t ↦ unlink_levels fuel key n p level (decrement t n)
        | none ↦ elim (search_bound fuel (included key) false s) [
          | none ↦ none
          | some (_, t) ↦ some t
        ]
      ]

  -- One pass of `remove`, and whether it is the last.
  unfoldable pub remove_once :
      ℕ → K → SkipList K V → Option (Bool × Option (NodeRef K V) × SkipList K V)
  remove_once fuel key s = elim (search_position fuel key s) [
    | none ↦ none
    | some (p, s1) ↦ elim p.found [
      | none ↦ some (true, none, s1)
      | some n ↦ elim (try_increment s1 n) [
        | none ↦ none
        | some (acquired, s2) ↦
            let (won, s3) = mark_tower s2 n in
            elim acquired [
              | false ↦ some (false, none, s2)
              | true ↦ elim won [
                | true ↦ elim (unlink_levels fuel key n p n.height (sub_len s3)) [
                  | none ↦ none
                  | some t ↦ some (true, some n, t)
                ]
                | false ↦ some (true, none, decrement s3 n)
              ]
            ]
      ]
    ]
  ]

  unfoldable pub remove : ℕ → ℕ → K → SkipList K V → Option (Option (NodeRef K V) × SkipList K V)
  remove zero fuel key s = none
  remove (suc tries) fuel key s = elim (remove_once fuel key s) [
    | none ↦ none
    | some (true, r, t) ↦ some (r, t)
    | some (false, r, t) ↦ remove tries fuel key t
  ]

  -- `Entry::remove`, and `RefEntry::remove`.
  unfoldable pub entry_remove : ℕ → NodeRef K V → SkipList K V → Option (Bool × SkipList K V)
  entry_remove fuel n s =
      let (won, t) = mark_tower s n in
      elim won [
        | false ↦ some (false, t)
        | true ↦ elim (search_bound fuel (included n.key) false (sub_len t)) [
          | none ↦ none
          | some (_, u) ↦ some (true, u)
        ]
      ]

  -- What `pop_front` and `pop_back` do with the entry found: pin it, then remove or release it.
  unfoldable pub pop_entry :
      ℕ
      → Option (Option (NodeRef K V) × SkipList K V)
      → Option (Bool × Option (NodeRef K V) × SkipList K V)
  pop_entry fuel found = elim found [
    | none ↦ none
    | some (none, s) ↦ some (true, none, s)
    | some (some n, s) ↦ elim (try_increment s n) [
      | none ↦ none
      | some (false, t) ↦ some (false, none, t)
      | some (true, t) ↦ elim (entry_remove fuel n t) [
        | none ↦ none
        | some (true, u) ↦ some (true, some n, u)
        | some (false, u) ↦ some (false, none, decrement u n)
      ]
    ]
  ]

  unfoldable pub pop_front : ℕ → ℕ → SkipList K V → Option (Option (NodeRef K V) × SkipList K V)
  pop_front zero fuel s = none
  pop_front (suc tries) fuel s = elim (pop_entry fuel (front fuel s)) [
    | none ↦ none
    | some (true, r, t) ↦ some (r, t)
    | some (false, r, t) ↦ pop_front tries fuel t
  ]

  unfoldable pub pop_back : ℕ → ℕ → SkipList K V → Option (Option (NodeRef K V) × SkipList K V)
  pop_back zero fuel s = none
  pop_back (suc tries) fuel s = elim (pop_entry fuel (back fuel s)) [
    | none ↦ none
    | some (true, r, t) ↦ some (r, t)
    | some (false, r, t) ↦ pop_back tries fuel t
  ]
