-- ===== src/SkipList/Search.antt =====
-- `help_unlink`, `search_bound`, `search_position` and `next_node`, and the lookups.
use Prim.Native.Nat.Ordering.{lt, eq, gt}
use crossbeam.Prelude.{ℕ, zero, suc, Bool, true, false, not, Option, none, some, if◌then◌else◌}
use crossbeam.SkipList.Compare.{
  Comparator, equivalent, Bound, unbounded, included, above_lower_bound, below_upper_bound,
}
use crossbeam.SkipList.Defs.{
  NodeRef, Link, SkipList, head, put, null, to_node, with_tag, is_null, compare_exchange, decrement,
}

-- `Position`
pub record Position {ℓ κ} (K : Type ℓ) (V : Type κ) : Type (ℓ ⊔ κ) where
  pub found : Option (NodeRef K V)
  pub left : ℕ → ℕ
  pub right : ℕ → Link K V

-- Where a search stands: its predecessor, the link it has read, and its result so far.
pub record Cursor {ℓ κ} (K : Type ℓ) (V : Type κ) : Type (ℓ ⊔ κ) where
  pub list : SkipList K V
  pub pred : ℕ
  pub curr : Link K V
  pub result : Option (NodeRef K V)

-- How the loop over a level ends: `continue 'search`, or at the end of the level's part.
pub data Walk {ℓ κ} (K : Type ℓ) (V : Type κ) : Type (ℓ ⊔ κ) where
  restart : SkipList K V → Walk K V
  stopped : Cursor K V → Walk K V

-- What one pass of that loop does.
pub data Move {ℓ κ} (K : Type ℓ) (V : Type κ) : Type (ℓ ⊔ κ) where
  halt : Walk K V → Move K V
  go : Cursor K V → Move K V

-- How a run over all levels ends.
pub data Descent {ℓ κ} (K : Type ℓ) (V : Type κ) : Type (ℓ ⊔ κ) where
  again : SkipList K V → Descent K V
  finished : SkipList K V → Position K V → Descent K V

-- What a search does at a key: whether it leaves the level there, and whether the node becomes its
-- result.
pub record Verdict : Type 0 where
  pub stop : Bool
  pub take : Bool

module _ {ℓ κ} {K : Type ℓ} {V : Type κ} where
  unfoldable pub help_unlink :
      SkipList K V → ℕ → ℕ → NodeRef K V → Link K V → Option (Link K V × SkipList K V)
  help_unlink s pred level curr succ =
      elim (compare_exchange s pred level (to_node curr) (with_tag succ false)) [
        | none ↦ none
        | some t ↦ some (with_tag succ false, decrement t curr)
      ]

  -- The body of the loop over one level.
  unfoldable pub inspect : ℕ → (K → Verdict) → Cursor K V → Move K V
  inspect level judge c = elim c.curr.ptr [
    | none ↦ halt (stopped c)
    | some n ↦
        let succ = c.list.links n.address level in
        let v = judge n.key in
        let result = if v.take then some n else c.result in
        if succ.tag
        then elim (help_unlink c.list c.pred level n succ) [
          | none ↦ halt (restart c.list)
          | some (next, s) ↦ go (record c { list = s; curr = next })
        ]
        else if v.stop
        then halt (stopped (record c { result = result }))
        else go (record { list = c.list; pred = n.address; curr = succ; result = result })
  ]

  unfoldable pub walk : ℕ → ℕ → (K → Verdict) → Cursor K V → Option (Walk K V)
  walk zero level judge c = none
  walk (suc fuel) level judge c = elim (inspect level judge c) [
    | halt w ↦ some w
    | go d ↦ walk fuel level judge d
  ]

  -- The loop that skips empty levels at the top.
  unfoldable pub skip_empty : SkipList K V → ℕ → ℕ
  skip_empty s zero = zero
  skip_empty s (suc level) =
      let lower = skip_empty s level in if is_null (s.links head level) then lower else suc level

  -- The loop over the levels, from the one below `level` down.
  unfoldable pub descend : ℕ → (K → Verdict) → ℕ → Cursor K V → Position K V → Option (Descent K V)
  descend fuel judge zero c p = some (finished c.list (record p { found = c.result }))
  descend fuel judge (suc level) c p =
      let curr = c.list.links c.pred level in
      if curr.tag
      then some (again c.list)
      else elim (walk fuel level judge (record c { curr = curr })) [
        | none ↦ none
        | some (restart s) ↦ some (again s)
        | some (stopped d) ↦
            descend fuel judge level d
              (record p { left = put p.left level d.pred; right = put p.right level d.curr })
      ]

  abbrev pub nowhere : Position K V
  nowhere = record { found = none; left = λ i. head; right = λ i. null }

  abbrev pub at_head : SkipList K V → Cursor K V
  at_head s = record { list = s; pred = head; curr = null; result = none }

  -- The loop `'search`.
  unfoldable pub search :
      ℕ → ℕ → (K → Verdict) → SkipList K V → Option (Position K V × SkipList K V)
  search zero fuel judge s = none
  search (suc tries) fuel judge s =
      elim (descend fuel judge (skip_empty s s.max_height) (at_head s) nowhere) [
        | none ↦ none
        | some (again t) ↦ search tries fuel judge t
        | some (finished t p) ↦ some (p, t)
      ]

module _ {ℓ} {K : Type ℓ} ⦃o : Comparator K⦄ where
  -- The condition of `search_bound`.
  unfoldable pub judge_bound : Bound K → Bool → K → Verdict
  judge_bound bound true k =
      let below = below_upper_bound bound k in record { stop = not below; take = below }
  judge_bound bound false k =
      let above = above_lower_bound bound k in record { stop = above; take = above }

  -- The condition of `search_position`.
  unfoldable pub judge_key : K → K → Verdict
  judge_key key k = elim (o.compare k key) [
    | gt ↦ record { stop = true; take = false }
    | eq ↦ record { stop = true; take = true }
    | lt ↦ record { stop = false; take = false }
  ]

module _ {ℓ κ} {K : Type ℓ} {V : Type κ} ⦃o : Comparator K⦄ where
  -- `search_bound` keeps no positions.
  unfoldable pub search_bound :
      ℕ → Bound K → Bool → SkipList K V → Option (Option (NodeRef K V) × SkipList K V)
  search_bound fuel bound upper s = elim (search fuel fuel (judge_bound bound upper) s) [
    | none ↦ none
    | some (p, t) ↦ some (p.found, t)
  ]

  unfoldable pub search_position : ℕ → K → SkipList K V → Option (Position K V × SkipList K V)
  search_position fuel key s = search fuel fuel (judge_key key) s

  -- The loop of `next_node`, from the link `curr` of `pred`.
  unfoldable pub next_live :
      ℕ → ℕ → ℕ → Bound K → Link K V → SkipList K V → Option (Option (NodeRef K V) × SkipList K V)
  next_live fuel zero pred bound curr s = none
  next_live fuel (suc more) pred bound curr s = elim curr.ptr [
    | none ↦ some (none, s)
    | some c ↦
        let succ = s.links c.address 0 in
        if succ.tag
        then elim (help_unlink s pred 0 c succ) [
          | none ↦ search_bound fuel bound false s
          | some (next, t) ↦ next_live fuel more pred bound next t
        ]
        else some (some c, s)
  ]

  unfoldable pub next_node :
      ℕ → ℕ → Bound K → SkipList K V → Option (Option (NodeRef K V) × SkipList K V)
  next_node fuel pred bound s =
      let curr = s.links pred 0 in
      if curr.tag then search_bound fuel bound false s else next_live fuel fuel pred bound curr s

  unfoldable pub front : ℕ → SkipList K V → Option (Option (NodeRef K V) × SkipList K V)
  front fuel s = next_node fuel head unbounded s

  unfoldable pub back : ℕ → SkipList K V → Option (Option (NodeRef K V) × SkipList K V)
  back fuel s = search_bound fuel unbounded true s

  unfoldable pub get : ℕ → K → SkipList K V → Option (Option (NodeRef K V) × SkipList K V)
  get fuel key s = elim (search_bound fuel (included key) false s) [
    | none ↦ none
    | some (r, t) ↦
        some (elim r [ none ↦ none | some n ↦ if equivalent n.key key then some n else none ], t)
  ]

  -- `contains_key`
  unfoldable pub contains_key : ℕ → K → SkipList K V → Option (Bool × SkipList K V)
  contains_key fuel key s = elim (get fuel key s) [
    | none ↦ none
    | some (r, t) ↦ some (elim r [ none ↦ false | some _ ↦ true ], t)
  ]

  unfoldable pub lower_bound :
      ℕ → Bound K → SkipList K V → Option (Option (NodeRef K V) × SkipList K V)
  lower_bound fuel bound s = search_bound fuel bound false s

  unfoldable pub upper_bound :
      ℕ → Bound K → SkipList K V → Option (Option (NodeRef K V) × SkipList K V)
  upper_bound fuel bound s = search_bound fuel bound true s
