-- ===== src/SkipList/Insert.antt =====
-- `insert_internal`, and the operations that it serves.
use crossbeam.Prelude.{ℕ, zero, suc, ◌+◌, ◌-◌, Bool, true, false, Option, none, some, if◌then◌else◌}
use crossbeam.SkipList.Compare.{Comparator, equivalent, included}
use crossbeam.SkipList.Defs.{
  NodeRef, Link, SkipList, put, null, to_node, set_level, set_refs, compare_exchange, try_increment,
  mark_tower, random_height, add_len, sub_len,
}
use crossbeam.SkipList.Search.{Position, search_bound, search_position}

-- How an attempt to install a node at a level ends: the tower is left as it is, or the node is
-- installed, or the search is repeated.
pub data Build {ℓ κ} (K : Type ℓ) (V : Type κ) : Type (ℓ ⊔ κ) where
  stop : SkipList K V → Build K V
  built : SkipList K V → Position K V → Build K V
  retry : SkipList K V → Build K V

-- How the installation at level 0 ends: with an entry that was there, or with the new node.
pub data Install {ℓ κ} (K : Type ℓ) (V : Type κ) : Type (ℓ ⊔ κ) where
  existing : NodeRef K V → SkipList K V → Install K V
  installed : Position K V → SkipList K V → Install K V

module _ {ℓ κ} {K : Type ℓ} {V : Type κ} where
  -- `Node::alloc` with a reference count of two, and the increment of `len`.
  unfoldable pub alloc : K → V → ℕ → SkipList K V → NodeRef K V × SkipList K V
  alloc key value height s =
      let n : NodeRef K V = record {
        address = s.allocated + 1;
        key = key;
        value = value;
        height = height;
      } in
      (
        n,
        add_len (record s {
          links = put s.links (s.allocated + 1) (λ i. null);
          refs = put s.refs (s.allocated + 1) 2;
          allocated = s.allocated + 1;
        }),
      )

  -- The removal of the node that was replaced.
  unfoldable pub abandon : Option (NodeRef K V) → SkipList K V → SkipList K V
  abandon none s = s
  abandon (some r) s = let (won, t) = mark_tower s r in if won then sub_len t else t

  -- The entry of the node found, where it is not to be replaced.
  unfoldable pub reuse :
      (V → Bool)
      → Option (NodeRef K V)
      → SkipList K V
      → Option (Option (NodeRef K V) × SkipList K V)
  reuse replace none s = some (none, s)
  reuse replace (some r) s = if replace r.value then some (none, s) else elim (try_increment s r) [
    | none ↦ none
    | some (acquired, t) ↦ some (if acquired then some r else none, t)
  ]

module _ {ℓ κ} {K : Type ℓ} {V : Type κ} ⦃o : Comparator K⦄ where
  -- The loop that installs the node at level 0.
  unfoldable pub install :
      ℕ → ℕ → (V → Bool) → NodeRef K V → Position K V → SkipList K V → Option (Install K V)
  install zero fuel replace n p s = none
  install (suc tries) fuel replace n p s =
      let s1 = set_level s n.address 0 (p.right 0) in
      elim (compare_exchange s1 (p.left 0) 0 (p.right 0) (to_node n)) [
        | some t ↦ some (installed p (abandon p.found t))
        | none ↦ elim (search_position fuel n.key s1) [
          | none ↦ none
          | some (q, s2) ↦ elim (reuse replace q.found s2) [
            | none ↦ none
            | some (some e, t) ↦ some (existing e (sub_len t))
            | some (none, t) ↦ install tries fuel replace n q t
          ]
        ]
      ]

  -- Whether the node after the place has the same key.
  abbrev pub same_key : NodeRef K V → Link K V → Bool
  same_key n succ = elim succ.ptr [ none ↦ false | some s ↦ equivalent s.key n.key ]

  -- One pass of the loop that installs the node at a level above 0.
  unfoldable pub build_once : NodeRef K V → ℕ → Position K V → SkipList K V → Build K V
  build_once n level p s =
      let next = s.links n.address level in
      let succ = p.right level in
      if next.tag
      then stop s
      else if same_key n succ
      then retry s
      else elim (compare_exchange s n.address level next succ) [
        | none ↦ stop s
        | some s1 ↦
            let s2 = set_refs s1 n.address (s1.refs n.address + 1) in
            elim (compare_exchange s2 (p.left level) level succ (to_node n)) [
              | some t ↦ built t p
              | none ↦ retry (set_refs s2 n.address (s2.refs n.address - 1))
            ]
      ]

  unfoldable pub build_level :
      ℕ → ℕ → NodeRef K V → ℕ → Position K V → SkipList K V → Option (Build K V)
  build_level zero fuel n level p s = none
  build_level (suc tries) fuel n level p s = elim (build_once n level p s) [
    | stop t ↦ some (stop t)
    | built t q ↦ some (built t q)
    | retry t ↦ elim (search_position fuel n.key t) [
      | none ↦ none
      | some (q, u) ↦ build_level tries fuel n level q u
    ]
  ]

  -- The loop over the levels of the tower, `more` of them from `level` up.
  unfoldable pub build :
      ℕ → NodeRef K V → ℕ → ℕ → Position K V → SkipList K V → Option (SkipList K V)
  build fuel n zero level p s = some s
  build fuel n (suc more) level p s = elim (build_level fuel fuel n level p s) [
    | none ↦ none
    | some (stop t) ↦ some t
    | some (retry t) ↦ some t
    | some (built t q) ↦ build fuel n more (suc level) q t
  ]

  -- The last lines of `insert_internal`.
  unfoldable pub finish : ℕ → NodeRef K V → SkipList K V → Option (NodeRef K V × SkipList K V)
  finish fuel n s =
      let top = s.links n.address (n.height - 1) in
      if top.tag
      then elim (search_bound fuel (included n.key) false s) [
        | none ↦ none
        | some (_, t) ↦ some (n, t)
      ]
      else some (n, s)

  -- What `insert_internal` does once it makes a new node.
  unfoldable pub insert_new :
      ℕ → K → V → (V → Bool) → ℕ → Position K V → SkipList K V → Option (NodeRef K V × SkipList K V)
  insert_new fuel key value replace zeros p s =
      let (height, s1) = random_height s zeros in
      let (n, s2) = alloc key value height s1 in
      elim (install fuel fuel replace n p s2) [
        | none ↦ none
        | some (existing e t) ↦ some (e, t)
        | some (installed q t) ↦ elim (build fuel n (height - 1) 1 q t) [
          | none ↦ none
          | some u ↦ finish fuel n u
        ]
      ]

  unfoldable pub insert_internal :
      ℕ → K → V → (V → Bool) → ℕ → SkipList K V → Option (NodeRef K V × SkipList K V)
  insert_internal fuel key value replace zeros s = elim (search_position fuel key s) [
    | none ↦ none
    | some (p, s1) ↦ elim (reuse replace p.found s1) [
      | none ↦ none
      | some (some e, t) ↦ some (e, t)
      | some (none, t) ↦ insert_new fuel key value replace zeros p t
    ]
  ]

  unfoldable pub insert : ℕ → K → V → ℕ → SkipList K V → Option (NodeRef K V × SkipList K V)
  insert fuel key value zeros s = insert_internal fuel key value (λ v. true) zeros s

  unfoldable pub get_or_insert : ℕ → K → V → ℕ → SkipList K V → Option (NodeRef K V × SkipList K V)
  get_or_insert fuel key value zeros s = insert_internal fuel key value (λ v. false) zeros s

  unfoldable pub compare_insert :
      ℕ → K → V → (V → Bool) → ℕ → SkipList K V → Option (NodeRef K V × SkipList K V)
  compare_insert fuel key value compare zeros s = insert_internal fuel key value compare zeros s
