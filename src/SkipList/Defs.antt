-- ===== src/SkipList/Defs.antt =====
-- The state of a skip list: the towers of links, the nodes, and `HotData`.
use crossbeam.Prelude.{
  ℕ, zero, suc, ◌+◌, ◌-◌, ◌*◌, ◌%◌, ◌^◌, Bool, true, false, not, ◌&&◌, Option, none, some, List, [],
  ◌∷◌, if◌then◌else◌, ◌==◌, ltb, min, checked_add, wrapping_add, wrapping_sub,
}

abbrev pub height_bits : ℕ
height_bits = 5

abbrev pub max_tower : ℕ
max_tower = 2 ^ height_bits

-- A pointer to a node: its address, and the fields of the node that never change. The head has the
-- address 0.
pub record NodeRef {ℓ κ} (K : Type ℓ) (V : Type κ) : Type (ℓ ⊔ κ) where
  pub address : ℕ
  pub key : K
  pub value : V
  pub height : ℕ

-- A link of a tower: a pointer with its tag.
pub record Link {ℓ κ} (K : Type ℓ) (V : Type κ) : Type (ℓ ⊔ κ) where
  pub ptr : Option (NodeRef K V)
  pub tag : Bool

-- `links` and `refs` are the memory that changes: the tower at an address, and the reference count of
-- the node there. `allocated` counts the nodes ever made, `deferred` lists the addresses whose
-- destruction was deferred.
pub record SkipList {ℓ κ} (K : Type ℓ) (V : Type κ) : Type (ℓ ⊔ κ) where
  pub links : ℕ → ℕ → Link K V
  pub refs : ℕ → ℕ
  pub allocated : ℕ
  pub deferred : List ℕ
  pub len : ℕ
  pub max_height : ℕ

abbrev pub head : ℕ
head = 0

-- `f` with the value `x` at `i`.
abbrev pub put {ℓ} : {A : Type ℓ} → (ℕ → A) → ℕ → A → ℕ → A
put f i x j = if j == i then x else f j

abbrev pub same_tag : Bool → Bool → Bool
same_tag true b = b
same_tag false true = false
same_tag false false = true

module _ {ℓ κ} {K : Type ℓ} {V : Type κ} where
  abbrev pub null : Link K V
  null = record { ptr = none; tag = false }

  abbrev pub to_node : NodeRef K V → Link K V
  to_node n = record { ptr = some n; tag = false }

  abbrev pub with_tag : Link K V → Bool → Link K V
  with_tag l t = record l { tag = t }

  abbrev pub same_ptr : Option (NodeRef K V) → Option (NodeRef K V) → Bool
  same_ptr none none = true
  same_ptr (some a) (some b) = a.address == b.address
  same_ptr _ _ = false

  abbrev pub is_null : Link K V → Bool
  is_null l = elim l.ptr [ none ↦ true | some _ ↦ false ]

  -- `SkipList::new`
  abbrev pub new : SkipList K V
  new = record {
    links = λ a i. null;
    refs = λ a. 0;
    allocated = 0;
    deferred = [];
    len = 0;
    max_height = 1;
  }

  -- The store `tower.get_level(i).store(l)`.
  unfoldable pub set_level : SkipList K V → ℕ → ℕ → Link K V → SkipList K V
  set_level s a i l = record s { links = put s.links a (put (s.links a) i l) }

  -- `tower.get_level(i).compare_exchange(old, new)`; `none` is a failure.
  unfoldable pub compare_exchange :
      SkipList K V → ℕ → ℕ → Link K V → Link K V → Option (SkipList K V)
  compare_exchange s a i old l =
      let now = s.links a i in
      if same_ptr now.ptr old.ptr && same_tag now.tag old.tag
      then some (set_level s a i l)
      else none

  abbrev pub set_refs : SkipList K V → ℕ → ℕ → SkipList K V
  set_refs s a r = record s { refs = put s.refs a r }

  -- `Node::try_increment`; `none` is the panic on an overflow of the word that holds the reference
  -- count above the height.
  unfoldable pub try_increment : SkipList K V → NodeRef K V → Option (Bool × SkipList K V)
  try_increment s n =
      let count = s.refs n.address in
      if count == 0
      then some (false, s)
      else elim (checked_add (count * 2 ^ height_bits + (n.height - 1)) (2 ^ height_bits)) [
        | none ↦ none
        | some _ ↦ some (true, set_refs s n.address (count + 1))
      ]

  -- `NodeRef::decrement`
  unfoldable pub decrement : SkipList K V → NodeRef K V → SkipList K V
  decrement s n = record s {
    refs = put s.refs n.address ((s.refs n.address + 2 ^ 59 - 1) % 2 ^ 59);
    deferred = if s.refs n.address == 1 then n.address ∷ s.deferred else s.deferred;
  }

  -- `NodeRef::mark_tower`, from the level below `level` down.
  unfoldable pub mark_levels : SkipList K V → NodeRef K V → ℕ → Bool × SkipList K V
  mark_levels s n zero = (true, s)
  mark_levels s n (suc zero) =
      let old = s.links n.address 0 in (not old.tag, set_level s n.address 0 (with_tag old true))
  mark_levels s n (suc (suc level)) =
      mark_levels
        (set_level s n.address (suc level) (with_tag (s.links n.address (suc level)) true)) n
        (suc level)

  abbrev pub mark_tower : SkipList K V → NodeRef K V → Bool × SkipList K V
  mark_tower s n = mark_levels s n n.height

  -- `NodeRef::is_removed`
  abbrev pub is_removed : SkipList K V → NodeRef K V → Bool
  is_removed s n = (s.links n.address 0).tag

  abbrev pub is_live : SkipList K V → NodeRef K V → Bool
  is_live s n = elim (is_removed s n) [ true ↦ false | false ↦ true ]

  -- `SkipList::len`
  unfoldable pub current_len : SkipList K V → ℕ
  current_len s = if ltb (2 ^ 63 - 1) s.len then 0 else s.len

  -- `SkipList::is_empty`
  unfoldable pub is_empty : SkipList K V → Bool
  unfolding current_len
  is_empty s = current_len s == 0

  -- The loop of `random_height` that lowers the height while the tower would be much larger than all
  -- the others.
  unfoldable pub lower_height : SkipList K V → ℕ → ℕ
  lower_height s zero = zero
  lower_height s (suc h) =
      let lower = lower_height s h in
      if ltb (suc h) 4 then suc h else if is_null (s.links head (suc h - 2)) then lower else suc h

  -- `random_height`, for the number of trailing zeros that the generator draws.
  unfoldable pub random_height : SkipList K V → ℕ → ℕ × SkipList K V
  random_height s zeros =
      let height = lower_height s (min max_tower (zeros + 1)) in
      (height, record s { max_height = if ltb s.max_height height then height else s.max_height })

  abbrev pub add_len : SkipList K V → SkipList K V
  add_len s = record s { len = wrapping_add s.len 1 }

  abbrev pub sub_len : SkipList K V → SkipList K V
  sub_len s = record s { len = wrapping_sub s.len 1 }
