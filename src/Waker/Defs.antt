-- ===== src/Waker/Defs.antt =====
-- `Waker`.
use crossbeam.Prelude.{
  ℕ, Bool, true, false, not, ◌&&◌, Option, none, some, List, [], ◌∷◌, ◌++◌, if◌then◌else◌, ◌==◌,
}
use crossbeam.Waker.Context.{
  Selected, waiting, disconnected, operation, World, won, lost, try_select, store_packet, unpark,
  thread_id, selected,
}

-- `Entry`: an operation, the packet that it offers (0 is null) and the context of its thread.
pub record Entry : Type 0 where
  pub oper : ℕ
  pub packet : ℕ
  pub cx : ℕ

pub record Waker : Type 0 where
  pub selectors : List Entry
  pub observers : List Entry

abbrev pub new : Waker
new = record { selectors = []; observers = [] }

unfoldable pub register_with_packet : Waker → ℕ → ℕ → ℕ → Waker
register_with_packet k oper packet cx = record k {
  selectors = k.selectors ++ (record { oper = oper; packet = packet; cx = cx } ∷ []);
}

unfoldable pub register : Waker → ℕ → ℕ → Waker
unfolding register_with_packet
register k oper cx = register_with_packet k oper 0 cx

-- The first entry with the operation, and the entries without it.
unfoldable pub remove_oper : ℕ → List Entry → Option Entry × List Entry
remove_oper oper [] = (none, [])
remove_oper oper (e ∷ es) =
    let (found, rest) = remove_oper oper es in
    if e.oper == oper then (some e, es) else (found, e ∷ rest)

unfoldable pub unregister : Waker → ℕ → Option Entry × Waker
unfolding remove_oper
unregister k oper =
    let (found, rest) = remove_oper oper k.selectors in (found, record k { selectors = rest })

-- The closure of `try_select` on one entry: whether the entry is selected, and the world then.
unfoldable pub select_entry : ℕ → World → Entry → Bool × World
select_entry me w e =
    if thread_id w e.cx == me
    then (false, w)
    else let (tried, w') = try_select w e.cx (operation e.oper) in
      elim tried [
        | won ↦ (true, unpark (store_packet w' e.cx e.packet) e.cx)
        | lost _ ↦ (false, w')
      ]

-- The first entry that is selected, the others, and the world then.
unfoldable pub select_first : ℕ → World → List Entry → Option Entry × List Entry × World
select_first me w [] = (none, [], w)
select_first me w (e ∷ es) =
    let (hit, w') = select_entry me w e in
    let later = select_first me w' es in
    elim hit [ true ↦ (some e, es, w') | false ↦ (later.0, e ∷ later.1, later.2) ]

-- `Waker::try_select` on the thread `me`.
unfoldable pub try_select_one : ℕ → World → Waker → Option Entry × Waker × World
try_select_one me w k =
    let (found, rest, w') = select_first me w k.selectors in
    (found, record k { selectors = rest }, w')

unfoldable pub is_waiting : Selected → Bool
is_waiting waiting = true
is_waiting _ = false

unfoldable pub any_selectable : ℕ → World → List Entry → Bool
any_selectable me w [] = false
any_selectable me w (e ∷ es) =
    let rest = any_selectable me w es in
    if not (thread_id w e.cx == me) && is_waiting (selected w e.cx) then true else rest

-- `Waker::can_select` on the thread `me`.
unfoldable pub can_select : ℕ → World → Waker → Bool
can_select me w k = any_selectable me w k.selectors

unfoldable pub watch : Waker → ℕ → ℕ → Waker
watch k oper cx = record k {
  observers = k.observers ++ (record { oper = oper; packet = 0; cx = cx } ∷ []);
}

unfoldable pub drop_oper : ℕ → List Entry → List Entry
drop_oper oper [] = []
drop_oper oper (e ∷ es) = let rest = drop_oper oper es in if e.oper == oper then rest else e ∷ rest

unfoldable pub unwatch : Waker → ℕ → Waker
unfolding drop_oper
unwatch k oper = record k { observers = drop_oper oper k.observers }

-- Try to select `sel` for an entry's context, and unpark its thread if that succeeds.
unfoldable pub wake : World → ℕ → Selected → World
wake w cx sel =
    let (tried, w') = try_select w cx sel in elim tried [ won ↦ unpark w' cx | lost _ ↦ w' ]

unfoldable pub notify_all : World → List Entry → World
notify_all w [] = w
notify_all w (e ∷ es) = notify_all (wake w e.cx (operation e.oper)) es

-- `Waker::notify`: every observer is told and removed.
unfoldable pub notify : World → Waker → Waker × World
notify w k = (record k { observers = [] }, notify_all w k.observers)

unfoldable pub disconnect_all : World → List Entry → World
disconnect_all w [] = w
disconnect_all w (e ∷ es) = disconnect_all (wake w e.cx disconnected) es

-- `Waker::disconnect`: the selectors stay registered.
unfoldable pub disconnect : World → Waker → Waker × World
disconnect w k = notify (disconnect_all w k.selectors) k
