-- ===== src/Waker/Queues.antt =====
-- The queues of a waker: registration and watching, and their undoing.
use crossbeam.Prelude.{
  ℕ, ◌≡◌, ◌≢◌, refl, arith, Bool, true, false, some, List, [], ◌∷◌, ◌++◌, if◌then◌else◌, ◌==◌,
}
use crossbeam.Waker.Defs.{
  Entry, Waker, remove_oper, drop_oper, try_select_one, select_first, any_selectable, notify_all,
}
use crossbeam.Waker.Defs
use crossbeam.Waker.Sync.{SyncWaker, none_in, seal}
use crossbeam.Waker.Sync

-- Whether some entry has the operation.
abbrev pub has_oper : ℕ → List Entry → Bool
has_oper oper [] = false
has_oper oper (e ∷ es) = if e.oper == oper then true else has_oper oper es

remove_oper-snoc :
    (es : List Entry) (e : Entry)
    → has_oper e.oper es ≡ false
    → remove_oper e.oper (es ++ (e ∷ [])) ≡ (some e, es)
unfolding remove_oper
remove_oper-snoc [] e h = ground arith
remove_oper-snoc (d ∷ es) e h = ground (arith, remove_oper-snoc es e)

-- Registering an operation that no selector has and unregistering it gives its entry back and
-- leaves the queues as they were before.
pub unregister-register :
    (s : SyncWaker) (oper cx : ℕ)
    → has_oper oper s.inner.selectors ≡ false
    → Sync.unregister (Sync.register s oper cx) oper
      ≡ (some (record { oper = oper; packet = 0; cx = cx }), seal s.inner)
unfolding Sync.unregister Sync.register Defs.unregister Defs.register
unregister-register s oper cx h =
    ground
      (arith, remove_oper-snoc s.inner.selectors (record { oper = oper; packet = 0; cx = cx }) h)

drop_oper-has_oper : (es : List Entry) (oper : ℕ) → has_oper oper (drop_oper oper es) ≡ false
unfolding drop_oper
drop_oper-has_oper [] oper = refl
drop_oper-has_oper (e ∷ es) oper = ground (arith, drop_oper-has_oper es oper)

drop_oper-other :
    (es : List Entry) (oper other : ℕ)
    → oper ≢ other
    → has_oper other (drop_oper oper es) ≡ has_oper other es
unfolding drop_oper
drop_oper-other [] oper other ne = refl
drop_oper-other (e ∷ es) oper other ne = ground (arith, drop_oper-other es oper other)

-- `unwatch` removes every observer with the operation, and no other operation's; the selectors stay.
pub unwatch_removes :
    (s : SyncWaker) (oper other : ℕ)
    → oper ≢ other
    → let k = (Sync.unwatch s oper).inner in
      (has_oper oper k.observers ≡ false)
      × (has_oper other k.observers ≡ has_oper other s.inner.observers)
      × (k.selectors ≡ s.inner.selectors)
unfolding Sync.unwatch Defs.unwatch
unwatch_removes s oper other ne = (
  drop_oper-has_oper s.inner.observers oper,
  drop_oper-other s.inner.observers oper other ne,
  refl,
)
