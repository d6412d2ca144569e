-- ===== src/Waker/Sync.antt =====
-- `SyncWaker`: a waker behind its lock, and a flag that is read without it.
use crossbeam.Prelude.{ℕ, Bool, true, false, ◌&&◌, Option, List, [], ◌∷◌, if◌then◌else◌}
use crossbeam.Waker.Context.{World}
use crossbeam.Waker.Defs.{Entry, Waker, try_select_one}
use crossbeam.Waker.Defs

pub record SyncWaker : Type 0 where
  pub inner : Waker
  pub is_empty : Bool

abbrev pub none_in : List Entry → Bool
none_in [] = true
none_in (_ ∷ _) = false

-- What every method leaves when it unlocks: the flag says whether both queues are empty.
abbrev pub seal : Waker → SyncWaker
seal k = record { inner = k; is_empty = none_in k.selectors && none_in k.observers }

abbrev pub new : SyncWaker
new = record { inner = Defs.new; is_empty = true }

unfoldable pub register : SyncWaker → ℕ → ℕ → SyncWaker
register s oper cx = seal (Defs.register s.inner oper cx)

unfoldable pub unregister : SyncWaker → ℕ → Option Entry × SyncWaker
unregister s oper = let (entry, k) = Defs.unregister s.inner oper in (entry, seal k)

-- `notify` on the thread `me`; `glance` is what it reads in the flag before it locks.
unfoldable pub notify : ℕ → World → Bool → SyncWaker → SyncWaker × World
notify me w glance s =
    if glance
    then (s, w)
    else if s.is_empty
    then (s, w)
    else let (_, k, w') = try_select_one me w s.inner in
      let (k', w'') = Defs.notify w' k in (seal k', w'')

unfoldable pub watch : SyncWaker → ℕ → ℕ → SyncWaker
watch s oper cx = seal (Defs.watch s.inner oper cx)

unfoldable pub unwatch : SyncWaker → ℕ → SyncWaker
unwatch s oper = seal (Defs.unwatch s.inner oper)

unfoldable pub disconnect : World → SyncWaker → SyncWaker × World
disconnect w s = let (k, w') = Defs.disconnect w s.inner in (seal k, w')
