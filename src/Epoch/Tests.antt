-- ===== src/Epoch/Tests.antt =====
-- A collector with two participants, and each theorem at an input that meets its hypotheses.
use crossbeam.Prelude.{ℕ, ◌≤◌, ◌≡◌, refl, arith, false, inl, inr, some, List, [], ◌∷◌, ◌++◌, length}
use crossbeam.Epoch.Defs.{is_pinned, pinned, unpinned, Global, max_objects, defer_loop, collect}
use crossbeam.Epoch.Reclaim.{IsSound, Collects, bags, collect_waits}
use crossbeam.Epoch.Local.{Local, get, enter, unpin, repin, release_handle, register}
use crossbeam.Epoch.Moves.{IsTied, functions}
use crossbeam.Epoch.Keeps.{Leaves, local_keeps}
use crossbeam.Epoch.Defer.{defer_keeps}

-- Epoch 3: one participant is pinned in it and one is not; two bags were sealed, in epochs 1 and 3.
abbrev third : Global ℕ
third = record {
  locals = 7 ∷ 0 ∷ [];
  queue = record { epoch = 2; bag = 10 ∷ 11 ∷ [] } ∷ record { epoch = 6; bag = 12 ∷ [] } ∷ [];
  epoch = 6;
  called = [];
}

third-IsSound : IsSound 3 third
unfolding unpinned is_pinned
third-IsSound = record {
  at = refl;
  near = (inr (inl refl), (inl refl, tt));
  sealed = ((1, omega arith, refl), ((3, omega arith, refl), tt));
}

collect_waits_example : Collects 3 third (collect third)
collect_waits_example = collect_waits 3 third third-IsSound

defer_keeps_example :
    (bag : List ℕ) × (g : Global ℕ) × (defer_loop 2 5 (4 ∷ []) third ≡ some (bag, g))
    × (length bag ≤ max_objects)
    × (bags g.queue ++ bag ≡ (bags third.queue ++ (4 ∷ [])) ++ (5 ∷ []))
defer_keeps_example = defer_keeps 0 5 (4 ∷ []) third (omega arith)

-- A participant with one guard and no handle, so that unpinning it deletes it.
abbrev leaving : Local ℕ
leaving = record {
  place = 0;
  bag = 20 ∷ [];
  guard_count = 1;
  handle_count = 0;
  pin_count = 4;
  deleted = false;
}

leaving-IsTied : IsTied leaving third
unfolding is_pinned get
leaving-IsTied = record { placed = omega arith; agrees = refl }

local_keeps_example :
    Leaves 3 leaving third 7 (enter leaving third)
    × Leaves 3 leaving third 0 (unpin leaving third)
    × Leaves 3 leaving third 7 (leaving, repin leaving third)
    × Leaves 3 leaving third 7 (release_handle leaving third)
    × IsSound 3 (repin leaving third)
    × IsSound 3 (register third).1
    × IsTied (register third).0 (register third).1
    × (functions (register third).0 (register third).1 ≡ third.called ++ bags third.queue)
unfolding get pinned
local_keeps_example = local_keeps 3 leaving third third-IsSound leaving-IsTied
