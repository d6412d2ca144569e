-- ===== src/Waker/Tests.antt =====
-- Each theorem about wakers at an input that meets its hypotheses.
use crossbeam.Prelude.{◌≡◌, refl, arith, true, false, some, List, [], ◌∷◌, if◌then◌else◌, ◌==◌}
use crossbeam.Waker.Context.{
  Selected, waiting, aborted, disconnected, operation, World, new_cell, reset, try_select, won,
  lost, selected, decode, encode, Turn, wait_until,
}
use crossbeam.Waker.Context
use crossbeam.Waker.Defs.{Entry, Waker, notify, disconnect, try_select_one, can_select}
use crossbeam.Waker.Defs
use crossbeam.Waker.Sync.{SyncWaker}
use crossbeam.Waker.Sync
use crossbeam.Waker.Select.{Picks, try_select_one-Picks}
use crossbeam.Waker.Broadcast.{IsTold, notify_tells, disconnect_tells}
use crossbeam.Waker.Queues.{unregister-register}
use crossbeam.Waker.Wait.{one_winner, wait_until-deadline}

-- Every thread has the context of its own number; thread 4 is selected already.
abbrev world : World
world = record {
  cells = λ i. record (new_cell i) { select = if i == 4 then 50 else 0 };
  unparked = [];
}

-- Threads 1, 4 and 2 wait, with a packet of thread 2; thread 3 watches.
abbrev waker : Waker
waker = record {
  selectors =
      record { oper = 10; packet = 0; cx = 1 }
      ∷ record { oper = 40; packet = 0; cx = 4 }
      ∷ record { oper = 20; packet = 9; cx = 2 }
      ∷ [];
  observers = record { oper = 30; packet = 0; cx = 3 } ∷ [];
}

abbrev alone : Waker
alone = record { selectors = record { oper = 10; packet = 0; cx = 1 } ∷ []; observers = [] }

yes_for_one : can_select 1 world waker ≡ true
unfolding can_select Defs.any_selectable Defs.is_waiting Context.selected Context.thread_id
    Context.decode
yes_for_one = refl

no_for_one : can_select 1 world alone ≡ false
unfolding can_select Defs.any_selectable Defs.is_waiting Context.selected Context.thread_id
    Context.decode
no_for_one = refl

try_select_one-Picks_example :
    let (found, k', w') = try_select_one 1 world waker in
    Picks 1 world waker.selectors (found, k'.selectors, w') × (k'.observers ≡ waker.observers)
try_select_one-Picks_example = try_select_one-Picks 1 world waker yes_for_one

notify_tells_example :
    let (k', w') = notify world waker in
    (k' ≡ record { selectors = waker.selectors; observers = [] })
    × (w'.cells 3 ≡ record (world.cells 3) { select = 30 })
    × IsTold world w' 3
notify_tells_example = notify_tells world waker 3 (omega arith)

disconnect_tells_example :
    let (k', w') = disconnect world waker in
    (k' ≡ record { selectors = waker.selectors; observers = [] })
    × (w'.cells 1 ≡ record (world.cells 1) { select = 2 })
    × IsTold world w' 1
disconnect_tells_example = disconnect_tells world waker 1 (omega arith)

one_winner_example :
    let (first, w') = try_select (reset world 4) 4 (operation 7) in
    (first ≡ won)
    × (selected w' 4 ≡ operation 7)
    × (try_select w' 4 aborted ≡ (lost (operation 7), w'))
one_winner_example = one_winner world 4 (operation 7) aborted (omega arith) (λ e. absurd (cc))

-- The deadline 10 is reached at the second turn, while another thread selects the operation 9.
abbrev turns : List Turn
turns =
    record { seen = 0; now = 5; at_abort = 0 } ∷ record { seen = 0; now = 12; at_abort = 9 } ∷ []

late_turns : wait_until (some 10) turns ≡ some (operation 9)
unfolding wait_until decode
late_turns = refl

wait_until-deadline_example : (s : Selected) × (wait_until (some 10) turns ≡ some s)
wait_until-deadline_example =
    wait_until-deadline 10 (record { seen = 0; now = 5; at_abort = 0 } ∷ [])
      (record { seen = 0; now = 12; at_abort = 9 }) [] (omega arith)

abbrev shared : SyncWaker
shared = record { inner = waker; is_empty = false }

unregister-register_example :
    Sync.unregister (Sync.register shared 70 5) 70
    ≡ (some (record { oper = 70; packet = 0; cx = 5 }), Sync.seal waker)
unregister-register_example = unregister-register shared 70 5 refl
