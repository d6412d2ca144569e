-- ===== src/Parker/Defs.antt =====
-- `park` and `unpark` as atomic actions. A parker is used by one thread at a time, so there is one
-- program counter for `park`; calls of `unpark` are counted by how far they have come. The mutex
-- protects no data: `unpark` takes and drops it in one action.
use crossbeam.Prelude.{
  ℕ, ◌+◌, ◌-◌, ◌<◌, ◌≡◌, Bool, true, false, Option, none, some, if◌then◌else◌, ◌==◌, leb,
}

pub data UnparkReason : Type 0 where
  unparked : UnparkReason
  timeout : UnparkReason

abbrev pub empty : ℕ
empty = 0

abbrev pub parked : ℕ
parked = 1

abbrev pub notified : ℕ
notified = 2

-- What `park` does next.
pub data Next : Type 0 where
  idle : Next
  take_early : Next
  test_deadline : Next
  take_lock : Next
  announce : Next
  take_late : Next
  block : Next
  asleep : Next
  relock : Next
  take_woken : Next
  give_up : Next
  done : UnparkReason → Next

-- The shared word; the parking thread, with the deadline of its call; the calls of `unpark` that found
-- it parked and have yet to pass the lock, or to notify; and whether some thread panicked.
pub record Inner : Type 0 where
  pub state : ℕ
  pub next : Next
  pub deadline : Option ℕ
  pub passing : ℕ
  pub notifying : ℕ
  pub panicked : Bool

abbrev pub new : Inner
new = record {
  state = empty;
  next = idle;
  deadline = none;
  passing = 0;
  notifying = 0;
  panicked = false;
}

-- The parking thread holds the lock.
unfoldable pub holds_lock : Next → Bool
holds_lock announce = true
holds_lock take_late = true
holds_lock block = true
holds_lock take_woken = true
holds_lock give_up = true
holds_lock _ = false

abbrev pub is_late : Option ℕ → ℕ → Bool
is_late none now = false
is_late (some d) now = leb d now

-- A call of `park`.
abbrev pub call : Option ℕ → Inner → Inner
call deadline s = record s { next = take_early; deadline = deadline }

-- The next action of `park` at the time `now`, where it is not asleep.
unfoldable pub park_step : ℕ → Next → Inner → Inner
park_step now take_early s =
    if s.state == notified
    then record s { state = empty; next = done unparked }
    else record s { next = test_deadline }
park_step now test_deadline s =
    if is_late s.deadline now
    then record s { next = done timeout }
    else record s { next = take_lock }
park_step now take_lock s = record s { next = announce }
park_step now announce s =
    if s.state == empty
    then record s { state = parked; next = block }
    else if s.state == notified
    then record s { next = take_late }
    else record s { panicked = true }
park_step now take_late s =
    if s.state == notified
    then record s { state = empty; next = done unparked }
    else record s { state = empty; panicked = true }
park_step now block s =
    if is_late s.deadline now then record s { next = give_up } else record s { next = asleep }
park_step now relock s = record s { next = take_woken }
park_step now take_woken s =
    if s.state == notified
    then record s { state = empty; next = done unparked }
    else record s { next = block }
park_step now give_up s =
    if s.state == notified
    then record s { state = empty; next = done unparked }
    else if s.state == parked
    then record s { state = empty; next = done timeout }
    else record s { state = empty; panicked = true }
park_step now (done reason) s = record s { next = idle }
park_step now idle s = s
park_step now asleep s = s

-- The condition variable wakes the thread.
unfoldable pub wake_up : Inner → Inner
wake_up s = elim s.next [ asleep ↦ record s { next = relock } | _ ↦ s ]

-- The swap of `unpark`.
unfoldable pub unpark_swap : Inner → Inner
unpark_swap s =
    let s' = record s { state = notified } in
    if s.state == empty
    then s'
    else if s.state == notified
    then s'
    else if s.state == parked
    then record s' { passing = s.passing + 1 }
    else record s' { panicked = true }

-- `unpark` takes the lock and drops it.
abbrev pub unpark_lock : Inner → Inner
unpark_lock s = record s { passing = s.passing - 1; notifying = s.notifying + 1 }

-- `notify_one`
abbrev pub unpark_notify : Inner → Inner
unpark_notify s = wake_up (record s { notifying = s.notifying - 1 })

-- One action of one thread. A waiting thread may also wake up for its timeout, or for no reason.
pub data Step : Inner → Inner → Type 0 where
  call_park : {s : Inner} (deadline : Option ℕ) → s.next ≡ idle → Step s (call deadline s)
  park : {s : Inner} (now : ℕ) → Step s (park_step now s.next s)
  spurious : {s : Inner} → Step s (wake_up s)
  swap : {s : Inner} → Step s (unpark_swap s)
  lock : {s : Inner} → holds_lock s.next ≡ false → 0 < s.passing → Step s (unpark_lock s)
  notify_one : {s : Inner} → 0 < s.notifying → Step s (unpark_notify s)

pub data Steps (s : Inner) : Inner → Type 0 where
  stay : Steps s s
  then_step : {t u : Inner} → Steps s t → Step t u → Steps s u
