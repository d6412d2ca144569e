-- ===== src/Parker/Safety.antt =====
-- What every state of a parker satisfies, and that no notification is lost.
use crossbeam.Prelude.{
  ℕ, ◌+◌, ◌<◌, ◌≡◌, refl, subst, arith, Bool, true, false, if◌then◌else◌, ◌==◌, ltb,
}
use crossbeam.Parker.Defs.{
  empty, parked, notified, Next, take_late, block, asleep, relock, take_woken, give_up, Inner, new,
  holds_lock, park_step, wake_up, unpark_swap, unpark_lock, unpark_notify, Step, call_park, park,
  spurious, swap, lock, notify_one, Steps, stay, then_step,
}

-- What the word may be: `parked` only while the thread parks, and not `empty` then; and what is owed to
-- a thread that was notified: while it is about to block, an unparker that still has to pass the lock,
-- and while it is asleep, an unparker that will notify.
abbrev pub fits : Next → ℕ → ℕ → ℕ → Bool
fits take_late state passing notifying = state == notified
fits block state passing notifying = if state == notified then ltb 0 passing else state == parked
fits asleep state passing notifying =
    if state == notified then ltb 0 (passing + notifying) else state == parked
fits relock state passing notifying = if state == notified then true else state == parked
fits take_woken state passing notifying = if state == notified then true else state == parked
fits give_up state passing notifying = if state == notified then true else state == parked
fits _ state passing notifying = if state == notified then true else state == empty

pub record IsSound (s : Inner) : Type 0 where
  pub fit : fits s.next s.state s.passing s.notifying ≡ true
  pub calm : s.panicked ≡ false

pub fit_at :
    {s : Inner} {next : Next}
    → s.next ≡ next
    → IsSound s
    → fits next s.state s.passing s.notifying ≡ true
fit_at {s} e i = subst (λ n. fits n s.state s.passing s.notifying ≡ true) e i.fit

park-IsSound :
    (now : ℕ) (next : Next) (s : Inner) → s.next ≡ next → IsSound s → IsSound (park_step now next s)
unfolding park_step
park-IsSound now next s e i = record {
  fit = ground (arith, fit_at e i);
  calm = ground (arith, fit_at e i, i.calm);
}

wake-IsSound : (s : Inner) → IsSound s → IsSound (wake_up s)
unfolding wake_up
wake-IsSound s i = record { fit = ground (arith, i.fit); calm = ground (arith, i.calm) }

swap-IsSound : (s : Inner) → IsSound s → IsSound (unpark_swap s)
unfolding unpark_swap
swap-IsSound s i = record { fit = ground (arith, i.fit); calm = ground (arith, i.fit, i.calm) }

lock-IsSound :
    (s : Inner) → holds_lock s.next ≡ false → 0 < s.passing → IsSound s → IsSound (unpark_lock s)
unfolding holds_lock
lock-IsSound s free some_pass i = record {
  fit = ground (arith, i.fit, free, some_pass);
  calm = i.calm;
}

notify-IsSound : (s : Inner) → 0 < s.notifying → IsSound s → IsSound (unpark_notify s)
unfolding wake_up
notify-IsSound s some_notify i = record {
  fit = ground (arith, i.fit, some_notify);
  calm = ground (arith, i.calm);
}

pub Step-IsSound : {s t : Inner} → Step s t → IsSound s → IsSound t
Step-IsSound {s} (call_park deadline e) i = record {
  fit = ground (arith, fit_at e i);
  calm = i.calm;
}
Step-IsSound {s} (park now) i = park-IsSound now s.next s refl i
Step-IsSound {s} spurious i = wake-IsSound s i
Step-IsSound {s} swap i = swap-IsSound s i
Step-IsSound {s} (lock free some_pass) i = lock-IsSound s free some_pass i
Step-IsSound {s} (notify_one some_notify) i = notify-IsSound s some_notify i

-- Every state that a new parker reaches is sound.
pub Steps-IsSound : {s t : Inner} → Steps s t → IsSound s → IsSound t
Steps-IsSound stay i = i
Steps-IsSound (then_step path step) i = Step-IsSound step (Steps-IsSound path i)

pub new-IsSound : IsSound new
new-IsSound = record { fit = refl; calm = refl }

-- No action of `park` or `unpark` panics, in whatever order the threads act.
pub never_panics : {s : Inner} → Steps new s → s.panicked ≡ false
never_panics path = (Steps-IsSound path new-IsSound).calm
