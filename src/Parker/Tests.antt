-- ===== src/Parker/Tests.antt =====
-- A thread that parks and is notified as it falls asleep, and each theorem about it.
use crossbeam.Prelude.{◌≡◌, refl, false, none}
use crossbeam.Parker.Defs.{
  unparked, notified, asleep, take_woken, done, Inner, new, call_park, park, swap, park_step,
  unpark_swap, Steps, stay, then_step,
}
use crossbeam.Parker.Safety.{never_panics}
use crossbeam.Parker.Wakeup.{Inevitably, no_lost_wakeup}

-- The thread sleeps without a deadline; `unpark` has swapped the word, and has yet to notify.
abbrev sleeper : Inner
sleeper = record new { state = notified; next = asleep; passing = 1 }

to_sleeper : Steps new sleeper
unfolding park_step unpark_swap
to_sleeper =
    then_step
      (then_step
        (then_step
          (then_step
            (then_step (then_step (then_step stay (call_park none refl)) (park 0)) (park 0))
            (park 0))
          (park 0))
        (park 0))
      swap

never_panics_example : sleeper.panicked ≡ false
never_panics_example = never_panics to_sleeper

no_lost_wakeup_example : Inevitably sleeper
no_lost_wakeup_example = no_lost_wakeup to_sleeper refl refl

abbrev woken : Inner
woken = record new { state = notified; next = take_woken }

woken-unparked : (park_step 0 take_woken woken).next ≡ done unparked
unfolding park_step
woken-unparked = refl
