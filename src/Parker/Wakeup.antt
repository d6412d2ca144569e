-- ===== src/Parker/Wakeup.antt =====
-- A thread that was notified while it parks returns from `park`, without the help of a timeout or of a
-- spurious wake-up.
use crossbeam.Prelude.{
  ℕ, zero, suc, ◌+◌, ◌*◌, ◌<◌, ◌≡◌, ◌≢◌, refl, arith, Bool, true, false, ◌⊎◌, inl, inr, dec_lt,
}
use crossbeam.Parker.Defs.{
  unparked, empty, notified, Next, idle, announce, take_late, block, asleep, relock, take_woken,
  give_up, done, Inner, new, holds_lock, park_step, wake_up, unpark_lock, unpark_notify, park,
  spurious, lock, notify_one, Steps,
}
use crossbeam.Parker.Safety.{IsSound, fits, fit_at, Step-IsSound, Steps-IsSound, new-IsSound}

-- The thread is in a call of `park`, and not asleep.
abbrev pub is_awake : Next → Bool
is_awake idle = false
is_awake asleep = false
is_awake (done _) = false
is_awake _ = true

-- The thread has taken the lock in its call of `park`.
abbrev pub is_inside : Next → Bool
is_inside announce = true
is_inside take_late = true
is_inside block = true
is_inside asleep = true
is_inside relock = true
is_inside take_woken = true
is_inside give_up = true
is_inside _ = false

-- An action of the thread that is not asleep, or of a call of `unpark` that has swapped the word.
pub data Move (s : Inner) : Inner → Type 0 where
  act : (now : ℕ) → is_awake s.next ≡ true → Move s (park_step now s.next s)
  pass : holds_lock s.next ≡ false → 0 < s.passing → Move s (unpark_lock s)
  notify : 0 < s.notifying → Move s (unpark_notify s)

-- In whatever order these actions come, and whether or not the thread wakes up for no reason, `park`
-- returns `Unparked` with the word `empty`: until then there always is an action, and they end.
pub data Inevitably : Inner → Type 0 where
  returned : {s : Inner} → s.next ≡ done unparked → s.state ≡ empty → Inevitably s
  later :
      {s t : Inner}
      → Move s t
      → ((u : Inner) → Move s u → Inevitably u)
      → (s.next ≡ asleep → Inevitably (wake_up s))
      → Inevitably s

-- How many actions of the thread are left.
abbrev rank : Next → ℕ
rank announce = 2
rank block = 4
rank asleep = 3
rank relock = 2
rank take_late = 1
rank take_woken = 1
rank give_up = 1
rank _ = 0

abbrev left : Next → Inner → ℕ
left next s = rank next + 2 * s.passing + s.notifying

-- The call has returned as it should, or goes on with fewer than `bound` actions left.
abbrev Nearer : ℕ → Inner → Type 0
Nearer bound t =
    ((t.next ≡ done unparked) × (t.state ≡ empty))
    ⊎ ((is_inside t.next ≡ true) × (t.state ≡ notified) × (left t.next t < bound))

act-Nearer :
    (now : ℕ) (next : Next) (s : Inner)
    → is_awake next ≡ true
    → is_inside next ≡ true
    → s.state ≡ notified
    → Nearer (left next s) (park_step now next s)
unfolding park_step
act-Nearer now announce s awake inside noted = rw noted (inr (refl, refl, omega arith))
act-Nearer now take_late s awake inside noted = rw noted (inl (refl, refl))
act-Nearer now block s awake inside noted = inr (ground arith, ground (arith, noted), ground arith)
act-Nearer now relock s awake inside noted = inr (refl, noted, omega arith)
act-Nearer now take_woken s awake inside noted = rw noted (inl (refl, refl))
act-Nearer now give_up s awake inside noted = rw noted (inl (refl, refl))
act-Nearer now _ s awake inside noted = absurd (cc)

wake-Nearer :
    (s : Inner) → s.next ≡ asleep → s.state ≡ notified → Nearer (left s.next s) (wake_up s)
unfolding wake_up
wake-Nearer s e noted = rw e (inr (refl, noted, omega arith))

notify-Nearer :
    (s : Inner)
    → 0 < s.notifying
    → is_inside s.next ≡ true
    → s.state ≡ notified
    → Nearer (left s.next s) (unpark_notify s)
unfolding wake_up
notify-Nearer s pos inside noted =
    inr (ground (arith, inside), ground (arith, noted), ground (arith, pos))

Move-Nearer :
    {s t : Inner}
    → Move s t
    → is_inside s.next ≡ true
    → s.state ≡ notified
    → Nearer (left s.next s) t
Move-Nearer {s} (act now awake) inside noted = act-Nearer now s.next s awake inside noted
Move-Nearer {s} (pass free pos) inside noted = inr (inside, noted, omega (arith, pos))
Move-Nearer {s} (notify pos) inside noted = notify-Nearer s pos inside noted

Move-IsSound : {s t : Inner} → Move s t → IsSound s → IsSound t
Move-IsSound (act now awake) i = Step-IsSound (park now) i
Move-IsSound (pass free pos) i = Step-IsSound (lock free pos) i
Move-IsSound (notify pos) i = Step-IsSound (notify_one pos) i

awake_or_asleep : (next : Next) → is_inside next ≡ true → (is_awake next ≡ true) ⊎ (next ≡ asleep)
awake_or_asleep announce inside = inl refl
awake_or_asleep take_late inside = inl refl
awake_or_asleep block inside = inl refl
awake_or_asleep asleep inside = inr refl
awake_or_asleep relock inside = inl refl
awake_or_asleep take_woken inside = inl refl
awake_or_asleep give_up inside = inl refl
awake_or_asleep _ inside = absurd (cc)

-- What is owed to a thread that is asleep is a call of `unpark` that can act.
owed-Move : (s : Inner) → IsSound s → s.next ≡ asleep → s.state ≡ notified → (t : Inner) × Move s t
unfolding holds_lock
owed-Move s i e noted =
    let owed : fits asleep s.state s.passing s.notifying ≡ true = fit_at e i in
    elim (dec_lt 0 s.notifying) [
      | yes pos ↦ (unpark_notify s, notify pos)
      | no none_left ↦ (unpark_lock s, pass (rw e refl) (ground (arith, owed, noted, none_left)))
    ]

some_Move :
    (s : Inner) → IsSound s → is_inside s.next ≡ true → s.state ≡ notified → (t : Inner) × Move s t
some_Move s i inside noted = elim (awake_or_asleep s.next inside) [
  | inl awake ↦ (park_step 0 s.next s, act 0 awake)
  | inr e ↦ owed-Move s i e noted
]

Nearer-Inevitably :
    (bound : ℕ) (t : Inner)
    → (is_inside t.next ≡ true → t.state ≡ notified → left t.next t < bound → Inevitably t)
    → Nearer bound t
    → Inevitably t
Nearer-Inevitably bound t go (inl (e, taken)) = returned e taken
Nearer-Inevitably bound t go (inr (inside, noted, less)) = go inside noted less

sound-Inevitably :
    (bound : ℕ) (s : Inner)
    → IsSound s
    → is_inside s.next ≡ true
    → s.state ≡ notified
    → left s.next s < bound
    → Inevitably s
sound-Inevitably zero s i inside noted less = absurd (omega arith)
sound-Inevitably (suc bound) s i inside noted less =
    let nearer : (u : Inner) → IsSound u → Nearer (left s.next s) u → Inevitably u = λ u j.
      Nearer-Inevitably (left s.next s) u (λ inside' noted' less'.
        sound-Inevitably bound u j inside' noted' (omega (arith, less', less))) in
    later (some_Move s i inside noted).1
      (λ u m. nearer u (Move-IsSound m i) (Move-Nearer m inside noted))
      (λ e. nearer (wake_up s) (Step-IsSound spurious i) (wake-Nearer s e noted))

-- No notification is lost: in every state that is reached where a thread has taken the lock in its call
-- of `park`, asleep or not, and the word is `notified`, the thread's own actions and the calls of
-- `unpark` that have swapped the word, in whatever order they act, lead to the return of `Unparked`
-- with the word `empty`. One of them always can act until then, without a timeout or a spurious
-- wake-up of the thread, and these do no harm.
pub no_lost_wakeup :
    {s : Inner} → Steps new s → is_inside s.next ≡ true → s.state ≡ notified → Inevitably s
no_lost_wakeup {s} path inside noted =
    sound-Inevitably (suc (left s.next s)) s (Steps-IsSound path new-IsSound) inside noted
      (omega arith)

-- An action after which `park` returns `Unparked`, and did not before, takes a notification: it finds
-- the word `notified` and leaves it `empty`.
pub unparked_takes :
    (now : ℕ) (s : Inner)
    → s.next ≢ done unparked
    → (park_step now s.next s).next ≡ done unparked
    → (s.state ≡ notified) × ((park_step now s.next s).state ≡ empty)
unfolding park_step
unparked_takes now s ne e = (ground (arith, ne, e), ground (arith, ne, e))
