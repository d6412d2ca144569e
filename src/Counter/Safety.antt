-- ===== src/Counter/Safety.antt =====
-- The counter is freed once, and not before both sides are done with it.
use crossbeam.Prelude.{
  ◌+◌, ◌^◌, ◌≤◌, ◌<◌, ◌≡◌, refl, subst, arith, Bool, true, false, ◌&&◌, ◌||◌, some, if◌then◌else◌,
  ltb, dec_lt,
}
use crossbeam.Counter.Defs.{
  Phase, live, gone, Side, Counter, isize_max, new, acquire, release, disconnect_senders,
  disconnect_receivers, destroy_senders, destroy_receivers, Step, acquire_sender, acquire_receiver,
  release_sender, release_receiver, senders_disconnect, receivers_disconnect, senders_destroy,
  receivers_destroy, Steps, stay, then_step,
}

abbrev pub is_live : Phase → Bool
is_live live = true
is_live _ = false

abbrev pub is_gone : Phase → Bool
is_gone gone = true
is_gone _ = false

-- A side is live exactly while it has a handle, and its count does not come near the end of a word.
pub record IsSideSound (s : Side) : Type 0 where
  pub held : is_live s.phase ≡ ltb 0 s.count
  pub bounded : s.count ≤ 2 ^ 63

-- The flag says that a side is gone; the counter was freed once if both are, and else never.
pub record IsSound {ℓ} {C : Type ℓ} (c : Counter C) : Type 0 where
  pub senders : IsSideSound c.senders
  pub receivers : IsSideSound c.receivers
  pub flag : c.destroy ≡ (is_gone c.senders.phase || is_gone c.receivers.phase)
  pub freed : c.freed ≡ (if is_gone c.senders.phase && is_gone c.receivers.phase then 1 else 0)

-- The two sides' phases, which are all that the flag and the deallocation depend on.
acquire-IsSideSound :
    (s : Side) {t : Side}
    → acquire s ≡ some t
    → 0 < s.count
    → IsSideSound s
    → IsSideSound t × (t.phase ≡ s.phase)
unfolding acquire
acquire-IsSideSound s {t} e pos i = elim (dec_lt isize_max s.count) [
  | yes many ↦ absurd (ground (arith, e, many))
  | no few ↦
      let same : record s { count = s.count + 1 } ≡ t = ground (arith, e, few) in
      subst (λ u. IsSideSound u × (u.phase ≡ s.phase)) same
        (record { held = ground (arith, i.held, pos); bounded = omega (arith, few) }, refl)
]

release-IsSideSound :
    (s : Side)
    → 0 < s.count
    → IsSideSound s
    → IsSideSound (release s) × (is_gone (release s).phase ≡ is_gone s.phase)
unfolding release
release-IsSideSound s pos i = (
  record { held = ground (arith, i.held, pos); bounded = omega (arith, i.bounded) },
  ground (arith, i.held, pos),
)

module _ {ℓ} {C : Type ℓ} (on_senders on_receivers : C → C) where
  Step-IsSound : {c d : Counter C} → Step on_senders on_receivers c d → IsSound c → IsSound d
  unfolding disconnect_senders disconnect_receivers destroy_senders destroy_receivers
  Step-IsSound {c} (acquire_sender pos e) i =
      let (side, same) = acquire-IsSideSound c.senders e pos i.senders in
      record {
        senders = side;
        receivers = i.receivers;
        flag = ground (arith, same, i.flag);
        freed = ground (arith, same, i.freed);
      }
  Step-IsSound {c} (acquire_receiver pos e) i =
      let (side, same) = acquire-IsSideSound c.receivers e pos i.receivers in
      record {
        senders = i.senders;
        receivers = side;
        flag = ground (arith, same, i.flag);
        freed = ground (arith, same, i.freed);
      }
  Step-IsSound {c} (release_sender pos) i =
      let (side, same) = release-IsSideSound c.senders pos i.senders in
      record {
        senders = side;
        receivers = i.receivers;
        flag = ground (arith, same, i.flag);
        freed = ground (arith, same, i.freed);
      }
  Step-IsSound {c} (release_receiver pos) i =
      let (side, same) = release-IsSideSound c.receivers pos i.receivers in
      record {
        senders = i.senders;
        receivers = side;
        flag = ground (arith, same, i.flag);
        freed = ground (arith, same, i.freed);
      }
  Step-IsSound {c} (senders_disconnect e) i = record {
    senders = record { held = ground (arith, e, i.senders.held); bounded = i.senders.bounded };
    receivers = i.receivers;
    flag = ground (arith, e, i.flag);
    freed = ground (arith, e, i.freed);
  }
  Step-IsSound {c} (receivers_disconnect e) i = record {
    senders = i.senders;
    receivers = record {
      held = ground (arith, e, i.receivers.held);
      bounded = i.receivers.bounded;
    };
    flag = ground (arith, e, i.flag);
    freed = ground (arith, e, i.freed);
  }
  Step-IsSound {c} (senders_destroy e) i = record {
    senders = record { held = ground (arith, e, i.senders.held); bounded = i.senders.bounded };
    receivers = i.receivers;
    flag = ground (arith, e, i.flag);
    freed = ground (arith, e, i.flag, i.freed);
  }
  Step-IsSound {c} (receivers_destroy e) i = record {
    senders = i.senders;
    receivers = record {
      held = ground (arith, e, i.receivers.held);
      bounded = i.receivers.bounded;
    };
    flag = ground (arith, e, i.flag);
    freed = ground (arith, e, i.flag, i.freed);
  }

  pub Steps-IsSound : {c d : Counter C} → Steps on_senders on_receivers c d → IsSound c → IsSound d
  Steps-IsSound stay i = i
  Steps-IsSound (then_step path step) i = Step-IsSound step (Steps-IsSound path i)

  new-IsSound : (chan : C) → IsSound (new chan)
  new-IsSound chan = record {
    senders = record { held = refl; bounded = omega arith };
    receivers = record { held = refl; bounded = omega arith };
    flag = refl;
    freed = refl;
  }

  -- In whatever order the handles act, the counter was freed once if the last releases of both sides
  -- are through, and never before; a side's last release has not begun exactly while the side has a
  -- handle.
  pub freed_once :
      (chan : C) {c : Counter C}
      → Steps on_senders on_receivers (new chan) c
      → (c.freed ≡ (if is_gone c.senders.phase && is_gone c.receivers.phase then 1 else 0))
        × (is_live c.senders.phase ≡ ltb 0 c.senders.count)
        × (is_live c.receivers.phase ≡ ltb 0 c.receivers.count)
  freed_once chan path =
      let i = Steps-IsSound path (new-IsSound chan) in (i.freed, i.senders.held, i.receivers.held)

  -- The counts never exceed 2 ^ 63, so `fetch_add` does not wrap.
  pub counts_bounded :
      (chan : C) {c : Counter C}
      → Steps on_senders on_receivers (new chan) c
      → (c.senders.count ≤ 2 ^ 63) × (c.receivers.count ≤ 2 ^ 63)
  counts_bounded chan path =
      let i = Steps-IsSound path (new-IsSound chan) in (i.senders.bounded, i.receivers.bounded)
