-- ===== src/Counter/Defs.antt =====
-- `Counter`, and `acquire` and `release` as atomic actions.
use crossbeam.Prelude.{
  ℕ, ◌+◌, ◌-◌, ◌^◌, ◌<◌, ◌≡◌, Bool, true, false, Option, none, some, if◌then◌else◌, ◌==◌, ltb,
}

-- How far the last release of a side has come.
pub data Phase : Type 0 where
  live : Phase
  disconnecting : Phase
  destroying : Phase
  gone : Phase

-- One of `senders` and `receivers`, and the last release of that side.
pub record Side : Type 0 where
  pub count : ℕ
  pub phase : Phase

-- `freed` counts how often the counter was deallocated.
pub record Counter {ℓ} (C : Type ℓ) : Type ℓ where
  pub senders : Side
  pub receivers : Side
  pub destroy : Bool
  pub freed : ℕ
  pub chan : C

abbrev pub isize_max : ℕ
isize_max = 2 ^ 63 - 1

abbrev pub one_handle : Side
one_handle = record { count = 1; phase = live }

abbrev pub new {ℓ} : {C : Type ℓ} → C → Counter C
new chan = record {
  senders = one_handle;
  receivers = one_handle;
  destroy = false;
  freed = 0;
  chan = chan;
}

-- `acquire`; `none` is an abort.
unfoldable pub acquire : Side → Option Side
acquire s = if ltb isize_max s.count then none else some (record s { count = s.count + 1 })

-- The `fetch_sub` of `release`.
unfoldable pub release : Side → Side
release s = record s {
  count = s.count - 1;
  phase = if s.count == 1 then disconnecting else s.phase;
}

-- The call of `disconnect` by the last release of a side, and its swap of `destroy`.
module _ {ℓ} {C : Type ℓ} where
  unfoldable pub disconnect_senders : (C → C) → Counter C → Counter C
  disconnect_senders disconnect c = record c {
    senders = record c.senders { phase = destroying };
    chan = disconnect c.chan;
  }

  unfoldable pub disconnect_receivers : (C → C) → Counter C → Counter C
  disconnect_receivers disconnect c = record c {
    receivers = record c.receivers { phase = destroying };
    chan = disconnect c.chan;
  }

  unfoldable pub destroy_senders : Counter C → Counter C
  destroy_senders c = record c {
    senders = record c.senders { phase = gone };
    destroy = true;
    freed = if c.destroy then c.freed + 1 else c.freed;
  }

  unfoldable pub destroy_receivers : Counter C → Counter C
  destroy_receivers c = record c {
    receivers = record c.receivers { phase = gone };
    destroy = true;
    freed = if c.destroy then c.freed + 1 else c.freed;
  }

  -- One action of one handle; only a handle that is held acquires or releases.
  pub data Step (on_senders on_receivers : C → C) : Counter C → Counter C → Type ℓ where
    acquire_sender :
        {c : Counter C} {s : Side}
        → 0 < c.senders.count
        → acquire c.senders ≡ some s
        → Step on_senders on_receivers c (record c { senders = s })
    acquire_receiver :
        {c : Counter C} {s : Side}
        → 0 < c.receivers.count
        → acquire c.receivers ≡ some s
        → Step on_senders on_receivers c (record c { receivers = s })
    release_sender :
        {c : Counter C}
        → 0 < c.senders.count
        → Step on_senders on_receivers c (record c { senders = release c.senders })
    release_receiver :
        {c : Counter C}
        → 0 < c.receivers.count
        → Step on_senders on_receivers c (record c { receivers = release c.receivers })
    senders_disconnect :
        {c : Counter C}
        → c.senders.phase ≡ disconnecting
        → Step on_senders on_receivers c (disconnect_senders on_senders c)
    receivers_disconnect :
        {c : Counter C}
        → c.receivers.phase ≡ disconnecting
        → Step on_senders on_receivers c (disconnect_receivers on_receivers c)
    senders_destroy :
        {c : Counter C}
        → c.senders.phase ≡ destroying
        → Step on_senders on_receivers c (destroy_senders c)
    receivers_destroy :
        {c : Counter C}
        → c.receivers.phase ≡ destroying
        → Step on_senders on_receivers c (destroy_receivers c)

  pub data Steps (on_senders on_receivers : C → C) (c : Counter C) : Counter C → Type ℓ where
    stay : Steps on_senders on_receivers c c
    then_step :
        {d e : Counter C}
        → Steps on_senders on_receivers c d
        → Step on_senders on_receivers d e
        → Steps on_senders on_receivers c e
