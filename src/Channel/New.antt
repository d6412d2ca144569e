-- ===== src/Channel/New.antt =====
-- `Channel::with_capacity`, and calls from a new channel on.
use native.Mathlib.Nat.{mod-eq_of_lt}
use crossbeam.Prelude.{
  ℕ, ◌+◌, ◌*◌, ◌≤◌, ◌<◌, ◌≡◌, refl, sym, ap, subst, ◌∙◌, arith, false, none, some, List, [],
  word_mod, dec_lt,
}
use crossbeam.Prelude.Powers.{
  NextPower, checked_next_power_of_two-NextPower, checked_next_power_of_two-total,
  checked_next_power_of_two-tight,
}
use crossbeam.Stamp.{stamp_at-small}
use crossbeam.ArrayQueue.Defs.{returned}
use crossbeam.Waker.Context.{World}
use crossbeam.Waker.Sync.{new as new_waker}
use crossbeam.Channel.Defs.{Channel, with_capacity}
use crossbeam.Channel.Fifo
use crossbeam.Channel.Fifo.{Call}
use crossbeam.Channel.Marks.{IsMarkedLayout}
use crossbeam.Channel.Invariant.{Represents}
use crossbeam.Channel.Refine.{run, Enough, calls_refine}

marked_layout :
    {cap mark_bit laps : ℕ}
    → 0 < cap
    → NextPower (cap + 1) mark_bit laps
    → mark_bit * 2 < word_mod
    → (half : ℕ) × IsMarkedLayout (mark_bit * 2) cap mark_bit half
marked_layout {cap} {mark_bit} {laps} pos p small =
    let (half, same, many) = p.halves more in
    let whole = ap (λ (m : ℕ). m * mark_bit) same in
    (
      half,
      record {
        layout = record {
          cap_pos = pos;
          fits = omega (arith, p.large);
          whole = omega (arith, p.whole, whole);
          many = many;
        };
        halves = omega arith;
        below = omega (arith, p.large);
      },
    )
  where
    more : 2 < laps
    more = elim (dec_lt 2 laps) [
      | yes gt ↦ gt
      | no le ↦
          let two : laps ≡ 2 = omega (arith, le, p.many) in
          absurd (omega (arith, p.whole, small, ap (λ (m : ℕ). m * mark_bit) two))
    ]

module _ {ℓ} {A : Type ℓ} where
  -- The state that `with_capacity` makes.
  abbrev pub fresh : ℕ → ℕ → ℕ → Channel A
  fresh cap one_lap mark_bit = record {
    head = 0;
    tail = 0;
    buffer = λ i. record { stamp = i; value = none };
    cap = cap;
    one_lap = one_lap;
    mark_bit = mark_bit;
    senders = new_waker;
    receivers = new_waker;
  }

  pub fresh-Represents :
      {cap one_lap mark_bit laps : ℕ}
      → IsMarkedLayout one_lap cap mark_bit laps
      → Represents laps 0 [] false (fresh cap one_lap mark_bit)
  fresh-Represents {cap} g = record {
    marks = g;
    head_at = sym (stamp_at-small g.layout 0 g.layout.cap_pos);
    tail_at = sym (stamp_at-small g.layout 0 g.layout.cap_pos);
    held = record {
      room = omega arith;
      taken = λ i x e. absurd (cc);
      free = λ p low high.
          mod-eq_of_lt (below p high) ∙ sym (stamp_at-small g.layout p (below p high));
    };
  }
    where
      below : (p : ℕ) → p < 0 + cap → p < cap
      below p high = omega arith

  -- `with_capacity` of a positive capacity, where twice a larger power of two is a word, does not
  -- panic, and makes an empty channel of that capacity.
  pub with_capacity-Represents :
      (cap : ℕ)
      → 0 < cap
      → 4 * (cap + 1) ≤ word_mod
      → (q : Channel A) × (laps : ℕ) × (with_capacity cap ≡ some q)
        × Represents laps 0 [] false q
        × (q.cap ≡ cap)
  unfolding with_capacity
  with_capacity-Represents cap pos small =
      let (mark_bit, e) = checked_next_power_of_two-total (cap + 1) (omega arith) in
      let (laps, p) = checked_next_power_of_two-NextPower (cap + 1) e in
      let tight = checked_next_power_of_two-tight (cap + 1) e (omega arith) in
      let (half, g) = marked_layout pos p (omega arith) in
      (fresh cap (mark_bit * 2) mark_bit, half, ground (arith, e, pos), fresh-Represents g, refl)

  -- From `with_capacity` of a positive capacity on, where four times the capacity and 4 more are at
  -- most a word's modulus, any calls, each with more fuel than verdicts, all return and answer as
  -- those on a list bounded by the capacity.
  pub with_capacity-calls_refine :
      (cap fuel : ℕ) (cs : List (Call A)) (w : World)
      → 0 < cap
      → 4 * (cap + 1) ≤ word_mod
      → Enough fuel cs
      → (q : Channel A) × (with_capacity cap ≡ some q)
        × (run fuel cs w q ≡ returned (Fifo.run cap cs [] false))
  with_capacity-calls_refine cap fuel cs w pos small lt =
      let (q, laps, e, r, same) = with_capacity-Represents cap pos small in
      (
        q,
        e,
        subst (λ c. run fuel cs w q ≡ returned (Fifo.run c cs [] false)) same
            (calls_refine fuel cs w [] false r lt),
      )
