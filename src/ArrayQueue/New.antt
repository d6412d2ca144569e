-- ===== src/ArrayQueue/New.antt =====
-- `ArrayQueue::new`, and calls from a new queue on.
use crossbeam.Prelude.{
  ℕ, ◌+◌, ◌*◌, ◌≤◌, ◌<◌, ◌≡◌, refl, sym, subst, ◌∙◌, arith, none, some, List, [], word_mod,
}
use crossbeam.Prelude.Powers.{checked_next_power_of_two-NextPower, checked_next_power_of_two-total}
use native.Mathlib.Nat.{mod-eq_of_lt}
use crossbeam.Stamp.{IsLayout, stamp_at-small}
use crossbeam.ArrayQueue.Defs.{ArrayQueue, returned, new}
use crossbeam.ArrayQueue.Fifo
use crossbeam.ArrayQueue.Fifo.{Call, Answer, pushed, taken}
use crossbeam.ArrayQueue.Invariant.{Represents}
use crossbeam.ArrayQueue.Refine.{run, Enough, run_refines}

module _ {ℓ} {A : Type ℓ} where
  -- The state that `new` makes.
  abbrev pub fresh : ℕ → ℕ → ArrayQueue A
  fresh cap one_lap = record {
    head = 0;
    tail = 0;
    buffer = λ i. record { stamp = i; value = none };
    cap = cap;
    one_lap = one_lap;
  }

  pub fresh-Represents :
      {cap one_lap laps : ℕ} → IsLayout one_lap cap laps → Represents laps 0 [] (fresh cap one_lap)
  fresh-Represents {cap} {one_lap} {laps} g = record {
    layout = g;
    head_at = sym (stamp_at-small g 0 g.cap_pos);
    tail_at = sym (stamp_at-small g 0 g.cap_pos);
    held = record {
      room = omega arith;
      taken = λ i x e. absurd (cc);
      free = λ p low high. mod-eq_of_lt (below p high) ∙ sym (stamp_at-small g p (below p high));
    };
  }
    where
      below : (p : ℕ) → p < 0 + cap → p < cap
      below p high = omega arith

  -- `new` of a positive capacity, where a larger power of two is a word, does not panic, and makes
  -- an empty queue of that capacity.
  pub new-Represents :
      (cap : ℕ)
      → 0 < cap
      → 2 * (cap + 1) ≤ word_mod
      → (q : ArrayQueue A) × (laps : ℕ) × (new cap ≡ some q)
        × Represents laps 0 [] q
        × (q.cap ≡ cap)
  unfolding new
  new-Represents cap pos small =
      let (one_lap, e) = checked_next_power_of_two-total (cap + 1) small in
      let (laps, p) = checked_next_power_of_two-NextPower (cap + 1) e in
      (
        fresh cap one_lap,
        laps,
        ground (arith, e, pos),
        fresh-Represents (record {
          cap_pos = pos;
          fits = omega (arith, p.large);
          whole = p.whole;
          many = p.many;
        }),
        refl,
      )

  -- From `new` of a positive capacity on, where twice the capacity and 2 more are at most a word's
  -- modulus, any calls, each with more fuel than verdicts, all return and answer as those on a list
  -- bounded by the capacity.
  pub new-run_refines :
      (cap fuel : ℕ) (cs : List (Call A))
      → 0 < cap
      → 2 * (cap + 1) ≤ word_mod
      → Enough fuel cs
      → (q : ArrayQueue A) × (new cap ≡ some q) × (run fuel cs q ≡ returned (Fifo.run cap cs []))
  new-run_refines cap fuel cs pos small lt =
      let (q, laps, e, r, same) = new-Represents cap pos small in
      (
        q,
        e,
        subst (λ c. run fuel cs q ≡ returned (Fifo.run c cs [])) same (run_refines fuel cs [] r lt),
      )
