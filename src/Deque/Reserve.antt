-- ===== src/Deque/Reserve.antt =====
-- `Worker::reserve` and the constructors of `Worker`.
use crossbeam.Prelude.{
  ℕ, zero, suc, ◌+◌, ◌-◌, ◌^◌, ◌≤◌, ◌<◌, ◌≡◌, refl, ap, arith, none, some, List, [], length, lt→ltb,
  not_lt→ltb, dec_lt, wrapping_sub, ne→==,
}
use crossbeam.Prelude.Powers.{power_from-two_pow}
use crossbeam.Deque.Defs.{Deque, resize, reserve, new_fifo, new_lifo}
use crossbeam.Deque.Tickets.{wrapping_sub-word}
use crossbeam.Deque.Window.{Held-nil}
use crossbeam.Deque.Invariant.{Represents}
use crossbeam.Deque.Resize.{two_pow-le, length-small, resize-Represents}

module _ {ℓ} {T : Type ℓ} {e h : ℕ} {xs : List T} {d : Deque T} (rep : Represents e h xs d) where
  -- Where the tasks held and the `n` asked for are at most `2 ^ 62`, `reserve` does not overflow, keeps the
  -- tasks and the flavor, and leaves room for `n` more.
  pub reserve-Holds :
      (n : ℕ)
      → n + length xs ≤ 2 ^ 62
      → (d' : Deque T) × (e' : ℕ) × (reserve n d ≡ some d')
        × Represents e' h xs d'
        × (length xs + n ≤ d'.own.cap)
        × (d'.flavor ≡ d.flavor)
  unfolding reserve resize
  reserve-Holds zero fits = (d, e, refl, rep, omega (arith, rep.room), refl)
  reserve-Holds (suc n) fits = elim (dec_lt (d.own.cap - length xs) (suc n)) [
    | yes less ↦
        let (k, found, k_le, k_fits) =
          power_from-two_pow 64 0 (suc n + length xs) (omega arith) (omega arith) fits in
        (
          resize (2 ^ k) d,
          k,
          rw (len_at, ne→== (suc n) 0 (omega arith), lt→ltb _ _ less)
              (ap (λ o. elim o [ none ↦ none | some new_cap ↦ some (resize new_cap d) ]) found),
          resize-Represents rep k (larger k (omega (arith, less, k_fits))) k_le
              (omega (arith, k_fits)),
          omega (arith, k_fits),
          refl,
        )
    | no enough ↦ (
      d,
      e,
      rw (len_at, ne→== (suc n) 0 (omega arith), not_lt→ltb _ _ enough) refl,
      rep,
      omega (arith, rep.room),
      refl,
    )
  ]
    where
      larger : (k : ℕ) → d.own.cap < 2 ^ k → 6 ≤ k
      larger k more = elim (dec_lt k e) [
        | yes less ↦ absurd (omega (arith, two_pow-le k e (omega arith), rep.cap_at))
        | no least ↦ omega (arith, rep.least)
      ]

      len_at : wrapping_sub d.back d.front ≡ length xs
      len_at =
          rw (rep.front_at, rep.back_at)
            (wrapping_sub-word h (length xs) (omega (arith, length-small rep)))

module _ {ℓ} (T : Type ℓ) where
  -- The new deques are empty, with a buffer of 64 slots.
  pub new_fifo-Represents : Represents {T = T} 6 0 [] new_fifo
  unfolding new_fifo
  new_fifo-Represents = record {
    cap_at = refl;
    least = omega arith;
    most = omega arith;
    same = refl;
    allocated = omega arith;
    front_at = refl;
    back_at = refl;
    room = omega arith;
    held = Held-nil;
  }

  pub new_lifo-Represents : Represents {T = T} 6 0 [] new_lifo
  unfolding new_lifo
  new_lifo-Represents = record {
    cap_at = refl;
    least = omega arith;
    most = omega arith;
    same = refl;
    allocated = omega arith;
    front_at = refl;
    back_at = refl;
    room = omega arith;
    held = Held-nil;
  }
