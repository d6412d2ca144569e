-- ===== src/Epoch/Keeps.antt =====
-- The operations of a participant: they keep the state sound and the participant tied to its epoch, and
-- they pin and unpin it as its count of guards says.
use mathlib.Core.List.{append-nil}
use crossbeam.Prelude.{
  ℕ, ◌+◌, ◌-◌, ◌≡◌, refl, sym, ap, ◌∙◌, arith, true, ◌&&◌, ◌++◌, length-snoc, ltb, ◌==◌, ==_iff,
  Bool-cases, inl, inr, if◌then◌else◌,
}
use crossbeam.Epoch.Defs.{starting, is_pinned, pinned, Global, push_bag}
use crossbeam.Epoch.Reclaim.{bags, IsSound}
use crossbeam.Epoch.Local.{
  Local, get, set, enter, leave, finalize, unpin, repin, release_handle, register,
}
use crossbeam.Epoch.Pinned.{
  IsAbout, leave-IsSound, enter-IsAbout, unpin-IsAbout, repin-IsSound, release-IsAbout,
  register-IsSound,
}
use crossbeam.Epoch.Moves.{
  set-get, get-snoc, pinned-is_pinned, functions, IsTied, Moves, Moves-IsTied, Moves-trans,
  Moves-stay, enter-first, enter-again, leave-last, leave-more, push-leave,
}

module _ {ℓ} {D : Type ℓ} where
  enter-guard_count : (p : Local D) (g : Global D) → (enter p g).0.guard_count ≡ p.guard_count + 1
  unfolding enter
  enter-guard_count p g = ground arith

  -- `finalize` leaves the participant unpinned and its functions in the queue.
  finalize-Moves :
      (n : ℕ) (p : Local D) (g : Global D)
      → IsSound n g
      → p.guard_count == 0 ≡ true
      → Moves p g starting (finalize p g)
  unfolding finalize push_bag
  finalize-Moves n p g s none_left =
      let p' = record p { handle_count = 1 } in
      let (p1, g1) = enter p' g in
      let guards : p1.guard_count == 1 ≡ true = ground (arith, enter-guard_count p' g, none_left) in
      let m = Moves-trans (enter-first n p' g s none_left) (push-leave p1 g1 guards) in
      record { here = m.here; locals = m.locals; fits = m.fits; kept = m.kept }

  enter-Moves :
      (n : ℕ) (p : Local D) (g : Global D)
      → IsSound n g
      → IsTied p g
      → Moves p g (if p.guard_count == 0 then pinned g.epoch else get p.place g.locals) (enter p g)
  enter-Moves n p g s t = elim (Bool-cases (p.guard_count == 0)) [
    | inl first ↦ rw first (enter-first n p g s first)
    | inr again ↦ rw again (enter-again p g t again)
  ]

  leave-Moves :
      (p : Local D) (g : Global D)
      → IsTied p g
      → Moves p g (if p.guard_count == 1 then starting else get p.place g.locals) (leave p g)
  leave-Moves p g t = elim (Bool-cases (p.guard_count == 1)) [
    | inl last ↦ rw last (leave-last p g last)
    | inr more ↦ rw more (leave-more p g t more)
  ]

  leave-none_left :
      (p : Local D) (g : Global D)
      → p.guard_count == 1 ≡ true
      → (leave p g).0.guard_count == 0 ≡ true
  unfolding leave
  leave-none_left p g last = ground (arith, last)

  unpin-Moves :
      (n : ℕ) (p : Local D) (g : Global D)
      → IsSound n g
      → IsTied p g
      → Moves p g (if p.guard_count == 1 then starting else get p.place g.locals) (unpin p g)
  unfolding unpin
  unpin-Moves n p g s t = elim (Bool-cases (p.guard_count == 1 && p.handle_count == 0)) [
    | inl both ↦
        let last : p.guard_count == 1 ≡ true = ground (arith, both) in
        let (p', g') = leave p g in
        rw (both, last)
          (Moves-trans (leave-last p g last)
            (finalize-Moves n p' g' (leave-IsSound n p g s) (leave-none_left p g last)))
    | inr more ↦ rw more (leave-Moves p g t)
  ]

  repin-Moves :
      (p : Local D) (g : Global D)
      → IsTied p g
      → Moves p g
          (if p.guard_count == 1 then pinned g.epoch else get p.place g.locals)
          (p, repin p g)
  unfolding repin
  repin-Moves p g t = elim (Bool-cases (p.guard_count == 1)) [
    | inl last ↦
        let guards : is_pinned (pinned g.epoch) ≡ ltb 0 p.guard_count =
          pinned-is_pinned g.epoch ∙ ground (arith, last) in
        elim (Bool-cases (get p.place g.locals == pinned g.epoch)) [
          | inl current ↦
              rw (last, current)
                (record {
                  here = refl;
                  locals =
                      sym (set-get p.place g.locals)
                      ∙ ap (λ e. set p.place e g.locals) ((==_iff _ _).0 current);
                  fits = guards;
                  kept = refl;
                })
          | inr stale ↦
              rw (last, stale) (record { here = refl; locals = refl; fits = guards; kept = refl })
        ]
    | inr more ↦ rw more (Moves-stay p g p refl refl refl t)
  ]

  release-Moves :
      (n : ℕ) (p : Local D) (g : Global D)
      → IsSound n g
      → IsTied p g
      → Moves p g
          (if p.guard_count == 0 && p.handle_count == 1 then starting else get p.place g.locals)
          (release_handle p g)
  unfolding release_handle
  release-Moves n p g s t = elim (Bool-cases (p.guard_count == 0 && p.handle_count == 1)) [
    | inl both ↦
        let p' = record p { handle_count = p.handle_count - 1 } in
        let m = finalize-Moves n p' g s (ground (arith, both)) in
        rw both (record { here = m.here; locals = m.locals; fits = m.fits; kept = m.kept })
    | inr more ↦
        rw more (Moves-stay p g (record p { handle_count = p.handle_count - 1 }) refl refl refl t)
  ]

  register-IsTied : (g : Global D) → IsTied (register g).0 (register g).1
  unfolding register is_pinned
  register-IsTied g = record {
    placed = omega (arith, length-snoc g.locals starting);
    agrees = ap is_pinned (get-snoc starting g.locals);
  }

  register-kept :
      (g : Global D) → functions (register g).0 (register g).1 ≡ g.called ++ bags g.queue
  unfolding register
  register-kept g = append-nil (g.called ++ bags g.queue)

  -- The state is sound, the participant is tied to its epoch `e`, and nothing else moved.
  abbrev pub Leaves : ℕ → Local D → Global D → ℕ → Local D × Global D → Type ℓ
  Leaves n p g e r = IsAbout n r.1 × IsTied r.0 r.1 × Moves p g e r

  with_Moves :
      {n : ℕ} {p : Local D} {g : Global D} {e : ℕ} {r : Local D × Global D}
      → IsTied p g
      → IsAbout n r.1
      → Moves p g e r
      → Leaves n p g e r
  with_Moves t about m = (about, Moves-IsTied t m, m)

  -- In a sound state, where the participant has its place and is pinned exactly while it has guards,
  -- each operation leaves it so. `enter` pins it in the global epoch with its first guard, `unpin`
  -- unpins it with its last, `repin` pins it in the global epoch if it has one guard, and
  -- `release_handle` unpins it if it had no guard and one handle; otherwise its epoch stays, and so
  -- do the epochs of all others. The state stays sound, in the same epoch or the next, and in the same
  -- one with `repin` and `register`. No deferred function is lost or reordered: those that were called, those in the
  -- queue and those in the bag of the participant make up the same list, with or without `finalize`. A
  -- new participant is unpinned, and the functions are the same.
  pub local_keeps :
      (n : ℕ) (p : Local D) (g : Global D)
      → IsSound n g
      → IsTied p g
      → let e = get p.place g.locals in
        Leaves n p g (if p.guard_count == 0 then pinned g.epoch else e) (enter p g)
        × Leaves n p g (if p.guard_count == 1 then starting else e) (unpin p g)
        × Leaves n p g (if p.guard_count == 1 then pinned g.epoch else e) (p, repin p g)
        × Leaves n p g
            (if p.guard_count == 0 && p.handle_count == 1 then starting else e)
            (release_handle p g)
        × IsSound n (repin p g)
        × IsSound n (register g).1
        × IsTied (register g).0 (register g).1
        × (functions (register g).0 (register g).1 ≡ g.called ++ bags g.queue)
  local_keeps n p g s t = (
    with_Moves t (enter-IsAbout n p g s) (enter-Moves n p g s t),
    with_Moves t (unpin-IsAbout n p g s) (unpin-Moves n p g s t),
    with_Moves t (n, inl refl, repin-IsSound n p g s) (repin-Moves p g t),
    with_Moves t (release-IsAbout n p g s) (release-Moves n p g s t),
    repin-IsSound n p g s,
    register-IsSound n g s,
    register-IsTied g,
    register-kept g,
  )
