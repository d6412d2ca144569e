-- ===== src/Epoch/Pinned.antt =====
-- Whatever a participant does, the state stays sound: nobody is pinned more than one epoch behind.
use crossbeam.Prelude.{
  ℕ, zero, suc, ◌+◌, ◌%◌, ◌≡◌, refl, ap, ◌∙◌, arith, Bool-cases, ◌⊎◌, inl, inr, not, ◌&&◌, List, [],
  ◌∷◌, ◌++◌, ◌==◌,
}
use crossbeam.Epoch.Defs.{
  starting, is_pinned, pinned, unpinned, SealedBag, Global, push_bag, collect,
}
use crossbeam.Epoch.Words.{epoch_at, pinned-epoch_at}
use crossbeam.Epoch.Reclaim.{IsNear, AllNear, AllSealed, IsSound, collect_waits}
use crossbeam.Epoch.Local.{
  Local, get, set, store, enter, leave, finalize, unpin, repin, release_handle, register,
}

-- A sound state in the epoch `n` or the next.
abbrev pub IsAbout {ℓ} : {D : Type ℓ} → ℕ → Global D → Type 0
IsAbout n g = (n' : ℕ) × ((n' ≡ n) ⊎ (n' ≡ n + 1)) × IsSound n' g

set-AllNear : (n i e : ℕ) (es : List ℕ) → IsNear n e → AllNear n es → AllNear n (set i e es)
unfolding set
set-AllNear n i e [] near a = tt
set-AllNear n zero e (d ∷ es) near a = (near, a.1)
set-AllNear n (suc i) e (d ∷ es) near a = (a.0, set-AllNear n i e es near a.1)

snoc-AllNear : (n e : ℕ) (es : List ℕ) → IsNear n e → AllNear n es → AllNear n (es ++ (e ∷ []))
snoc-AllNear n e [] near a = (near, tt)
snoc-AllNear n e (d ∷ es) near a = (a.0, snoc-AllNear n e es near a.1)

starting-IsNear : (n : ℕ) → IsNear n starting
unfolding is_pinned
starting-IsNear n = inl refl

snoc-AllSealed {ℓ} :
    {D : Type ℓ} (n : ℕ) (ss : List (SealedBag D)) (s : SealedBag D)
    → AllSealed n ss
    → s.epoch ≡ epoch_at n
    → AllSealed n (ss ++ (s ∷ []))
snoc-AllSealed n [] s a e = ((n, omega arith, e), tt)
snoc-AllSealed n (t ∷ ss) s a e = (a.0, snoc-AllSealed n ss s a.1 e)

module _ {ℓ} {D : Type ℓ} where
  pub store-IsSound :
      (n i e : ℕ) (g : Global D) → IsNear n e → IsSound n g → IsSound n (store i e g)
  store-IsSound n i e g near s = record {
    at = s.at;
    near = set-AllNear n i e g.locals near s.near;
    sealed = s.sealed;
  }

  pub pinned-IsNear : (n : ℕ) (g : Global D) → IsSound n g → IsNear n (pinned g.epoch)
  pinned-IsNear n g s = inr (inl (ap (λ e. unpinned (pinned e)) s.at ∙ (pinned-epoch_at n).1))

  collect-IsAbout : (n : ℕ) (g : Global D) → IsSound n g → IsAbout n (collect g)
  collect-IsAbout n g s =
      let (n', which, d, near) = collect_waits n g s in
      (n', which, record { at = d.same_epoch; near = near; sealed = d.sealed })

  pub enter-IsAbout : (n : ℕ) (p : Local D) (g : Global D) → IsSound n g → IsAbout n (enter p g).1
  unfolding enter
  enter-IsAbout n p g s =
      let s' = store-IsSound n p.place (pinned g.epoch) g (pinned-IsNear n g s) s in
      elim (Bool-cases (p.guard_count == 0)) [
        | inl first ↦ elim (Bool-cases (p.pin_count % 128 == 0)) [
          | inl due ↦ rw (first, due) (collect-IsAbout n _ s')
          | inr not_due ↦ rw (first, not_due) (n, inl refl, s')
        ]
        | inr again ↦ rw again (n, inl refl, s)
      ]

  pub leave-IsSound : (n : ℕ) (p : Local D) (g : Global D) → IsSound n g → IsSound n (leave p g).1
  unfolding leave
  leave-IsSound n p g s = elim (Bool-cases (p.guard_count == 1)) [
    | inl last ↦ rw last (store-IsSound n p.place starting g (starting-IsNear n) s)
    | inr more ↦ rw more s
  ]

  push-IsSound : (n : ℕ) (bag : List D) (g : Global D) → IsSound n g → IsSound n (push_bag bag g).1
  unfolding push_bag
  push-IsSound n bag g s = record {
    at = s.at;
    near = s.near;
    sealed = snoc-AllSealed n g.queue _ s.sealed s.at;
  }

  finalize-IsAbout : (n : ℕ) (p : Local D) (g : Global D) → IsSound n g → IsAbout n (finalize p g).1
  unfolding finalize
  finalize-IsAbout n p g s =
      let (n', which, s') = enter-IsAbout n (record p { handle_count = 1 }) g s in
      (n', which, leave-IsSound n' _ _ (push-IsSound n' _ _ s'))

  pub unpin-IsAbout : (n : ℕ) (p : Local D) (g : Global D) → IsSound n g → IsAbout n (unpin p g).1
  unfolding unpin
  unpin-IsAbout n p g s =
      let s' = leave-IsSound n p g s in
      elim (Bool-cases (p.guard_count == 1 && p.handle_count == 0)) [
        | inl last ↦ rw last (finalize-IsAbout n (leave p g).0 (leave p g).1 s')
        | inr more ↦ rw more (n, inl refl, s')
      ]

  pub repin-IsSound : (n : ℕ) (p : Local D) (g : Global D) → IsSound n g → IsSound n (repin p g)
  unfolding repin
  repin-IsSound n p g s =
      elim (Bool-cases (p.guard_count == 1 && not (get p.place g.locals == pinned g.epoch))) [
        | inl stale ↦ rw stale (store-IsSound n p.place _ g (pinned-IsNear n g s) s)
        | inr current ↦ rw current s
      ]

  pub release-IsAbout :
      (n : ℕ) (p : Local D) (g : Global D) → IsSound n g → IsAbout n (release_handle p g).1
  unfolding release_handle
  release-IsAbout n p g s = elim (Bool-cases (p.guard_count == 0 && p.handle_count == 1)) [
    | inl last ↦ rw last (finalize-IsAbout n _ g s)
    | inr more ↦ rw more (n, inl refl, s)
  ]

  pub register-IsSound : (n : ℕ) (g : Global D) → IsSound n g → IsSound n (register g).1
  unfolding register
  register-IsSound n g s = record {
    at = s.at;
    near = snoc-AllNear n starting g.locals (starting-IsNear n) s.near;
    sealed = s.sealed;
  }
