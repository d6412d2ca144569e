-- ===== src/Epoch/Reclaim.antt =====
-- The garbage collector waits long enough: what it calls was sealed before every participant that is
-- pinned was pinned.
use mathlib.Core.List.{append-nil, append_assoc}
use crossbeam.Prelude.{
  ℕ, zero, suc, ◌+◌, ◌≤◌, ◌≡◌, refl, sym, ap, subst, ◌∙◌, arith, true, false, ◌⊎◌, inl, inr, List,
  [], ◌∷◌, ◌++◌, ==_iff, Bool-cases,
}
use crossbeam.Epoch.Defs.{
  is_pinned, unpinned, successor, SealedBag, is_expired, Global, all_current, try_advance,
  collect_steps, collect_loop, collect,
}
use crossbeam.Epoch.Words.{epoch_at, successor-epoch_at, expired-old}

-- A participant is not pinned, or pinned in the epoch `n` or the one before.
abbrev pub IsNear : ℕ → ℕ → Type 0
IsNear n e =
    (is_pinned e ≡ false)
    ⊎ (unpinned e ≡ epoch_at n)
    ⊎ ((m : ℕ) × (n ≡ m + 1) × (unpinned e ≡ epoch_at m))

abbrev pub AllNear : ℕ → List ℕ → Type 0
AllNear n [] = Unit
AllNear n (e ∷ es) = IsNear n e × AllNear n es

-- The bags of the queue were sealed in epochs up to `n`.
abbrev pub AllSealed {ℓ} : {D : Type ℓ} → ℕ → List (SealedBag D) → Type 0
AllSealed n [] = Unit
AllSealed n (s ∷ ss) = ((k : ℕ) × (k ≤ n) × (s.epoch ≡ epoch_at k)) × AllSealed n ss

-- They were sealed two epochs before `n` at the latest.
abbrev pub AllOld {ℓ} : {D : Type ℓ} → ℕ → List (SealedBag D) → Type 0
AllOld n [] = Unit
AllOld n (s ∷ ss) = ((k : ℕ) × (k + 2 ≤ n) × (s.epoch ≡ epoch_at k)) × AllOld n ss

abbrev pub bags {ℓ} : {D : Type ℓ} → List (SealedBag D) → List D
bags [] = []
bags (s ∷ ss) = s.bag ++ bags ss

-- A global state in the epoch `n`.
pub record IsSound {ℓ} {D : Type ℓ} (n : ℕ) (g : Global D) : Type 0 where
  pub at : g.epoch ≡ epoch_at n
  pub near : AllNear n g.locals
  pub sealed : AllSealed n g.queue

-- A state in which every pinned participant is in the current epoch may advance.
advanced-AllNear : (n : ℕ) (es : List ℕ) → all_current (epoch_at n) es ≡ true → AllNear (n + 1) es
unfolding all_current
advanced-AllNear n [] h = tt
advanced-AllNear n (e ∷ es) h = elim (Bool-cases (is_pinned e)) [
  | inl yes_pinned ↦
      let current : unpinned e ≡ epoch_at n = (==_iff _ _).0 (ground (arith, h, yes_pinned)) in
      (inr (inr (n, refl, current)), advanced-AllNear n es (ground (arith, h)))
  | inr not_pinned ↦ (inl not_pinned, advanced-AllNear n es (ground (arith, h, not_pinned)))
]

later-AllSealed {ℓ} :
    {D : Type ℓ} (n : ℕ) (ss : List (SealedBag D)) → AllSealed n ss → AllSealed (n + 1) ss
later-AllSealed n [] a = tt
later-AllSealed n (s ∷ ss) ((k, le, e), a) = ((k, omega (arith, le), e), later-AllSealed n ss a)

-- `try_advance` keeps a state sound, in the same epoch or in the next, and returns that epoch.
pub try_advance-IsSound {ℓ} :
    {D : Type ℓ} (n : ℕ) (g : Global D)
    → IsSound n g
    → (n' : ℕ) × ((n' ≡ n) ⊎ (n' ≡ n + 1))
      × IsSound n' (try_advance g).1
      × ((try_advance g).0 ≡ epoch_at n')
unfolding try_advance
try_advance-IsSound n g i = elim (Bool-cases (all_current g.epoch g.locals)) [
  | inl current ↦
      let next : successor g.epoch ≡ epoch_at (n + 1) = ap successor i.at ∙ successor-epoch_at n in
      let near =
        advanced-AllNear n g.locals (subst (λ e. all_current e g.locals ≡ true) i.at current) in
      rw current (
        n + 1,
        inr refl,
        record { at = next; near = near; sealed = later-AllSealed n g.queue i.sealed },
        next,
      )
  | inr stale ↦ rw stale (n, inl refl, i, i.at)
]

-- What dropping bags from the front of the queue makes of `g`.
pub record Drops {ℓ} {D : Type ℓ} (n : ℕ) (g r : Global D) : Type ℓ where
  pub dropped : List (SealedBag D)
  pub split : g.queue ≡ dropped ++ r.queue
  pub called : r.called ≡ g.called ++ bags dropped
  pub old : AllOld n dropped
  pub same_epoch : r.epoch ≡ g.epoch
  pub same_locals : r.locals ≡ g.locals
  pub sealed : AllSealed n r.queue

module _ {ℓ} {D : Type ℓ} where
  Drops-none : (n : ℕ) (g : Global D) → AllSealed n g.queue → Drops n g g
  Drops-none n g a = record {
    dropped = [];
    split = refl;
    called = sym (append-nil g.called);
    old = tt;
    same_epoch = refl;
    same_locals = refl;
    sealed = a;
  }

  collect_loop-Drops :
      (steps n : ℕ) (locals : List ℕ) (ss : List (SealedBag D)) (epoch : ℕ) (called : List D)
      → AllSealed n ss
      → let g : Global D = record { locals = locals; queue = ss; epoch = epoch; called = called } in
        Drops n g (collect_loop steps (epoch_at n) g)
  unfolding collect_loop
  collect_loop-Drops zero n locals ss epoch called a = Drops-none n _ a
  collect_loop-Drops (suc steps) n locals [] epoch called a = Drops-none n _ a
  collect_loop-Drops (suc steps) n locals (s ∷ ss) epoch called ((k, le, at), a) =
      elim (Bool-cases (is_expired s (epoch_at n))) [
        | inl expired ↦
            let d = collect_loop-Drops steps n locals ss epoch (called ++ s.bag) a in
            rw expired (record {
              dropped = s ∷ d.dropped;
              split = ap (λ l. s ∷ l) d.split;
              called = d.called ∙ append_assoc called s.bag (bags d.dropped);
              old = ((k, expired-old s n k at le expired, at), d.old);
              same_epoch = d.same_epoch;
              same_locals = d.same_locals;
              sealed = d.sealed;
            })
        | inr fresh ↦ rw fresh (Drops-none n _ ((k, le, at), a))
      ]

  -- What `collect` leaves, compared to the state before.
  abbrev pub Collects : ℕ → Global D → Global D → Type ℓ
  Collects n g r =
      (n' : ℕ) × ((n' ≡ n) ⊎ (n' ≡ n + 1))
      × Drops n' (record g { epoch = epoch_at n' }) r
      × AllNear n' r.locals

  collect_from :
      (n n' e : ℕ) (g : Global D)
      → ((n' ≡ n) ⊎ (n' ≡ n + 1))
      → e ≡ epoch_at n'
      → AllNear n' g.locals
      → AllSealed n' g.queue
      → Collects n g (collect_loop collect_steps e (record g { epoch = e }))
  collect_from n n' e g which at near sealed =
      subst (λ w. Collects n g (collect_loop collect_steps w (record g { epoch = w }))) (sym at)
        (let d =
            collect_loop-Drops collect_steps n' g.locals g.queue (epoch_at n') g.called sealed in
          (n', which, d, subst (AllNear n') (sym d.same_locals) near))

  -- In a sound state of epoch `n`, `collect` keeps the epoch or advances it by one, to `n'`, drops bags
  -- from the front of the queue and calls their functions in order. Each of these bags was sealed in the
  -- epoch `n' - 2` or before, while every pinned participant is pinned in `n'` or the epoch before; the
  -- bags that are left were sealed in epochs up to `n'`.
  pub collect_waits : (n : ℕ) (g : Global D) → IsSound n g → Collects n g (collect g)
  unfolding collect try_advance
  collect_waits n g i = elim (Bool-cases (all_current g.epoch g.locals)) [
    | inl current ↦
        let next : successor g.epoch ≡ epoch_at (n + 1) =
          ap successor i.at ∙ successor-epoch_at n in
        let near =
          advanced-AllNear n g.locals (subst (λ e. all_current e g.locals ≡ true) i.at current) in
        rw current (
          collect_from n (n + 1) (successor g.epoch) g (inr refl) next near
            (later-AllSealed n g.queue i.sealed))
    | inr stale ↦ rw stale (collect_from n n g.epoch g (inl refl) i.at i.near i.sealed)
  ]
