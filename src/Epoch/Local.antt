-- ===== src/Epoch/Local.antt =====
-- `Local` of `crossbeam-epoch/src/internal.rs`, a participant. Its epoch stands in the list of the
-- `Global`; one that is deleted is never pinned again, so its epoch may stay there.
use crossbeam.Prelude.{
  ℕ, zero, suc, ◌+◌, ◌-◌, ◌%◌, Bool, true, false, not, ◌&&◌, Option, none, some, List, [], ◌∷◌,
  ◌++◌, length, if◌then◌else◌, ◌==◌, wrapping_add, checked_add,
}
use crossbeam.Epoch.Defs.{starting, pinned, Global, push_bag, collect}

pub record Local {ℓ} (D : Type ℓ) : Type ℓ where
  pub place : ℕ
  pub bag : List D
  pub guard_count : ℕ
  pub handle_count : ℕ
  pub pin_count : ℕ
  pub deleted : Bool

abbrev pub pinnings_between_collect : ℕ
pinnings_between_collect = 128

-- The list with `e` in the place `i`.
unfoldable pub set : ℕ → ℕ → List ℕ → List ℕ
set i e [] = []
set zero e (d ∷ ds) = e ∷ ds
set (suc i) e (d ∷ ds) = d ∷ set i e ds

unfoldable pub get : ℕ → List ℕ → ℕ
get i [] = starting
get zero (d ∷ ds) = d
get (suc i) (d ∷ ds) = get i ds

module _ {ℓ} {D : Type ℓ} where
  abbrev pub store : ℕ → ℕ → Global D → Global D
  store i e g = record g { locals = set i e g.locals }

  -- `Local::register`; the order of the participants plays no part, so a new one comes last.
  unfoldable pub register : Global D → Local D × Global D
  register g = (
    record {
      place = length g.locals;
      bag = [];
      guard_count = 0;
      handle_count = 1;
      pin_count = 0;
      deleted = false;
    },
    record g { locals = g.locals ++ (starting ∷ []) },
  )

  -- `pin` after its count of guards has not overflowed.
  unfoldable pub enter : Local D → Global D → Local D × Global D
  enter p g =
      let g' = store p.place (pinned g.epoch) g in
      let p' = record p { guard_count = p.guard_count + 1 } in
      if p.guard_count == 0
      then (
        record p' { pin_count = wrapping_add p.pin_count 1 },
        if p.pin_count % pinnings_between_collect == 0 then collect g' else g',
      )
      else (p', g)

  -- `Local::pin`; `none` is the panic on an overflow.
  unfoldable pub pin : Local D → Global D → Option (Local D × Global D)
  pin p g = elim (checked_add p.guard_count 1) [ none ↦ none | some _ ↦ some (enter p g) ]

  -- `Local::unpin` but for its call of `finalize`.
  unfoldable pub leave : Local D → Global D → Local D × Global D
  leave p g = (
    record p { guard_count = p.guard_count - 1 },
    if p.guard_count == 1 then store p.place starting g else g,
  )

  -- `Local::finalize`: the guard that it takes is dropped while its handle count is 1.
  unfoldable pub finalize : Local D → Global D → Local D × Global D
  finalize p g =
      let (p1, g1) = enter (record p { handle_count = 1 }) g in
      let (bag, g2) = push_bag p1.bag g1 in
      let (p2, g3) = leave (record p1 { bag = bag }) g2 in
      (record p2 { handle_count = 0; deleted = true }, g3)

  unfoldable pub unpin : Local D → Global D → Local D × Global D
  unpin p g =
      let (p', g') = leave p g in
      if p.guard_count == 1 && p.handle_count == 0 then finalize p' g' else (p', g')

  unfoldable pub repin : Local D → Global D → Global D
  repin p g =
      if p.guard_count == 1 && not (get p.place g.locals == pinned g.epoch)
      then store p.place (pinned g.epoch) g
      else g

  unfoldable pub acquire_handle : Local D → Local D
  acquire_handle p = record p { handle_count = p.handle_count + 1 }

  unfoldable pub release_handle : Local D → Global D → Local D × Global D
  release_handle p g =
      let p' = record p { handle_count = p.handle_count - 1 } in
      if p.guard_count == 0 && p.handle_count == 1 then finalize p' g else (p', g)
