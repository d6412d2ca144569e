-- ===== src/Epoch/Defs.antt =====
-- `Epoch` of `crossbeam-epoch/src/epoch.rs`, a word, and the bags and the advance of
-- `crossbeam-epoch/src/internal.rs`.
use crossbeam.Prelude.{
  ℕ, zero, suc, ◌+◌, ◌-◌, ◌%◌, Bool, true, false, not, ◌&&◌, Option, none, some, List, [], ◌∷◌,
  ◌++◌, length, if◌then◌else◌, ◌==◌, ltb, leb, wrapping_add, wrapping_sub,
}
use crossbeam.Prelude.Int.{ℤ, pos, negsuc, as_signed, halve}

abbrev pub starting : ℕ
starting = 0

unfoldable pub is_pinned : ℕ → Bool
is_pinned e = e % 2 == 1

unfoldable pub pinned : ℕ → ℕ
pinned e = if e % 2 == 1 then e else e + 1

unfoldable pub unpinned : ℕ → ℕ
unpinned e = e - e % 2

unfoldable pub successor : ℕ → ℕ
successor e = wrapping_add e 2

-- `Epoch::wrapping_sub`
unfoldable pub distance : ℕ → ℕ → ℤ
unfolding unpinned
distance e rhs = halve (as_signed (wrapping_sub e (unpinned rhs)))

abbrev pub max_objects : ℕ
max_objects = 64

module _ {ℓ} {D : Type ℓ} where
  -- A bag is the list of its deferred functions; `none` is `Ok(())`, `some` gives the function back.
  unfoldable pub try_push : List D → D → Option D × List D
  try_push bag deferred =
      if ltb (length bag) max_objects then (none, bag ++ (deferred ∷ [])) else (some deferred, bag)

-- `SealedBag`
pub record SealedBag {ℓ} (D : Type ℓ) : Type ℓ where
  pub epoch : ℕ
  pub bag : List D

abbrev pub at_least_two : ℤ → Bool
at_least_two (pos n) = leb 2 n
at_least_two (negsuc _) = false

unfoldable pub is_expired {ℓ} : {D : Type ℓ} → SealedBag D → ℕ → Bool
is_expired s global_epoch = at_least_two (distance global_epoch s.epoch)

-- `Global`, with the epochs of its participants, and the deferred functions
-- that were called, first one first.
pub record Global {ℓ} (D : Type ℓ) : Type ℓ where
  pub locals : List ℕ
  pub queue : List (SealedBag D)
  pub epoch : ℕ
  pub called : List D

-- The loop of `try_advance`: no participant is pinned in another epoch.
unfoldable pub all_current : ℕ → List ℕ → Bool
all_current global_epoch [] = true
all_current global_epoch (e ∷ es) =
    let rest = all_current global_epoch es in
    if is_pinned e && not (unpinned e == global_epoch) then false else rest

abbrev pub collect_steps : ℕ
collect_steps = 8

module _ {ℓ} {D : Type ℓ} where
  -- `Global::push_bag`: the sealed bag goes to the end of the queue, and a new bag is returned.
  unfoldable pub push_bag : List D → Global D → List D × Global D
  push_bag bag g =
      ([], record g { queue = g.queue ++ (record { epoch = g.epoch; bag = bag } ∷ []) })

  unfoldable pub is_empty : List D → Bool
  is_empty bag = length bag == 0

  -- The loop of `Local::defer`, on the bag of the participant; two turns are enough.
  unfoldable pub defer_loop : ℕ → D → List D → Global D → Option (List D × Global D)
  defer_loop zero deferred bag g = none
  defer_loop (suc fuel) deferred bag g =
      let (full, bag') = try_push bag deferred in
      let (bag'', g') = push_bag bag' g in
      let again = defer_loop fuel deferred bag'' g' in
      elim full [ none ↦ some (bag', g) | some _ ↦ again ]

  -- `Global::try_advance`, where no other thread stalls the iteration.
  unfoldable pub try_advance : Global D → ℕ × Global D
  try_advance g =
      if all_current g.epoch g.locals
      then (successor g.epoch, record g { epoch = successor g.epoch })
      else (g.epoch, g)

  -- The loop of `collect`: drop expired bags from the front of the queue.
  unfoldable pub collect_loop : ℕ → ℕ → Global D → Global D
  collect_loop zero global_epoch g = g
  collect_loop (suc steps) global_epoch g = elim g.queue [
    | [] ↦ g
    | s ∷ rest ↦
        let g' = record g { queue = rest; called = g.called ++ s.bag } in
        let later = collect_loop steps global_epoch g' in
        if is_expired s global_epoch then later else g
  ]

  unfoldable pub collect : Global D → Global D
  unfolding try_advance collect_loop
  collect g = let (global_epoch, g') = try_advance g in collect_loop collect_steps global_epoch g'

  -- `Local::flush` on the bag of the participant.
  unfoldable pub flush : List D → Global D → List D × Global D
  unfolding is_empty push_bag collect
  flush bag g =
      let (bag', g') = if is_empty bag then (bag, g) else push_bag bag g in (bag', collect g')
