-- ===== src/Epoch/Defer.antt =====
-- Deferring a function: `Local::defer` on the participant's bag.
use mathlib.Core.List.{append-nil, append_assoc}
use crossbeam.Prelude.{
  ℕ, ◌<◌, none, suc, ◌≤◌, ◌≡◌, refl, sym, ap, ◌∙◌, arith, some, List, [], ◌∷◌, ◌++◌, length,
  length-snoc, lt→ltb, dec_lt, not_lt→ltb,
}
use crossbeam.Epoch.Defs.{SealedBag, Global, max_objects, try_push, push_bag, defer_loop}
use crossbeam.Epoch.Reclaim.{bags}

module _ {ℓ} {D : Type ℓ} where
  pub bags-snoc :
      (ss : List (SealedBag D)) (s : SealedBag D) → bags (ss ++ (s ∷ [])) ≡ bags ss ++ s.bag
  bags-snoc [] s = append-nil s.bag
  bags-snoc (t ∷ ss) s =
      ap (λ l. t.bag ++ l) (bags-snoc ss s) ∙ sym (append_assoc t.bag (bags ss) s.bag)

  try_push-room :
      (deferred : D) (bag : List D)
      → length bag < max_objects
      → try_push bag deferred ≡ (none, bag ++ (deferred ∷ []))
  unfolding try_push
  try_push-room deferred bag room = rw (lt→ltb _ _ room) refl

  try_push-full :
      (deferred : D) (bag : List D)
      → ¬ (length bag < max_objects)
      → try_push bag deferred ≡ (some deferred, bag)
  unfolding try_push
  try_push-full deferred bag full = rw (not_lt→ltb _ _ full) refl

  -- A turn with room ends the loop.
  defer_loop-room :
      (fuel : ℕ) (deferred : D) (bag : List D) (g : Global D)
      → length bag < max_objects
      → defer_loop (suc fuel) deferred bag g ≡ some (bag ++ (deferred ∷ []), g)
  unfolding defer_loop
  defer_loop-room fuel deferred bag g room =
      rw (defer_loop, try_push-room deferred bag room)
        (ap (λ p. some (p.1, g)) (try_push-room deferred bag room))

  -- A turn without room pushes the bag to the queue.
  defer_loop-full :
      (fuel : ℕ) (deferred : D) (bag : List D) (g : Global D)
      → ¬ (length bag < max_objects)
      → let s : SealedBag D = record { epoch = g.epoch; bag = bag } in
        defer_loop (suc fuel) deferred bag g
        ≡ defer_loop fuel deferred [] (record g { queue = g.queue ++ (s ∷ []) })
  unfolding defer_loop push_bag
  defer_loop-full fuel deferred bag g full =
      rw (defer_loop, try_push-full deferred bag full)
        (ap (λ p. defer_loop fuel deferred [] (push_bag p.1 g).1) (try_push-full deferred bag full))

  -- From a bag of at most 64 functions, `defer` ends by its second turn. It leaves a bag of at most
  -- 64, and the functions that wait, in the queue and then in the bag, are those from before and
  -- then the new one.
  pub defer_keeps :
      (fuel : ℕ) (deferred : D) (bag : List D) (g : Global D)
      → length bag ≤ max_objects
      → (bag' : List D) × (g' : Global D) × (defer_loop (suc (suc fuel)) deferred bag g
          ≡ some (bag', g'))
        × (length bag' ≤ max_objects)
        × (bags g'.queue ++ bag' ≡ (bags g.queue ++ bag) ++ (deferred ∷ []))
  defer_keeps fuel deferred bag g bound = elim (dec_lt (length bag) max_objects) [
    | yes room ↦ (
      bag ++ (deferred ∷ []),
      g,
      defer_loop-room (suc fuel) deferred bag g room,
      omega (arith, length-snoc bag deferred),
      sym (append_assoc (bags g.queue) bag (deferred ∷ [])),
    )
    | no full ↦ (
      deferred ∷ [],
      record g { queue = g.queue ++ (record { epoch = g.epoch; bag = bag } ∷ []) },
      defer_loop-full (suc fuel) deferred bag g full
          ∙ defer_loop-room fuel deferred [] _ (omega arith),
      omega arith,
      ap (λ l. l ++ (deferred ∷ [])) (bags-snoc g.queue (record { epoch = g.epoch; bag = bag })),
    )
  ]
