-- ===== src/Epoch/Moves.antt =====
-- What an operation of a participant makes of its own epoch and of the deferred functions.
use mathlib.Core.List.{append-nil, append_assoc}
use crossbeam.Prelude.{
  ℕ, zero, suc, ◌+◌, ◌-◌, ◌<◌, ◌≡◌, refl, sym, ap, ◌∙◌, arith, true, false, List, [], ◌∷◌, ◌++◌,
  length, ltb, ◌==◌, Bool-cases, inl, inr, ◌%◌,
}
use crossbeam.Epoch.Defs.{starting, is_pinned, pinned, SealedBag, Global, push_bag, collect}
use crossbeam.Epoch.Reclaim.{bags, IsSound, collect_waits}
use crossbeam.Epoch.Defer.{bags-snoc}
use crossbeam.Epoch.Local.{Local, get, set, store, enter, leave}
use crossbeam.Epoch.Pinned.{store-IsSound, pinned-IsNear}

get-set : (i e : ℕ) (es : List ℕ) → i < length es → get i (set i e es) ≡ e
unfolding get set
get-set i e [] lt = absurd (omega arith)
get-set zero e (d ∷ ds) lt = refl
get-set (suc i) e (d ∷ ds) lt = get-set i e ds (omega arith)

pub set-get : (i : ℕ) (es : List ℕ) → set i (get i es) es ≡ es
unfolding get set
set-get i [] = refl
set-get zero (d ∷ ds) = refl
set-get (suc i) (d ∷ ds) = ap (λ l. d ∷ l) (set-get i ds)

set-set : (i d e : ℕ) (es : List ℕ) → set i e (set i d es) ≡ set i e es
unfolding set
set-set i d e [] = refl
set-set zero d e (c ∷ cs) = refl
set-set (suc i) d e (c ∷ cs) = ap (λ l. c ∷ l) (set-set i d e cs)

length-set : (i e : ℕ) (es : List ℕ) → length (set i e es) ≡ length es
unfolding set
length-set i e [] = refl
length-set zero e (d ∷ ds) = refl
length-set (suc i) e (d ∷ ds) = ap suc (length-set i e ds)

pub get-snoc : (e : ℕ) (es : List ℕ) → get (length es) (es ++ (e ∷ [])) ≡ e
unfolding get
get-snoc e [] = refl
get-snoc e (d ∷ ds) = get-snoc e ds

pub pinned-is_pinned : (e : ℕ) → is_pinned (pinned e) ≡ true
unfolding is_pinned pinned
pinned-is_pinned e = ground arith

module _ {ℓ} {D : Type ℓ} where
  bags-append : (ss ts : List (SealedBag D)) → bags (ss ++ ts) ≡ bags ss ++ bags ts
  bags-append [] ts = refl
  bags-append (s ∷ ss) ts =
      ap (λ l. s.bag ++ l) (bags-append ss ts) ∙ sym (append_assoc s.bag (bags ss) (bags ts))

  -- The functions that were deferred: those that were called, those of the queue and those of the bag of
  -- the participant.
  abbrev pub functions : Local D → Global D → List D
  functions p g = (g.called ++ bags g.queue) ++ p.bag

  -- The participant has a place in the list, and its epoch is pinned exactly while it has guards.
  pub record IsTied (p : Local D) (g : Global D) : Type 0 where
    pub placed : p.place < length g.locals
    pub agrees : is_pinned (get p.place g.locals) ≡ ltb 0 p.guard_count

  -- An operation leaves the participant with the epoch `e` in its place, which is pinned exactly if it
  -- has guards, leaves the epochs of the others, and loses or reorders no deferred function.
  pub record Moves (p : Local D) (g : Global D) (e : ℕ) (r : Local D × Global D) : Type ℓ where
    pub here : r.0.place ≡ p.place
    pub locals : r.1.locals ≡ set p.place e g.locals
    pub fits : is_pinned e ≡ ltb 0 r.0.guard_count
    pub kept : functions r.0 r.1 ≡ functions p g

  pub Moves-IsTied :
      {p : Local D} {g : Global D} {e : ℕ} {r : Local D × Global D}
      → IsTied p g
      → Moves p g e r
      → IsTied r.0 r.1
  Moves-IsTied {p} {g} {e} {r} t m =
      let long : length r.1.locals ≡ length g.locals =
        ap length m.locals ∙ length-set p.place e g.locals in
      let at : get r.0.place r.1.locals ≡ e =
        ap (λ i. get i r.1.locals) m.here
        ∙ ap (get p.place) m.locals
        ∙ get-set p.place e g.locals t.placed in
      record { placed = omega (arith, long, m.here, t.placed); agrees = ap is_pinned at ∙ m.fits }

  pub Moves-trans :
      {p : Local D} {g : Global D} {d e : ℕ} {q r : Local D × Global D}
      → Moves p g d q
      → Moves q.0 q.1 e r
      → Moves p g e r
  Moves-trans {p} {g} {d} {e} {q} {r} m n = record {
    here = n.here ∙ m.here;
    locals =
        n.locals
        ∙ ap (λ i. set i e q.1.locals) m.here
        ∙ ap (set p.place e) m.locals
        ∙ set-set p.place d e g.locals;
    fits = n.fits;
    kept = n.kept ∙ m.kept;
  }

  -- Nothing happens to the epoch.
  pub Moves-stay :
      (p : Local D) (g : Global D) (p' : Local D)
      → p'.place ≡ p.place
      → p'.bag ≡ p.bag
      → ltb 0 p'.guard_count ≡ ltb 0 p.guard_count
      → IsTied p g
      → Moves p g (get p.place g.locals) (p', g)
  Moves-stay p g p' here same guards t = record {
    here = here;
    locals = sym (set-get p.place g.locals);
    fits = t.agrees ∙ sym guards;
    kept = ap (λ b. (g.called ++ bags g.queue) ++ b) same;
  }

  -- `collect` moves functions from the queue to those that were called.
  collect-keeps :
      (n : ℕ) (g : Global D)
      → IsSound n g
      → ((collect g).locals ≡ g.locals)
        × ((collect g).called ++ bags (collect g).queue ≡ g.called ++ bags g.queue)
  collect-keeps n g s =
      let (_, _, d, _) = collect_waits n g s in
      (
        d.same_locals,
        ap (λ c. c ++ bags (collect g).queue) d.called
            ∙ append_assoc g.called (bags d.dropped) (bags (collect g).queue)
            ∙ ap (λ l. g.called ++ l)
                (sym (bags-append d.dropped (collect g).queue) ∙ ap bags (sym d.split)),
      )

  -- The first guard pins the participant, with or without a collection.
  pub enter-first :
      (n : ℕ) (p : Local D) (g : Global D)
      → IsSound n g
      → p.guard_count == 0 ≡ true
      → Moves p g (pinned g.epoch) (enter p g)
  unfolding enter
  enter-first n p g s first =
      let g' = store p.place (pinned g.epoch) g in
      let s' = store-IsSound n p.place (pinned g.epoch) g (pinned-IsNear n g s) s in
      let kept = collect-keeps n g' s' in
      let guards : is_pinned (pinned g.epoch) ≡ ltb 0 (p.guard_count + 1) =
        pinned-is_pinned g.epoch ∙ ground arith in
      elim (Bool-cases (p.pin_count % 128 == 0)) [
        | inl due ↦
            rw (first, due)
              (record {
                here = refl;
                locals = kept.0;
                fits = guards;
                kept = ap (λ l. l ++ p.bag) kept.1;
              })
        | inr not_due ↦
            rw (first, not_due) (record { here = refl; locals = refl; fits = guards; kept = refl })
      ]

  pub enter-again :
      (p : Local D) (g : Global D)
      → IsTied p g
      → p.guard_count == 0 ≡ false
      → Moves p g (get p.place g.locals) (enter p g)
  unfolding enter
  enter-again p g t again = rw again (
      Moves-stay p g (record p { guard_count = p.guard_count + 1 }) refl refl
        (ground (arith, again)) t)

  -- Dropping the last guard, and one that is not the last.
  pub leave-last :
      (p : Local D) (g : Global D) → p.guard_count == 1 ≡ true → Moves p g starting (leave p g)
  unfolding leave is_pinned
  leave-last p g last =
      rw last (record { here = refl; locals = refl; fits = ground (arith, last); kept = refl })

  pub leave-more :
      (p : Local D) (g : Global D)
      → IsTied p g
      → p.guard_count == 1 ≡ false
      → Moves p g (get p.place g.locals) (leave p g)
  unfolding leave
  leave-more p g t more = rw more (
      Moves-stay p g (record p { guard_count = p.guard_count - 1 }) refl refl (ground (arith, more))
        t)

  -- Pushing the bag to the queue and dropping the last guard.
  pub push-leave :
      (p : Local D) (g : Global D)
      → p.guard_count == 1 ≡ true
      → Moves p g starting (leave (record p { bag = [] }) (push_bag p.bag g).1)
  unfolding push_bag
  push-leave p g last =
      let s : SealedBag D = record { epoch = g.epoch; bag = p.bag } in
      let m = leave-last (record p { bag = [] }) (push_bag p.bag g).1 last in
      record {
        here = m.here;
        locals = m.locals;
        fits = m.fits;
        kept =
            m.kept
            ∙ append-nil (g.called ++ bags (g.queue ++ (s ∷ [])))
            ∙ ap (λ l. g.called ++ l) (bags-snoc g.queue s)
            ∙ sym (append_assoc g.called (bags g.queue) p.bag);
      }
