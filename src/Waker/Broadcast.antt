-- ===== src/Waker/Broadcast.antt =====
-- `notify` and `disconnect`: every context that they go through is selected, and only a waiting one
-- is changed; and what the flag of a `SyncWaker` says.
use mathlib.Core.Path.{ap₂}
use crossbeam.Prelude.{
  ℕ, ◌<◌, ◌≡◌, ◌≢◌, refl, sym, ap, subst, ◌∙◌, arith, Bool, true, false, List, [], ◌∷◌,
  if◌then◌else◌, ◌==◌, ◌⊎◌, inl, inr, ℕ_discrete,
}
use crossbeam.Waker.Context.{Selected, disconnected, operation, World, encode, try_select, unpark}
use crossbeam.Waker.Defs.{Entry, Waker, wake, notify_all, notify, disconnect_all, disconnect}

-- What waking changes: a waiting context may become selected; its packet and thread, and every
-- context that is selected already, stay as they are.
pub record Keeps (w w' : World) : Type 0 where
  pub kept : (i : ℕ) → (w.cells i).select ≢ 0 → w'.cells i ≡ w.cells i
  pub same_thread : (i : ℕ) → (w'.cells i).thread_id ≡ (w.cells i).thread_id
  pub same_packet : (i : ℕ) → (w'.cells i).packet ≡ (w.cells i).packet

wake-Keeps : (w : World) (cx : ℕ) (sel : Selected) → Keeps w (wake w cx sel)
unfolding wake try_select unpark encode
wake-Keeps w cx sel = record {
  kept = λ i ne. ground arith;
  same_thread = λ i. ground arith;
  same_packet = λ i. ground arith;
}

wake-select :
    (w : World) (cx : ℕ) (sel : Selected) (i : ℕ)
    → ((wake w cx sel).cells i).select ≡ (
        if (w.cells i).select == 0 then (if cx == i then encode sel else 0) else (w.cells i).select)
unfolding wake try_select unpark
wake-select w cx sel i = ground arith

Keeps-refl : (w : World) → Keeps w w
Keeps-refl w = record { kept = λ i ne. refl; same_thread = λ i. refl; same_packet = λ i. refl }

Keeps-trans : {u v w : World} → Keeps u v → Keeps v w → Keeps u w
Keeps-trans {u} {v} {w} a b = record {
  kept = λ i ne. b.kept i (λ e. ne (ap (λ c. c.select) (sym (a.kept i ne)) ∙ e)) ∙ a.kept i ne;
  same_thread = λ i. b.same_thread i ∙ a.same_thread i;
  same_packet = λ i. b.same_packet i ∙ a.same_packet i;
}

abbrev pub contains : ℕ → List ℕ → Bool
contains x [] = false
contains x (y ∷ ys) = if y == x then true else contains x ys

-- Whoever stops waiting is unparked.
pub record Unparks (w w' : World) : Type 0 where
  pub still_told : (t : ℕ) → contains t w.unparked ≡ true → contains t w'.unparked ≡ true
  pub told :
      (i : ℕ)
      → (w.cells i).select ≡ 0
      → (w'.cells i).select ≢ 0
      → contains (w.cells i).thread_id w'.unparked ≡ true

wake-Unparks : (w : World) (cx : ℕ) (sel : Selected) → Unparks w (wake w cx sel)
unfolding wake try_select unpark
wake-Unparks w cx sel = record { still_told = λ t h. ground arith; told = λ i e ne. ground arith }

Unparks-trans : {u v w : World} → Keeps u v → Unparks u v → Unparks v w → Unparks u w
Unparks-trans {u} {v} {w} keeps a b = record {
  still_told = λ t h. b.still_told t (a.still_told t h);
  told = λ i e ne. elim (ℕ_discrete (v.cells i).select 0) [
    | yes still ↦
        subst (λ t. contains t w.unparked ≡ true) (keeps.same_thread i) (b.told i still ne)
    | no done ↦ b.still_told _ (a.told i e done)
  ];
}

-- The operation of the first entry for a context, 0 if there is none.
abbrev pub first_oper : ℕ → List Entry → ℕ
first_oper i [] = 0
first_oper i (e ∷ es) = if e.cx == i then e.oper else first_oper i es

-- `Operation::hook` makes addresses above 2 only.
abbrev pub Hooked : List Entry → Type 0
Hooked [] = Unit
Hooked (e ∷ es) = (2 < e.oper) × Hooked es

notify_all-select :
    (w : World) (es : List Entry) (i : ℕ)
    → Hooked es
    → ((notify_all w es).cells i).select
      ≡ (if (w.cells i).select == 0 then first_oper i es else (w.cells i).select)
unfolding notify_all encode
notify_all-select w [] i h = ground arith
notify_all-select w (e ∷ es) i h = ground (
  arith,
  notify_all-select (wake w e.cx (operation e.oper)) es i h.1,
  wake-select w e.cx (operation e.oper) i,
)

notify_all-Keeps : (w : World) (es : List Entry) → Keeps w (notify_all w es)
unfolding notify_all
notify_all-Keeps w [] = Keeps-refl w
notify_all-Keeps w (e ∷ es) =
    Keeps-trans (wake-Keeps w e.cx (operation e.oper))
      (notify_all-Keeps (wake w e.cx (operation e.oper)) es)

notify_all-Unparks : (w : World) (es : List Entry) → Unparks w (notify_all w es)
unfolding notify_all
notify_all-Unparks w [] = record { still_told = λ t h. h; told = λ i e ne. absurd (ne e) }
notify_all-Unparks w (e ∷ es) =
    Unparks-trans (wake-Keeps w e.cx (operation e.oper)) (wake-Unparks w e.cx (operation e.oper))
      (notify_all-Unparks (wake w e.cx (operation e.oper)) es)

-- A context that keeps what `Keeps` says is determined by its word.
cell_of :
    (w w' : World) (i sel : ℕ)
    → Keeps w w'
    → (w'.cells i).select ≡ sel
    → w'.cells i ≡ record (w.cells i) { select = sel }
cell_of w w' i sel k e =
    ap₂ (λ p t. record { select = (w'.cells i).select; packet = p; thread_id = t })
      (k.same_packet i) (k.same_thread i)
    ∙ ap (λ s. record (w.cells i) { select = s }) e

-- Either the context's word is as it was, or its thread is unparked.
abbrev pub IsTold : World → World → ℕ → Type 0
IsTold w w' i =
    ((w'.cells i).select ≡ (w.cells i).select) ⊎ (contains (w.cells i).thread_id w'.unparked ≡ true)

Unparks-IsTold : (w w' : World) (i : ℕ) → Keeps w w' → Unparks w w' → IsTold w w' i
Unparks-IsTold w w' i k u = elim (ℕ_discrete (w.cells i).select 0) [
  | yes open_still ↦ elim (ℕ_discrete (w'.cells i).select 0) [
    | yes still ↦ inl (still ∙ sym open_still)
    | no done ↦ inr (u.told i open_still done)
  ]
  | no done ↦ inl (ap (λ c. c.select) (k.kept i done))
]

-- `notify`, where the operations of the observers are addresses above 2, removes every observer. A
-- context that waits gets the operation of its first observer, if it has one, and nothing else of
-- it changes; a context that was selected before keeps everything. The thread of each context whose
-- word changes is unparked.
pub notify_tells :
    (w : World) (k : Waker) (i : ℕ)
    → Hooked k.observers
    → let (k', w') = notify w k in
      (k' ≡ record { selectors = k.selectors; observers = [] })
      × (w'.cells i ≡ record (w.cells i) {
        select = if (w.cells i).select == 0 then first_oper i k.observers else (w.cells i).select;
      })
      × IsTold w w' i
unfolding notify
notify_tells w k i h =
    let w' = notify_all w k.observers in
    let keeps = notify_all-Keeps w k.observers in
    (
      refl,
      cell_of w w' i _ keeps (notify_all-select w k.observers i h),
      Unparks-IsTold w w' i keeps (notify_all-Unparks w k.observers),
    )

-- Whether some entry is for the context.
abbrev pub has_context : ℕ → List Entry → Bool
has_context i [] = false
has_context i (e ∷ es) = if e.cx == i then true else has_context i es

disconnect_all-select :
    (w : World) (es : List Entry) (i : ℕ)
    → ((disconnect_all w es).cells i).select ≡ (
        if (w.cells i).select == 0 then (if has_context i es then 2 else 0) else (w.cells i).select)
unfolding disconnect_all encode
disconnect_all-select w [] i = ground arith
disconnect_all-select w (e ∷ es) i = ground (
  arith,
  disconnect_all-select (wake w e.cx disconnected) es i,
  wake-select w e.cx disconnected i,
)

disconnect_all-Keeps : (w : World) (es : List Entry) → Keeps w (disconnect_all w es)
unfolding disconnect_all
disconnect_all-Keeps w [] = Keeps-refl w
disconnect_all-Keeps w (e ∷ es) =
    Keeps-trans (wake-Keeps w e.cx disconnected)
      (disconnect_all-Keeps (wake w e.cx disconnected) es)

disconnect_all-Unparks : (w : World) (es : List Entry) → Unparks w (disconnect_all w es)
unfolding disconnect_all
disconnect_all-Unparks w [] = record { still_told = λ t h. h; told = λ i e ne. absurd (ne e) }
disconnect_all-Unparks w (e ∷ es) =
    Unparks-trans (wake-Keeps w e.cx disconnected) (wake-Unparks w e.cx disconnected)
      (disconnect_all-Unparks (wake w e.cx disconnected) es)

-- `disconnect`, where the operations of the observers are addresses above 2, leaves the selectors
-- registered and removes the observers. A context that waits with a selector becomes disconnected,
-- one that only watches gets the operation of its first observer, and a context that was selected
-- before keeps everything; nothing but the word of a context changes. The thread of each context
-- whose word changes is unparked.
pub disconnect_tells :
    (w : World) (k : Waker) (i : ℕ)
    → Hooked k.observers
    → let (k', w') = disconnect w k in
      (k' ≡ record { selectors = k.selectors; observers = [] })
      × (w'.cells i ≡ record (w.cells i) {
        select =
            if (w.cells i).select == 0
            then (if has_context i k.selectors then 2 else first_oper i k.observers)
            else (w.cells i).select;
      })
      × IsTold w w' i
unfolding disconnect notify
disconnect_tells w k i h =
    let w1 = disconnect_all w k.selectors in
    let w' = notify_all w1 k.observers in
    let before = disconnect_all-Keeps w k.selectors in
    let keeps = Keeps-trans before (notify_all-Keeps w1 k.observers) in
    (
      refl,
      cell_of w w' i _ keeps (
          ground
            (arith, notify_all-select w1 k.observers i h, disconnect_all-select w k.selectors i)),
      Unparks-IsTold w w' i keeps (
          Unparks-trans before (disconnect_all-Unparks w k.selectors)
            (notify_all-Unparks w1 k.observers)),
    )
