-- ===== src/Waker/Select.antt =====
-- `Waker::try_select`: which entry it selects, what it leaves alone, and when it selects none.
use crossbeam.Prelude.{
  ℕ, zero, suc, ◌≡◌, ◌≢◌, refl, sym, ap, subst, arith, Bool, true, false, not, ◌&&◌, Option, none,
  some, List, [], ◌∷◌, ◌++◌, if◌then◌else◌, ◌==◌, inl, inr, Bool-cases, ne→==,
}
use crossbeam.Waker.Context.{
  Cell, World, decode, encode, try_select, store_packet, unpark, thread_id, selected,
}
use crossbeam.Waker.Defs.{
  Entry, Waker, select_entry, select_first, try_select_one, is_waiting, any_selectable, can_select,
}

-- An entry that `try_select` may select: another thread's, which still waits.
pub record IsSelectable (me : ℕ) (w : World) (e : Entry) : Type 0 where
  pub other : (w.cells e.cx).thread_id ≢ me
  pub open_still : (w.cells e.cx).select ≡ 0

-- The context of an entry that was selected.
abbrev pub taken_cell : Cell → Entry → Cell
taken_cell c e = record {
  select = e.oper;
  packet = if e.packet == 0 then c.packet else e.packet;
  thread_id = c.thread_id;
}

-- What the world is after the entry was selected.
pub record Woke (w : World) (e : Entry) (w' : World) : Type 0 where
  pub cell : (i : ℕ) → w'.cells i ≡ (if e.cx == i then taken_cell (w.cells e.cx) e else w.cells i)
  pub told : w'.unparked ≡ (w.cells e.cx).thread_id ∷ w.unparked

select_entry-hit :
    (me : ℕ) (w : World) (e : Entry)
    → IsSelectable me w e
    → (w' : World) × (select_entry me w e ≡ (true, w')) × Woke w e w'
unfolding select_entry try_select store_packet unpark thread_id encode
select_entry-hit me w e s = (
  after,
  ground (arith, s.other, s.open_still),
  record { cell = λ i. ground arith; told = ground arith },
)
  where
    after : World
    after = record {
      cells = λ i. if e.cx == i then taken_cell (w.cells e.cx) e else w.cells i;
      unparked = (w.cells e.cx).thread_id ∷ w.unparked;
    }

-- What `can_select` asks of an entry.
abbrev pub selectable : ℕ → World → Entry → Bool
selectable me w e = not (thread_id w e.cx == me) && is_waiting (selected w e.cx)

is_waiting-decode : (n : ℕ) → is_waiting (decode n) ≡ (n == 0)
unfolding is_waiting decode
is_waiting-decode zero = refl
is_waiting-decode (suc zero) = refl
is_waiting-decode (suc (suc zero)) = refl
is_waiting-decode (suc (suc (suc n))) =
    sym (ne→== (suc (suc (suc n))) 0 (λ e. absurd (omega arith)))

selectable-IsSelectable :
    (me : ℕ) (w : World) (e : Entry) → selectable me w e ≡ true → IsSelectable me w e
unfolding thread_id selected
selectable-IsSelectable me w e h = ground (arith, is_waiting-decode (w.cells e.cx).select)

select_entry-miss :
    (me : ℕ) (w : World) (e : Entry) → selectable me w e ≡ false → select_entry me w e ≡ (false, w)
unfolding select_entry try_select thread_id encode selected
select_entry-miss me w e h = ground (arith, is_waiting-decode (w.cells e.cx).select)

-- With no selectable entry nothing happens.
select_first-none :
    (me : ℕ) (w : World) (es : List Entry)
    → any_selectable me w es ≡ false
    → select_first me w es ≡ (none, es, w)
unfolding select_first any_selectable
select_first-none me w [] h = refl
select_first-none me w (e ∷ es) h =
    ground (arith, select_entry-miss me w e, select_first-none me w es)

-- `select_first` takes the first selectable entry `entry` out of `es`, and selects it.
pub record Picks (me : ℕ) (w : World) (es : List Entry) (r : Option Entry × List Entry × World)
    : Type 0 where
  pub before : List Entry
  pub entry : Entry
  pub after : List Entry
  pub split : es ≡ before ++ (entry ∷ after)
  pub first : any_selectable me w before ≡ false
  pub fit : IsSelectable me w entry
  pub found : r.0 ≡ some entry
  pub left : r.1 ≡ before ++ after
  pub woke : Woke w entry r.2

select_first-hit :
    (me : ℕ) (w w' : World) (e : Entry) (es : List Entry)
    → select_entry me w e ≡ (true, w')
    → select_first me w (e ∷ es) ≡ (some e, es, w')
unfolding select_first
select_first-hit me w w' e es h = ground arith

select_first-miss :
    (me : ℕ) (w : World) (e : Entry) (es : List Entry)
    → select_entry me w e ≡ (false, w)
    → let later = select_first me w es in
      select_first me w (e ∷ es) ≡ (later.0, e ∷ later.1, later.2)
unfolding select_first
select_first-miss me w e es h = ground arith

select_first-Picks :
    (me : ℕ) (w : World) (es : List Entry)
    → any_selectable me w es ≡ true
    → Picks me w es (select_first me w es)
unfolding any_selectable
select_first-Picks me w [] h = absurd (cc)
select_first-Picks me w (e ∷ es) h = elim (Bool-cases (selectable me w e)) [
  | inl hit ↦
      let s : IsSelectable me w e = selectable-IsSelectable me w e hit in
      let (w', eq, woke) = select_entry-hit me w e s in
      subst (Picks me w (e ∷ es)) (sym (select_first-hit me w w' e es eq)) (record {
        before = [];
        entry = e;
        after = es;
        split = refl;
        first = refl;
        fit = s;
        found = refl;
        left = refl;
        woke = woke;
      })
  | inr miss ↦
      let p : Picks me w es (select_first me w es) =
        select_first-Picks me w es (ground (arith, miss)) in
      subst (Picks me w (e ∷ es))
        (sym (select_first-miss me w e es (select_entry-miss me w e miss)))
        (record {
          before = e ∷ p.before;
          entry = p.entry;
          after = p.after;
          split = ap (λ l. e ∷ l) p.split;
          first = ground (arith, miss, p.first);
          fit = p.fit;
          found = p.found;
          left = ap (λ l. e ∷ l) p.left;
          woke = p.woke;
        })
]

-- Where `can_select` says no, `try_select` returns `None` and changes nothing.
pub try_select_one-none :
    (me : ℕ) (w : World) (k : Waker)
    → can_select me w k ≡ false
    → try_select_one me w k ≡ (none, k, w)
unfolding try_select_one can_select
try_select_one-none me w k h = ground (arith, select_first-none me w k.selectors h)

-- Where `can_select` says yes, `try_select` takes out the first selector of another thread that still
-- waits, selects its operation, hands over its packet unless that is null, unparks that one thread,
-- and leaves every other context and the observers as they were.
pub try_select_one-Picks :
    (me : ℕ) (w : World) (k : Waker)
    → can_select me w k ≡ true
    → let (found, k', w') = try_select_one me w k in
      Picks me w k.selectors (found, k'.selectors, w') × (k'.observers ≡ k.observers)
unfolding try_select_one can_select
try_select_one-Picks me w k h = (select_first-Picks me w k.selectors h, refl)
