-- ===== src/Deque/Proceed.antt =====
-- The next part of a steal takes the first task at one moment or nothing.
use crossbeam.Prelude.{
  ℕ, ◌+◌, ◌%◌, ◌^◌, ◌≤◌, ◌<◌, ◌≡◌, inl, inr, refl, sym, ap, subst, arith, Option, some, List, ◌∷◌,
  length, dec_lt, word_mod, wrapping_add,
}
use crossbeam.ArrayQueue.Defs.{returned}
use crossbeam.Deque.Defs.{Buffer, Deque, read}
use crossbeam.Deque.Invariant.{Represents}
use crossbeam.Deque.Resize.{Holds}
use crossbeam.Deque.Pop.{advance-Represents}
use crossbeam.Deque.Thief.{
  IsCurrent, current_idle, current_loaded, current_reading, Later, Later-refl, steal_read-some,
  steal_read-none, length-zero, known-front, commit-cases,
}
use crossbeam.Deque.Threads.{Thief, idle, loaded, reading, proceed}
use crossbeam.Deque.Spec.{Seen, Move, stole, saw_empty, silent, move_steal, move_empty, move_silent}

module _ {ℓ} {T : Type ℓ} where
  -- What the next part of a steal does.
  pub record Proceeds (bound h : ℕ) (xs : List T) (thief : Thief T) (d : Deque T) : Type ℓ where
    pub seen : Seen T
    pub thief' : Thief T
    pub d' : Deque T
    pub result : proceed thief d ≡ returned (seen, thief', d')
    pub k : ℕ
    pub ys : List T
    pub holds : Holds k ys d'
    pub later : Later h xs k ys
    pub current : IsCurrent k ys thief'
    pub within : k + length ys ≤ bound
    pub move : Move d.flavor seen xs ys
    pub flavor_at : d'.flavor ≡ d.flavor

  proceed-idle :
      {bound e h : ℕ} {xs : List T} {d : Deque T}
      → Represents e h xs d
      → h + length xs ≤ bound
      → bound < 2 ^ 62
      → Proceeds bound h xs idle d
  unfolding proceed
  proceed-idle {bound} {e} {h} {xs} {d} rep within small = record {
    seen = silent;
    thief' = loaded d.front;
    d' = d;
    result = refl;
    k = h;
    ys = xs;
    holds = (e, rep);
    later = Later-refl;
    current =
        subst (λ f. IsCurrent h xs (loaded f)) (sym rep.front_at) (current_loaded (omega arith));
    within = within;
    move = move_silent;
    flavor_at = refl;
  }

  proceed-loaded :
      {bound e h : ℕ} {p : ℕ} {xs : List T} {d : Deque T}
      → Represents e h xs d
      → h + length xs ≤ bound
      → bound < 2 ^ 62
      → p ≤ h
      → Proceeds bound h xs (loaded (p % word_mod)) d
  unfolding proceed
  proceed-loaded {bound} {e} {h} {p} {xs} {d} rep within small le =
      elim (dec_lt p (h + length xs)) [
        | yes more ↦ record {
          seen = silent;
          thief' = reading (p % word_mod) d.shared (read d.heap d.shared (p % word_mod));
          d' = d;
          result = rw (proceed, steal_read-some rep le (omega arith) more) refl;
          k = h;
          ys = xs;
          holds = (e, rep);
          later = Later-refl;
          current = current_reading le (known-front rep more);
          within = within;
          move = move_silent;
          flavor_at = refl;
        }
        | no at_end ↦ record {
          seen = saw_empty;
          thief' = idle;
          d' = d;
          result = rw (proceed, steal_read-none {p = p} rep (omega (arith, le, at_end))) refl;
          k = h;
          ys = xs;
          holds = (e, rep);
          later = Later-refl;
          current = current_idle;
          within = within;
          move =
              subst (λ l. Move d.flavor saw_empty l l)
                (sym (length-zero xs (omega (arith, le, at_end)))) move_empty;
          flavor_at = refl;
        }
      ]

  proceed-reading :
      {bound e h : ℕ} {p : ℕ} {xs : List T} {buffer : Buffer} {task : Option T} {d : Deque T}
      → Represents e h xs d
      → h + length xs ≤ bound
      → bound < 2 ^ 62
      → p ≤ h
      → (p ≡ h → (x : T) × (rest : List T) × (xs ≡ x ∷ rest) × (task ≡ some x))
      → Proceeds bound h xs (reading (p % word_mod) buffer task) d
  unfolding proceed
  proceed-reading {bound} {e} {h} {p} {xs} {buffer} {task} {d} rep within small le known =
      elim (commit-cases (p % word_mod) buffer task d) [
        | inl lost ↦ record {
          seen = silent;
          thief' = idle;
          d' = d;
          result = rw (proceed, lost) refl;
          k = h;
          ys = xs;
          holds = (e, rep);
          later = Later-refl;
          current = current_idle;
          within = within;
          move = move_silent;
          flavor_at = refl;
        }
        | inr (at_front, won) ↦
            let same : p ≡ h = omega (arith, rep.front_at, at_front, le) in
            let (x, rest, e_xs, e_task) = known same in
            let rep' : Represents e h (x ∷ rest) d = subst (λ l. Represents e h l d) e_xs rep in
            record {
              seen = stole x;
              thief' = idle;
              d' = record d { front = wrapping_add (p % word_mod) 1 };
              result = rw (proceed, won, e_task) refl;
              k = h + 1;
              ys = rest;
              holds = (
                e,
                subst (λ f. Represents e (h + 1) rest (record d { front = wrapping_add f 1 }))
                    at_front (advance-Represents rep'),
              );
              later = record { after = omega arith; head = λ same e. absurd (omega arith) };
              current = current_idle;
              within = omega (arith, ap length e_xs);
              move = subst (λ l. Move d.flavor (stole x) l rest) (sym e_xs) move_steal;
              flavor_at = refl;
            }
      ]

  pub proceed-Proceeds :
      {bound e h : ℕ} {xs : List T} {thief : Thief T} {d : Deque T}
      → Represents e h xs d
      → h + length xs ≤ bound
      → bound < 2 ^ 62
      → IsCurrent h xs thief
      → Proceeds bound h xs thief d
  proceed-Proceeds rep within small current_idle = proceed-idle rep within small
  proceed-Proceeds rep within small (current_loaded le) = proceed-loaded rep within small le
  proceed-Proceeds rep within small (current_reading le known) =
      proceed-reading rep within small le known
