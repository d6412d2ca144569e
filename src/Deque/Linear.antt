-- ===== src/Deque/Linear.antt =====
-- A deque under its owner and any number of stealers is a list of tasks that each step changes at once.
use crossbeam.Prelude.{
  ℕ, suc, ◌+◌, ◌*◌, ◌%◌, word_mod, ◌^◌, ◌≤◌, ◌<◌, ◌≡◌, inl, inr, refl, ap, subst, arith, Bool-cases,
  List, [], ◌∷◌, ◌++◌, length, length-snoc, ◌==◌,
}
use crossbeam.Prelude.Int.{as_signed, leb_int}
use crossbeam.ArrayQueue.Defs.{returned}
use crossbeam.Deque.Defs.{Deque, signed_len, push, new_fifo, new_lifo}
use crossbeam.Deque.Invariant.{Represents}
use crossbeam.Deque.Resize.{Holds}
use crossbeam.Deque.Reserve.{new_fifo-Represents, new_lifo-Represents}
use crossbeam.Deque.Push.{push-Holds}
use crossbeam.Deque.Pop.{shrunk-flavor}
use crossbeam.Deque.Thief.{IsCurrent, current_idle, Later, IsCurrent-Later}
use crossbeam.Deque.Owner.{pop-Pops}
use crossbeam.Deque.Proceed.{proceed-Proceeds}
use crossbeam.Deque.Threads.{
  Thief, System, Event, pushing, popping, stealing, set_thief, act, run, start,
}
use crossbeam.Deque.Spec.{Seen, pushed, popped, Move, move_push, Replay, done, onward}

module _ {ℓ} {T : Type ℓ} where
  -- The deque holds `xs`, at most `bound` tasks came so far, and every stealer knows what is true.
  record IsLinear (bound h : ℕ) (xs : List T) (s : System T) : Type ℓ where
    pub holds : Holds h xs s.deque
    pub within : h + length xs ≤ bound
    pub current : (i : ℕ) → IsCurrent h xs (s.thieves i)

  -- What one event does.
  record Acts (bound : ℕ) (xs : List T) (event : Event T) (s : System T) : Type ℓ where
    pub seen : Seen T
    pub s' : System T
    pub result : act event s ≡ returned (seen, s')
    pub k : ℕ
    pub ys : List T
    pub linear : IsLinear (suc bound) k ys s'
    pub move : Move s.deque.flavor seen xs ys
    pub flavor_at : s'.deque.flavor ≡ s.deque.flavor

  push-flavor : (task : T) (d : Deque T) → (push task d).flavor ≡ d.flavor
  unfolding push
  push-flavor task d =
      shrunk-flavor (leb_int (as_signed d.own.cap) (signed_len d)) (2 * d.own.cap % word_mod) d

  set_thief-IsCurrent :
      {k : ℕ} {ys : List T} (i : ℕ) {thief : Thief T} {thieves : ℕ → Thief T}
      → IsCurrent k ys thief
      → ((j : ℕ) → IsCurrent k ys (thieves j))
      → (j : ℕ) → IsCurrent k ys (set_thief i thief thieves j)
  set_thief-IsCurrent i one others j = elim (Bool-cases (j == i)) [
    | inl same ↦ rw same one
    | inr other ↦ rw other (others j)
  ]

  module _ {bound h : ℕ} {xs : List T} {s : System T} (linear : IsLinear bound h xs s)
      (small : bound < 2 ^ 62) where
    pushing-Acts : (task : T) → Acts bound xs (pushing task) s
    unfolding act
    pushing-Acts task = record {
      seen = pushed task;
      s' = record s { deque = push task s.deque };
      result = refl;
      k = h;
      ys = xs ++ (task ∷ []);
      linear = record {
        holds = push-Holds linear.holds.1 task (omega (arith, linear.within));
        within = omega (arith, linear.within, length-snoc xs task);
        current = λ i. IsCurrent-Later (linear.current i) grown;
      };
      move = move_push;
      flavor_at = push-flavor task s.deque;
    }
      where
        grown : Later h xs h (xs ++ (task ∷ []))
        grown = record {
          after = omega arith;
          head = λ same {x} {rest} e. (rest ++ (task ∷ []), ap (λ l. l ++ (task ∷ [])) e);
        }

    popping-Acts : Acts bound xs popping s
    unfolding act
    popping-Acts =
        let p = pop-Pops xs linear.holds.1 in
        record {
          seen = popped p.answer;
          s' = record s { deque = p.d' };
          result = rw (act, p.result) refl;
          k = p.k;
          ys = p.ys;
          linear = record {
            holds = p.holds;
            within = omega (arith, linear.within, p.within);
            current = λ i. IsCurrent-Later (linear.current i) p.later;
          };
          move = p.move;
          flavor_at = p.flavor_at;
        }

    stealing-Acts : (i : ℕ) → Acts bound xs (stealing i) s
    unfolding act
    stealing-Acts i =
        let p = proceed-Proceeds linear.holds.1 linear.within small (linear.current i) in
        record {
          seen = p.seen;
          s' = record { deque = p.d'; thieves = set_thief i p.thief' s.thieves };
          result = rw (act, p.result) refl;
          k = p.k;
          ys = p.ys;
          linear = record {
            holds = p.holds;
            within = omega (arith, p.within);
            current =
                set_thief-IsCurrent i p.current (λ j. IsCurrent-Later (linear.current j) p.later);
          };
          move = p.move;
          flavor_at = p.flavor_at;
        }

    act-Acts : (event : Event T) → Acts bound xs event s
    act-Acts (pushing task) = pushing-Acts task
    act-Acts popping = popping-Acts
    act-Acts (stealing i) = stealing-Acts i

  -- What a run of events does.
  pub record Runs (xs : List T) (events : List (Event T)) (s : System T) : Type ℓ where
    pub log : List (Seen T)
    pub final : System T
    pub result : run events s ≡ returned (log, final)
    pub k : ℕ
    pub ys : List T
    pub holds : Holds k ys final.deque
    pub replay : Replay s.deque.flavor log xs ys

  run-Runs :
      (events : List (Event T)) {bound h : ℕ} {xs : List T} {s : System T}
      → IsLinear bound h xs s
      → bound + length events < 2 ^ 62
      → Runs xs events s
  unfolding run
  run-Runs [] {bound} {h} {xs} {s} linear small = record {
    log = [];
    final = s;
    result = refl;
    k = h;
    ys = xs;
    holds = linear.holds;
    replay = done;
  }
  run-Runs (event ∷ events) {bound} {h} {xs} {s} linear small =
      let a = act-Acts linear (omega arith) event in
      let r = run-Runs events a.linear (omega arith) in
      record {
        log = a.seen ∷ r.log;
        final = r.final;
        result = rw (run, a.result, r.result) refl;
        k = r.k;
        ys = r.ys;
        holds = r.holds;
        replay = onward a.move (subst (λ f. Replay f r.log a.ys r.ys) a.flavor_at r.replay);
      }

  start-IsLinear : {d : Deque T} → Represents 6 0 [] d → IsLinear 0 0 [] (start d)
  start-IsLinear rep = record {
    holds = (6, rep);
    within = omega arith;
    current = λ i. current_idle;
  }

  -- Whatever pushes and pops of the owner and parts of steals are run in whatever order on a new FIFO
  -- deque, fewer than `2 ^ 62` in all, every step returns, and what the steps show are moves of the list of
  -- tasks: a push puts a task at the back, a pop takes the first task, a steal takes the first task at the
  -- moment of its last part, and a stealer finds nothing only while the list is empty.
  pub fifo-Runs :
      (events : List (Event T)) → length events < 2 ^ 62 → Runs [] events (start new_fifo)
  fifo-Runs events few = run-Runs events (start-IsLinear (new_fifo-Represents T)) (omega arith)

  -- The same on a new LIFO deque, where a pop takes the last task and a steal the first: fewer than `2 ^ 62`
  -- pushes, pops and parts of steals, run in whatever order, all return and are moves of the list of tasks.
  pub lifo-Runs :
      (events : List (Event T)) → length events < 2 ^ 62 → Runs [] events (start new_lifo)
  lifo-Runs events few = run-Runs events (start-IsLinear (new_lifo-Represents T)) (omega arith)
