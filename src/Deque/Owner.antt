-- ===== src/Deque/Owner.antt =====
-- What a pop of the owner does to the list of tasks.
use crossbeam.Prelude.{
  ℕ, ◌+◌, ◌≤◌, ◌≡◌, ◌⊎◌, inl, inr, refl, sym, ap, subst, ◌∙◌, arith, Option, none, some, List, [],
  ◌∷◌, ◌++◌, length, length-snoc,
}
use crossbeam.ArrayQueue.Defs.{returned}
use crossbeam.Deque.Defs.{Deque, Flavor, fifo, lifo, pop}
use crossbeam.Deque.Invariant.{Represents}
use crossbeam.Deque.Resize.{Holds}
use crossbeam.Deque.Pop.{pop-empty, pop-front, pop-back}
use crossbeam.Deque.Thief.{Later, Later-refl}
use crossbeam.Deque.Spec.{popped, split_last, split_last-append, Move, move_pop}

Flavor-cases : (f : Flavor) → (f ≡ fifo) ⊎ (f ≡ lifo)
Flavor-cases fifo = inl refl
Flavor-cases lifo = inr refl

module _ {ℓ} {T : Type ℓ} where
  -- What a pop of the owner does.
  pub record Pops (h : ℕ) (xs : List T) (d : Deque T) : Type ℓ where
    pub answer : Option T
    pub d' : Deque T
    pub result : pop d ≡ returned (answer, d')
    pub k : ℕ
    pub ys : List T
    pub holds : Holds k ys d'
    pub later : Later h xs k ys
    pub within : k + length ys ≤ h + length xs
    pub move : Move d.flavor (popped answer) xs ys
    pub flavor_at : d'.flavor ≡ d.flavor

  pop-Pops-fifo :
      {e h : ℕ} {x : T} {xs : List T} {d : Deque T}
      → Represents e h (x ∷ xs) d
      → d.flavor ≡ fifo
      → Pops h (x ∷ xs) d
  pop-Pops-fifo {e} {h} {x} {xs} {d} rep flavor =
      let p = pop-front rep flavor in
      record {
        answer = some x;
        d' = p.left;
        result = p.result;
        k = h + 1;
        ys = xs;
        holds = p.holds;
        later = record { after = omega arith; head = λ same e. absurd (omega arith) };
        within = omega arith;
        move = subst (λ f. Move f (popped (some x)) (x ∷ xs) xs) (sym flavor) move_pop;
        flavor_at = p.flavor_at ∙ sym flavor;
      }

  -- A list and the one that a LIFO pop leaves.
  before-Later :
      {h k : ℕ} {xs before : List T} (last : T)
      → xs ≡ before ++ (last ∷ [])
      → (k ≡ h) × ((x : T) × (rest : List T) × (before ≡ x ∷ rest)) ⊎ (k ≡ h + 1) × (before ≡ [])
      → Later h xs k before
  before-Later last split (inl (stays, (b, r, e))) = record {
    after = omega arith;
    head = λ same {x} {rest} e_xs.
        let first : b ≡ x = cc (split, e, e_xs) in (r, e ∙ ap (λ z. z ∷ r) first);
  }
  before-Later last split (inr (moves, e)) = record {
    after = omega arith;
    head = λ same e_xs. absurd (omega arith);
  }

  before-within :
      {h k : ℕ} {xs before : List T} (last : T)
      → xs ≡ before ++ (last ∷ [])
      → (k ≡ h) × ((x : T) × (rest : List T) × (before ≡ x ∷ rest)) ⊎ (k ≡ h + 1) × (before ≡ [])
      → k + length before ≤ h + length xs
  before-within {before = before} last split (inl (stays, _)) =
      omega (arith, ap length split, length-snoc before last)
  before-within {before = before} last split (inr (moves, _)) =
      omega (arith, ap length split, length-snoc before last)

  pop-Pops-lifo :
      {e h : ℕ} {x : T} {xs : List T} {d : Deque T}
      → Represents e h (x ∷ xs) d
      → d.flavor ≡ lifo
      → Pops h (x ∷ xs) d
  pop-Pops-lifo {e} {h} {x} {xs} {d} rep flavor =
      let last = (split_last x xs).0 in
      let before = (split_last x xs).1 in
      let split : x ∷ xs ≡ before ++ (last ∷ []) = split_last-append x xs in
      let (k, heads, p) = pop-back before last (subst (λ l. Represents e h l d) split rep) flavor in
      record {
        answer = some last;
        d' = p.left;
        result = p.result;
        k = k;
        ys = before;
        holds = p.holds;
        later = before-Later last split heads;
        within = before-within last split heads;
        move = subst (λ f. Move f (popped (some last)) (x ∷ xs) before) (sym flavor) move_pop;
        flavor_at = p.flavor_at ∙ sym flavor;
      }

  empty-Move : (f : Flavor) → Move {T = T} f (popped none) [] []
  empty-Move fifo = move_pop
  empty-Move lifo = move_pop

  pub pop-Pops : {e h : ℕ} (xs : List T) {d : Deque T} → Represents e h xs d → Pops h xs d
  pop-Pops {e} {h} [] {d} rep = record {
    answer = none;
    d' = d;
    result = pop-empty rep;
    k = h;
    ys = [];
    holds = (e, rep);
    later = Later-refl;
    within = omega arith;
    move = empty-Move d.flavor;
    flavor_at = refl;
  }
  pop-Pops (x ∷ xs) {d} rep = elim (Flavor-cases d.flavor) [
    | inl flavor ↦ pop-Pops-fifo rep flavor
    | inr flavor ↦ pop-Pops-lifo rep flavor
  ]
