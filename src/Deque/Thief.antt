-- ===== src/Deque/Thief.antt =====
-- What a stealer knows of the deque between the parts of a steal.
use crossbeam.Prelude.{
  ℕ, ◌+◌, ◌-◌, ◌%◌, ◌^◌, ◌≤◌, ◌<◌, ◌≡◌, ◌⊎◌, inl, inr, refl, sym, ap, ◌∙◌, arith, Option, some,
  Bool-cases, eq→==, false, List, [], ◌∷◌, length, word_mod, wrapping_add, leb, ne→==, ℕ_discrete,
  ◌==◌,
}
use crossbeam.Prelude.Int.{as_signed-pos}
use crossbeam.ArrayQueue.Defs.{returned}
use crossbeam.Deque.Defs.{Buffer, Deque, read}
use crossbeam.Deque.Tickets.{wrapping_sub-word}
use crossbeam.Deque.Invariant.{Represents}
use crossbeam.Deque.Pop.{read-front}
use crossbeam.Deque.Steal.{retry}
use crossbeam.Deque.Stealer.{nothing, pending, steal_read, steal_commit, take_stolen}
use crossbeam.Deque.Threads.{Thief, idle, loaded, reading}

module _ {ℓ} {T : Type ℓ} where
  -- What a stealer knows: the ticket `p` that it loaded is not after the head `h`, and where it is the
  -- head still, the task that it read is the first one.
  pub data IsCurrent (h : ℕ) (xs : List T) : Thief T → Type ℓ where
    current_idle : IsCurrent h xs idle
    current_loaded : {p : ℕ} → p ≤ h → IsCurrent h xs (loaded (p % word_mod))
    current_reading :
        {p : ℕ} {buffer : Buffer} {task : Option T}
        → p ≤ h
        → (p ≡ h → (x : T) × (rest : List T) × (xs ≡ x ∷ rest) × (task ≡ some x))
        → IsCurrent h xs (reading (p % word_mod) buffer task)

  -- A later state of a list: more tasks were taken from the front, or the first task is the same.
  pub record Later (h : ℕ) (xs : List T) (k : ℕ) (ys : List T) : Type ℓ where
    pub after : h ≤ k
    pub head : k ≡ h → {x : T} {rest : List T} → xs ≡ x ∷ rest → (rest' : List T) × (ys ≡ x ∷ rest')

  pub Later-refl : {h : ℕ} {xs : List T} → Later h xs h xs
  Later-refl = record { after = omega arith; head = λ same {x} {rest} e. (rest, e) }

  -- What a stealer knows stays true.
  pub IsCurrent-Later :
      {h k : ℕ} {xs ys : List T} {thief : Thief T}
      → IsCurrent h xs thief
      → Later h xs k ys
      → IsCurrent k ys thief
  IsCurrent-Later current_idle later = current_idle
  IsCurrent-Later (current_loaded le) later = current_loaded (omega (arith, later.after))
  IsCurrent-Later {h} {k} {xs} {ys} (current_reading {p} {task = task} le known) later =
      current_reading (omega (arith, later.after)) still
    where
      still : p ≡ k → (x : T) × (rest : List T) × (ys ≡ x ∷ rest) × (task ≡ some x)
      still same =
          let (x, rest, e, t) = known (omega (arith, later.after)) in
          let (rest', e') = later.head (omega (arith, later.after)) e in (x, rest', e', t)

  -- What a stealer reads at the ticket `p`.
  pub steal_read-some :
      {e h p : ℕ} {xs : List T} {d : Deque T}
      → Represents e h xs d
      → p ≤ h
      → h + length xs < 2 ^ 62
      → p < h + length xs
      → steal_read (p % word_mod) d ≡ pending d.shared (read d.heap d.shared (p % word_mod))
  unfolding steal_read
  steal_read-some {h = h} {p = p} {xs = xs} rep le small more =
      let m : h + length xs ≡ p + (h + length xs - p) = omega arith in
      let test : leb (h + length xs - p) 0 ≡ false = ground arith in
      rw
        (
          rep.back_at,
          m,
          wrapping_sub-word p (h + length xs - p) (omega arith),
          as_signed-pos (h + length xs - p) (omega arith),
          test,
        )
        refl

  pub steal_read-none :
      {e h p : ℕ} {xs : List T} {d : Deque T}
      → Represents e h xs d
      → p ≡ h + length xs
      → steal_read (p % word_mod) d ≡ nothing
  unfolding steal_read
  steal_read-none {h = h} {p = p} {xs = xs} rep at_end =
      let m : h + length xs ≡ p + 0 = omega arith in
      rw (rep.back_at, m, wrapping_sub-word p 0 (omega arith)) refl

  pub length-zero : (xs : List T) → length xs ≡ 0 → xs ≡ []
  length-zero [] e = refl
  length-zero (x ∷ xs) e = absurd (omega arith)

  pub known-front :
      {e h p : ℕ} {xs : List T} {d : Deque T}
      → Represents e h xs d
      → p < h + length xs
      → p ≡ h
      → (x : T) × (rest : List T) × (xs ≡ x ∷ rest) × (read d.heap d.shared (p % word_mod) ≡ some x)
  known-front {h = h} {xs = []} rep more same = absurd (omega arith)
  known-front {h = h} {p = p} {xs = x ∷ rest} {d} rep more same = (
    x,
    rest,
    refl,
    ap (λ b. read d.heap b (p % word_mod)) rep.same
        ∙ ap (read d.heap d.own) (ap (λ q. q % word_mod) same ∙ sym rep.front_at)
        ∙ read-front rep,
  )

  pub commit-cases :
      (f : ℕ) (buffer : Buffer) (task : Option T) (d : Deque T)
      → (steal_commit f buffer task d ≡ returned (retry, d))
        ⊎ ((d.front ≡ f)
            × (steal_commit f buffer task d
                ≡ take_stolen task (record d { front = wrapping_add f 1 })))
  unfolding steal_commit
  commit-cases f buffer task d = elim (Bool-cases (d.shared.ptr == buffer.ptr)) [
    | inl unchanged ↦ elim (ℕ_discrete d.front f) [
      | yes same ↦ inr (same, rw (unchanged, eq→== _ _ same) refl)
      | no stale ↦ inl (rw (unchanged, ne→== _ _ stale) refl)
    ]
    | inr swapped ↦ inl (rw swapped refl)
  ]
