-- ===== src/Deque/Drop.antt =====
-- `Inner::drop`.
use mathlib.Core.Path.{ap₂}
use crossbeam.Prelude.{
  ℕ, zero, suc, ◌+◌, ◌%◌, ◌^◌, ◌≤◌, ◌<◌, ◌≡◌, refl, sym, ap, subst, ◌∙◌, arith, Option, some, List,
  [], ◌∷◌, length, word_mod, ==_refl,
}
use crossbeam.Deque.Defs.{Deque, drop_loop, dropped}
use crossbeam.Deque.Tickets.{wrapping_add-word, word-apart}
use crossbeam.Deque.Window.{Held, Held-tail}
use crossbeam.Deque.Invariant.{Represents, read-head}
use crossbeam.Deque.Resize.{length-small}

module _ {ℓ} {T : Type ℓ} where
  -- The tasks of a list as what is read from their slots.
  abbrev pub tasks_read : List T → List (Option T)
  tasks_read [] = []
  tasks_read (x ∷ xs) = some x ∷ tasks_read xs

  drop_loop-tasks :
      (fuel : ℕ) {e h : ℕ} (xs : List T) (d : Deque T)
      → d.shared.cap ≡ 2 ^ e
      → e ≤ 62
      → Held (d.heap d.shared.ptr) d.shared.cap h xs
      → length xs < fuel
      → length xs < word_mod
      → drop_loop fuel (h % word_mod) ((h + length xs) % word_mod) d ≡ tasks_read xs
  unfolding drop_loop
  drop_loop-tasks zero xs d c le held enough small = absurd (omega arith)
  drop_loop-tasks (suc fuel) {h = h} [] d c le held enough small =
      let stop : h + 0 ≡ h = omega arith in rw (drop_loop, stop, ==_refl) refl
  drop_loop-tasks (suc fuel) {h = h} (x ∷ xs) d c le held enough small =
      let next : h + suc (length xs) ≡ h + 1 + length xs = omega arith in
      rw
        (
          drop_loop,
          word-apart h (suc (length xs)) (omega arith) small,
          read-head d.heap d.shared c le held,
          wrapping_add-word h 1,
          next,
          drop_loop-tasks fuel {h = h + 1} xs d c le (Held-tail held) (omega arith) (omega arith),
        )
        refl

  drop_loop-Represents :
      {e h : ℕ} {xs : List T} {d : Deque T}
      → Represents e h xs d
      → drop_loop word_mod d.front d.back d ≡ tasks_read xs
  drop_loop-Represents {e} {h} {xs} {d} rep =
      ap (λ i. drop_loop word_mod i d.back d) rep.front_at
      ∙ ap (λ b. drop_loop word_mod (h % word_mod) b d) rep.back_at
      ∙ drop_loop-tasks word_mod {h = h} xs d (ap (λ b. b.cap) rep.same ∙ rep.cap_at) rep.most
          (subst (λ b. Held (d.heap b.ptr) b.cap h xs) (sym rep.same) rep.held)
          (omega (arith, length-small rep)) (omega (arith, length-small rep))

  -- Dropping a deque drops exactly the tasks that it holds, from the front to the back, and frees the
  -- buffer that its worker uses.
  pub dropped-tasks :
      {e h : ℕ} {xs : List T} {d : Deque T}
      → Represents e h xs d
      → dropped d ≡ (tasks_read xs, d.own.ptr)
  unfolding dropped
  dropped-tasks rep = ap₂ (λ ts p. (ts, p)) (drop_loop-Represents rep) (ap (λ b. b.ptr) rep.same)
