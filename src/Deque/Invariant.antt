-- ===== src/Deque/Invariant.antt =====
-- When a deque holds a list of tasks, and that its buffer may be replaced by another.
use crossbeam.Prelude.{
  ℕ, zero, suc, ◌+◌, ◌%◌, ◌^◌, ◌≤◌, ◌<◌, ◌≡◌, ◌≢◌, refl, sym, ap, subst, ◌∙◌, arith, some, Option,
  List, [], ◌∷◌, ◌++◌, length, length-snoc, ==_refl, ne→==, word_mod, low_bits,
}
use mathlib.Core.Path.{fun_ext}
use mathlib.Core.List.{append-nil, append_assoc}
use crossbeam.Deque.Defs.{Buffer, Heap, Deque, read, write, copy_loop}
use crossbeam.Deque.Tickets.{wrapping_add-word, word-apart}
use crossbeam.Deque.Window.{
  word-slot, Held, put, Held-nil, Held-head, Held-tail, Held-push, Held-move,
}

-- `d` holds `xs`, the first of which has the ticket `h`, in a buffer of `2 ^ e` slots.
pub record Represents {ℓ} {T : Type ℓ} (e h : ℕ) (xs : List T) (d : Deque T) : Type ℓ where
  pub cap_at : d.own.cap ≡ 2 ^ e
  pub least : 6 ≤ e
  pub most : e ≤ 62
  pub same : d.shared ≡ d.own
  pub allocated : d.own.ptr < d.next_ptr
  pub front_at : d.front ≡ h % word_mod
  pub back_at : d.back ≡ (h + length xs) % word_mod
  pub room : length xs ≤ d.own.cap
  pub held : Held (d.heap d.own.ptr) d.own.cap h xs

-- The slot that a word names in a buffer of `2 ^ e` slots is that of its ticket.
pub buffer-slot :
    (b : Buffer) {e : ℕ} (p : ℕ)
    → b.cap ≡ 2 ^ e
    → e ≤ 62
    → low_bits (p % word_mod) b.cap ≡ p % b.cap
buffer-slot b {e} p c le =
    subst (λ n. p % word_mod % n ≡ p % n) (sym c) (word-slot e p (omega arith))

module _ {ℓ} {T : Type ℓ} where
  pub write_own :
      (heap : Heap T) (b : Buffer) (i : ℕ) (task : Option T)
      → write heap b i task b.ptr ≡ put (heap b.ptr) (low_bits i b.cap) task
  write_own heap b i task = fun_ext λ k. rw (==_refl b.ptr) refl

  pub write_other :
      (heap : Heap T) (b : Buffer) (i : ℕ) (task : Option T) {p : ℕ}
      → p ≢ b.ptr
      → write heap b i task p ≡ heap p
  write_other heap b i task ne = fun_ext λ k. rw (ne→== _ _ ne) refl

  pub read-head :
      (heap : Heap T) (b : Buffer) {e h : ℕ} {x : T} {xs : List T}
      → b.cap ≡ 2 ^ e
      → e ≤ 62
      → Held (heap b.ptr) b.cap h (x ∷ xs)
      → read heap b (h % word_mod) ≡ some x
  read-head heap b {h = h} c le held = ap (heap b.ptr) (buffer-slot b h c le) ∙ Held-head held

  -- Writing the task after the last one.
  pub write-Held :
      (heap : Heap T) (b : Buffer) {e h : ℕ} {xs : List T} (task : T)
      → b.cap ≡ 2 ^ e
      → e ≤ 62
      → Held (heap b.ptr) b.cap h xs
      → length xs < b.cap
      → Held
          (write heap b ((h + length xs) % word_mod) (some task) b.ptr)
          b.cap
          h
          (xs ++ (task ∷ []))
  write-Held heap b {h = h} {xs = xs} task c le held room =
      subst (λ s. Held s b.cap h (xs ++ (task ∷ [])))
        (ap (λ k. put (heap b.ptr) k (some task)) (sym (buffer-slot b (h + length xs) c le))
          ∙ sym (write_own heap b ((h + length xs) % word_mod) (some task)))
        (Held-push held task room)

module _ {ℓ} {T : Type ℓ} (old new : Buffer) {e f : ℕ} (old_cap : old.cap ≡ 2 ^ e)
    (new_cap : new.cap ≡ 2 ^ f) (e_le : e ≤ 62) (f_le : f ≤ 62) (apart : old.ptr ≢ new.ptr) where
  -- The loop moves what is left of the window to the new buffer.
  copy_loop-Held :
      (fuel h : ℕ) (moved xs : List T) (heap : Heap T)
      → Held (heap new.ptr) new.cap h moved
      → Held (heap old.ptr) old.cap (h + length moved) xs
      → length moved + length xs ≤ new.cap
      → length xs < fuel
      → length xs < word_mod
      → let r =
          copy_loop fuel
            ((h + length moved) % word_mod)
            ((h + length moved + length xs) % word_mod)
            old
            new
            heap in
        Held (r new.ptr) new.cap h (moved ++ xs)
  unfolding copy_loop
  copy_loop-Held zero h moved xs heap done left room enough small = absurd (omega arith)
  copy_loop-Held (suc fuel) h moved [] heap done left room enough small =
      let stop : h + length moved + 0 ≡ h + length moved = omega arith in
      rw (stop, ==_refl, append-nil) done
  copy_loop-Held (suc fuel) h moved (x ∷ xs) heap done left room enough small =
      let next : h + length moved + 1 ≡ h + length (moved ++ (x ∷ [])) =
        omega (arith, length-snoc moved x) in
      let end : h + length moved + suc (length xs) ≡ h + length (moved ++ (x ∷ [])) + length xs =
        omega (arith, length-snoc moved x) in
      let snoc : moved ++ (x ∷ xs) ≡ (moved ++ (x ∷ [])) ++ xs =
        sym (append_assoc moved (x ∷ []) xs) in
      rw
        (
          word-apart (h + length moved) (suc (length xs)) (omega arith) small,
          read-head heap old old_cap e_le left,
          wrapping_add-word (h + length moved) 1,
          next,
          end,
          snoc,
        )
        (copy_loop-Held fuel h (moved ++ (x ∷ [])) xs
          (write heap new ((h + length moved) % word_mod) (some x))
          (write-Held heap new x new_cap f_le done (omega arith))
          (Held-move
            (subst (λ slots. Held slots old.cap (h + length moved + 1) xs)
              (sym (write_other heap new _ (some x) apart)) (Held-tail left))
            next)
          (omega (arith, length-snoc moved x)) (omega arith) (omega arith))

  -- It moves the whole window.
  pub copy-Held :
      (h : ℕ) (xs : List T) (heap : Heap T)
      → Held (heap old.ptr) old.cap h xs
      → length xs ≤ new.cap
      → length xs < word_mod
      → Held
          (copy_loop word_mod (h % word_mod) ((h + length xs) % word_mod) old new heap new.ptr)
          new.cap
          h
          xs
  copy-Held h xs heap held room small =
      let start : h + 0 ≡ h = omega arith in
      subst
        (λ k.
          Held (copy_loop word_mod (k % word_mod) ((k + length xs) % word_mod) old new heap new.ptr)
            new.cap h xs)
        start
        (copy_loop-Held word_mod h [] xs heap Held-nil (Held-move held (sym start)) (omega arith)
          small small)
