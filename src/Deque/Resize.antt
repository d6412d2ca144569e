-- ===== src/Deque/Resize.antt =====
-- `Worker::resize`.
use native.Mathlib.Nat.{pow-le-pow_right, two-pow-succ}
use crossbeam.Prelude.{
  ℕ, suc, ◌*◌, ◌/◌, ◌%◌, ◌^◌, ◌≤◌, ◌<◌, ◌≡◌, ◌≢◌, refl, sym, subst, arith, List, length, dec_lt,
  ne→==, word_mod,
}
use mathlib.Core.Path.{fun_ext}
use crossbeam.Deque.Defs.{Deque, alloc, resize}
use crossbeam.Deque.Window.{Held}
use crossbeam.Deque.Invariant.{Represents, copy-Held}

pub two_pow-le : (j k : ℕ) → j ≤ k → 2 ^ j ≤ 2 ^ k
two_pow-le j k le = pow-le-pow_right (omega arith) le

-- The sizes of buffers stay below `2 ^ 62`.
pub two_pow-small : (e : ℕ) → e ≤ 62 → 2 ^ e ≤ 2 ^ 62
two_pow-small e le = two_pow-le e 62 le

module _ {ℓ} {T : Type ℓ} {e h : ℕ} {xs : List T} {d : Deque T} (rep : Represents e h xs d) where
  pub length-small : length xs ≤ 2 ^ 62
  length-small = omega (arith, two_pow-small e rep.most, rep.room, rep.cap_at)

  -- The new buffer is apart from the old one, and its allocation leaves the old one as it is.
  apart : d.own.ptr ≢ d.next_ptr
  apart same = omega (arith, rep.allocated, same)

  kept : (cap : ℕ) → Held ((alloc cap d).1.heap d.own.ptr) d.own.cap h xs
  kept cap =
      subst (λ slots. Held slots d.own.cap h xs) (fun_ext λ i. sym (rw (ne→== _ _ apart) refl))
        rep.held

  -- Resizing a well-formed deque to `2 ^ e'` slots, `6 ≤ e' ≤ 62`, that are enough for its tasks keeps it
  -- well formed with the same tasks in the same order.
  pub resize-Represents :
      (e' : ℕ) → 6 ≤ e' → e' ≤ 62 → length xs ≤ 2 ^ e' → Represents e' h xs (resize (2 ^ e') d)
  unfolding resize
  resize-Represents e' least most room = record {
    cap_at = refl;
    least = least;
    most = most;
    same = refl;
    allocated = omega arith;
    front_at = rep.front_at;
    back_at = rep.back_at;
    room = room;
    held =
        rw (rep.front_at, rep.back_at)
          (copy-Held d.own (record { ptr = d.next_ptr; cap = 2 ^ e' }) rep.cap_at refl rep.most most
            apart h xs ((alloc (2 ^ e') d).1.heap) (kept (2 ^ e')) room
            (omega (arith, length-small)));
  }

least : (e : ℕ) → 64 < 2 ^ suc e → 6 ≤ e
least e large = elim (dec_lt e 6) [
  | yes lt ↦ absurd (omega (arith, large, two_pow-le (suc e) 6 (omega arith)))
  | no ge ↦ omega arith
]

-- A deque that holds `xs`, the first of which has the ticket `h`, in a buffer of some size.
abbrev pub Holds {ℓ} : {T : Type ℓ} → ℕ → List T → Deque T → Type ℓ
Holds h xs d = (e : ℕ) × Represents e h xs d

module _ {ℓ} {T : Type ℓ} where
  -- Doubling the buffer.
  pub grow-Represents :
      {e h : ℕ} {xs : List T} {d : Deque T}
      → Represents e h xs d
      → e < 62
      → Represents (suc e) h xs (resize (2 * d.own.cap % word_mod) d)
  grow-Represents {e} {h} {xs} {d} rep less =
      let twice : 2 ^ (suc e) ≡ 2 * d.own.cap % word_mod =
        omega (arith, two-pow-succ e, two_pow-small e rep.most, rep.cap_at) in
      subst (λ c. Represents (suc e) h xs (resize c d)) twice
        (resize-Represents rep (suc e) (omega (arith, rep.least)) (omega arith)
          (omega (arith, two-pow-succ e, rep.room, rep.cap_at)))

  -- Halving a buffer of more than the least size.
  pub shrink-Represents :
      (e : ℕ) {h : ℕ} {xs : List T} {d : Deque T}
      → Represents (suc e) h xs d
      → 64 < d.own.cap
      → length xs ≤ d.own.cap / 2
      → Represents e h xs (resize (d.own.cap / 2) d)
  shrink-Represents e {h} {xs} {d} rep large few =
      let half : 2 ^ e ≡ d.own.cap / 2 = omega (arith, two-pow-succ e, rep.cap_at) in
      subst (λ c. Represents e h xs (resize c d)) half
        (resize-Represents rep e (least e (rw (← rep.cap_at) large)) (omega (arith, rep.most))
          (omega arith))
