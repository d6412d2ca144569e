-- ===== src/Deque/Tickets.antt =====
-- Indices as words of tickets that are never wrapped.
use native.Mathlib.Nat.{mod-add-mod}
use crossbeam.Prelude.{
  ℕ, suc, ◌-◌, ap, ◌∙◌, ◌+◌, ◌%◌, ◌<◌, ◌≡◌, arith, false, ◌==◌, ne→==, word_mod, wrapping_add,
  wrapping_sub,
}

pub wrapping_add-word : (p n : ℕ) → wrapping_add (p % word_mod) n ≡ (p + n) % word_mod
wrapping_add-word p n = mod-add-mod p word_mod n

pub wrapping_sub-word :
    (p n : ℕ) → n < word_mod → wrapping_sub ((p + n) % word_mod) (p % word_mod) ≡ n
wrapping_sub-word p n small = omega arith

-- Tickets less than a lap apart have different words.
pub word-apart : (p n : ℕ) → 0 < n → n < word_mod → (p % word_mod == (p + n) % word_mod) ≡ false
word-apart p n some_apart small = ne→== _ _ (λ same. omega arith)

pub wrapping_sub_one-word : (p : ℕ) → wrapping_sub ((p + 1) % word_mod) 1 ≡ p % word_mod
wrapping_sub_one-word p = omega arith

pub wrapping_sub-back :
    (p n : ℕ) → n < word_mod → wrapping_sub ((p + n) % word_mod) n ≡ p % word_mod
wrapping_sub-back p n small = omega arith

-- The two indices that a turn of the reversal exchanges, the ends of `m + 2` tasks from the ticket `p` on.
pub turn-first :
    (p m size i : ℕ)
    → size ≡ i + suc (m + 1) + i
    → size < word_mod
    → wrapping_sub ((p + suc (m + 1) + i) % word_mod) (size - i) ≡ p % word_mod
turn-first p m size i s small =
    let e : p + suc (m + 1) + i ≡ p + (size - i) = omega arith in
    ap (λ q. wrapping_sub (q % word_mod) (size - i)) e
    ∙ wrapping_sub-back p (size - i) (omega arith)

pub turn-last :
    (p m size i : ℕ)
    → size ≡ i + suc (m + 1) + i
    → size < word_mod
    → wrapping_sub ((p + suc (m + 1) + i) % word_mod) (i + 1) ≡ (p + suc m) % word_mod
turn-last p m size i s small =
    let e : p + suc (m + 1) + i ≡ p + suc m + (i + 1) = omega arith in
    ap (λ q. wrapping_sub (q % word_mod) (i + 1)) e
    ∙ wrapping_sub-back (p + suc m) (i + 1) (omega arith)
