-- ===== src/Deque/Window.antt =====
-- The slots of a circular array from a ticket on.
use native.Mathlib.Nat.{mod-mod_of_dvd, dvd_refl, dvd-mul_right_of_dvd, pow-suc}
use crossbeam.Prelude.{
  ℕ, zero, suc, ◌+◌, ◌-◌, ◌%◌, ◌^◌, ◌≤◌, ◌<◌, ◌≡◌, ◌≢◌, ◌⊎◌, refl, sym, ap, subst, ◌∙◌, arith,
  Option, some, List, [], ◌∷◌, ◌++◌, length, get_elem?, get_elem?-lt, if◌then◌else◌, ◌==◌, ==_refl,
  ne→==, inl, inr, word_mod,
}
use Prim.Native.Nat.{◌∣◌}
use crossbeam.Stamp.{slot-injective}

-- Powers of two divide one another.
two_pow-dvd : (j k : ℕ) → 2 ^ k ∣ 2 ^ (j + k)
two_pow-dvd zero k =
    let e : k ≡ 0 + k = omega arith in subst (λ n. 2 ^ k ∣ 2 ^ n) e (dvd_refl (2 ^ k))
two_pow-dvd (suc j) k =
    let e : suc (j + k) ≡ suc j + k = omega arith in
    subst (λ n. 2 ^ k ∣ 2 ^ n) e
      (rw (pow-suc 2 (j + k)) (dvd-mul_right_of_dvd (2 ^ k) (two_pow-dvd j k) 2))

-- The slot of a word is the slot of its ticket.
pub word-slot : (e p : ℕ) → e ≤ 64 → p % word_mod % 2 ^ e ≡ p % 2 ^ e
word-slot e p le =
    let sum : 64 - e + e ≡ 64 = omega arith in
    mod-mod_of_dvd (2 ^ e) p (subst (λ n. 2 ^ e ∣ 2 ^ n) sum (two_pow-dvd (64 - e) e))

-- The slots from the ticket `h` on hold the list.
pub record Held {ℓ} {T : Type ℓ} (slots : ℕ → Option T) (cap h : ℕ) (xs : List T) : Type ℓ where
  pub at : (i : ℕ) (x : T) → get_elem? xs i ≡ some x → slots ((h + i) % cap) ≡ some x

module _ {ℓ} {T : Type ℓ} where
  module _ {slots : ℕ → Option T} {cap : ℕ} where
    pub Held-nil : {h : ℕ} → Held {T = T} slots cap h []
    Held-nil = record { at = λ i x e. absurd (cc) }

    -- The same window, written from an equal ticket.
    pub Held-move : {h k : ℕ} {xs : List T} → Held slots cap h xs → h ≡ k → Held slots cap k xs
    Held-move {xs = xs} held e = subst (λ p. Held slots cap p xs) e held

    pub Held-head :
        {h : ℕ} {x : T} {xs : List T} → Held slots cap h (x ∷ xs) → slots (h % cap) ≡ some x
    Held-head {h} {x} held = ap (λ p. slots (p % cap)) (omega arith) ∙ held.at 0 x refl

    pub Held-tail :
        {h : ℕ} {x : T} {xs : List T} → Held slots cap h (x ∷ xs) → Held slots cap (h + 1) xs
    Held-tail {h} held = record {
      at = λ i y e. ap (λ p. slots (p % cap)) (omega arith) ∙ held.at (suc i) y e;
    }

    pub Held-cons :
        {h : ℕ} {x : T} {xs : List T}
        → slots (h % cap) ≡ some x
        → Held slots cap (h + 1) xs
        → Held slots cap h (x ∷ xs)
    Held-cons {h} {x} {xs} first rest = record { at = here }
      where
        here : (i : ℕ) (y : T) → get_elem? (x ∷ xs) i ≡ some y → slots ((h + i) % cap) ≡ some y
        here zero y e = ap (λ p. slots (p % cap)) (omega arith) ∙ first ∙ e
        here (suc i) y e = ap (λ p. slots (p % cap)) (omega arith) ∙ rest.at i y e

    pub Held-append :
        (xs : List T) {h : ℕ} {ys : List T}
        → Held slots cap h xs
        → Held slots cap (h + length xs) ys
        → Held slots cap h (xs ++ ys)
    Held-append [] {h} a b = Held-move b (omega arith)
    Held-append (x ∷ xs) {h} a b =
        Held-cons (Held-head a) (Held-append xs (Held-tail a) (Held-move b (omega arith)))

    pub Held-init : (xs ys : List T) {h : ℕ} → Held slots cap h (xs ++ ys) → Held slots cap h xs
    Held-init [] ys a = Held-nil
    Held-init (x ∷ xs) ys a = Held-cons (Held-head a) (Held-init xs ys (Held-tail a))

    pub Held-drop :
        (xs : List T) {h : ℕ} {ys : List T}
        → Held slots cap h (xs ++ ys)
        → Held slots cap (h + length xs) ys
    Held-drop [] {h} a = Held-move a (omega arith)
    Held-drop (x ∷ xs) {h} a = Held-move (Held-drop xs (Held-tail a)) (omega arith)

  -- The slots with one of them set.
  abbrev pub put : (ℕ → Option T) → ℕ → Option T → ℕ → Option T
  put slots k task i = if i == k then task else slots i

  module _ {slots : ℕ → Option T} {cap h : ℕ} {xs : List T} (held : Held slots cap h xs) where
    -- A write to the slot of a ticket outside the window, less than a lap away, leaves the window.
    pub Held-put :
        (p : ℕ) (task : Option T)
        → length xs ≤ cap
        → (h + length xs ≤ p) × (p < h + cap) ⊎ (p < h) × (h + length xs ≤ p + cap)
        → Held (put slots (p % cap) task) cap h xs
    Held-put p task room out = record {
      at = λ i x e. rw (ne→== _ _ (apart i (get_elem?-lt xs i x e))) (held.at i x e);
    }
      where
        apart : (i : ℕ) → i < length xs → (h + i) % cap ≢ p % cap
        apart i lt same = elim out [
          | inl (after, near) ↦ absurd (
              omega (
                arith,
                slot-injective cap (h + i) p (omega arith) (omega arith) (omega arith) same,
              ))
          | inr (before, near) ↦ absurd (
              omega (
                arith,
                slot-injective cap p (h + i) (omega arith) (omega arith) (omega arith) (sym same),
              ))
        ]

    -- Writing the slot after the window appends to it.
    pub Held-push :
        (task : T)
        → length xs < cap
        → Held (put slots ((h + length xs) % cap) (some task)) cap h (xs ++ (task ∷ []))
    Held-push task room =
        Held-append xs
          (Held-put (h + length xs) (some task) (omega arith) (inl (omega arith, omega arith)))
          (Held-cons (rw ==_refl) Held-nil)

    -- Writing the slot before the window puts the task in front.
    pub Held-unshift :
        (k : ℕ) (task : T)
        → h ≡ k + 1
        → length xs < cap
        → Held (put slots (k % cap) (some task)) cap k (task ∷ xs)
    Held-unshift k task next room =
        Held-cons (rw ==_refl)
          (Held-move (Held-put k (some task) (omega arith) (inr (omega arith, omega arith))) next)
