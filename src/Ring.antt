-- ===== src/Ring.antt =====
-- The buffer that `crossbeam-queue/src/array_queue.rs` and
-- `crossbeam-channel/src/flavors/array.rs` share in shape: slots with a stamp and a value, written
-- at the tail and read at the head. The buffer is a function of the index; an index from the
-- capacity on names no slot.
use crossbeam.Prelude.{
  ℕ, suc, ◌+◌, ◌%◌, ◌≤◌, ◌<◌, ◌≡◌, ◌≢◌, sym, arith, Option, some, List, [], ◌∷◌, ◌++◌, length,
  get_elem?, get_elem?-lt, get_elem?-snoc, length-snoc, if◌then◌else◌, ◌==◌, dec_lt, ==_refl, ne→==,
  inl, inr,
}
use native.Mathlib.Nat.{add-mod_right}
use mathlib.Core.Path.{fun_ext}
use crossbeam.Stamp.{slot-injective}

-- `Slot`; a value of `none` is uninitialised memory.
pub record Slot {ℓ} (A : Type ℓ) : Type ℓ where
  pub stamp : ℕ
  pub value : Option A

abbrev pub Buffer {ℓ} : Type ℓ → Type ℓ
Buffer A = ℕ → Slot A

abbrev pub update {ℓ} : {A : Type ℓ} → Buffer A → ℕ → Slot A → Buffer A
update buffer i s j = if i == j then s else buffer j

-- A buffer of `cap` slots holds `xs`, of which the oldest has the ticket `h`: a slot that holds an
-- element has the stamp after its ticket's, a free one that of the ticket to be written there next.
pub record Holds {ℓ} {A : Type ℓ} (stamp_of : ℕ → ℕ) (cap h : ℕ) (xs : List A) (buffer : Buffer A)
    : Type ℓ where
  pub room : length xs ≤ cap
  pub taken :
      (i : ℕ) (x : A)
      → get_elem? xs i ≡ some x
      → buffer ((h + i) % cap) ≡ record { stamp = stamp_of (h + i) + 1; value = some x }
  pub free : (p : ℕ) → h + length xs ≤ p → p < h + cap → (buffer (p % cap)).stamp ≡ stamp_of p

module _ {ℓ} {A : Type ℓ} where
  -- The second of two writes to a slot counts.
  pub update-update :
      (buffer : Buffer A) {i j : ℕ} (s t : Slot A)
      → i ≡ j
      → update (update buffer i s) j t ≡ update buffer j t
  update-update buffer {i} {j} s t e = fun_ext λ k. ground arith

  module _ {stamp_of : ℕ → ℕ} {cap h : ℕ} {buffer : Buffer A} where
    -- Writing the slot of the next ticket appends.
    pub Holds-write :
        {xs : List A} (v : A)
        → Holds stamp_of cap h xs buffer
        → length xs < cap
        → Holds stamp_of cap h (xs ++ (v ∷ [])) (
            update buffer
              ((h + length xs) % cap)
              (record { stamp = stamp_of (h + length xs) + 1; value = some v }))
    Holds-write {xs} v held lt = record {
      room = omega (arith, length-snoc xs v);
      taken = λ i x e. elim (get_elem?-snoc xs v i x e) [
        | inl old ↦
            rw (ne→== _ _ (apart (h + i) (omega arith) (omega (arith, get_elem?-lt xs i x old))))
              (held.taken i x old)
        | inr (at_end, same) ↦ rw (at_end, ==_refl, ← same)
      ];
      free = λ p low high.
          rw (ne→== _ _ (apart' p (omega (arith, length-snoc xs v)) (omega arith)))
            (held.free p (omega (arith, length-snoc xs v)) high);
    }
      where
        apart : (p : ℕ) → h ≤ p → p < h + length xs → (h + length xs) % cap ≢ p % cap
        apart p l r e = absurd (
            omega (
              arith,
              slot-injective cap p (h + length xs) (omega arith) (omega arith) (omega arith)
                  (sym e),
            ))

        apart' : (p : ℕ) → h + length xs < p → p < h + cap → (h + length xs) % cap ≢ p % cap
        apart' p l r e = absurd (
            omega (
              arith,
              slot-injective cap (h + length xs) p (omega arith) (omega arith) (omega arith) e,
            ))

    -- Freeing the slot of the oldest ticket removes it.
    pub Holds-read :
        {x : A} {xs : List A} (old : Option A)
        → Holds stamp_of cap h (x ∷ xs) buffer
        → Holds stamp_of cap
            (h + 1)
            xs
            (update buffer (h % cap) (record { stamp = stamp_of (h + cap); value = old }))
    Holds-read {x} {xs} old held = record {
      room = omega (arith, held.room);
      taken = λ i y e.
          rw
            (
              shift i,
              ne→== _ _ (
                  apart (h + suc i) (omega arith)
                    (omega (arith, held.room, get_elem?-lt xs i y e))),
            )
            (held.taken (suc i) y e);
      free = λ p low high. elim (dec_lt p (h + cap)) [
        | yes lt ↦ rw (ne→== _ _ (apart p (omega arith) lt)) (held.free p (omega arith) lt)
        | no ge ↦ rw (last p high ge, add-mod_right, ==_refl)
      ];
    }
      where
        shift : (i : ℕ) → h + 1 + i ≡ h + suc i
        shift i = omega arith

        last : (p : ℕ) → p < h + 1 + cap → ¬ (p < h + cap) → p ≡ h + cap
        last p l r = omega arith

        apart : (p : ℕ) → h < p → p < h + cap → h % cap ≢ p % cap
        apart p l r e =
            absurd
              (omega (arith, slot-injective cap h p (omega (arith, held.room)) (omega arith) r e))
