-- ===== src/SkipList/Compare.antt =====
-- `Comparator` of crossbeam-skiplist/src/comparator.rs, with the laws of an order, and the two tests
-- of base.rs that compare a key with a bound.
use Prim.Native.Nat.{compare, Ordering}
use Prim.Native.Nat.Ordering.{lt, eq, gt}
use crossbeam.Prelude.{ℕ, ◌≡◌, refl, Bool, true, false, arith}

abbrev pub reverse : Ordering → Ordering
reverse lt = gt
reverse eq = eq
reverse gt = lt

abbrev pub is_ge : Ordering → Bool
is_ge lt = false
is_ge _ = true

abbrev pub is_gt : Ordering → Bool
is_gt gt = true
is_gt _ = false

abbrev pub is_le : Ordering → Bool
is_le gt = false
is_le _ = true

abbrev pub is_lt : Ordering → Bool
is_lt lt = true
is_lt _ = false

abbrev pub is_eq : Ordering → Bool
is_eq eq = true
is_eq _ = false

-- A comparison of keys, and that it is a total preorder.
pub record Comparator {ℓ} (K : Type ℓ) : Type ℓ where
  pub compare : K → K → Ordering
  pub flip : (a b : K) → compare b a ≡ reverse (compare a b)
  pub eq_left : (a b c : K) → compare a b ≡ eq → compare a c ≡ compare b c
  pub lt_trans : (a b c : K) → compare a b ≡ lt → compare b c ≡ lt → compare a c ≡ lt

instance unfoldable pub nat_comparator : Comparator ℕ
nat_comparator = record {
  compare = compare;
  flip = λ a b. ground arith;
  eq_left = λ a b c e. ground arith;
  lt_trans = λ a b c e f. ground arith;
}

pub data Bound {ℓ} (K : Type ℓ) : Type ℓ where
  unbounded : Bound K
  included : K → Bound K
  excluded : K → Bound K

module _ {ℓ} {K : Type ℓ} ⦃o : Comparator K⦄ where
  -- The derived `Equivalator::equivalent`.
  abbrev pub equivalent : K → K → Bool
  equivalent a b = is_eq (o.compare a b)

  unfoldable pub above_lower_bound : Bound K → K → Bool
  above_lower_bound unbounded other = true
  above_lower_bound (included key) other = is_ge (o.compare other key)
  above_lower_bound (excluded key) other = is_gt (o.compare other key)

  unfoldable pub below_upper_bound : Bound K → K → Bool
  below_upper_bound unbounded other = true
  below_upper_bound (included key) other = is_le (o.compare other key)
  below_upper_bound (excluded key) other = is_lt (o.compare other key)

  -- `a` is not above `b`.
  abbrev pub leq : K → K → Bool
  leq a b = is_le (o.compare a b)

  -- What follows in the order from the laws.
  pub leq-lt : (a b c : K) → leq a b ≡ true → o.compare b c ≡ lt → o.compare a c ≡ lt
  leq-lt a b c h e = ground (arith, h, e, o.eq_left a b c, o.lt_trans a b c)

  pub leq-eq : (a b c : K) → leq a b ≡ true → o.compare b c ≡ eq → leq a c ≡ true
  leq-eq a b c h e = ground (arith, h, e, o.eq_left b c a, o.flip a b, o.flip c a)

  pub leq_trans : (a b c : K) → leq a b ≡ true → leq b c ≡ true → leq a c ≡ true
  leq_trans a b c h g = ground (arith, h, g, leq-lt a b c h, leq-eq a b c h)

  pub compare_refl : (a : K) → o.compare a a ≡ eq
  compare_refl a = ground (arith, o.flip a a)

  -- A bound is crossed once along the order.
  pub above_lower_bound-leq :
      (b : Bound K) (x y : K)
      → leq x y ≡ true
      → above_lower_bound b x ≡ true
      → above_lower_bound b y ≡ true
  unfolding above_lower_bound
  above_lower_bound-leq unbounded x y h a = refl
  above_lower_bound-leq (included k) x y h a = ground (arith, h, a, leq-lt x y k h)
  above_lower_bound-leq (excluded k) x y h a = ground (arith, h, a, leq-lt x y k h, leq-eq x y k h)

  pub below_upper_bound-leq :
      (b : Bound K) (x y : K)
      → leq x y ≡ true
      → below_upper_bound b y ≡ true
      → below_upper_bound b x ≡ true
  unfolding below_upper_bound
  below_upper_bound-leq unbounded x y h a = refl
  below_upper_bound-leq (included k) x y h a = leq_trans x y k h a
  below_upper_bound-leq (excluded k) x y h a = ground (arith, h, a, leq-lt x y k h)
