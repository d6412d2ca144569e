-- ===== src/SkipList/Judge.antt =====
-- The searches of the code are of the two kinds.
use Prim.Native.Nat.Ordering.{lt, eq}
use crossbeam.Prelude.{◌≡◌, inl, inr, Bool, true, false, arith, Bool-cases}
use crossbeam.SkipList.Compare.{
  Comparator, is_ge, leq-lt, leq-eq, Bound, below_upper_bound, above_lower_bound-leq,
  below_upper_bound-leq,
}
use crossbeam.SkipList.Search.{judge_bound, judge_key}
use crossbeam.SkipList.Find.{IsKind, IsMonotone}

module _ {ℓ} {K : Type ℓ} ⦃o : Comparator K⦄ where
  pub judge_bound-IsMonotone : (b : Bound K) (upper : Bool) → IsMonotone (judge_bound b upper)
  unfolding judge_bound
  judge_bound-IsMonotone b true = λ x y h e. elim (Bool-cases (below_upper_bound b y)) [
    | inl below ↦ absurd (ground (arith, e, below_upper_bound-leq b x y h below))
    | inr above ↦ rw above
  ]
  judge_bound-IsMonotone b false = above_lower_bound-leq b

  pub judge_bound-IsKind : (b : Bound K) (upper : Bool) → IsKind (judge_bound b upper) upper
  unfolding judge_bound
  judge_bound-IsKind b true = λ k. ground arith
  judge_bound-IsKind b false = (λ k t. t, λ x y h t e. e)

  pub judge_key-IsMonotone : (key : K) → IsMonotone (judge_key key)
  unfolding judge_key
  judge_key-IsMonotone key x y h e = elim (Bool-cases (is_ge (o.compare y key))) [
    | inl g ↦ ground (arith, g)
    | inr f ↦
        let less : o.compare y key ≡ lt = ground (arith, f) in
        absurd (ground (arith, e, leq-lt x y key h less))
  ]

  pub judge_key-IsKind : (key : K) → IsKind (judge_key key) false
  unfolding judge_key
  judge_key-IsKind key = (
    λ k t. ground (arith, t),
    λ x y h t e.
        let same : o.compare y key ≡ eq = ground (arith, t) in
        ground (arith, e, leq-eq x y key h same),
  )
