-- ===== src/Deque/BatchLimit.antt =====
-- `Stealer::steal_batch_with_limit` as a whole.
use crossbeam.Prelude.{
  ℕ, suc, ◌+◌, ◌/◌, ◌^◌, ◌≤◌, ◌≡◌, ◌≢◌, refl, sym, ap, subst, ◌∙◌, arith, none, some, false, List,
  [], ◌∷◌, ◌++◌, length, ne→==,
}
use crossbeam.Prelude.Int.{pos, leb_int, to_nat}
use crossbeam.Deque.Defs.{Deque, signed_len, reserve}
use crossbeam.Deque.Invariant.{Represents}
use crossbeam.Deque.Push.{signed_len-lem}
use crossbeam.Deque.Reserve.{reserve-Holds}
use crossbeam.Deque.Batch.{finished, panicked, min, batch_from, steal_batch_with_limit}
use crossbeam.Deque.BatchSteal.{Takes, batch_from-Takes}
use crossbeam.Deque.Steal.{empty}

module _ {ℓ} {T : Type ℓ} {e h : ℕ} {source dest : Deque T} where
  -- A batch of an empty source is `Empty`, and neither deque changes.
  pub steal_batch-empty :
      (limit : ℕ)
      → Represents e h [] source
      → limit ≢ 0
      → steal_batch_with_limit limit source dest ≡ finished empty source dest
  unfolding steal_batch_with_limit
  steal_batch-empty limit rep positive = rw (ne→== limit 0 positive, signed_len-lem rep) refl

  -- A batch of a source that is not empty takes half of the tasks, rounded up, or as many as the limit
  -- says, from its front. They are put at the back of the destination in their order where the flavors are
  -- the same, and in reverse where they differ; the destination is given room for them, where it holds at
  -- most `2 ^ 62` tasks then.
  pub steal_batch-Takes :
      {f k : ℕ} {ys : List T} (limit : ℕ) (x : T) (taken rest : List T)
      → Represents e h ((x ∷ taken) ++ rest) source
      → Represents f k ys dest
      → limit ≢ 0
      → suc (length taken) ≡ min ((length ((x ∷ taken) ++ rest) + 1) / 2) limit
      → suc (length taken) + length ys ≤ 2 ^ 62
      → Takes h
          (x ∷ taken)
          rest
          k
          ys
          source.flavor
          dest.flavor
          (steal_batch_with_limit limit source dest)
  unfolding steal_batch_with_limit
  steal_batch-Takes {k = k} {ys} limit x taken rest rep_s rep_d positive size fits =
      let (dest', f', reserved, rep', room, flavor) =
        reserve-Holds rep_d (suc (length taken)) fits in
      let step = batch_from-Takes x taken rest rep_s rep' room source.flavor in
      let more : leb_int (signed_len source) (pos 0) ≡ false =
        rw (signed_len-lem rep_s) (ground arith) in
      let half : min ((to_nat (signed_len source) + 1) / 2) limit ≡ suc (length taken) =
        ap (λ l. min ((to_nat l + 1) / 2) limit) (signed_len-lem rep_s) ∙ sym size in
      let call : steal_batch_with_limit limit source dest
          ≡ batch_from source.flavor (suc (length taken)) source dest' =
        rw (steal_batch_with_limit, ne→== limit 0 positive, more)
          (ap
              (λ n. elim (reserve n dest) [
                | none ↦ panicked
                | some d ↦ batch_from source.flavor n source d
              ])
              half
            ∙ ap
                (λ o. elim o [
                  | none ↦ panicked
                  | some d ↦ batch_from source.flavor (suc (length taken)) source d
                ])
                reserved) in
      subst (Takes h (x ∷ taken) rest k ys source.flavor dest.flavor) (sym call) (
        subst
          (λ g.
            Takes h (x ∷ taken) rest k ys source.flavor g
              (batch_from source.flavor (suc (length taken)) source dest'))
          flavor step)
