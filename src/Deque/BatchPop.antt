-- ===== src/Deque/BatchPop.antt =====
-- `Stealer::steal_batch_with_limit_and_pop` as a whole.
use crossbeam.Prelude.{
  ℕ, suc, ◌+◌, ◌-◌, ◌/◌, ◌%◌, ◌^◌, ◌≤◌, ◌≡◌, ◌≢◌, refl, sym, ap, subst, ◌∙◌, arith, none, some,
  false, List, [], ◌∷◌, ◌++◌, length, length-append, length-snoc, ne→==, ==_refl, word_mod,
  wrapping_add,
}
use crossbeam.Prelude.Int.{pos, leb_int, to_nat}
use crossbeam.Deque.Defs.{Deque, Flavor, fifo, lifo, signed_len, reserve, read}
use crossbeam.Deque.Tickets.{wrapping_add-word}
use crossbeam.Deque.Invariant.{Represents}
use crossbeam.Deque.Resize.{Holds}
use crossbeam.Deque.Push.{signed_len-lem}
use crossbeam.Deque.Pop.{advance-Represents, read-front}
use crossbeam.Deque.Reserve.{reserve-Holds}
use crossbeam.Deque.Spec.{split_last, split_last-append}
use crossbeam.Deque.Batch.{
  BatchResult, finished, panicked, min, copy_batch, reversed, lifo_pop_loop, batch_pop_from,
  steal_batch_with_limit_and_pop,
}
use crossbeam.Deque.BatchLoop.{commit-some, TookAll}
use crossbeam.Deque.BatchPopLoop.{lifo_pop_loop-whole}
use crossbeam.Deque.BatchSteal.{
  arranged, length-arranged, advance_by-Represents, filled-Represents, copy_batch-Held,
  reversed-Held,
}
use crossbeam.Deque.Steal.{success}

module _ {ℓ} {T : Type ℓ} where
  -- Of the tasks that were stolen, the one that is returned and those that are put in the destination.
  abbrev pub picked : Flavor → T → List T → T × List T
  picked fifo x taken = (x, taken)
  picked lifo x taken = split_last x taken

  pub record BatchPopped (h : ℕ) (x : T) (taken rest : List T) (k : ℕ) (ys : List T) (a b : Flavor)
      (source dest : Deque T) : Type ℓ where
    pub source_holds : Holds (h + suc (length taken)) rest source
    pub dest_holds : Holds k (ys ++ arranged a b (picked a x taken).1) dest

  abbrev pub Pops :
      ℕ → T → List T → List T → ℕ → List T → Flavor → Flavor → BatchResult T T → Type ℓ
  Pops h x taken rest k ys a b r =
      (source' : Deque T) × (dest' : Deque T) × (r
        ≡ finished (success (picked a x taken).0) source' dest')
      × BatchPopped h x taken rest k ys a b source' dest'

  length-before : (x : T) (taken : List T) → length (split_last x taken).1 ≡ length taken
  length-before x taken = omega (
    arith,
    ap length (split_last-append x taken),
    length-snoc (split_last x taken).1 (split_last x taken).0,
  )

  module _ {e h f k : ℕ} {ys : List T} {source dest : Deque T} (x : T) (taken rest : List T)
      (rep_s : Represents e h (x ∷ (taken ++ rest)) source) (rep_d : Represents f k ys dest)
      (room : length ys + length taken ≤ dest.own.cap) where
    shared_read : read source.heap source.shared source.front ≡ some x
    shared_read = ap (λ b. read source.heap b source.front) rep_s.same ∙ read-front rep_s

    batch_pop_from-fifo :
        Pops h x taken rest k ys fifo dest.flavor (batch_pop_from fifo (length taken) source dest)
    unfolding batch_pop_from
    batch_pop_from-fifo =
        let n = length taken in
        let zs = arranged fifo dest.flavor taken in
        let count : length zs ≡ n = length-arranged fifo dest.flavor taken in
        let one_more : suc n ≡ n + 1 = omega arith in
        (
          record source { front = wrapping_add source.front (n + 1) },
          record dest {
            heap = copy_batch dest.flavor n 1 source dest;
            back = wrapping_add dest.back n;
          },
          rw (batch_pop_from, commit-some (n + 1) source, shared_read) refl,
          record {
            source_holds = (
              e,
              subst
                  (λ m.
                    Represents e (h + suc n) rest
                      (record source { front = wrapping_add source.front m }))
                  one_more (advance_by-Represents (x ∷ taken) rep_s),
            );
            dest_holds = (
              f,
              filled-Represents zs rep_d (omega (arith, count))
                  (ap (λ w. wrapping_add w n) rep_d.back_at
                    ∙ wrapping_add-word (k + length ys) n
                    ∙ ap (λ p. p % word_mod) (omega (arith, count, length-append ys zs)))
                  (copy_batch-Held dest.flavor 1 (x ∷ []) taken rest refl rep_s rep_d room),
            );
          },
        )

    batch_pop_from-lifo :
        Pops h x taken rest k ys lifo dest.flavor (batch_pop_from lifo (length taken) source dest)
    unfolding batch_pop_from
    batch_pop_from-lifo =
        let n = length taken in
        let before = (split_last x taken).1 in
        let source₁ : Deque T = record source { front = wrapping_add source.front 1 } in
        let moved =
          lifo_pop_loop n 0 (wrapping_add source.front 1) dest.back source.shared source₁ dest.own
            dest.heap (some x) in
        let zs = arranged lifo dest.flavor before in
        let same_count : length before ≡ n = length-before x taken in
        let count : length zs ≡ length before = length-arranged lifo dest.flavor before in
        let whole =
          lifo_pop_loop-whole dest.own rep_d.cap_at rep_d.most k ys x taken rest source₁ dest.heap
            (advance-Represents rep_s) rep_d.back_at rep_d.held room in
        let took : TookAll e (h + 1 + n) k dest.own (ys ++ before) rest (length before) moved =
          subst (λ m. TookAll e (h + 1 + n) k dest.own (ys ++ before) rest m moved) (sym same_count)
            whole.0 in
        let ticket : h + 1 + n ≡ h + suc n = omega arith in
        (
          moved.source,
          record dest { heap = reversed dest.flavor moved dest.own; back = moved.dest_b },
          rw (batch_pop_from, ==_refl, shared_read, whole.1) refl,
          record {
            source_holds =
                (e, subst (λ p. Represents e p rest moved.source) ticket took.source_holds);
            dest_holds = (
              f,
              filled-Represents zs rep_d (omega (arith, count, same_count))
                  (took.dest_b_at
                    ∙ ap (λ p. p % word_mod)
                        (omega (arith, count, length-append ys zs, length-append ys before)))
                  (reversed-Held dest.flavor (h + 1 + n) before rest moved rep_d took
                    (omega (arith, same_count))),
            );
          },
        )

    batch_pop_from-Pops :
        (a : Flavor)
        → Pops h x taken rest k ys a dest.flavor (batch_pop_from a (length taken) source dest)
    batch_pop_from-Pops fifo = batch_pop_from-fifo
    batch_pop_from-Pops lifo = batch_pop_from-lifo

  -- A batch with a pop of a source that is not empty takes from its front, besides one task, half of the
  -- others, rounded down, or one less than the limit says. A FIFO source gives the first of them back and a
  -- LIFO source the last; the others are put at the back of the destination, in their order where the
  -- flavors are the same, and in reverse where they differ. The destination is given room for them, where
  -- it holds at most `2 ^ 62` tasks then.
  pub steal_batch_and_pop-Pops :
      {e h f k : ℕ} {ys : List T} {source dest : Deque T} (limit : ℕ) (x : T) (taken rest : List T)
      → Represents e h (x ∷ (taken ++ rest)) source
      → Represents f k ys dest
      → limit ≢ 0
      → length taken ≡ min ((length (x ∷ (taken ++ rest)) - 1) / 2) (limit - 1)
      → length taken + length ys ≤ 2 ^ 62
      → Pops h x taken rest k ys source.flavor dest.flavor
          (steal_batch_with_limit_and_pop limit source dest)
  unfolding steal_batch_with_limit_and_pop
  steal_batch_and_pop-Pops {h = h} {k = k} {ys} {source} {dest} limit x taken rest rep_s rep_d
        positive size fits =
      let (dest', f', reserved, rep', room, flavor) = reserve-Holds rep_d (length taken) fits in
      let step = batch_pop_from-Pops x taken rest rep_s rep' room source.flavor in
      let more : leb_int (signed_len source) (pos 0) ≡ false =
        rw (signed_len-lem rep_s) (ground arith) in
      let half : min ((to_nat (signed_len source) - 1) / 2) (limit - 1) ≡ length taken =
        ap (λ l. min ((to_nat l - 1) / 2) (limit - 1)) (signed_len-lem rep_s) ∙ sym size in
      let call : steal_batch_with_limit_and_pop limit source dest
          ≡ batch_pop_from source.flavor (length taken) source dest' =
        rw (steal_batch_with_limit_and_pop, ne→== limit 0 positive, more)
          (ap
              (λ n. elim (reserve n dest) [
                | none ↦ panicked
                | some d ↦ batch_pop_from source.flavor n source d
              ])
              half
            ∙ ap
                (λ o. elim o [
                  | none ↦ panicked
                  | some d ↦ batch_pop_from source.flavor (length taken) source d
                ])
                reserved) in
      subst (Pops h x taken rest k ys source.flavor dest.flavor) (sym call) (
        subst
          (λ g.
            Pops h x taken rest k ys source.flavor g
              (batch_pop_from source.flavor (length taken) source dest'))
          flavor step)
