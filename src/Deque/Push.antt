-- ===== src/Deque/Push.antt =====
-- The length of a deque, and `Worker::push`.
use crossbeam.Prelude.{
  ℕ, suc, ◌+◌, ◌*◌, ◌%◌, ◌^◌, ◌≤◌, ◌<◌, ◌≡◌, refl, ap, ◌∙◌, arith, some, true, false, List, [], ◌∷◌,
  ◌++◌, length, length-snoc, word_mod, wrapping_add, leb, dec_lt,
}
use crossbeam.Prelude.Int.{pos, as_signed, as_signed-pos}
use crossbeam.Deque.Defs.{Deque, write, resize, signed_len, len, is_empty, push}
use crossbeam.Deque.Tickets.{wrapping_add-word, wrapping_sub-word}
use crossbeam.Deque.Invariant.{Represents, write-Held}
use crossbeam.Deque.Resize.{length-small, two_pow-small, two_pow-le, grow-Represents, Holds}

not_full : (e n : ℕ) → 2 ^ e ≤ n → n < 2 ^ 62 → e < 62
not_full e n full few = elim (dec_lt e 62) [
  | yes less ↦ less
  | no more ↦ absurd (omega (arith, two_pow-le 62 e (omega arith)))
]

module _ {ℓ} {T : Type ℓ} where
  module _ {e h : ℕ} {xs : List T} {d : Deque T} (rep : Represents e h xs d) where
    pub signed_len-lem : signed_len d ≡ pos (length xs)
    signed_len-lem =
        rw
          (
            rep.front_at,
            rep.back_at,
            wrapping_sub-word h (length xs) (omega (arith, length-small rep)),
          )
          (as_signed-pos (length xs) (omega (arith, length-small rep)))

    pub as_signed-cap : as_signed d.own.cap ≡ pos d.own.cap
    as_signed-cap = as_signed-pos d.own.cap (omega (arith, two_pow-small e rep.most, rep.cap_at))

    -- `len` is the number of the tasks, and `is_empty` tells whether it is 0.
    pub len-length : (len d ≡ length xs) × (is_empty d ≡ leb (length xs) 0)
    unfolding len is_empty
    len-length = (rw signed_len-lem refl, rw signed_len-lem refl)

    -- Writing the task after the last one and publishing it.
    append-Represents :
        (task : T)
        → length xs < d.own.cap
        → Represents e h (xs ++ (task ∷ [])) (record d {
          heap = write d.heap d.own d.back (some task);
          back = wrapping_add d.back 1;
        })
    append-Represents task room = record {
      cap_at = rep.cap_at;
      least = rep.least;
      most = rep.most;
      same = rep.same;
      allocated = rep.allocated;
      front_at = rep.front_at;
      back_at =
          ap (λ w. wrapping_add w 1) rep.back_at
          ∙ wrapping_add-word (h + length xs) 1
          ∙ ap (λ n. n % word_mod) (omega (arith, length-snoc xs task));
      room = omega (arith, length-snoc xs task);
      held = rw rep.back_at (write-Held d.heap d.own task rep.cap_at rep.most rep.held room);
    }

  module _ {e h : ℕ} {xs : List T} {d : Deque T} (rep : Represents e h xs d) where
    -- Where a deque holds fewer than `2 ^ 62` tasks, `push` puts the task behind them, whether the buffer is
    -- full and replaced or not, and keeps the deque well formed.
    pub push-Holds : (task : T) → length xs < 2 ^ 62 → Holds h (xs ++ (task ∷ [])) (push task d)
    unfolding push resize
    push-Holds task few = elim (dec_lt (length xs) d.own.cap) [
      | yes room ↦
          let stays : leb d.own.cap (length xs) ≡ false = ground arith in
          (e, rw (signed_len-lem rep, as_signed-cap rep, stays) (append-Represents rep task room))
      | no full ↦
          let grows : leb d.own.cap (length xs) ≡ true = ground arith in
          let less : e < 62 = not_full e (length xs) (omega (arith, rep.cap_at)) few in
          let grown : Represents (suc e) h xs (resize (2 * d.own.cap % word_mod) d) =
            grow-Represents rep less in
          let room : length xs < 2 * d.own.cap % word_mod = omega (
            arith,
            full,
            rep.cap_at,
            rep.room,
            two_pow-small e rep.most,
            two_pow-le 0 e (omega arith),
          ) in
          (
            suc e,
            rw (signed_len-lem rep, as_signed-cap rep, grows) (append-Represents grown task room),
          )
    ]
