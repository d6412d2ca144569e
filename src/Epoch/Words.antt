-- ===== src/Epoch/Words.antt =====
-- The epoch as an unbounded ticket, and how its word tells how far apart two epochs are.
use crossbeam.Prelude.{
  ℕ, ◌+◌, ◌-◌, ◌*◌, ◌/◌, ◌%◌, ◌^◌, ◌≤◌, ◌<◌, ◌≡◌, sym, ap, ◌∙◌, arith, true, word_mod, wrapping_sub,
  dec_lt,
}
use crossbeam.Prelude.Int.{pos, halve, as_signed}
use crossbeam.Epoch.Defs.{is_pinned, pinned, unpinned, successor, distance, SealedBag, is_expired}

-- The word of the `n`-th epoch.
abbrev pub epoch_at : ℕ → ℕ
epoch_at n = 2 * n % word_mod

-- The successor of an epoch's word is the next epoch's.
pub successor-epoch_at : (n : ℕ) → successor (epoch_at n) ≡ epoch_at (n + 1)
unfolding successor
successor-epoch_at n = omega arith

-- Pinning an epoch marks it and keeps the epoch.
pub pinned-epoch_at :
    (n : ℕ)
    → (is_pinned (pinned (epoch_at n)) ≡ true) × (unpinned (pinned (epoch_at n)) ≡ epoch_at n)
unfolding is_pinned pinned unpinned
pinned-epoch_at n = (ground arith, ground arith)

pinned_suc : (n : ℕ) → pinned (epoch_at n) ≡ epoch_at n + 1
unfolding pinned
pinned_suc n = ground arith

signed_half : (d w : ℕ) → d < 2 ^ 62 → w / 2 ≡ d → halve (as_signed w) ≡ pos d
signed_half d w small e = ground (arith, small, e)

-- `wrapping_sub` counts the epochs between two words, pinned or not, that are fewer than 2 ^ 62 apart.
pub distance-epoch_at :
    (n k : ℕ)
    → k < 2 ^ 62
    → (distance (epoch_at (n + k)) (epoch_at n) ≡ pos k)
      × (distance (pinned (epoch_at (n + k))) (pinned (epoch_at n)) ≡ pos k)
unfolding distance unpinned pinned
distance-epoch_at n k small = (
  signed_half k (wrapping_sub (epoch_at (n + k)) (epoch_at n - epoch_at n % 2)) small (omega arith),
  rw (pinned_suc (n + k), pinned_suc n)
      (signed_half k (wrapping_sub (epoch_at (n + k) + 1) (epoch_at n + 1 - (epoch_at n + 1) % 2))
        small (omega arith)),
)

-- Only bags that were sealed at least two epochs ago are expired.
pub expired-old {ℓ} :
    {D : Type ℓ} (s : SealedBag D) (n k : ℕ)
    → s.epoch ≡ epoch_at k
    → k ≤ n
    → is_expired s (epoch_at n) ≡ true
    → k + 2 ≤ n
unfolding is_expired
expired-old s n k at le e = elim (dec_lt n (k + 2)) [
  | yes recent ↦
      let same : k + (n - k) ≡ n = omega arith in
      let near = (distance-epoch_at k (n - k) (omega (arith, recent))).0 in
      let d : distance (epoch_at n) s.epoch ≡ pos (n - k) =
        ap (λ a. distance (epoch_at n) a) at
        ∙ ap (λ m. distance (epoch_at m) (epoch_at k)) (sym same)
        ∙ near in
      absurd (ground (arith, e, d, recent))
  | no old ↦ omega (arith, old)
]
