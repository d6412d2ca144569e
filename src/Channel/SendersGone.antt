-- ===== src/Channel/SendersGone.antt =====
-- `Channel::disconnect_senders`, first called and called again.
use crossbeam.Prelude.{
  ℕ, ◌≡◌, refl, sym, ap, subst, ◌∙◌, Bool, true, false, not, List, if◌then◌else◌,
}
use crossbeam.Waker.Context.{World}
use crossbeam.Waker.Sync
use crossbeam.Channel.Defs.{Channel}
use crossbeam.Channel.Calls.{disconnect_senders, is_disconnected}
use crossbeam.Channel.Invariant.{Represents}
use crossbeam.Channel.Disconnect.{
  marked_tail, cut, cut-Represents, cut-is_disconnected, disconnect_senders-cut,
}

-- Setting the mark bit again changes nothing.
cut-cut {ℓ} :
    {A : Type ℓ} {laps h : ℕ} {xs : List A} {gone : Bool} {q : Channel A}
    → (r : Represents laps h xs gone q) → (senders receivers : Sync.SyncWaker)
    → cut (cut-Represents r senders receivers) senders receivers ≡ cut r senders receivers
cut-cut {q = q} r senders receivers =
    ap (λ t. record q { tail = t; senders = senders; receivers = receivers })
      (marked_tail (cut-Represents r senders receivers) ∙ sym (marked_tail r))

disconnect_senders-again {ℓ} :
    {A : Type ℓ} {laps h : ℕ} {xs : List A} {gone : Bool} {q : Channel A}
    → (r : Represents laps h xs gone q) → (senders receivers : Sync.SyncWaker) → (w : World)
    → disconnect_senders w (cut r senders receivers) ≡ (false, cut r senders receivers, w)
disconnect_senders-again r senders receivers w =
    disconnect_senders-cut (cut-Represents r senders receivers) w
    ∙ ap (λ c. (false, c, w)) (cut-cut r senders receivers)

-- What `disconnect_senders` makes of a channel that is disconnected already, or is not.
abbrev pub Disconnects {ℓ} :
    {A : Type ℓ} → ℕ → ℕ → List A → Bool → World → Channel A → Bool × Channel A × World → Type ℓ
Disconnects laps h xs gone w q (first, q', w') =
    (first ≡ not gone)
    × Represents laps h xs true q'
    × (is_disconnected q' ≡ true)
    × (disconnect_senders w' q' ≡ (false, q', w'))
    × ((q'.receivers, w') ≡ (if gone then (q.receivers, w) else Sync.disconnect w q.receivers))
    × (q'.senders ≡ q.senders)

-- `disconnect_senders` returns true on a channel that was connected and false on one that was not. It
-- leaves a disconnected channel with the same messages and the same waiting senders; the receivers
-- that wait are disconnected by the call that returns true, and left alone by the other. To call it
-- again returns false and changes nothing.
pub disconnect_senders_lem {ℓ} :
    {A : Type ℓ} {laps h : ℕ} {xs : List A} {gone : Bool} {q : Channel A}
    → Represents laps h xs gone q
    → (w : World) → Disconnects laps h xs gone w q (disconnect_senders w q)
disconnect_senders_lem {laps = laps} {h} {xs} {gone = false} {q = q} r w =
    let (receivers, w') = Sync.disconnect w q.receivers in
    subst (Disconnects laps h xs false w q) (sym (disconnect_senders-cut r w)) (
      refl,
      cut-Represents r q.senders receivers,
      cut-is_disconnected r q.senders receivers,
      disconnect_senders-again r q.senders receivers w',
      refl,
      refl,
    )
disconnect_senders_lem {laps = laps} {h} {xs} {gone = true} {q = q} r w =
    subst (Disconnects laps h xs true w q) (sym (disconnect_senders-cut r w)) (
      refl,
      cut-Represents r q.senders q.receivers,
      cut-is_disconnected r q.senders q.receivers,
      disconnect_senders-again r q.senders q.receivers w,
      refl,
      refl,
    )
