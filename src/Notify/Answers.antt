-- ===== src/Notify/Answers.antt =====
-- central/channels/delivery.py: `_fan_out_owed`, what the targets of an owed row answer.
use printer_nanny.Common.{
  ℕ, suc, ◌≡◌, inl, inr, true, false, ◌&&◌, not, List, [], ◌∷◌, All, Any, Bool-cases, arith,
}
use printer_nanny.Delivery.{ChannelResult}
use printer_nanny.Notify.{
  Notification, single, Channel, NotificationDelivery, Settings, dispatch_one,
}
use printer_nanny.Notify.Owed.{siblings, attempt, all_not_sent}

-- The channel skipped what it was given: it is fine, and nothing was sent.
abbrev pub IsSilent : ChannelResult → Type 0
IsSilent r = (r.ok ≡ true) × (r.sent ≡ false)

abbrev pub StaysSilent : Notification → Channel → Type 0
StaysSilent note c = (i : ℕ) × IsSilent (dispatch_one c i (single note))

abbrev pub Responds : Notification → Channel → Type 0
Responds note c = (i : ℕ) × (¬ IsSilent (dispatch_one c i (single note)))

pub siblings-silent :
    (settings : Settings) (now id : ℕ) (d : NotificationDelivery) (targets : List Channel)
    → all_not_sent (attempt settings now d.payload (siblings d now id targets) targets) ≡ true
    → All (StaysSilent d.payload) targets
unfolding all_not_sent attempt siblings
siblings-silent settings now id d [] h = tt
siblings-silent settings now id d (c ∷ targets) h =
    let answer = dispatch_one c id (single d.payload) in
    (
      (id, (ground arith, ground arith)),
      siblings-silent settings now (suc id) d targets (ground arith),
    )

pub siblings-heard :
    (settings : Settings) (now id : ℕ) (d : NotificationDelivery) (targets : List Channel)
    → all_not_sent (attempt settings now d.payload (siblings d now id targets) targets) ≡ false
    → Any (Responds d.payload) targets
unfolding all_not_sent attempt siblings
siblings-heard settings now id d [] h = ground arith
siblings-heard settings now id d (c ∷ targets) h =
    let answer = dispatch_one c id (single d.payload) in
    elim (Bool-cases (answer.ok && not answer.sent)) [
      | inr n ↦ inl (id, λ q. let (a, b) = q in ground arith)
      | inl y ↦ inr (siblings-heard settings now (suc id) d targets (ground arith))
    ]
