-- ===== src/Notify/Targets.antt =====
-- central/channels/delivery.py: `_fan_out_owed`, whom an owed row goes to, and what they answer.
use mathlib.Core.Path.{subst}
use printer_nanny.Common.{
  if◌then◌else◌, eq_refl, ==-refl, ℕ, ◌<◌, ◌≡◌, ◌↔◌, ◌⊎◌, inl, inr, refl, sym, ap, ◌∙◌, String,
  true, ◌&&◌, Option, none, some, List, [], ◌∷◌, Any, Bool-cases, false-ne-true, str_eq, eq_iff,
  is_some_of, some-injective, none-ne-some, ltb, arith,
}
use printer_nanny.Delivery.{DeliveryStatus}
use printer_nanny.Notify.{
  Channel, ChannelKey, unrouted_key, withheld_key, channel_key, NotificationDelivery,
}
use printer_nanny.Notify.Owed.{is_delivered, delivered_to, delivered_after, has_name, targets_of}

-- A later row of the same alert was delivered by the channel.
abbrev pub IsLater : ℕ → ℕ → String → NotificationDelivery → Type 0
IsLater alert id name x =
    (x.alert_id ≡ some alert)
    × (x.status ≡ DeliveryStatus.delivered)
    × (id < x.id)
    × (x.key ≡ channel_key name)

abbrev pub Overtaken : List NotificationDelivery → NotificationDelivery → String → Type 0
Overtaken rows d name = (alert : ℕ) × (d.alert_id ≡ some alert) × Any (IsLater alert d.id name) rows

-- The channels that no later delivery of the row's alert went out by, in their order.
pub data IsTargets (rows : List NotificationDelivery) (d : NotificationDelivery)
    : List Channel → List Channel → Type 0 where
  no_more : IsTargets rows d [] []
  target :
      {c : Channel} {channels targets : List Channel}
      → (¬ Overtaken rows d c.name)
      → IsTargets rows d channels targets
      → IsTargets rows d (c ∷ channels) (c ∷ targets)
  passed :
      {c : Channel} {channels targets : List Channel}
      → Overtaken rows d c.name
      → IsTargets rows d channels targets
      → IsTargets rows d (c ∷ channels) targets

status_delivered : (s : DeliveryStatus) → is_delivered s ≡ true → s ≡ DeliveryStatus.delivered
status_delivered DeliveryStatus.delivered h = refl
status_delivered DeliveryStatus.pending h = ground arith
status_delivered DeliveryStatus.failed h = ground arith
status_delivered DeliveryStatus.dead h = ground arith
status_delivered DeliveryStatus.skipped h = ground arith
status_delivered DeliveryStatus.deferred h = ground arith
status_delivered DeliveryStatus.suppressed h = ground arith

alert_is : (o : Option ℕ) (a : ℕ) → is_some_of o a ≡ true → o ≡ some a
alert_is none a h = ground arith
alert_is (some b) a h = ap some (ground arith)

named_by :
    (key : ChannelKey) (name : String) (rest : List String)
    → has_name name (elim key [ channel_key n ↦ n ∷ rest | _ ↦ rest ]) ≡ true
    → (key ≡ channel_key name) ⊎ (has_name name rest ≡ true)
unfolding has_name
named_by unrouted_key name rest h = inr h
named_by withheld_key name rest h = inr h
named_by (channel_key n) name rest h = elim (Bool-cases (str_eq name n)) [
  | inl same ↦ inl (ap channel_key (sym ((eq_iff name n).0 same)))
  | inr other ↦ inr (ground arith)
]

delivered_to-Any :
    (alert after : ℕ) (name : String) (rows : List NotificationDelivery)
    → has_name name (delivered_to alert after rows) ≡ true
    → Any (IsLater alert after name) rows
unfolding delivered_to has_name
delivered_to-Any alert after name [] h = ground arith
delivered_to-Any alert after name (x ∷ rows) h =
    let ih = delivered_to-Any alert after name rows in
    elim (Bool-cases (is_some_of x.alert_id alert && is_delivered x.status && ltb after x.id)) [
      | inl y ↦
          elim (named_by x.key name (delivered_to alert after rows) (
            subst
              (λ b.
                has_name name (
                  if b
                  then elim x.key [
                    | channel_key n ↦ n ∷ delivered_to alert after rows
                    | _ ↦ delivered_to alert after rows
                  ]
                  else delivered_to alert after rows)
                ≡ true)
              y h)) [
                | inl key ↦ inl (
                  alert_is x.alert_id alert (ground arith),
                  status_delivered x.status (ground arith),
                  ground arith,
                  key,
                )
                | inr rest ↦ inr (ih rest)
              ]
      | inr n ↦ inr (
          ih (
            subst
              (λ b.
                has_name name (
                  if b
                  then elim x.key [
                    | channel_key n ↦ n ∷ delivered_to alert after rows
                    | _ ↦ delivered_to alert after rows
                  ]
                  else delivered_to alert after rows)
                ≡ true)
              n h))
    ]

lt→ltb : (a b : ℕ) → a < b → ltb a b ≡ true
lt→ltb a b h = ground arith

still_named :
    (key : ChannelKey) (name : String) (rest : List String)
    → has_name name rest ≡ true
    → has_name name (elim key [ channel_key n ↦ n ∷ rest | _ ↦ rest ]) ≡ true
unfolding has_name
still_named unrouted_key name rest h = h
still_named withheld_key name rest h = h
still_named (channel_key n) name rest h = elim (Bool-cases (str_eq name n)) [
  | inl same ↦ rw same refl
  | inr other ↦ rw (other, h) refl
]

Any-delivered_to :
    (alert after : ℕ) (name : String) (rows : List NotificationDelivery)
    → Any (IsLater alert after name) rows
    → has_name name (delivered_to alert after rows) ≡ true
unfolding delivered_to has_name
Any-delivered_to alert after name [] h = absurd h
Any-delivered_to alert after name (x ∷ rows) (inl (own, status, behind, key)) =
    let same : str_eq name name ≡ true = eq_refl name in
    rw (own, status, key, ==-refl alert, lt→ltb after x.id behind) (rw same refl)
Any-delivered_to alert after name (x ∷ rows) (inr later) =
    let ih = Any-delivered_to alert after name rows later in
    elim (Bool-cases (is_some_of x.alert_id alert && is_delivered x.status && ltb after x.id)) [
      | inl y ↦ rw y (still_named x.key name (delivered_to alert after rows) ih)
      | inr n ↦ rw n ih
    ]

-- The code's test of a channel against the later deliveries.
has_name-Overtaken :
    (rows : List NotificationDelivery) (d : NotificationDelivery) (name : String) (o : Option ℕ)
    → d.alert_id ≡ o
    → (has_name name (delivered_after rows o d.id) ≡ true) ↔ Overtaken rows d name
unfolding delivered_after has_name
has_name-Overtaken rows d name none e =
    (λ h. ground arith, λ (a, own, h). absurd (none-ne-some (sym e ∙ own)))
has_name-Overtaken rows d name (some alert) e = (
  λ h. (alert, e, delivered_to-Any alert d.id name rows h),
  λ (a, own, h).
      let same : a ≡ alert = some-injective (sym own ∙ e) in
      Any-delivered_to alert d.id name rows (subst (λ k. Any (IsLater k d.id name) rows) same h),
)

pub targets_of-IsTargets :
    (rows : List NotificationDelivery) (d : NotificationDelivery) (channels : List Channel)
    → IsTargets rows d channels (targets_of channels (delivered_after rows d.alert_id d.id))
targets_of-IsTargets rows d [] = no_more
targets_of-IsTargets rows d (c ∷ channels) =
    let already = delivered_after rows d.alert_id d.id in
    let ih = targets_of-IsTargets rows d channels in
    let (f, g) = has_name-Overtaken rows d c.name d.alert_id refl in
    elim (Bool-cases (has_name c.name already)) [
      | inl y ↦ rw y (passed (f y) ih)
      | inr n ↦ rw n (target (λ o. false-ne-true (sym n ∙ g o)) ih)
    ]
