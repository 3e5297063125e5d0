-- ===== src/Notify/Fates.antt =====
-- central/channels/delivery.py: what may become of one row in a cycle of `retry_due`.
use printer_nanny.Common.{
  none, length, select, All, Any, ◌⊎◌, ◌&&◌, some-injective, none-ne-some, ℕ, ◌-◌, ◌≤◌, ◌<◌, ◌≡◌,
  sym, ap, ◌∙◌, inl, inr, String, true, false, some, List, [], ◌∷◌, str_eq, eq_iff, if-cases, In,
  here, there,
}
use mathlib.Core.Path.{subst}
use printer_nanny.Delivery.{DeliveryStatus, superseded, gave_up, resolved_first, unrouted}
use printer_nanny.Notify.{
  single, Channel, unrouted_key, channel_key, NotificationDelivery, Alert, Settings, dispatch_one,
  fold_result, is_due, alert_resolved,
}
use printer_nanny.Notify.Owed.{delivered_after}
use printer_nanny.Notify.Retry.{find_channel, is_wanted}
use printer_nanny.Notify.Targets.{IsTargets}
use printer_nanny.Notify.Answers.{IsSilent, StaysSilent, Responds}
use printer_nanny.Notify.Wanted.{NoDestination}

-- A row is left alone that is not due; or that has no destination, or found a whole batch of others
-- before it, and that the first pass did not close, since its alert is not resolved or a whole
-- batch of such rows stood before it.
abbrev pub IsLeft :
    List Channel
    → ℕ
    → List NotificationDelivery
    → List NotificationDelivery
    → List Alert
    → NotificationDelivery
    → Type 0
IsLeft channels now table rows alerts d =
    (is_due now d ≡ false)
    ⊎ ((NoDestination channels d
          ⊎ (200 ≤ length (select (λ x. is_due now x && is_wanted channels x.key) rows)))
        × ((alert_resolved alerts d ≡ false)
            ⊎ (200 ≤ length (select (λ x. is_due now x && alert_resolved alerts x) table))))

-- The row is due, and its alert is not resolved.
abbrev pub IsWaiting : ℕ → List Alert → NotificationDelivery → Type 0
IsWaiting now alerts d = (is_due now d ≡ true) × (alert_resolved alerts d ≡ false)

-- In a cycle at `now`, with these channels, over this table, the rows that its first pass left and
-- these alerts: the row before, and after.
pub data Fate (settings : Settings) (channels : List Channel) (now : ℕ)
    (table rows : List NotificationDelivery) (alerts : List Alert)
    : NotificationDelivery → NotificationDelivery → Type 0 where
  untouched :
      {d : NotificationDelivery}
      → IsLeft channels now table rows alerts d
      → Fate settings channels now table rows alerts d d
  resolved :
      {d : NotificationDelivery}
      → is_due now d ≡ true
      → alert_resolved alerts d ≡ true
      → Fate settings channels now table rows alerts d (record d {
        status = DeliveryStatus.dead;
        last_error = some resolved_first;
        next_attempt_at = none;
      })
  attempted :
      {d : NotificationDelivery} (c : Channel)
      → IsWaiting now alerts d
      → d.key ≡ channel_key c.name
      → In c channels
      → Fate settings channels now table rows alerts d
          (fold_result settings now d (dispatch_one c d.id (single d.payload)))
  routed :
      {d : NotificationDelivery} (c : Channel) (targets : List Channel)
      → IsWaiting now alerts d
      → d.key ≡ unrouted_key
      → IsTargets rows d channels (c ∷ targets)
      → (¬ IsSilent (dispatch_one c d.id (single d.payload))) ⊎ Any (Responds d.payload) targets
      → Fate settings channels now table rows alerts d (
          fold_result settings now
            (record d { key = channel_key c.name })
            (dispatch_one c d.id (single d.payload)))
  waiting :
      {d : NotificationDelivery}
      → IsWaiting now alerts d
      → d.key ≡ unrouted_key
      → channels ≡ []
      → now - d.created_at < 604800
      → Fate settings channels now table rows alerts d (record d { next_attempt_at = some now })
  given_up :
      {d : NotificationDelivery}
      → IsWaiting now alerts d
      → d.key ≡ unrouted_key
      → channels ≡ []
      → 604800 ≤ now - d.created_at
      → Fate settings channels now table rows alerts d (record d {
        status = DeliveryStatus.dead;
        last_error = some gave_up;
        next_attempt_at = none;
      })
  superseded_by :
      {d : NotificationDelivery} (c : Channel) (more : List Channel) (names : List String)
      → IsWaiting now alerts d
      → d.key ≡ unrouted_key
      → channels ≡ c ∷ more
      → IsTargets rows d channels []
      → names ≡ delivered_after rows d.alert_id d.id
      → Fate settings channels now table rows alerts d (record d {
        status = DeliveryStatus.dead;
        last_error = some (superseded names);
        next_attempt_at = none;
      })
  still_owed :
      {d : NotificationDelivery} (c : Channel) (targets : List Channel)
      → IsWaiting now alerts d
      → d.key ≡ unrouted_key
      → IsTargets rows d channels (c ∷ targets)
      → IsSilent (dispatch_one c d.id (single d.payload))
      → All (StaysSilent d.payload) targets
      → Fate settings channels now table rows alerts d (record d {
        key = unrouted_key;
        status = DeliveryStatus.pending;
        attempts = 0;
        last_error = some unrouted;
        next_attempt_at = some now;
      })

pub find_channel-In :
    (name : String) (channels : List Channel) (c : Channel)
    → find_channel name channels ≡ some c
    → In c channels × (c.name ≡ name)
unfolding find_channel
find_channel-In name [] c h = absurd (none-ne-some h)
find_channel-In name (x ∷ channels) c h =
    let ih = find_channel-In name channels c in
    elim (if-cases (str_eq x.name name) h) [
      | inl (same, e) ↦
          let is_x = some-injective e in
          (
            subst (λ z. In z (x ∷ channels)) is_x here,
            sym (ap (λ z. z.name) is_x) ∙ (eq_iff x.name name).0 same,
          )
      | inr (_, e) ↦ let (m, n) = ih e in (there m, n)
    ]
