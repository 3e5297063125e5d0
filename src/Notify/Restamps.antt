-- ===== src/Notify/Restamps.antt =====
-- central/channels/delivery.py: `_restamp_alert`, and what it leaves alone.
use printer_nanny.Common.{
  none-ne-some, ℕ, String, Option, none, some, List, [], ◌∷◌, ◌≡◌, ◌≢◌, refl, sym, ap, ◌∙◌, ◌⊎◌,
  inl, inr, Option-cases, arith,
}
use mathlib.Core.Path.{subst}
use printer_nanny.Delivery.{ChannelResult}
use printer_nanny.Notify.{
  NotificationDelivery, Alert, find_alert, resolved_of, alert_resolved, put_alert,
}
use printer_nanny.Notify.Sending.{channel_badges}
use printer_nanny.Notify.Owed.{restamp, restamped}

find_alert-id :
    (id : ℕ) (alerts : List Alert) (a : Alert) → find_alert id alerts ≡ some a → a.id ≡ id
unfolding find_alert
find_alert-id id [] a h = absurd (none-ne-some h)
find_alert-id id (x ∷ alerts) a h = ground (arith, find_alert-id id alerts a)

find_alert-put :
    (a b : Alert) (alerts : List Alert) (id : ℕ)
    → a.id ≡ id
    → find_alert id alerts ≡ some b
    → find_alert id (put_alert a alerts) ≡ some a
unfolding find_alert put_alert
find_alert-put a b [] id e h = absurd (none-ne-some h)
find_alert-put a b (x ∷ alerts) id e h = ground (arith, find_alert-put a b alerts id e)

find_alert-others :
    (a : Alert) (alerts : List Alert) (id : ℕ)
    → a.id ≢ id
    → find_alert id (put_alert a alerts) ≡ find_alert id alerts
unfolding find_alert put_alert
find_alert-others a [] id e = refl
find_alert-others a (x ∷ alerts) id e = ground (arith, find_alert-others a alerts id e)

pub same_or_other : (a b : ℕ) → (a ≡ b) ⊎ (a ≢ b)
same_or_other a b = ground arith

pub restamp-find :
    (alerts : List Alert) (alert_id : Option ℕ) (results : List (String × ChannelResult))
    (now id : ℕ)
    → resolved_of (find_alert id (restamp alerts alert_id results now))
      ≡ resolved_of (find_alert id alerts)
unfolding restamp
restamp-find alerts none results now id = refl
restamp-find alerts (some i) [] now id = refl
restamp-find alerts (some i) (r ∷ results) now id = found (Option-cases (find_alert i alerts))
  where
    put :
        (a : Alert)
        → find_alert i alerts ≡ some a
        → (i ≡ id) ⊎ (i ≢ id)
        → resolved_of (
            find_alert id (
              put_alert
                (record a {
                  notified_channels = channel_badges (r ∷ results);
                  last_notified_at = some now;
                })
                alerts))
          ≡ resolved_of (find_alert id alerts)
    put a f (inl e) =
        subst
          (λ k.
            resolved_of (
              find_alert k (
                put_alert
                  (record a {
                    notified_channels = channel_badges (r ∷ results);
                    last_notified_at = some now;
                  })
                  alerts))
            ≡ resolved_of (find_alert k alerts))
          e
          (ap resolved_of (find_alert-put _ a alerts i (find_alert-id i alerts a f) f)
            ∙ sym (ap resolved_of f))
    put a f (inr ne) =
        ap resolved_of
          (find_alert-others _ alerts id (λ e. ne (sym (find_alert-id i alerts a f) ∙ e)))

    found :
        (find_alert i alerts ≡ none) ⊎ ((a : Alert) × (find_alert i alerts ≡ some a))
        → resolved_of (find_alert id (restamped alerts (r ∷ results) now (find_alert i alerts)))
          ≡ resolved_of (find_alert id alerts)
    found (inl n) = rw n refl
    found (inr (a, f)) = rw f (put a f (same_or_other i id))

-- Whether an alert is resolved is not changed by what its page shows.
pub restamp-resolved :
    (alerts : List Alert) (alert_id : Option ℕ) (results : List (String × ChannelResult)) (now : ℕ)
    (x : NotificationDelivery)
    → alert_resolved (restamp alerts alert_id results now) x ≡ alert_resolved alerts x
unfolding alert_resolved
restamp-resolved alerts alert_id results now x = elim (Option-cases x.alert_id) [
  | inl n ↦ rw n refl
  | inr (id, e) ↦ rw e (restamp-find alerts alert_id results now id)
]
