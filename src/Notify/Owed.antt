-- ===== src/Notify/Owed.antt =====
-- central/channels/delivery.py: `_fan_out_owed`, and what it is made of. A session of the
-- application does not flush before a query, so the queries of a cycle read the rows as they were
-- flushed before its loop. `deletes_pending` says whether the session's `delete` takes a row that
-- was added and not yet flushed; where it does not, it raises, and the cycle is rolled back.
use printer_nanny.Common.{
  ℕ, suc, ◌+◌, ◌-◌, ◌*◌, String, Bool, true, false, ◌&&◌, ◌||◌, not, Option, none, some, List, [],
  ◌∷◌, ◌++◌, length, ltb, if◌then◌else◌, is_some_of, str_eq, select,
}
use printer_nanny.Delivery.{DeliveryStatus, unrouted, gave_up, superseded, ChannelResult}
use printer_nanny.Notify.{
  Notification, single, Channel, unrouted_key, channel_key, NotificationDelivery, Alert, gave_up_on,
  Db, Settings, dispatch_one, fold_result, close, find_alert, put_row, put_alert,
}
use printer_nanny.Notify.Sending.{new_row, channel_badges}

-- `UNROUTED_GIVE_UP`, seven days.
abbrev pub unrouted_give_up : ℕ
unrouted_give_up = 7 * 86400

-- What a pass counts.
pub record Tally : Type 0 where
  pub retried : ℕ
  pub delivered : ℕ
  pub dead : ℕ
  pub skipped : ℕ
  pub owed : ℕ
  pub not_sent : ℕ

abbrev pub no_tally : Tally
no_tally = record { retried = 0; delivered = 0; dead = 0; skipped = 0; owed = 0; not_sent = 0 }

unfoldable pub add_tally : Tally → Tally → Tally
add_tally a b = record {
  retried = a.retried + b.retried;
  delivered = a.delivered + b.delivered;
  dead = a.dead + b.dead;
  skipped = a.skipped + b.skipped;
  owed = a.owed + b.owed;
  not_sent = a.not_sent + b.not_sent;
}

abbrev pub is_delivered : DeliveryStatus → Bool
is_delivered DeliveryStatus.delivered = true
is_delivered _ = false

-- What one attempt adds to the counts.
unfoldable pub tally_of : DeliveryStatus → Tally
tally_of DeliveryStatus.delivered = record no_tally { retried = 1; delivered = 1 }
tally_of DeliveryStatus.dead = record no_tally { retried = 1; dead = 1 }
tally_of DeliveryStatus.skipped = record no_tally { retried = 1; not_sent = 1 }
tally_of _ = record no_tally { retried = 1 }

-- `_delivered_after`
unfoldable pub delivered_to : ℕ → ℕ → List NotificationDelivery → List String
delivered_to alert after [] = []
delivered_to alert after (d ∷ rows) =
    let rest = delivered_to alert after rows in
    if is_some_of d.alert_id alert && is_delivered d.status && ltb after d.id
    then elim d.key [ channel_key name ↦ name ∷ rest | _ ↦ rest ]
    else rest

unfoldable pub delivered_after : List NotificationDelivery → Option ℕ → ℕ → List String
delivered_after rows none after = []
delivered_after rows (some alert) after = delivered_to alert after rows

unfoldable pub has_name : String → List String → Bool
has_name name [] = false
has_name name (x ∷ names) = str_eq name x || has_name name names

abbrev pub targets_of : List Channel → List String → List Channel
targets_of channels already = select (λ c. not (has_name c.name already)) channels

-- The owed row for the first destination, and a sibling for each of the others.
unfoldable pub siblings : NotificationDelivery → ℕ → ℕ → List Channel → List NotificationDelivery
siblings d now id [] = []
siblings d now id (c ∷ channels) =
    new_row d.alert_id (channel_key c.name) d.payload id now ∷ siblings d now (suc id) channels

unfoldable pub attempt :
    Settings
    → ℕ
    → Notification
    → List NotificationDelivery
    → List Channel
    → List (NotificationDelivery × ChannelResult)
attempt settings now note (d ∷ rows) (c ∷ channels) =
    let result = dispatch_one c d.id (single note) in
    (fold_result settings now d result, result) ∷ attempt settings now note rows channels
attempt settings now note _ _ = []

unfoldable pub named_results :
    List Channel → List (NotificationDelivery × ChannelResult) → List (String × ChannelResult)
named_results (c ∷ channels) ((d, result) ∷ attempts) =
    (c.name, result) ∷ named_results channels attempts
named_results _ _ = []

unfoldable pub tally_all : List (NotificationDelivery × ChannelResult) → Tally
tally_all [] = no_tally
tally_all ((d, result) ∷ attempts) = add_tally (tally_of d.status) (tally_all attempts)

unfoldable pub all_not_sent : List (NotificationDelivery × ChannelResult) → Bool
all_not_sent [] = true
all_not_sent ((d, result) ∷ attempts) = result.ok && not result.sent && all_not_sent attempts

unfoldable pub rows_written :
    List (NotificationDelivery × ChannelResult) → List NotificationDelivery
rows_written [] = []
rows_written ((d, result) ∷ attempts) = d ∷ rows_written attempts

abbrev pub restamped : List Alert → List (String × ChannelResult) → ℕ → Option Alert → List Alert
restamped alerts results now none = alerts
restamped alerts results now (some a) =
    put_alert (record a { notified_channels = channel_badges results; last_notified_at = some now })
      alerts

-- `_restamp_alert`
unfoldable pub restamp : List Alert → Option ℕ → List (String × ChannelResult) → ℕ → List Alert
restamp alerts none results now = alerts
restamp alerts (some id) [] now = alerts
restamp alerts (some id) (r ∷ results) now =
    restamped alerts (r ∷ results) now (find_alert id alerts)

abbrev pub with_row : Db → NotificationDelivery → Db
with_row db d = record db { deliveries = put_row d db.deliveries }

-- With still no channel.
unfoldable pub wait_or_give_up : ℕ → Db → NotificationDelivery → Db × Tally
wait_or_give_up now db d =
    if ltb (now - d.created_at) unrouted_give_up
    then (with_row db (record d { next_attempt_at = some now }), record no_tally { owed = 1 })
    else (
      record (with_row db (close gave_up d)) { audit = db.audit ++ (gave_up_on d.alert_id ∷ []) },
      record no_tally { dead = 1 },
    )

-- The owed row once more, behind everything that this cycle did not reach.
unfoldable pub owed_again : ℕ → NotificationDelivery → NotificationDelivery
owed_again now d = record d {
  key = unrouted_key;
  status = DeliveryStatus.pending;
  attempts = 0;
  last_error = some unrouted;
  next_attempt_at = some now;
}

abbrev pub is_nil {ℓ} : {A : Type ℓ} → List A → Bool
is_nil [] = true
is_nil (_ ∷ _) = false

-- The results of all targets, written: the first row's and the siblings'.
unfoldable pub settle :
    Bool
    → ℕ
    → Db
    → NotificationDelivery
    → List Channel
    → List (NotificationDelivery × ChannelResult)
    → Option (Db × Tally)
settle deletes_pending now db d targets [] = some (db, no_tally)
settle deletes_pending now db d targets (first ∷ rest) =
    if all_not_sent (first ∷ rest)
    then (if is_nil rest || deletes_pending
        then some (with_row db (owed_again now d), record no_tally { owed = 1 })
        else none)
    else some (
      record db {
        deliveries = put_row (first.0) db.deliveries ++ rows_written rest;
        next_id = db.next_id + length rest;
        alerts = restamp db.alerts d.alert_id (named_results targets (first ∷ rest)) now;
      },
      tally_all (first ∷ rest),
    )

unfoldable pub fan_out_to :
    Bool
    → Settings
    → ℕ
    → Db
    → NotificationDelivery
    → List String
    → List Channel
    → Option (Db × Tally)
fan_out_to deletes_pending settings now db d already [] =
    some (with_row db (close (superseded already) d), record no_tally { dead = 1 })
fan_out_to deletes_pending settings now db d already (c ∷ targets) =
    settle deletes_pending now db d (c ∷ targets) (
      attempt settings now d.payload
        (record d { key = channel_key c.name } ∷ siblings d now db.next_id targets) (c ∷ targets))

unfoldable pub fan_out_owed :
    Bool
    → Settings
    → ℕ
    → List Channel
    → List NotificationDelivery
    → Db
    → NotificationDelivery
    → Option (Db × Tally)
fan_out_owed deletes_pending settings now [] flushed db d = some (wait_or_give_up now db d)
fan_out_owed deletes_pending settings now (c ∷ channels) flushed db d =
    let already = delivered_after flushed d.alert_id d.id in
    fan_out_to deletes_pending settings now db d already (targets_of (c ∷ channels) already)
