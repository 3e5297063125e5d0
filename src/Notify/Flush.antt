-- ===== src/Notify/Flush.antt =====
-- central/channels/delivery.py: `flush_deferred`; central/worker/jobs.py: `_record_withheld`.
use printer_nanny.Common.{
  ℕ, ◌+◌, String, Bool, false, ◌&&◌, ◌||◌, Option, none, some, List, [], ◌∷◌, map, if◌then◌else◌,
  select,
}
use printer_nanny.Delivery.{
  DeliveryStatus, unrouted, resolved_while_held, nothing_sent, ChannelResult,
}
use printer_nanny.Notify.{
  digest, Channel, ChannelKey, unrouted_key, withheld_key, channel_key, NotificationDelivery, Alert,
  Db, close, alert_resolved, find_alert, put_alert,
}
use printer_nanny.Notify.Sending.{dispatch, channel_badges}
use printer_nanny.Notify.Owed.{with_row}
use printer_nanny.Notify.Deferred.{is_due_deferred, digest_note, client_of, Group, group}

pub record Flushed : Type 0 where
  pub digests_sent : ℕ
  pub deferred_delivered : ℕ
  pub deferred_resolved : ℕ

-- The loop over the due rows, with the alerts, which it only reads: what was resolved is closed,
-- the rest is grouped.
unfoldable pub collect : List Alert → Db → List Group → List NotificationDelivery → Db × List Group
collect alerts db groups [] = (db, groups)
collect alerts db groups (d ∷ rows) =
    let (client, name) = client_of alerts d in
    let is_resolved = alert_resolved alerts d in
    collect alerts (if is_resolved then with_row db (close resolved_while_held d) else db)
      (group d client name is_resolved groups) rows

-- Nowhere to send it: the owed path takes the row.
unfoldable pub hand_over : NotificationDelivery → NotificationDelivery
hand_over d = record d {
  key = unrouted_key;
  status = DeliveryStatus.pending;
  next_attempt_at = none;
  last_error = some unrouted;
}

unfoldable pub sent_any : List (String × ChannelResult) → Bool
sent_any [] = false
sent_any ((name, result) ∷ results) = (result.ok && result.sent) || sent_any results

abbrev pub first_key : List (String × ChannelResult) → ChannelKey
first_key [] = withheld_key
first_key ((name, result) ∷ results) = channel_key name

abbrev pub details : List (String × ChannelResult) → List (String × String)
details [] = []
details ((name, result) ∷ results) = (name, result.text) ∷ details results

unfoldable pub digested :
    List (String × ChannelResult) → NotificationDelivery → NotificationDelivery
digested results d = record d {
  attempts = d.attempts + 1;
  key = first_key results;
  status = if sent_any results then DeliveryStatus.delivered else DeliveryStatus.skipped;
  last_error = if sent_any results then none else some (nothing_sent (details results));
  next_attempt_at = none;
}

-- `_restamp_digest`, for one row's alert.
unfoldable pub restamp_digest :
    List (String × ChannelResult) → ℕ → List Alert → Option ℕ → List Alert
restamp_digest results now alerts none = alerts
restamp_digest results now alerts (some id) = elim (find_alert id alerts) [
  | none ↦ alerts
  | some a ↦
      put_alert
        (record a {
          notified_channels = channel_badges results;
          last_notified_at = if sent_any results then some now else a.last_notified_at;
        })
        alerts
]

unfoldable pub write_rows :
    (NotificationDelivery → NotificationDelivery) → Db → List NotificationDelivery → Db
write_rows change db [] = db
write_rows change db (d ∷ rows) = write_rows change (with_row db (change d)) rows

unfoldable pub restamp_all :
    List (String × ChannelResult) → ℕ → List Alert → List NotificationDelivery → List Alert
restamp_all results now alerts [] = alerts
restamp_all results now alerts (d ∷ rows) =
    restamp_all results now (restamp_digest results now alerts d.alert_id) rows

-- How many rows a digest's results deliver.
abbrev pub count_delivered : List (String × ChannelResult) → List NotificationDelivery → ℕ
count_delivered results [] = 0
count_delivered results (d ∷ rows) =
    (if sent_any results then 1 else 0) + count_delivered results rows

unfoldable pub send_digest :
    List Channel → ℕ → Db → Group → List NotificationDelivery → Db × Flushed
send_digest channels now db g [] =
    (db, record { digests_sent = 0; deferred_delivered = 0; deferred_resolved = g.resolved })
send_digest [] now db g (d ∷ rows) = (
  write_rows hand_over db (d ∷ rows),
  record { digests_sent = 0; deferred_delivered = 0; deferred_resolved = g.resolved },
)
send_digest (c ∷ channels) now db g (d ∷ rows) =
    let note = digest_note (map (λ r. r.payload) (d ∷ rows)) g.resolved g.client_name in
    let results = dispatch d.id (digest note) (c ∷ channels) in
    let written = write_rows (digested results) db (d ∷ rows) in
    (
      record written { alerts = restamp_all results now written.alerts (d ∷ rows) },
      record {
        digests_sent = 1;
        deferred_delivered = count_delivered results (d ∷ rows);
        deferred_resolved = g.resolved;
      },
    )

unfoldable pub send_digests : List Channel → ℕ → Db → List Group → Db × Flushed
send_digests channels now db [] =
    (db, record { digests_sent = 0; deferred_delivered = 0; deferred_resolved = 0 })
send_digests channels now db (g ∷ groups) =
    let (sent, one) = send_digest channels now db g g.rows in
    let (db', rest) = send_digests channels now sent groups in
    (
      db',
      record {
        digests_sent = one.digests_sent + rest.digests_sent;
        deferred_delivered = one.deferred_delivered + rest.deferred_delivered;
        deferred_resolved = one.deferred_resolved + rest.deferred_resolved;
      },
    )

unfoldable pub flush_deferred : List Channel → ℕ → Db → Db × Flushed
flush_deferred channels now db =
    let (db', groups) = collect db.alerts db [] (select (is_due_deferred now) db.deliveries) in
    send_digests channels now db' groups
