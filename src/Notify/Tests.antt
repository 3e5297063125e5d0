-- ===== src/Notify/Tests.antt =====
-- central/channels/delivery.py: a cycle over four rows, and an owed row with two channels.
use printer_nanny.Common.{
  ℕ, ◌≡◌, refl, Bool, true, false, none, some, List, [], ◌∷◌, ◌++◌, map, All, In, here, String,
}
use printer_nanny.Suppression.{EventSeverity}
use printer_nanny.Delivery.{
  DeliveryStatus, resolved_first, nothing_sent, ChannelResult, apply_result,
}
use printer_nanny.Notify.{
  Notification, Channel, ChannelKey, unrouted_key, withheld_key, channel_key, NotificationDelivery,
  Alert, Db, Settings, dispatch_one, fold_result, close, is_open, is_due, find_alert,
  alert_resolved, put_row,
}
use printer_nanny.Notify.Sending.{record_dispatch, dispatch}
use printer_nanny.Notify.Owed.{
  Tally, add_tally, tally_of, delivered_to, delivered_after, has_name, siblings, attempt,
  all_not_sent, fan_out_owed,
}
use printer_nanny.Notify.Retry.{
  is_ahead, insert_due, due_order, due_deliveries, has_id, close_if_listed, close_listed,
  close_resolved_due, find_channel, is_wanted, send_to, send_by_key, handle, sweep,
  skipped_due_count, retry_due,
}
use printer_nanny.Notify.Deferred.{is_due_deferred, group, add_to_group, client_of}
use printer_nanny.Notify.Flush.{
  flush_deferred, collect, send_digests, send_digest, write_rows, digested, sent_any,
}
use printer_nanny.Notify.Rows.{IsDistinct}
use printer_nanny.Notify.Fates.{Fate}
use printer_nanny.Notify.Passed.{first_pass}
use printer_nanny.Notify.Fated.{every_row-Fate, settled_rows_kept}
use printer_nanny.Notify.Late.{content, attempts_of, late_dispatch}

abbrev note : Notification
note = record {
  title = "toner low";
  body = "5 %";
  severity = EventSeverity.warning;
  client_name = none;
  site_name = none;
  printer_label = none;
  alert_id = some 1;
}

-- A channel that always answers with one result.
abbrev answering : String → ChannelResult → Channel
answering name result = record {
  name = name;
  meets_severity = λ s. true;
  send = λ i m. some result;
}

abbrev email : Channel
email = answering "Email" (record { ok = true; sent = true; text = "sent" })

abbrev slack : Channel
slack = answering "Slack" (record { ok = true; sent = false; text = "dry run" })

abbrev settings : Settings
settings = record { max_attempts = 5; base_seconds = 60 }

abbrev row : ℕ → ℕ → ChannelKey → DeliveryStatus → NotificationDelivery
row id alert key status = record {
  id = id;
  alert_id = some alert;
  key = key;
  status = status;
  attempts = 0;
  last_error = none;
  next_attempt_at = none;
  payload = note;
  created_at = 0;
}

abbrev alert : ℕ → Bool → Alert
alert id is_resolved = record {
  id = id;
  is_resolved = is_resolved;
  notified_channels = [];
  last_notified_at = none;
  client_id = none;
  client_name = none;
}

abbrev settled_row : NotificationDelivery
settled_row = row 1 1 (channel_key "Email") DeliveryStatus.delivered

abbrev due_row : NotificationDelivery
due_row = row 2 1 (channel_key "Email") DeliveryStatus.pending

abbrev stale_row : NotificationDelivery
stale_row = row 3 2 (channel_key "Email") DeliveryStatus.pending

abbrev owed_row : NotificationDelivery
owed_row = row 4 1 unrouted_key DeliveryStatus.pending

abbrev before_cycle : Db
before_cycle = record {
  deliveries = settled_row ∷ due_row ∷ stale_row ∷ [];
  next_id = 5;
  alerts = alert 1 false ∷ alert 2 true ∷ [];
  audit = [];
}

abbrev after_cycle : Db
after_cycle = record before_cycle {
  deliveries =
      settled_row
      ∷ record due_row { status = DeliveryStatus.delivered; attempts = 1 }
      ∷ record stale_row { status = DeliveryStatus.dead; last_error = some resolved_first }
      ∷ [];
}

abbrev counts : Tally
counts = record { retried = 1; delivered = 1; dead = 1; skipped = 0; owed = 0; not_sent = 0 }

cycle_runs : retry_due false settings (email ∷ []) 100 before_cycle ≡ some (after_cycle, counts)
unfolding retry_due close_resolved_due close_listed close_if_listed has_id due_order insert_due
    is_ahead due_deliveries find_channel is_wanted send_to send_by_key handle sweep
    skipped_due_count is_due is_open alert_resolved find_alert close fold_result apply_result
    dispatch_one put_row tally_of add_tally has_name
cycle_runs = refl

ids_differ : IsDistinct before_cycle.deliveries
ids_differ = (((cc), ((cc), tt)), (((cc), tt), (tt, tt)))

idle : is_due 100 settled_row ≡ false
unfolding is_due is_open
idle = refl

every_row-Fate_example :
    All
      (λ d.
        (after : NotificationDelivery) × In after after_cycle.deliveries
        × (after.id ≡ d.id)
        × Fate settings
            (email ∷ [])
            100
            before_cycle.deliveries
            (first_pass 100 before_cycle)
            before_cycle.alerts
            d
            after)
      before_cycle.deliveries
every_row-Fate_example =
    every_row-Fate false settings (email ∷ []) 100 before_cycle after_cycle counts ids_differ
      cycle_runs

settled_rows_kept_example : In settled_row after_cycle.deliveries
settled_rows_kept_example =
    settled_rows_kept false settings (email ∷ []) 100 before_cycle after_cycle counts settled_row
      ids_differ cycle_runs here idle

abbrev owing : Db
owing = record before_cycle { deliveries = owed_row ∷ [] }

alone : delivered_after owing.deliveries owed_row.alert_id owed_row.id ≡ []
unfolding delivered_after delivered_to
alone = refl

heard : all_not_sent (attempts_of settings 100 owing owed_row email (slack ∷ [])) ≡ false
unfolding all_not_sent attempt siblings dispatch_one
heard = refl

late_dispatch_example :
    (db' : Db) × (t : Tally) × (first : NotificationDelivery) × (rest : List NotificationDelivery)
    × (on_time : List NotificationDelivery) × (fan_out_owed false settings 100
          (email ∷ slack ∷ [])
          owing.deliveries
          owing
          owed_row
        ≡ some (db', t))
    × (db'.deliveries ≡ put_row first owing.deliveries ++ rest)
    × ((record_dispatch settings 100 owing (some 1) note (email ∷ slack ∷ [])).0.deliveries
        ≡ owing.deliveries ++ on_time)
    × (first.id ≡ 4)
    × (map content (first ∷ rest) ≡ map content on_time)
late_dispatch_example =
    late_dispatch false settings 100 email (slack ∷ []) owing.deliveries owing owed_row
      ((λ i j m. refl), ((λ i j m. refl), tt)) refl alone heard

abbrev held_row : NotificationDelivery
held_row = row 5 1 withheld_key DeliveryStatus.deferred

abbrev holding : Db
holding = record before_cycle { deliveries = held_row ∷ [] }

-- A digest that no channel took ends its rows, although its channel failed.
abbrev down : Channel
down = answering "Email" (record { ok = false; sent = true; text = "refused" })

digest_lost :
    (flush_deferred (down ∷ []) 100 holding).0.deliveries
    ≡ record held_row {
      key = channel_key "Email";
      status = DeliveryStatus.skipped;
      attempts = 1;
      last_error = some (nothing_sent (("Email", "refused") ∷ []));
    }
      ∷ []
unfolding flush_deferred collect is_due_deferred group add_to_group client_of find_alert
    alert_resolved send_digests send_digest write_rows digested sent_any dispatch dispatch_one
    put_row
digest_lost = refl
