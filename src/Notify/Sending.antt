-- ===== src/Notify/Sending.antt =====
-- central/channels/registry.py: `dispatch`; central/channels/delivery.py: `record_dispatch`, which
-- sends a notification for the first time, and `_record_owed`.
use printer_nanny.Common.{ℕ, suc, ◌+◌, String, Option, none, some, List, [], ◌∷◌, ◌++◌, length}
use printer_nanny.Delivery.{DeliveryStatus, unrouted, ChannelResult}
use printer_nanny.Notify.{
  Notification, Message, single, Channel, ChannelKey, unrouted_key, channel_key,
  NotificationDelivery, Badge, outcome, no_channel_routed, Db, unroutable, Settings, dispatch_one,
  fold_result,
}

-- A row as it is built, with the defaults of its columns.
abbrev pub new_row : Option ℕ → ChannelKey → Notification → ℕ → ℕ → NotificationDelivery
new_row alert_id key payload id now = record {
  id = id;
  alert_id = alert_id;
  key = key;
  status = DeliveryStatus.pending;
  attempts = 0;
  last_error = none;
  next_attempt_at = none;
  payload = payload;
  created_at = now;
}

-- Each channel in turn; the attempt is of the row that will be written, `row` being the first.
unfoldable pub dispatch : ℕ → Message → List Channel → List (String × ChannelResult)
dispatch row message [] = []
dispatch row message (c ∷ channels) =
    (c.name, dispatch_one c row message) ∷ dispatch (suc row) message channels

unfoldable pub channel_badges : List (String × ChannelResult) → List Badge
channel_badges [] = []
channel_badges ((name, result) ∷ results) = outcome name result ∷ channel_badges results

unfoldable pub owed_row : Option ℕ → Notification → ℕ → ℕ → NotificationDelivery
owed_row alert_id payload id now = record (new_row alert_id unrouted_key payload id now) {
  last_error = some unrouted;
}

unfoldable pub record_owed : Db → Option ℕ → Notification → ℕ → Db
record_owed db alert_id payload now = record db {
  deliveries = db.deliveries ++ (owed_row alert_id payload db.next_id now ∷ []);
  next_id = suc db.next_id;
  audit = db.audit ++ (unroutable alert_id ∷ []);
}

-- The rows of the loop over the results.
unfoldable pub rows_of :
    Settings
    → ℕ
    → Option ℕ
    → Notification
    → ℕ
    → List (String × ChannelResult)
    → List NotificationDelivery
rows_of settings now alert_id payload id [] = []
rows_of settings now alert_id payload id ((name, result) ∷ results) =
    fold_result settings now (new_row alert_id (channel_key name) payload id now) result
    ∷ rows_of settings now alert_id payload (suc id) results

unfoldable pub write_results :
    Settings → ℕ → Db → Option ℕ → Notification → List (String × ChannelResult) → Db × List Badge
write_results settings now db alert_id payload [] =
    (record_owed db alert_id payload now, no_channel_routed ∷ [])
write_results settings now db alert_id payload (r ∷ results) = (
  record db {
    deliveries = db.deliveries ++ rows_of settings now alert_id payload db.next_id (r ∷ results);
    next_id = db.next_id + length (r ∷ results);
  },
  channel_badges (r ∷ results),
)

-- The tables, and what the caller shows on the alert.
unfoldable pub record_dispatch :
    Settings → ℕ → Db → Option ℕ → Notification → List Channel → Db × List Badge
record_dispatch settings now db alert_id note channels =
    write_results settings now db alert_id note (dispatch db.next_id (single note) channels)
