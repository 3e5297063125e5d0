-- ===== src/Notify.antt =====
-- central/channels: notifications, the channels that take them (registry.py: `dispatch`) and the
-- rows of deliveries (delivery.py). Instants and durations are seconds. What a channel is made of,
-- its severity gate and its network calls, is the argument `Channel`; names of channels are
-- distinct, as those of the registry are.
mod Rows
pub mod Sending
mod Tests
mod Lasting
mod Late
mod Owed
mod Restamps
mod Retry
pub mod Deferred
mod Digests
mod Fated
mod Fates
mod Targets
mod Answers
mod Wanted
mod Passed
mod Batches
mod Handled
mod Flushed
mod Grouped
mod Entries
mod Collected
mod Flush
use printer_nanny.Common.{
  ℕ, ◌+◌, String, Bool, true, false, ◌&&◌, ◌||◌, not, Option, none, some, List, [], ◌∷◌, leb,
  if◌then◌else◌, ◌==◌, is_some_of, str_eq, select,
}
use printer_nanny.Suppression.{EventSeverity}
use printer_nanny.Delivery.{
  DeliveryStatus, pending, failed, Reason, resolved_first, EventDelivery, ChannelResult,
  apply_result,
}

-- The fields that a retry needs, which are all that is stored as a row's payload.
pub record Notification : Type 0 where
  pub title : String
  pub body : String
  pub severity : EventSeverity
  pub client_name : Option String
  pub site_name : Option String
  pub printer_label : Option String
  pub alert_id : Option ℕ

-- What a digest is rendered from.
pub record Digest : Type 0 where
  pub entries : List Notification
  pub resolved_count : ℕ
  pub top_severity : EventSeverity
  pub client : Option String

pub data Message : Type 0 where
  single : Notification → Message
  digest : Digest → Message

abbrev pub severity_of : Message → EventSeverity
severity_of (single note) = note.severity
severity_of (digest d) = d.top_severity

-- `send` is asked once for each row that is attempted, by the row's id, and is absent where it
-- raises.
pub record Channel : Type 0 where
  pub name : String
  pub meets_severity : EventSeverity → Bool
  pub send : ℕ → Message → Option ChannelResult

-- Names that no channel has stand for no channel at all.
pub data ChannelKey : Type 0 where
  unrouted_key withheld_key : ChannelKey
  channel_key : String → ChannelKey

pub record NotificationDelivery : Type 0 where
  pub id : ℕ
  pub alert_id : Option ℕ
  pub key : ChannelKey
  pub status : DeliveryStatus
  pub attempts : ℕ
  pub last_error : Option Reason
  pub next_attempt_at : Option ℕ
  pub payload : Notification
  pub created_at : ℕ

-- `Alert.notified_channels`: what the alert's page shows.
pub data Badge : Type 0 where
  outcome : String → ChannelResult → Badge
  no_channel_routed : Badge
  withheld : Bool → ℕ → Badge

-- Of an alert, with its printer's client and that client's name.
pub record Alert : Type 0 where
  pub id : ℕ
  pub is_resolved : Bool
  pub notified_channels : List Badge
  pub last_notified_at : Option ℕ
  pub client_id : Option ℕ
  pub client_name : Option String

pub data AuditEntry : Type 0 where
  unroutable gave_up_on : Option ℕ → AuditEntry

-- The tables, the rows in the order of their ids.
pub record Db : Type 0 where
  pub deliveries : List NotificationDelivery
  pub next_id : ℕ
  pub alerts : List Alert
  pub audit : List AuditEntry

pub record Settings : Type 0 where
  pub max_attempts : ℕ
  pub base_seconds : ℕ

-- One channel's turn in `dispatch`.
unfoldable pub dispatch_one : Channel → ℕ → Message → ChannelResult
dispatch_one channel row message =
    if channel.meets_severity (severity_of message)
    then (elim (channel.send row message) [
      | none ↦ record { ok = false; sent = true; text = "unhandled" }
      | some result ↦ result
    ])
    else record { ok = true; sent = false; text = "skipped: severity below the channel's" }

-- The columns that `_apply_result` writes are the same in both tables of deliveries.
abbrev pub as_event_delivery : NotificationDelivery → EventDelivery
as_event_delivery d = record {
  id = d.id;
  event_id = 0;
  subscription_id = 0;
  status = d.status;
  attempts = d.attempts;
  last_error = d.last_error;
  next_attempt_at = d.next_attempt_at;
  response_status = none;
}

unfoldable pub fold_result :
    Settings → ℕ → NotificationDelivery → ChannelResult → NotificationDelivery
fold_result settings now d result =
    let e =
      apply_result (as_event_delivery d) result now settings.max_attempts settings.base_seconds in
    record d {
      status = e.status;
      attempts = e.attempts;
      last_error = e.last_error;
      next_attempt_at = e.next_attempt_at;
    }

-- `_close`
unfoldable pub close : Reason → NotificationDelivery → NotificationDelivery
close reason d = record d {
  status = DeliveryStatus.dead;
  last_error = some reason;
  next_attempt_at = none;
}

unfoldable pub is_open : DeliveryStatus → Bool
is_open pending = true
is_open failed = true
is_open _ = false

-- `_due_clause`
unfoldable pub is_due : ℕ → NotificationDelivery → Bool
is_due now d = is_open d.status && elim d.next_attempt_at [ none ↦ true | some at ↦ leb at now ]

unfoldable pub find_alert : ℕ → List Alert → Option Alert
find_alert id [] = none
find_alert id (a ∷ alerts) = let rest = find_alert id alerts in if a.id == id then some a else rest

abbrev pub resolved_of : Option Alert → Bool
resolved_of none = false
resolved_of (some a) = a.is_resolved

-- `_alert_resolved`
unfoldable pub alert_resolved : List Alert → NotificationDelivery → Bool
alert_resolved alerts d = elim d.alert_id [
  | none ↦ false
  | some id ↦ resolved_of (find_alert id alerts)
]

-- A row of the table, rewritten.
unfoldable pub put_row :
    NotificationDelivery → List NotificationDelivery → List NotificationDelivery
put_row d [] = []
put_row d (x ∷ rows) = let rest = put_row d rows in if x.id == d.id then d ∷ rest else x ∷ rest

unfoldable pub put_alert : Alert → List Alert → List Alert
put_alert a [] = []
put_alert a (x ∷ alerts) =
    let rest = put_alert a alerts in if x.id == a.id then a ∷ rest else x ∷ rest
