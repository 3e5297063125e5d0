-- ===== src/Alerts/Lifecycle.antt =====
-- central/worker/jobs.py: `_open_alert`, `_revive_flapping_alert`, `_notify_alert` and
-- `_record_withheld`.
use printer_nanny.Common.{
  ℕ, suc, ◌+◌, ◌*◌, Bool, true, false, ◌&&◌, not, Option, none, some, List, [], ◌∷◌, ◌++◌, min, ltb,
  ◌==◌, is_none, is_some_of, get_or, if◌then◌else◌,
}
use printer_nanny.Suppression.{EventSeverity}
use printer_nanny.Suppression as Suppression
use printer_nanny.Suppression.Decide.{Decision, evaluate}
use printer_nanny.Delivery.{DeliveryStatus, deferred, suppressed, withheld_by}
use printer_nanny.Notify.{
  Notification, NotificationDelivery, Badge, withheld, withheld_key, put_row, Channel,
}
use printer_nanny.Notify as Notify
use printer_nanny.Notify.Sending.{record_dispatch, new_row}
use printer_nanny.Alerts.{
  AlertState, still_open, resolved, Printer, AlertRule, DedupeKey, key_eq, Detail, flapped, Alert,
  alert_opened, Fleet, Db, Texts, RoutableChannel, Settings, find_open_alert, update_alert, emit,
}
use printer_nanny.Alerts.Routing.{route_channels}
use printer_nanny.Alerts.Conditions.{Demand}

unfoldable pub flap_cooldown_minutes : Settings → Option ℕ → ℕ
flap_cooldown_minutes settings none = settings.renotify_cooldown_min
flap_cooldown_minutes settings (some cap) = min settings.renotify_cooldown_min cap

unfoldable pub flap_suffix : Detail → ℕ → ℕ → Detail
flap_suffix detail flap_count minutes =
    if flap_count == 0 then detail else flapped detail flap_count minutes

abbrev pub is_resolved : AlertState → Bool
is_resolved resolved = true
is_resolved _ = false

-- Of two alerts with the key that were resolved, the one that was last.
unfoldable pub later_resolved : Alert → Option Alert → Alert
later_resolved a none = a
later_resolved a (some b) = if ltb (get_or a.resolved_at 0) (get_or b.resolved_at 0) then b else a

unfoldable pub last_resolved : DedupeKey → List Alert → Option Alert
last_resolved key [] = none
last_resolved key (a ∷ alerts) =
    let rest = last_resolved key alerts in
    if key_eq a.dedupe_key key && (is_resolved a.state && not (is_none a.resolved_at))
    then some (later_resolved a rest)
    else rest

-- One that was resolved no longer than the minutes ago.
unfoldable pub if_recent : ℕ → ℕ → Option Alert → Option Alert
if_recent now minutes none = none
if_recent now minutes (some a) =
    if ltb (get_or a.resolved_at 0 + minutes * 60) now then none else some a

-- The last one that was resolved, if the cooldown reaches back to it.
unfoldable pub flapping_alert : Settings → DedupeKey → ℕ → Option ℕ → List Alert → Option Alert
flapping_alert settings key now cap alerts =
    let minutes = flap_cooldown_minutes settings cap in
    if minutes == 0 then none else if_recent now minutes (last_resolved key alerts)

abbrev pub revived : Detail → ℕ → Alert → Alert
revived detail minutes a = record a {
  state = still_open;
  resolved_at = none;
  flap_count = suc a.flap_count;
  detail = flap_suffix detail (suc a.flap_count) minutes;
}

-- What a pass works with.
pub record Pass : Type 0 where
  pub texts : Texts
  pub settings : Settings
  pub fleet : Fleet
  pub candidates : List RoutableChannel
  pub now : ℕ

-- The part of the tables that a delivery writes.
abbrev pub deliveries_of : Db → Notify.Db
deliveries_of db = record {
  deliveries = db.deliveries;
  next_id = db.next_id;
  alerts = [];
  audit = db.audit;
}

abbrev pub with_deliveries : Db → Notify.Db → Db
with_deliveries db n = record db { deliveries = n.deliveries; next_id = n.next_id; audit = n.audit }

abbrev pub is_withheld_status : DeliveryStatus → Bool
is_withheld_status deferred = true
is_withheld_status suppressed = true
is_withheld_status _ = false

unfoldable pub withheld_row : ℕ → List NotificationDelivery → Option NotificationDelivery
withheld_row alert [] = none
withheld_row alert (d ∷ rows) =
    let rest = withheld_row alert rows in
    if is_some_of d.alert_id alert && is_withheld_status d.status then some d else rest

abbrev pub refreshed : Decision → NotificationDelivery → NotificationDelivery
refreshed decision d = record d {
  status = if decision.suppress then suppressed else deferred;
  next_attempt_at = if decision.suppress then none else decision.deferred_until;
  last_error = some (withheld_by (get_or decision.window_id 0));
}

abbrev pub note_of : Texts → Alert → Option Printer → Notification
note_of texts a printer = record {
  title = texts.title_of a.title;
  body = texts.body_of a.detail;
  severity = a.severity;
  client_name = elim printer [ none ↦ none | some p ↦ p.client_name ];
  site_name = elim printer [ none ↦ none | some p ↦ p.site_name ];
  printer_label = elim printer [ none ↦ none | some p ↦ some p.label ];
  alert_id = some a.id;
}

abbrev pub badged : Badge → Alert → Alert
badged badge a = record a { notified_channels = badge ∷ [] }

abbrev pub badge_of : Decision → Badge
badge_of decision = withheld decision.defer (get_or decision.window_id 0)

-- The row that is there is refreshed, or else a row is added.
unfoldable pub put_withheld : Pass → Db → Alert → Decision → Option NotificationDelivery → Db
put_withheld pass db a decision (some d) = record db {
  deliveries = put_row (refreshed decision d) db.deliveries;
  alerts = update_alert a.id (badged (badge_of decision)) db.alerts;
}
put_withheld pass db a decision none = record db {
  deliveries =
      db.deliveries
      ++ (refreshed decision
            (new_row (some a.id) withheld_key (note_of pass.texts a none) db.next_id pass.now)
          ∷ []);
  next_id = suc db.next_id;
  alerts = update_alert a.id (badged (badge_of decision)) db.alerts;
}

-- One held or dropped row for an alert.
unfoldable pub record_withheld : Pass → Db → Alert → Decision → Db
record_withheld pass db a decision =
    put_withheld pass db a decision (withheld_row a.id db.deliveries)

abbrev pub place_of : Option Printer → Option Suppression.Printer
place_of none = none
place_of (some p) = some p.place

abbrev pub notified : List Badge → ℕ → Alert → Alert
notified badges now a = record a { notified_channels = badges; last_notified_at = some now }

unfoldable pub send_now : Pass → Db → Alert → Option AlertRule → Option Printer → Db
send_now pass db a rule printer =
    let (sent, badges) =
      record_dispatch pass.settings.delivery pass.now (deliveries_of db) (some a.id)
        (note_of pass.texts a printer) (route_channels pass.candidates rule printer a.severity) in
    record (with_deliveries db sent) {
      alerts = update_alert a.id (notified badges pass.now) db.alerts;
    }

abbrev pub decision_on : Pass → Alert → Option Printer → Decision
decision_on pass a printer =
    evaluate pass.fleet.windows (place_of printer) (some a.severity) pass.now pass.settings.zone

unfoldable pub notify_if : Bool → Pass → Db → Alert → Option AlertRule → Option Printer → Db × Bool
notify_if false pass db a rule printer =
    (record_withheld pass db a (decision_on pass a printer), false)
notify_if true pass db a rule printer = (send_now pass db a rule printer, true)

-- The tables, and whether the notification went out.
unfoldable pub notify_alert : Pass → Db → Alert → Option AlertRule → Option Printer → Db × Bool
notify_alert pass db a rule printer =
    notify_if (decision_on pass a printer).dispatch pass db a rule printer

unfoldable pub new_alert : Pass → Db → AlertRule → Demand → Alert
new_alert pass db rule d = record {
  id = db.next_alert;
  rule_id = some rule.id;
  printer_id = elim d.printer [ none ↦ none | some p ↦ some p.place.id ];
  agent_id = d.agent_id;
  type = rule.condition_type;
  severity = rule.severity;
  state = still_open;
  title = d.title;
  detail = d.detail;
  dedupe_key = d.key;
  notified_channels = [];
  last_notified_at = none;
  escalation_level = 0;
  flap_count = 0;
  created_at = pass.now;
  resolved_at = none;
}

abbrev pub with_new : Pass → Db → AlertRule → Demand → Db
with_new pass db rule d = record db {
  alerts = db.alerts ++ (new_alert pass db rule d ∷ []);
  next_alert = suc db.next_alert;
  outbox = emit (alert_opened db.next_alert 0) db.outbox;
}

abbrev pub worded : Detail → Alert → Alert
worded detail a = record a { detail = detail }

abbrev pub with_detail : Settings → Alert → Detail → Option ℕ → Db → Db
with_detail settings live detail cap db = record db {
  alerts =
      update_alert live.id
        (worded (flap_suffix detail live.flap_count (flap_cooldown_minutes settings cap)))
        db.alerts;
}

-- A flapping alert is opened again and nobody is told, or else a new one is opened.
unfoldable pub reopen_or_new : Pass → Db → AlertRule → Demand → Option Alert → Db
reopen_or_new pass db rule d (some a) = record db {
  alerts =
      update_alert a.id (revived d.detail (flap_cooldown_minutes pass.settings d.cooldown_cap_min))
        db.alerts;
  outbox = emit (alert_opened a.id (suc a.flap_count)) db.outbox;
}
reopen_or_new pass db rule d none =
    (notify_alert pass (with_new pass db rule d) (new_alert pass db rule d) (some rule) d.printer).0

-- A live alert is left alone but for its text.
unfoldable pub open_unless : Pass → Db → AlertRule → Demand → Option Alert → Db
open_unless pass db rule d (some live) =
    if d.refresh_detail then with_detail pass.settings live d.detail d.cooldown_cap_min db else db
open_unless pass db rule d none =
    reopen_or_new pass db rule d
      (flapping_alert pass.settings d.key pass.now d.cooldown_cap_min db.alerts)

unfoldable pub open_alert : Pass → Db → AlertRule → Demand → Db
open_alert pass db rule d = open_unless pass db rule d (find_open_alert d.key db.alerts)
