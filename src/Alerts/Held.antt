-- ===== src/Alerts/Held.antt =====
-- central/worker/jobs.py: `_escalate_alerts`, which runs before the digest of what quiet hours held
-- (`flush_quiet_hours`, central/channels/delivery.py), in the first cycle after the window.
use printer_nanny.Common.{
  suc, inl, inr, In-cons, here, there, ℕ, ◌≡◌, refl, sym, ap, ◌∙◌, true, Option, some, List, [],
  ◌∷◌, ◌++◌, select, In, In-left, selected-In,
}
use mathlib.Core.Path.{subst}
use printer_nanny.Delivery.{DeliveryStatus, ChannelResult, apply_result}
use printer_nanny.Notify.{
  Notification, NotificationDelivery, Message, single, Channel, channel_key, dispatch_one,
  fold_result,
}
use printer_nanny.Notify as Notify
use printer_nanny.Notify.Sending.{new_row, record_dispatch, write_results, rows_of, dispatch}
use printer_nanny.Notify.Deferred.{is_due_deferred}
use printer_nanny.Alerts.{Alert, AlertRule, Printer, Db}
use printer_nanny.Alerts.Routing.{route_channels}
use printer_nanny.Alerts.Lifecycle.{
  Pass, deliveries_of, note_of, decision_on, notify_alert, notify_if, send_now,
}
use printer_nanny.Alerts.Evaluate.{count_escalation, escalate_one, rule_of, printer_of}

-- Whatever a channel like this is given, it sends it, and that goes well.
abbrev pub TakesAll : Channel → Type 0
TakesAll c =
    (i : ℕ) (m : Message) → ((dispatch_one c i m).ok ≡ true) × ((dispatch_one c i m).sent ≡ true)

-- The row says that the note of the alert went out by the channel.
pub record IsReceipt (alert_id : ℕ) (payload : Notification) (c : Channel)
    (row : NotificationDelivery) : Type 0 where
  pub of_alert : row.alert_id ≡ some alert_id
  pub by_channel : row.key ≡ channel_key c.name
  pub carries : row.payload ≡ payload
  pub went_out : row.status ≡ DeliveryStatus.delivered

taken-IsReceipt :
    (settings : Notify.Settings) (now alert_id id : ℕ) (payload : Notification) (c : Channel)
    (r : ChannelResult)
    → r.ok ≡ true
    → r.sent ≡ true
    → IsReceipt alert_id payload c
        (fold_result settings now (new_row (some alert_id) (channel_key c.name) payload id now) r)
unfolding fold_result apply_result
taken-IsReceipt settings now alert_id id payload c r ok sent = record {
  of_alert = refl;
  by_channel = refl;
  carries = refl;
  went_out = rw (ok, sent) refl;
}

-- Among the rows of a dispatch there is one for each channel that takes all it is given.
rows_of-IsReceipt :
    (settings : Notify.Settings) (now alert_id id i : ℕ) (payload : Notification) (c : Channel)
    (channels : List Channel)
    → In c channels
    → TakesAll c
    → (row : NotificationDelivery) × In row
        (rows_of settings now (some alert_id) payload id (dispatch i (single payload) channels))
      × IsReceipt alert_id payload c row
unfolding rows_of dispatch
rows_of-IsReceipt settings now alert_id id i payload c [] m takes = elim m [ ]
rows_of-IsReceipt settings now alert_id id i payload c (x ∷ channels) m takes = elim (In-cons m) [
  | inl same ↦
      let takes_x = subst TakesAll same takes in
      let (ok, sent) = takes_x i (single payload) in
      (
        fold_result settings now (new_row (some alert_id) (channel_key x.name) payload id now)
            (dispatch_one x i (single payload)),
        here,
        subst
            (λ z. IsReceipt alert_id payload z (
              fold_result settings now (new_row (some alert_id) (channel_key x.name) payload id now)
                (dispatch_one x i (single payload))))
            (sym same)
            (taken-IsReceipt settings now alert_id id payload x (dispatch_one x i (single payload))
              ok sent),
      )
  | inr later ↦
      let (row, n, receipt) =
        rows_of-IsReceipt settings now alert_id (suc id) (suc i) payload c channels later takes in
      (row, there n, receipt)
]

-- A send that adds rows, one of them the channel's receipt, and touches no row that was there.
pub record Adds (alert_id : ℕ) (payload : Notification) (c : Channel)
    (before after : List NotificationDelivery) : Type 0 where
  pub rows : List NotificationDelivery
  pub added : after ≡ before ++ rows
  pub receipt : (row : NotificationDelivery) × In row rows × IsReceipt alert_id payload c row

record_dispatch-Adds :
    (settings : Notify.Settings) (now : ℕ) (db : Notify.Db) (alert_id : ℕ) (payload : Notification)
    (c : Channel) (channels : List Channel)
    → In c channels
    → TakesAll c
    → Adds alert_id payload c db.deliveries
        (record_dispatch settings now db (some alert_id) payload channels).0.deliveries
unfolding record_dispatch write_results dispatch
record_dispatch-Adds settings now db alert_id payload c [] m takes = elim m [ ]
record_dispatch-Adds settings now db alert_id payload c (x ∷ channels) m takes = record {
  rows =
      rows_of settings now (some alert_id) payload db.next_id
        (dispatch db.next_id (single payload) (x ∷ channels));
  added = refl;
  receipt =
      rows_of-IsReceipt settings now alert_id db.next_id db.next_id payload c (x ∷ channels) m
        takes;
}

send_now-Adds :
    (pass : Pass) (db : Db) (a : Alert) (rule : Option AlertRule) (printer : Option Printer)
    (c : Channel)
    → In c (route_channels pass.candidates rule printer a.severity)
    → TakesAll c
    → Adds a.id
        (note_of pass.texts a printer)
        c
        db.deliveries
        (send_now pass db a rule printer).deliveries
unfolding send_now
send_now-Adds pass db a rule printer c =
    record_dispatch-Adds pass.settings.delivery pass.now (deliveries_of db) a.id
      (note_of pass.texts a printer) c (route_channels pass.candidates rule printer a.severity)

escalated :
    (pass : Pass) (db : Db) (a : Alert)
    → (decision_on pass a (printer_of pass.fleet a.printer_id)).dispatch ≡ true
    → (escalate_one pass db a).deliveries
      ≡ (send_now pass db a
          (rule_of pass.fleet a.rule_id)
          (printer_of pass.fleet a.printer_id)).deliveries
unfolding escalate_one notify_alert notify_if count_escalation
escalated pass db a go =
    let rule = rule_of pass.fleet a.rule_id in
    let printer = printer_of pass.fleet a.printer_id in
    ap (λ g. (count_escalation a.id (notify_if g pass db a rule printer)).deliveries) go

-- An escalation that no window holds sends an alert's note beside the row of the same alert that an
-- earlier window held: where a channel that the alert is routed to takes it, the table keeps all
-- its rows and gains one of the alert, delivered by that channel with the alert's note; and the
-- held row is still due for the digest.
pub escalation_repeats_held :
    (pass : Pass) (db : Db) (a : Alert) (d : NotificationDelivery) (c : Channel)
    → (decision_on pass a (printer_of pass.fleet a.printer_id)).dispatch ≡ true
    → In d db.deliveries
    → d.alert_id ≡ some a.id
    → is_due_deferred pass.now d ≡ true
    → In c (
        route_channels pass.candidates
          (rule_of pass.fleet a.rule_id)
          (printer_of pass.fleet a.printer_id)
          a.severity)
    → TakesAll c
    → In d (select (is_due_deferred pass.now) (escalate_one pass db a).deliveries)
      × Adds a.id
          (note_of pass.texts a (printer_of pass.fleet a.printer_id))
          c
          db.deliveries
          (escalate_one pass db a).deliveries
escalation_repeats_held pass db a d c go m own due routed takes =
    let rule = rule_of pass.fleet a.rule_id in
    let printer = printer_of pass.fleet a.printer_id in
    let sent = send_now-Adds pass db a rule printer c routed takes in
    let after : (escalate_one pass db a).deliveries ≡ db.deliveries ++ sent.rows =
      escalated pass db a go ∙ sent.added in
    (
      selected-In (is_due_deferred pass.now) d (escalate_one pass db a).deliveries
          (subst (In d) (sym after) (In-left sent.rows m)) due,
      record { rows = sent.rows; added = after; receipt = sent.receipt },
    )
