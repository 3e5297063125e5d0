-- ===== src/Alerts/Evaluate.antt =====
-- central/worker/jobs.py: `evaluate_alerts` over what the rules find, and its other passes.
use printer_nanny.Common.{
  ℕ, suc, ◌+◌, ◌*◌, Bool, true, false, ◌&&◌, ◌||◌, not, Option, none, some, List, [], ◌∷◌, select,
  leb, ◌==◌, get_or, if◌then◌else◌,
}
use printer_nanny.Alerts.{
  AlertConditionType, manual_issue, maintenance_due, predicted_depletion, resolved, Printer,
  AlertRule, DedupeKey, key_eq, Detail, Alert, alert_resolved, Fleet, Db, Settings, is_live,
  find_open_alert, update_alert, emit,
}
use printer_nanny.Alerts.Conditions.{Finding, raise, hold, recede}
use printer_nanny.Alerts.Findings.{findings_of}
use printer_nanny.Alerts.Lifecycle.{Pass, notify_alert, with_detail, open_alert}

unfoldable pub hold_if : DedupeKey → Db × List DedupeKey → Option Alert → Db × List DedupeKey
hold_if key s none = s
hold_if key (db, active) (some live) = (db, key ∷ active)

unfoldable pub recede_if :
    Settings → DedupeKey → Detail → ℕ → Db × List DedupeKey → Option Alert → Db × List DedupeKey
recede_if settings key detail window s none = s
recede_if settings key detail window (db, active) (some live) =
    (with_detail settings live detail (some window) db, key ∷ active)

-- One step of the loop: the tables, and the keys that are active so far.
unfoldable pub act : Pass → AlertRule → Db × List DedupeKey → Finding → Db × List DedupeKey
act pass rule (db, active) (raise d) = (open_alert pass db rule d, d.key ∷ active)
act pass rule (db, active) (hold key) = hold_if key (db, active) (find_open_alert key db.alerts)
act pass rule (db, active) (recede key detail window) =
    recede_if pass.settings key detail window (db, active) (find_open_alert key db.alerts)

unfoldable pub act_all : Pass → AlertRule → Db × List DedupeKey → List Finding → Db × List DedupeKey
act_all pass rule s [] = s
act_all pass rule s (f ∷ findings) = act_all pass rule (act pass rule s f) findings

unfoldable pub evaluate_rules : Pass → Db × List DedupeKey → List AlertRule → Db × List DedupeKey
evaluate_rules pass s [] = s
evaluate_rules pass s (rule ∷ rules) =
    evaluate_rules pass
      (act_all pass rule s (findings_of pass.texts pass.settings pass.fleet pass.now rule)) rules

abbrev pub enabled_rules : Fleet → List AlertRule
enabled_rules fleet = select (λ r. r.enabled) fleet.rules

-- Those that resolve by themselves; the others have a life of their own.
unfoldable pub is_rule_driven : AlertConditionType → Bool
is_rule_driven manual_issue = false
is_rule_driven maintenance_due = false
is_rule_driven predicted_depletion = false
is_rule_driven _ = true

unfoldable pub is_active : DedupeKey → List DedupeKey → Bool
is_active key [] = false
is_active key (k ∷ active) = key_eq k key || is_active key active

abbrev pub is_stale : List DedupeKey → Alert → Bool
is_stale active a = is_live a && (is_rule_driven a.type && not (is_active a.dedupe_key active))

abbrev pub closed : ℕ → Alert → Alert
closed now a = record a { state = resolved; resolved_at = some now }

-- The loop over the live alerts.
unfoldable pub resolve_each : ℕ → List DedupeKey → Db → List Alert → Db
resolve_each now active db [] = db
resolve_each now active db (a ∷ alerts) =
    let rest = resolve_each now active db alerts in
    let after =
      resolve_each now active
        (record db {
          alerts = update_alert a.id (closed now) db.alerts;
          outbox = emit (alert_resolved a.id a.flap_count) db.outbox;
        })
        alerts in
    if is_stale active a then after else rest

unfoldable pub resolve_stale : ℕ → List DedupeKey → Db → Db
resolve_stale now active db = resolve_each now active db (select is_live db.alerts)

unfoldable pub find_rule : ℕ → List AlertRule → Option AlertRule
find_rule id [] = none
find_rule id (r ∷ rules) = let rest = find_rule id rules in if r.id == id then some r else rest

unfoldable pub find_printer : ℕ → List Printer → Option Printer
find_printer id [] = none
find_printer id (p ∷ printers) =
    let rest = find_printer id printers in if p.place.id == id then some p else rest

abbrev pub rule_of : Fleet → Option ℕ → Option AlertRule
rule_of fleet none = none
rule_of fleet (some id) = find_rule id fleet.rules

abbrev pub printer_of : Fleet → Option ℕ → Option Printer
printer_of fleet none = none
printer_of fleet (some id) = find_printer id fleet.printers

-- `now - baseline >= window`
unfoldable pub is_escalation_due : Pass → Alert → Bool
is_escalation_due pass a =
    leb (get_or a.last_notified_at a.created_at + pass.settings.escalate_after_minutes * 60)
      pass.now

abbrev pub raised_level : Alert → Alert
raised_level a = record a { escalation_level = suc a.escalation_level }

unfoldable pub count_escalation : ℕ → Db × Bool → Db
count_escalation id (db, false) = db
count_escalation id (db, true) = record db { alerts = update_alert id raised_level db.alerts }

unfoldable pub escalate_one : Pass → Db → Alert → Db
escalate_one pass db a =
    count_escalation a.id
      (notify_alert pass db a (rule_of pass.fleet a.rule_id) (printer_of pass.fleet a.printer_id))

unfoldable pub escalate_each : Pass → Db → List Alert → Db
escalate_each pass db [] = db
escalate_each pass db (a ∷ alerts) =
    let rest = escalate_each pass db alerts in
    let after = escalate_each pass (escalate_one pass db a) alerts in
    if is_escalation_due pass a then after else rest

unfoldable pub escalate_alerts : Pass → Db → Db
escalate_alerts pass db =
    if pass.settings.escalate_after_minutes == 0
    then db
    else escalate_each pass db (select is_live db.alerts)

unfoldable pub evaluate_alerts : Pass → Db → Db
evaluate_alerts pass db =
    let (opened, active) = evaluate_rules pass (db, []) (enabled_rules pass.fleet) in
    escalate_alerts pass (resolve_stale pass.now active opened)
