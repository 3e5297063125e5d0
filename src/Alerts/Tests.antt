-- ===== src/Alerts/Tests.antt =====
-- central/worker/jobs.py: a toner that reads 8, 12 and 40 percent around a threshold of 10 with a
-- margin of 5.
use mathlib.Core.Path.{subst}
use printer_nanny.Common.{
  In, select, here, ℕ, ◌≡◌, refl, sym, arith, true, false, ◌&&◌, ◌||◌, none, some, [], ◌∷◌, In-cons,
  inl, inr, str_eq,
}
use printer_nanny.Suppression.Decide.{evaluate, decide, candidates}
use printer_nanny.Delivery.{DeliveryStatus}
use printer_nanny.Notify.{NotificationDelivery, withheld_key}
use printer_nanny.Notify.Deferred.{is_due_deferred}
use printer_nanny.Suppression.{active_windows, EventSeverity, AlertScope}
use printer_nanny.Alerts.{
  AlertConditionType, AlertState, DiscoveryState, SupplyType, SupplyClass, Printer, AlertRule,
  DedupeKey, supply_key, key_eq, low, at_level, Alert, alert_opened, was_emitted, same_transition,
  is_live_state, Db, Texts, Settings, find_open_alert, update_alert, emit,
}
use printer_nanny.Alerts.Lifecycle.{Pass}
use printer_nanny.Alerts.Evaluate.{
  evaluate_alerts, enabled_rules, is_rule_driven, escalate_alerts, resolve_stale, resolve_each,
  evaluate_rules, act_all, act, hold_if, is_active,
}
use printer_nanny.Alerts.Findings.{findings_of, each_printer}
use printer_nanny.Alerts.Conditions.{
  printers_in_scope, in_scope, low_supplies, is_receptacle, supply_at,
}
use printer_nanny.Alerts.Lifecycle.{note_of, decision_on}
use printer_nanny.Alerts.Evaluate.{escalate_one, printer_of, find_printer, rule_of, find_rule}
use printer_nanny.Alerts.Steps.{board_of, Steps}
use printer_nanny.Alerts.Sound.{IsSound, IsToldOf}
use printer_nanny.Alerts.Resolutions.{evaluate_alerts-Steps, evaluate_alerts-IsSound}
use printer_nanny.Alerts.Live.{has_live, AreDriven}
use printer_nanny.Notify.{Channel, dispatch_one}
use printer_nanny.Alerts.Routing.{route_channels, is_named, scope_matches}
use printer_nanny.Alerts.Held.{TakesAll, Adds, escalation_repeats_held}
use printer_nanny.Alerts.Hysteresis.{raised_by_any, held_by_any, evaluate_alerts-has_live}

abbrev texts : Texts
texts = record { title_of = λ t. "title"; body_of = λ d. "body"; strip = λ t. t; contains = str_eq }

abbrev settings : Settings
settings = record {
  delivery = record { max_attempts = 5; base_seconds = 60 };
  zone = record { local = λ t. t; utc = λ t. t };
  renotify_cooldown_min = 30;
  escalate_after_minutes = 0;
  supply_deadband_pct = 5;
  occurrence_clear_margin_pct = 20;
  max_error_alerts_per_printer = 5;
}

abbrev rule : AlertRule
rule = record {
  id = 4;
  scope = AlertScope.global;
  scope_id = none;
  condition_type = AlertConditionType.supply_below;
  threshold = some 10;
  severity = EventSeverity.warning;
  channel_ids = [];
  enabled = true;
  window_minutes = none;
  match_code = none;
  match_min_severity = none;
}

abbrev printer_at : ℕ → Printer
printer_at level = record {
  place = record { id = 7; client_id = some 1; site_id = some 2 };
  discovery_state = DiscoveryState.approved;
  last_seen = some 100;
  supplies =
      record {
        id = 3;
        type = SupplyType.toner;
        supply_class = SupplyClass.consumed;
        color = some "black";
        level_pct = some level;
      }
      ∷ [];
  label = "Front desk @ 10.0.0.9";
  client_name = some "Acme";
  site_name = some "Main";
}

abbrev pass_at : ℕ → Pass
pass_at level = record {
  texts = texts;
  settings = settings;
  fleet = record {
    rules = rule ∷ [];
    agents = [];
    subnets = [];
    printers = printer_at level ∷ [];
    events = [];
    windows = [];
  };
  candidates = [];
  now = 1000;
}

abbrev key : DedupeKey
key = supply_key 4 7 3

abbrev low_toner : Alert
low_toner = record {
  id = 0;
  rule_id = some 4;
  printer_id = some 7;
  agent_id = none;
  type = AlertConditionType.supply_below;
  severity = EventSeverity.warning;
  state = AlertState.acknowledged;
  title = low "black" "Front desk @ 10.0.0.9";
  detail = at_level "black" 8 10;
  dedupe_key = key;
  notified_channels = [];
  last_notified_at = some 900;
  escalation_level = 0;
  flap_count = 0;
  created_at = 900;
  resolved_at = none;
}

abbrev warned : Db
warned = record {
  alerts = low_toner ∷ [];
  next_alert = 1;
  deliveries = [];
  next_id = 0;
  audit = [];
  outbox = alert_opened 0 0 ∷ [];
}

low_toner-IsToldOf : IsToldOf (alert_opened 0 0 ∷ []) low_toner
unfolding was_emitted same_transition is_live_state
low_toner-IsToldOf = record {
  last = refl;
  ahead_opened = λ m lt. ground (arith, lt);
  ahead_resolved = λ m lt. refl;
  unresolved = λ h. refl;
}

warned-IsSound : IsSound (board_of warned)
unfolding was_emitted same_transition key_eq is_live_state
warned-IsSound = record {
  distinct = λ i. ground arith;
  below = λ i h. ground (arith, h);
  one_live = λ k. ground arith;
  views = λ a m. elim (In-cons m) [
    | inl e ↦ subst (IsToldOf (alert_opened 0 0 ∷ [])) (sym e) low_toner-IsToldOf
    | inr n ↦ elim n [ ]
  ];
  unheard = λ i h. record { never_opened = λ m. ground (arith, h); never_resolved = λ m. refl };
}

warned-AreDriven : AreDriven key warned.alerts
unfolding is_rule_driven
warned-AreDriven x m is_key = elim (In-cons m) [
  | inl e ↦ subst (λ z. is_rule_driven z.type ≡ true) (sym e) refl
  | inr n ↦ elim n [ ]
]

evaluate_alerts-Steps_example :
    Steps (board_of warned) (board_of (evaluate_alerts (pass_at 40) warned))
evaluate_alerts-Steps_example = evaluate_alerts-Steps (pass_at 40) warned warned-IsSound

evaluate_alerts-IsSound_example : IsSound (board_of (evaluate_alerts (pass_at 40) warned))
evaluate_alerts-IsSound_example = evaluate_alerts-IsSound (pass_at 40) warned warned-IsSound

evaluate_alerts-has_live_example : has_live key (evaluate_alerts (pass_at 12) warned).alerts ≡ (
    raised_by_any (pass_at 12) key (enabled_rules (pass_at 12).fleet)
    || (held_by_any (pass_at 12) key (enabled_rules (pass_at 12).fleet)
        && has_live key warned.alerts))
evaluate_alerts-has_live_example =
    evaluate_alerts-has_live (pass_at 12) warned key warned-IsSound warned-AreDriven

held_at_12 : has_live key (evaluate_alerts (pass_at 12) warned).alerts ≡ true
unfolding evaluate_alerts escalate_alerts resolve_stale resolve_each evaluate_rules act_all
    findings_of each_printer printers_in_scope in_scope low_supplies is_receptacle supply_at act
    hold_if find_open_alert key_eq is_live_state is_rule_driven is_active update_alert emit
    was_emitted same_transition
held_at_12 = refl

over_at_40 : has_live key (evaluate_alerts (pass_at 40) warned).alerts ≡ false
unfolding evaluate_alerts escalate_alerts resolve_stale resolve_each evaluate_rules act_all
    findings_of each_printer printers_in_scope in_scope low_supplies is_receptacle supply_at act
    hold_if find_open_alert key_eq is_live_state is_rule_driven is_active update_alert emit
    was_emitted same_transition
over_at_40 = refl

-- A notification that a window held until 950.
abbrev held_row : NotificationDelivery
held_row = record {
  id = 0;
  alert_id = some 0;
  key = withheld_key;
  status = DeliveryStatus.deferred;
  attempts = 0;
  last_error = none;
  next_attempt_at = some 950;
  payload = note_of texts low_toner none;
  created_at = 900;
}

abbrev after_the_window : Db
after_the_window = record warned { deliveries = held_row ∷ []; next_id = 1 }

-- A channel that is always there and takes whatever it is given.
abbrev mail : Channel
mail = record {
  name = "Email";
  meets_severity = λ s. true;
  send = λ i m. some (record { ok = true; sent = true; text = "sent" });
}

abbrev routed_pass : Pass
routed_pass = record (pass_at 8) {
  candidates =
      record { channel = mail; row_id = none; scope = AlertScope.global; scope_id = none } ∷ [];
}

goes_out :
    (decision_on routed_pass low_toner (printer_of routed_pass.fleet (some 7))).dispatch ≡ true
unfolding evaluate decide active_windows candidates find_printer
goes_out = refl

is_due_at_1000 : is_due_deferred 1000 held_row ≡ true
unfolding is_due_deferred
is_due_at_1000 = refl

mail_is_routed : In mail (
    route_channels routed_pass.candidates
      (rule_of routed_pass.fleet low_toner.rule_id)
      (printer_of routed_pass.fleet low_toner.printer_id)
      low_toner.severity)
unfolding route_channels is_named scope_matches find_rule
mail_is_routed = here

mail-TakesAll : TakesAll mail
unfolding dispatch_one
mail-TakesAll = λ i m. (refl, refl)

escalation_repeats_held_example :
    In held_row (
      select
        (is_due_deferred 1000)
        (escalate_one routed_pass after_the_window low_toner).deliveries)
    × Adds low_toner.id
        (note_of texts low_toner (printer_of routed_pass.fleet (some 7)))
        mail
        after_the_window.deliveries
        (escalate_one routed_pass after_the_window low_toner).deliveries
escalation_repeats_held_example =
    escalation_repeats_held routed_pass after_the_window low_toner held_row mail goes_out here refl
      is_due_at_1000 mail_is_routed mail-TakesAll
