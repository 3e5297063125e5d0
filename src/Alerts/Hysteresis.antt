-- ===== src/Alerts/Hysteresis.antt =====
-- central/worker/jobs.py: `evaluate_alerts`, as a rule on which keys have a live alert.
use printer_nanny.Common.{
  ℕ, ◌≡◌, refl, sym, ◌∙◌, ap, arith, Bool, true, false, ◌&&◌, ◌||◌, List, [], ◌∷◌, ◌==◌,
  if◌then◌else◌, Bool-cases, inl, inr, ltb, select,
}
use printer_nanny.Alerts.{DedupeKey, Alert, AlertRule, Db, is_live}
use printer_nanny.Alerts.Rows.{count_live}
use printer_nanny.Alerts.Findings.{findings_of}
use printer_nanny.Alerts.Lifecycle.{Pass, notify_alert, notify_if, decision_on}
use printer_nanny.Alerts.Evaluate.{
  evaluate_rules, act_all, enabled_rules, is_active, resolve_stale, count_escalation, raised_level,
  escalate_one, escalate_each, escalate_alerts, is_escalation_due, evaluate_alerts, rule_of,
  printer_of,
}
use printer_nanny.Alerts.Steps.{board_of}
use printer_nanny.Alerts.Sound.{IsSound}
use printer_nanny.Alerts.Kept.{Steps-IsSound}
use printer_nanny.Alerts.Passes.{WritesOn, notify_if-WritesOn, raised_level-Writes}
use printer_nanny.Alerts.Openings.{act_all-Steps, evaluate_rules-Steps}
use printer_nanny.Alerts.Live.{has_live, AreDriven, Writes-has_live}
use printer_nanny.Alerts.Opened.{is_raised, is_held}
use printer_nanny.Alerts.Acted.{Acted, Acted-then, Acted-none, act_all-Acted}
use printer_nanny.Alerts.Closing.{resolve_stale-count}

module _ (pass : Pass) (k : DedupeKey) where
  -- Does a rule's condition hold for the key; or is one that it opens not yet over?
  abbrev pub raised_by_any : List AlertRule → Bool
  raised_by_any [] = false
  raised_by_any (rule ∷ rules) =
      is_raised k (findings_of pass.texts pass.settings pass.fleet pass.now rule)
      || raised_by_any rules

  abbrev pub held_by_any : List AlertRule → Bool
  held_by_any [] = false
  held_by_any (rule ∷ rules) =
      is_held k (findings_of pass.texts pass.settings pass.fleet pass.now rule) || held_by_any rules

  evaluate_rules-Acted :
      (s : Db × List DedupeKey) (rules : List AlertRule)
      → IsSound (board_of s.0)
      → Acted pass k (raised_by_any rules) (held_by_any rules) s (evaluate_rules pass s rules)
  unfolding evaluate_rules
  evaluate_rules-Acted s [] sound = Acted-none pass k s
  evaluate_rules-Acted s (rule ∷ rules) sound =
      let found = findings_of pass.texts pass.settings pass.fleet pass.now rule in
      let next = act_all pass rule s found in
      Acted-then pass k (is_raised k found) (is_held k found) (raised_by_any rules)
        (held_by_any rules) s next (evaluate_rules pass next rules)
        (act_all-Acted pass k rule s found sound)
        (evaluate_rules-Acted next rules (Steps-IsSound (act_all-Steps pass rule s found) sound))

  WritesOn-has_live :
      (id : ℕ) (db db' : Db) → WritesOn id db db' → has_live k db'.alerts ≡ has_live k db.alerts
  WritesOn-has_live id db db' (f, w, e) =
      ap (λ b. has_live k b.alerts) e ∙ Writes-has_live k id f db.alerts w

  count_escalation-has_live :
      (id : ℕ) (s : Db × Bool) → has_live k (count_escalation id s).alerts ≡ has_live k s.0.alerts
  unfolding count_escalation
  count_escalation-has_live id (db, false) = refl
  count_escalation-has_live id (db, true) =
      Writes-has_live k id raised_level db.alerts raised_level-Writes

  escalate_one-has_live :
      (db : Db) (a : Alert) → has_live k (escalate_one pass db a).alerts ≡ has_live k db.alerts
  unfolding escalate_one notify_alert
  escalate_one-has_live db a =
      let rule = rule_of pass.fleet a.rule_id in
      let printer = printer_of pass.fleet a.printer_id in
      let go = (decision_on pass a printer).dispatch in
      count_escalation-has_live a.id (notify_if go pass db a rule printer)
      ∙ WritesOn-has_live a.id db (notify_if go pass db a rule printer).0
          (notify_if-WritesOn go pass db a rule printer)

  escalate_each-has_live :
      (db : Db) (rows : List Alert)
      → has_live k (escalate_each pass db rows).alerts ≡ has_live k db.alerts
  unfolding escalate_each
  escalate_each-has_live db [] = refl
  escalate_each-has_live db (a ∷ rows) =
      let sending =
        escalate_each-has_live (escalate_one pass db a) rows ∙ escalate_one-has_live db a in
      let waiting = escalate_each-has_live db rows in
      elim (Bool-cases (is_escalation_due pass a)) [ inl y ↦ rw y sending | inr n ↦ rw n waiting ]

  escalate_alerts-has_live :
      (db : Db) → has_live k (escalate_alerts pass db).alerts ≡ has_live k db.alerts
  unfolding escalate_alerts
  escalate_alerts-has_live db =
      let sending = escalate_each-has_live db (select is_live db.alerts) in
      elim (Bool-cases (pass.settings.escalate_after_minutes == 0)) [
        | inl y ↦ rw y refl
        | inr n ↦ rw n sending
      ]

  settled :
      (r h l active : Bool) (count after : ℕ)
      → ltb 0 count ≡ (l || r)
      → active ≡ (false || (r || (h && l)))
      → after ≡ (if active then count else 0)
      → ltb 0 after ≡ (r || (h && l))
  settled r h l active count after lives e counted = ground (arith, lives, e, counted)

-- After a pass, a key has a live alert exactly if a condition of an enabled rule holds for it, or
-- if it had one before the pass and an enabled rule has not seen it recover. The alerts are sound
-- before the pass, and those of the key are of a kind that resolves by itself.
pub evaluate_alerts-has_live :
    (pass : Pass) (db : Db) (k : DedupeKey)
    → IsSound (board_of db)
    → AreDriven k db.alerts
    → has_live k (evaluate_alerts pass db).alerts ≡ (
        raised_by_any pass k (enabled_rules pass.fleet)
        || (held_by_any pass k (enabled_rules pass.fleet) && has_live k db.alerts))
unfolding evaluate_alerts is_active
evaluate_alerts-has_live pass db k sound driven =
    let rules = enabled_rules pass.fleet in
    let found = evaluate_rules pass (db, []) rules in
    let acted = evaluate_rules-Acted pass k (db, []) rules sound in
    let after = Steps-IsSound (evaluate_rules-Steps pass (db, []) rules) sound in
    let raised = raised_by_any pass k rules in
    let held = held_by_any pass k rules in
    let keeps = λ (off : is_active k found.1 ≡ false).
      acted.opened.driven (unasked raised (held && has_live k db.alerts) (sym acted.active ∙ off))
        driven in
    escalate_alerts-has_live pass k (resolve_stale pass.now found.1 found.0)
    ∙ settled pass k raised held (has_live k db.alerts) (is_active k found.1)
        (count_live k found.0.alerts) _ acted.opened.lives acted.active
        (resolve_stale-count pass k found.1 found.0 after.distinct keeps)
  where
    unasked : (r x : Bool) → (false || (r || x)) ≡ false → r ≡ false
    unasked true x h = h
    unasked false x h = refl
