-- ===== src/Alerts/Resolutions.antt =====
-- central/worker/jobs.py: `_resolve_stale`, `_escalate_alerts` and `evaluate_alerts`, as steps.
use mathlib.Core.Path.{subst}
use printer_nanny.Common.{
  ℕ, ◌≡◌, ◌≤◌, ◌≢◌, refl, sym, ap, arith, Bool, true, false, List, [], ◌∷◌, ◌==◌, select, In, here,
  there, Bool-cases, inl, inr, In-select, ==-refl, ==-false, ==-refl,
}
use printer_nanny.Alerts.{DedupeKey, Alert, alert_resolved, Db, is_live, update_alert, emit}
use printer_nanny.Alerts.Rows.{count_id, count_id-In, count_id-select, In-update}
use printer_nanny.Alerts.Lifecycle.{Pass, notify_alert}
use printer_nanny.Alerts.Evaluate.{
  count_escalation, evaluate_rules, is_stale, closed, resolve_each, resolve_stale,
  is_escalation_due, raised_level, escalate_one, escalate_each, escalate_alerts, evaluate_alerts,
  enabled_rules, rule_of, printer_of,
}
use printer_nanny.Alerts.Steps.{board_of, closes, writes, Steps, done, before, Steps-append}
use printer_nanny.Alerts.Sound.{IsSound}
use printer_nanny.Alerts.Kept.{Steps-IsSound}
use printer_nanny.Alerts.Passes.{raised_level-Writes, notify_alert-Steps}
use printer_nanny.Alerts.Flapping.{closed-Turns}
use printer_nanny.Alerts.Openings.{evaluate_rules-Steps}

-- The second and the third loop.
module _ (pass : Pass) where
  -- Rows that are still to be closed, each once.
  abbrev pub AreAhead : List Alert → Db → Type 0
  AreAhead rows db =
      ((i : ℕ) → count_id i rows ≤ 1)
      × ((a : Alert) → In a rows → In a db.alerts × (is_live a ≡ true))

  pub AreAhead-tail :
      (a : Alert) (rows : List Alert) (db db' : Db) (f : Alert → Alert)
      → AreAhead (a ∷ rows) db
      → db'.alerts ≡ update_alert a.id f db.alerts
      → AreAhead rows db'
  AreAhead-tail a rows db db' f (once, there_) e = (
    λ i. ground (arith, once i),
    λ x m.
        let (at, live) = there_ x (there m) in
        let other : x.id ≢ a.id = λ same. ground (
          arith,
          once a.id,
          count_id-In x rows m,
          ap (λ (i : ℕ). count_id i rows) same,
          ==-refl a.id,
        ) in
        (subst (In x) (sym e) (In-update a.id f x db.alerts (==-false x.id a.id other) at), live),
  )

  pub AreAhead-skip :
      (a : Alert) (rows : List Alert) (db : Db) → AreAhead (a ∷ rows) db → AreAhead rows db
  AreAhead-skip a rows db (once, there_) = (λ i. ground (arith, once i), λ x m. there_ x (there m))

  abbrev pub with_closed : Alert → Db → Db
  with_closed a db = record db {
    alerts = update_alert a.id (closed pass.now) db.alerts;
    outbox = emit (alert_resolved a.id a.flap_count) db.outbox;
  }

  resolve_each-Steps :
      (active : List DedupeKey) (db : Db) (rows : List Alert)
      → AreAhead rows db
      → Steps (board_of db) (board_of (resolve_each pass.now active db rows))
  unfolding resolve_each
  resolve_each-Steps active db [] ahead = done
  resolve_each-Steps active db (a ∷ rows) ahead =
      let (m, live) = ahead.1 a here in
      let closing = before (closes a (closed pass.now) m live (closed-Turns pass.now) refl) (
        resolve_each-Steps active (with_closed a db) rows
          (AreAhead-tail a rows db (with_closed a db) (closed pass.now) ahead refl)) in
      let staying = resolve_each-Steps active db rows (AreAhead-skip a rows db ahead) in
      elim (Bool-cases (is_stale active a)) [ inl y ↦ rw y closing | inr n ↦ rw n staying ]

  pub resolve_stale-Steps :
      (active : List DedupeKey) (db : Db)
      → ((i : ℕ) → count_id i db.alerts ≤ 1)
      → Steps (board_of db) (board_of (resolve_stale pass.now active db))
  unfolding resolve_stale
  resolve_stale-Steps active db distinct = resolve_each-Steps active db (select is_live db.alerts) (
    λ i. omega (arith, distinct i, count_id-select i is_live db.alerts),
    λ a m. In-select is_live a db.alerts m,
  )

  count_escalation-Steps :
      (id : ℕ) (s : Db × Bool) → Steps (board_of s.0) (board_of (count_escalation id s))
  unfolding count_escalation
  count_escalation-Steps id (db, false) = done
  count_escalation-Steps id (db, true) =
      before (writes id raised_level raised_level-Writes refl) done

  escalate_one-Steps :
      (db : Db) (a : Alert) → Steps (board_of db) (board_of (escalate_one pass db a))
  unfolding escalate_one
  escalate_one-Steps db a =
      let rule = rule_of pass.fleet a.rule_id in
      let printer = printer_of pass.fleet a.printer_id in
      Steps-append (notify_alert-Steps pass db a rule printer)
        (count_escalation-Steps a.id (notify_alert pass db a rule printer))

  escalate_each-Steps :
      (db : Db) (rows : List Alert) → Steps (board_of db) (board_of (escalate_each pass db rows))
  unfolding escalate_each
  escalate_each-Steps db [] = done
  escalate_each-Steps db (a ∷ rows) =
      let sending =
        Steps-append (escalate_one-Steps db a)
          (escalate_each-Steps (escalate_one pass db a) rows) in
      let waiting = escalate_each-Steps db rows in
      elim (Bool-cases (is_escalation_due pass a)) [ inl y ↦ rw y sending | inr n ↦ rw n waiting ]

  pub escalate_alerts-Steps : (db : Db) → Steps (board_of db) (board_of (escalate_alerts pass db))
  unfolding escalate_alerts
  escalate_alerts-Steps db =
      let sending = escalate_each-Steps db (select is_live db.alerts) in
      elim (Bool-cases (pass.settings.escalate_after_minutes == 0)) [
        | inl y ↦ rw y done
        | inr n ↦ rw n sending
      ]

-- A pass over a sound board is a sequence of steps in the life of alerts: alerts open that were not
-- live, resolved ones open again, live ones close, each transition is put before the subscribers,
-- and else only what is shown of an alert changes.
pub evaluate_alerts-Steps :
    (pass : Pass) (db : Db)
    → IsSound (board_of db)
    → Steps (board_of db) (board_of (evaluate_alerts pass db))
unfolding evaluate_alerts
evaluate_alerts-Steps pass db sound =
    let found = evaluate_rules pass (db, []) (enabled_rules pass.fleet) in
    let opening = evaluate_rules-Steps pass (db, []) (enabled_rules pass.fleet) in
    let after = Steps-IsSound opening sound in
    Steps-append opening (
      Steps-append (resolve_stale-Steps pass found.1 found.0 after.distinct)
        (escalate_alerts-Steps pass (resolve_stale pass.now found.1 found.0)))

-- A pass keeps the ids distinct, at most one live alert for each key, and what the subscribers were
-- last told of every alert equal to its state, with no key of a coming transition spent.
pub evaluate_alerts-IsSound :
    (pass : Pass) (db : Db) → IsSound (board_of db) → IsSound (board_of (evaluate_alerts pass db))
evaluate_alerts-IsSound pass db sound = Steps-IsSound (evaluate_alerts-Steps pass db sound) sound
