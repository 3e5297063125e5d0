-- ===== src/Alerts/Openings.antt =====
-- central/worker/jobs.py: the rules' findings, as steps in the life of alerts.
use mathlib.Core.Path.{subst}
use printer_nanny.Common.{
  ℕ, ◌≡◌, refl, sym, Option, none, some, List, [], ◌∷◌, Bool-cases, inl, inr,
}
use printer_nanny.Alerts.{DedupeKey, Alert, AlertRule, Detail, Db, is_live_state, find_open_alert}
use printer_nanny.Alerts.Rows.{count_live, find_open_alert-none}
use printer_nanny.Alerts.Conditions.{Demand, Finding, raise, hold, recede}
use printer_nanny.Alerts.Findings.{findings_of}
use printer_nanny.Alerts.Lifecycle.{
  flap_cooldown_minutes, flapping_alert, revived, Pass, new_alert, with_new, open_alert,
  open_unless, reopen_or_new,
}
use printer_nanny.Alerts.Evaluate.{hold_if, recede_if, act, act_all, evaluate_rules}
use printer_nanny.Alerts.Steps.{board_of, opens, reopens, Steps, done, before, Steps-append}
use printer_nanny.Alerts.Passes.{notify_alert-Steps, with_detail-Steps}
use printer_nanny.Alerts.Flapping.{IsOver, flapping_alert-IsOver, revived-Turns}

-- The first loop: what the rules find.
module _ (pass : Pass) where
  new-Steps :
      (db : Db) (rule : AlertRule) (d : Demand)
      → count_live d.key db.alerts ≡ 0
      → Steps (board_of db) (board_of (with_new pass db rule d))
  unfolding new_alert is_live_state
  new-Steps db rule d none_live =
      before (opens (new_alert pass db rule d) refl refl refl none_live refl) done

  reopen_or_new-Steps :
      (db : Db) (rule : AlertRule) (d : Demand) (o : Option Alert)
      → count_live d.key db.alerts ≡ 0
      → ((a : Alert) → o ≡ some a → IsOver d.key db.alerts a)
      → Steps (board_of db) (board_of (reopen_or_new pass db rule d o))
  unfolding reopen_or_new
  reopen_or_new-Steps db rule d none none_live over = Steps-append (new-Steps db rule d none_live) (
      notify_alert-Steps pass (with_new pass db rule d) (new_alert pass db rule d) (some rule)
        d.printer)
  reopen_or_new-Steps db rule d (some a) none_live over =
      let (m, same, dead) = over a refl in
      before
        (reopens a (revived d.detail (flap_cooldown_minutes pass.settings d.cooldown_cap_min)) m
          dead (subst (λ k. count_live k db.alerts ≡ 0) (sym same) none_live)
          (revived-Turns d.detail (flap_cooldown_minutes pass.settings d.cooldown_cap_min)) refl)
        done

  pub open_unless-Steps :
      (db : Db) (rule : AlertRule) (d : Demand) (o : Option Alert)
      → (o ≡ none → count_live d.key db.alerts ≡ 0)
      → Steps (board_of db) (board_of (open_unless pass db rule d o))
  unfolding open_unless
  open_unless-Steps db rule d (some live) h = elim (Bool-cases d.refresh_detail) [
    | inl y ↦ rw y (with_detail-Steps pass.settings live d.detail d.cooldown_cap_min db)
    | inr n ↦ rw n done
  ]
  open_unless-Steps db rule d none h =
      reopen_or_new-Steps db rule d
        (flapping_alert pass.settings d.key pass.now d.cooldown_cap_min db.alerts) (h refl)
        (λ a e. flapping_alert-IsOver pass.settings d.key pass.now d.cooldown_cap_min db.alerts a e)

  hold_if-Steps :
      (key : DedupeKey) (db : Db) (active : List DedupeKey) (o : Option Alert)
      → Steps (board_of db) (board_of (hold_if key (db, active) o).0)
  unfolding hold_if
  hold_if-Steps key db active none = done
  hold_if-Steps key db active (some a) = done

  recede_if-Steps :
      (key : DedupeKey) (detail : Detail) (window : ℕ) (db : Db) (active : List DedupeKey)
      (o : Option Alert)
      → Steps (board_of db) (board_of (recede_if pass.settings key detail window (db, active) o).0)
  unfolding recede_if
  recede_if-Steps key detail window db active none = done
  recede_if-Steps key detail window db active (some live) =
      with_detail-Steps pass.settings live detail (some window) db

  pub act-Steps :
      (rule : AlertRule) (s : Db × List DedupeKey) (f : Finding)
      → Steps (board_of s.0) (board_of (act pass rule s f).0)
  unfolding act open_alert
  act-Steps rule (db, active) (raise d) =
      open_unless-Steps db rule d (find_open_alert d.key db.alerts)
        (find_open_alert-none d.key db.alerts)
  act-Steps rule (db, active) (hold key) =
      hold_if-Steps key db active (find_open_alert key db.alerts)
  act-Steps rule (db, active) (recede key detail window) =
      recede_if-Steps key detail window db active (find_open_alert key db.alerts)

  pub act_all-Steps :
      (rule : AlertRule) (s : Db × List DedupeKey) (findings : List Finding)
      → Steps (board_of s.0) (board_of (act_all pass rule s findings).0)
  unfolding act_all
  act_all-Steps rule s [] = done
  act_all-Steps rule s (f ∷ findings) =
      Steps-append (act-Steps rule s f) (act_all-Steps rule (act pass rule s f) findings)

  pub evaluate_rules-Steps :
      (s : Db × List DedupeKey) (rules : List AlertRule)
      → Steps (board_of s.0) (board_of (evaluate_rules pass s rules).0)
  unfolding evaluate_rules
  evaluate_rules-Steps s [] = done
  evaluate_rules-Steps s (rule ∷ rules) =
      let found = findings_of pass.texts pass.settings pass.fleet pass.now rule in
      Steps-append (act_all-Steps rule s found)
        (evaluate_rules-Steps (act_all pass rule s found) rules)
