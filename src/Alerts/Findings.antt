-- ===== src/Alerts/Findings.antt =====
-- central/worker/jobs.py: what a rule of `evaluate_alerts` finds, by its condition.
use printer_nanny.Common.{
  ℕ, ◌-◌, ◌*◌, String, Option, none, some, List, [], ◌∷◌, ◌++◌, ◌==◌, get_or, if◌then◌else◌,
}
use printer_nanny.Alerts.{
  AlertConditionType, supply_below, error_severity, offline_minutes, printer_offline,
  occurrence_rate, Printer, AlertRule, Fleet, Texts, Settings,
}
use printer_nanny.Alerts.Conditions.{
  Finding, printers_in_scope, sites_with_a_live_agent, offline_agents, offline_printer,
  low_supplies,
}
use printer_nanny.Alerts.Events.{
  printer_errors, occurrence_window_minutes, occurrence_count, frequent_events,
}

-- The loop over the printers of one rule, by what the rule asks for.
unfoldable pub each_printer : (Printer → List Finding) → List Printer → List Finding
each_printer f [] = []
each_printer f (p ∷ printers) = f p ++ each_printer f printers

-- A rule without a window, or with a count below 1, is skipped.
unfoldable pub occurrences : Texts → Settings → Fleet → ℕ → AlertRule → List Finding
occurrences texts settings fleet now rule = over (occurrence_window_minutes rule)
  where
    n : ℕ
    n = get_or rule.threshold 0

    code : String
    code = texts.strip (get_or rule.match_code "")

    over : Option ℕ → List Finding
    over none = []
    over (some window) =
        if n == 0
        then []
        else each_printer
            (λ p.
              frequent_events settings rule p code window n
                (occurrence_count texts fleet.events rule (now - window * 60) p))
            (printers_in_scope fleet rule)

unfoldable pub findings_of : Texts → Settings → Fleet → ℕ → AlertRule → List Finding
findings_of texts settings fleet now rule = by_condition rule.condition_type
  where
    by_condition : AlertConditionType → List Finding
    by_condition offline_minutes = offline_agents rule now fleet.agents
    by_condition printer_offline =
        each_printer (offline_printer rule now (sites_with_a_live_agent fleet.subnets fleet.agents))
          (printers_in_scope fleet rule)
    by_condition supply_below =
        each_printer (λ p. low_supplies settings rule p p.supplies) (printers_in_scope fleet rule)
    by_condition error_severity =
        each_printer (printer_errors settings fleet.events rule) (printers_in_scope fleet rule)
    by_condition occurrence_rate = occurrences texts settings fleet now rule
    by_condition _ = []
