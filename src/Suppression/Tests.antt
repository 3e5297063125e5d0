-- ===== src/Suppression/Tests.antt =====
-- Runs of the suppression engine, and its theorems at concrete windows.
use printer_nanny.Common.{
  ℕ, ◌+◌, ◌-◌, ◌*◌, ◌≡◌, ◌↔◌, refl, true, false, Option, none, some, [], ◌∷◌, All, Any, arith,
}
use printer_nanny.Suppression.{
  EventSeverity, SuppressionKind, SuppressionAction, AlertScope, days, every_day, Window, Printer,
  Zone, active_end, active_windows, hours_end, local_end_to_utc, quiet_hours_end, maintenance_end,
  scope_matches, weekday_allowed,
}
use printer_nanny.Suppression.Decide.{
  candidates, lowest_suppressor, latest, clamp_end, decide, evaluate,
}
use printer_nanny.Suppression.Hours.{IsSteady}
use printer_nanny.Suppression.Windows.{IsMuting}
use printer_nanny.Suppression.Muted.{IsSilencing}
use printer_nanny.Suppression.Verdict.{suppressed_iff, deferral_bounds, IsVerdict}

-- Five hours west of Greenwich.
abbrev new_york : Zone
new_york = record { local = λ t. t - 18000; utc = λ l. l + 18000 }

-- 22:00 to 06:00 on Mondays.
abbrev night : Window
night = record {
  id = 2;
  enabled = true;
  kind = SuppressionKind.quiet_hours;
  action = SuppressionAction.defer;
  scope = AlertScope.client;
  scope_id = some 3;
  weekdays = days (0 ∷ []);
  start_minute = some 1320;
  end_minute = some 360;
  starts_at = none;
  ends_at = none;
  min_severity_breakthrough = EventSeverity.critical;
  allow_breakthrough = true;
}

abbrev upgrade : Window
upgrade = record {
  id = 1;
  enabled = true;
  kind = SuppressionKind.maintenance;
  action = SuppressionAction.suppress;
  scope = AlertScope.global;
  scope_id = none;
  weekdays = every_day;
  start_minute = none;
  end_minute = none;
  starts_at = some 1000000;
  ends_at = some 1003600;
  min_severity_breakthrough = EventSeverity.critical;
  allow_breakthrough = false;
}

abbrev printer : Option Printer
printer = some (record { id = 7; client_id = some 3; site_id = none })

-- Tuesday 1970-01-06, 01:00 in New York.
abbrev tuesday_night : ℕ
tuesday_night = 5 * 86400 + 3600 + 18000

-- Monday's window is active on Tuesday before 06:00, and a warning waits until then.
night_run :
    (active_end night printer tuesday_night new_york ≡ some (5 * 86400 + 21600 + 18000))
    × (evaluate (night ∷ upgrade ∷ []) printer (some EventSeverity.warning) tuesday_night new_york
        ≡ record {
          dispatch = false;
          defer = true;
          suppress = false;
          deferred_until = some (5 * 86400 + 21600 + 18000);
          window_id = some 2;
        })
unfolding evaluate candidates active_windows active_end quiet_hours_end maintenance_end hours_end
    local_end_to_utc weekday_allowed scope_matches decide lowest_suppressor latest clamp_end
night_run = (refl, refl)

critical_run :
    (evaluate (night ∷ []) printer (some EventSeverity.critical) tuesday_night new_york).dispatch
    ≡ true
unfolding evaluate decide candidates active_windows active_end scope_matches quiet_hours_end
    hours_end weekday_allowed local_end_to_utc
critical_run = refl

IsSteady-new_york : IsSteady new_york tuesday_night
IsSteady-new_york = λ k h. omega arith

suppressed_iff_example :
    (((evaluate (night ∷ upgrade ∷ []) printer none 1000500 new_york).suppress ≡ true)
      ↔ Any (IsSilencing printer none 1000500 new_york) (night ∷ upgrade ∷ []))
    × (((evaluate (night ∷ upgrade ∷ []) printer none 1000500 new_york).dispatch ≡ true)
        ↔ All (λ w. ¬ IsMuting printer none 1000500 new_york w) (night ∷ upgrade ∷ []))
suppressed_iff_example = suppressed_iff (night ∷ upgrade ∷ []) printer none 1000500 new_york

deferral_bounds_example :
    IsVerdict
      (night ∷ upgrade ∷ [])
      printer
      (some EventSeverity.warning)
      tuesday_night
      new_york
      (evaluate (night ∷ upgrade ∷ []) printer (some EventSeverity.warning) tuesday_night new_york)
deferral_bounds_example =
    deferral_bounds (night ∷ upgrade ∷ []) printer (some EventSeverity.warning) tuesday_night
      new_york IsSteady-new_york
