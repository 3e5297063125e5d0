-- ===== src/Alerts/Routing.antt =====
-- central/channels/registry.py: `route_channels`, which picks the channels of an alert.
use printer_nanny.Common.{
  ℕ, Bool, true, false, ◌&&◌, ◌||◌, Option, none, some, List, [], ◌∷◌, ◌==◌, is_some_of,
  if◌then◌else◌,
}
use printer_nanny.Suppression.{EventSeverity, AlertScope}
use printer_nanny.Notify.{Channel}
use printer_nanny.Alerts.{AlertRule, Printer, RoutableChannel}

abbrev pub is_listed : ℕ → List ℕ → Bool
is_listed k [] = false
is_listed k (x ∷ ids) = (x == k) || is_listed k ids

-- `_scope_matches` of the registry: no id is as good as the global scope.
unfoldable pub scope_matches : AlertScope → Option ℕ → Option Printer → Bool
scope_matches AlertScope.global id p = true
scope_matches scope none p = true
scope_matches scope (some k) none = false
scope_matches AlertScope.client (some k) (some p) = is_some_of p.place.client_id k
scope_matches AlertScope.site (some k) (some p) = is_some_of p.place.site_id k
scope_matches AlertScope.printer (some k) (some p) = p.place.id == k

-- A rule that names channels excludes all others, and those of the settings page, which have no id.
unfoldable pub is_named : Option AlertRule → Option ℕ → Bool
is_named none row = true
is_named (some rule) row = among rule.channel_ids row
  where
    among : List ℕ → Option ℕ → Bool
    among [] row = true
    among (x ∷ ids) none = false
    among (x ∷ ids) (some k) = is_listed k (x ∷ ids)

unfoldable pub route_channels :
    List RoutableChannel → Option AlertRule → Option Printer → EventSeverity → List Channel
route_channels [] rule printer severity = []
route_channels (rc ∷ candidates) rule printer severity =
    let rest = route_channels candidates rule printer severity in
    if is_named rule rc.row_id
      && (scope_matches rc.scope rc.scope_id printer && rc.channel.meets_severity severity)
    then rc.channel ∷ rest
    else rest
