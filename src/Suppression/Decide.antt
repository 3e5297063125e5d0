-- ===== src/Suppression/Decide.antt =====
-- central/suppression.py: `evaluate`.
use printer_nanny.Common.{
  ℕ, ◌+◌, ◌*◌, Bool, true, false, ◌&&◌, Option, none, some, List, [], ◌∷◌, ltb, leb, if◌then◌else◌,
}
use printer_nanny.Suppression.{
  EventSeverity, severity_rank, SuppressionKind, SuppressionAction, Window, Printer, Zone,
  active_windows,
}

-- Exactly one of the three is true. The reason is a text for the operator and is not modelled.
pub record Decision : Type 0 where
  pub dispatch : Bool
  pub defer : Bool
  pub suppress : Bool
  pub deferred_until : Option ℕ
  pub window_id : Option ℕ

abbrev pub send : Decision
send = record {
  dispatch = true;
  defer = false;
  suppress = false;
  deferred_until = none;
  window_id = none;
}

-- The rank of a severity as given; a text that names none counts as a warning.
abbrev pub rank_of : Option EventSeverity → ℕ
rank_of none = 1
rank_of (some s) = severity_rank s

abbrev pub breaks_through : Window → Option EventSeverity → Bool
breaks_through w severity =
    w.allow_breakthrough && leb (severity_rank w.min_severity_breakthrough) (rank_of severity)

unfoldable pub candidates : Option EventSeverity → List (Window × ℕ) → List (Window × ℕ)
candidates severity [] = []
candidates severity ((w, e) ∷ active) =
    let rest = candidates severity active in
    if breaks_through w severity then rest else (w, e) ∷ rest

abbrev pub is_suppress : SuppressionAction → Bool
is_suppress SuppressionAction.suppress = true
is_suppress SuppressionAction.defer = false

-- The first of the suppressing windows that has the lowest id.
unfoldable pub lowest_suppressor : List (Window × ℕ) → Option Window
lowest_suppressor [] = none
lowest_suppressor ((w, e) ∷ cs) =
    let rest = lowest_suppressor cs in
    if is_suppress w.action
    then elim rest [ none ↦ some w | some v ↦ if leb w.id v.id then some w else some v ]
    else rest

-- `max` by the end: the first of those that end last.
unfoldable pub latest : Window × ℕ → List (Window × ℕ) → Window × ℕ
latest best [] = best
latest best (c ∷ cs) = latest (if ltb best.1 c.1 then c else best) cs

abbrev pub max_quiet_defer : ℕ
max_quiet_defer = 26 * 3600

abbrev pub max_maintenance_defer : ℕ
max_maintenance_defer = 7 * 86400

abbrev pub horizon_of : SuppressionKind → ℕ
horizon_of SuppressionKind.maintenance = max_maintenance_defer
horizon_of SuppressionKind.quiet_hours = max_quiet_defer

-- An end that is not ahead becomes a minute from now; one beyond the horizon becomes the horizon.
unfoldable pub clamp_end : ℕ → ℕ → ℕ → ℕ
clamp_end now horizon e =
    let ahead = if leb e now then now + 60 else e in
    if ltb (now + horizon) ahead then now + horizon else ahead

unfoldable pub decide : ℕ → List (Window × ℕ) → Decision
unfolding clamp_end
decide now [] = send
decide now (c ∷ cs) = elim (lowest_suppressor (c ∷ cs)) [
  | some w ↦ record {
    dispatch = false;
    defer = false;
    suppress = true;
    deferred_until = none;
    window_id = some w.id;
  }
  | none ↦
      let (w, e) = latest c cs in
      record {
        dispatch = false;
        defer = true;
        suppress = false;
        deferred_until = some (clamp_end now (horizon_of w.kind) e);
        window_id = some w.id;
      }
]

unfoldable pub evaluate : List Window → Option Printer → Option EventSeverity → ℕ → Zone → Decision
evaluate windows p severity now z =
    decide now (candidates severity (active_windows windows p now z))
