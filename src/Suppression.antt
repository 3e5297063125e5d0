-- ===== src/Suppression.antt =====
-- central/suppression.py: may a notification go out now, wait, or be dropped? Instants are seconds
-- of UTC since 1970. A time zone, which the code takes from `zoneinfo`, is an argument.
pub mod Decide
pub mod Hours
pub mod Muting
pub mod Windows
pub mod Muted
pub mod Verdict
mod Tests
use printer_nanny.Common.{
  ℕ, ◌+◌, ◌-◌, ◌*◌, ◌/◌, ◌%◌, Bool, true, false, ◌&&◌, ◌||◌, not, Option, none, some, List, [], ◌∷◌,
  ltb, leb, ◌==◌, is_some_of, if◌then◌else◌,
}

pub data EventSeverity : Type 0 where
  info warning critical : EventSeverity

abbrev pub severity_rank : EventSeverity → ℕ
severity_rank EventSeverity.info = 0
severity_rank EventSeverity.warning = 1
severity_rank EventSeverity.critical = 2

pub data AlertScope : Type 0 where
  global client site printer : AlertScope

pub data SuppressionKind : Type 0 where
  quiet_hours maintenance : SuppressionKind

pub data SuppressionAction : Type 0 where
  defer suppress : SuppressionAction

-- The weekday mask as it is stored: absent or empty, a list of weekdays, or something else.
pub data Mask : Type 0 where
  every_day : Mask
  days : List ℕ → Mask
  unreadable : Mask

pub record Window : Type 0 where
  pub id : ℕ
  pub enabled : Bool
  pub kind : SuppressionKind
  pub action : SuppressionAction
  pub scope : AlertScope
  pub scope_id : Option ℕ
  pub weekdays : Mask
  pub start_minute : Option ℕ
  pub end_minute : Option ℕ
  pub starts_at : Option ℕ
  pub ends_at : Option ℕ
  pub min_severity_breakthrough : EventSeverity
  pub allow_breakthrough : Bool

pub record Printer : Type 0 where
  pub id : ℕ
  pub client_id : Option ℕ
  pub site_id : Option ℕ

-- Wall-clock seconds since 1970 of an instant, and the instant of wall-clock seconds.
pub record Zone : Type 0 where
  pub local : ℕ → ℕ
  pub utc : ℕ → ℕ

abbrev pub minutes_per_day : ℕ
minutes_per_day = 1440

-- 1970-01-01 was a Thursday; Monday is 0.
abbrev pub weekday : ℕ → ℕ
weekday day = (day + 3) % 7

-- `_scope_matches`
abbrev pub scope_covers : AlertScope → Option ℕ → Option Printer → Bool
scope_covers AlertScope.global scope_id p = true
scope_covers scope none p = false
scope_covers scope (some k) none = false
scope_covers AlertScope.client (some k) (some p) = is_some_of p.client_id k
scope_covers AlertScope.site (some k) (some p) = is_some_of p.site_id k
scope_covers AlertScope.printer (some k) (some p) = p.id == k

unfoldable pub scope_matches : Window → Option Printer → Bool
scope_matches w p = scope_covers w.scope w.scope_id p

abbrev pub is_day : ℕ → List ℕ → Bool
is_day d [] = false
is_day d (x ∷ xs) = (x == d) || is_day d xs

abbrev pub mask_allows : Mask → ℕ → Bool
mask_allows every_day day = true
mask_allows unreadable day = true
mask_allows (days []) day = true
mask_allows (days (x ∷ xs)) day = is_day (weekday day) (x ∷ xs)

unfoldable pub weekday_allowed : Window → ℕ → Bool
weekday_allowed w day = mask_allows w.weekdays day

unfoldable pub local_end_to_utc : ℕ → ℕ → Zone → ℕ
local_end_to_utc day minute z =
    if leb minutes_per_day minute
    then z.utc ((day + 1) * 86400 + (minute - minutes_per_day) * 60)
    else z.utc (day * 86400 + minute * 60)

-- `_quiet_hours_end`, between two minutes of the day
unfoldable pub hours_end : Window → ℕ → ℕ → ℕ → Zone → Option ℕ
unfolding local_end_to_utc
hours_end w start end now z =
    let today = z.local now / 86400 in
    let minute = (z.local now % 86400) / 60 in
    if ltb start end
    then (if leb start minute && (ltb minute end && weekday_allowed w today)
        then some (local_end_to_utc today end z)
        else none)
    else if leb start minute
    then (if weekday_allowed w today then some (local_end_to_utc (today + 1) end z) else none)
    else if ltb minute end && weekday_allowed w (today - 1)
    then some (local_end_to_utc today end z)
    else none

-- The same between the minutes as they are stored: an end of 1440 is the midnight after.
abbrev pub stored_hours_end : Window → Option ℕ → Option ℕ → ℕ → Zone → Option ℕ
stored_hours_end w none e now z = none
stored_hours_end w (some s) none now z = none
stored_hours_end w (some s) (some e) now z =
    hours_end w (s % minutes_per_day) (if leb e minutes_per_day then e else e % minutes_per_day) now
      z

unfoldable pub quiet_hours_end : Window → ℕ → Zone → Option ℕ
quiet_hours_end w now z = stored_hours_end w w.start_minute w.end_minute now z

unfoldable pub maintenance_end : Window → ℕ → Option ℕ
maintenance_end w now = elim w.starts_at [
  | none ↦ none
  | some s ↦ elim w.ends_at [
    | none ↦ none
    | some e ↦ if ltb s e && (leb s now && ltb now e) then some e else none
  ]
]

abbrev pub window_end : SuppressionKind → Window → ℕ → Zone → Option ℕ
window_end SuppressionKind.maintenance w now z = maintenance_end w now
window_end SuppressionKind.quiet_hours w now z = quiet_hours_end w now z

-- When the window ends that covers the printer now; `none` if it does not cover it.
unfoldable pub active_end : Window → Option Printer → ℕ → Zone → Option ℕ
active_end w p now z =
    if not w.enabled || not (scope_matches w p) then none else window_end w.kind w now z

abbrev pub with_end : Window → Option ℕ → List (Window × ℕ) → List (Window × ℕ)
with_end w none rest = rest
with_end w (some e) rest = (w, e) ∷ rest

unfoldable pub active_windows : List Window → Option Printer → ℕ → Zone → List (Window × ℕ)
active_windows [] p now z = []
active_windows (w ∷ windows) p now z =
    with_end w (active_end w p now z) (active_windows windows p now z)
