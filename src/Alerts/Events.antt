-- ===== src/Alerts/Events.antt =====
-- central/worker/jobs.py: what the rules of `evaluate_alerts` on a printer's events find.
use printer_nanny.Common.{
  ℕ, ◌+◌, ◌-◌, ◌*◌, String, Bool, true, false, ◌&&◌, not, Option, none, some, List, [], ◌∷◌, select,
  take, length, max, ltb, leb, ◌==◌, get_or, str_eq, if◌then◌else◌, min,
}
use printer_nanny.Suppression.{severity_rank}
use printer_nanny.Delivery.{or_else}
use printer_nanny.Alerts.{
  PrinterEvent, Printer, AlertRule, rate_key, error_key, error_on, frequent, event_text, counted,
  receding, Texts, Settings,
}
use printer_nanny.Alerts.Conditions.{raise, recede, Finding, demand_of}

abbrev pub code_of : PrinterEvent → String
code_of e = let code = get_or e.code "" in if str_eq code "" then "event" else code

-- `by_code`: a code keeps its place, and the newest of its events.
unfoldable pub newest_by_code : PrinterEvent → List PrinterEvent → List PrinterEvent
newest_by_code e [] = e ∷ []
newest_by_code e (x ∷ events) =
    let rest = newest_by_code e events in
    if str_eq (code_of x) (code_of e) then (if ltb x.ts e.ts then e else x) ∷ events else x ∷ rest

unfoldable pub by_code : List PrinterEvent → List PrinterEvent → List PrinterEvent
by_code seen [] = seen
by_code seen (e ∷ events) = by_code (newest_by_code e seen) events

-- A stable sort, newest first.
unfoldable pub insert_newest : PrinterEvent → List PrinterEvent → List PrinterEvent
insert_newest e [] = e ∷ []
insert_newest e (x ∷ events) =
    let rest = insert_newest e events in if ltb e.ts x.ts then x ∷ rest else e ∷ x ∷ events

unfoldable pub newest_first : List PrinterEvent → List PrinterEvent
newest_first [] = []
newest_first (e ∷ events) = insert_newest e (newest_first events)

unfoldable pub raise_errors : AlertRule → Printer → ℕ → ℕ → List PrinterEvent → List Finding
raise_errors rule p hidden cap [] = []
raise_errors rule p hidden cap (e ∷ events) =
    raise (
      demand_of p (error_key rule.id p.place.id (code_of e)) (error_on p.label)
        (event_text e.severity e.message hidden cap))
    ∷ raise_errors rule p hidden cap events

unfoldable pub printer_errors : Settings → List PrinterEvent → AlertRule → Printer → List Finding
printer_errors settings events rule p =
    let unresolved =
      select
        (λ e.
          (e.printer_id == p.place.id)
          && (not e.is_resolved && leb (severity_rank rule.severity) (severity_rank e.severity)))
        events in
    let ordered = newest_first (by_code [] unresolved) in
    let cap = max 1 (or_else settings.max_error_alerts_per_printer 5) in
    raise_errors rule p (length ordered - cap) cap (take cap ordered)

abbrev pub occurrence_max_window_minutes : ℕ
occurrence_max_window_minutes = 60 * 24 * 30

unfoldable pub occurrence_window_minutes : AlertRule → Option ℕ
occurrence_window_minutes rule = elim rule.window_minutes [
  | none ↦ none
  | some minutes ↦ if minutes == 0 then none else some (min minutes occurrence_max_window_minutes)
]

-- Does the event count for the rule? The code is compared as the database compares it.
unfoldable pub is_occurrence : Texts → AlertRule → ℕ → PrinterEvent → Bool
is_occurrence texts rule since e =
    let code = texts.strip (get_or rule.match_code "") in
    leb since e.ts
    && ((if str_eq code ""
          then true
          else elim e.code [ none ↦ false | some c ↦ texts.contains c code ])
        && elim rule.match_min_severity [
          | none ↦ true
          | some floor ↦ leb (severity_rank floor) (severity_rank e.severity)
        ])

-- `_occurrence_counts`, of one printer in the rule's scope.
unfoldable pub occurrence_count : Texts → List PrinterEvent → AlertRule → ℕ → Printer → ℕ
occurrence_count texts events rule since p =
    length (select (λ e. (e.printer_id == p.place.id) && is_occurrence texts rule since e) events)

-- `count > n - n * margin / 100`, without the division.
unfoldable pub is_above_floor : ℕ → ℕ → ℕ → Bool
is_above_floor count n margin = ltb (100 * n) (100 * count + n * margin)

unfoldable pub frequent_events : Settings → AlertRule → Printer → String → ℕ → ℕ → ℕ → List Finding
frequent_events settings rule p code window n count =
    let key = rate_key rule.id p.place.id in
    if leb n count
    then raise (record (demand_of p key (frequent code p.label) (counted count window n)) {
      cooldown_cap_min = some window;
      refresh_detail = true;
    })
      ∷ []
    else if is_above_floor count n settings.occurrence_clear_margin_pct
    then recede key (receding count window n) window ∷ []
    else []
