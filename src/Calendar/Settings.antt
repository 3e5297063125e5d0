-- ===== src/Calendar/Settings.antt =====
-- central/business_calendar.py: the policy that the settings hold (`from_runtime`), and the order
-- window over it (`effective_order_window_days`). The settings are a function from their names: an
-- absent name and a `None` are one. `load_settings` gives each the type of its specification, so
-- there are no floats. `casefold` is written out for the letters of the four words.
use printer_nanny.Common.{
  ℕ, ◌+◌, Bool, true, false, ◌&&◌, ◌||◌, Option, none, some, List, [], ◌∷◌, ltb, leb, ◌==◌, length,
  take, map, String, if◌then◌else◌,
}
use printer_nanny.Money.{Text, spell, show}
use printer_nanny.Money.Input.{is_digit, strip}
use printer_nanny.Calendar.{ProcurementCalendar, order_window_days}
use printer_nanny.Calendar.Dates.{split, comma_to_blank, dates_of}

pub data Setting : Type 0 where
  absent : Setting
  bool : Bool → Setting
  int : (is_negative : Bool) → ℕ → Setting
  str : Text → Setting

abbrev pub max_business_days : ℕ
max_business_days = 60

abbrev pub max_calendar_override_days : ℕ
max_calendar_override_days = 365

abbrev pub max_custom_closures : ℕ
max_custom_closures = 366

-- The digits of a literal, without the single underscores between them; a flag says whether a digit
-- came just before.
unfoldable pub digits_in : Bool → Text → Option Text
digits_in true [] = some []
digits_in false [] = none
digits_in after (c ∷ text) = elim (is_digit c) [
  | true ↦ with_digit (digits_in true text)
  | false ↦ elim (after && (c == b'_')) [ true ↦ digits_in false text | false ↦ none ]
]
  where
    with_digit : Option Text → Option Text
    with_digit none = none
    with_digit (some digits) = some (c ∷ digits)

-- Python refuses to read longer numbers.
abbrev max_str_digits : ℕ
max_str_digits = 4300

unfoldable pub number : Bool → Option Text → Option (Bool × ℕ)
number is_negative none = none
number is_negative (some digits) =
    if ltb max_str_digits (length digits) then none else some (is_negative, spell 0 digits)

unfoldable pub signed : Text → Option (Bool × ℕ)
signed [] = none
signed (c ∷ text) =
    if c == b'-'
    then number true (digits_in false text)
    else if c == b'+'
    then number false (digits_in false text)
    else number false (digits_in false (c ∷ text))

-- `int(value)`; `none` is its `TypeError` or `ValueError`.
unfoldable pub int_of : Setting → Option (Bool × ℕ)
int_of absent = none
int_of (bool b) = some (false, if b then 1 else 0)
int_of (int is_negative n) = some (is_negative, n)
int_of (str text) = signed (strip text)

-- `min(limit, max(0, parsed))`
unfoldable pub clamp : ℕ → ℕ → Option (Bool × ℕ) → ℕ
clamp limit fallback none = fallback
clamp limit fallback (some (true, n)) = 0
clamp limit fallback (some (false, n)) = if leb n limit then n else limit

unfoldable pub bounded_int : Setting → ℕ → ℕ
bounded_int value fallback = clamp max_business_days fallback (int_of value)

unfoldable pub calendar_override : Setting → ℕ
calendar_override value = clamp max_calendar_override_days 0 (int_of value)

-- The letter ſ folds to an s.
unfoldable pub casefold : ℕ → ℕ
casefold c = if leb b'A' c && leb c b'Z' then c + 32 else if c == 383 then b's' else c

unfoldable pub same_text : Text → Text → Bool
same_text [] [] = true
same_text (c ∷ text) (d ∷ other) = (c == d) && same_text text other
same_text text other = false

unfoldable pub is_yes : Text → Bool
is_yes text =
    same_text text (b'1' ∷ [])
    || same_text text (b't' ∷ b'r' ∷ b'u' ∷ b'e' ∷ [])
    || same_text text (b'o' ∷ b'n' ∷ [])
    || same_text text (b'y' ∷ b'e' ∷ b's' ∷ [])

-- `str(value)` of a number
unfoldable pub show_int : Bool → ℕ → Text
show_int is_negative n = if is_negative && ltb 0 n then b'-' ∷ show n else show n

unfoldable pub as_bool : Setting → Bool → Bool
as_bool absent fallback = fallback
as_bool (bool b) fallback = b
as_bool (int is_negative n) fallback = is_yes (show_int is_negative n)
as_bool (str text) fallback = is_yes (map casefold (strip text))

-- `str(raw or "")`
unfoldable pub closure_text : Setting → Text
closure_text absent = []
closure_text (bool true) = b'T' ∷ b'r' ∷ b'u' ∷ b'e' ∷ []
closure_text (bool false) = []
closure_text (int is_negative n) = if ltb 0 n then show_int is_negative n else []
closure_text (str text) = text

unfoldable pub parse_closures : Setting → List ℕ
parse_closures raw =
    dates_of (take max_custom_closures (split (map comma_to_blank (closure_text raw))))

abbrev pub Settings : Type 0
Settings = String → Setting

-- `values or {}`
unfoldable pub settings_of : Option Settings → Settings
settings_of none = λ key. absent
settings_of (some values) = values

unfoldable pub from_runtime : Option Settings → ProcurementCalendar
from_runtime values =
    let rt = settings_of values in
    record {
      delivery_business_days = bounded_int (rt "procurement.delivery_business_days") 5;
      safety_business_days = bounded_int (rt "procurement.safety_business_days") 2;
      observe_us_holidays = as_bool (rt "procurement.observe_us_holidays") true;
      custom_closures = parse_closures (rt "procurement.closed_dates");
    }

-- `max(window, override)`
unfoldable pub at_least : ℕ → Option ℕ → Option ℕ
at_least override none = none
at_least override (some window) = some (if ltb window override then override else window)

-- On the fuel of the walk to the window's end.
unfoldable pub effective_order_window_days : Option Settings → ℕ → ℕ → Option ℕ
effective_order_window_days values fuel today =
    at_least (calendar_override (settings_of values "alerts.reorder_lead_days"))
      (order_window_days (from_runtime values) fuel today)
