-- ===== src/Calendar/Dates.antt =====
-- central/business_calendar.py: what the settings' texts say. Python 3.12's `date.fromisoformat`,
-- in the forms its documentation names, `int` of a text, and `parse_closures`. A text is the list
-- of its characters' codes; the digits are the ASCII ones.
use printer_nanny.Common.{
  ℕ, ◌+◌, ◌-◌, ◌*◌, Bool, true, ◌&&◌, ◌||◌, Option, none, some, List, [], ◌∷◌, ltb, leb, ◌==◌,
  if◌then◌else◌,
}
use printer_nanny.Money.{Text, spell}
use printer_nanny.Money.Input.{is_digit, is_space}
use printer_nanny.Calendar.{nth_or_zero, is_leap, date, weekday}

unfoldable pub are_digits : Text → Bool
are_digits [] = true
are_digits (c ∷ text) = is_digit c && are_digits text

abbrev days_in_month : ℕ → ℕ → ℕ
days_in_month year month =
    if (month == 2) && is_leap year
    then 29
    else nth_or_zero (31 ∷ 28 ∷ 31 ∷ 30 ∷ 31 ∷ 30 ∷ 31 ∷ 31 ∷ 30 ∷ 31 ∷ 30 ∷ 31 ∷ []) (month - 1)

-- A date by its year, month and day, each as digits.
unfoldable pub calendar_date : Text → Text → Text → Option ℕ
calendar_date y m d =
    let year = spell 0 y in
    let month = spell 0 m in
    let day = spell 0 d in
    if are_digits y
      && are_digits m
      && are_digits d
      && ltb 0 year
      && ltb 0 month
      && leb month 12
      && ltb 0 day
      && leb day (days_in_month year month)
    then some (date year month day)
    else none

-- The Monday of a year's first ISO week.
unfoldable pub first_monday : ℕ → ℕ
first_monday year =
    let first = date year 1 1 in
    if ltb 3 (weekday first) then first + 7 - weekday first else first - weekday first

-- Has the year 53 ISO weeks?
unfoldable pub is_long_year : ℕ → Bool
is_long_year year =
    (weekday (date year 1 1) == 3) || ((weekday (date year 1 1) == 2) && is_leap year)

-- The ordinal of the last date, the 31st of December of 9999.
abbrev last_date : ℕ
last_date = 3652059

-- A date by its year, ISO week and day of the week, each as digits.
unfoldable pub week_date : Text → Text → Text → Option ℕ
week_date y w d =
    let year = spell 0 y in
    let week = spell 0 w in
    let day = spell 0 d in
    let result = first_monday year + 7 * (week - 1) + (day - 1) in
    if are_digits y
      && are_digits w
      && are_digits d
      && ltb 0 year
      && ltb 0 week
      && leb week (if is_long_year year then 53 else 52)
      && ltb 0 day
      && leb day 7
      && leb result last_date
    then some result
    else none

-- YYYY-MM-DD, YYYY-Www-D, YYYYMMDD, YYYYWwwD, YYYY-Www and YYYYWww.
unfoldable pub fromisoformat : Text → Option ℕ
fromisoformat (a ∷ b ∷ c ∷ d ∷ s ∷ e ∷ f ∷ g ∷ h ∷ i ∷ []) =
    let year = a ∷ b ∷ c ∷ d ∷ [] in
    if s == b'-'
    then if (e == b'W') && (h == b'-')
      then week_date year (f ∷ g ∷ []) (i ∷ [])
      else if g == b'-'
      then calendar_date year (e ∷ f ∷ []) (h ∷ i ∷ [])
      else none
    else none
fromisoformat (a ∷ b ∷ c ∷ d ∷ e ∷ f ∷ g ∷ h ∷ []) =
    let year = a ∷ b ∷ c ∷ d ∷ [] in
    if e == b'W'
    then week_date year (f ∷ g ∷ []) (h ∷ [])
    else if (e == b'-') && (f == b'W')
    then week_date year (g ∷ h ∷ []) (b'1' ∷ [])
    else calendar_date year (e ∷ f ∷ []) (g ∷ h ∷ [])
fromisoformat (a ∷ b ∷ c ∷ d ∷ e ∷ f ∷ g ∷ []) =
    if e == b'W' then week_date (a ∷ b ∷ c ∷ d ∷ []) (f ∷ g ∷ []) (b'1' ∷ []) else none
fromisoformat text = none

-- `str.split()`: the word at the head, and the words behind the first blank.
unfoldable pub pieces : Text → Text × List Text
pieces [] = ([], [])
pieces (c ∷ text) =
    let (word, words) = pieces text in
    if is_space c then ([], kept word words) else (c ∷ word, words)
  where
    kept : Text → List Text → List Text
    kept [] words = words
    kept (c ∷ word) words = (c ∷ word) ∷ words

unfoldable pub split : Text → List Text
split text = (pieces (b' ' ∷ text)).1

abbrev pub comma_to_blank : ℕ → ℕ
comma_to_blank c = if c == b',' then b' ' else c

unfoldable pub add_date : Option ℕ → List ℕ → List ℕ
add_date none days = days
add_date (some day) days = day ∷ days

unfoldable pub dates_of : List Text → List ℕ
dates_of [] = []
dates_of (value ∷ values) = add_date (fromisoformat value) (dates_of values)
