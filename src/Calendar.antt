-- ===== src/Calendar.antt =====
-- central/business_calendar.py: the days on which a supplier delivers. A date is its proleptic
-- Gregorian ordinal, as in Python: day 1 is Monday, the first of January of year 1. The last year
-- of Python's dates, 9999, is not represented, nor the first one, before which there is no year.
mod Counts
mod Dates
mod Ending
mod Holidays
mod Horizon
mod Observance
mod Opening
mod Settings
mod Spans
mod Tests
mod Walk
mod Years
use printer_nanny.Common.{
  ℕ, zero, suc, ◌+◌, ◌*◌, ◌-◌, ◌/◌, ◌%◌, Bool, true, false, ◌&&◌, ◌||◌, not, Option, none, some,
  List, [], ◌∷◌, ltb, leb, ◌==◌, if◌then◌else◌,
}

-- Is the year a leap year, counting from 0?
unfoldable pub is_leap : ℕ → Bool
is_leap year = (year % 4 == 0) && (not (year % 100 == 0) || (year % 400 == 0))

-- The days before the first of January.
unfoldable pub days_before_year : ℕ → ℕ
days_before_year year = let y = year - 1 in y * 365 + y / 4 + y / 400 - y / 100

unfoldable pub nth_or_zero : List ℕ → ℕ → ℕ
nth_or_zero [] n = 0
nth_or_zero (x ∷ xs) zero = x
nth_or_zero (x ∷ xs) (suc n) = nth_or_zero xs n

-- The days of a common year before the first of the month.
abbrev pub days_before_month : ℕ → ℕ
days_before_month month =
    nth_or_zero (0 ∷ 31 ∷ 59 ∷ 90 ∷ 120 ∷ 151 ∷ 181 ∷ 212 ∷ 243 ∷ 273 ∷ 304 ∷ 334 ∷ []) (month - 1)

unfoldable pub date : ℕ → ℕ → ℕ → ℕ
date year month day =
    days_before_year year
    + days_before_month month
    + (if ltb 2 month && is_leap year then 1 else 0)
    + day

unfoldable pub weekday : ℕ → ℕ
weekday day = (day + 6) % 7

-- The year of a day, sought from a year that is not after it.
unfoldable pub year_from : ℕ → ℕ → ℕ → ℕ
year_from zero year day = year
year_from (suc fuel) year day =
    let later = year_from fuel (year + 1) day in
    if leb day (days_before_year (year + 1)) then year else later

unfoldable pub year_of : ℕ → ℕ
year_of day = year_from day (day / 366 + 1) day

unfoldable pub observed : ℕ → ℕ
observed day = if weekday day == 5 then day - 1 else if weekday day == 6 then day + 1 else day

unfoldable pub nth_weekday : ℕ → ℕ → ℕ → ℕ → ℕ
nth_weekday year month day n =
    let first = date year month 1 in first + (day + 7 - weekday first) % 7 + 7 * (n - 1)

unfoldable pub last_weekday : ℕ → ℕ → ℕ → ℕ
last_weekday year month day =
    let next = if month == 12 then date (year + 1) 1 1 else date year (month + 1) 1 in
    let last = next - 1 in last - (weekday last + 7 - day) % 7

unfoldable pub us_federal_holidays : ℕ → List ℕ
us_federal_holidays year =
    observed (date year 1 1)
    ∷ nth_weekday year 1 0 3
    ∷ nth_weekday year 2 0 3
    ∷ last_weekday year 5 0
    ∷ observed (date year 6 19)
    ∷ observed (date year 7 4)
    ∷ nth_weekday year 9 0 1
    ∷ nth_weekday year 10 0 2
    ∷ observed (date year 11 11)
    ∷ nth_weekday year 11 3 4
    ∷ observed (date year 12 25)
    ∷ []

pub record ProcurementCalendar : Type 0 where
  pub delivery_business_days : ℕ
  pub safety_business_days : ℕ
  pub observe_us_holidays : Bool
  pub custom_closures : List ℕ

unfoldable pub is_listed : ℕ → List ℕ → Bool
is_listed day [] = false
is_listed day (x ∷ days) = (x == day) || is_listed day days

unfoldable pub is_holiday : ProcurementCalendar → ℕ → Bool
is_holiday c day =
    is_listed day c.custom_closures
    || (c.observe_us_holidays
        && (is_listed day (us_federal_holidays (year_of day - 1))
            || (is_listed day (us_federal_holidays (year_of day))
                || is_listed day (us_federal_holidays (year_of day + 1)))))

unfoldable pub is_business_day : ProcurementCalendar → ℕ → Bool
is_business_day c day = if leb 5 (weekday day) then false else not (is_holiday c day)

-- The loop, on fuel: `none` where the fuel ends before it.
unfoldable pub walk : (ℕ → Bool) → ℕ → ℕ → ℕ → Option ℕ
walk is_open fuel day zero = some day
walk is_open zero day (suc remaining) = none
walk is_open (suc fuel) day (suc remaining) =
    walk is_open fuel (day + 1) (if is_open (day + 1) then remaining else suc remaining)

unfoldable pub add_business_days : ProcurementCalendar → ℕ → ℕ → ℕ → Option ℕ
add_business_days c fuel start business_days = walk (is_business_day c) fuel start business_days

unfoldable pub estimated_delivery : ProcurementCalendar → ℕ → ℕ → Option ℕ
estimated_delivery c fuel ordered_on = add_business_days c fuel ordered_on c.delivery_business_days

unfoldable pub days_until : ℕ → Option ℕ → Option ℕ
days_until today none = none
days_until today (some deadline) = some (deadline - today)

unfoldable pub order_window_days : ProcurementCalendar → ℕ → ℕ → Option ℕ
order_window_days c fuel today =
    days_until today
      (add_business_days c fuel today (c.delivery_business_days + c.safety_business_days))
