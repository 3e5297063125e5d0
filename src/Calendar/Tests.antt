-- ===== src/Calendar/Tests.antt =====
-- central/business_calendar.py: Christmas of 2025, with a closure between the years.
use printer_nanny.Common.{
  ℕ, ◌+◌, ◌≡◌, ◌≤◌, str_eq, if◌then◌else◌, ◌⊎◌, refl, true, false, some, [], ◌∷◌,
}
use printer_nanny.Calendar.{
  ProcurementCalendar, date, year_of, year_from, days_before_year, nth_or_zero, is_leap, weekday,
  observed, nth_weekday, last_weekday, us_federal_holidays, is_listed, is_holiday, is_business_day,
  walk, add_business_days, order_window_days, days_until,
}
use printer_nanny.Money.{Text, spell, show, fixed_digits, count_digits}
use printer_nanny.Money.Input.{is_digit, is_space, strip_left, strip_right}
use printer_nanny.Calendar.Dates.{
  fromisoformat, calendar_date, week_date, dates_of, add_date, are_digits, first_monday,
  is_long_year, pieces, split,
}
use printer_nanny.Calendar.Settings.{
  absent, clamp, int_of, at_least, as_bool, casefold, closure_text, digits_in, is_yes, number,
  same_text, show_int, signed, str, int, Settings, settings_of, parse_closures, bounded_int,
  calendar_override, from_runtime, effective_order_window_days,
}
use printer_nanny.Calendar.Horizon.{IsOrderWindow, effective_order_window_days_lem}
use printer_nanny.Calendar.Walk.{open_days}
use printer_nanny.Calendar.Ending.{add_business_days_lem}

abbrev policy : ProcurementCalendar
policy = record {
  delivery_business_days = 5;
  safety_business_days = 2;
  observe_us_holidays = true;
  custom_closures = 739614 ∷ [];
}

-- The 24th of December.
abbrev christmas_eve : ℕ
christmas_eve = 739609

abbrev four : ℕ
four = 4

its_date : date 2025 12 24 ≡ christmas_eve
unfolding date days_before_year nth_or_zero is_leap
its_date = refl

-- The 26th is the first business day; the weekend, Monday the 29th, which is a closure, and the
-- New Year come before the fourth, Friday the second of January.
after_the_year : add_business_days policy 30 christmas_eve 4 ≡ some 739618
unfolding add_business_days walk is_business_day weekday is_holiday is_listed us_federal_holidays
    observed date days_before_year year_of year_from nth_or_zero nth_weekday last_weekday is_leap
after_the_year = refl

add_business_days_lem_example :
    (fuel : ℕ) × (span : ℕ) × ((more : ℕ)
      → add_business_days policy (fuel + more) christmas_eve 4 ≡ some (christmas_eve + span))
    × (open_days (is_business_day policy) christmas_eve span ≡ four)
    × (((span ≡ 0) × (four ≡ 0)) ⊎ (is_business_day policy (christmas_eve + span) ≡ true))
add_business_days_lem_example = add_business_days_lem policy christmas_eve 4

-- The closure as a week's day, behind a word that is no date.
abbrev closures_text : Text
closures_text =
    b'?' ∷ b',' ∷ b'2' ∷ b'0' ∷ b'2' ∷ b'6' ∷ b'-' ∷ b'W' ∷ b'0' ∷ b'1' ∷ b'-' ∷ b'1' ∷ []

abbrev stored : Settings
stored key =
    if str_eq key "procurement.closed_dates"
    then str closures_text
    else if str_eq key "alerts.reorder_lead_days"
    then int false 3
    else absent

-- The window ends on the seventh of January.
its_window : effective_order_window_days (some stored) 30 christmas_eve ≡ some 14
unfolding effective_order_window_days at_least order_window_days days_until add_business_days walk
    from_runtime bounded_int clamp int_of settings_of is_business_day weekday is_holiday is_listed
    parse_closures dates_of add_date are_digits fromisoformat calendar_date week_date first_monday
    is_long_year pieces split as_bool calendar_override casefold closure_text digits_in is_yes
    number same_text show_int signed date days_before_year is_leap last_weekday nth_or_zero
    nth_weekday observed us_federal_holidays year_from year_of is_digit is_space strip_left
    strip_right spell show fixed_digits count_digits
its_window = refl

effective_order_window_days_lem_example :
    (window : ℕ) × ((more : ℕ)
      → effective_order_window_days (some stored) (777 + more) christmas_eve ≡ some window)
    × (window ≤ 777)
    × (calendar_override (stored "alerts.reorder_lead_days") ≤ window)
    × IsOrderWindow
        (from_runtime (some stored))
        christmas_eve
        (calendar_override (stored "alerts.reorder_lead_days"))
        window
unfolding settings_of
effective_order_window_days_lem_example =
    effective_order_window_days_lem (some stored) christmas_eve
