-- ===== src/Calendar/Observance.antt =====
-- central/business_calendar.py: on which days `us_federal_holidays` falls.
use printer_nanny.Common.{ℕ, ◌+◌, if◌then◌else◌, ◌≡◌, ◌≤◌, ◌<◌, arith, All}
use printer_nanny.Calendar.{
  weekday, days_before_year, is_leap, date, nth_or_zero, observed, nth_weekday, last_weekday,
  us_federal_holidays,
}

observed-weekday : (day : ℕ) → 1 ≤ day → weekday (observed day) < 5
unfolding observed weekday
observed-weekday day h = ground (arith, h)

nth_weekday-weekday :
    (year month day n : ℕ) → day < 7 → weekday (nth_weekday year month day n) ≡ day
unfolding nth_weekday weekday
nth_weekday-weekday year month day n h = ground (arith, h)

last_weekday-weekday : (year day : ℕ) → day < 7 → weekday (last_weekday year 5 day) ≡ day
unfolding last_weekday weekday date nth_or_zero
last_weekday-weekday year day h = ground (arith, h)

date-IsPositive : (year month day : ℕ) → 1 ≤ day → 1 ≤ date year month day
unfolding date
date-IsPositive year month day h = omega (arith, h)

observed_on : (year month day : ℕ) → 1 ≤ day → weekday (observed (date year month day)) < 5
observed_on year month day h =
    observed-weekday (date year month day) (date-IsPositive year month day h)

nth_on : (year month day n : ℕ) → day < 5 → weekday (nth_weekday year month day n) < 5
nth_on year month day n h =
    omega (arith, nth_weekday-weekday year month day n (omega (arith, h)), h)

-- Every federal holiday of a year is observed on a day from Monday to Friday.
pub us_federal_holidays-weekday :
    (year : ℕ) → All (λ day. weekday day < 5) (us_federal_holidays year)
unfolding us_federal_holidays
us_federal_holidays-weekday year = (
  observed_on year 1 1 (omega arith),
  (
    nth_on year 1 0 3 (omega arith),
    (
      nth_on year 2 0 3 (omega arith),
      (
        omega (arith, last_weekday-weekday year 0 (omega arith)),
        (
          observed_on year 6 19 (omega arith),
          (
            observed_on year 7 4 (omega arith),
            (
              nth_on year 9 0 1 (omega arith),
              (
                nth_on year 10 0 2 (omega arith),
                (
                  observed_on year 11 11 (omega arith),
                  (nth_on year 11 3 4 (omega arith), (observed_on year 12 25 (omega arith), tt)),
                ),
              ),
            ),
          ),
        ),
      ),
    ),
  ),
)

-- A year has 365 days, and a leap year one more.
year-is_leap :
    (y : ℕ)
    → days_before_year (y + 2) ≡ days_before_year (y + 1) + 365 + (if is_leap (y + 1) then 1 else 0)
unfolding days_before_year is_leap
year-is_leap y = ground arith
