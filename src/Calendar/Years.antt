-- ===== src/Calendar/Years.antt =====
-- central/business_calendar.py: in which year a date is, as Python counts the days.
use mathlib.Core.Path.{subst}
use printer_nanny.Common.{ℕ, zero, suc, ◌+◌, ◌-◌, ◌*◌, ◌/◌, ◌≡◌, ◌≤◌, ◌<◌, arith}
use printer_nanny.Calendar.{days_before_year, year_from, year_of}

pub year_length : (y : ℕ) → days_before_year (y + 1) + 365 ≤ days_before_year (y + 2)
unfolding days_before_year
year_length y = omega arith

pub year_start : (y k : ℕ) → days_before_year (y + 1) + 365 * k ≤ days_before_year (y + 1 + k)
unfolding days_before_year
year_start y k = omega arith

estimate : (y k : ℕ) → k < 365 → (days_before_year (y + 1) + k + 1) / 366 ≤ y
unfolding days_before_year
estimate y k h = omega (arith, h)

year_from-found :
    (fuel gap e k : ℕ)
    → gap ≤ fuel
    → k < 365
    → year_from fuel (e + 1) (days_before_year (e + 1 + gap) + k + 1) ≡ e + 1 + gap
unfolding year_from
year_from-found zero zero e k h small = omega arith
year_from-found (suc fuel) zero e k h small = ground (arith, year_length e)
year_from-found zero (suc gap) e k h small = ground (arith, h)
year_from-found (suc fuel) (suc gap) e k h small =
    let later = year_from-found fuel gap (e + 1) k (omega (arith, h)) small in
    let same : e + 1 + suc gap ≡ e + 1 + 1 + gap = omega arith in
    let after = year_start (e + 1) gap in rw same (ground (arith, later, after))

pub year_of-found : (y k : ℕ) → k < 365 → year_of (days_before_year (y + 1) + k + 1) ≡ y + 1
unfolding year_of days_before_year
year_of-found y k small =
    let day = days_before_year (y + 1) + k + 1 in
    let early : day / 366 ≤ y = estimate y k small in
    let from_start = year_start 0 y in
    let gap = y - day / 366 in
    let whole : day / 366 + 1 + gap ≡ y + 1 = omega (arith, early) in
    let enough : gap ≤ day = omega (arith, from_start) in
    let found = year_from-found day gap (day / 366) k enough small in
    subst (λ z. year_from day (day / 366 + 1) (days_before_year z + k + 1) ≡ z) whole found
