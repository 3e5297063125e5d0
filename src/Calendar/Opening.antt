-- ===== src/Calendar/Opening.antt =====
-- central/business_calendar.py: a day on which the business is open always comes.
use mathlib.Core.Path.{subst}
use printer_nanny.Common.{
  ℕ, ◌+◌, ◌-◌, ◌≡◌, ◌≤◌, ◌<◌, refl, sym, arith, All, All-map, ◌==◌, Bool-cases, true, false, leb,
  List, [], ◌∷◌, inl, inr,
}
use printer_nanny.Calendar.{
  days_before_year, year_of, weekday, us_federal_holidays, is_listed, is_holiday, is_business_day,
  ProcurementCalendar,
}
use printer_nanny.Calendar.Years.{year_length, year_start, year_of-found}
use printer_nanny.Calendar.Holidays.{IsOffMarch, holidays-IsOffMarch}

unfoldable latest : List ℕ → ℕ
latest [] = 0
latest (x ∷ xs) = x + latest xs

listed-after : (days : List ℕ) (day : ℕ) → latest days < day → is_listed day days ≡ false
unfolding latest is_listed
listed-after [] day h = refl
listed-after (x ∷ days) day h =
    let rest = listed-after days day (omega (arith, h)) in ground (arith, rest, h)

unlisted :
    (days : List ℕ) (day : ℕ) → All (λ x. (x == day) ≡ false) days → is_listed day days ≡ false
unfolding is_listed
unlisted [] day h = refl
unlisted (x ∷ days) day h = rw h.0 (unlisted days day h.1)

-- A day of the year y + 2, which is in March.
unfoldable march : ℕ → ℕ → ℕ
march y k = days_before_year (y + 2) + k + 1

march_length : (y : ℕ) → days_before_year (y + 2) + 365 ≤ days_before_year (y + 3)
unfolding days_before_year
march_length y = omega arith

no_holiday :
    (y k : ℕ)
    → (70 ≤ k) × (k ≤ 72)
    → (is_listed (march y k) (us_federal_holidays (y + 1)) ≡ false)
      × (is_listed (march y k) (us_federal_holidays (y + 2)) ≡ false)
      × (is_listed (march y k) (us_federal_holidays (y + 3)) ≡ false)
unfolding march
no_holiday y k bounds =
    let before = year_length y in
    let after : days_before_year (y + 2) + 365 ≤ days_before_year (y + 3) = march_length y in
    (
      unlisted (us_federal_holidays (y + 1)) (march y k) (
          All-map (IsOffMarch (y + 1)) (λ x. (x == march y k) ≡ false) (us_federal_holidays (y + 1))
            (λ x b. ground (arith, b.to_last, before, bounds)) (holidays-IsOffMarch (y + 1))),
      unlisted (us_federal_holidays (y + 2)) (march y k) (
          All-map (IsOffMarch (y + 2)) (λ x. (x == march y k) ≡ false) (us_federal_holidays (y + 2))
            (λ x b. ground (arith, b.off, bounds)) (holidays-IsOffMarch (y + 2))),
      unlisted (us_federal_holidays (y + 3)) (march y k) (
          All-map (IsOffMarch (y + 3)) (λ x. (x == march y k) ≡ false) (us_federal_holidays (y + 3))
            (λ x b. ground (arith, b.from_first, after, bounds)) (holidays-IsOffMarch (y + 3))),
    )

some_weekday : (y : ℕ) → (k : ℕ) × (70 ≤ k) × (k ≤ 72) × (leb 5 (weekday (march y k)) ≡ false)
unfolding weekday march
some_weekday y = elim (Bool-cases (leb 5 (weekday (march y 70)))) [
  | inr open_ ↦ (70, omega arith, omega arith, open_)
  | inl closed ↦ (72, omega arith, omega arith, ground (arith, closed))
]

year_of-march : (y k : ℕ) → k ≤ 72 → year_of (march y k) ≡ y + 2
unfolding march
year_of-march y k small =
    let same : y + 1 + 1 ≡ y + 2 = omega arith in
    subst (λ z. year_of (days_before_year z + k + 1) ≡ z) same
      (year_of-found (y + 1) k (omega (arith, small)))

march-IsFar : (y k : ℕ) → y < march y k
unfolding march days_before_year
march-IsFar y k = omega (arith, year_start 0 (y + 1))

march-is_business_day :
    (c : ProcurementCalendar) (y k : ℕ)
    → latest c.custom_closures < march y k
    → (70 ≤ k) × (k ≤ 72) × (leb 5 (weekday (march y k)) ≡ false)
    → is_business_day c (march y k) ≡ true
unfolding is_business_day is_holiday
march-is_business_day c y k far (low, high, working) =
    let year = year_of-march y k high in
    let (before, this, after) = no_holiday y k (low, high) in
    let prior : y + 2 - 1 ≡ y + 1 = omega arith in
    let next : y + 2 + 1 ≡ y + 3 = omega arith in
    let none_closed = listed-after c.custom_closures (march y k) far in
    rw (working, none_closed, year, prior, next, before, this, after)
      (elim (Bool-cases c.observe_us_holidays) [ inl h ↦ rw h refl | inr h ↦ rw h refl ])

pub business_day_comes :
    (c : ProcurementCalendar) (day : ℕ) → (k : ℕ) × (is_business_day c (day + 1 + k) ≡ true)
business_day_comes c day =
    let y = day + latest c.custom_closures in
    let (k, low, high, working) = some_weekday y in
    let far = march-IsFar y k in
    let open_then = march-is_business_day c y k (omega (arith, far)) (low, high, working) in
    let there : day + 1 + (march y k - (day + 1)) ≡ march y k = omega (arith, far) in
    (march y k - (day + 1), subst (λ d. is_business_day c d ≡ true) (sym there) open_then)
