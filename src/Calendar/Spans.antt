-- ===== src/Calendar/Spans.antt =====
-- central/business_calendar.py: which days may be closed in the two years that follow a day.
use mathlib.Core.Path.{subst}
use printer_nanny.Common.{
  ℕ, zero, suc, ◌+◌, ◌-◌, ◌*◌, ◌/◌, ◌≡◌, ◌≤◌, ◌<◌, ◌⊎◌, inl, inr, arith, refl, Bool, true, false,
  ◌||◌, List, [], ◌∷◌, ◌++◌, length, length-append, leb, leb→le, ◌==◌, Bool-cases, and-true,
  not-true,
}
use printer_nanny.Calendar.{
  days_before_year, year_from, year_of, weekday, us_federal_holidays, is_listed, is_holiday,
  is_business_day, ProcurementCalendar,
}
use printer_nanny.Calendar.Years.{year_start}
use printer_nanny.Calendar.Counts.{on_weekdays}

year_from-bounds :
    (fuel y day : ℕ)
    → days_before_year (y + 1) ≤ day
    → day ≤ days_before_year (y + 2 + fuel)
    → (z : ℕ) × (year_from fuel (y + 1) day ≡ z + 1)
      × (days_before_year (z + 1) ≤ day)
      × (day ≤ days_before_year (z + 2))
unfolding year_from
year_from-bounds zero y day low high =
    (y, refl, low, subst (λ k. day ≤ days_before_year k) (omega arith) high)
year_from-bounds (suc fuel) y day low high =
    elim (Bool-cases (leb day (days_before_year (y + 1 + 1)))) [
      | inl early ↦
          let soon = leb→le day (days_before_year (y + 1 + 1)) early in
          (y, rw early refl, low, subst (λ k. day ≤ days_before_year k) (omega arith) soon)
      | inr late ↦
          let after : days_before_year (y + 1 + 1) ≤ day = ground (arith, late) in
          let until = subst (λ k. day ≤ days_before_year k) (omega arith) high in
          let (z, e, l, h) = year_from-bounds fuel (y + 1) day after until in (z, rw late e, l, h)
    ]

early_estimate : (q day : ℕ) → q * 366 ≤ day → days_before_year (q + 1) ≤ day
unfolding days_before_year
early_estimate q day h = omega (arith, h)

late_estimate : (q day : ℕ) → day ≤ days_before_year (q + 2 + day)
unfolding days_before_year
late_estimate q day = omega arith

years_apart :
    (y z : ℕ) → y + 1 ≤ z → days_before_year (y + 2) + 365 * (z - y - 1) ≤ days_before_year (z + 1)
years_apart y z h =
    let e1 : y + 1 + 1 ≡ y + 2 = omega arith in
    let e2 : y + 1 + 1 + (z - y - 1) ≡ z + 1 = omega (arith, h) in
    subst (λ k. days_before_year (y + 2) + 365 * (z - y - 1) ≤ days_before_year k) e2
      (subst
        (λ k. days_before_year k + 365 * (z - y - 1) ≤ days_before_year (y + 1 + 1 + (z - y - 1)))
        e1 (year_start (y + 1) (z - y - 1)))

year_of-bounds :
    (day : ℕ)
    → (z : ℕ) × (year_of day ≡ z + 1)
      × (days_before_year (z + 1) ≤ day)
      × (day ≤ days_before_year (z + 2))
unfolding year_of
year_of-bounds day =
    year_from-bounds day (day / 366) day (early_estimate (day / 366) day (omega arith))
      (late_estimate (day / 366) day)

-- The year of a day of the next 777 is the year of the first one, or one of the three after it.
pub year_of-near :
    (today k : ℕ)
    → 1 ≤ k
    → k ≤ 777
    → (i : ℕ) × (i ≤ 3) × (year_of (today + k) ≡ year_of today + i) × (1 ≤ year_of today)
year_of-near today k later small =
    let (y, first, low, high) = year_of-bounds today in
    let (z, second, low', high') = year_of-bounds (today + k) in
    let back = years_apart z y in
    let on = years_apart y z in
    let forward : y ≤ z = ground (arith, back, low, high', later) in
    let close : z ≤ y + 3 = ground (arith, on, high, low', small) in
    (
      z - y,
      omega (arith, forward, close),
      omega (arith, forward, first, second),
      omega (arith, first),
    )

-- The federal holidays of `n` years.
unfoldable pub holidays_from : ℕ → ℕ → List ℕ
holidays_from year zero = []
holidays_from year (suc n) = us_federal_holidays year ++ holidays_from (year + 1) n

pub length-holidays_from : (year n : ℕ) → length (holidays_from year n) ≡ 11 * n
unfolding holidays_from us_federal_holidays
length-holidays_from year zero = omega arith
length-holidays_from year (suc n) =
    let rest = length-holidays_from (year + 1) n in omega (arith, rest)

or-true : (b : Bool) → (b || true) ≡ true
or-true true = refl
or-true false = refl

is_listed-left :
    (day : ℕ) (xs ys : List ℕ) → is_listed day xs ≡ true → is_listed day (xs ++ ys) ≡ true
unfolding is_listed
is_listed-left day [] ys h = cc
is_listed-left day (x ∷ xs) ys h = ground (arith, h, is_listed-left day xs ys)

pub is_listed-right :
    (day : ℕ) (xs ys : List ℕ) → is_listed day ys ≡ true → is_listed day (xs ++ ys) ≡ true
unfolding is_listed
is_listed-right day [] ys h = h
is_listed-right day (x ∷ xs) ys h = rw (is_listed-right day xs ys h) (or-true (x == day))

listed-holidays_from :
    (year n i day : ℕ)
    → i < n
    → is_listed day (us_federal_holidays (year + i)) ≡ true
    → is_listed day (holidays_from year n) ≡ true
unfolding holidays_from
listed-holidays_from year zero i day small h = ground (arith, small)
listed-holidays_from year (suc n) zero day small h =
    let same : year + 0 ≡ year = omega arith in
    is_listed-left day (us_federal_holidays year) (holidays_from (year + 1) n)
      (subst (λ y. is_listed day (us_federal_holidays y) ≡ true) same h)
listed-holidays_from year (suc n) (suc i) day small h =
    let same : year + suc i ≡ year + 1 + i = omega arith in
    is_listed-right day (us_federal_holidays year) (holidays_from (year + 1) n) (
      listed-holidays_from (year + 1) n i day (omega (arith, small))
        (subst (λ y. is_listed day (us_federal_holidays y) ≡ true) same h))

or-cases : (a b : Bool) → (a || b) ≡ true → (a ≡ true) ⊎ (b ≡ true)
or-cases true b h = inl refl
or-cases false b h = inr h

-- The days that may be closed in the 777 days after `today`.
abbrev pub closings : ProcurementCalendar → ℕ → List ℕ
closings c today = c.custom_closures ++ holidays_from (year_of today - 1) 6

module _ (c : ProcurementCalendar) (today j : ℕ) (small : j < 777) where
  -- A federal holiday of the year `k` after the one before the day's.
  federal_listed :
      (k year : ℕ)
      → k ≤ 2
      → year_of (today + 1 + j) + k ≡ year + 1
      → is_listed (today + 1 + j) (us_federal_holidays year) ≡ true
      → is_listed (today + 1 + j) (closings c today) ≡ true
  federal_listed k year few at h =
      let same : today + (1 + j) ≡ today + 1 + j = omega arith in
      let (i, near, e, first) = year_of-near today (1 + j) (omega arith) (omega (arith, small)) in
      let here = subst (λ d. year_of d ≡ year_of today + i) same e in
      let index : year ≡ year_of today - 1 + (i + k) = omega (arith, first, at, here) in
      is_listed-right (today + 1 + j) c.custom_closures (holidays_from (year_of today - 1) 6) (
        listed-holidays_from (year_of today - 1) 6 (i + k) (today + 1 + j)
          (omega (arith, near, few))
          (subst (λ y. is_listed (today + 1 + j) (us_federal_holidays y) ≡ true) index h))

  year_positive : 1 ≤ year_of (today + 1 + j)
  year_positive = let (z, e, _, _) = year_of-bounds (today + 1 + j) in omega (arith, e)

  holiday-listed :
      is_holiday c (today + 1 + j) ≡ true → is_listed (today + 1 + j) (closings c today) ≡ true
  unfolding is_holiday
  holiday-listed h =
      let day = today + 1 + j in
      let year = year_of day in
      let first : year - 1 + 1 ≡ year = omega (arith, year_positive) in
      let after_it : year + 2 ≡ year + 1 + 1 = omega arith in
      let none_first : 0 ≤ 2 = omega arith in
      let one : 1 ≤ 2 = omega arith in
      let two : 2 ≤ 2 = omega arith in
      let before_it : year + 0 ≡ year - 1 + 1 = omega (arith, first) in
      elim (or-cases _ _ h) [
        | inl own ↦ is_listed-left (today + 1 + j) c.custom_closures _ own
        | inr federal ↦
            let (_, years) = and-true _ _ federal in
            elim (or-cases (is_listed day (us_federal_holidays (year - 1))) _ years) [
              | inl before ↦ federal_listed 0 (year - 1) none_first before_it before
              | inr rest ↦
                  elim (or-cases (is_listed day (us_federal_holidays year))
                    (is_listed day (us_federal_holidays (year + 1))) rest) [
                      | inl now ↦ federal_listed 1 year one refl now
                      | inr after ↦ federal_listed 2 (year + 1) two after_it after
                    ]
            ]
      ]

  pub weekday-covered :
      on_weekdays (today + 1 + j) ≡ true
      → (is_business_day c (today + 1 + j) || is_listed (today + 1 + j) (closings c today)) ≡ true
  unfolding is_business_day
  weekday-covered h =
      let on_time = not-true (leb 5 (weekday (today + 1 + j))) h in
      elim (Bool-cases (is_holiday c (today + 1 + j))) [
        | inl closed ↦ rw (holiday-listed closed) (or-true _)
        | inr opened ↦ rw (on_time, opened) refl
      ]

pub length-closings :
    (c : ProcurementCalendar) (today : ℕ)
    → length (closings c today) ≡ length c.custom_closures + 66
length-closings c today =
    let federal = length-holidays_from (year_of today - 1) 6 in
    let all = length-append c.custom_closures (holidays_from (year_of today - 1) 6) in
    omega (arith, federal, all)
