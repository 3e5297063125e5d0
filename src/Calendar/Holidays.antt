-- ===== src/Calendar/Holidays.antt =====
-- central/business_calendar.py: in which part of a year `us_federal_holidays` falls.
use printer_nanny.Common.{ℕ, ◌+◌, ◌-◌, ◌*◌, ◌≤◌, arith, All, ◌⊎◌, inl, inr}
use printer_nanny.Calendar.{
  days_before_year, weekday, observed, date, nth_weekday, last_weekday, nth_or_zero,
  us_federal_holidays,
}

observed-bounds : (d : ℕ) → (d ≤ observed d + 1) × (observed d ≤ d + 1)
unfolding observed weekday
observed-bounds d = ground arith

nth_weekday-bounds :
    (y m w n : ℕ)
    → (date y m 1 ≤ nth_weekday y m w n) × (nth_weekday y m w n ≤ date y m 1 + 6 + 7 * (n - 1))
unfolding nth_weekday
nth_weekday-bounds y m w n = ground arith

last_weekday-bounds :
    (y w : ℕ) → (date y 6 1 ≤ last_weekday y 5 w + 7) × (last_weekday y 5 w ≤ date y 6 1)
unfolding last_weekday
last_weekday-bounds y w = ground arith

-- Where the holidays of a year are: none of them in March.
pub record IsOffMarch (year day : ℕ) : Type 0 where
  pub from_first : days_before_year year ≤ day
  pub to_last : day ≤ days_before_year year + 363
  pub off : (day ≤ days_before_year year + 60) ⊎ (days_before_year year + 130 ≤ day)

observed-IsOffMarch :
    (year m day : ℕ)
    → (date year m day ≤ days_before_year year + 362)
    → (date year m day ≤ days_before_year year + 59)
      ⊎ (days_before_year year + 131 ≤ date year m day)
    → days_before_year year + 1 ≤ date year m day
    → IsOffMarch year (observed (date year m day))
observed-IsOffMarch year m day last off first =
    let (low, high) = observed-bounds (date year m day) in
    record {
      from_first = omega (arith, low, first);
      to_last = omega (arith, high, last);
      off = elim off [ inl b ↦ inl (omega (arith, high, b)) | inr b ↦ inr (omega (arith, low, b)) ];
    }

nth_weekday-IsOffMarch :
    (year m w n : ℕ)
    → (date year m 1 + 6 + 7 * (n - 1) ≤ days_before_year year + 363)
    → (date year m 1 + 6 + 7 * (n - 1) ≤ days_before_year year + 60)
      ⊎ (days_before_year year + 130 ≤ date year m 1)
    → days_before_year year ≤ date year m 1
    → IsOffMarch year (nth_weekday year m w n)
nth_weekday-IsOffMarch year m w n last off first =
    let (low, high) = nth_weekday-bounds year m w n in
    record {
      from_first = omega (arith, low, first);
      to_last = omega (arith, high, last);
      off = elim off [ inl b ↦ inl (omega (arith, high, b)) | inr b ↦ inr (omega (arith, low, b)) ];
    }

last_weekday-IsOffMarch : (year w : ℕ) → IsOffMarch year (last_weekday year 5 w)
unfolding date nth_or_zero
last_weekday-IsOffMarch year w =
    let (low, high) = last_weekday-bounds year w in
    record {
      from_first = ground (arith, low);
      to_last = ground (arith, high);
      off = inr (ground (arith, low));
    }

pub holidays-IsOffMarch : (year : ℕ) → All (IsOffMarch year) (us_federal_holidays year)
unfolding us_federal_holidays date nth_or_zero
holidays-IsOffMarch year = (
  observed-IsOffMarch year 1 1 (ground arith) (inl (ground arith)) (ground arith),
  (
    nth_weekday-IsOffMarch year 1 0 3 (ground arith) (inl (ground arith)) (ground arith),
    (
      nth_weekday-IsOffMarch year 2 0 3 (ground arith) (inl (ground arith)) (ground arith),
      (
        last_weekday-IsOffMarch year 0,
        (
          observed-IsOffMarch year 6 19 (ground arith) (inr (ground arith)) (ground arith),
          (
            observed-IsOffMarch year 7 4 (ground arith) (inr (ground arith)) (ground arith),
            (
              nth_weekday-IsOffMarch year 9 0 1 (ground arith) (inr (ground arith)) (ground arith),
              (
                nth_weekday-IsOffMarch year 10 0 2 (ground arith) (inr (ground arith))
                    (ground arith),
                (
                  observed-IsOffMarch year 11 11 (ground arith) (inr (ground arith)) (ground arith),
                  (
                    nth_weekday-IsOffMarch year 11 3 4 (ground arith) (inr (ground arith))
                        (ground arith),
                    (
                      observed-IsOffMarch year 12 25 (ground arith) (inr (ground arith))
                          (ground arith),
                      tt,
                    ),
                  ),
                ),
              ),
            ),
          ),
        ),
      ),
    ),
  ),
)
