-- ===== src/Calendar/Ending.antt =====
-- central/business_calendar.py: `add_business_days` ends, on the right day.
use printer_nanny.Common.{ℕ, ◌+◌, ◌-◌, ◌≡◌, arith, ap, ◌∙◌, ◌⊎◌, true, some}
use printer_nanny.Calendar.{
  ProcurementCalendar, is_business_day, add_business_days, walk, estimated_delivery,
  order_window_days, days_until,
}
use printer_nanny.Calendar.Walk.{open_days, walk-Walked, walk-add}
use printer_nanny.Calendar.Opening.{business_day_comes}

-- Whatever the closures, and with the federal holidays or without, the loop ends: some fuel is
-- enough for any start and any number of business days, and more of it changes nothing. The days
-- after the start up to the result hold exactly that number of business days, and the last of them
-- is one; without business days to add, the result is the start.
pub add_business_days_lem :
    (c : ProcurementCalendar) (start business_days : ℕ)
    → (fuel : ℕ) × (span : ℕ) × ((more : ℕ)
        → add_business_days c (fuel + more) start business_days ≡ some (start + span))
      × (open_days (is_business_day c) start span ≡ business_days)
      × (((span ≡ 0) × (business_days ≡ 0)) ⊎ (is_business_day c (start + span) ≡ true))
unfolding add_business_days
add_business_days_lem c start business_days =
    let w = walk-Walked (is_business_day c) (business_day_comes c) business_days start in
    (w.fuel, w.span, w.result, w.counted, w.last)

window-deadline :
    (c : ProcurementCalendar) (fuel today deadline : ℕ)
    → add_business_days c fuel today (c.delivery_business_days + c.safety_business_days)
      ≡ some deadline
    → order_window_days c fuel today ≡ some (deadline - today)
unfolding order_window_days days_until
window-deadline c fuel today deadline h = ap (days_until today) h

-- The order window leaves the safety days after an estimated delivery: from the day of the order,
-- with enough fuel, the delivery comes after as many business days as the delivery takes, and the
-- window ends as many business days after it as are kept for safety.
pub order_window_days-estimated_delivery :
    (c : ProcurementCalendar) (today : ℕ)
    → (fuel : ℕ) × (transit : ℕ) × (safety : ℕ) × ((more : ℕ)
        → estimated_delivery c (fuel + more) today ≡ some (today + transit))
      × ((more : ℕ) → order_window_days c (fuel + more) today ≡ some (transit + safety))
      × (open_days (is_business_day c) today transit ≡ c.delivery_business_days)
      × (open_days (is_business_day c) (today + transit) safety ≡ c.safety_business_days)
unfolding estimated_delivery add_business_days
order_window_days-estimated_delivery c today =
    let walks = walk-Walked (is_business_day c) (business_day_comes c) in
    let first = walks c.delivery_business_days today in
    let after = walks c.safety_business_days (today + first.span) in
    let arrives : (more : ℕ)
        → walk (is_business_day c) (first.fuel + after.fuel + more) today c.delivery_business_days
          ≡ some (today + first.span) =
      λ more.
        let fuel : first.fuel + after.fuel + more ≡ first.fuel + (after.fuel + more) =
          omega arith in
        ap (λ f. walk (is_business_day c) f today c.delivery_business_days) fuel
        ∙ first.result (after.fuel + more) in
    let ends : (more : ℕ)
        → walk (is_business_day c) (first.fuel + after.fuel + more) today
            (c.delivery_business_days + c.safety_business_days)
          ≡ some (today + first.span + after.span) =
      λ more.
        let fuel : first.fuel + after.fuel + more ≡ first.fuel + more + after.fuel = omega arith in
        ap
          (λ f.
            walk (is_business_day c) f today (c.delivery_business_days + c.safety_business_days))
          fuel
        ∙ walk-add (is_business_day c) (first.fuel + more) after.fuel today c.delivery_business_days
            c.safety_business_days (today + first.span) (today + first.span + after.span)
            (first.result more) after.result in
    (
      first.fuel + after.fuel,
      first.span,
      after.span,
      arrives,
      λ more.
          window-deadline c (first.fuel + after.fuel + more) today (today + first.span + after.span)
            (ends more)
          ∙ ap some (omega arith),
      first.counted,
      after.counted,
    )
