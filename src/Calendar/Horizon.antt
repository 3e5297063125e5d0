-- ===== src/Calendar/Horizon.antt =====
-- central/business_calendar.py: `effective_order_window_days` at settings of any content.
use mathlib.Core.Path.{subst}
use printer_nanny.Common.{
  ℕ, suc, ◌+◌, ◌-◌, ◌≡◌, ◌≤◌, arith, ap, sym, ◌⊎◌, inl, inr, max, Bool, true, false, Option, none,
  some, List, [], ◌∷◌, length, take, map, length-take, ltb, if◌then◌else◌,
}
use printer_nanny.Money.{Text}
use printer_nanny.Calendar.{
  ProcurementCalendar, add_business_days, order_window_days, days_until, is_business_day, is_listed,
}
use printer_nanny.Calendar.Walk.{open_days}
use printer_nanny.Calendar.Counts.{
  Within, walk-Within, open_days-covered, open_days-is_listed, open_days-add, weeks, on_weekdays,
}
use printer_nanny.Calendar.Spans.{closings, length-closings, weekday-covered}
use printer_nanny.Calendar.Dates.{split, comma_to_blank, fromisoformat, add_date, dates_of}
use printer_nanny.Calendar.Settings.{
  Setting, Settings, settings_of, clamp, bounded_int, calendar_override, closure_text,
  parse_closures, from_runtime, effective_order_window_days, int_of, at_least,
}

clamp-bound :
    (limit fallback : ℕ) (parsed : Option (Bool × ℕ))
    → fallback ≤ limit
    → clamp limit fallback parsed ≤ limit
unfolding clamp
clamp-bound limit fallback none h = h
clamp-bound limit fallback (some (true, n)) h = omega arith
clamp-bound limit fallback (some (false, n)) h = ground arith

length-add_date : (d : Option ℕ) (days : List ℕ) → length (add_date d days) ≤ suc (length days)
unfolding add_date
length-add_date none days = omega arith
length-add_date (some day) days = omega arith

length-dates_of : (values : List Text) → length (dates_of values) ≤ length values
unfolding dates_of
length-dates_of [] = omega arith
length-dates_of (value ∷ values) =
    let rest = length-dates_of values in
    let one = length-add_date (fromisoformat value) (dates_of values) in omega (arith, rest, one)

length-parse_closures : (raw : Setting) → length (parse_closures raw) ≤ 366
unfolding parse_closures
length-parse_closures raw =
    let words = split (map comma_to_blank (closure_text raw)) in
    let some_dates = length-dates_of (take 366 words) in
    let cut = length-take 366 words in omega (arith, some_dates, cut)

-- Among 777 days there are 555 weekdays, of which a calendar closes 432 at most.
open_days-enough :
    (c : ProcurementCalendar) (today : ℕ)
    → length c.custom_closures ≤ 366
    → 120 ≤ open_days (is_business_day c) today 777
open_days-enough c today few =
    let weekdays = weeks 111 today in
    let covered =
      open_days-covered on_weekdays (is_business_day c) (λ d. is_listed d (closings c today)) today
        777 (weekday-covered c today) in
    let listed = open_days-is_listed (closings c today) today 777 in
    let size = length-closings c today in omega (arith, weekdays, covered, listed, size, few)

open_days-grows : (p : ℕ → Bool) (day a b : ℕ) → a ≤ b → open_days p day a ≤ open_days p day b
open_days-grows p day a b h =
    let whole : a + (b - a) ≡ b = omega (arith, h) in
    let parts = ap (open_days p day) whole in
    let sum = open_days-add p day a (b - a) in omega (arith, parts, sum)

policy_bounds :
    (values : Option Settings)
    → ((from_runtime values).delivery_business_days + (from_runtime values).safety_business_days
        ≤ 120)
      × (length (from_runtime values).custom_closures ≤ 366)
unfolding from_runtime bounded_int
policy_bounds values =
    let rt = settings_of values in
    let delivery =
      clamp-bound 60 5 (int_of (rt "procurement.delivery_business_days")) (omega arith) in
    let safety = clamp-bound 60 2 (int_of (rt "procurement.safety_business_days")) (omega arith) in
    (omega (arith, delivery, safety), length-parse_closures (rt "procurement.closed_dates"))

override_bound : (value : Setting) → calendar_override value ≤ 365
unfolding calendar_override
override_bound value = clamp-bound 365 0 (int_of value) (omega arith)

max_of :
    (today span override : ℕ)
    → (if ltb (today + span - today) override then override else today + span - today)
      ≡ max span override
max_of today span override = ground arith

window-result :
    (values : Option Settings) (fuel today span : ℕ)
    → add_business_days
        (from_runtime values)
        fuel
        today
        ((from_runtime values).delivery_business_days + (from_runtime values).safety_business_days)
      ≡ some (today + span)
    → effective_order_window_days values fuel today
      ≡ some (max span (calendar_override (settings_of values "alerts.reorder_lead_days")))
unfolding effective_order_window_days order_window_days days_until at_least
window-result values fuel today span h = rw h (
    ap some (max_of today span (calendar_override (settings_of values "alerts.reorder_lead_days"))))

abbrev pub needed : ProcurementCalendar → ℕ
needed c = c.delivery_business_days + c.safety_business_days

-- The window holds the business days that are needed, and no day more than these or the override
-- ask for.
pub record IsOrderWindow (c : ProcurementCalendar) (today override window : ℕ) : Type 0 where
  pub enough : needed c ≤ open_days (is_business_day c) today window
  pub tight :
      (window ≡ override)
      ⊎ ((open_days (is_business_day c) today window ≡ needed c)
          × ((window ≡ 0) ⊎ (is_business_day c (today + window) ≡ true)))

-- Which of the two a maximum is.
max-cases : (a b : ℕ) → (max a b ≡ b) ⊎ (max a b ≡ a)
max-cases a b = ground arith

window-IsOrderWindow :
    (c : ProcurementCalendar) (today override : ℕ)
    (w : Within (is_business_day c) today 777 (needed c))
    → IsOrderWindow c today override (max w.span override)
window-IsOrderWindow c today override w =
    let grown =
      open_days-grows (is_business_day c) today w.span (max w.span override) (omega arith) in
    record {
      enough = omega (arith, w.counted, grown);
      tight = elim (max-cases w.span override) [
        | inl wide ↦ inl wide
        | inr own ↦ inr (subst IsExact (sym own) (w.counted, w.last))
      ];
    }
  where
    IsExact : ℕ → Type 0
    IsExact window =
        (open_days (is_business_day c) today window ≡ needed c)
        × ((window ≡ 0) ⊎ (is_business_day c (today + window) ≡ true))

-- Whatever the settings hold, the order window is found: fuel for 777 days is enough, and more of
-- it changes nothing. The window is at most 777 days and at least the override, and holds as many
-- business days as delivery and safety ask for; where it is not the override, it holds exactly that
-- many, and ends on one or is of no day.
pub effective_order_window_days_lem :
    (values : Option Settings) (today : ℕ)
    → (window : ℕ) × ((more : ℕ)
        → effective_order_window_days values (777 + more) today ≡ some window)
      × (window ≤ 777)
      × (calendar_override (settings_of values "alerts.reorder_lead_days") ≤ window)
      × IsOrderWindow
          (from_runtime values)
          today
          (calendar_override (settings_of values "alerts.reorder_lead_days"))
          window
unfolding add_business_days
effective_order_window_days_lem values today =
    let c = from_runtime values in
    let override = calendar_override (settings_of values "alerts.reorder_lead_days") in
    let (few, closures) = policy_bounds values in
    let plenty = open_days-enough c today closures in
    let w =
      walk-Within (is_business_day c) 777 (c.delivery_business_days + c.safety_business_days) today
        (omega (arith, few, plenty)) in
    let cap = override_bound (settings_of values "alerts.reorder_lead_days") in
    (
      max w.span override,
      λ more. window-result values (777 + more) today w.span (w.result more),
      omega (arith, w.bounded, cap),
      omega arith,
      window-IsOrderWindow c today override w,
    )
