-- ===== src/Billing/Classes.antt =====
-- Which meters are billed, and what is disclosed instead.
use printer_nanny.Common.{ℕ, zero, suc, ◌+◌, ◌<◌, ◌≡◌, ◌≢◌, max, Option, none, some, ◌⊎◌, arith}
use printer_nanny.Billing.{UnsplitPolicy, exclude, bill_as_mono, or_zero}
use printer_nanny.Billing.Meters.{PeriodMeters}
use printer_nanny.Billing.Invoicing.{Classified, classify_meters, classify}

-- The pages that a printer is known to have printed.
abbrev pub printed : PeriodMeters → ℕ
printed meters = max (or_zero meters.pages) (or_zero meters.mono + or_zero meters.color)

-- Nothing is billed that was not metered, and what is not billed is disclosed with a reason.
pub record IsClassified (meters : PeriodMeters) (policy : UnsplitPolicy) (c : Classified)
    : Type 0 where
  pub accounts : or_zero c.billed_mono + or_zero c.billed_color + c.surplus ≡ printed meters
  pub mono_metered :
      (n : ℕ)
      → c.billed_mono ≡ some n
      → (meters.mono ≡ some n)
        ⊎ ((policy ≡ bill_as_mono)
            × (meters.mono ≡ none)
            × (meters.color ≡ none)
            × (meters.pages ≡ some n))
  pub color_metered : (n : ℕ) → c.billed_color ≡ some n → meters.color ≡ some n
  pub surplus_disclosed : 0 < c.surplus → c.reason ≢ none

classify_with :
    (total m c : Option ℕ) (policy : UnsplitPolicy)
    → IsClassified
        (record { pages = total; mono = m; color = c })
        policy
        (classify_meters total m c policy)
classify_with total (some m) (some c) policy = record {
  accounts = ground arith;
  mono_metered = λ n h. ground arith;
  color_metered = λ n h. ground arith;
  surplus_disclosed = λ h e. ground arith;
}
classify_with total (some m) none policy = record {
  accounts = ground arith;
  mono_metered = λ k h. ground arith;
  color_metered = λ k h. ground arith;
  surplus_disclosed = λ h e. ground arith;
}
classify_with total none (some c) policy = record {
  accounts = ground arith;
  mono_metered = λ k h. ground arith;
  color_metered = λ k h. ground arith;
  surplus_disclosed = λ h e. ground arith;
}
classify_with none none none policy = record {
  accounts = ground arith;
  mono_metered = λ k h. ground arith;
  color_metered = λ k h. ground arith;
  surplus_disclosed = λ h e. ground arith;
}
classify_with (some zero) none none policy = record {
  accounts = ground arith;
  mono_metered = λ k h. ground arith;
  color_metered = λ k h. ground arith;
  surplus_disclosed = λ h e. ground arith;
}
classify_with (some (suc n)) none none bill_as_mono = record {
  accounts = ground arith;
  mono_metered = λ k h. ground arith;
  color_metered = λ k h. ground arith;
  surplus_disclosed = λ h e. ground arith;
}
classify_with (some (suc n)) none none exclude = record {
  accounts = ground arith;
  mono_metered = λ k h. ground arith;
  color_metered = λ k h. ground arith;
  surplus_disclosed = λ h e. ground arith;
}

-- Whatever the meters and the policy: the pages billed and those disclosed as unbilled add up to
-- the pages that the printer is known to have printed; a mono count is billed only as its meter
-- reads, or as the total under "bill as mono" when neither class is metered; a colour count only as
-- its meter reads; and unbilled pages have a reason.
pub classify-IsClassified :
    (meters : PeriodMeters) (policy : UnsplitPolicy)
    → IsClassified meters policy (classify meters policy)
unfolding classify
classify-IsClassified meters policy = classify_with meters.pages meters.mono meters.color policy
