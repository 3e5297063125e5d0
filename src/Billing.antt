-- ===== src/Billing.antt =====
-- central/billing.py, with the meters of central/queries.py and the rounding of central/money.py.
-- A rate is a count of millionths of the currency, the scale that `parse_rate` quantizes to, and an
-- amount is a count of hundredths; a cost is in millionths until it is rounded at the line.
pub mod Meters
pub mod Pricing
pub mod Invoicing
pub mod Periods
pub mod PageRates
pub mod Bands
pub mod Classes
pub mod Lines
pub mod Accounts
mod Tests
use printer_nanny.Common.{ℕ, ◌+◌, Bool, Option, none, some, List, [], ◌∷◌}

-- A row of the readings: `ts` is the agent's instant, the three meters are cumulative.
pub record Reading : Type 0 where
  pub printer_id : ℕ
  pub ts : ℕ
  pub page_count : Option ℕ
  pub mono_count : Option ℕ
  pub color_count : Option ℕ

pub data MeterClass : Type 0 where
  mono color : MeterClass

pub data UnsplitPolicy : Type 0 where
  exclude bill_as_mono : UnsplitPolicy

-- A volume band: pages up to and including `up_to` cost `rate` each.
pub record BillingRateTier : Type 0 where
  pub kind : MeterClass
  pub up_to : ℕ
  pub rate : ℕ

pub record BillingRateCard : Type 0 where
  pub id : ℕ
  pub client_id : ℕ
  pub mono_rate : ℕ
  pub color_rate : ℕ
  pub minimum_charge : Option ℕ
  pub unsplit_policy : UnsplitPolicy
  pub active : Bool
  pub tiers : List BillingRateTier

pub record BilledPrinter : Type 0 where
  pub id : ℕ
  pub client_id : Option ℕ
  pub approved : Bool

-- `value or 0`
abbrev pub or_zero : Option ℕ → ℕ
or_zero none = 0
or_zero (some n) = n
