-- ===== src/Billing/Tests.antt =====
-- Runs of the billing engine, and its theorems at concrete books.
use printer_nanny.Common.{ℕ, ◌≡◌, refl, true, none, some, List, [], ◌∷◌, arith}
use printer_nanny.Billing.{Reading, mono, exclude, BillingRateTier, BillingRateCard}
use printer_nanny.Billing.Meters.{
  PeriodMeters, period_meters, period_meter, delta_from, positive_delta, meter_baseline, last_known,
}
use printer_nanny.Billing.Pricing.{insert_tier, sort_tiers, price_bands, tiered_cost, round_money}
use printer_nanny.Billing.Invoicing.{
  classify, bill_printers, sum_amounts, Invoice, built, Books, active_rate_card, price_invoice,
  build_invoice,
}
use printer_nanny.Billing.Periods.{IsSorted, Tiles, periods_tile}
use printer_nanny.Billing.PageRates.{page_rate, sum_pages}
use printer_nanny.Billing.Bands.{tiered_cost-pages}
use printer_nanny.Billing.Classes.{IsClassified, classify-IsClassified}

abbrev tier : ℕ → ℕ → BillingRateTier
tier up_to rate = record { kind = mono; up_to = up_to; rate = rate }

-- 1000 pages at 0.010000, 4000 more at 0.008500, the rest at 0.007000.
cost_run : tiered_cost 6000 (tier 5000 8500 ∷ tier 1000 10000 ∷ []) 7000 ≡ 51000000
unfolding tiered_cost sort_tiers insert_tier price_bands
cost_run = refl

round_run : (round_money 5000 ≡ 1) × (round_money 4999 ≡ 0) × (round_money 51000000 ≡ 5100)
unfolding round_money
round_run = (refl, refl, refl)

abbrev row : ℕ → ℕ → Reading
row ts pages = record {
  printer_id = 7;
  ts = ts;
  page_count = some pages;
  mono_count = some pages;
  color_count = none;
}

-- The meter is reset between 20 and 30.
abbrev readings : List Reading
readings = row 10 100 ∷ row 20 160 ∷ row 30 5 ∷ row 40 25 ∷ []

meters_run :
    period_meters readings 7 15 45 ≡ record { pages = some 80; mono = some 80; color = none }
unfolding period_meters period_meter meter_baseline last_known positive_delta delta_from
meters_run = refl

abbrev card : BillingRateCard
card = record {
  id = 1;
  client_id = 3;
  mono_rate = 10000;
  color_rate = 80000;
  minimum_charge = some 500;
  unsplit_policy = exclude;
  active = true;
  tiers = [];
}

abbrev books : Books
books = record {
  clients = 3 ∷ 4 ∷ [];
  rate_cards = card ∷ [];
  printers =
      record { id = 7; client_id = some 3; approved = true }
      ∷ record { id = 8; client_id = some 4; approved = true }
      ∷ [];
  readings = readings;
}

abbrev invoice : Invoice
invoice = record {
  client_id = 3;
  period_start = 15;
  period_end = 45;
  rate_card_id = 1;
  lines = record { printer_id = 7; kind = mono; pages = 80; amount = 80 } ∷ [];
  unbilled = [];
  metered_subtotal = 80;
  minimum_charge = some 500;
  minimum_adjustment = 420;
  total = 500;
  printer_count = 1;
}

invoice_run : build_invoice books 3 15 45 none ≡ built invoice
unfolding build_invoice active_rate_card price_invoice bill_printers period_meters period_meter
    meter_baseline last_known positive_delta delta_from classify tiered_cost sort_tiers price_bands
    round_money sum_amounts
invoice_run = refl

tiered_cost-pages_example :
    tiered_cost 6000 (tier 5000 8500 ∷ tier 1000 10000 ∷ []) 7000
    ≡ sum_pages (page_rate (tier 5000 8500 ∷ tier 1000 10000 ∷ []) 7000) 0 6000
tiered_cost-pages_example = tiered_cost-pages 6000 7000 (tier 5000 8500 ∷ tier 1000 10000 ∷ [])

readings-IsSorted : IsSorted readings
readings-IsSorted = ground arith

periods_tile_example :
    let first = period_meters readings 7 15 25 in
    let second = period_meters readings 7 25 45 in
    let whole = period_meters readings 7 15 45 in
    Tiles first.pages second.pages whole.pages
    × Tiles first.mono second.mono whole.mono
    × Tiles first.color second.color whole.color
periods_tile_example =
    periods_tile readings 7 15 25 45 (omega arith) (omega arith) readings-IsSorted

abbrev meters : PeriodMeters
meters = record { pages = some 90; mono = some 70; color = none }

classify-IsClassified_example : IsClassified meters exclude (classify meters exclude)
classify-IsClassified_example = classify-IsClassified meters exclude
