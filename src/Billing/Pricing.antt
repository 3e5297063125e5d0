-- ===== src/Billing/Pricing.antt =====
-- central/billing.py: `tiered_cost`; central/money.py: `round_money`. The breakdown text is not
-- modelled.
use printer_nanny.Common.{
  ℕ, ◌+◌, ◌-◌, ◌*◌, ◌/◌, min, max, List, [], ◌∷◌, ltb, leb, ◌==◌, if◌then◌else◌,
}
use printer_nanny.Billing.{BillingRateTier}

-- `sorted` by the ceiling, which keeps the order of equal ones.
unfoldable pub insert_tier : BillingRateTier → List BillingRateTier → List BillingRateTier
insert_tier t [] = t ∷ []
insert_tier t (u ∷ tiers) =
    let rest = insert_tier t tiers in if leb t.up_to u.up_to then t ∷ u ∷ tiers else u ∷ rest

unfoldable pub sort_tiers : List BillingRateTier → List BillingRateTier
sort_tiers [] = []
sort_tiers (t ∷ tiers) = insert_tier t (sort_tiers tiers)

-- The loop over the sorted bands, from the cost so far: the cost, and the pages that remain.
unfoldable pub price_bands : List BillingRateTier → ℕ → ℕ → ℕ → ℕ × ℕ
price_bands [] remaining consumed cost = (cost, remaining)
price_bands (t ∷ tiers) remaining consumed cost =
    let band = min remaining (t.up_to - consumed) in
    let reached = max consumed t.up_to in
    let skip = price_bands tiers remaining reached cost in
    let next = price_bands tiers (remaining - band) reached (cost + band * t.rate) in
    if leb band 0
    then skip
    else if (remaining - band) == 0
    then (cost + band * t.rate, remaining - band)
    else next

unfoldable pub tiered_cost : ℕ → List BillingRateTier → ℕ → ℕ
tiered_cost pages tiers base_rate =
    if leb pages 0
    then 0
    else let (cost, remaining) = price_bands (sort_tiers tiers) pages 0 0 in
      if ltb 0 remaining then cost + remaining * base_rate else cost

-- Millionths to hundredths, half up.
unfoldable pub round_money : ℕ → ℕ
round_money amount = (amount + 5000) / 10000
