-- ===== src/Billing/Bands.antt =====
-- What graduated bands charge, page by page.
use printer_nanny.Common.{
  ℕ, ◌+◌, ◌-◌, ◌*◌, ◌≤◌, ◌<◌, ◌≡◌, min, max, refl, ap, ◌∙◌, false, List, [], ◌∷◌, Bool-cases, inl,
  inr, ◌⊎◌, arith, ltb, leb, ◌==◌, if◌then◌else◌, le→leb,
}
use mathlib.Core.Path.{subst}
use printer_nanny.Billing.{BillingRateTier}
use printer_nanny.Billing.PageRates.{
  rate_or, page_rate, sum_pages, sum_pages-add, sum_pages-same, sum_pages-const, page_tier-sort,
  Ascending, sort_tiers-Ascending, page_rate-low, page_rate-high,
}
use printer_nanny.Billing.Pricing.{sort_tiers, price_bands, tiered_cost, round_money}

sum_pages-low :
    (base c n : ℕ) (t : BillingRateTier) (tiers : List BillingRateTier)
    → Ascending t.up_to tiers
    → c + n ≤ t.up_to
    → sum_pages (page_rate (t ∷ tiers) base) c n ≡ n * t.rate
sum_pages-low base c n t tiers up h =
    sum_pages-same (page_rate (t ∷ tiers) base) (λ i. t.rate) c n
      (λ i low high. page_rate-low base i t tiers up (omega arith))
    ∙ sum_pages-const t.rate c n

sum_pages-high :
    (base c n : ℕ) (t : BillingRateTier) (tiers : List BillingRateTier)
    → t.up_to ≤ c
    → sum_pages (page_rate (t ∷ tiers) base) c n ≡ sum_pages (page_rate tiers base) c n
sum_pages-high base c n t tiers h =
    sum_pages-same (page_rate (t ∷ tiers) base) (page_rate tiers base) c n
      (λ i low high. page_rate-high base i t tiers (omega arith))

rest_above : (c r u : ℕ) → c ≤ u → (r - min r (u - c) ≡ 0) ⊎ (c + min r (u - c) ≡ max c u)
rest_above c r u h = ground arith

max-Ascending :
    (c : ℕ) (t : BillingRateTier) (tiers : List BillingRateTier)
    → Ascending c (t ∷ tiers)
    → Ascending (max c t.up_to) tiers
max-Ascending c t tiers up =
    let e : t.up_to ≡ max c t.up_to = omega (arith, up.0) in subst (λ u. Ascending u tiers) e up.1

-- A band's pages, then the pages above it.
sum_pages-band :
    (base c r : ℕ) (t : BillingRateTier) (tiers : List BillingRateTier)
    → Ascending c (t ∷ tiers)
    → (let band = min r (t.up_to - c) in
        sum_pages (page_rate (t ∷ tiers) base) c r
        ≡ band * t.rate + sum_pages (page_rate tiers base) (max c t.up_to) (r - band))
sum_pages-band base c r t tiers up =
    let band = min r (t.up_to - c) in
    let parts : r ≡ band + (r - band) = omega arith in
    let low : c + band ≤ t.up_to = omega (arith, up.0) in
    ap (sum_pages (page_rate (t ∷ tiers) base) c) parts
    ∙ sum_pages-add (page_rate (t ∷ tiers) base) c band (r - band)
    ∙ rw (sum_pages-low base c band t tiers up.1 low) (
        ap (λ x. band * t.rate + x)
          (elim (rest_above c r t.up_to up.0) [
            | inl empty ↦ rw empty refl
            | inr same ↦
                rw same (sum_pages-high base (max c t.up_to) (r - band) t tiers (omega arith))
          ]))

module _ (t : BillingRateTier) (tiers : List BillingRateTier) (r c cost : ℕ) where
  abbrev band : ℕ
  band = min r (t.up_to - c)

  price_bands-skipped :
      band ≡ 0 → price_bands (t ∷ tiers) r c cost ≡ price_bands tiers r (max c t.up_to) cost
  unfolding price_bands
  price_bands-skipped h = rw (price_bands, le→leb band 0 (omega arith)) refl

  price_bands-last :
      0 < band → r - band ≡ 0 → price_bands (t ∷ tiers) r c cost ≡ (cost + band * t.rate, 0)
  unfolding price_bands
  price_bands-last pos h =
      let some_left : leb band 0 ≡ false = ground arith in rw (price_bands, some_left, h) refl

  price_bands-next :
      0 < band
      → 0 < r - band
      → price_bands (t ∷ tiers) r c cost
        ≡ price_bands tiers (r - band) (max c t.up_to) (cost + band * t.rate)
  unfolding price_bands
  price_bands-next pos h =
      let some_left : leb band 0 ≡ false = ground arith in
      let more : ((r - band) == 0) ≡ false = ground arith in rw (price_bands, some_left, more) refl

-- What the loop charged and the rest at the base rate.
abbrev charged : ℕ → ℕ × ℕ → ℕ
charged base (cost, remaining) = cost + remaining * base

band-cases :
    (r d : ℕ)
    → (min r d ≡ 0) ⊎ (((0 < min r d) × (r - min r d ≡ 0)) ⊎ ((0 < min r d) × (0 < r - min r d)))
band-cases r d = ground arith

price_bands-pages :
    (base : ℕ) (tiers : List BillingRateTier) (r c cost : ℕ)
    → Ascending c tiers
    → charged base (price_bands tiers r c cost) ≡ cost + sum_pages (page_rate tiers base) c r
unfolding price_bands
price_bands-pages base [] r c cost up = rw (sum_pages-const base c r) refl
price_bands-pages base (t ∷ tiers) r c cost up =
    let b = min r (t.up_to - c) in
    let ih = price_bands-pages base tiers in
    let above = max-Ascending c t tiers up in
    let split = sum_pages-band base c r t tiers up in
    elim (band-cases r (t.up_to - c)) [
      | inl skip ↦
          rw
            (
              split,
              price_bands-skipped t tiers r c cost skip,
              ih r (max c t.up_to) cost above,
              skip,
            )
            (let whole : r - 0 ≡ r = omega arith in rw whole (omega arith))
      | inr (inl (pos, last)) ↦
          rw (split, price_bands-last t tiers r c cost pos last, last) (omega arith)
      | inr (inr (pos, more)) ↦
          rw
            (
              split,
              price_bands-next t tiers r c cost pos more,
              ih (r - b) (max c t.up_to) (cost + b * t.rate) above,
            )
            (omega arith)
    ]

finished :
    (base : ℕ) (looped : ℕ × ℕ)
    → (if ltb 0 looped.1 then looped.0 + looped.1 * base else looped.0) ≡ charged base looped
finished base looped = elim (Bool-cases (ltb 0 looped.1)) [
  | inl y ↦ rw y refl
  | inr n ↦ let none_left : looped.1 ≡ 0 = ground arith in rw (n, none_left) (omega arith)
]

no_pages :
    (pages base : ℕ) (tiers : List BillingRateTier)
    → pages ≡ 0
    → tiered_cost pages tiers base ≡ sum_pages (page_rate tiers base) 0 pages
unfolding tiered_cost
no_pages pages base tiers h = rw h refl

-- A period's pages cost, together, what each page costs by itself: the rate of the lowest band that
-- reaches it.
pub tiered_cost-pages :
    (pages base : ℕ) (tiers : List BillingRateTier)
    → tiered_cost pages tiers base ≡ sum_pages (page_rate tiers base) 0 pages
unfolding tiered_cost
tiered_cost-pages pages base tiers =
    let bands = sort_tiers tiers in
    let loop = price_bands-pages base bands pages 0 0 (sort_tiers-Ascending tiers) in
    let same : sum_pages (page_rate bands base) 0 pages ≡ sum_pages (page_rate tiers base) 0 pages =
      sum_pages-same (page_rate bands base) (page_rate tiers base) 0 pages
        (λ i low high. ap (rate_or base) (page_tier-sort i tiers)) in
    elim (Bool-cases (leb pages 0)) [
      | inl y ↦ no_pages pages base tiers (ground arith)
      | inr n ↦
          rw (tiered_cost, n)
            (finished base (price_bands bands pages 0 0) ∙ loop ∙ omega arith ∙ same)
    ]

-- Rounding is half up: the rounded amount is within half a cent of the cost, and the half goes up.
pub round_money_half_up :
    (amount : ℕ)
    → (round_money amount * 10000 ≤ amount + 5000) × (amount < round_money amount * 10000 + 5000)
unfolding round_money
round_money_half_up amount = (omega arith, omega arith)
