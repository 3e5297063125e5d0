-- ===== src/Billing/PageRates.antt =====
-- The rate of each page of a period, an account of graduated bands that has no loop and no order.
use printer_nanny.Common.{
  ℕ, zero, suc, ◌+◌, ◌*◌, ◌≤◌, ◌<◌, ◌≡◌, refl, ap, ◌∙◌, Option, none, some, List, [], ◌∷◌,
  Bool-cases, Option-cases, inl, inr, arith, leb, if◌then◌else◌, leb→le, le→leb,
}
use printer_nanny.Billing.{BillingRateTier}
use printer_nanny.Billing.Pricing.{insert_tier, sort_tiers}

-- The rate of the `i`-th page of a period: that of the lowest band that reaches it, the first of
-- equal ones, and the base rate beyond all bands. The order of the bands does not count.
abbrev pub lower_tier : BillingRateTier → Option BillingRateTier → Option BillingRateTier
lower_tier t none = some t
lower_tier t (some u) = if leb t.up_to u.up_to then some t else some u

abbrev pub page_tier : ℕ → List BillingRateTier → Option BillingRateTier
page_tier i [] = none
page_tier i (t ∷ tiers) =
    let rest = page_tier i tiers in if leb i t.up_to then lower_tier t rest else rest

abbrev pub rate_or : ℕ → Option BillingRateTier → ℕ
rate_or base none = base
rate_or base (some t) = t.rate

abbrev pub page_rate : List BillingRateTier → ℕ → ℕ → ℕ
page_rate tiers base i = rate_or base (page_tier i tiers)

-- The rates of the `n` pages that follow the page `from`, added up.
abbrev pub sum_pages : (ℕ → ℕ) → ℕ → ℕ → ℕ
sum_pages rate from zero = 0
sum_pages rate from (suc n) = rate (suc from) + sum_pages rate (suc from) n

pub sum_pages-add :
    (rate : ℕ → ℕ) (from m n : ℕ)
    → sum_pages rate from (m + n) ≡ sum_pages rate from m + sum_pages rate (from + m) n
sum_pages-add rate from zero n =
    let e : 0 + n ≡ n = omega arith in
    let f : from + 0 ≡ from = omega arith in rw (e, f) (omega arith)
sum_pages-add rate from (suc m) n =
    let e : suc m + n ≡ suc (m + n) = omega arith in
    let f : from + suc m ≡ suc from + m = omega arith in
    rw (e, f, sum_pages-add rate (suc from) m n) (omega arith)

pub sum_pages-same :
    (f g : ℕ → ℕ) (from n : ℕ)
    → ((i : ℕ) → from < i → i ≤ from + n → f i ≡ g i)
    → sum_pages f from n ≡ sum_pages g from n
sum_pages-same f g from zero h = refl
sum_pages-same f g from (suc n) h =
    rw
      (
        h (suc from) (omega arith) (omega arith),
        sum_pages-same f g (suc from) n (λ i low high. h i (omega arith) (omega arith)),
      )
      refl

pub sum_pages-const : (r from n : ℕ) → sum_pages (λ i. r) from n ≡ n * r
sum_pages-const r from zero = omega arith
sum_pages-const r from (suc n) = grind (arith, sum_pages-const r (suc from) n)

lower_tier-swap :
    (t u : BillingRateTier) (rest : Option BillingRateTier)
    → u.up_to < t.up_to
    → lower_tier u (lower_tier t rest) ≡ lower_tier t (lower_tier u rest)
lower_tier-swap t u none h = ground arith
lower_tier-swap t u (some v) h = ground arith

page_tier-insert :
    (i : ℕ) (t : BillingRateTier) (tiers : List BillingRateTier)
    → page_tier i (insert_tier t tiers) ≡ page_tier i (t ∷ tiers)
unfolding insert_tier
page_tier-insert i t [] = refl
page_tier-insert i t (u ∷ tiers) =
    let ih = page_tier-insert i t tiers in
    elim (Bool-cases (leb t.up_to u.up_to)) [
      | inl y ↦ rw (insert_tier, y) refl
      | inr n ↦
          rw (insert_tier, n)
            (rw ih (elim (Bool-cases (leb i t.up_to)) [
              | inl a ↦ elim (Bool-cases (leb i u.up_to)) [
                | inl b ↦ rw (a, b) (lower_tier-swap t u (page_tier i tiers) (ground arith))
                | inr b ↦ rw (a, b) refl
              ]
              | inr a ↦ rw a refl
            ]))
    ]

pub page_tier-sort :
    (i : ℕ) (tiers : List BillingRateTier) → page_tier i (sort_tiers tiers) ≡ page_tier i tiers
unfolding sort_tiers
page_tier-sort i [] = refl
page_tier-sort i (t ∷ tiers) =
    page_tier-insert i t (sort_tiers tiers) ∙ rw (page_tier-sort i tiers) refl

-- The ceilings ascend from `c` on.
abbrev pub Ascending : ℕ → List BillingRateTier → Type 0
Ascending c [] = Unit
Ascending c (t ∷ tiers) = (c ≤ t.up_to) × Ascending t.up_to tiers

insert_tier-Ascending :
    (c : ℕ) (t : BillingRateTier) (tiers : List BillingRateTier)
    → c ≤ t.up_to
    → Ascending c tiers
    → Ascending c (insert_tier t tiers)
unfolding insert_tier
insert_tier-Ascending c t [] low up = (low, tt)
insert_tier-Ascending c t (u ∷ tiers) low up = elim (Bool-cases (leb t.up_to u.up_to)) [
  | inl y ↦ rw (insert_tier, y) (low, (leb→le t.up_to u.up_to y, up.1))
  | inr n ↦ rw (insert_tier, n) (up.0, insert_tier-Ascending u.up_to t tiers (ground arith) up.1)
]

pub sort_tiers-Ascending : (tiers : List BillingRateTier) → Ascending 0 (sort_tiers tiers)
unfolding sort_tiers
sort_tiers-Ascending [] = tt
sort_tiers-Ascending (t ∷ tiers) =
    insert_tier-Ascending 0 t (sort_tiers tiers) (omega arith) (sort_tiers-Ascending tiers)

abbrev ceiling_of : Option BillingRateTier → ℕ
ceiling_of none = 0
ceiling_of (some t) = t.up_to

chosen-ceiling :
    (c i : ℕ) (t : BillingRateTier) (o : Option BillingRateTier) (u : BillingRateTier)
    → c ≤ t.up_to
    → ((v : BillingRateTier) → o ≡ some v → t.up_to ≤ v.up_to)
    → (if leb i t.up_to then lower_tier t o else o) ≡ some u
    → c ≤ u.up_to
chosen-ceiling c i t none u low above h = let e = ap ceiling_of h in ground arith
chosen-ceiling c i t (some v) u low above h =
    let e = ap ceiling_of h in let le = above v refl in ground arith

Ascending-tier :
    (c i : ℕ) (tiers : List BillingRateTier) (u : BillingRateTier)
    → Ascending c tiers
    → page_tier i tiers ≡ some u
    → c ≤ u.up_to
Ascending-tier c i [] u up h = ground arith
Ascending-tier c i (t ∷ tiers) u up h =
    chosen-ceiling c i t (page_tier i tiers) u up.0 (λ v f. Ascending-tier t.up_to i tiers v up.1 f)
      h

pub page_rate-low :
    (base i : ℕ) (t : BillingRateTier) (tiers : List BillingRateTier)
    → Ascending t.up_to tiers
    → i ≤ t.up_to
    → page_rate (t ∷ tiers) base i ≡ t.rate
page_rate-low base i t tiers up h = elim (Option-cases (page_tier i tiers)) [
  | inl n ↦ rw (n, le→leb i t.up_to h) refl
  | inr (u, f) ↦
      let le = Ascending-tier t.up_to i tiers u up f in
      rw (f, le→leb i t.up_to h, le→leb t.up_to u.up_to le) refl
]

pub page_rate-high :
    (base i : ℕ) (t : BillingRateTier) (tiers : List BillingRateTier)
    → t.up_to < i
    → page_rate (t ∷ tiers) base i ≡ page_rate tiers base i
page_rate-high base i t tiers h = ground arith
