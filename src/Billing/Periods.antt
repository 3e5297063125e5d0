-- ===== src/Billing/Periods.antt =====
-- Adjacent billing periods, and the pages that they meter.
use printer_nanny.Common.{
  ℕ, ◌+◌, ◌≤◌, ◌≡◌, refl, sym, ap, ◌∙◌, true, false, ◌&&◌, Option, none, some, List, [], ◌∷◌, ◌++◌,
  map, All, All-map, select, IsDivided, select-divided, Bool-cases, inl, inr, arith, ltb, is_none,
}
use printer_nanny.Billing.{Reading, or_zero}
use printer_nanny.Billing.Meters.{
  delta_from, positive_delta, meter_rows, latest_known, last_known, is_before, is_within,
  meter_baseline, all_none, seeded, period_meter, period_meters,
}

-- The readings stand in the order of their instants.
abbrev pub IsSorted : List Reading → Type 0
IsSorted [] = Unit
IsSorted (r ∷ readings) = All (λ s. r.ts ≤ s.ts) readings × IsSorted readings

delta_from-append :
    (prev : Option ℕ) (xs ys : List (Option ℕ))
    → delta_from prev (xs ++ ys) ≡ delta_from prev xs + delta_from (last_known prev xs) ys
unfolding delta_from last_known
delta_from-append prev [] ys = omega arith
delta_from-append prev (none ∷ xs) ys = delta_from-append prev xs ys
delta_from-append none (some v ∷ xs) ys = delta_from-append (some v) xs ys
delta_from-append (some p) (some v ∷ xs) ys = ground (arith, delta_from-append (some v) xs ys)

-- A series without a known value counts for nothing, and changes no last value.
all_none-delta :
    (prev : Option ℕ) (xs : List (Option ℕ)) → all_none xs ≡ true → delta_from prev xs ≡ 0
unfolding delta_from
all_none-delta prev [] h = refl
all_none-delta prev (none ∷ xs) h = all_none-delta prev xs h
all_none-delta none (some v ∷ xs) h = ground arith
all_none-delta (some p) (some v ∷ xs) h = ground arith

delta_from-seeded :
    (b : Option ℕ) (xs : List (Option ℕ)) → positive_delta (seeded b xs) ≡ delta_from b xs
unfolding positive_delta delta_from
delta_from-seeded none xs = refl
delta_from-seeded (some b) xs = refl

last_known-append :
    (e : Option ℕ) (xs ys : List (Option ℕ))
    → last_known e (xs ++ ys) ≡ last_known (last_known e xs) ys
unfolding last_known
last_known-append e [] ys = refl
last_known-append e (x ∷ xs) ys = last_known-append (latest_known e x) xs ys

map-append :
    (column : Reading → Option ℕ) (xs ys : List Reading)
    → map column (xs ++ ys) ≡ map column xs ++ map column ys
map-append column [] ys = refl
map-append column (x ∷ xs) ys = rw (map-append column xs ys) refl

module _ (printer_id : ℕ) where
  IsDivided-before :
      (readings : List Reading) (start mid : ℕ)
      → start ≤ mid
      → IsSorted readings
      → IsDivided (is_before printer_id start) (is_within printer_id start mid) readings
  IsDivided-before [] start mid le sorted = tt
  IsDivided-before (r ∷ readings) start mid le sorted = (
    elim (Bool-cases (ltb r.ts start)) [
      | inl y ↦ inl (ground arith)
      | inr n ↦ inr (
        ground arith,
        All-map (λ s. r.ts ≤ s.ts) (λ s. is_before printer_id start s ≡ false) readings
            (λ s h. ground arith) sorted.0,
      )
    ],
    IsDivided-before readings start mid le sorted.1,
  )

  IsDivided-within :
      (readings : List Reading) (start mid end : ℕ)
      → start ≤ mid
      → mid ≤ end
      → IsSorted readings
      → IsDivided (is_within printer_id start mid) (is_within printer_id mid end) readings
  IsDivided-within [] start mid end le le' sorted = tt
  IsDivided-within (r ∷ readings) start mid end le le' sorted = (
    elim (Bool-cases (ltb r.ts mid)) [
      | inl y ↦ inl (ground arith)
      | inr n ↦ inr (
        ground arith,
        All-map (λ s. r.ts ≤ s.ts) (λ s. is_within printer_id start mid s ≡ false) readings
            (λ s h. ground arith) sorted.0,
      )
    ],
    IsDivided-within readings start mid end le le' sorted.1,
  )

all_none-append : (xs ys : List (Option ℕ)) → all_none (xs ++ ys) ≡ (all_none xs && all_none ys)
all_none-append [] ys = refl
all_none-append (none ∷ xs) ys = all_none-append xs ys
all_none-append (some v ∷ xs) ys = refl

-- Two periods and the period that they make up: it is unknown exactly when both are, and their
-- pages add up to its.
abbrev pub Tiles : Option ℕ → Option ℕ → Option ℕ → Type 0
Tiles first second whole =
    (or_zero first + or_zero second ≡ or_zero whole)
    × (is_none whole ≡ (is_none first && is_none second))

module _ (column : Reading → Option ℕ) (readings : List Reading) (printer_id : ℕ) where
  abbrev series : ℕ → ℕ → List (Option ℕ)
  series start end = map column (meter_rows readings printer_id start end)

  abbrev baseline : ℕ → Option ℕ
  baseline start = meter_baseline column readings printer_id start

  period_meter-delta :
      (start end : ℕ)
      → or_zero (period_meter column readings printer_id start end)
        ≡ delta_from (baseline start) (series start end)
  unfolding period_meter
  period_meter-delta start end = elim (Bool-cases (all_none (series start end))) [
    | inl y ↦ rw (y) (sym (all_none-delta (baseline start) (series start end) y))
    | inr n ↦ rw (n) (delta_from-seeded (baseline start) (series start end))
  ]

  period_meter-is_none :
      (start end : ℕ)
      → is_none (period_meter column readings printer_id start end) ≡ all_none (series start end)
  unfolding period_meter
  period_meter-is_none start end = elim (Bool-cases (all_none (series start end))) [
    | inl y ↦ rw (y) refl
    | inr n ↦ rw (n) refl
  ]

  module _ (start mid end : ℕ) (le : start ≤ mid) (le' : mid ≤ end)
      (sorted : IsSorted readings) where
    baseline-mid : baseline mid ≡ last_known (baseline start) (series start mid)
    unfolding meter_baseline
    baseline-mid =
        ap (λ rows. last_known none (map column rows))
          (select-divided (is_before printer_id mid) (is_before printer_id start)
            (is_within printer_id start mid) readings (λ r. ground arith)
            (IsDivided-before printer_id readings start mid le sorted))
        ∙ ap (last_known none) (
            map-append column (select (is_before printer_id start) readings)
              (meter_rows readings printer_id start mid))
        ∙ last_known-append none (map column (select (is_before printer_id start) readings))
            (series start mid)

    series-split : series start end ≡ series start mid ++ series mid end
    series-split =
        ap (map column) (
          select-divided (is_within printer_id start end) (is_within printer_id start mid)
            (is_within printer_id mid end) readings (λ r. ground arith)
            (IsDivided-within printer_id readings start mid end le le' sorted))
        ∙ map-append column (meter_rows readings printer_id start mid)
            (meter_rows readings printer_id mid end)

    period_meter-Tiles :
        Tiles
          (period_meter column readings printer_id start mid)
          (period_meter column readings printer_id mid end)
          (period_meter column readings printer_id start end)
    period_meter-Tiles = (
      rw
          (
            period_meter-delta start mid,
            period_meter-delta mid end,
            period_meter-delta start end,
            series-split,
            baseline-mid,
          )
          (sym (delta_from-append (baseline start) (series start mid) (series mid end))),
      rw
          (
            period_meter-is_none start mid,
            period_meter-is_none mid end,
            period_meter-is_none start end,
            series-split,
          )
          (all_none-append (series start mid) (series mid end)),
    )

-- Adjacent periods tile: where the readings are in the order of their instants, each meter's pages
-- in two adjacent periods add up to its pages in the whole, an unknown meter counted as 0, and the
-- whole is unknown exactly when both parts are.
pub periods_tile :
    (readings : List Reading) (printer_id start mid end : ℕ)
    → start ≤ mid
    → mid ≤ end
    → IsSorted readings
    → let first = period_meters readings printer_id start mid in
      let second = period_meters readings printer_id mid end in
      let whole = period_meters readings printer_id start end in
      Tiles first.pages second.pages whole.pages
      × Tiles first.mono second.mono whole.mono
      × Tiles first.color second.color whole.color
unfolding period_meters
periods_tile readings printer_id start mid end le le' sorted = (
  period_meter-Tiles (λ r. r.page_count) readings printer_id start mid end le le' sorted,
  period_meter-Tiles (λ r. r.mono_count) readings printer_id start mid end le le' sorted,
  period_meter-Tiles (λ r. r.color_count) readings printer_id start mid end le le' sorted,
)

abbrev pub IsRising : ℕ → List (Option ℕ) → Type 0
IsRising least [] = Unit
IsRising least (none ∷ values) = IsRising least values
IsRising least (some v ∷ values) = (least ≤ v) × IsRising v values

-- A series that never falls counts the difference of its last and first values, whatever unknown
-- values stand between them.
pub positive_delta-monotone :
    (first : ℕ) (values : List (Option ℕ))
    → IsRising first values
    → first + positive_delta (some first ∷ values) ≡ or_zero (last_known (some first) values)
unfolding positive_delta delta_from last_known
positive_delta-monotone first [] h = omega arith
positive_delta-monotone first (none ∷ values) h = positive_delta-monotone first values h
positive_delta-monotone first (some v ∷ values) h =
    ground (arith, positive_delta-monotone v values h.1)
