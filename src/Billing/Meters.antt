-- ===== src/Billing/Meters.antt =====
-- central/queries.py: the pages of a period, from cumulative meters. The readings are listed in the
-- order that the queries ask for, by instant and then by id.
use printer_nanny.Common.{
  ℕ, ◌+◌, ◌-◌, Bool, true, false, ◌&&◌, Option, none, some, List, [], ◌∷◌, map, select, ltb, leb,
  ◌==◌, if◌then◌else◌,
}
use printer_nanny.Billing.{Reading}

-- The loop of `positive_delta`, from the last known value.
unfoldable pub delta_from : Option ℕ → List (Option ℕ) → ℕ
delta_from prev [] = 0
delta_from prev (none ∷ values) = delta_from prev values
delta_from none (some v ∷ values) = delta_from (some v) values
delta_from (some p) (some v ∷ values) =
    let rest = delta_from (some v) values in if ltb p v then (v - p) + rest else rest

unfoldable pub positive_delta : List (Option ℕ) → ℕ
positive_delta values = delta_from none values

-- The printer's rows with `start <= ts < end`.
abbrev pub is_within : ℕ → ℕ → ℕ → Reading → Bool
is_within printer_id start end r = (r.printer_id == printer_id) && (leb start r.ts && ltb r.ts end)

abbrev pub meter_rows : List Reading → ℕ → ℕ → ℕ → List Reading
meter_rows readings printer_id start end = select (is_within printer_id start end) readings

abbrev pub is_before : ℕ → ℕ → Reading → Bool
is_before printer_id start r = (r.printer_id == printer_id) && ltb r.ts start

-- The last known value of a series, from an earlier one.
abbrev pub latest_known : Option ℕ → Option ℕ → Option ℕ
latest_known earlier none = earlier
latest_known earlier (some v) = some v

unfoldable pub last_known : Option ℕ → List (Option ℕ) → Option ℕ
last_known earlier [] = earlier
last_known earlier (v ∷ values) = last_known (latest_known earlier v) values

-- The meter in the last row that is before `start` and has it.
unfoldable pub meter_baseline : (Reading → Option ℕ) → List Reading → ℕ → ℕ → Option ℕ
meter_baseline column readings printer_id start =
    last_known none (map column (select (is_before printer_id start) readings))

abbrev pub all_none : List (Option ℕ) → Bool
all_none [] = true
all_none (none ∷ values) = all_none values
all_none (some v ∷ values) = false

abbrev pub seeded : Option ℕ → List (Option ℕ) → List (Option ℕ)
seeded none values = values
seeded (some b) values = some b ∷ values

-- One meter of `period_meters`.
unfoldable pub period_meter : (Reading → Option ℕ) → List Reading → ℕ → ℕ → ℕ → Option ℕ
period_meter column readings printer_id start end =
    let values = map column (meter_rows readings printer_id start end) in
    if all_none values
    then none
    else some (positive_delta (seeded (meter_baseline column readings printer_id start) values))

pub record PeriodMeters : Type 0 where
  pub pages : Option ℕ
  pub mono : Option ℕ
  pub color : Option ℕ

unfoldable pub period_meters : List Reading → ℕ → ℕ → ℕ → PeriodMeters
period_meters readings printer_id start end = record {
  pages = period_meter (λ r. r.page_count) readings printer_id start end;
  mono = period_meter (λ r. r.mono_count) readings printer_id start end;
  color = period_meter (λ r. r.color_count) readings printer_id start end;
}
