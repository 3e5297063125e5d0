-- ===== src/Retention/Tests.antt =====
-- Runs of the rollups, and their theorems at concrete readings.
use printer_nanny.Common.{
  ◌≤◌, leb, ◌-◌, ◌*◌, ℕ, ◌<◌, ◌≡◌, refl, true, Option, none, some, [], ◌∷◌, select, arith,
}
use printer_nanny.Retention.{RawRow, Span, Rollup, aggregate, merge, see_row, see_rows}
use printer_nanny.Retention.Merging.{aggregate-merge}
use printer_nanny.Retention.Daily.{Tables, get_rollup, put_rollup, process_printer_day}
use printer_nanny.Retention.Cycle.{
  Settings, roll_up_readings, roll_up_days, roll_up_printers, printers_of_day, effective_raw_days,
  write_watermark,
}
use printer_nanny.Retention.Window.{raw_window_kept}
use printer_nanny.Retention.Pruning.{HasUniqueIds}

-- The colour meter is not always reported.
abbrev row : ℕ → ℕ → ℕ → Option ℕ → RawRow
row id ts pages color = record {
  id = id;
  printer_id = 7;
  ts = ts;
  page_count = some pages;
  mono_count = none;
  color_count = color;
  supply_snapshot = none;
}

abbrev unreported : Span
unreported = record { start = none; end = none }

abbrev morning : Rollup
morning = record {
  readings_count = 2;
  first_ts = 86500;
  last_ts = 86600;
  page_count = record { start = some 10; end = some 12 };
  mono_count = unreported;
  color_count = record { start = some 3; end = some 3 };
  supply_snapshot = none;
}

abbrev evening : Rollup
evening = record {
  readings_count = 1;
  first_ts = 90000;
  last_ts = 90000;
  page_count = record { start = some 20; end = some 20 };
  mono_count = unreported;
  color_count = unreported;
  supply_snapshot = none;
}

morning_run : aggregate (row 1 86500 10 (some 3) ∷ row 2 86600 12 none ∷ []) ≡ some morning
unfolding aggregate see_rows see_row
morning_run = refl

evening_run : aggregate (row 3 90000 20 none ∷ []) ≡ some evening
unfolding aggregate see_rows see_row
evening_run = refl

aggregate-merge_example :
    let whole =
      aggregate (row 1 86500 10 (some 3) ∷ row 2 86600 12 none ∷ row 3 90000 20 none ∷ []) in
    (morning.last_ts < evening.last_ts → whole ≡ some (merge morning evening))
    × (morning.first_ts < evening.first_ts → whole ≡ some (merge evening morning))
aggregate-merge_example =
    aggregate-merge (row 1 86500 10 (some 3)) (row 3 90000 20 none) (row 2 86600 12 none ∷ []) []
      morning evening morning_run evening_run (omega arith) (omega arith)

-- The morning was rolled up and pruned; the evening's reading came late.
abbrev tables : Tables
tables = record {
  readings = row 3 90000 20 none ∷ row 4 172900 21 none ∷ [];
  rollups = record { printer_id = 7; day = 1; raw_pruned = true; fields = morning } ∷ [];
}

tables-HasUniqueIds : HasUniqueIds tables.readings
tables-HasUniqueIds = ((ground arith, tt), (tt, tt))

-- The day after stays.
pruned_run : (process_printer_day tables 7 1 true).0.readings ≡ row 4 172900 21 none ∷ []
unfolding process_printer_day aggregate see_rows see_row merge get_rollup put_rollup
pruned_run = refl

abbrev settings : Settings
settings = record { rollup_enabled = true; raw_days = 7; max_batches = 10; delete_enabled = true }

-- On day 33 the floor of 31 days keeps day 2: the reading of day 1 goes.
window_run :
    roll_up_readings settings 2851200 tables none
    ≡ ((process_printer_day tables 7 1 true).0, some 1)
unfolding roll_up_readings roll_up_days roll_up_printers printers_of_day effective_raw_days
    write_watermark process_printer_day aggregate see_rows see_row merge get_rollup put_rollup
window_run = refl

raw_window_kept_example :
    let recent = (λ (r : RawRow). leb (2851200 - effective_raw_days settings * 86400) r.ts) in
    (select recent (roll_up_readings settings 2851200 tables none).0.readings
      ≡ select recent tables.readings)
    × (31 ≤ effective_raw_days settings)
raw_window_kept_example = raw_window_kept settings 2851200 tables none tables-HasUniqueIds
