-- ===== src/Retention.antt =====
-- central/retention.py: the daily rollups of readings. A supply snapshot is a text that is kept as
-- it is.
pub mod Merging
pub mod Daily
pub mod Pruning
pub mod Cycle
pub mod Window
mod Tests
use printer_nanny.Common.{
  ℕ, ◌+◌, String, Bool, true, false, Option, none, some, List, [], ◌∷◌, length, ltb, if◌then◌else◌,
}

pub record RawRow : Type 0 where
  pub id : ℕ
  pub printer_id : ℕ
  pub ts : ℕ
  pub page_count : Option ℕ
  pub mono_count : Option ℕ
  pub color_count : Option ℕ
  pub supply_snapshot : Option String

-- One meter of a rollup: `<meter>_start` and `<meter>`.
pub record Span : Type 0 where
  pub start : Option ℕ
  pub end : Option ℕ

pub record Rollup : Type 0 where
  pub readings_count : ℕ
  pub first_ts : ℕ
  pub last_ts : ℕ
  pub page_count : Span
  pub mono_count : Span
  pub color_count : Span
  pub supply_snapshot : Option String

-- The first that is known.
abbrev pub or_other {ℓ} : {A : Type ℓ} → Option A → Option A → Option A
or_other none other = other
or_other (some v) other = some v

-- One meter's turn of the loop: the first known value stays, the last known replaces.
abbrev pub see_meter : Span → Option ℕ → Span
see_meter s value = record { start = or_other s.start value; end = or_other value s.end }

unfoldable pub see_row : Rollup → RawRow → Rollup
see_row out r = record {
  readings_count = out.readings_count;
  first_ts = if ltb r.ts out.first_ts then r.ts else out.first_ts;
  last_ts = if ltb out.last_ts r.ts then r.ts else out.last_ts;
  page_count = see_meter out.page_count r.page_count;
  mono_count = see_meter out.mono_count r.mono_count;
  color_count = see_meter out.color_count r.color_count;
  supply_snapshot = or_other r.supply_snapshot out.supply_snapshot;
}

unfoldable pub see_rows : Rollup → List RawRow → Rollup
see_rows out [] = out
see_rows out (r ∷ rows) = see_rows (see_row out r) rows

abbrev pub unknown : Span
unknown = record { start = none; end = none }

abbrev pub opened : ℕ → RawRow → Rollup
opened n r = record {
  readings_count = n;
  first_ts = r.ts;
  last_ts = r.ts;
  page_count = unknown;
  mono_count = unknown;
  color_count = unknown;
  supply_snapshot = none;
}

unfoldable pub aggregate : List RawRow → Option Rollup
aggregate [] = none
aggregate (r ∷ rows) = some (see_rows (opened (length (r ∷ rows)) r) (r ∷ rows))

-- Which side supplies the starts, and which the ends.
abbrev pub starts_from : Span → Span → Option ℕ
starts_from preferred other = or_other preferred.start other.start

abbrev pub ends_from : Span → Span → Option ℕ
ends_from preferred other = or_other preferred.end other.end

abbrev pub merge_span : Bool → Bool → Span → Span → Span
merge_span earlier later existing new = record {
  start = if earlier then starts_from new existing else starts_from existing new;
  end = if later then ends_from new existing else ends_from existing new;
}

unfoldable pub merge : Rollup → Rollup → Rollup
merge existing new =
    let earlier = ltb new.first_ts existing.first_ts in
    let later = ltb existing.last_ts new.last_ts in
    record {
      readings_count = existing.readings_count + new.readings_count;
      first_ts = if earlier then new.first_ts else existing.first_ts;
      last_ts = if later then new.last_ts else existing.last_ts;
      page_count = merge_span earlier later existing.page_count new.page_count;
      mono_count = merge_span earlier later existing.mono_count new.mono_count;
      color_count = merge_span earlier later existing.color_count new.color_count;
      supply_snapshot =
          if later
          then or_other new.supply_snapshot existing.supply_snapshot
          else or_other existing.supply_snapshot new.supply_snapshot;
    }
