-- ===== src/Retention/Daily.antt =====
-- central/retention.py: `_process_printer_day`. A day is the number of whole UTC days since 1970;
-- the transaction commits, or is rolled back to the tables as they were. Readings are listed in the
-- order of their instants and then their ids. The deletes in chunks are one delete.
use printer_nanny.Common.{
  ℕ, ◌+◌, ◌*◌, Bool, true, false, ◌&&◌, not, Option, none, some, List, [], ◌∷◌, map, length, select,
  ltb, leb, ◌==◌, if◌then◌else◌,
}
use printer_nanny.Retention.{RawRow, Rollup, aggregate, merge}

pub record ReadingRollup : Type 0 where
  pub printer_id : ℕ
  pub day : ℕ
  pub raw_pruned : Bool
  pub fields : Rollup

pub record Tables : Type 0 where
  pub readings : List RawRow
  pub rollups : List ReadingRollup

abbrev pub is_of_day : ℕ → ℕ → RawRow → Bool
is_of_day printer_id day r =
    (r.printer_id == printer_id) && (leb (day * 86400) r.ts && ltb r.ts (day * 86400 + 86400))

abbrev pub is_rollup : ℕ → ℕ → ReadingRollup → Bool
is_rollup printer_id day u = (u.printer_id == printer_id) && (u.day == day)

unfoldable pub get_rollup : List ReadingRollup → ℕ → ℕ → Option ReadingRollup
get_rollup [] printer_id day = none
get_rollup (u ∷ rollups) printer_id day =
    let rest = get_rollup rollups printer_id day in
    if is_rollup printer_id day u then some u else rest

-- The row in place of the one with its printer and day, or behind the others.
unfoldable pub put_rollup : ReadingRollup → List ReadingRollup → List ReadingRollup
put_rollup row [] = row ∷ []
put_rollup row (u ∷ rollups) =
    let rest = put_rollup row rollups in
    if is_rollup row.printer_id row.day u then row ∷ rollups else u ∷ rest

abbrev pub was_pruned : Option ReadingRollup → Bool
was_pruned none = false
was_pruned (some u) = u.raw_pruned

-- Stragglers are merged into a pruned day, and a day that is there whole is computed anew.
abbrev pub new_fields : Option ReadingRollup → Rollup → Rollup
new_fields none fields = fields
new_fields (some u) fields = if u.raw_pruned then merge u.fields fields else fields

abbrev pub updated : ℕ → ℕ → Option ReadingRollup → Rollup → ReadingRollup
updated printer_id day row fields = record {
  printer_id = printer_id;
  day = day;
  raw_pruned = was_pruned row;
  fields = new_fields row fields;
}

abbrev pub has_id : ℕ → List ℕ → Bool
has_id i [] = false
has_id i (x ∷ ids) = let rest = has_id i ids in if x == i then true else rest

abbrev pub is_covered : Option ReadingRollup → ℕ → Bool
is_covered none n = false
is_covered (some u) n = leb n u.fields.readings_count

-- The tables after it, the rows rolled up, and the rows pruned.
abbrev pub finish : Tables → ReadingRollup → List RawRow → Bool → Tables × ℕ × ℕ
finish t row rows delete_enabled =
    let rollups = put_rollup row t.rollups in
    let ids = map (λ r. r.id) rows in
    if not delete_enabled
    then (record t { rollups = rollups }, length rows, 0)
    else if not (is_covered (get_rollup rollups row.printer_id row.day) (length rows))
    then (t, 0, 0)
    else (
      record {
        readings = select (λ r. not (has_id r.id ids)) t.readings;
        rollups = put_rollup (record row { raw_pruned = true }) t.rollups;
      },
      length rows,
      length rows,
    )

abbrev pub roll_up_day : Tables → ℕ → ℕ → List RawRow → Option Rollup → Bool → Tables × ℕ × ℕ
roll_up_day t printer_id day rows none delete_enabled = (t, 0, 0)
roll_up_day t printer_id day rows (some fields) delete_enabled =
    finish t (updated printer_id day (get_rollup t.rollups printer_id day) fields) rows
      delete_enabled

unfoldable pub process_printer_day : Tables → ℕ → ℕ → Bool → Tables × ℕ × ℕ
process_printer_day t printer_id day delete_enabled =
    let rows = select (is_of_day printer_id day) t.readings in
    roll_up_day t printer_id day rows (aggregate rows) delete_enabled
