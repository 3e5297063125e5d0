-- ===== src/Retention/Cycle.antt =====
-- central/retention.py: `roll_up_readings`, the worker's pass over the days that are due. The audit
-- entry and the summary for the log are not modelled.
use printer_nanny.Common.{
  ℕ, zero, suc, ◌+◌, ◌-◌, ◌*◌, ◌/◌, max, Bool, true, false, ◌&&◌, not, Option, none, some, List, [],
  ◌∷◌, ltb, leb, if◌then◌else◌,
}
use printer_nanny.Retention.{RawRow}
use printer_nanny.Retention.Daily.{Tables, process_printer_day, has_id}

-- The settings as they are stored; 0 stands for what is not set.
pub record Settings : Type 0 where
  pub rollup_enabled : Bool
  pub raw_days : ℕ
  pub max_batches : ℕ
  pub delete_enabled : Bool

abbrev pub default_to : ℕ → ℕ → ℕ
default_to n zero = n
default_to n (suc v) = suc v

-- One more day than the widest of the two forecasts reads.
abbrev pub min_raw_days : ℕ
min_raw_days = max 30 30 + 1

unfoldable pub effective_raw_days : Settings → ℕ
effective_raw_days c =
    let raw_days = default_to 90 c.raw_days in
    if ltb raw_days min_raw_days then min_raw_days else raw_days

abbrev pub budget_of : Settings → ℕ
budget_of c = max 1 (default_to 200 c.max_batches)

-- The last day before the window of raw readings.
abbrev pub cutoff_day : Settings → ℕ → ℕ
cutoff_day c now = (now - effective_raw_days c * 86400) / 86400

-- The printers that have a reading of the day, each once.
unfoldable pub printers_of_day : ℕ → List RawRow → List ℕ
printers_of_day day [] = []
printers_of_day day (r ∷ readings) =
    let rest = printers_of_day day readings in
    if (leb (day * 86400) r.ts && ltb r.ts (day * 86400 + 86400)) && not (has_id r.printer_id rest)
    then r.printer_id ∷ rest
    else rest

-- The loop over a day's printers: the tables, the work units used, and whether the day was
-- completed.
unfoldable pub roll_up_printers : Bool → ℕ → ℕ → List ℕ → Tables → ℕ → Tables × ℕ × Bool
roll_up_printers delete_enabled budget day [] t used = (t, used, true)
roll_up_printers delete_enabled budget day (p ∷ printers) t used =
    let next =
      roll_up_printers delete_enabled budget day printers
        (process_printer_day t p day delete_enabled).0 (suc used) in
    if leb budget used then (t, used, false) else next

-- The loop over the days from `day` on, of which `left` lie before the cutoff: the tables, and the
-- last day that was completed.
unfoldable pub roll_up_days : Bool → ℕ → ℕ → ℕ → Tables → ℕ → Option ℕ → Tables × Option ℕ
roll_up_days delete_enabled budget zero day t used last = (t, last)
roll_up_days delete_enabled budget (suc left) day t used last =
    let (t', used', complete) =
      roll_up_printers delete_enabled budget day (printers_of_day day t.readings) t (suc used) in
    let next = roll_up_days delete_enabled budget left (suc day) t' used' (some day) in
    if leb budget used then (t, last) else if not complete then (t', last) else next

abbrev pub oldest_of : Option ℕ → List RawRow → Option ℕ
oldest_of found [] = found
oldest_of none (r ∷ readings) = oldest_of (some r.ts) readings
oldest_of (some t) (r ∷ readings) = oldest_of (some (if ltb r.ts t then r.ts else t)) readings

abbrev pub start_day : Bool → Option ℕ → ℕ → ℕ
start_day delete_enabled watermark oldest =
    if delete_enabled
    then oldest / 86400
    else elim watermark [ none ↦ oldest / 86400 | some w ↦ max (oldest / 86400) (w + 1) ]

-- The marker never moves back.
unfoldable pub write_watermark : Option ℕ → ℕ → Option ℕ
write_watermark none day = some day
write_watermark (some current) day = if leb day current then some current else some day

abbrev pub marked : Option ℕ → Option ℕ → Option ℕ
marked watermark none = watermark
marked watermark (some day) = write_watermark watermark day

abbrev pub from_oldest : Settings → ℕ → Tables → Option ℕ → Option ℕ → Tables × Option ℕ
from_oldest c now t watermark none = (t, watermark)
from_oldest c now t watermark (some oldest) =
    let start = start_day c.delete_enabled watermark oldest in
    let (t', last) =
      roll_up_days c.delete_enabled (budget_of c) (cutoff_day c now - start) start t 0 none in
    (t', marked watermark last)

-- The tables and the watermark after a pass.
unfoldable pub roll_up_readings : Settings → ℕ → Tables → Option ℕ → Tables × Option ℕ
roll_up_readings c now t watermark =
    if not c.rollup_enabled
    then (t, watermark)
    else from_oldest c now t watermark (oldest_of none t.readings)
