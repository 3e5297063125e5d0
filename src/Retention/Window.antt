-- ===== src/Retention/Window.antt =====
-- What a pass of the worker leaves alone.
use printer_nanny.Common.{
  ℕ, zero, suc, ◌+◌, ◌-◌, ◌*◌, ◌≤◌, ◌≡◌, ◌≢◌, refl, sym, ap, ◌∙◌, Bool, true, false, not, Option,
  none, some, List, [], ◌∷◌, map, length, select, leb, All, Bool-cases, inl, inr, ◌⊎◌, arith,
}
use mathlib.Core.Path.{subst}
use printer_nanny.Retention.{RawRow, Rollup, aggregate}
use printer_nanny.Retention.Daily.{
  ReadingRollup, Tables, is_of_day, get_rollup, put_rollup, updated, has_id, is_covered, finish,
  roll_up_day, process_printer_day,
}
use printer_nanny.Retention.Pruning.{HasUniqueIds, ids_of, select-deleted}
use printer_nanny.Retention.Cycle.{
  Settings, effective_raw_days, cutoff_day, printers_of_day, roll_up_printers, roll_up_days,
  from_oldest, roll_up_readings, start_day, oldest_of, budget_of,
}

select-All :
    (P : RawRow → Type 0) (p : RawRow → Bool) (readings : List RawRow)
    → All P readings
    → All P (select p readings)
select-All P p [] h = tt
select-All P p (r ∷ readings) h = elim (Bool-cases (p r)) [
  | inl y ↦ rw (y) (h.0, select-All P p readings h.1)
  | inr n ↦ rw (n) (select-All P p readings h.1)
]

select-HasUniqueIds :
    (p : RawRow → Bool) (readings : List RawRow)
    → HasUniqueIds readings
    → HasUniqueIds (select p readings)
select-HasUniqueIds p [] h = tt
select-HasUniqueIds p (r ∷ readings) h = elim (Bool-cases (p r)) [
  | inl y ↦
      rw (y) (select-All (λ q. q.id ≢ r.id) p readings h.0, select-HasUniqueIds p readings h.1)
  | inr n ↦ rw (n) (select-HasUniqueIds p readings h.1)
]

select-select :
    (keep p : RawRow → Bool) (readings : List RawRow)
    → ((r : RawRow) → p r ≡ true → keep r ≡ true)
    → select p (select keep readings) ≡ select p readings
select-select keep p [] h = refl
select-select keep p (r ∷ readings) h = elim (Bool-cases (keep r)) [
  | inl y ↦ elim (Bool-cases (p r)) [
    | inl f ↦ rw (y, f, select-select keep p readings h) refl
    | inr f ↦ rw (y, f) (select-select keep p readings h)
  ]
  | inr n ↦ elim (Bool-cases (p r)) [
    | inl f ↦ cc (h r f, n)
    | inr f ↦ rw (n, f) (select-select keep p readings h)
  ]
]

-- A day's pass leaves the readings as they are, or deletes by id what it rolled up.
finish-readings :
    (t : Tables) (row : ReadingRollup) (rows : List RawRow) (delete_enabled : Bool)
    → ((finish t row rows delete_enabled).0.readings ≡ t.readings)
      ⊎ ((finish t row rows delete_enabled).0.readings
          ≡ select (λ r. not (has_id r.id (map (λ q. q.id) rows))) t.readings)
finish-readings t row rows false = inl refl
finish-readings t row rows true =
    elim (Bool-cases
      (is_covered (get_rollup (put_rollup row t.rollups) row.printer_id row.day) (length rows))) [
        | inl y ↦ inr (rw (y) refl)
        | inr n ↦ inl (rw (n) refl)
      ]

-- What a pass preserves of the readings: their ids are unique, and those since the instant are
-- there.
record IsSpared (since : ℕ) (before after : List RawRow) : Type 0 where
  unique : HasUniqueIds after
  spared : select (λ r. leb since r.ts) after ≡ select (λ r. leb since r.ts) before

same-IsSpared : (since : ℕ) (a b : List RawRow) → HasUniqueIds a → b ≡ a → IsSpared since a b
same-IsSpared since a b u h = record {
  unique = subst HasUniqueIds (sym h) u;
  spared = ap (select (λ r. leb since r.ts)) h;
}

trans-IsSpared :
    (since : ℕ) (a b c : List RawRow) → IsSpared since a b → IsSpared since b c → IsSpared since a c
trans-IsSpared since a b c f g = record { unique = g.unique; spared = g.spared ∙ f.spared }

-- A deletion of one printer's day spares what comes after the day.
deleted-IsSpared :
    (since printer_id day : ℕ) (a b : List RawRow)
    → HasUniqueIds a
    → day * 86400 + 86400 ≤ since
    → b ≡ select (λ r. not (has_id r.id (ids_of (is_of_day printer_id day) a))) a
    → IsSpared since a b
deleted-IsSpared since printer_id day a b u h e =
    let keep : RawRow → Bool = (λ r. not (is_of_day printer_id day r)) in
    let same : b ≡ select keep a = e ∙ select-deleted (is_of_day printer_id day) a u in
    record {
      unique = subst HasUniqueIds (sym same) (select-HasUniqueIds keep a u);
      spared =
          ap (select (λ r. leb since r.ts)) same
          ∙ select-select keep (λ r. leb since r.ts) a (λ r f. ground arith);
    }

roll_up_day-IsSpared :
    (since printer_id day : ℕ) (t : Tables) (f : Option Rollup) (delete_enabled : Bool)
    → HasUniqueIds t.readings
    → day * 86400 + 86400 ≤ since
    → IsSpared since t.readings
        (roll_up_day t printer_id day
          (select (is_of_day printer_id day) t.readings)
          f
          delete_enabled).0.readings
roll_up_day-IsSpared since p day t none d u h = same-IsSpared since t.readings t.readings u refl
roll_up_day-IsSpared since p day t (some f) d u h =
    let rows = select (is_of_day p day) t.readings in
    let row = updated p day (get_rollup t.rollups p day) f in
    let after = (finish t row rows d).0.readings in
    elim (finish-readings t row rows d) [
      | inl same ↦ same-IsSpared since t.readings after u same
      | inr gone ↦ deleted-IsSpared since p day t.readings after u h gone
    ]

process-IsSpared :
    (since printer_id day : ℕ) (t : Tables) (delete_enabled : Bool)
    → HasUniqueIds t.readings
    → day * 86400 + 86400 ≤ since
    → IsSpared since t.readings (process_printer_day t printer_id day delete_enabled).0.readings
unfolding process_printer_day
process-IsSpared since p day t d u h =
    roll_up_day-IsSpared since p day t (aggregate (select (is_of_day p day) t.readings)) d u h

roll_up_printers-IsSpared :
    (since day budget : ℕ) (d : Bool) (printers : List ℕ) (t : Tables) (used : ℕ)
    → HasUniqueIds t.readings
    → day * 86400 + 86400 ≤ since
    → IsSpared since t.readings (roll_up_printers d budget day printers t used).0.readings
unfolding roll_up_printers
roll_up_printers-IsSpared since day budget d [] t used u h =
    same-IsSpared since t.readings t.readings u refl
roll_up_printers-IsSpared since day budget d (p ∷ printers) t used u h =
    elim (Bool-cases (leb budget used)) [
      | inl y ↦ rw (roll_up_printers, y) (same-IsSpared since t.readings t.readings u refl)
      | inr n ↦
          let t' = (process_printer_day t p day d).0 in
          let first = process-IsSpared since p day t d u h in
          rw (roll_up_printers, n)
            (trans-IsSpared since t.readings t'.readings
              (roll_up_printers d budget day printers t' (suc used)).0.readings first
              (roll_up_printers-IsSpared since day budget d printers t' (suc used) first.unique h))
    ]

roll_up_days-IsSpared :
    (since budget : ℕ) (d : Bool) (left day : ℕ) (t : Tables) (used : ℕ) (last : Option ℕ)
    → HasUniqueIds t.readings
    → (day + left) * 86400 ≤ since
    → IsSpared since t.readings (roll_up_days d budget left day t used last).0.readings
unfolding roll_up_days
roll_up_days-IsSpared since budget d zero day t used last u h =
    same-IsSpared since t.readings t.readings u refl
roll_up_days-IsSpared since budget d (suc left) day t used last u h =
    let looped = roll_up_printers d budget day (printers_of_day day t.readings) t (suc used) in
    let first =
      roll_up_printers-IsSpared since day budget d (printers_of_day day t.readings) t (suc used) u
        (omega arith) in
    elim (Bool-cases (leb budget used)) [
      | inl y ↦ rw (roll_up_days, y) (same-IsSpared since t.readings t.readings u refl)
      | inr n ↦ elim (Bool-cases looped.2) [
        | inl done ↦
            rw (roll_up_days, n, done)
              (trans-IsSpared since t.readings looped.0.readings
                (roll_up_days d budget left (suc day) looped.0 looped.1 (some day)).0.readings first
                (roll_up_days-IsSpared since budget d left (suc day) looped.0 looped.1 (some day)
                  first.unique (omega arith)))
        | inr early ↦ rw (roll_up_days, n, early) first
      ]
    ]

-- A pass that starts beyond the cutoff has no day to look at.
days_due-IsSpared :
    (since budget : ℕ) (d : Bool) (cutoff start : ℕ) (t : Tables)
    → HasUniqueIds t.readings
    → cutoff * 86400 ≤ since
    → IsSpared since t.readings (roll_up_days d budget (cutoff - start) start t 0 none).0.readings
unfolding roll_up_days
days_due-IsSpared since budget d cutoff start t u h = elim (Bool-cases (leb cutoff start)) [
  | inl y ↦
      let nothing : cutoff - start ≡ 0 = ground arith in
      rw nothing (same-IsSpared since t.readings t.readings u refl)
  | inr n ↦
      let due : start + (cutoff - start) ≡ cutoff = ground arith in
      roll_up_days-IsSpared since budget d (cutoff - start) start t 0 none u (rw due h)
]

from_oldest-IsSpared :
    (c : Settings) (now : ℕ) (t : Tables) (watermark oldest : Option ℕ)
    → HasUniqueIds t.readings
    → IsSpared
        (now - effective_raw_days c * 86400)
        t.readings
        (from_oldest c now t watermark oldest).0.readings
from_oldest-IsSpared c now t watermark none u =
    same-IsSpared (now - effective_raw_days c * 86400) t.readings t.readings u refl
from_oldest-IsSpared c now t watermark (some oldest) u =
    days_due-IsSpared (now - effective_raw_days c * 86400) (budget_of c) c.delete_enabled
      (cutoff_day c now) (start_day c.delete_enabled watermark oldest) t u (omega arith)

effective_raw_days-least : (c : Settings) → 31 ≤ effective_raw_days c
unfolding effective_raw_days
effective_raw_days-least c = ground arith

-- The window of raw readings is kept. Whatever the settings, the watermark and the rollups: where
-- ids are unique, a pass of the worker removes no reading of the last `effective_raw_days` days,
-- which are 31 at least.
pub raw_window_kept :
    (c : Settings) (now : ℕ) (t : Tables) (watermark : Option ℕ)
    → HasUniqueIds t.readings
    → let recent = (λ (r : RawRow). leb (now - effective_raw_days c * 86400) r.ts) in
      (select recent (roll_up_readings c now t watermark).0.readings ≡ select recent t.readings)
      × (31 ≤ effective_raw_days c)
unfolding roll_up_readings
raw_window_kept c now t watermark u =
    let since = now - effective_raw_days c * 86400 in
    (
      elim (Bool-cases c.rollup_enabled) [
        | inl y ↦
            simp (y) (from_oldest-IsSpared c now t watermark (oldest_of none t.readings) u).spared
        | inr n ↦ simp (n) refl
      ],
      effective_raw_days-least c,
    )
