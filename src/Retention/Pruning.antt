-- ===== src/Retention/Pruning.antt =====
-- What a day's pruning removes, and what covers it.
use printer_nanny.Common.{
  if◌then◌else◌, ℕ, ◌≡◌, ◌≢◌, refl, ap, ◌∙◌, Bool, true, false, not, Option, none, some, List, [],
  ◌∷◌, map, select, ◌==◌, All, Bool-cases, inl, inr, arith, ==-refl,
}
use printer_nanny.Retention.{RawRow, Rollup}
use printer_nanny.Retention.Daily.{ReadingRollup, Tables, put_rollup, has_id}

-- No two readings share an id.
abbrev pub HasUniqueIds : List RawRow → Type 0
HasUniqueIds [] = Unit
HasUniqueIds (r ∷ readings) = All (λ q. q.id ≢ r.id) readings × HasUniqueIds readings

module _ (p : RawRow → Bool) where
  abbrev pub ids_of : List RawRow → List ℕ
  ids_of readings = map (λ r. r.id) (select p readings)

  has_id-other :
      (i : ℕ) (readings : List RawRow)
      → All (λ q. q.id ≢ i) readings
      → has_id i (ids_of readings) ≡ false
  has_id-other i [] h = refl
  has_id-other i (q ∷ readings) h = elim (Bool-cases (p q)) [
    | inl y ↦
        let apart : (q.id == i) ≡ false = let n = h.0 in ground arith in
        rw (y, apart) (has_id-other i readings h.1)
    | inr n ↦ rw (n) (has_id-other i readings h.1)
  ]

  -- Another id in the list changes nothing for readings that do not have it.
  select-apart :
      (i : ℕ) (ids : List ℕ) (readings : List RawRow)
      → All (λ q. q.id ≢ i) readings
      → select (λ r. not (has_id r.id (i ∷ ids))) readings
        ≡ select (λ r. not (has_id r.id ids)) readings
  select-apart i ids [] h = refl
  select-apart i ids (q ∷ readings) h =
      let apart : (i == q.id) ≡ false = let n = h.0 in ground arith in
      elim (Bool-cases (has_id q.id ids)) [
        | inl y ↦ rw (apart, y) (select-apart i ids readings h.1)
        | inr n ↦ rw (apart, n, select-apart i ids readings h.1) refl
      ]

  -- Deleting by id what a query found is deleting what the query's test accepts.
  pub select-deleted :
      (readings : List RawRow)
      → HasUniqueIds readings
      → select (λ r. not (has_id r.id (ids_of readings))) readings
        ≡ select (λ r. not (p r)) readings
  select-deleted [] h = refl
  select-deleted (r ∷ readings) h = elim (Bool-cases (p r)) [
    | inl y ↦
        let ids : ids_of (r ∷ readings) ≡ r.id ∷ ids_of readings = rw (y) refl in
        ap (λ ids. select (λ x. not (has_id x.id ids)) (r ∷ readings)) ids
        ∙ rw (y, ==-refl r.id)
            (select-apart r.id (ids_of readings) readings h.0 ∙ select-deleted readings h.1)
    | inr n ↦
        let ids : ids_of (r ∷ readings) ≡ ids_of readings = rw (n) refl in
        ap (λ ids. select (λ x. not (has_id x.id ids)) (r ∷ readings)) ids
        ∙ rw (n, has_id-other r.id readings h.0) (ap (λ xs. r ∷ xs) (select-deleted readings h.1))
  ]

abbrev count_or : Option Rollup → ℕ
count_or none = 0
count_or (some f) = f.readings_count

-- The readings of the day that were pruned earlier.
abbrev pub pruned_before : Option ReadingRollup → ℕ
pruned_before none = 0
pruned_before (some u) = if u.raw_pruned then u.fields.readings_count else 0

abbrev pruned_tables : Tables → ReadingRollup → List RawRow → Tables
pruned_tables t row rows = record {
  readings = select (λ r. not (has_id r.id (map (λ q. q.id) rows))) t.readings;
  rollups = put_rollup (record row { raw_pruned = true }) t.rollups;
}
