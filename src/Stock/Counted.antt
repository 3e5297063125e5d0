-- ===== src/Stock/Counted.antt =====
-- central/supply_inventory.py: the counts that `reconcile_replacements` returns, `none` for the
-- empty dictionary of a call without cycles. A reconciliation never assigns a use by hand.
use mathlib.Core.Path.{subst}
use mathlib.Core.List.{append_assoc, append-nil}
use printer_nanny.Common.{
  ℕ, suc, ◌≡◌, refl, sym, ap, ◌∙◌, inl, inr, Bool, Option, none, some, List, [], ◌∷◌, ◌++◌,
  if◌then◌else◌, Bool-cases,
}
use printer_nanny.Stock.{Texts, SupplyUsageStatus, SupplyUsage, Printer, SupplyCycle, Db}
use printer_nanny.Stock.Ledger.{
  compatible_stock, need_of, chosen_of, status_by, usage_of, has_usage, reconcile_one,
  reconcile_all, reconcile_replacements,
}

pub record Counts : Type 0 where
  pub auto_assigned : ℕ
  pub ambiguous : ℕ
  pub no_stock : ℕ

-- `counts[status.value] += 1`
unfoldable pub count_status : Counts → SupplyUsageStatus → Counts
count_status c SupplyUsageStatus.auto_assigned = record c { auto_assigned = suc c.auto_assigned }
count_status c SupplyUsageStatus.ambiguous = record c { ambiguous = suc c.ambiguous }
count_status c SupplyUsageStatus.no_stock = record c { no_stock = suc c.no_stock }
count_status c SupplyUsageStatus.manually_assigned = c

module _ (texts : Texts) (printer : Printer) (now : ℕ) where
  abbrev pub cycle_status : Db → SupplyCycle → SupplyUsageStatus
  cycle_status db cycle =
      let candidates = compatible_stock texts db (need_of texts printer cycle) in
      status_by texts (chosen_of texts candidates) candidates

  -- The loop of `reconcile_all`, for the counts.
  unfoldable pub count_all : List SupplyUsage → Db → Counts → List SupplyCycle → Counts
  count_all existing db counts [] = counts
  count_all existing db counts (cycle ∷ cycles) =
      let known = has_usage texts cycle.id existing in
      count_all existing (if known then db else reconcile_one texts printer now db cycle)
        (if known then counts else count_status counts (cycle_status db cycle)) cycles

  unfoldable pub reconcile_counts : List SupplyCycle → Db → Option Counts
  reconcile_counts [] db = none
  reconcile_counts (cycle ∷ cycles) db = some (
      count_all db.usages db (record { auto_assigned = 0; ambiguous = 0; no_stock = 0 })
        (cycle ∷ cycles))

-- How many rows have each status, added to counts.
unfoldable pub tally : Counts → List SupplyUsage → Counts
tally counts [] = counts
tally counts (u ∷ usages) = tally (count_status counts u.status) usages

module _ (texts : Texts) (printer : Printer) (now : ℕ) where
  -- The rows that the loop adds are the ones it counts.
  abbrev IsCounted : Db → Counts → Db → Counts → Type 0
  IsCounted db counts db' counts' =
      (new : List SupplyUsage) × (db'.usages ≡ db.usages ++ new) × (counts' ≡ tally counts new)

  count_all-IsCounted :
      (existing : List SupplyUsage) (db : Db) (counts : Counts) (cycles : List SupplyCycle)
      → IsCounted db counts
          (reconcile_all texts printer now existing db cycles)
          (count_all texts printer now existing db counts cycles)
  unfolding reconcile_all count_all tally reconcile_one usage_of
  count_all-IsCounted existing db counts [] = ([], sym (append-nil db.usages), refl)
  count_all-IsCounted existing db counts (cycle ∷ cycles) =
      let candidates = compatible_stock texts db (need_of texts printer cycle) in
      let chosen = chosen_of texts candidates in
      let row = usage_of texts printer cycle now chosen (status_by texts chosen candidates) in
      let Next : Bool → Type 0 = λ b.
        IsCounted db counts
          (reconcile_all texts printer now existing
            (if b then db else reconcile_one texts printer now db cycle) cycles)
          (count_all texts printer now existing
            (if b then db else reconcile_one texts printer now db cycle)
            (if b then counts else count_status counts row.status) cycles) in
      elim (Bool-cases (has_usage texts cycle.id existing)) [
        | inl known ↦ subst Next (sym known) (count_all-IsCounted existing db counts cycles)
        | inr unknown ↦
            let (new, rows, total) =
              count_all-IsCounted existing (reconcile_one texts printer now db cycle)
                (count_status counts row.status) cycles in
            subst Next (sym unknown)
              (row ∷ new, rows ∙ append_assoc db.usages (row ∷ []) new, total)
      ]

  -- The counts that a reconciliation of some cycles returns are the numbers of rows of each status
  -- that it adds.
  pub reconcile_counts-tally :
      (cycle : SupplyCycle) (cycles : List SupplyCycle) (db : Db)
      → (new : List SupplyUsage) × ((reconcile_replacements texts printer
            (cycle ∷ cycles)
            now
            db).usages
          ≡ db.usages ++ new)
        × (reconcile_counts texts printer now (cycle ∷ cycles) db
            ≡ some (tally (record { auto_assigned = 0; ambiguous = 0; no_stock = 0 }) new))
  unfolding reconcile_replacements reconcile_counts
  reconcile_counts-tally cycle cycles db =
      let (new, rows, total) =
        count_all-IsCounted db.usages db (record { auto_assigned = 0; ambiguous = 0; no_stock = 0 })
          (cycle ∷ cycles) in
      (new, rows, ap some total)
