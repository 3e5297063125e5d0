-- ===== src/Stock/Consistent.antt =====
-- central/supply_inventory.py: no unresolved use comes to name an order.
use mathlib.Core.Path.{subst}
use printer_nanny.Common.{
  ℕ, ◌≡◌, refl, sym, ◌∙◌, inl, inr, true, false, ◌&&◌, Option, none, some, List, [], ◌∷◌,
  All-append, false-ne-true, leb, ◌==◌, if◌then◌else◌, Bool-cases, Option-cases, Bool, ◌⊎◌,
}
use printer_nanny.Stock.{
  Texts, SupplyOrder, SupplyUsage, Db, Printer, SupplyCycle, StockItem, usage_count,
}
use printer_nanny.Stock.Matching.{order_fits}
use printer_nanny.Stock.Ledger.{
  is_in_stock, compatible_stock, usage_need, assign_usage, usage_of, status_by, chosen_of, need_of,
  reconcile_all, reconcile_one, reconcile_replacements, has_usage, put_usage,
}
use printer_nanny.Stock.Assigned.{assigned_to, after_assignment}
use printer_nanny.Stock.Views.{is_unresolved}
use printer_nanny.Stock.Options.{IsConsistent}

usage_of-free :
    (texts : Texts) (printer : Printer) (cycle : SupplyCycle) (now : ℕ)
    (chosen : Option SupplyOrder) (candidates : List StockItem)
    → is_unresolved
        (usage_of texts printer cycle now chosen (status_by texts chosen candidates)).status
      ≡ true
    → (usage_of texts printer cycle now chosen (status_by texts chosen candidates)).supply_order_id
      ≡ none
unfolding usage_of status_by
usage_of-free texts printer cycle now none candidates h = refl
usage_of-free texts printer cycle now (some o) candidates h = absurd (false-ne-true h)

reconcile_all-IsConsistent :
    (texts : Texts) (printer : Printer) (now : ℕ) (existing : List SupplyUsage) (db : Db)
    (cycles : List SupplyCycle)
    → IsConsistent db.usages
    → IsConsistent (reconcile_all texts printer now existing db cycles).usages
unfolding reconcile_all reconcile_one
reconcile_all-IsConsistent texts printer now existing db [] h = h
reconcile_all-IsConsistent texts printer now existing db (cycle ∷ cycles) h =
    let again : (db' : Db)
        → IsConsistent db'.usages
        → IsConsistent (reconcile_all texts printer now existing db' cycles).usages =
      λ db'. reconcile_all-IsConsistent texts printer now existing db' cycles in
    let next_kept : Bool → Type 0 = λ b.
      IsConsistent
        (reconcile_all texts printer now existing
          (if b then db else reconcile_one texts printer now db cycle) cycles).usages in
    elim (Bool-cases (has_usage texts cycle.id existing)) [
      | inl known ↦ subst next_kept (sym known) (again db h)
      | inr new ↦
          let candidates = compatible_stock texts db (need_of texts printer cycle) in
          subst next_kept (sym new) (
            again (reconcile_one texts printer now db cycle) (
              All-append (λ u. is_unresolved u.status ≡ true → u.supply_order_id ≡ none) db.usages _
                h
                (
                  usage_of-free texts printer cycle now (chosen_of texts candidates) candidates,
                  tt,
                )))
    ]

put_usage-IsConsistent :
    (texts : Texts) (u : SupplyUsage) (usages : List SupplyUsage)
    → is_unresolved u.status ≡ false
    → IsConsistent usages
    → IsConsistent (put_usage texts u usages)
unfolding put_usage
put_usage-IsConsistent texts u [] r h = tt
put_usage-IsConsistent texts u (x ∷ usages) r h =
    let ih = put_usage-IsConsistent texts u usages r h.1 in
    elim (Bool-cases (x.supply_cycle_id == u.supply_cycle_id)) [
      | inl at ↦ rw at ((λ e. absurd (false-ne-true (sym r ∙ e))), h.1)
      | inr on ↦ rw on (h.0, ih)
    ]

assign_usage-outcome :
    (texts : Texts) (db : Db) (u : SupplyUsage) (o : SupplyOrder) (user now : ℕ)
    → (assign_usage texts db u o user now ≡ (db, false))
      ⊎ (assign_usage texts db u o user now ≡ (after_assignment texts db u o user now, true))
unfolding assign_usage
assign_usage-outcome texts db u o user now = elim (Option-cases u.supply_order_id) [
  | inr (_, named) ↦ inl (rw named refl)
  | inl free ↦
      elim (Bool-cases
        (is_in_stock o.status && order_fits texts db.products o (usage_need texts u))) [
          | inr unfit ↦ inl (rw (free, unfit) refl)
          | inl fit ↦ elim (Bool-cases (leb o.quantity (usage_count db.usages o.id))) [
            | inl empty ↦ inl (rw (free, fit, empty) refl)
            | inr stocked ↦ inr (rw (free, fit, stocked) refl)
          ]
        ]
]

-- The reconciliation and the assignment keep it so that no unresolved use names an order.
pub uses-IsConsistent :
    (texts : Texts) (db : Db)
    → IsConsistent db.usages
    → ((printer : Printer) (cycles : List SupplyCycle) (now : ℕ)
        → IsConsistent (reconcile_replacements texts printer cycles now db).usages)
      × ((u : SupplyUsage) (o : SupplyOrder) (user now : ℕ)
          → IsConsistent (assign_usage texts db u o user now).0.usages)
unfolding reconcile_replacements
uses-IsConsistent texts db h = (
  λ printer cycles now. reconcile_all-IsConsistent texts printer now db.usages db cycles h,
  λ u o user now. elim (assign_usage-outcome texts db u o user now) [
    | inl refused ↦ subst (λ p. IsConsistent p.0.usages) (sym refused) h
    | inr accepted ↦
        subst (λ p. IsConsistent p.0.usages) (sym accepted)
          (put_usage-IsConsistent texts (assigned_to u o user now) db.usages refl h)
  ],
)
