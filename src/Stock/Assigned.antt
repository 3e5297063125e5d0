-- ===== src/Stock/Assigned.antt =====
-- central/supply_inventory.py: `assign_usage`, a technician's choice for a use that named no order.
use printer_nanny.Common.{
  ℕ, ◌+◌, ◌≡◌, ◌≢◌, refl, sym, ap, ◌∙◌, ◌⊎◌, inl, inr, true, false, ◌&&◌, none, some, List, [], ◌∷◌,
  In, In-cons, All, All-at, and-true, leb, ◌==◌, ==-refl, ==-false, if◌then◌else◌, Option-cases,
  Bool-cases, arith,
}
use mathlib.Core.Path.{subst}
use printer_nanny.Stock.{
  Texts, SupplyOrder, SupplyUsage, manually_assigned, Db, usage_count, on_hand,
}
use printer_nanny.Stock.Matching.{order_fits}
use printer_nanny.Stock.Ledger.{is_in_stock, usage_need, put_usage, assign_usage}
use printer_nanny.Stock.Shelves.{
  Draw, one_of, shelves, left_of, find_order, find_order-In, find_order-id, HasDistinctIds,
}

abbrev pub HasDistinctCycles : List SupplyUsage → Type 0
HasDistinctCycles [] = Unit
HasDistinctCycles (u ∷ usages) =
    All (λ x. x.supply_cycle_id ≢ u.supply_cycle_id) usages × HasDistinctCycles usages

-- A use that named no order, and names one now.
usage_count-put :
    (texts : Texts) (usages : List SupplyUsage) (u u' : SupplyUsage) (order id : ℕ)
    → HasDistinctCycles usages
    → In u usages
    → u.supply_order_id ≡ none
    → u'.supply_order_id ≡ some order
    → u'.supply_cycle_id ≡ u.supply_cycle_id
    → usage_count (put_usage texts u' usages) id
      ≡ (if order == id then 1 else 0) + usage_count usages id
unfolding usage_count put_usage
usage_count-put texts [] u u' order id h m free named same = elim m [ ]
usage_count-put texts (x ∷ usages) u u' order id h m free named same =
    let ih = usage_count-put texts usages u u' order id h.1 in
    elim (In-cons m) [
      | inl is_x ↦
          rw
            (
              ap (λ z. z.supply_cycle_id == u'.supply_cycle_id) (sym is_x),
              ap (λ c. u.supply_cycle_id == c) same,
              ==-refl u.supply_cycle_id,
              named,
              sym is_x,
              free,
            )
            (omega arith)
      | inr later ↦
          rw
            (
              ap (λ c. x.supply_cycle_id == c) same,
              ==-false x.supply_cycle_id u.supply_cycle_id
                  (λ e. All-at (λ z. z.supply_cycle_id ≢ x.supply_cycle_id) h.0 later (sym e)),
            )
            (omega (arith, ih later free named same))
    ]

abbrev pub assigned_to : SupplyUsage → SupplyOrder → ℕ → ℕ → SupplyUsage
assigned_to usage order user now = record usage {
  supply_order_id = some order.id;
  status = manually_assigned;
  assigned_at = some now;
  assigned_by_user_id = some user;
}

abbrev pub after_assignment : Texts → Db → SupplyUsage → SupplyOrder → ℕ → ℕ → Db
after_assignment texts db usage order user now = record db {
  usages = put_usage texts (assigned_to usage order user now) db.usages;
}

assignment-Draw :
    (texts : Texts) (db : Db) (usage : SupplyUsage) (order : SupplyOrder) (user now : ℕ)
    → HasDistinctIds db.orders
    → HasDistinctCycles db.usages
    → In usage db.usages
    → In order db.orders
    → usage.supply_order_id ≡ none
    → leb order.quantity (usage_count db.usages order.id) ≡ false
    → Draw (shelves db) (some order.id) (shelves (after_assignment texts db usage order user now))
unfolding shelves left_of on_hand
assignment-Draw texts db usage order user now distinct cycles m known free stocked =
    let at = find_order-In db.orders order distinct known in
    let count : (id : ℕ)
        → usage_count (put_usage texts (assigned_to usage order user now) db.usages) id
          ≡ (if order.id == id then 1 else 0) + usage_count db.usages id =
      (λ id.
        usage_count-put texts db.usages usage (assigned_to usage order user now) order.id id cycles
          m free refl refl) in
    one_of order.id (rw at (ground (arith, stocked, count order.id, ==-refl order.id))) (λ j ne.
      elim (Option-cases (find_order j db.orders)) [
        | inl n ↦ rw n refl
        | inr (x, e) ↦ rw e (
            ground (
              arith,
              count x.id,
              ==-false order.id x.id (λ same. ne (sym (find_order-id j db.orders x e) ∙ sym same)),
            ))
      ])

-- A technician's choice is refused and changes nothing; or it is taken, and then the use named no
-- order, the chosen order was delivered and fits it, and one cartridge leaves the shelf of that
-- order, which held at least one. The orders have distinct ids, the usages distinct cycles, and
-- the use and the order are in the tables.
pub assign_usage-Draw :
    (texts : Texts) (db : Db) (usage : SupplyUsage) (order : SupplyOrder) (user now : ℕ)
    → HasDistinctIds db.orders
    → HasDistinctCycles db.usages
    → In usage db.usages
    → In order db.orders
    → (assign_usage texts db usage order user now ≡ (db, false))
      ⊎ (((assign_usage texts db usage order user now).1 ≡ true)
          × (usage.supply_order_id ≡ none)
          × (is_in_stock order.status ≡ true)
          × (order_fits texts db.products order (usage_need texts usage) ≡ true)
          × Draw
              (shelves db)
              (some order.id)
              (shelves (assign_usage texts db usage order user now).0))
unfolding assign_usage
assign_usage-Draw texts db usage order user now distinct cycles m known =
    elim (Option-cases usage.supply_order_id) [
      | inr (o, taken) ↦ inl (rw taken refl)
      | inl free ↦
          elim (Bool-cases (
            is_in_stock order.status
            && order_fits texts db.products order (usage_need texts usage))) [
              | inr unfit ↦ inl (rw (free, unfit) refl)
              | inl fit ↦ elim (Bool-cases (leb order.quantity (usage_count db.usages order.id))) [
                | inl empty ↦ inl (rw (free, fit, empty) refl)
                | inr stocked ↦
                    let (arrived, fits) = and-true (is_in_stock order.status) _ fit in
                    let taken : assign_usage texts db usage order user now
                        ≡ (after_assignment texts db usage order user now, true) =
                      rw (free, fit, stocked) refl in
                    inr (
                      ap (λ p. p.1) taken,
                      free,
                      arrived,
                      fits,
                      subst (λ p. Draw (shelves db) (some order.id) (shelves (p.0))) (sym taken)
                          (assignment-Draw texts db usage order user now distinct cycles m known
                            free stocked),
                    )
              ]
            ]
    ]
