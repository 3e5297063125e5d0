-- ===== src/Stock/Options.antt =====
-- central/supply_inventory.py: the orders that a technician is offered for a use are the ones that
-- `assign_usage` takes.
use mathlib.Core.Path.{subst}
use printer_nanny.Common.{
  ℕ, ◌≡◌, refl, sym, ◌∙◌, ◌↔◌, inl, inr, true, false, ◌&&◌, Option, none, some, List, [], ◌∷◌,
  select, selected-In, In-inserted, inserted-In, mapped-In, All-at, In, In-cons, here, there,
  IsFrom, All, In-select, and-true, not, not-true, leb, ltb, ◌==◌, Bool-cases, arith,
}
use printer_nanny.Stock.{
  Texts, SupplyOrder, SupplyUsage, Db, SupplyProduct, StockItem, usage_count, on_hand,
}
use printer_nanny.Stock.Matching.{Need, resolve_order_product, order_fits, fits_by}
use printer_nanny.Stock.Ledger.{
  is_in_stock, is_older, insert_order, oldest_first, delivered_orders, stock_item, stock_items,
  item_fits, is_candidate, compatible_stock, usage_need, assign_usage,
}
use printer_nanny.Stock.Draws.{IsOnShelf, compatible-IsOnShelf}
use printer_nanny.Stock.Views.{
  Places, is_unresolved, is_of_client, insert_usage, newest_first, unresolved_usages,
  assignment_options,
}

insert_order-In :
    (o : SupplyOrder) (orders : List SupplyOrder) → IsFrom (o ∷ orders) (insert_order o orders)
unfolding insert_order
insert_order-In o [] x m = m
insert_order-In o (y ∷ orders) x m =
    In-inserted o y x orders (insert_order o orders) (is_older o y) (insert_order-In o orders x) m

pub oldest_first-In : (orders : List SupplyOrder) → IsFrom orders (oldest_first orders)
unfolding oldest_first
oldest_first-In [] x m = m
oldest_first-In (o ∷ orders) x here = insert_order-In o (oldest_first orders) o here
oldest_first-In (o ∷ orders) x (there m) =
    insert_order-In o (oldest_first orders) x (there (oldest_first-In orders x m))

module _ (texts : Texts) (db : Db) where
  suits_item :
      (need : Need) (o : SupplyOrder) (p : Option SupplyProduct)
      → (o.site_id == need.site_id) ≡ true
      → fits_by texts o need p ≡ true
      → item_fits texts o need p ≡ true
  unfolding item_fits fits_by
  suits_item need o none at h = rw at h
  suits_item need o (some p) at h = h

  suits_order :
      (need : Need) (o : SupplyOrder) (p : Option SupplyProduct)
      → item_fits texts o need p ≡ true
      → fits_by texts o need p ≡ true
  unfolding item_fits fits_by
  suits_order need o none h = (and-true (o.site_id == need.site_id) _ h).1
  suits_order need o (some p) h = h

  offered :
      (need : Need) (o : SupplyOrder)
      → In o db.orders
      → is_in_stock o.status ≡ true
      → order_fits texts db.products o need ≡ true
      → leb o.quantity (usage_count db.usages o.id) ≡ false
      → In (stock_item db.usages o) (compatible_stock texts db need)
  unfolding compatible_stock stock_items delivered_orders is_candidate stock_item order_fits on_hand
  offered need o known arrived fits stocked =
      let (at, suits) = and-true (o.site_id == need.site_id) _ fits in
      let left : ltb 0 (on_hand db.usages o) ≡ true = ground (arith, stocked) in
      let item = suits_item need o (resolve_order_product texts db.products o) at suits in
      selected-In (is_candidate texts db need) (stock_item db.usages o) (stock_items db)
        (mapped-In (stock_item db.usages) o (delivered_orders db.orders) (
          oldest_first-In (select (λ z. is_in_stock z.status) db.orders) o
            (selected-In (λ z. is_in_stock z.status) o db.orders known arrived)))
        (rw (left, item, at) refl)

  taken :
      (need : Need) (o : SupplyOrder)
      → IsOnShelf texts db need o
      → order_fits texts db.products o need ≡ true
  unfolding order_fits
  taken need o s =
      rw s.at_site (suits_order need o (resolve_order_product texts db.products o) s.fits)

abbrev pub IsConsistent : List SupplyUsage → Type 0
IsConsistent usages = All (λ u. is_unresolved u.status ≡ true → u.supply_order_id ≡ none) usages

insert_usage-IsFrom :
    (u : SupplyUsage) (usages : List SupplyUsage) → IsFrom (insert_usage u usages) (u ∷ usages)
unfolding insert_usage
insert_usage-IsFrom u [] x m = m
insert_usage-IsFrom u (y ∷ usages) x m =
    inserted-In u y x usages (insert_usage u usages) (ltb y.detected_at u.detected_at)
      (insert_usage-IsFrom u usages x) m

newest_first-IsFrom : (usages : List SupplyUsage) → IsFrom (newest_first usages) usages
unfolding newest_first
newest_first-IsFrom [] x m = m
newest_first-IsFrom (u ∷ usages) x m =
    elim (In-cons (insert_usage-IsFrom u (newest_first usages) x m)) [
      | inl is_u ↦ subst (λ z. In x (z ∷ usages)) is_u here
      | inr later ↦ there (newest_first-IsFrom usages x later)
    ]

unresolved-free :
    (places : Places) (db : Db) (client : Option ℕ) (u : SupplyUsage)
    → IsConsistent db.usages
    → In u (unresolved_usages places db client)
    → u.supply_order_id ≡ none
unfolding unresolved_usages
unresolved-free places db client u h m =
    let wanted =
      λ (u : SupplyUsage). is_unresolved u.status && is_of_client places client u.site_id in
    let (known, e) =
      In-select wanted u db.usages (newest_first-IsFrom (select wanted db.usages) u m) in
    let (unresolved, _) = and-true (is_unresolved u.status) _ e in
    All-at (λ z. is_unresolved z.status ≡ true → z.supply_order_id ≡ none) h known unresolved

-- The answer, for a use that names no order.
assign_usage-answer :
    (texts : Texts) (db : Db) (u : SupplyUsage) (o : SupplyOrder) (user now : ℕ)
    → u.supply_order_id ≡ none
    → (assign_usage texts db u o user now).1 ≡ (
        (is_in_stock o.status && order_fits texts db.products o (usage_need texts u))
        && not (leb o.quantity (usage_count db.usages o.id)))
unfolding assign_usage
assign_usage-answer texts db u o user now free =
    elim (Bool-cases
      (is_in_stock o.status && order_fits texts db.products o (usage_need texts u))) [
        | inr unfit ↦ rw (free, unfit) refl
        | inl fit ↦ elim (Bool-cases (leb o.quantity (usage_count db.usages o.id))) [
          | inl empty ↦ rw (free, fit, empty) refl
          | inr stocked ↦ rw (free, fit, stocked) refl
        ]
      ]

assign_usage-true :
    (texts : Texts) (db : Db) (u : SupplyUsage) (o : SupplyOrder) (user now : ℕ)
    → In o db.orders
    → u.supply_order_id ≡ none
    → ((assign_usage texts db u o user now).1 ≡ true)
      ↔ In (stock_item db.usages o) (compatible_stock texts db (usage_need texts u))
unfolding stock_item on_hand
assign_usage-true texts db u o user now known free =
    let answer = assign_usage-answer texts db u o user now free in
    let need = usage_need texts u in
    (
      λ h.
          let (fit, stocked) =
            and-true (is_in_stock o.status && order_fits texts db.products o need) _
              (sym answer ∙ h) in
          let (arrived, fits) = and-true (is_in_stock o.status) _ fit in
          offered texts db need o known arrived fits (not-true _ stocked),
      λ m.
          let s = compatible-IsOnShelf texts db need (stock_item db.usages o) m in
          let fits = taken texts db need o s in
          let some_left : leb o.quantity (usage_count db.usages o.id) ≡ false =
            ground (arith, s.stocked) in
          answer ∙ rw (s.is_delivered, fits, some_left) refl,
    )

-- What the page offers for an unresolved use is what the assignment takes: the use has its options
-- in the page's table, and an order in the tables is accepted just where its item is among them.
-- It is supposed that no unresolved use names an order.
pub assignment_options-assign_usage :
    (texts : Texts) (places : Places) (db : Db) (client : Option ℕ) (u : SupplyUsage)
    (o : SupplyOrder) (user now : ℕ)
    → IsConsistent db.usages
    → In u (unresolved_usages places db client)
    → In o db.orders
    → (options : List StockItem) × In
        (u.supply_cycle_id, options)
        (assignment_options texts db (unresolved_usages places db client))
      × (((assign_usage texts db u o user now).1 ≡ true) ↔ In (stock_item db.usages o) options)
unfolding assignment_options
assignment_options-assign_usage texts places db client u o user now h m known = (
  compatible_stock texts db (usage_need texts u),
  mapped-In (λ u. (u.supply_cycle_id, compatible_stock texts db (usage_need texts u))) u
      (unresolved_usages places db client) m,
  assign_usage-true texts db u o user now known (unresolved-free places db client u h m),
)
