-- ===== src/Stock/Ledger.antt =====
-- central/supply_inventory.py: `stock_items`, `compatible_stock`, `reconcile_replacements` and
-- `assign_usage`. The cycles of one call are taken to have distinct ids: a second use of a cycle
-- breaks a unique constraint of its table.
use printer_nanny.Common.{
  ℕ, String, Bool, true, false, ◌&&◌, ◌||◌, not, Option, none, some, List, [], ◌∷◌, ◌++◌, select,
  map, ltb, leb, ◌==◌, str_eq, is_none, get_or, if◌then◌else◌,
}
use printer_nanny.Stock.{
  Texts, SupplyOrderStatus, ordered, delivered, SupplyUsageStatus, auto_assigned, manually_assigned,
  no_stock, ambiguous, SupplyOrder, SupplyUsage, SupplyProduct, Printer, SupplyCycle, Db,
  usage_count, on_hand, StockItem,
}
use printer_nanny.Stock.Matching.{Need, resolve_order_product, product_fits, order_fits}

abbrev pub is_in_stock : SupplyOrderStatus → Bool
is_in_stock delivered = true
is_in_stock ordered = false

-- `ORDER BY delivered_at NULLS FIRST, ordered_at, id`
unfoldable pub is_older : SupplyOrder → SupplyOrder → Bool
is_older a b = by_delivery a.delivered_at b.delivered_at
  where
    by_order : Bool
    by_order = ltb a.ordered_at b.ordered_at || ((a.ordered_at == b.ordered_at) && leb a.id b.id)

    by_delivery : Option ℕ → Option ℕ → Bool
    by_delivery none none = by_order
    by_delivery none (some _) = true
    by_delivery (some _) none = false
    by_delivery (some x) (some y) = ltb x y || ((x == y) && by_order)

unfoldable pub insert_order : SupplyOrder → List SupplyOrder → List SupplyOrder
insert_order o [] = o ∷ []
insert_order o (x ∷ orders) =
    let rest = insert_order o orders in if is_older o x then o ∷ x ∷ orders else x ∷ rest

unfoldable pub oldest_first : List SupplyOrder → List SupplyOrder
oldest_first [] = []
oldest_first (o ∷ orders) = insert_order o (oldest_first orders)

unfoldable pub delivered_orders : List SupplyOrder → List SupplyOrder
delivered_orders orders = oldest_first (select (λ o. is_in_stock o.status) orders)

unfoldable pub stock_item : List SupplyUsage → SupplyOrder → StockItem
stock_item usages o = record { order = o; used = usage_count usages o.id; left = on_hand usages o }

unfoldable pub stock_items : Db → List StockItem
stock_items db = map (stock_item db.usages) (delivered_orders db.orders)

module _ (texts : Texts) where
  -- `_product_identity`
  abbrev pub identity_of : SupplyOrder → String × String × String
  identity_of o =
      let sku = texts.normalized o.sku in
      (
        texts.normalized o.manufacturer,
        sku,
        if str_eq sku "" then texts.normalized o.description else "",
      )

  abbrev pub same_identity : SupplyOrder → SupplyOrder → Bool
  same_identity a b =
      let (m, s, d) = identity_of a in
      let (m', s', d') = identity_of b in str_eq m m' && (str_eq s s' && str_eq d d')

  -- Equal signatures, where the catalogue does not know the order.
  unfoldable pub item_fits : SupplyOrder → Need → Option SupplyProduct → Bool
  item_fits o need (some p) = product_fits texts p need
  item_fits o need none =
      (o.site_id == need.site_id)
      && (str_eq (texts.normalized o.model) (texts.normalized need.model)
          && (str_eq o.supply_type need.supply_type
              && str_eq (texts.normalized o.color) (texts.normalized need.color)))

  unfoldable pub is_candidate : Db → Need → StockItem → Bool
  is_candidate db need item =
      ltb 0 item.left
      && (item_fits item.order need (resolve_order_product texts db.products item.order)
          && (item.order.site_id == need.site_id))

  unfoldable pub compatible_stock : Db → Need → List StockItem
  compatible_stock db need = select (is_candidate db need) (stock_items db)

  unfoldable pub all_like : SupplyOrder → List StockItem → Bool
  all_like o [] = true
  all_like o (item ∷ items) = same_identity item.order o && all_like o items

  -- The first candidate's order, where all candidates are one product.
  unfoldable pub chosen_of : List StockItem → Option SupplyOrder
  chosen_of [] = none
  chosen_of (item ∷ items) = if all_like item.order items then some item.order else none

  unfoldable pub status_by : Option SupplyOrder → List StockItem → SupplyUsageStatus
  status_by (some _) candidates = auto_assigned
  status_by none (_ ∷ _) = ambiguous
  status_by none [] = no_stock

  abbrev pub need_of : Printer → SupplyCycle → Need
  need_of printer cycle = record {
    site_id = printer.site_id;
    model = get_or printer.model "";
    supply_type = cycle.supply_type;
    color = cycle.color;
  }

  abbrev or_unknown : String → String
  or_unknown t = if str_eq t "" then "Unknown model" else t

  unfoldable pub usage_of :
      Printer → SupplyCycle → ℕ → Option SupplyOrder → SupplyUsageStatus → SupplyUsage
  usage_of printer cycle now chosen status = record {
    supply_cycle_id = cycle.id;
    site_id = printer.site_id;
    printer_id = printer.id;
    supply_order_id = elim chosen [ none ↦ none | some o ↦ some o.id ];
    status = status;
    model = or_unknown (texts.one_line 200 (get_or printer.model ""));
    supply_type = texts.one_line 40 cycle.supply_type;
    color = texts.one_line 40 cycle.color;
    detected_at = get_or cycle.ended_at now;
    assigned_at = elim chosen [ none ↦ none | some o ↦ some now ];
    assigned_by_user_id = none;
  }

  -- One cycle of the loop that has no usage yet; the flush makes it count for the next one.
  unfoldable pub reconcile_one : Printer → ℕ → Db → SupplyCycle → Db
  reconcile_one printer now db cycle =
      let candidates = compatible_stock db (need_of printer cycle) in
      let chosen = chosen_of candidates in
      record db {
        usages =
            db.usages ++ (usage_of printer cycle now chosen (status_by chosen candidates) ∷ []);
      }

  unfoldable pub has_usage : ℕ → List SupplyUsage → Bool
  has_usage cycle [] = false
  has_usage cycle (u ∷ usages) = (u.supply_cycle_id == cycle) || has_usage cycle usages

  -- The loop, with the usages that were there before it.
  unfoldable pub reconcile_all : Printer → ℕ → List SupplyUsage → Db → List SupplyCycle → Db
  reconcile_all printer now existing db [] = db
  reconcile_all printer now existing db (cycle ∷ cycles) =
      reconcile_all printer now existing
        (if has_usage cycle.id existing then db else reconcile_one printer now db cycle) cycles

  unfoldable pub reconcile_replacements : Printer → List SupplyCycle → ℕ → Db → Db
  reconcile_replacements printer cycles now db = reconcile_all printer now db.usages db cycles

  abbrev pub usage_need : SupplyUsage → Need
  usage_need u = record {
    site_id = u.site_id;
    model = u.model;
    supply_type = u.supply_type;
    color = u.color;
  }

  unfoldable pub put_usage : SupplyUsage → List SupplyUsage → List SupplyUsage
  put_usage u [] = []
  put_usage u (x ∷ usages) =
      let rest = put_usage u usages in
      if x.supply_cycle_id == u.supply_cycle_id then u ∷ usages else x ∷ rest

  unfoldable pub assign_usage : Db → SupplyUsage → SupplyOrder → ℕ → ℕ → Db × Bool
  assign_usage db usage order user_id now =
      if not (is_none usage.supply_order_id)
      then (db, false)
      else if not
          (is_in_stock order.status && order_fits texts db.products order (usage_need usage))
      then (db, false)
      else if leb order.quantity (usage_count db.usages order.id)
      then (db, false)
      else (
        record db {
          usages =
              put_usage
                (record usage {
                  supply_order_id = some order.id;
                  status = manually_assigned;
                  assigned_at = some now;
                  assigned_by_user_id = some user_id;
                })
                db.usages;
        },
        true,
      )
