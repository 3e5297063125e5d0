-- ===== src/Stock/Tests.antt =====
-- central/supply_inventory.py: one cartridge on the shelf, and a printer that was given it.
use printer_nanny.Common.{
  In, ◌↔◌, ◌⊎◌, ℕ, String, ◌≡◌, refl, true, false, none, some, List, [], ◌∷◌, ◌++◌, map, here,
  str_eq,
}
use printer_nanny.Stock.{
  Texts, SupplyOrderStatus, SupplyUsageStatus, SupplyOrder, SupplyUsage, Printer, SupplyCycle, Db,
  usage_count, on_hand, StockItem,
}
use printer_nanny.Stock.Matching.{
  order_fits, fits_by, resolve_order_product, matches, longest, longest_of, matching_model_tag,
  product_fits, product_key,
}
use printer_nanny.Stock.Ledger.{
  reconcile_replacements, assign_usage, usage_need, is_in_stock, reconcile_all, has_usage,
  reconcile_one, usage_of, chosen_of, compatible_stock, stock_items, delivered_orders, oldest_first,
  insert_order, is_candidate, stock_item, item_fits, all_like, is_older, status_by,
}
use printer_nanny.Stock.Shelves.{shelves, Draw, Draws, reconcile_replacements-Draws}
use printer_nanny.Stock.Retried.{reconcile_replacements-again}
use printer_nanny.Stock.Assigned.{assign_usage-Draw}
use printer_nanny.Stock.Views.{
  Places, is_of_client, insert_usage, newest_first, unresolved_usages, assignment_options,
  client_stock, same_product, add_item, group_items, sum_of, summary, insert_group, sort_groups,
  stock_groups,
}
use printer_nanny.Stock.Catalogue.{
  ProductForm, is_one_of, clean_lines, clean_model_tags, validate_product, set_product_fields,
}
use printer_nanny.Stock.Cleaned.{IsListing, set_product_fields-IsListing}
use printer_nanny.Stock.Options.{assignment_options-assign_usage}
use printer_nanny.Stock.Shown.{IsInventory, stock_groups-IsInventory}

-- Texts that are compared as they are.
abbrev plain : Texts
plain = record { one_line = λ n t. t; normalized = λ t. t; is_part_of = str_eq }

abbrev laser : Printer
laser = record { id = 7; site_id = 2; model = some "M404" }

abbrev cartridge : SupplyOrder
cartridge = record {
  id = 5;
  site_id = 2;
  status = SupplyOrderStatus.delivered;
  model = "M404";
  supply_type = "toner";
  color = "black";
  description = "";
  manufacturer = "HP";
  sku = "CF259A";
  quantity = 1;
  ordered_at = 10;
  delivered_at = some 20;
}

abbrev cycle_of : ℕ → SupplyCycle
cycle_of n = record { id = n; supply_type = "toner"; color = "black"; ended_at = some 30 }

-- A use that found nothing on the shelf.
abbrev unresolved : SupplyUsage
unresolved = record {
  supply_cycle_id = 3;
  site_id = 2;
  printer_id = 7;
  supply_order_id = none;
  status = SupplyUsageStatus.no_stock;
  model = "M404";
  supply_type = "toner";
  color = "black";
  detected_at = 15;
  assigned_at = none;
  assigned_by_user_id = none;
}

abbrev stocked : Db
stocked = record { orders = cartridge ∷ []; usages = unresolved ∷ []; products = [] }

abbrev both_cycles : List SupplyCycle
both_cycles = cycle_of 8 ∷ cycle_of 9 ∷ []

-- The first cycle takes the only cartridge, the second finds none.
taken_once :
    map (λ u. u.supply_order_id) (reconcile_replacements plain laser both_cycles 40 stocked).usages
    ≡ none ∷ some 5 ∷ none ∷ []
unfolding reconcile_replacements reconcile_all has_usage reconcile_one usage_of chosen_of
    compatible_stock stock_items delivered_orders oldest_first insert_order is_candidate stock_item
    on_hand usage_count item_fits resolve_order_product all_like is_older status_by matches longest
    longest_of matching_model_tag product_fits product_key
taken_once = refl

reconcile_replacements-Draws_example :
    (new : List SupplyUsage) × ((reconcile_replacements plain laser both_cycles 40 stocked).usages
      ≡ stocked.usages ++ new)
    × ((reconcile_replacements plain laser both_cycles 40 stocked).orders ≡ stocked.orders)
    × Draws
        (shelves stocked)
        (map (λ u. u.supply_order_id) new)
        (shelves (reconcile_replacements plain laser both_cycles 40 stocked))
reconcile_replacements-Draws_example =
    reconcile_replacements-Draws plain laser both_cycles 40 stocked (tt, tt)

reconcile_replacements-again_example :
    reconcile_replacements plain laser both_cycles 60
      (reconcile_replacements plain laser both_cycles 40 stocked)
    ≡ reconcile_replacements plain laser both_cycles 40 stocked
reconcile_replacements-again_example =
    reconcile_replacements-again plain laser both_cycles 40 60 stocked

assigned : (assign_usage plain stocked unresolved cartridge 1 50).1 ≡ true
unfolding assign_usage order_fits fits_by resolve_order_product usage_count
assigned = refl

assign_usage-Draw_example :
    (assign_usage plain stocked unresolved cartridge 1 50 ≡ (stocked, false))
    ⊎ (((assign_usage plain stocked unresolved cartridge 1 50).1 ≡ true)
        × (unresolved.supply_order_id ≡ none)
        × (is_in_stock cartridge.status ≡ true)
        × (order_fits plain stocked.products cartridge (usage_need plain unresolved) ≡ true)
        × Draw
            (shelves stocked)
            (some cartridge.id)
            (shelves (assign_usage plain stocked unresolved cartridge 1 50).0))
assign_usage-Draw_example =
    assign_usage-Draw plain stocked unresolved cartridge 1 50 (tt, tt) (tt, tt) here here

-- One site, of client 1.
abbrev one_site : Places
one_site = record {
  client_id = λ site. 1;
  client_name = λ site. "Acme";
  site_name = λ site. "Main";
}

abbrev second_order : SupplyOrder
second_order = record cartridge { id = 6; quantity = 3; delivered_at = some 25 }

abbrev both_orders : Db
both_orders = record stocked { orders = cartridge ∷ second_order ∷ [] }

shown_together :
    map (λ g. g.received) (stock_groups one_site (λ t. t) plain both_orders (some 1)) ≡ 4 ∷ []
unfolding stock_groups sort_groups insert_group group_items add_item client_stock is_of_client
    same_product summary sum_of stock_item oldest_first insert_order is_older
shown_together = refl

stock_groups-IsInventory_example :
    IsInventory one_site
      (λ t. t)
      plain
      both_orders
      (some 1)
      (stock_groups one_site (λ t. t) plain both_orders (some 1))
stock_groups-IsInventory_example =
    stock_groups-IsInventory one_site (λ t. t) plain both_orders (some 1)

is_shown : In unresolved (unresolved_usages one_site stocked none)
unfolding unresolved_usages newest_first insert_usage is_of_client
is_shown = here

assignment_options-assign_usage_example :
    (options : List StockItem) × In
      (unresolved.supply_cycle_id, options)
      (assignment_options plain stocked (unresolved_usages one_site stocked none))
    × (((assign_usage plain stocked unresolved cartridge 1 50).1 ≡ true)
        ↔ In (stock_item stocked.usages cartridge) options)
assignment_options-assign_usage_example =
    assignment_options-assign_usage plain one_site stocked none unresolved cartridge 1 50
      ((λ e. refl), tt) is_shown here

-- A form whose text is one line.
abbrev filled_in : ProductForm
filled_in = record {
  manufacturer = "HP";
  sku = "CF259A";
  description = "";
  supply_type = "toner";
  color = "black";
  is_oem = true;
  notes = "";
  model_tags = "M404";
}

abbrev one_line_of : String → List String
one_line_of raw = raw ∷ []

is_accepted : validate_product plain one_line_of filled_in ≡ none
unfolding validate_product clean_model_tags clean_lines is_one_of
is_accepted = refl

set_product_fields-IsListing_example :
    IsListing plain filled_in
      (clean_model_tags plain one_line_of filled_in.model_tags)
      (set_product_fields plain one_line_of filled_in 60)
set_product_fields-IsListing_example =
    set_product_fields-IsListing plain one_line_of filled_in 60 is_accepted
