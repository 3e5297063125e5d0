-- ===== src/Stock/Views.antt =====
-- central/supply_inventory.py: `unresolved_usages`, `assignment_options` and `stock_groups`, what a
-- technician is shown. The usages stand in the order of their ids. The sites and their clients are
-- functions from a site's id, and `casefold` is an argument.
use printer_nanny.Common.{
  ℕ, ◌+◌, String, Bool, true, false, ◌&&◌, Option, none, some, List, [], ◌∷◌, ◌++◌, length, select,
  map, ltb, ◌==◌, str_eq, if◌then◌else◌,
}
use Prim.Native.Nat.{compare}
use Prim.Native.String.{compare as compare_text}
use printer_nanny.Stock.{
  at_most, Texts, SupplyUsageStatus, auto_assigned, manually_assigned, no_stock, ambiguous,
  SupplyOrder, SupplyUsage, Db, StockItem,
}
use printer_nanny.Stock.Ledger.{
  is_in_stock, oldest_first, stock_item, compatible_stock, usage_need, same_identity,
}

-- `Site.client_id`, and the names of a site and its client.
pub record Places : Type 0 where
  pub client_id : ℕ → ℕ
  pub client_name : ℕ → String
  pub site_name : ℕ → String

-- `client_id is None`, or the site's client.
unfoldable pub is_of_client : Places → Option ℕ → ℕ → Bool
is_of_client places none site = true
is_of_client places (some client) site = places.client_id site == client

abbrev pub is_unresolved : SupplyUsageStatus → Bool
is_unresolved no_stock = true
is_unresolved ambiguous = true
is_unresolved auto_assigned = false
is_unresolved manually_assigned = false

unfoldable pub insert_usage : SupplyUsage → List SupplyUsage → List SupplyUsage
insert_usage u [] = u ∷ []
insert_usage u (x ∷ usages) =
    let rest = insert_usage u usages in
    if ltb x.detected_at u.detected_at then u ∷ x ∷ usages else x ∷ rest

-- `ORDER BY detected_at DESC, id DESC`
unfoldable pub newest_first : List SupplyUsage → List SupplyUsage
newest_first [] = []
newest_first (u ∷ usages) = insert_usage u (newest_first usages)

unfoldable pub unresolved_usages : Places → Db → Option ℕ → List SupplyUsage
unresolved_usages places db client =
    newest_first
      (select (λ u. is_unresolved u.status && is_of_client places client u.site_id) db.usages)

-- `delivered_orders` and `stock_items` of a client.
unfoldable pub client_stock : Places → Db → Option ℕ → List StockItem
client_stock places db client = map (stock_item db.usages) (
    oldest_first
      (select (λ o. is_in_stock o.status && is_of_client places client o.site_id) db.orders))

pub record StockGroup : Type 0 where
  pub order : SupplyOrder
  pub received : ℕ
  pub used : ℕ
  pub on_hand : ℕ
  pub order_count : ℕ

module _ (texts : Texts) where
  unfoldable pub assignment_options : Db → List SupplyUsage → List (ℕ × List StockItem)
  assignment_options db usages =
      map (λ u. (u.supply_cycle_id, compatible_stock texts db (usage_need texts u))) usages

  -- Equal keys: `signature` and `_product_identity`.
  unfoldable pub same_product : SupplyOrder → SupplyOrder → Bool
  same_product a b =
      (a.site_id == b.site_id)
      && (str_eq (texts.normalized a.model) (texts.normalized b.model)
          && (str_eq a.supply_type b.supply_type
              && (str_eq (texts.normalized a.color) (texts.normalized b.color)
                  && same_identity texts a b)))

  -- `grouped.setdefault(key, []).append(item)`; a group is its first item and those behind it.
  unfoldable pub add_item :
      StockItem → List (StockItem × List StockItem) → List (StockItem × List StockItem)
  add_item item [] = (item, []) ∷ []
  add_item item ((first, items) ∷ groups) =
      let rest = add_item item groups in
      if same_product first.order item.order
      then (first, items ++ (item ∷ [])) ∷ groups
      else (first, items) ∷ rest

  unfoldable pub group_items :
      List StockItem → List (StockItem × List StockItem) → List (StockItem × List StockItem)
  group_items [] groups = groups
  group_items (item ∷ items) groups = group_items items (add_item item groups)

unfoldable pub sum_of : (StockItem → ℕ) → List StockItem → ℕ
sum_of f [] = 0
sum_of f (item ∷ items) = f item + sum_of f items

unfoldable pub summary : StockItem × List StockItem → StockGroup
summary (first, items) = record {
  order = first.order;
  received = sum_of (λ i. i.order.quantity) (first ∷ items);
  used = sum_of (λ i. i.used) (first ∷ items);
  on_hand = sum_of (λ i. i.left) (first ∷ items);
  order_count = length (first ∷ items);
}

module _ (places : Places) (casefold : String → String) where
  unfoldable pub is_listed_before : StockGroup → StockGroup → Bool
  is_listed_before a b =
      let text = λ (s : String) (t : String). compare_text (casefold s) (casefold t) in
      at_most (
        text (places.client_name a.order.site_id) (places.client_name b.order.site_id)
        ∷ text (places.site_name a.order.site_id) (places.site_name b.order.site_id)
        ∷ compare a.on_hand b.on_hand
        ∷ text a.order.model b.order.model
        ∷ compare_text a.order.supply_type b.order.supply_type
        ∷ text a.order.color b.order.color
        ∷ [])

  unfoldable pub insert_group : StockGroup → List StockGroup → List StockGroup
  insert_group g [] = g ∷ []
  insert_group g (x ∷ groups) =
      let rest = insert_group g groups in if is_listed_before g x then g ∷ x ∷ groups else x ∷ rest

  unfoldable pub sort_groups : List StockGroup → List StockGroup
  sort_groups [] = []
  sort_groups (g ∷ groups) = insert_group g (sort_groups groups)

  unfoldable pub stock_groups : Texts → Db → Option ℕ → List StockGroup
  stock_groups texts db client =
      sort_groups (map summary (group_items texts (client_stock places db client) []))
