-- ===== src/Stock.antt =====
-- central/supply_inventory.py: the cartridges on a location's shelves, as orders that were
-- delivered and uses that were taken from them. What a text becomes when it is compared
-- (supply_orders.py: `one_line`, `normalized`) and Python's substring test are the argument
-- `Texts`.
mod Assigned
mod Catalogue
mod Cleaned
mod Counted
mod Draws
mod Grouped
mod Inventory
mod Groups
mod Ledger
mod Matching
mod Options
mod Consistent
mod Retried
mod Shelves
mod Shown
mod Tests
mod Views
use Prim.Native.Nat.{Ordering}
use printer_nanny.Common.{
  ℕ, suc, ◌+◌, ◌-◌, String, Bool, true, false, ◌&&◌, Option, none, some, List, [], ◌∷◌, ltb,
  if◌then◌else◌, is_some_of, str_eq,
}

-- Is a tuple at most another one, by the comparisons of their parts?
abbrev pub at_most : List Ordering → Bool
at_most [] = true
at_most (Ordering.lt ∷ parts) = true
at_most (Ordering.eq ∷ parts) = at_most parts
at_most (Ordering.gt ∷ parts) = false

pub record Texts : Type 0 where
  pub one_line : ℕ → String → String
  pub normalized : String → String
  pub is_part_of : String → String → Bool

pub data SupplyOrderStatus : Type 0 where
  ordered delivered : SupplyOrderStatus

pub data SupplyUsageStatus : Type 0 where
  auto_assigned manually_assigned no_stock ambiguous : SupplyUsageStatus

pub record SupplyOrder : Type 0 where
  pub id : ℕ
  pub site_id : ℕ
  pub status : SupplyOrderStatus
  pub model : String
  pub supply_type : String
  pub color : String
  pub description : String
  pub manufacturer : String
  pub sku : String
  pub quantity : ℕ
  pub ordered_at : ℕ
  pub delivered_at : Option ℕ

pub record SupplyUsage : Type 0 where
  pub supply_cycle_id : ℕ
  pub site_id : ℕ
  pub printer_id : ℕ
  pub supply_order_id : Option ℕ
  pub status : SupplyUsageStatus
  pub model : String
  pub supply_type : String
  pub color : String
  pub detected_at : ℕ
  pub assigned_at : Option ℕ
  pub assigned_by_user_id : Option ℕ

pub record SupplyProductModel : Type 0 where
  pub model_tag : String
  pub model_key : String

pub record SupplyProduct : Type 0 where
  pub manufacturer : String
  pub sku : String
  pub product_key : String
  pub description : String
  pub supply_type : String
  pub color : String
  pub is_oem : Bool
  pub notes : String
  pub updated_at : ℕ
  pub model_mappings : List SupplyProductModel

pub record Printer : Type 0 where
  pub id : ℕ
  pub site_id : ℕ
  pub model : Option String

-- A cartridge that was closed, which a replacement shows.
pub record SupplyCycle : Type 0 where
  pub id : ℕ
  pub supply_type : String
  pub color : String
  pub ended_at : Option ℕ

-- The tables; a usage is named by its cycle, which is unique.
pub record Db : Type 0 where
  pub orders : List SupplyOrder
  pub usages : List SupplyUsage
  pub products : List SupplyProduct

-- `_usage_counts`, for one order.
unfoldable pub usage_count : List SupplyUsage → ℕ → ℕ
usage_count [] order = 0
usage_count (u ∷ usages) order =
    (if is_some_of u.supply_order_id order then 1 else 0) + usage_count usages order

-- `StockItem.on_hand`, where the subtraction of the code is bounded by `max(0, …)`.
unfoldable pub on_hand : List SupplyUsage → SupplyOrder → ℕ
on_hand usages o = o.quantity - usage_count usages o.id

pub record StockItem : Type 0 where
  pub order : SupplyOrder
  pub used : ℕ
  pub left : ℕ
