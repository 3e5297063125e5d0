-- ===== src/Stock/Matching.antt =====
-- central/supply_compatibility.py: does a product, or an order, fit a printer's supply?
use printer_nanny.Common.{
  ℕ, String, Bool, ◌&&◌, Option, none, some, List, [], ◌∷◌, select, str_eq, ◌==◌, not, ltb, is_none,
  if◌then◌else◌,
}
use Prim.Native.String.{◌++◌ as append, count}
use printer_nanny.Stock.{Texts, SupplyOrder, SupplyProductModel, SupplyProduct}

-- What a printer's supply asks for.
pub record Need : Type 0 where
  pub site_id : ℕ
  pub model : String
  pub supply_type : String
  pub color : String

-- The only element, if there is one only.
abbrev pub only {ℓ} : {A : Type ℓ} → List A → Option A
only [] = none
only (x ∷ []) = some x
only (x ∷ y ∷ xs) = none

module _ (texts : Texts) where
  unfoldable pub product_key : String → String → String
  product_key manufacturer sku =
      append (texts.normalized manufacturer) (append "|" (texts.normalized sku))

  unfoldable pub resolve_order_product : List SupplyProduct → SupplyOrder → Option SupplyProduct
  resolve_order_product products order =
      let sku = texts.normalized order.sku in
      let manufacturer = texts.normalized order.manufacturer in
      if str_eq sku ""
      then none
      else if str_eq manufacturer ""
      then only (select (λ p. str_eq (texts.normalized p.sku) sku) products)
      else only (select (λ p. str_eq p.product_key (product_key manufacturer sku)) products)

  -- The tags whose keys are in the model.
  unfoldable pub matches : String → List SupplyProductModel → List String
  matches model_key [] = []
  matches model_key (mapping ∷ mappings) =
      let rest = matches model_key mappings in
      if not (str_eq mapping.model_key "") && texts.is_part_of mapping.model_key model_key
      then mapping.model_tag ∷ rest
      else rest

  -- `max(matches, key=…)` keeps the first of the longest.
  unfoldable pub longest : String → List String → String
  longest best [] = best
  longest best (tag ∷ tags) =
      longest
        (if ltb (count (texts.normalized best)) (count (texts.normalized tag)) then tag else best)
        tags

  unfoldable pub longest_of : List String → Option String
  longest_of [] = none
  longest_of (tag ∷ tags) = some (longest tag tags)

  unfoldable pub matching_model_tag : SupplyProduct → String → Option String
  matching_model_tag p model = longest_of (matches (texts.normalized model) p.model_mappings)

  unfoldable pub product_fits : SupplyProduct → Need → Bool
  product_fits p need =
      str_eq p.supply_type need.supply_type
      && (str_eq (texts.normalized p.color) (texts.normalized need.color)
          && not (is_none (matching_model_tag p need.model)))

  -- By the catalogue, else by the exact model.
  unfoldable pub fits_by : SupplyOrder → Need → Option SupplyProduct → Bool
  fits_by order need (some p) = product_fits p need
  fits_by order need none =
      str_eq (texts.normalized order.model) (texts.normalized need.model)
      && (str_eq order.supply_type need.supply_type
          && str_eq (texts.normalized order.color) (texts.normalized need.color))

  unfoldable pub order_fits : List SupplyProduct → SupplyOrder → Need → Bool
  order_fits products order need =
      (order.site_id == need.site_id) && fits_by order need (resolve_order_product products order)
