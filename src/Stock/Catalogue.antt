-- ===== src/Stock/Catalogue.antt =====
-- central/supply_compatibility.py: the editing of the catalogue (`clean_model_tags`,
-- `validate_product`, `set_product_fields`) and `products_for_printer`. The lines of a form's text
-- (`replace(",", "\n").splitlines()`) and `casefold` are arguments.
use Prim.Native.Nat.{compare}
use Prim.Native.String.{count, compare as compare_text}
use printer_nanny.Common.{
  ℕ, String, Bool, true, false, not, ◌||◌, Option, none, some, List, [], ◌∷◌, select, map, ltb,
  str_eq, get_or, if◌then◌else◌,
}
use printer_nanny.Stock.{at_most, Texts, SupplyProduct, SupplyProductModel}
use printer_nanny.Stock.Matching.{Need, product_key, matching_model_tag, product_fits}

abbrev pub min_model_tag_length : ℕ
min_model_tag_length = 3

unfoldable pub is_one_of : String → List String → Bool
is_one_of t [] = false
is_one_of t (x ∷ xs) = str_eq t x || is_one_of t xs

abbrev pub valid_supply_types : List String
valid_supply_types =
    "toner" ∷ "ink" ∷ "drum" ∷ "fuser" ∷ "waste" ∷ "staples" ∷ "developer" ∷ "other" ∷ []

pub data ProductError : Type 0 where
  no_manufacturer no_sku not_a_supply_type no_model_family : ProductError

pub record ProductForm : Type 0 where
  pub manufacturer : String
  pub sku : String
  pub description : String
  pub supply_type : String
  pub color : String
  pub is_oem : Bool
  pub notes : String
  pub model_tags : String

module _ (texts : Texts) where
  -- The loop, with the keys that were seen.
  unfoldable pub clean_lines : List String → List String → List String
  clean_lines seen [] = []
  clean_lines seen (candidate ∷ candidates) =
      let tag = texts.one_line 200 candidate in
      let key = texts.normalized tag in
      elim (ltb (count key) min_model_tag_length || is_one_of key seen) [
        | true ↦ clean_lines seen candidates
        | false ↦ tag ∷ clean_lines (key ∷ seen) candidates
      ]

  abbrev pub mapping_of : String → SupplyProductModel
  mapping_of tag = record { model_tag = tag; model_key = texts.normalized tag }

abbrev pub if_no_tags : List String → Option ProductError
if_no_tags [] = some no_model_family
if_no_tags (_ ∷ _) = none

module _ (texts : Texts) (lines_of : String → List String) where
  unfoldable pub clean_model_tags : String → List String
  clean_model_tags raw = clean_lines texts [] (lines_of raw)

  unfoldable pub validate_product : ProductForm → Option ProductError
  validate_product form =
      if str_eq (texts.one_line 100 form.manufacturer) ""
      then some no_manufacturer
      else if str_eq (texts.one_line 120 form.sku) ""
      then some no_sku
      else if not (is_one_of form.supply_type valid_supply_types)
      then some not_a_supply_type
      else if_no_tags (clean_model_tags form.model_tags)

  unfoldable pub set_product_fields : ProductForm → ℕ → SupplyProduct
  set_product_fields form now =
      let manufacturer = texts.one_line 100 form.manufacturer in
      let sku = texts.one_line 120 form.sku in
      record {
        manufacturer = manufacturer;
        sku = sku;
        product_key = product_key texts manufacturer sku;
        description = texts.one_line 200 form.description;
        supply_type = form.supply_type;
        color = texts.one_line 40 form.color;
        is_oem = form.is_oem;
        notes = texts.one_line 500 form.notes;
        updated_at = now;
        model_mappings = map (mapping_of texts) (clean_model_tags form.model_tags);
      }

abbrev flag : Bool → ℕ
flag b = if b then 1 else 0

module _ (texts : Texts) (casefold : String → String) (need : Need) where
  abbrev tag_length : SupplyProduct → ℕ
  tag_length p = count (texts.normalized (get_or (matching_model_tag texts p need.model) ""))

  unfoldable pub is_ranked_before : SupplyProduct → SupplyProduct → Bool
  is_ranked_before a b = at_most (
      compare (flag (not a.is_oem)) (flag (not b.is_oem))
      ∷ compare (tag_length b) (tag_length a)
      ∷ compare_text (casefold a.manufacturer) (casefold b.manufacturer)
      ∷ compare_text (casefold a.sku) (casefold b.sku)
      ∷ [])

  unfoldable pub insert_product : SupplyProduct → List SupplyProduct → List SupplyProduct
  insert_product p [] = p ∷ []
  insert_product p (x ∷ products) =
      let rest = insert_product p products in
      if is_ranked_before p x then p ∷ x ∷ products else x ∷ rest

  unfoldable pub rank : List SupplyProduct → List SupplyProduct
  rank [] = []
  rank (p ∷ products) = insert_product p (rank products)

  unfoldable pub products_for_printer : List SupplyProduct → List SupplyProduct
  products_for_printer products = rank (select (λ p. product_fits texts p need) products)
