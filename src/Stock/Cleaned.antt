-- ===== src/Stock/Cleaned.antt =====
-- central/supply_compatibility.py: what a product says of the printers that it fits, once a form
-- was accepted and its fields were set.
use mathlib.Core.Path.{subst}
use Prim.Native.String.{count}
use printer_nanny.Common.{
  ℕ, ◌≡◌, ◌≢◌, ◌≤◌, ◌↔◌, refl, sym, ap, ◌∙◌, inl, inr, String, Bool, true, false, not, ◌||◌, none,
  List, [], ◌∷◌, map, All, All-map, Any, and-true, not-true, if-cases, Bool-cases, false-ne-true,
  str_eq, eq_iff, is_none, ltb, arith, none-ne-some,
}
use printer_nanny.Stock.{Texts, SupplyProduct, SupplyProductModel}
use printer_nanny.Stock.Matching.{Need, matches, longest_of, matching_model_tag, product_fits}
use printer_nanny.Stock.Catalogue.{
  ProductForm, valid_supply_types, if_no_tags, is_one_of, clean_lines, clean_model_tags,
  validate_product, mapping_of, set_product_fields,
}

or-false : (a b : Bool) → (a || b) ≡ false → (a ≡ false) × (b ≡ false)
or-false true b h = absurd (false-ne-true (sym h))
or-false false b h = (refl, h)

unequal : (a b : String) → str_eq a b ≡ false → a ≢ b
unequal a b h e = false-ne-true (sym h ∙ (eq_iff a b).1 e)

count-empty : (t : String) → 3 ≤ count t → str_eq t "" ≡ false
count-empty t h = elim (Bool-cases (str_eq t "")) [
  | inr other ↦ other
  | inl same ↦ let none_left = ap count ((eq_iff t "").0 same) in ground (arith, h, none_left)
]

module _ (texts : Texts) where
  -- The keys of the tags have three characters or more, and no two are the same.
  abbrev pub AreClean : List String → Type 0
  AreClean [] = Unit
  AreClean (tag ∷ tags) =
      (3 ≤ count (texts.normalized tag))
      × All (λ t. texts.normalized t ≢ texts.normalized tag) tags
      × AreClean tags

  -- What the loop does with a line, by its test.
  line_dropped :
      (seen : List String) (line : String) (lines : List String)
      → (ltb (count (texts.normalized (texts.one_line 200 line))) 3
          || is_one_of (texts.normalized (texts.one_line 200 line)) seen)
        ≡ true
      → clean_lines texts seen (line ∷ lines) ≡ clean_lines texts seen lines
  unfolding clean_lines
  line_dropped seen line lines h = rw (h, clean_lines) refl

  line_kept :
      (seen : List String) (line : String) (lines : List String)
      → (ltb (count (texts.normalized (texts.one_line 200 line))) 3
          || is_one_of (texts.normalized (texts.one_line 200 line)) seen)
        ≡ false
      → clean_lines texts seen (line ∷ lines)
        ≡ texts.one_line 200 line
          ∷ clean_lines texts (texts.normalized (texts.one_line 200 line) ∷ seen) lines
  unfolding clean_lines
  line_kept seen line lines h = rw (h, clean_lines) refl

  abbrev AreNew : List String → List String → Type 0
  AreNew seen tags = AreClean tags × All (λ t. is_one_of (texts.normalized t) seen ≡ false) tags

  clean_lines-AreNew : (lines seen : List String) → AreNew seen (clean_lines texts seen lines)
  unfolding is_one_of clean_lines
  clean_lines-AreNew [] seen = (tt, tt)
  clean_lines-AreNew (line ∷ lines) seen =
      let tag = texts.one_line 200 line in
      let key = texts.normalized tag in
      let tags = clean_lines texts (key ∷ seen) lines in
      elim (Bool-cases (ltb (count key) 3 || is_one_of key seen)) [
        | inl dropped ↦
            subst (AreNew seen) (sym (line_dropped seen line lines dropped))
              (clean_lines-AreNew lines seen)
        | inr kept ↦
            let (long, unseen) = or-false (ltb (count key) 3) (is_one_of key seen) kept in
            let (clean, others) = clean_lines-AreNew lines (key ∷ seen) in
            let in_both : (t : String)
                → is_one_of (texts.normalized t) (key ∷ seen) ≡ false
                → (str_eq (texts.normalized t) key ≡ false)
                  × (is_one_of (texts.normalized t) seen ≡ false) =
              λ t h. or-false (str_eq (texts.normalized t) key) _ h in
            let long_enough : 3 ≤ count key = ground (arith, long) in
            subst (AreNew seen) (sym (line_kept seen line lines kept)) (
              (
                long_enough,
                All-map (λ t. is_one_of (texts.normalized t) (key ∷ seen) ≡ false)
                    (λ t. texts.normalized t ≢ key) tags
                    (λ t h. unequal (texts.normalized t) key (in_both t h).0) others,
                clean,
              ),
              (
                unseen,
                All-map (λ t. is_one_of (texts.normalized t) (key ∷ seen) ≡ false)
                    (λ t. is_one_of (texts.normalized t) seen ≡ false) tags (λ t h. (in_both t h).1)
                    others,
              ),
            )
      ]

  -- Does the model contain the key of a tag?
  abbrev pub Covers : String → List String → Type 0
  Covers model tags =
      Any (λ tag. texts.is_part_of (texts.normalized tag) (texts.normalized model) ≡ true) tags

  longest_of-some :
      (tag : String) (tags : List String) → is_none (longest_of texts (tag ∷ tags)) ≡ false
  unfolding longest_of
  longest_of-some tag tags = refl

  tag_found :
      (model : String) (tags : List String)
      → AreClean tags
      → Covers model tags
      → is_none
          (longest_of texts (matches texts (texts.normalized model) (map (mapping_of texts) tags)))
        ≡ false
  unfolding matches
  tag_found model [] clean covered = absurd covered
  tag_found model (tag ∷ tags) clean covered =
      let key = texts.normalized tag in
      let filled = count-empty key clean.0 in
      elim (Bool-cases (texts.is_part_of key (texts.normalized model))) [
        | inl part ↦ rw (filled, part) (longest_of-some tag _)
        | inr apart ↦
            rw (filled, apart)
              (tag_found model tags clean.2 (elim covered [
                | inl now ↦ absurd (false-ne-true (sym apart ∙ now))
                | inr later ↦ later
              ]))
      ]

  key_apart :
      (model : String) (tag : String) (mappings : List SupplyProductModel)
      → texts.is_part_of (texts.normalized tag) model ≡ false
      → matches texts model (mapping_of texts tag ∷ mappings) ≡ matches texts model mappings
  unfolding matches
  key_apart model tag mappings h = elim (Bool-cases (str_eq (texts.normalized tag) "")) [
    | inl blank ↦ rw blank refl
    | inr filled ↦ rw (filled, h) refl
  ]

  found_tag :
      (model : String) (tags : List String)
      → is_none
          (longest_of texts (matches texts (texts.normalized model) (map (mapping_of texts) tags)))
        ≡ false
      → Covers model tags
  unfolding matches longest_of
  found_tag model [] h = absurd (false-ne-true (sym h))
  found_tag model (tag ∷ tags) h =
      let key = texts.normalized tag in
      elim (Bool-cases (texts.is_part_of key (texts.normalized model))) [
        | inl part ↦ inl part
        | inr apart ↦ inr (
            found_tag model tags (
              subst (λ l. is_none (longest_of texts l) ≡ false)
                (key_apart (texts.normalized model) tag (map (mapping_of texts) tags) apart) h))
      ]

-- What an accepted form makes of a product.
pub record IsListing (texts : Texts) (form : ProductForm) (tags : List String) (p : SupplyProduct)
    : Type 0 where
  pub nonempty : tags ≢ []
  pub clean : AreClean texts tags
  pub fits :
      (need : Need)
      → need.supply_type ≡ form.supply_type
      → texts.normalized need.color ≡ texts.normalized p.color
      → (product_fits texts p need ≡ true) ↔ Covers texts need.model tags

module _ (texts : Texts) (lines_of : String → List String) (form : ProductForm) (now : ℕ) where
  tags-nonempty :
      validate_product texts lines_of form ≡ none
      → clean_model_tags texts lines_of form.model_tags ≢ []
  unfolding validate_product
  tags-nonempty h e = elim (if-cases (str_eq (texts.one_line 100 form.manufacturer) "") h) [
    | inl (_, f) ↦ none-ne-some (sym f)
    | inr (_, f) ↦ elim (if-cases (str_eq (texts.one_line 120 form.sku) "") f) [
      | inl (_, g) ↦ none-ne-some (sym g)
      | inr (_, g) ↦ elim (if-cases (not (is_one_of form.supply_type valid_supply_types)) g) [
        | inl (_, k) ↦ none-ne-some (sym k)
        | inr (_, k) ↦ none-ne-some (sym k ∙ ap if_no_tags e)
      ]
    ]
  ]

  -- A form that `validate_product` accepts lists some model families, whose keys are distinct and
  -- of three characters or more; and the product that `set_product_fields` makes of it fits a
  -- supply of its type and colour just where the printer's model contains the key of one of them.
  pub set_product_fields-IsListing :
      validate_product texts lines_of form ≡ none
      → IsListing texts form
          (clean_model_tags texts lines_of form.model_tags)
          (set_product_fields texts lines_of form now)
  unfolding clean_model_tags set_product_fields product_fits matching_model_tag
  set_product_fields-IsListing h =
      let (clean, _) = clean_lines-AreNew texts (lines_of form.model_tags) [] in
      let tags = clean_lines texts [] (lines_of form.model_tags) in
      record {
        nonempty = tags-nonempty h;
        clean = clean;
        fits = λ need type color. (
          λ h.
              let (_, rest) = and-true (str_eq form.supply_type need.supply_type) _ h in
              let (_, found) = and-true (str_eq _ (texts.normalized need.color)) _ rest in
              found_tag texts need.model tags (not-true _ found),
          λ covered.
              let same_type = (eq_iff form.supply_type need.supply_type).1 (sym type) in
              let same_color =
                (eq_iff (texts.normalized (texts.one_line 40 form.color))
                    (texts.normalized need.color)).1
                  (sym color) in
              rw (same_type, same_color, tag_found texts need.model tags clean covered) refl,
        );
      }
