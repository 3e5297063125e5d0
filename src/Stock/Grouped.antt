-- ===== src/Stock/Grouped.antt =====
-- central/supply_inventory.py: the table of `stock_groups` while it is filled, one item at a time.
use mathlib.Core.Path.{subst}
use printer_nanny.Common.{
  ℕ, ◌≡◌, ◌≢◌, refl, sym, ap, ◌∙◌, inl, inr, String, Bool, true, false, ◌&&◌, List, [], ◌∷◌, ◌++◌,
  select, select-append, All, Any, and-true, false-ne-true, str_eq, eq_iff, eq_refl, ◌==◌, ==-refl,
  Bool-cases, arith,
}
use mathlib.Core.List.{append-nil}
use printer_nanny.Stock.{Texts, SupplyOrder, StockItem}
use printer_nanny.Stock.Ledger.{identity_of}
use printer_nanny.Stock.Views.{same_product, add_item}

==-true : (a b : ℕ) → (a == b) ≡ true → a ≡ b
==-true a b h = ground arith

-- What makes two orders one product at one place.
abbrev pub Key : Type 0
Key = ℕ × String × String × String × String × String × String

abbrev pub equal : Key → Key → Bool
equal (a, b, c, d, e, f, g) (a', b', c', d', e', f', g') =
    (a == a')
    && (str_eq b b'
        && (str_eq c c' && (str_eq d d' && (str_eq e e' && (str_eq f f' && str_eq g g')))))

pub equal_refl : (k : Key) → equal k k ≡ true
equal_refl (a, b, c, d, e, f, g) =
    rw (==-refl a, eq_refl b, eq_refl c, eq_refl d, eq_refl e, eq_refl f, eq_refl g) refl

module _ (texts : Texts) where
  abbrev pub key_of : SupplyOrder → Key
  key_of o =
      let (manufacturer, sku, description) = identity_of texts o in
      (
        o.site_id,
        texts.normalized o.model,
        o.supply_type,
        texts.normalized o.color,
        manufacturer,
        sku,
        description,
      )

  pub same_product-key : (a b : SupplyOrder) → same_product texts a b ≡ true → key_of a ≡ key_of b
  unfolding same_product
  same_product-key a b h =
      let (site, r1) = and-true (a.site_id == b.site_id) _ h in
      let (model, r2) =
        and-true (str_eq (texts.normalized a.model) (texts.normalized b.model)) _ r1 in
      let (type, r3) = and-true (str_eq a.supply_type b.supply_type) _ r2 in
      let (color, r4) =
        and-true (str_eq (texts.normalized a.color) (texts.normalized b.color)) _ r3 in
      let (m, s, d) = identity_of texts a in
      let (m', s', d') = identity_of texts b in
      let (maker, r5) = and-true (str_eq m m') _ r4 in
      let (sku, description) = and-true (str_eq s s') _ r5 in
      let site_e = ==-true a.site_id b.site_id site in
      let model_e = (eq_iff (texts.normalized a.model) (texts.normalized b.model)).0 model in
      let type_e = (eq_iff a.supply_type b.supply_type).0 type in
      let color_e = (eq_iff (texts.normalized a.color) (texts.normalized b.color)).0 color in
      let maker_e = (eq_iff m m').0 maker in
      let sku_e = (eq_iff s s').0 sku in
      let description_e = (eq_iff d d').0 description in
      λ i. (site_e i, model_e i, type_e i, color_e i, maker_e i, sku_e i, description_e i)

  pub key-same_product : (a b : SupplyOrder) → key_of a ≡ key_of b → same_product texts a b ≡ true
  unfolding same_product
  key-same_product a b e = subst (λ k. equal (key_of a) k ≡ true) e (equal_refl (key_of a))

  abbrev pub group_key : StockItem × List StockItem → Key
  group_key g = key_of g.0.order

  -- A group holds the items of its key among the ones that were seen, in their order.
  abbrev pub Holds : List StockItem → StockItem × List StockItem → Type 0
  Holds seen g = g.0 ∷ g.1 ≡ select (λ i. same_product texts g.0.order i.order) seen

  abbrev pub HasDistinctKeys : List (StockItem × List StockItem) → Type 0
  HasDistinctKeys [] = Unit
  HasDistinctKeys (g ∷ groups) =
      All (λ h. group_key h ≢ group_key g) groups × HasDistinctKeys groups

  add_item-All :
      (P : Key → Type 0) (item : StockItem) (groups : List (StockItem × List StockItem))
      → P (key_of item.order)
      → All (λ g. P (group_key g)) groups
      → All (λ g. P (group_key g)) (add_item texts item groups)
  unfolding add_item
  add_item-All P item [] p h = (p, tt)
  add_item-All P item ((first, items) ∷ groups) p h =
      let ih = add_item-All P item groups p h.1 in
      elim (Bool-cases (same_product texts first.order item.order)) [
        | inl same ↦ rw same h
        | inr new ↦ rw new (h.0, ih)
      ]

  pub add_item-Any :
      (P : Key → Type 0) (item : StockItem) (groups : List (StockItem × List StockItem))
      → Any (λ g. P (group_key g)) groups
      → Any (λ g. P (group_key g)) (add_item texts item groups)
  unfolding add_item
  add_item-Any P item [] h = absurd h
  add_item-Any P item ((first, items) ∷ groups) h =
      elim (Bool-cases (same_product texts first.order item.order)) [
        | inl same ↦ rw same h
        | inr new ↦
            rw new
              (elim h [ inl now ↦ inl now | inr later ↦ inr (add_item-Any P item groups later) ])
      ]

  pub add_item-own :
      (item : StockItem) (groups : List (StockItem × List StockItem))
      → Any (λ g. group_key g ≡ key_of item.order) (add_item texts item groups)
  unfolding add_item
  add_item-own item [] = inl refl
  add_item-own item ((first, items) ∷ groups) =
      elim (Bool-cases (same_product texts first.order item.order)) [
        | inl same ↦ rw same (inl (same_product-key first.order item.order same))
        | inr new ↦ rw new (inr (add_item-own item groups))
      ]

  pub add_item-HasDistinctKeys :
      (item : StockItem) (groups : List (StockItem × List StockItem))
      → HasDistinctKeys groups
      → HasDistinctKeys (add_item texts item groups)
  unfolding add_item
  add_item-HasDistinctKeys item [] h = (tt, tt)
  add_item-HasDistinctKeys item ((first, items) ∷ groups) h =
      elim (Bool-cases (same_product texts first.order item.order)) [
        | inl same ↦ rw same h
        | inr new ↦
            let other : key_of item.order ≢ key_of first.order =
              λ e. false-ne-true (sym new ∙ key-same_product first.order item.order (sym e)) in
            rw new (
              add_item-All (λ k. k ≢ key_of first.order) item groups other h.0,
              add_item-HasDistinctKeys item groups h.1,
            )
      ]

  different : (a b : SupplyOrder) → key_of a ≢ key_of b → same_product texts a b ≡ false
  different a b n = elim (Bool-cases (same_product texts a b)) [
    | inl same ↦ absurd (n (same_product-key a b same))
    | inr new ↦ new
  ]

  one_more :
      (o : SupplyOrder) (seen : List StockItem) (item : StockItem)
      → same_product texts o item.order ≡ true
      → select (λ i. same_product texts o i.order) (seen ++ (item ∷ []))
        ≡ select (λ i. same_product texts o i.order) seen ++ (item ∷ [])
  one_more o seen item same =
      select-append (λ i. same_product texts o i.order) seen (item ∷ []) ∙ rw same refl

  no_more :
      (o : SupplyOrder) (seen : List StockItem) (item : StockItem)
      → same_product texts o item.order ≡ false
      → select (λ i. same_product texts o i.order) (seen ++ (item ∷ []))
        ≡ select (λ i. same_product texts o i.order) seen
  no_more o seen item new =
      select-append (λ i. same_product texts o i.order) seen (item ∷ [])
      ∙ rw new (append-nil (select (λ i. same_product texts o i.order) seen))

  held_on :
      (seen : List StockItem) (item : StockItem) (groups : List (StockItem × List StockItem))
      → All (λ g. group_key g ≢ key_of item.order) groups
      → All (Holds seen) groups
      → All (Holds (seen ++ (item ∷ []))) groups
  held_on seen item [] n h = tt
  held_on seen item (g ∷ groups) n h = (
    h.0 ∙ sym (no_more g.0.order seen item (different g.0.order item.order n.0)),
    held_on seen item groups n.1 h.1,
  )

  pub add_item-Holds :
      (seen : List StockItem) (item : StockItem) (groups : List (StockItem × List StockItem))
      → (All (λ g. group_key g ≢ key_of item.order) groups
          → select (λ i. same_product texts item.order i.order) seen ≡ [])
      → HasDistinctKeys groups
      → All (Holds seen) groups
      → All (Holds (seen ++ (item ∷ []))) (add_item texts item groups)
  unfolding add_item
  add_item-Holds seen item [] none_seen distinct h = (
    ap (λ l. l ++ (item ∷ [])) (sym (none_seen tt))
        ∙ sym (one_more item.order seen item (key-same_product item.order item.order refl)),
    tt,
  )
  add_item-Holds seen item ((first, items) ∷ groups) none_seen distinct h =
      elim (Bool-cases (same_product texts first.order item.order)) [
        | inl same ↦
            let key = same_product-key first.order item.order same in
            let others : All (λ g. group_key g ≢ key_of item.order) groups =
              subst (λ k. All (λ g. group_key g ≢ k) groups) key distinct.0 in
            rw same (
              ap (λ l. l ++ (item ∷ [])) h.0 ∙ sym (one_more first.order seen item same),
              held_on seen item groups others h.1,
            )
        | inr new ↦
            let other : key_of first.order ≢ key_of item.order =
              λ e. false-ne-true (sym new ∙ key-same_product first.order item.order e) in
            rw new (
              h.0 ∙ sym (no_more first.order seen item new),
              add_item-Holds seen item groups (λ n. none_seen (other, n)) distinct.1 h.1,
            )
      ]
