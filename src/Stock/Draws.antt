-- ===== src/Stock/Draws.antt =====
-- central/supply_inventory.py: what an automatic choice and a use do to the counts.
use printer_nanny.Common.{
  ℕ, ◌+◌, ◌<◌, ◌≡◌, refl, sym, ◌⊎◌, inl, inr, true, some, List, [], ◌∷◌, ◌++◌, select, In, here,
  there, In-cons, In-select, In-map, IsFrom, and-true, ltb, ltb→lt, ◌==◌, is_some_of, if◌then◌else◌,
  some-injective, none-ne-some, if-cases, Bool-cases, arith,
}
use mathlib.Core.Path.{subst}
use printer_nanny.Stock.{Texts, SupplyOrder, SupplyUsage, Db, StockItem, usage_count, on_hand}
use printer_nanny.Stock.Matching.{Need, resolve_order_product}
use printer_nanny.Stock.Ledger.{
  is_in_stock, is_older, insert_order, oldest_first, delivered_orders, stock_item, stock_items,
  same_identity, item_fits, is_candidate, compatible_stock, all_like, chosen_of,
}

pub usage_count-append :
    (usages : List SupplyUsage) (u : SupplyUsage) (order : ℕ)
    → usage_count (usages ++ (u ∷ [])) order
      ≡ usage_count usages order + (if is_some_of u.supply_order_id order then 1 else 0)
unfolding usage_count
usage_count-append [] u order = omega arith
usage_count-append (x ∷ usages) u order = omega (arith, usage_count-append usages u order)

insert_order-IsFrom :
    (o : SupplyOrder) (orders : List SupplyOrder) → IsFrom (insert_order o orders) (o ∷ orders)
unfolding insert_order
insert_order-IsFrom o [] x m = m
insert_order-IsFrom o (y ∷ orders) x m =
    let ih = insert_order-IsFrom o orders x in
    elim (Bool-cases (is_older o y)) [
      | inl older ↦ subst (λ l. In x l) (rw older refl) m
      | inr younger ↦ elim (In-cons (subst (λ l. In x l) (rw younger refl) m)) [
        | inl is_y ↦ subst (λ z. In x (o ∷ z ∷ orders)) is_y (there here)
        | inr later ↦ elim (In-cons (ih later)) [
          | inl is_o ↦ subst (λ z. In x (z ∷ y ∷ orders)) is_o here
          | inr deep ↦ there (there deep)
        ]
      ]
    ]

pub oldest_first-IsFrom : (orders : List SupplyOrder) → IsFrom (oldest_first orders) orders
unfolding oldest_first
oldest_first-IsFrom [] x m = m
oldest_first-IsFrom (o ∷ orders) x m =
    elim (In-cons (insert_order-IsFrom o (oldest_first orders) x m)) [
      | inl is_o ↦ subst (λ z. In x (z ∷ orders)) is_o here
      | inr later ↦ there (oldest_first-IsFrom orders x later)
    ]

like :
    (texts : Texts) (o : SupplyOrder) (items : List StockItem) (x : StockItem)
    → all_like texts o items ≡ true
    → In x items
    → same_identity texts x.order o ≡ true
unfolding all_like
like texts o [] x h m = elim m [ ]
like texts o (item ∷ items) x h m =
    let (first, rest) = and-true (same_identity texts item.order o) (all_like texts o items) h in
    let ih = like texts o items x rest in
    elim (In-cons m) [
      | inl is_item ↦ subst (λ z. same_identity texts z.order o ≡ true) (sym is_item) first
      | inr later ↦ ih later
    ]

-- What an item of the compatible stock is.
pub record IsOnShelf (texts : Texts) (db : Db) (need : Need) (o : SupplyOrder) : Type 0 where
  pub known : In o db.orders
  pub is_delivered : is_in_stock o.status ≡ true
  pub stocked : 0 < on_hand db.usages o
  pub fits : item_fits texts o need (resolve_order_product texts db.products o) ≡ true
  pub at_site : (o.site_id == need.site_id) ≡ true

module _ (texts : Texts) (db : Db) (need : Need) where
  pub compatible-IsOnShelf :
      (item : StockItem)
      → In item (compatible_stock texts db need)
      → IsOnShelf texts db need item.order
  unfolding compatible_stock stock_items delivered_orders is_candidate stock_item
  compatible-IsOnShelf item m =
      let (listed, accepted) = In-select (is_candidate texts db need) item (stock_items db) m in
      let (o, stands, e) = In-map (stock_item db.usages) item (delivered_orders db.orders) listed in
      let (known, arrived) =
        In-select (λ o. is_in_stock o.status) o db.orders
          (oldest_first-IsFrom (select (λ o. is_in_stock o.status) db.orders) o stands) in
      let accepted_o : is_candidate texts db need (stock_item db.usages o) ≡ true =
        subst (λ z. is_candidate texts db need z ≡ true) e accepted in
      let (left, rest) = and-true (ltb 0 (on_hand db.usages o)) _ accepted_o in
      let (suits, here_too) =
        and-true (item_fits texts o need (resolve_order_product texts db.products o)) _ rest in
      subst (λ z. IsOnShelf texts db need z.order) (sym e)
        (record {
          known = known;
          is_delivered = arrived;
          stocked = ltb→lt 0 (on_hand db.usages o) left;
          fits = suits;
          at_site = here_too;
        })

  -- The chosen order heads a list of candidates that are one product.
  pub chosen_lem :
      (items : List StockItem) (o : SupplyOrder)
      → chosen_of texts items ≡ some o
      → (item : StockItem) × In item items
        × (item.order ≡ o)
        × ((x : StockItem) → In x items → (x ≡ item) ⊎ (same_identity texts x.order o ≡ true))
  unfolding chosen_of
  chosen_lem [] o h = absurd (none-ne-some h)
  chosen_lem (item ∷ items) o h = elim (if-cases (all_like texts item.order items) h) [
    | inl (alike, e) ↦
        let is_o = some-injective e in
        (
          item,
          here,
          is_o,
          (λ x m. elim (In-cons m) [
            | inl is_item ↦ inl is_item
            | inr later ↦ inr (
                subst (λ z. same_identity texts x.order z ≡ true) is_o
                  (like texts item.order items x alike later))
          ]),
        )
    | inr (_, e) ↦ absurd (none-ne-some e)
  ]
