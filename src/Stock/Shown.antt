-- ===== src/Stock/Shown.antt =====
-- central/supply_inventory.py: the groups of `stock_groups`, in the order in which they are shown.
use mathlib.Core.Path.{subst}
use printer_nanny.Common.{
  Any-In, ◌-◌, ◌&&◌, Bool, refl, ap, ◌∙◌, In-select, selected-In, ℕ, ◌≡◌, ◌≢◌, sym, inl, inr,
  String, true, Option, List, [], ◌∷◌, select, map, In, In-cons, here, there, IsFrom, All, All-at,
  In-All, In-inserted, inserted-In, mapped-In, In-map, Bool-cases,
}
use printer_nanny.Stock.{Texts, Db, StockItem, SupplyOrder, on_hand}
use printer_nanny.Stock.Ledger.{is_in_stock, oldest_first, stock_item}
use printer_nanny.Stock.Draws.{oldest_first-IsFrom}
use printer_nanny.Stock.Options.{oldest_first-In}
use printer_nanny.Stock.Inventory.{
  total, uses, is_stocked, sum_of-length, usage_count-uses, stocked, sum_of-orders,
}
use printer_nanny.Stock.Views.{
  Places, client_stock, StockGroup, same_product, group_items, summary, sum_of, is_of_client,
  is_listed_before, insert_group, sort_groups, stock_groups,
}
use printer_nanny.Stock.Grouped.{key_of, equal, group_key, Holds, HasDistinctKeys}
use printer_nanny.Stock.Groups.{grouped}

module _ (places : Places) (casefold : String → String) where
  abbrev sorted : List StockGroup → List StockGroup
  sorted = sort_groups places casefold

  insert_group-IsFrom :
      (g : StockGroup) (groups : List StockGroup)
      → IsFrom (insert_group places casefold g groups) (g ∷ groups)
  unfolding insert_group
  insert_group-IsFrom g [] x m = m
  insert_group-IsFrom g (y ∷ groups) x m =
      inserted-In g y x groups (insert_group places casefold g groups)
        (is_listed_before places casefold g y) (insert_group-IsFrom g groups x) m

  insert_group-In :
      (g : StockGroup) (groups : List StockGroup)
      → IsFrom (g ∷ groups) (insert_group places casefold g groups)
  unfolding insert_group
  insert_group-In g [] x m = m
  insert_group-In g (y ∷ groups) x m =
      In-inserted g y x groups (insert_group places casefold g groups)
        (is_listed_before places casefold g y) (insert_group-In g groups x) m

  sort_groups-IsFrom : (groups : List StockGroup) → IsFrom (sorted groups) groups
  unfolding sort_groups
  sort_groups-IsFrom [] x m = m
  sort_groups-IsFrom (g ∷ groups) x m = elim (In-cons (insert_group-IsFrom g (sorted groups) x m)) [
    | inl is_g ↦ subst (λ z. In x (z ∷ groups)) is_g here
    | inr later ↦ there (sort_groups-IsFrom groups x later)
  ]

  sort_groups-In : (groups : List StockGroup) → IsFrom groups (sorted groups)
  unfolding sort_groups
  sort_groups-In [] x m = m
  sort_groups-In (g ∷ groups) x here = insert_group-In g (sorted groups) g here
  sort_groups-In (g ∷ groups) x (there m) =
      insert_group-In g (sorted groups) x (there (sort_groups-In groups x m))

  module _ (texts : Texts) where
    abbrev pub HasDistinctProducts : List StockGroup → Type 0
    HasDistinctProducts [] = Unit
    HasDistinctProducts (g ∷ groups) =
        All (λ h. key_of texts h.order ≢ key_of texts g.order) groups × HasDistinctProducts groups

    insert_group-HasDistinctProducts :
        (g : StockGroup) (groups : List StockGroup)
        → HasDistinctProducts (g ∷ groups)
        → HasDistinctProducts (insert_group places casefold g groups)
    unfolding insert_group
    insert_group-HasDistinctProducts g [] h = h
    insert_group-HasDistinctProducts g (x ∷ groups) h =
        elim (Bool-cases (is_listed_before places casefold g x)) [
          | inl first ↦ rw first h
          | inr later ↦ rw later (
            In-All (λ z. key_of texts z.order ≢ key_of texts x.order)
                (insert_group places casefold g groups)
                (λ z m. elim (In-cons (insert_group-IsFrom g groups z m)) [
                  | inl is_g ↦
                      subst (λ w. key_of texts w.order ≢ key_of texts x.order) (sym is_g)
                        (λ e. h.0.0 (sym e))
                  | inr n ↦ All-at (λ w. key_of texts w.order ≢ key_of texts x.order) h.1.0 n
                ]),
            insert_group-HasDistinctProducts g groups (h.0.1, h.1.1),
          )
        ]

    sort_groups-HasDistinctProducts :
        (groups : List StockGroup)
        → HasDistinctProducts groups
        → HasDistinctProducts (sorted groups)
    unfolding sort_groups
    sort_groups-HasDistinctProducts [] h = h
    sort_groups-HasDistinctProducts (g ∷ groups) h =
        insert_group-HasDistinctProducts g (sorted groups) (
          In-All (λ h. key_of texts h.order ≢ key_of texts g.order) (sorted groups)
              (λ x m.
                All-at (λ h. key_of texts h.order ≢ key_of texts g.order) h.0
                  (sort_groups-IsFrom groups x m)),
          sort_groups-HasDistinctProducts groups h.1,
        )

    summaries-HasDistinctProducts :
        (groups : List (StockItem × List StockItem))
        → HasDistinctKeys texts groups
        → HasDistinctProducts (map summary groups)
    unfolding summary
    summaries-HasDistinctProducts [] h = tt
    summaries-HasDistinctProducts (g ∷ groups) h = (
      In-All (λ z. key_of texts z.order ≢ group_key texts g) (map summary groups)
          (λ z m.
            let (y, n, e) = In-map summary z groups m in
            subst (λ w. key_of texts w.order ≢ group_key texts g) (sym e)
              (All-at (λ w. group_key texts w ≢ group_key texts g) h.0 n)),
      summaries-HasDistinctProducts groups h.1,
    )

    -- The orders that a group is about: those on the shelves, of its product at its place.
    abbrev pub is_of_group : Option ℕ → StockGroup → SupplyOrder → Bool
    is_of_group client g o =
        is_stocked places client o && equal (key_of texts g.order) (key_of texts o)

    -- What a group says of the tables.
    pub record IsGroup (db : Db) (client : Option ℕ) (g : StockGroup) : Type 0 where
      pub shows : In g.order db.orders × (is_stocked places client g.order ≡ true)
      pub received : g.received ≡ total (is_of_group client g) (λ o. o.quantity) db.orders
      pub used : g.used ≡ total (is_of_group client g) (λ o. uses db.usages o) db.orders
      pub left :
          g.on_hand ≡ total (is_of_group client g) (λ o. o.quantity - uses db.usages o) db.orders
      pub counted : g.order_count ≡ total (is_of_group client g) (λ o. 1) db.orders

    pub record IsInventory (db : Db) (client : Option ℕ) (groups : List StockGroup) : Type 0 where
      pub distinct : HasDistinctProducts groups
      pub each : All (IsGroup db client) groups
      pub every :
          (o : SupplyOrder)
          → In o db.orders
          → is_stocked places client o ≡ true
          → (g : StockGroup) × In g groups × (key_of texts g.order ≡ key_of texts o)

    -- The items of a client's stock are made of the orders on its shelves.
    item_order :
        (db : Db) (client : Option ℕ) (i : StockItem)
        → In i (client_stock places db client)
        → In i.order db.orders × (is_stocked places client i.order ≡ true)
    unfolding client_stock stock_item
    item_order db client i m =
        let shelved : SupplyOrder → Bool =
          (λ o. is_in_stock o.status && is_of_client places client o.site_id) in
        let (o, n, e) =
          In-map (stock_item db.usages) i (oldest_first (select shelved db.orders)) m in
        let (stands, s) =
          In-select shelved o db.orders (oldest_first-IsFrom (select shelved db.orders) o n) in
        subst (λ z. In z.order db.orders × (is_stocked places client z.order ≡ true)) (sym e)
          (stands, sym (stocked places client o) ∙ s)

    order_item :
        (db : Db) (client : Option ℕ) (o : SupplyOrder)
        → In o db.orders
        → is_stocked places client o ≡ true
        → In (stock_item db.usages o) (client_stock places db client)
    unfolding client_stock
    order_item db client o m s =
        let shelved : SupplyOrder → Bool =
          (λ o. is_in_stock o.status && is_of_client places client o.site_id) in
        mapped-In (stock_item db.usages) o (oldest_first (select shelved db.orders)) (
          oldest_first-In (select shelved db.orders) o
            (selected-In shelved o db.orders m (stocked places client o ∙ s)))

    summary-IsGroup :
        (db : Db) (client : Option ℕ) (h : StockItem × List StockItem)
        → h.0 ∷ h.1
          ≡ select (λ i. same_product texts h.0.order i.order) (client_stock places db client)
        → In h.0 (client_stock places db client)
        → IsGroup db client (summary h)
    unfolding summary client_stock same_product stock_item on_hand
    summary-IsGroup db client h held m =
        let q : SupplyOrder → Bool = (λ o. equal (key_of texts h.0.order) (key_of texts o)) in
        let sum = sum_of-orders places client db.usages q in
        record {
          shows = item_order db client h.0 m;
          received =
              ap (sum_of (λ i. i.order.quantity)) held
              ∙ sum (λ i. i.order.quantity) (λ o. o.quantity) db.orders (λ o. refl);
          used =
              ap (sum_of (λ i. i.used)) held
              ∙ sum (λ i. i.used) (uses db.usages) db.orders (usage_count-uses db.usages);
          left =
              ap (sum_of (λ i. i.left)) held
              ∙ sum (λ i. i.left) (λ o. o.quantity - uses db.usages o) db.orders
                  (λ o. ap (λ n. o.quantity - n) (usage_count-uses db.usages o));
          counted =
              sum_of-length (h.0 ∷ h.1)
              ∙ ap (sum_of (λ i. 1)) held
              ∙ sum (λ i. 1) (λ o. 1) db.orders (λ o. refl);
        }

    -- The groups shown to a client (or of all clients, where none is asked for): no two are of one
    -- product at one place; each shows an order of the table that was delivered to a site of the
    -- client, and adds up, over all such orders of that product at that place, the quantities, the
    -- usages that name them, what the usages leave of each quantity, and their number; and each
    -- such order has a group of its product and place.
    pub stock_groups-IsInventory :
        (db : Db) (client : Option ℕ)
        → IsInventory db client (stock_groups places casefold texts db client)
    unfolding stock_groups summary stock_item
    stock_groups-IsInventory db client =
        let items = client_stock places db client in
        let groups = group_items texts items [] in
        let t = grouped texts items in
        record {
          distinct =
              sort_groups-HasDistinctProducts (map summary groups)
                (summaries-HasDistinctProducts groups t.distinct);
          each = In-All (IsGroup db client) (sorted (map summary groups)) (λ g m.
              let (h, stands, e) =
                In-map summary g groups (sort_groups-IsFrom (map summary groups) g m) in
              let held = All-at (Holds texts items) t.held stands in
              subst (IsGroup db client) (sym e) (
                summary-IsGroup db client h held
                  (In-select (λ i. same_product texts h.0.order i.order) h.0 items
                    (subst (λ l. In h.0 l) held here)).0));
          every = λ o m s.
              let (h, stands, e) =
                Any-In (λ g. group_key texts g ≡ key_of texts o) groups
                  (t.complete (stock_item db.usages o) (order_item db client o m s)) in
              (
                summary h,
                sort_groups-In (map summary groups) (summary h) (mapped-In summary h groups stands),
                e,
              );
        }
