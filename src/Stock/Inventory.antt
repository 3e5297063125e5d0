-- ===== src/Stock/Inventory.antt =====
-- central/supply_inventory.py: sums over the table of orders, and what `stock_groups` adds up.
use printer_nanny.Common.{
  ℕ, ◌+◌, ◌≡◌, refl, ◌∙◌, ap, Bool, true, false, ◌&&◌, Option, none, some, List, [], ◌∷◌, length,
  select, map, if◌then◌else◌, is_some_of, ◌==◌, Bool-cases, inl, inr, arith,
}
use printer_nanny.Stock.{SupplyOrderStatus, SupplyOrder, SupplyUsage, StockItem, usage_count}
use printer_nanny.Stock.Ledger.{is_in_stock, is_older, insert_order, oldest_first, stock_item}
use printer_nanny.Stock.Views.{Places, is_of_client, sum_of}

-- The sum of `f` over the orders that `p` accepts.
abbrev pub total : (SupplyOrder → Bool) → (SupplyOrder → ℕ) → List SupplyOrder → ℕ
total p f [] = 0
total p f (o ∷ orders) = (if p o then f o else 0) + total p f orders

-- How many of the usages were drawn from the order.
abbrev pub uses : List SupplyUsage → SupplyOrder → ℕ
uses usages o = length (select (λ u. is_some_of u.supply_order_id o.id) usages)

abbrev pub has_arrived : SupplyOrderStatus → Bool
has_arrived SupplyOrderStatus.delivered = true
has_arrived SupplyOrderStatus.ordered = false

abbrev pub is_asked_for : Option ℕ → ℕ → Bool
is_asked_for none owner = true
is_asked_for (some client) owner = owner == client

-- The order was delivered, to a site of the client, if one is asked for.
abbrev pub is_stocked : Places → Option ℕ → SupplyOrder → Bool
is_stocked places client o =
    has_arrived o.status && is_asked_for client (places.client_id o.site_id)

total_cong :
    (p q : SupplyOrder → Bool) (f g : SupplyOrder → ℕ) (orders : List SupplyOrder)
    → ((o : SupplyOrder) → p o ≡ q o)
    → ((o : SupplyOrder) → f o ≡ g o)
    → total p f orders ≡ total q g orders
total_cong p q f g [] same value = refl
total_cong p q f g (o ∷ orders) same value =
    rw (same o, value o, total_cong p q f g orders same value) refl

total-insert_order :
    (p : SupplyOrder → Bool) (f : SupplyOrder → ℕ) (o : SupplyOrder) (orders : List SupplyOrder)
    → total p f (insert_order o orders) ≡ total p f (o ∷ orders)
unfolding insert_order
total-insert_order p f o [] = refl
total-insert_order p f o (x ∷ orders) =
    let ih = total-insert_order p f o orders in
    elim (Bool-cases (is_older o x)) [ inl y ↦ rw y refl | inr n ↦ rw n (omega (arith, ih)) ]

total-oldest_first :
    (p : SupplyOrder → Bool) (f : SupplyOrder → ℕ) (orders : List SupplyOrder)
    → total p f (oldest_first orders) ≡ total p f orders
unfolding oldest_first
total-oldest_first p f [] = refl
total-oldest_first p f (o ∷ orders) =
    total-insert_order p f o (oldest_first orders)
    ∙ ap (λ n. (if p o then f o else 0) + n) (total-oldest_first p f orders)

total-select :
    (p q : SupplyOrder → Bool) (f : SupplyOrder → ℕ) (orders : List SupplyOrder)
    → total q f (select p orders) ≡ total (λ o. p o && q o) f orders
total-select p q f [] = refl
total-select p q f (o ∷ orders) =
    let ih = total-select p q f orders in
    elim (Bool-cases (p o)) [ inl y ↦ rw (y, ih) refl | inr n ↦ rw n (omega (arith, ih)) ]

sum_of-total :
    (usages : List SupplyUsage) (q : SupplyOrder → Bool) (f : StockItem → ℕ)
    (orders : List SupplyOrder)
    → sum_of f (select (λ i. q i.order) (map (stock_item usages) orders))
      ≡ total q (λ o. f (stock_item usages o)) orders
unfolding sum_of stock_item
sum_of-total usages q f [] = refl
sum_of-total usages q f (o ∷ orders) =
    let ih = sum_of-total usages q f orders in
    elim (Bool-cases (q o)) [ inl y ↦ rw (y, ih) refl | inr n ↦ rw n (omega (arith, ih)) ]

pub sum_of-length : (items : List StockItem) → length items ≡ sum_of (λ i. 1) items
unfolding sum_of
sum_of-length [] = refl
sum_of-length (i ∷ items) = omega (arith, sum_of-length items)

pub usage_count-uses :
    (usages : List SupplyUsage) (o : SupplyOrder) → usage_count usages o.id ≡ uses usages o
unfolding usage_count
usage_count-uses [] o = refl
usage_count-uses (u ∷ usages) o =
    let ih = usage_count-uses usages o in
    elim (Bool-cases (is_some_of u.supply_order_id o.id)) [
      | inl y ↦ rw y (omega (arith, ih))
      | inr n ↦ rw n (omega (arith, ih))
    ]

arrived : (s : SupplyOrderStatus) → is_in_stock s ≡ has_arrived s
arrived SupplyOrderStatus.delivered = refl
arrived SupplyOrderStatus.ordered = refl

asked :
    (places : Places) (client : Option ℕ) (site : ℕ)
    → is_of_client places client site ≡ is_asked_for client (places.client_id site)
unfolding is_of_client
asked places none site = refl
asked places (some client) site = refl

pub stocked :
    (places : Places) (client : Option ℕ) (o : SupplyOrder)
    → (is_in_stock o.status && is_of_client places client o.site_id) ≡ is_stocked places client o
unfolding is_of_client
stocked places client o =
    ap (λ b. b && is_of_client places client o.site_id) (arrived o.status)
    ∙ ap (λ b. has_arrived o.status && b) (asked places client o.site_id)

-- The sum over a client's items that `q` accepts is one over the table.
pub sum_of-orders :
    (places : Places) (client : Option ℕ) (usages : List SupplyUsage) (q : SupplyOrder → Bool)
    (f : StockItem → ℕ) (g : SupplyOrder → ℕ) (orders : List SupplyOrder)
    → ((o : SupplyOrder) → f (stock_item usages o) ≡ g o)
    → sum_of f (
        select
          (λ i. q i.order)
          (map (stock_item usages) (
            oldest_first
              (select (λ o. is_in_stock o.status && is_of_client places client o.site_id) orders))))
      ≡ total (λ o. is_stocked places client o && q o) g orders
sum_of-orders places client usages q f g orders value =
    let p = λ (o : SupplyOrder). is_in_stock o.status && is_of_client places client o.site_id in
    let h = λ (o : SupplyOrder). f (stock_item usages o) in
    sum_of-total usages q f (oldest_first (select p orders))
    ∙ total-oldest_first q h (select p orders)
    ∙ total-select p q h orders
    ∙ total_cong (λ o. p o && q o) (λ o. is_stocked places client o && q o) h g orders
        (λ o. ap (λ b. b && q o) (stocked places client o)) value
