-- ===== src/Stock/Shelves.antt =====
-- central/supply_inventory.py: the tables, seen as shelves that hold so many cartridges of each
-- order, and what the operations draw from them.
use printer_nanny.Common.{
  ℕ, suc, ◌<◌, ◌≡◌, ◌≢◌, refl, sym, ap, ◌∙◌, inl, inr, true, false, Option, none, some, List, [],
  ◌∷◌, ◌++◌, map, In, In-cons, All, ◌==◌, is_some_of, if◌then◌else◌, Option-cases, none-ne-some,
  Bool-cases, ==-refl, ==-false, All-at, arith,
}
use mathlib.Core.Path.{subst}
use mathlib.Core.List.{append_assoc, append-nil}
use printer_nanny.Stock.{Texts, SupplyOrder, SupplyUsage, Printer, SupplyCycle, Db, on_hand}
use printer_nanny.Stock.Ledger.{
  compatible_stock, chosen_of, need_of, usage_of, reconcile_one, has_usage, reconcile_all,
  reconcile_replacements,
}
use printer_nanny.Stock.Draws.{usage_count-append, IsOnShelf, compatible-IsOnShelf, chosen_lem}

-- How many cartridges of an order are left, by the order's id.
abbrev pub Shelves : Type 0
Shelves = ℕ → ℕ

-- One use: nothing is drawn, or one cartridge of one order.
pub data Draw : Shelves → Option ℕ → Shelves → Type 0 where
  nothing : {s s' : Shelves} → ((i : ℕ) → s' i ≡ s i) → Draw s none s'
  one_of :
      {s s' : Shelves} (i : ℕ)
      → s i ≡ suc (s' i)
      → ((j : ℕ) → j ≢ i → s' j ≡ s j)
      → Draw s (some i) s'

pub data Draws : Shelves → List (Option ℕ) → Shelves → Type 0 where
  done : {s : Shelves} → Draws s [] s
  next :
      {s s' s'' : Shelves} {d : Option ℕ} {ds : List (Option ℕ)}
      → Draw s d s'
      → Draws s' ds s''
      → Draws s (d ∷ ds) s''

unfoldable pub find_order : ℕ → List SupplyOrder → Option SupplyOrder
find_order id [] = none
find_order id (o ∷ orders) = let rest = find_order id orders in if o.id == id then some o else rest

unfoldable pub left_of : List SupplyUsage → Option SupplyOrder → ℕ
left_of usages none = 0
left_of usages (some o) = on_hand usages o

unfoldable pub shelves : Db → Shelves
shelves db id = left_of db.usages (find_order id db.orders)

abbrev pub HasDistinctIds : List SupplyOrder → Type 0
HasDistinctIds [] = Unit
HasDistinctIds (o ∷ orders) = All (λ x. x.id ≢ o.id) orders × HasDistinctIds orders

pub find_order-In :
    (orders : List SupplyOrder) (o : SupplyOrder)
    → HasDistinctIds orders
    → In o orders
    → find_order o.id orders ≡ some o
unfolding find_order
find_order-In [] o h m = elim m [ ]
find_order-In (x ∷ orders) o h m =
    let ih = find_order-In orders o h.1 in
    elim (In-cons m) [
      | inl is_x ↦
          subst (λ z. find_order z.id (x ∷ orders) ≡ some z) (sym is_x) (rw (==-refl x.id) refl)
      | inr later ↦
          rw (==-false x.id o.id (λ e. All-at (λ z. z.id ≢ x.id) h.0 later (sym e))) (ih later)
    ]

pub find_order-id :
    (id : ℕ) (orders : List SupplyOrder) (o : SupplyOrder)
    → find_order id orders ≡ some o
    → o.id ≡ id
unfolding find_order
find_order-id id [] o h = absurd (none-ne-some h)
find_order-id id (x ∷ orders) o h = ground (arith, find_order-id id orders o)

on_hand-others :
    (usages : List SupplyUsage) (u : SupplyUsage) (o : SupplyOrder)
    → is_some_of u.supply_order_id o.id ≡ false
    → on_hand (usages ++ (u ∷ [])) o ≡ on_hand usages o
unfolding on_hand
on_hand-others usages u o h = ground (arith, usage_count-append usages u o.id)

on_hand-drawn :
    (usages : List SupplyUsage) (u : SupplyUsage) (o : SupplyOrder)
    → is_some_of u.supply_order_id o.id ≡ true
    → 0 < on_hand usages o
    → on_hand usages o ≡ suc (on_hand (usages ++ (u ∷ [])) o)
unfolding on_hand
on_hand-drawn usages u o h left = ground (arith, usage_count-append usages u o.id)

-- The order that a cycle's usage names.
abbrev pub choice : Texts → Printer → Db → SupplyCycle → Option SupplyOrder
choice texts printer db cycle =
    chosen_of texts (compatible_stock texts db (need_of texts printer cycle))

abbrev pub id_of : Option SupplyOrder → Option ℕ
id_of none = none
id_of (some o) = some o.id

-- A usage more that names an order, or none.
add_usage-Draw :
    (db : Db) (u : SupplyUsage) (chosen : Option SupplyOrder)
    → HasDistinctIds db.orders
    → u.supply_order_id ≡ id_of chosen
    → ((o : SupplyOrder) → chosen ≡ some o → In o db.orders × (0 < on_hand db.usages o))
    → Draw (shelves db) (id_of chosen) (shelves (record db { usages = db.usages ++ (u ∷ []) }))
unfolding shelves left_of
add_usage-Draw db u none distinct names ok = nothing (λ i.
    elim (Option-cases (find_order i db.orders)) [
      | inl n ↦ rw n refl
      | inr (o, e) ↦ rw e (on_hand-others db.usages u o (ap (λ z. is_some_of z o.id) names))
    ])
add_usage-Draw db u (some o) distinct names ok =
    let (known, left) = ok o refl in
    let at = find_order-In db.orders o distinct known in
    one_of o.id
      (rw at (on_hand-drawn db.usages u o (ap (λ z. is_some_of z o.id) names ∙ ==-refl o.id) left))
      (λ j ne. elim (Option-cases (find_order j db.orders)) [
        | inl n ↦ rw n refl
        | inr (x, e) ↦ rw e (
            on_hand-others db.usages u x (
              ap (λ z. is_some_of z x.id) names
              ∙ ==-false o.id x.id (λ same. ne (sym (find_order-id j db.orders x e) ∙ sym same))))
      ])

names :
    (chosen : Option SupplyOrder)
    → (elim chosen [ none ↦ none | some o ↦ some o.id ]) ≡ id_of chosen
names none = refl
names (some o) = refl

module _ (texts : Texts) (printer : Printer) (now : ℕ) where
  chosen_stocked :
      (db : Db) (cycle : SupplyCycle) (o : SupplyOrder)
      → choice texts printer db cycle ≡ some o
      → IsOnShelf texts db (need_of texts printer cycle) o
  chosen_stocked db cycle o h =
      let need = need_of texts printer cycle in
      let (item, m, is_o, _) = chosen_lem texts db need (compatible_stock texts db need) o h in
      subst (IsOnShelf texts db need) is_o (compatible-IsOnShelf texts db need item m)

  pub reconcile_one-Draw :
      (db : Db) (cycle : SupplyCycle)
      → HasDistinctIds db.orders
      → Draw
          (shelves db)
          (id_of (choice texts printer db cycle))
          (shelves (reconcile_one texts printer now db cycle))
  unfolding reconcile_one usage_of
  reconcile_one-Draw db cycle distinct =
      add_usage-Draw db _ (choice texts printer db cycle) distinct
        (names (choice texts printer db cycle))
        (λ o h. let s = chosen_stocked db cycle o h in (s.known, s.stocked))

  -- A pass adds usages and changes nothing else, and draws what they name, one after the other.
  record IsPass (db db' : Db) : Type 0 where
    pub new : List SupplyUsage
    pub recorded : db'.usages ≡ db.usages ++ new
    pub same_orders : db'.orders ≡ db.orders
    pub draws : Draws (shelves db) (map (λ u. u.supply_order_id) new) (shelves db')

  one_more :
      (db db' : Db) (cycle : SupplyCycle)
      → HasDistinctIds db.orders
      → IsPass (reconcile_one texts printer now db cycle) db'
      → IsPass db db'
  unfolding reconcile_one usage_of
  one_more db db' cycle distinct p = record {
    new = _ ∷ p.new;
    recorded = p.recorded ∙ append_assoc db.usages (_ ∷ []) p.new;
    same_orders = p.same_orders;
    draws =
        next
          (subst (λ c. Draw (shelves db) c (shelves (reconcile_one texts printer now db cycle)))
            (sym (names (choice texts printer db cycle))) (reconcile_one-Draw db cycle distinct))
          p.draws;
  }

  reconcile_all-IsPass :
      (existing : List SupplyUsage) (cycles : List SupplyCycle) (db : Db)
      → HasDistinctIds db.orders
      → IsPass db (reconcile_all texts printer now existing db cycles)
  unfolding reconcile_all reconcile_one
  reconcile_all-IsPass existing [] db distinct = record {
    new = [];
    recorded = sym (append-nil db.usages);
    same_orders = refl;
    draws = done;
  }
  reconcile_all-IsPass existing (cycle ∷ cycles) db distinct =
      let same = reconcile_all-IsPass existing cycles db distinct in
      let later =
        reconcile_all-IsPass existing cycles (reconcile_one texts printer now db cycle) distinct in
      elim (Bool-cases (has_usage texts cycle.id existing)) [
        | inl known ↦ rw known same
        | inr fresh ↦ rw fresh (one_more db _ cycle distinct later)
      ]

-- A pass of the reconciliation, seen on the shelves of orders with distinct ids, is a sequence of
-- draws: it adds usages, and for each in turn one cartridge leaves the shelf of the order that the
-- usage names, which held at least one, or nothing moves where it names none. The orders stay as
-- they are.
pub reconcile_replacements-Draws :
    (texts : Texts) (printer : Printer) (cycles : List SupplyCycle) (now : ℕ) (db : Db)
    → HasDistinctIds db.orders
    → (new : List SupplyUsage) × ((reconcile_replacements texts printer cycles now db).usages
        ≡ db.usages ++ new)
      × ((reconcile_replacements texts printer cycles now db).orders ≡ db.orders)
      × Draws
          (shelves db)
          (map (λ u. u.supply_order_id) new)
          (shelves (reconcile_replacements texts printer cycles now db))
unfolding reconcile_replacements
reconcile_replacements-Draws texts printer cycles now db distinct =
    let p = reconcile_all-IsPass texts printer now db.usages cycles db distinct in
    (p.new, p.recorded, p.same_orders, p.draws)
