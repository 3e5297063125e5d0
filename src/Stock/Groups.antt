-- ===== src/Stock/Groups.antt =====
-- central/supply_inventory.py: what `stock_groups` shows of the items in stock.
use mathlib.Core.Path.{subst}
use mathlib.Core.List.{append_assoc, append-nil}
use printer_nanny.Common.{
  In-append, ◌≡◌, ◌≢◌, sym, inl, inr, false, List, [], ◌∷◌, ◌++◌, select, select-none, In, In-cons,
  All, In-All, Any, Bool-cases,
}
use printer_nanny.Stock.{Texts, StockItem}
use printer_nanny.Stock.Views.{same_product, add_item, group_items}
use printer_nanny.Stock.Grouped.{
  key_of, same_product-key, group_key, Holds, HasDistinctKeys, add_item-Any, add_item-own,
  add_item-HasDistinctKeys, add_item-Holds,
}

refuted : {A : Type 0} (P : A → Type 0) (xs : List A) → Any P xs → ¬ (All (λ x. ¬ (P x)) xs)
refuted P [] a n = a
refuted P (x ∷ xs) (inl p) n = n.0 p
refuted P (x ∷ xs) (inr a) n = refuted P xs a n.1

module _ (texts : Texts) where
  -- The table, once the items `seen` were put into it.
  pub record Grouped (seen : List StockItem) (groups : List (StockItem × List StockItem))
      : Type 0 where
    pub distinct : HasDistinctKeys texts groups
    pub held : All (Holds texts seen) groups
    pub complete :
        (x : StockItem) → In x seen → Any (λ g. group_key texts g ≡ key_of texts x.order) groups

  none_seen :
      (seen : List StockItem) (groups : List (StockItem × List StockItem)) (item : StockItem)
      → Grouped seen groups
      → All (λ g. group_key texts g ≢ key_of texts item.order) groups
      → select (λ i. same_product texts item.order i.order) seen ≡ []
  none_seen seen groups item t n =
      select-none (λ i. same_product texts item.order i.order) seen
        (In-All (λ i. same_product texts item.order i.order ≡ false) seen
          (λ x m. elim (Bool-cases (same_product texts item.order x.order)) [
            | inr other ↦ other
            | inl same ↦
                let key = same_product-key texts item.order x.order same in
                absurd (
                  refuted (λ g. group_key texts g ≡ key_of texts item.order) groups
                    (subst (λ k. Any (λ g. group_key texts g ≡ k) groups) (sym key)
                      (t.complete x m))
                    n)
          ]))

  add_item-Grouped :
      (seen : List StockItem) (groups : List (StockItem × List StockItem)) (item : StockItem)
      → Grouped seen groups
      → Grouped (seen ++ (item ∷ [])) (add_item texts item groups)
  add_item-Grouped seen groups item t = record {
    distinct = add_item-HasDistinctKeys texts item groups t.distinct;
    held = add_item-Holds texts seen item groups (none_seen seen groups item t) t.distinct t.held;
    complete = λ x m. elim (In-append x seen (item ∷ []) m) [
      | inl before ↦
          add_item-Any texts (λ k. k ≡ key_of texts x.order) item groups (t.complete x before)
      | inr now ↦ elim (In-cons now) [
        | inl is_item ↦
            subst
              (λ z.
                Any (λ g. group_key texts g ≡ key_of texts z.order) (add_item texts item groups))
              (sym is_item) (add_item-own texts item groups)
        | inr past ↦ elim past [ ]
      ]
    ];
  }

  group_items-Grouped :
      (items seen : List StockItem) (groups : List (StockItem × List StockItem))
      → Grouped seen groups
      → Grouped (seen ++ items) (group_items texts items groups)
  unfolding group_items
  group_items-Grouped [] seen groups t = subst (λ l. Grouped l groups) (sym (append-nil seen)) t
  group_items-Grouped (item ∷ items) seen groups t =
      subst (λ l. Grouped l (group_items texts items (add_item texts item groups)))
        (append_assoc seen (item ∷ []) items)
        (group_items-Grouped items (seen ++ (item ∷ [])) (add_item texts item groups)
          (add_item-Grouped seen groups item t))

  pub grouped : (items : List StockItem) → Grouped items (group_items texts items [])
  grouped items =
      group_items-Grouped items [] []
        (record { distinct = tt; held = tt; complete = λ x m. elim m [ ] })
