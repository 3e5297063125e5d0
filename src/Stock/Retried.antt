-- ===== src/Stock/Retried.antt =====
-- central/supply_inventory.py: `reconcile_replacements`, run again after a crash of its caller.
use printer_nanny.Common.{
  ℕ, ◌≡◌, refl, sym, ap, ◌∙◌, inl, inr, true, false, ◌||◌, List, [], ◌∷◌, ◌++◌, All, ◌==◌,
  Bool-cases, ==-refl, false-ne-true,
}
use mathlib.Core.Path.{subst}
use printer_nanny.Stock.{Texts, SupplyUsage, Printer, SupplyCycle, Db}
use printer_nanny.Stock.Ledger.{
  usage_of, reconcile_one, has_usage, reconcile_all, reconcile_replacements,
}

module _ (texts : Texts) (printer : Printer) where
  has_usage-append :
      (id : ℕ) (us vs : List SupplyUsage)
      → has_usage texts id us ≡ true
      → has_usage texts id (us ++ vs) ≡ true
  unfolding has_usage
  has_usage-append id [] vs h = absurd (false-ne-true h)
  has_usage-append id (u ∷ us) vs h =
      let ih = has_usage-append id us vs in
      elim (Bool-cases (u.supply_cycle_id == id)) [
        | inl same ↦ rw same refl
        | inr other ↦ rw other (ih (sym (ap (λ b. b || has_usage texts id us) other) ∙ h))
      ]

  has_usage-last :
      (id : ℕ) (us : List SupplyUsage) (u : SupplyUsage)
      → u.supply_cycle_id ≡ id
      → has_usage texts id (us ++ (u ∷ [])) ≡ true
  unfolding has_usage
  has_usage-last id [] u e = rw e (ap (λ b. b || false) (==-refl id))
  has_usage-last id (x ∷ us) u e =
      let ih = has_usage-last id us u e in
      elim (Bool-cases (x.supply_cycle_id == id)) [
        | inl same ↦ rw same refl
        | inr other ↦ rw other ih
      ]

  -- The usage of a cycle is there after its turn, and stays.
  module _ (now : ℕ) (existing : List SupplyUsage) where
    passed :
        (cycle : SupplyCycle) (cycles : List SupplyCycle) (db : Db)
        → has_usage texts cycle.id existing ≡ true
        → reconcile_all texts printer now existing db (cycle ∷ cycles)
          ≡ reconcile_all texts printer now existing db cycles
    unfolding reconcile_all
    passed cycle cycles db known = rw known refl

    taken :
        (cycle : SupplyCycle) (cycles : List SupplyCycle) (db : Db)
        → has_usage texts cycle.id existing ≡ false
        → reconcile_all texts printer now existing db (cycle ∷ cycles)
          ≡ reconcile_all texts printer now existing
              (reconcile_one texts printer now db cycle)
              cycles
    unfolding reconcile_all
    taken cycle cycles db fresh = rw fresh refl

    stays :
        (id : ℕ) (cycles : List SupplyCycle) (db : Db)
        → has_usage texts id db.usages ≡ true
        → has_usage texts id (reconcile_all texts printer now existing db cycles).usages ≡ true
    unfolding reconcile_all reconcile_one
    stays id [] db h = h
    stays id (cycle ∷ cycles) db h =
        let skipped = stays id cycles db h in
        let more =
          stays id cycles (reconcile_one texts printer now db cycle)
            (has_usage-append id db.usages (_ ∷ []) h) in
        elim (Bool-cases (has_usage texts cycle.id existing)) [
          | inl known ↦
              ap (λ d. has_usage texts id d.usages) (passed cycle cycles db known) ∙ skipped
          | inr fresh ↦ ap (λ d. has_usage texts id d.usages) (taken cycle cycles db fresh) ∙ more
        ]

    covered :
        (cycles : List SupplyCycle) (db : Db)
        → ((id : ℕ) → has_usage texts id existing ≡ true → has_usage texts id db.usages ≡ true)
        → All
            (λ c.
              has_usage texts c.id (reconcile_all texts printer now existing db cycles).usages
              ≡ true)
            cycles
    unfolding reconcile_all reconcile_one usage_of
    covered [] db h = tt
    covered (cycle ∷ cycles) db h =
        let old = covered cycles db h in
        let new =
          covered cycles (reconcile_one texts printer now db cycle)
            (λ id k. has_usage-append id db.usages (_ ∷ []) (h id k)) in
        let first =
          stays cycle.id cycles (reconcile_one texts printer now db cycle)
            (has_usage-last cycle.id db.usages _ refl) in
        elim (Bool-cases (has_usage texts cycle.id existing)) [
          | inl known ↦
              subst (λ d. All (λ c. has_usage texts c.id d.usages ≡ true) (cycle ∷ cycles))
                (sym (passed cycle cycles db known))
                (stays cycle.id cycles db (h cycle.id known), old)
          | inr fresh ↦
              subst (λ d. All (λ c. has_usage texts c.id d.usages ≡ true) (cycle ∷ cycles))
                (sym (taken cycle cycles db fresh)) (first, new)
        ]

    nothing_to_do :
        (cycles : List SupplyCycle) (db : Db)
        → All (λ c. has_usage texts c.id existing ≡ true) cycles
        → reconcile_all texts printer now existing db cycles ≡ db
    unfolding reconcile_all
    nothing_to_do [] db h = refl
    nothing_to_do (cycle ∷ cycles) db h = rw h.0 (nothing_to_do cycles db h.1)

-- A pass that is run again for the same cycles, at any later moment, changes nothing.
pub reconcile_replacements-again :
    (texts : Texts) (printer : Printer) (cycles : List SupplyCycle) (now later : ℕ) (db : Db)
    → reconcile_replacements texts printer cycles later
        (reconcile_replacements texts printer cycles now db)
      ≡ reconcile_replacements texts printer cycles now db
unfolding reconcile_replacements
reconcile_replacements-again texts printer cycles now later db =
    let once = reconcile_all texts printer now db.usages db cycles in
    nothing_to_do texts printer later once.usages cycles once
      (covered texts printer now db.usages cycles db (λ id h. h))
