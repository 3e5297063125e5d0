-- ===== src/Alerts/Closing.antt =====
-- central/worker/jobs.py: `_resolve_stale` and `_escalate_alerts`, on one key.
use mathlib.Core.Path.{subst}
use printer_nanny.Common.{
  ℕ, ◌≡◌, ◌≤◌, refl, sym, ◌∙◌, ap, arith, true, false, List, [], ◌∷◌, if◌then◌else◌, In, here,
  Bool-cases, inl, inr, and-true, select, In-select, selected-In, In-cons, false-ne-true,
}
use printer_nanny.Alerts.{DedupeKey, key_eq, Alert, Db, is_live}
use printer_nanny.Alerts.Rows.{
  key_eq-eq, count_id, count_live, count_id-update, count_id-select, count_live-kept, is_live_with,
  In-unique,
}
use printer_nanny.Alerts.Lifecycle.{Pass}
use printer_nanny.Alerts.Evaluate.{
  is_rule_driven, is_active, is_stale, closed, resolve_each, resolve_stale,
}
use printer_nanny.Alerts.Sound.{In-updated}
use printer_nanny.Alerts.Flapping.{closed-Turns}
use printer_nanny.Alerts.Resolutions.{AreAhead, AreAhead-tail, AreAhead-skip, with_closed}
use printer_nanny.Alerts.Live.{count_live-zero, AreDriven, update-AreDriven}

module _ (pass : Pass) (k : DedupeKey) (active : List DedupeKey) where
  abbrev HasDistinctIds : Db → Type 0
  HasDistinctIds db = (i : ℕ) → count_id i db.alerts ≤ 1

  closed-HasDistinctIds :
      (a : Alert) (db : Db) → HasDistinctIds db → HasDistinctIds (with_closed pass a db)
  closed-HasDistinctIds a db h i =
      omega (arith, h i, count_id-update i a.id (closed pass.now) db.alerts (λ x. refl))

  -- A stale alert is not of an active key.
  stale-other :
      (a : Alert)
      → is_active k active ≡ true
      → is_stale active a ≡ true
      → key_eq a.dedupe_key k ≡ false
  stale-other a on h = elim (Bool-cases (key_eq a.dedupe_key k)) [
    | inr n ↦ n
    | inl y ↦
        let (_, rest) = and-true (is_live a) _ h in
        let (_, off) = and-true (is_rule_driven a.type) _ rest in
        let too = subst (λ z. is_active z active ≡ true) (sym (key_eq-eq a.dedupe_key k y)) on in
        ground (arith, off, too)
  ]

  closed_off :
      (a : Alert) (db : Db)
      → HasDistinctIds db
      → In a db.alerts
      → key_eq a.dedupe_key k ≡ false
      → count_live k (with_closed pass a db).alerts ≡ count_live k db.alerts
  closed_off a db distinct m other =
      count_live-kept k a.id (closed pass.now) db.alerts (λ x at same. off x (
        subst (λ z. key_eq z.dedupe_key k ≡ false)
          (sym (In-unique a x db.alerts (distinct a.id) same m at)) other))
    where
      off :
          (x : Alert)
          → key_eq x.dedupe_key k ≡ false
          → is_live_with k (closed pass.now x) ≡ is_live_with k x
      off x h = rw h refl

  active_stays :
      is_active k active ≡ true
      → (db : Db) (rows : List Alert) → HasDistinctIds db
      → AreAhead pass rows db
      → count_live k (resolve_each pass.now active db rows).alerts ≡ count_live k db.alerts
  unfolding resolve_each
  active_stays on db [] distinct ahead = refl
  active_stays on db (a ∷ rows) distinct ahead =
      let closing =
        active_stays on (with_closed pass a db) rows (closed-HasDistinctIds a db distinct)
          (AreAhead-tail pass a rows db (with_closed pass a db) (closed pass.now) ahead refl) in
      let staying = active_stays on db rows distinct (AreAhead-skip pass a rows db ahead) in
      elim (Bool-cases (is_stale active a)) [
        | inl y ↦ rw y (closing ∙ closed_off a db distinct (ahead.1 a here).0 (stale-other a on y))
        | inr n ↦ rw n staying
      ]

  -- The live alerts of the key are among the rows that are still to come.
  abbrev AreLeft : List Alert → Db → Type 0
  AreLeft rows db = (x : Alert) → In x db.alerts → is_live_with k x ≡ true → In x rows

  closed-AreLeft :
      (a : Alert) (rows : List Alert) (db : Db)
      → AreLeft (a ∷ rows) db
      → AreLeft rows (with_closed pass a db)
  closed-AreLeft a rows db left x m h = elim (In-updated a.id (closed pass.now) x db.alerts m) [
    | inl (y, _, _, is) ↦
        let (_, live) = and-true (key_eq x.dedupe_key k) (is_live x) h in
        absurd (false-ne-true (sym (ap is_live is ∙ (closed-Turns pass.now).turned y) ∙ live))
    | inr (at, other) ↦ elim (In-cons (left x at h)) [
      | inl is_a ↦ absurd (other (ap (λ (z : Alert). z.id) is_a))
      | inr later ↦ later
    ]
  ]

  not_stale :
      (a : Alert) (db : Db)
      → is_active k active ≡ false
      → AreDriven k db.alerts
      → In a db.alerts
      → is_stale active a ≡ false
      → is_live_with k a ≡ false
  not_stale a db off driven m h = elim (Bool-cases (is_live_with k a)) [
    | inr n ↦ n
    | inl y ↦
        let (same, live) = and-true (key_eq a.dedupe_key k) (is_live a) y in
        let is_k = key_eq-eq a.dedupe_key k same in
        let inactive = subst (λ z. is_active z active ≡ false) (sym is_k) off in
        let rule = driven a m is_k in ground (arith, h, live, rule, inactive)
  ]

  inactive_closes :
      is_active k active ≡ false
      → (db : Db) (rows : List Alert) → AreAhead pass rows db
      → AreDriven k db.alerts
      → AreLeft rows db
      → count_live k (resolve_each pass.now active db rows).alerts ≡ 0
  unfolding resolve_each
  inactive_closes off db [] ahead driven left =
      count_live-zero k db.alerts (λ x m h. elim (left x m h) [ ])
  inactive_closes off db (a ∷ rows) ahead driven left =
      let (m, live) = ahead.1 a here in
      let closing =
        inactive_closes off (with_closed pass a db) rows
          (AreAhead-tail pass a rows db (with_closed pass a db) (closed pass.now) ahead refl)
          (update-AreDriven k a.id (closed pass.now) db.alerts (λ x. refl) (λ x. refl) driven)
          (closed-AreLeft a rows db left) in
      elim (Bool-cases (is_stale active a)) [
        | inl y ↦ rw y closing
        | inr n ↦ rw n (
            inactive_closes off db rows (AreAhead-skip pass a rows db ahead) driven (λ x at h.
              elim (In-cons (left x at h)) [
                | inl is_a ↦ absurd (
                    false-ne-true (
                      sym (not_stale a db off driven m n)
                      ∙ subst (λ z. is_live_with k z ≡ true) is_a h))
                | inr later ↦ later
              ]))
      ]

  -- An active key keeps its alert, and any other that resolves by itself has none.
  pub resolve_stale-count :
      (db : Db)
      → HasDistinctIds db
      → (is_active k active ≡ false → AreDriven k db.alerts)
      → count_live k (resolve_stale pass.now active db).alerts
        ≡ (if is_active k active then count_live k db.alerts else 0)
  unfolding resolve_stale
  resolve_stale-count db distinct driven =
      let rows = select is_live db.alerts in
      let ahead : AreAhead pass rows db = (
        λ i. omega (arith, distinct i, count_id-select i is_live db.alerts),
        λ a m. In-select is_live a db.alerts m,
      ) in
      elim (Bool-cases (is_active k active)) [
        | inl y ↦ rw y (active_stays y db rows distinct ahead)
        | inr n ↦ rw n (
            inactive_closes n db rows ahead (driven n) (λ x m h.
              selected-In is_live x db.alerts m (and-true (key_eq x.dedupe_key k) (is_live x) h).1))
      ]
