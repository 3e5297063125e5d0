-- ===== src/Alerts/Live.antt =====
-- central/worker/jobs.py: which keys have a live alert, as the table is written.
use mathlib.Core.Path.{subst}
use printer_nanny.Common.{
  ℕ, suc, ◌≡◌, ◌≢◌, ◌≤◌, refl, sym, ◌∙◌, ap, arith, Bool, true, false, ◌||◌, List, [], ◌∷◌, ◌++◌,
  ◌==◌, In, here, there, Bool-cases, inl, inr, ltb, ==-refl,
}
use printer_nanny.Alerts.{DedupeKey, key_eq, Alert, update_alert}
use printer_nanny.Alerts.Rows.{count_id, count_live, In-unique, is_live_with, count_live-kept}
use printer_nanny.Alerts.Evaluate.{is_rule_driven}
use printer_nanny.Alerts.Steps.{Turns, Writes}
use printer_nanny.Alerts.Sound.{In-updated, In-snoc}

abbrev pub has_live : DedupeKey → List Alert → Bool
has_live k alerts = ltb 0 (count_live k alerts)

pub count_live-In :
    (k : DedupeKey) (x : Alert) (alerts : List Alert)
    → In x alerts
    → is_live_with k x ≡ true
    → 1 ≤ count_live k alerts
count_live-In k x [] m h = elim m [ ]
count_live-In k x (y ∷ alerts) here h = ground (arith, h)
count_live-In k x (y ∷ alerts) (there m) h = ground (arith, count_live-In k x alerts m h)

pub count_live-zero :
    (k : DedupeKey) (alerts : List Alert)
    → ((x : Alert) → In x alerts → is_live_with k x ≡ true → ⊥)
    → count_live k alerts ≡ 0
count_live-zero k [] h = refl
count_live-zero k (a ∷ alerts) h =
    let rest = count_live-zero k alerts (λ x m. h x (there m)) in
    elim (Bool-cases (is_live_with k a)) [
      | inl y ↦ absurd (h a here y)
      | inr n ↦ ground (arith, n, rest)
    ]

-- The changed row is in the changed table.
pub In-changed :
    (f : Alert → Alert) (a : Alert) (alerts : List Alert)
    → In a alerts
    → In (f a) (update_alert a.id f alerts)
unfolding update_alert
In-changed f a [] m = elim m [ ]
In-changed f a (x ∷ alerts) here = rw (==-refl x.id) here
In-changed f a (x ∷ alerts) (there m) =
    let later = In-changed f a alerts m in
    elim (Bool-cases (x.id == a.id)) [ inl y ↦ rw y (there later) | inr n ↦ rw n (there later) ]

-- A change of what is shown makes no key live, and none not live.
pub Writes-has_live :
    (k : DedupeKey) (id : ℕ) (f : Alert → Alert) (alerts : List Alert)
    → Writes f
    → has_live k (update_alert id f alerts) ≡ has_live k alerts
Writes-has_live k id f alerts w = ap (ltb 0) (count_live-kept k id f alerts (λ x m same. shown x))
  where
    shown : (x : Alert) → is_live_with k (f x) ≡ is_live_with k x
    shown x = rw (w.same_key x, w.same_life x) refl

module _ (k : DedupeKey) (alerts : List Alert) (distinct : (i : ℕ) → count_id i alerts ≤ 1)
    (a : Alert) (m : In a alerts) (f : Alert → Alert) where
  kept_off :
      ((x : Alert) → (f x).dedupe_key ≡ x.dedupe_key)
      → key_eq a.dedupe_key k ≡ false
      → count_live k (update_alert a.id f alerts) ≡ count_live k alerts
  kept_off same_key other = count_live-kept k a.id f alerts (λ x at same. off x (
      subst (λ z. key_eq z.dedupe_key k ≡ false)
        (sym (In-unique a x alerts (distinct a.id) same m at)) other))
    where
      off : (x : Alert) → key_eq x.dedupe_key k ≡ false → is_live_with k (f x) ≡ is_live_with k x
      off x h = rw (same_key x, h) refl

  -- A row that turns live makes its key live, and no other.
  pub Turns-has_live :
      Turns f true suc
      → has_live k (update_alert a.id f alerts) ≡ (has_live k alerts || key_eq a.dedupe_key k)
  Turns-has_live t = elim (Bool-cases (key_eq a.dedupe_key k)) [
    | inl same ↦
        let counted =
          count_live-In k (f a) (update_alert a.id f alerts) (In-changed f a alerts m)
            (live same) in
        ground (arith, counted, same)
    | inr other ↦ ground (arith, kept_off t.same_key other, other)
  ]
    where
      live : key_eq a.dedupe_key k ≡ true → is_live_with k (f a) ≡ true
      live same = rw (t.same_key a, same, t.turned a) refl

-- Are all alerts of the key of those kinds that resolve by themselves?
abbrev pub AreDriven : DedupeKey → List Alert → Type 0
AreDriven k alerts = (x : Alert) → In x alerts → x.dedupe_key ≡ k → is_rule_driven x.type ≡ true

pub update-AreDriven :
    (k : DedupeKey) (id : ℕ) (f : Alert → Alert) (alerts : List Alert)
    → ((x : Alert) → (f x).dedupe_key ≡ x.dedupe_key)
    → ((x : Alert) → (f x).type ≡ x.type)
    → AreDriven k alerts
    → AreDriven k (update_alert id f alerts)
update-AreDriven k id f alerts same_key same_type driven x m is_k =
    elim (In-updated id f x alerts m) [
      | inl (y, at, _, is) ↦
          ap is_rule_driven (ap (λ (z : Alert). z.type) is ∙ same_type y)
          ∙ driven y at (sym (same_key y) ∙ sym (ap (λ (z : Alert). z.dedupe_key) is) ∙ is_k)
      | inr (at, _) ↦ driven x at is_k
    ]

pub snoc-AreDriven :
    (k : DedupeKey) (a : Alert) (alerts : List Alert)
    → a.dedupe_key ≢ k
    → AreDriven k alerts
    → AreDriven k (alerts ++ (a ∷ []))
snoc-AreDriven k a alerts other driven x m is_k = elim (In-snoc a x alerts m) [
  | inl is ↦ absurd (other (ap (λ (z : Alert). z.dedupe_key) (sym is) ∙ is_k))
  | inr at ↦ driven x at is_k
]
