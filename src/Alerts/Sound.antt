-- ===== src/Alerts/Sound.antt =====
-- central/worker/jobs.py: what the passes keep of the alerts and of what subscribers were told.
use mathlib.Core.Path.{subst}
use printer_nanny.Common.{
  ℕ, suc, ◌≡◌, ◌≢◌, ◌≤◌, refl, sym, arith, true, false, List, [], ◌∷◌, ◌++◌, ◌==◌, In, here, there,
  In-cons, Bool-cases, inl, inr, ◌⊎◌,
}
use printer_nanny.Alerts.{
  DedupeKey, key_eq, Alert, Transition, alert_opened, emit, is_live, update_alert,
}
use printer_nanny.Alerts.Rows.{
  key_eq-eq, count_id, count_live, count_id-In, count_id-append, count_live-append, count_id-update,
}
use printer_nanny.Alerts.Feed.{
  IsTold, IsUnheard, emit-new, IsTold-opened, IsTold-other, IsUnheard-other, IsTold-at,
}
use printer_nanny.Alerts.Steps.{Board}

abbrev pub IsToldOf : List Transition → Alert → Type 0
IsToldOf outbox a = IsTold a.id (is_live a) a.flap_count outbox

-- Distinct ids below the next one, at most one live alert for each key, and a subscriber's view
-- that is the state of every alert.
pub record IsSound (b : Board) : Type 0 where
  pub distinct : (i : ℕ) → count_id i b.alerts ≤ 1
  pub below : (i : ℕ) → b.next ≤ i → count_id i b.alerts ≡ 0
  pub one_live : (k : DedupeKey) → count_live k b.alerts ≤ 1
  pub views : (a : Alert) → In a b.alerts → IsToldOf b.outbox a
  pub unheard : (i : ℕ) → b.next ≤ i → IsUnheard i b.outbox

pub In-snoc : (a x : Alert) (xs : List Alert) → In x (xs ++ (a ∷ [])) → (x ≡ a) ⊎ In x xs
In-snoc a x [] here = inl refl
In-snoc a x [] (there m) = elim m [ ]
In-snoc a x (y ∷ xs) here = inr here
In-snoc a x (y ∷ xs) (there m) = elim (In-snoc a x xs m) [ inl e ↦ inl e | inr i ↦ inr (there i) ]

-- A row of the changed table is the changed row, or another one that was there.
pub In-updated :
    (id : ℕ) (f : Alert → Alert) (x : Alert) (alerts : List Alert)
    → In x (update_alert id f alerts)
    → ((y : Alert) × In y alerts × (y.id ≡ id) × (x ≡ f y)) ⊎ (In x alerts × (x.id ≢ id))
unfolding update_alert
In-updated id f x [] m = elim m [ ]
In-updated id f x (a ∷ alerts) m =
    let later : In x (update_alert id f alerts)
        → ((y : Alert) × In y (a ∷ alerts) × (y.id ≡ id) × (x ≡ f y))
          ⊎ (In x (a ∷ alerts) × (x.id ≢ id)) =
      λ n. elim (In-updated id f x alerts n) [
        | inl (y, at, same, is) ↦ inl (y, there at, same, is)
        | inr (at, other) ↦ inr (there at, other)
      ] in
    elim (Bool-cases (a.id == id)) [
      | inl y ↦ elim (In-cons (subst (In x) (changed y) m)) [
        | inl is ↦ inl (a, here, ground (arith, y), is)
        | inr n ↦ later n
      ]
      | inr n ↦ elim (In-cons (subst (In x) (kept n) m)) [
        | inl is ↦ inr (
            subst (λ z. In z (a ∷ alerts) × (z.id ≢ id)) (sym is) (here, λ e. ground (arith, e, n)))
        | inr k ↦ later k
      ]
    ]
  where
    changed : (a.id == id) ≡ true → update_alert id f (a ∷ alerts) ≡ f a ∷ update_alert id f alerts
    changed h = rw h refl

    kept : (a.id == id) ≡ false → update_alert id f (a ∷ alerts) ≡ a ∷ update_alert id f alerts
    kept h = rw h refl

pub opens-IsSound :
    (b : Board) (a : Alert)
    → IsSound b
    → a.id ≡ b.next
    → a.flap_count ≡ 0
    → is_live a ≡ true
    → count_live a.dedupe_key b.alerts ≡ 0
    → IsSound (record {
      alerts = b.alerts ++ (a ∷ []);
      next = suc b.next;
      outbox = emit (alert_opened b.next 0) b.outbox;
    })
opens-IsSound b a s is_next unflapped live none_live =
    let told_now = emit-new (alert_opened b.next 0) b.outbox (fresh.never_opened 0) in
    rw told_now (record {
      distinct = λ i.
          ground (arith, count_id-append i b.alerts (a ∷ []), s.distinct i, s.below i, is_next);
      below = λ i h. ground (arith, count_id-append i b.alerts (a ∷ []), s.below i, is_next);
      one_live = λ k. one k;
      views = λ x m. view x (In-snoc a x b.alerts m);
      unheard = λ i h.
          IsUnheard-other (alert_opened b.next 0) i b.outbox (λ e. omega (arith, e, h))
            (s.unheard i (omega (arith, h)));
    })
  where
    fresh : IsUnheard b.next b.outbox
    fresh = s.unheard b.next (omega arith)

    one : (k : DedupeKey) → count_live k (b.alerts ++ (a ∷ [])) ≤ 1
    one k = elim (Bool-cases (key_eq a.dedupe_key k)) [
      | inl same ↦ ground (
        arith,
        count_live-append k b.alerts (a ∷ []),
        subst (λ l. count_live l b.alerts ≡ 0) (key_eq-eq a.dedupe_key k same) none_live,
      )
      | inr other ↦ ground (arith, count_live-append k b.alerts (a ∷ []), s.one_live k, other)
    ]

    view : (x : Alert) → (x ≡ a) ⊎ In x b.alerts → IsToldOf (alert_opened b.next 0 ∷ b.outbox) x
    view x (inl is_a) = subst (IsToldOf (alert_opened b.next 0 ∷ b.outbox)) (sym is_a) (
        IsTold-at (alert_opened b.next 0 ∷ b.outbox) (sym is_next) (sym live) (sym unflapped) (
          IsTold-opened b.next 0 b.outbox (λ n lt. fresh.never_opened n)
            (λ n lt. fresh.never_resolved n)))
    view x (inr m) =
        IsTold-other (alert_opened b.next 0) x.id x.flap_count (is_live x) b.outbox
          (λ e. omega (arith, count_id-In x b.alerts m, s.below x.id (omega (arith, e))))
          (s.views x m)

-- A change of one row, told under the row's own id, keeps the board sound.
module _ (b : Board) (s : IsSound b) (id : ℕ) (f : Alert → Alert)
    (same_id : (x : Alert) → (f x).id ≡ x.id) where
  pub updated-IsSound :
      (outbox : List Transition)
      → ((k : DedupeKey) → count_live k (update_alert id f b.alerts) ≤ 1)
      → ((y : Alert) → In y b.alerts → y.id ≡ id → IsToldOf outbox (f y))
      → ((y : Alert) → In y b.alerts → y.id ≢ id → IsToldOf outbox y)
      → ((i : ℕ) → b.next ≤ i → IsUnheard i outbox)
      → IsSound (record b { alerts = update_alert id f b.alerts; outbox = outbox })
  updated-IsSound outbox one changed kept unheard = record {
    distinct = λ i. omega (arith, count_id-update i id f b.alerts same_id, s.distinct i);
    below = λ i h. omega (arith, count_id-update i id f b.alerts same_id, s.below i h);
    one_live = one;
    views = λ x m. elim (In-updated id f x b.alerts m) [
      | inl (y, at, same, is) ↦ subst (IsToldOf outbox) (sym is) (changed y at same)
      | inr (at, other) ↦ kept x at other
    ];
    unheard = unheard;
  }
