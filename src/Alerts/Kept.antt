-- ===== src/Alerts/Kept.antt =====
-- central/worker/jobs.py: a step in the life of alerts keeps the board sound.
use mathlib.Core.Path.{subst}
use printer_nanny.Common.{
  ℕ, suc, ◌≡◌, ◌≤◌, ◌<◌, refl, sym, arith, true, false, ◌∷◌, In, Bool-cases, inl, inr,
}
use printer_nanny.Alerts.{
  DedupeKey, key_eq, Alert, alert_opened, alert_resolved, emit, is_live, update_alert,
}
use printer_nanny.Alerts.Rows.{
  key_eq-eq, count_live, count_id-In, In-unique, is_live_with, count_live-kept, count_live-grows,
  count_live-falls,
}
use printer_nanny.Alerts.Feed.{
  emit-new, IsTold-opened, IsTold-resolved, IsTold-other, IsUnheard-other, IsTold-at,
}
use printer_nanny.Alerts.Steps.{
  Board, Turns, Writes, Step, opens, reopens, closes, writes, Steps, done, before,
}
use printer_nanny.Alerts.Sound.{IsToldOf, IsSound, opens-IsSound, updated-IsSound}

-- Of a row in the table: it has an id below the next one, and no other row has that id.
module _ (b : Board) (s : IsSound b) (a : Alert) (m : In a b.alerts) where
  is_below : a.id < b.next
  is_below = ground (arith, s.below a.id, count_id-In a b.alerts m)

  alone : (y : Alert) → In y b.alerts → y.id ≡ a.id → y ≡ a
  alone y n same = In-unique a y b.alerts (s.distinct a.id) same m n

  module _ (f : Alert → Alert) where
    reopens-IsSound :
        is_live a ≡ false
        → count_live a.dedupe_key b.alerts ≡ 0
        → Turns f true suc
        → IsSound (record b {
          alerts = update_alert a.id f b.alerts;
          outbox = emit (alert_opened a.id (suc a.flap_count)) b.outbox;
        })
    reopens-IsSound closed none_live t =
        let v = s.views a m in
        let n = suc a.flap_count in
        let now = emit-new (alert_opened a.id n) b.outbox (v.ahead_opened n (omega arith)) in
        rw now (
          updated-IsSound b s a.id f t.same_id (alert_opened a.id n ∷ b.outbox) one
            (λ y at same.
              subst (λ z. IsToldOf (alert_opened a.id n ∷ b.outbox) (f z)) (sym (alone y at same))
                (IsTold-at (alert_opened a.id n ∷ b.outbox) (sym (t.same_id a)) (sym (t.turned a))
                  (sym (t.flapped a))
                  (IsTold-opened a.id n b.outbox (λ j lt. v.ahead_opened j (omega (arith, lt)))
                    (λ j lt. v.ahead_resolved j (omega (arith, lt))))))
            (λ y at other.
              IsTold-other (alert_opened a.id n) y.id y.flap_count (is_live y) b.outbox
                (λ e. other (sym e)) (s.views y at))
            (λ i h.
              IsUnheard-other (alert_opened a.id n) i b.outbox (λ e. omega (arith, e, h, is_below))
                (s.unheard i h)))
      where
        unmatched :
            (k : DedupeKey) (x : Alert)
            → key_eq x.dedupe_key k ≡ false
            → is_live_with k (f x) ≡ is_live_with k x
        unmatched k x h = rw (t.same_key x, h) refl

        one : (k : DedupeKey) → count_live k (update_alert a.id f b.alerts) ≤ 1
        one k = elim (Bool-cases (key_eq a.dedupe_key k)) [
          | inl same ↦
              let none_of_k =
                subst (λ l. count_live l b.alerts ≡ 0) (key_eq-eq a.dedupe_key k same) none_live in
              omega (arith, none_of_k, s.distinct a.id, count_live-grows k a.id f b.alerts)
          | inr other ↦ omega (
            arith,
            s.one_live k,
            count_live-kept k a.id f b.alerts (λ x at same.
                unmatched k x
                  (subst (λ z. key_eq z.dedupe_key k ≡ false) (sym (alone x at same)) other)),
          )
        ]

    closes-IsSound :
        is_live a ≡ true
        → Turns f false (λ n. n)
        → IsSound (record b {
          alerts = update_alert a.id f b.alerts;
          outbox = emit (alert_resolved a.id a.flap_count) b.outbox;
        })
    closes-IsSound live t =
        let v = s.views a m in
        let n = a.flap_count in
        let now = emit-new (alert_resolved a.id n) b.outbox (v.unresolved live) in
        rw now (
          updated-IsSound b s a.id f t.same_id (alert_resolved a.id n ∷ b.outbox)
            (λ k. omega (arith, s.one_live k, count_live-falls k a.id f b.alerts t.turned))
            (λ y at same.
              subst (λ z. IsToldOf (alert_resolved a.id n ∷ b.outbox) (f z)) (sym (alone y at same))
                (IsTold-at (alert_resolved a.id n ∷ b.outbox) (sym (t.same_id a)) (sym (t.turned a))
                  (sym (t.flapped a))
                  (IsTold-resolved a.id n b.outbox (IsTold-at b.outbox refl live refl v))))
            (λ y at other.
              IsTold-other (alert_resolved a.id n) y.id y.flap_count (is_live y) b.outbox
                (λ e. other (sym e)) (s.views y at))
            (λ i h.
              IsUnheard-other (alert_resolved a.id n) i b.outbox
                (λ e. omega (arith, e, h, is_below)) (s.unheard i h)))

Writes-IsSound :
    (b : Board) (id : ℕ) (f : Alert → Alert)
    → IsSound b
    → Writes f
    → IsSound (record b { alerts = update_alert id f b.alerts })
Writes-IsSound b id f s w =
    updated-IsSound b s id f w.same_id b.outbox
      (λ k. omega (arith, s.one_live k, count_live-kept k id f b.alerts (λ x at same. shown k x)))
      (λ y at same.
        IsTold-at b.outbox (sym (w.same_id y)) (sym (w.same_life y)) (sym (w.same_flaps y))
          (s.views y at))
      (λ y at other. s.views y at) s.unheard
  where
    shown : (k : DedupeKey) (x : Alert) → is_live_with k (f x) ≡ is_live_with k x
    shown k x = rw (w.same_key x, w.same_life x) refl

pub Step-IsSound : {b c : Board} → Step b c → IsSound b → IsSound c
Step-IsSound {b = b} (opens a is_next unflapped live none_live e) s =
    subst IsSound (sym e) (opens-IsSound b a s is_next unflapped live none_live)
Step-IsSound {b = b} (reopens a f m closed none_live t e) s =
    subst IsSound (sym e) (reopens-IsSound b s a m f closed none_live t)
Step-IsSound {b = b} (closes a f m live t e) s =
    subst IsSound (sym e) (closes-IsSound b s a m f live t)
Step-IsSound {b = b} (writes id f w e) s = subst IsSound (sym e) (Writes-IsSound b id f s w)

pub Steps-IsSound : {b c : Board} → Steps b c → IsSound b → IsSound c
Steps-IsSound done s = s
Steps-IsSound (before st r) s = Steps-IsSound r (Step-IsSound st s)
