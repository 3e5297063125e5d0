-- ===== src/Notify/Lasting.antt =====
-- central/channels/delivery.py: `retry_due`, followed through both passes for every row.
use printer_nanny.Common.{
  some-injective, none-ne-some, In-All, All-at, In-cons, ℕ, ◌≡◌, ◌≢◌, refl, sym, ap, ◌∙◌, inl, inr,
  Bool, true, Option, none, some, List, [], ◌∷◌, All, In,
}
use mathlib.Core.Path.{subst}
use printer_nanny.Notify.{
  Channel, NotificationDelivery, Alert, Db, Settings, is_due, alert_resolved,
}
use printer_nanny.Notify.Owed.{Tally, add_tally}
use printer_nanny.Notify.Retry.{is_wanted, handle, resume, sweep}
use printer_nanny.Notify.Rows.{IsDistinct}
use printer_nanny.Notify.Fates.{Fate}
use printer_nanny.Notify.Handled.{IsStep, handle-IsStep}

resumed :
    (o : Option (Db × Tally)) {go : Db → Tally → Option (Db × Tally)} {r : Db × Tally}
    → resume o go ≡ some r
    → (mid : Db) × (u : Tally) × (o ≡ some (mid, u)) × (go mid u ≡ some r)
resumed none h = absurd (none-ne-some h)
resumed (some (mid, u)) h = (mid, u, refl, h)

module _ (deletes_pending : Bool) (settings : Settings) (now : ℕ) (channels : List Channel)
    (table rows : List NotificationDelivery) (alerts : List Alert) where
  abbrev Turns : NotificationDelivery → NotificationDelivery → Type 0
  Turns = Fate settings channels now table rows alerts

  abbrev AgreesOn : Db → Type 0
  AgreesOn db = (x : NotificationDelivery) → alert_resolved db.alerts x ≡ alert_resolved alerts x

  -- The row stands in the tables as it was fetched.
  abbrev IsFetched : Db → NotificationDelivery → Type 0
  IsFetched db x = In x db.deliveries × (is_due now x ≡ true) × (is_wanted channels x.key ≡ true)

  -- So does the batch.
  unfoldable pub IsReady : Db → List NotificationDelivery → Type 0
  IsReady db batch = AgreesOn db × IsDistinct batch × All (IsFetched db) batch

  IsReady-after :
      (db mid : Db) (d : NotificationDelivery) (batch : List NotificationDelivery)
      → IsReady db (d ∷ batch)
      → IsStep settings channels now table rows alerts d db mid
      → IsReady mid batch
  unfolding IsReady
  IsReady-after db mid d batch (agrees, distinct, stand) step = (
    (λ x. step.resolves x ∙ agrees x),
    distinct.1,
    In-All _ batch (λ x m.
        let (at, due, wanted) = All-at (IsFetched db) stand.1 m in
        (step.others x at (All-at (λ x. x.id ≢ d.id) distinct.0 m), due, wanted)),
  )

  -- The loop's first row, and the rest of the loop.
  sweep-cons :
      (db db' : Db) (tally t : Tally) (d : NotificationDelivery) (batch : List NotificationDelivery)
      → IsReady db (d ∷ batch)
      → sweep deletes_pending settings now channels rows db tally (d ∷ batch) ≡ some (db', t)
      → (mid : Db) × (u : Tally) × IsStep settings channels now table rows alerts d db mid
        × (sweep deletes_pending settings now channels rows mid u batch ≡ some (db', t))
  unfolding sweep IsReady
  sweep-cons db db' tally t d batch (agrees, distinct, stand) h =
      let (mid, u, e, rest) = resumed (handle deletes_pending settings now channels rows db d) h in
      (
        mid,
        add_tally tally u,
        handle-IsStep settings channels now table rows alerts deletes_pending db d mid u (stand.0.0)
            stand.0.1 stand.0.2 (agrees d) e,
        rest,
      )

  pub sweep-others :
      (db db' : Db) (tally t : Tally) (x : NotificationDelivery) (batch : List NotificationDelivery)
      → IsReady db batch
      → sweep deletes_pending settings now channels rows db tally batch ≡ some (db', t)
      → In x db.deliveries
      → All (λ b. b.id ≢ x.id) batch
      → In x db'.deliveries
  unfolding sweep
  sweep-others db db' tally t x [] ready h m ne =
      subst (λ z. In x z.deliveries) (ap (λ p. p.0) (some-injective h)) m
  sweep-others db db' tally t x (d ∷ batch) ready h m ne =
      let (mid, u, step, rest) = sweep-cons db db' tally t d batch ready h in
      sweep-others mid db' u t x batch (IsReady-after db mid d batch ready step) rest
        (step.others x m (λ e. ne.0 (sym e))) ne.1

  pub sweep-batch :
      (db db' : Db) (tally t : Tally) (b : NotificationDelivery) (batch : List NotificationDelivery)
      → IsReady db batch
      → sweep deletes_pending settings now channels rows db tally batch ≡ some (db', t)
      → In b batch
      → (after : NotificationDelivery) × In after db'.deliveries × (after.id ≡ b.id) × Turns b after
  unfolding IsReady
  sweep-batch db db' tally t b [] ready h m = elim m [ ]
  sweep-batch db db' tally t b (d ∷ batch) ready h m =
      let (mid, u, step, rest) = sweep-cons db db' tally t d batch ready h in
      let next = IsReady-after db mid d batch ready step in
      let ih = sweep-batch mid db' u t b batch next rest in
      elim (In-cons m) [
        | inl is_d ↦
            subst
              (λ z.
                (after : NotificationDelivery) × In after db'.deliveries
                × (after.id ≡ z.id)
                × Turns z after)
              (sym is_d)
              (
                step.after,
                sweep-others mid db' u t step.after batch next rest step.stands (
                    In-All _ batch
                      (λ y n e. All-at (λ x. x.id ≢ d.id) ready.1.0 n (e ∙ step.same_id))),
                step.same_id,
                step.fate,
              )
        | inr later ↦ ih later
      ]
