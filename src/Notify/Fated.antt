-- ===== src/Notify/Fated.antt =====
-- central/channels/delivery.py: `retry_due`, and every row of the table.
use printer_nanny.Common.{
  ◌≤◌, length, select, In-All, ℕ, ◌≡◌, refl, sym, ◌∙◌, ◌⊎◌, inl, inr, Bool, true, false, ◌&&◌, some,
  List, All, In, and-true, false-ne-true, Bool-cases,
}
use mathlib.Core.Path.{subst}
use printer_nanny.Delivery.{resolved_first}
use printer_nanny.Notify.{Channel, NotificationDelivery, Db, Settings, close, is_due}
use printer_nanny.Notify.Owed.{Tally}
use printer_nanny.Notify.Retry.{
  batch_limit, due_deliveries, resolved_due, has_id, close_resolved_due, is_wanted, retry_due,
}
use printer_nanny.Notify.Rows.{IsDistinct, same_row, batch-In, batch-IsDistinct}
use printer_nanny.Notify.Wanted.{NoDestination, unwanted-NoDestination}
use printer_nanny.Notify.Batches.{left_out}
use printer_nanny.Notify.Fates.{Fate, untouched, resolved}
use printer_nanny.Notify.Passed.{
  first_pass, and-false, has_id-true, has_id-false, close_listed-IsDistinct, closed_not_due,
  closed-id, first_pass-cases,
}
use printer_nanny.Notify.Lasting.{IsReady, sweep-others, sweep-batch}

module _ (deletes_pending : Bool) (settings : Settings) (channels : List Channel) (now : ℕ)
    (db db' : Db) (t : Tally) where
  abbrev Ended : NotificationDelivery → Type 0
  Ended d =
      (after : NotificationDelivery) × In after db'.deliveries
      × (after.id ≡ d.id)
      × Fate settings channels now db.deliveries (first_pass now db) db.alerts d after

  abbrev batch : List NotificationDelivery
  batch = due_deliveries (is_wanted channels) now (first_pass now db)

  batch-IsReady :
      IsDistinct db.deliveries
      → IsReady deletes_pending settings now channels db.deliveries
          (first_pass now db)
          db.alerts
          (record db { deliveries = first_pass now db })
          batch
  unfolding due_deliveries close_resolved_due IsReady
  batch-IsReady distinct =
      let accepts : NotificationDelivery → Bool = (λ x. is_due now x && is_wanted channels x.key) in
      (
        (λ x. refl),
        batch-IsDistinct accepts batch_limit (first_pass now db) (
            close_listed-IsDistinct (resolved_due db.alerts now db.deliveries) db.deliveries
              distinct),
        In-All _ batch (λ x m.
            let (at, accepted) = batch-In accepts batch_limit (first_pass now db) x m in
            let (due, wanted) = and-true (is_due now x) (is_wanted channels x.key) accepted in
            (at, due, wanted)),
      )

  -- The row is not due, or has no destination, or a whole batch stood before it.
  abbrev IsBehind : NotificationDelivery → Type 0
  IsBehind y =
      (is_due now y ≡ false)
      ⊎ (NoDestination channels y
          ⊎ (200
              ≤ length
                  (select (λ x. is_due now x && is_wanted channels x.key) (first_pass now db))))

  -- A row that the first pass left, in the second.
  second_pass :
      (y : NotificationDelivery)
      → IsDistinct db.deliveries
      → retry_due deletes_pending settings channels now db ≡ some (db', t)
      → In y (first_pass now db)
      → (In y db'.deliveries × IsBehind y) ⊎ ((is_due now y ≡ true) × Ended y)
  unfolding retry_due due_deliveries close_resolved_due
  second_pass y distinct h m =
      let ready = batch-IsReady distinct in
      let accepts : NotificationDelivery → Bool = (λ x. is_due now x && is_wanted channels x.key) in
      let start : Db = record db { deliveries = first_pass now db } in
      elim (Bool-cases (has_id y.id batch)) [
        | inl fetched ↦
            let (b, at, same) = has_id-true y.id batch fetched in
            let (there_before, accepted) = batch-In accepts batch_limit (first_pass now db) b at in
            let is_y =
              same_row (first_pass now db) b y
                (close_listed-IsDistinct (resolved_due db.alerts now db.deliveries) db.deliveries
                  distinct)
                there_before m same in
            inr (
              subst (λ z. (is_due now z ≡ true) × Ended z) is_y
                (
                  (and-true (is_due now b) (is_wanted channels b.key) accepted).0,
                  sweep-batch deletes_pending settings now channels db.deliveries
                      (first_pass now db) db.alerts start db' _ t b batch ready h at,
                ))
        | inr other ↦ inl (
          sweep-others deletes_pending settings now channels db.deliveries (first_pass now db)
              db.alerts start db' _ t y batch ready h m (has_id-false y.id batch other),
          elim (Bool-cases (accepts y)) [
            | inl all ↦ inr (inr (left_out accepts batch_limit (first_pass now db) y m all other))
            | inr n ↦ elim (and-false (is_due now y) (is_wanted channels y.key) n) [
              | inl idle ↦ inl idle
              | inr lost ↦ inr (inl (unwanted-NoDestination y.key channels y refl lost))
            ]
          ],
        )
      ]

-- In a cycle of `retry_due` that completes, over rows with distinct ids, every row ends by the
-- rules of `Fate`. It is untouched only if it is not due; or if it has no destination or 200 rows
-- for the batch were due, and if its alert is not resolved or 200 such rows were due. Else it was
-- due. If its alert was resolved it is closed, and nothing is sent. If not, it has the key of an
-- enabled channel, which took one attempt whose result is folded in; or it is owed: with no channel
-- it waits for less than 7 days and is given up after that; else its targets are just the channels
-- that no later delivery of its alert went out by, in their order: with no target it is closed as
-- superseded; where all targets skip it is owed again; and where one does not, the row takes the
-- first target's key and the result of its attempt.
pub every_row-Fate :
    (deletes_pending : Bool) (settings : Settings) (channels : List Channel) (now : ℕ) (db db' : Db)
    (t : Tally)
    → IsDistinct db.deliveries
    → retry_due deletes_pending settings channels now db ≡ some (db', t)
    → All
        (λ d.
          (after : NotificationDelivery) × In after db'.deliveries
          × (after.id ≡ d.id)
          × Fate settings channels now db.deliveries (first_pass now db) db.alerts d after)
        db.deliveries
unfolding close
every_row-Fate deletes_pending settings channels now db db' t distinct h =
    In-All _ db.deliveries (λ d m. elim (first_pass-cases now db d distinct m) [
      | inl (due, gone, closed) ↦
          elim (second_pass deletes_pending settings channels now db db' t (close resolved_first d)
            distinct h closed) [
              | inl (kept, _) ↦ (close resolved_first d, kept, closed-id d, resolved due gone)
              | inr (again, _) ↦ absurd (false-ne-true (sym (closed_not_due now d) ∙ again))
            ]
      | inr (left, passed) ↦
          elim (second_pass deletes_pending settings channels now db db' t d distinct h left) [
            | inl (kept, behind) ↦ (
              d,
              kept,
              refl,
              untouched (elim passed [
                | inl idle ↦ inl idle
                | inr open_still ↦ elim behind [
                  | inl idle ↦ inl idle
                  | inr reason ↦ inr (reason, open_still)
                ]
              ]),
            )
            | inr (_, ended) ↦ ended
          ]
    ])

-- A row that is not due, because it is settled or held or its next attempt lies ahead, is left as
-- it is by a cycle of `retry_due` that completes, where the rows have distinct ids.
pub settled_rows_kept :
    (deletes_pending : Bool) (settings : Settings) (channels : List Channel) (now : ℕ) (db db' : Db)
    (t : Tally) (d : NotificationDelivery)
    → IsDistinct db.deliveries
    → retry_due deletes_pending settings channels now db ≡ some (db', t)
    → In d db.deliveries
    → is_due now d ≡ false
    → In d db'.deliveries
settled_rows_kept deletes_pending settings channels now db db' t d distinct h m idle =
    elim (first_pass-cases now db d distinct m) [
      | inl (due, _, _) ↦ absurd (false-ne-true (sym idle ∙ due))
      | inr (left, _) ↦
          elim (second_pass deletes_pending settings channels now db db' t d distinct h left) [
            | inl (kept, _) ↦ kept
            | inr (due, _) ↦ absurd (false-ne-true (sym idle ∙ due))
          ]
    ]
