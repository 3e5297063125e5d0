-- ===== src/Notify/Passed.antt =====
-- central/channels/delivery.py: `retry_due`, what its first pass does to every row.
use printer_nanny.Common.{
  ◌≤◌, length, select, arith, ℕ, ◌≡◌, ◌≢◌, refl, sym, ap, ◌∙◌, ◌⊎◌, inl, inr, Bool, true, false,
  ◌&&◌, ◌||◌, List, [], ◌∷◌, All, In, here, there, ◌==◌, and-true, false-ne-true, Bool-cases,
}
use mathlib.Core.Path.{subst}
use printer_nanny.Delivery.{resolved_first}
use printer_nanny.Notify.{NotificationDelivery, Db, close, is_due, is_open, alert_resolved}
use printer_nanny.Notify.Retry.{
  batch_limit, resolved_due, has_id, close_if_listed, close_listed, close_resolved_due,
}
use printer_nanny.Notify.Rows.{IsDistinct, eq-true, same_row, batch-In, eq-other}
use printer_nanny.Notify.Batches.{left_out}

pub and-false : (a b : Bool) → (a && b) ≡ false → (a ≡ false) ⊎ (b ≡ false)
and-false a b h = ground arith

pub has_id-true :
    (id : ℕ) (rows : List NotificationDelivery)
    → has_id id rows ≡ true
    → (b : NotificationDelivery) × In b rows × (b.id ≡ id)
unfolding has_id
has_id-true id [] h = absurd (false-ne-true h)
has_id-true id (d ∷ rows) h =
    let ih = has_id-true id rows in
    elim (Bool-cases (d.id == id)) [
      | inl same ↦ (d, here, eq-true d.id id same)
      | inr other ↦
          let (b, m, e) = ih (sym (ap (λ c. c || has_id id rows) other) ∙ h) in (b, there m, e)
    ]

pub has_id-false :
    (id : ℕ) (rows : List NotificationDelivery) → has_id id rows ≡ false → All (λ b. b.id ≢ id) rows
unfolding has_id
has_id-false id [] h = tt
has_id-false id (d ∷ rows) h =
    let ih = has_id-false id rows in
    elim (Bool-cases (d.id == id)) [
      | inl same ↦ absurd (false-ne-true (sym (sym (ap (λ c. c || has_id id rows) same) ∙ h)))
      | inr other ↦ (eq-other d.id id other, ih (sym (ap (λ c. c || has_id id rows) other) ∙ h))
    ]

close_listed-In :
    (ids rows : List NotificationDelivery) (d : NotificationDelivery)
    → In d rows
    → In (close_if_listed ids d) (close_listed ids rows)
unfolding close_listed
close_listed-In ids (x ∷ rows) d here = here
close_listed-In ids (x ∷ rows) d (there m) = there (close_listed-In ids rows d m)
close_listed-In ids [] d m = elim m [ ]

close_if_listed-id :
    (ids : List NotificationDelivery) (d : NotificationDelivery) → (close_if_listed ids d).id ≡ d.id
unfolding close_if_listed close
close_if_listed-id ids d = elim (Bool-cases (has_id d.id ids)) [
  | inl listed ↦ rw listed refl
  | inr other ↦ rw other refl
]

close_listed-All :
    (ids rows : List NotificationDelivery) (id : ℕ)
    → All (λ x. x.id ≢ id) rows
    → All (λ x. x.id ≢ id) (close_listed ids rows)
unfolding close_listed
close_listed-All ids [] id h = tt
close_listed-All ids (x ∷ rows) id h =
    ((λ e. h.0 (sym (close_if_listed-id ids x) ∙ e)), close_listed-All ids rows id h.1)

pub close_listed-IsDistinct :
    (ids rows : List NotificationDelivery) → IsDistinct rows → IsDistinct (close_listed ids rows)
unfolding close_listed
close_listed-IsDistinct ids [] h = tt
close_listed-IsDistinct ids (x ∷ rows) h = (
  subst (λ i. All (λ y. y.id ≢ i) (close_listed ids rows)) (sym (close_if_listed-id ids x))
      (close_listed-All ids rows x.id h.0),
  close_listed-IsDistinct ids rows h.1,
)

pub closed_not_due :
    (now : ℕ) (d : NotificationDelivery) → is_due now (close resolved_first d) ≡ false
unfolding is_due is_open close
closed_not_due now d = refl

pub closed-id : (d : NotificationDelivery) → (close resolved_first d).id ≡ d.id
unfolding close
closed-id d = refl

-- The rows as the first pass of a cycle leaves them, which its queries read.
abbrev pub first_pass : ℕ → Db → List NotificationDelivery
first_pass now db = (close_resolved_due db.alerts now db.deliveries).0

-- The row is not due, or its alert is not resolved, or a whole batch stood before it.
abbrev pub IsPassed : ℕ → Db → NotificationDelivery → Type 0
IsPassed now db d =
    (is_due now d ≡ false)
    ⊎ ((alert_resolved db.alerts d ≡ false)
        ⊎ (200 ≤ length (select (λ x. is_due now x && alert_resolved db.alerts x) db.deliveries)))

-- In the first pass a row is closed only where it was due and its alert resolved.
pub first_pass-cases :
    (now : ℕ) (db : Db) (d : NotificationDelivery)
    → IsDistinct db.deliveries
    → In d db.deliveries
    → ((is_due now d ≡ true)
        × (alert_resolved db.alerts d ≡ true)
        × In (close resolved_first d) (first_pass now db))
      ⊎ (In d (first_pass now db) × IsPassed now db d)
unfolding close_resolved_due close_if_listed
first_pass-cases now db d distinct m =
    let wanted : NotificationDelivery → Bool = (λ x. is_due now x && alert_resolved db.alerts x) in
    let ids = resolved_due db.alerts now db.deliveries in
    let stands = close_listed-In ids db.deliveries d m in
    elim (Bool-cases (has_id d.id ids)) [
      | inl listed ↦
          let (b, at, same) = has_id-true d.id ids listed in
          let (there_before, accepted) = batch-In wanted batch_limit db.deliveries b at in
          let is_d = same_row db.deliveries b d distinct there_before m same in
          let (due, gone) =
            and-true (is_due now d) (alert_resolved db.alerts d)
              (subst (λ z. wanted z ≡ true) is_d accepted) in
          inl
            (due, gone, subst (λ z. In z (close_listed ids db.deliveries)) (rw listed refl) stands)
      | inr other ↦ inr (
        subst (λ z. In z (close_listed ids db.deliveries)) (rw other refl) stands,
        elim (Bool-cases (wanted d)) [
          | inl y ↦ inr (inr (left_out wanted batch_limit db.deliveries d m y other))
          | inr n ↦ elim (and-false (is_due now d) (alert_resolved db.alerts d) n) [
            | inl idle ↦ inl idle
            | inr live ↦ inr (inl live)
          ]
        ],
      )
    ]
