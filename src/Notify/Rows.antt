-- ===== src/Notify/Rows.antt =====
-- central/channels/delivery.py: the table of deliveries, read and written by id.
use printer_nanny.Common.{
  In-All, All-at, In-cons, IsFrom, take-IsFrom, In-select, ℕ, zero, suc, ◌≡◌, ◌≢◌, refl, sym, ap,
  ◌∙◌, inl, inr, Bool, true, false, ◌==◌, List, [], ◌∷◌, take, select, All, In, here, there,
  Bool-cases, arith,
}
use mathlib.Core.Path.{subst}
use printer_nanny.Notify.{NotificationDelivery, put_row}
use printer_nanny.Notify.Retry.{insert_due, due_order, is_ahead}

-- No two rows have one id.
abbrev pub IsDistinct : List NotificationDelivery → Type 0
IsDistinct [] = Unit
IsDistinct (d ∷ rows) = All (λ x. x.id ≢ d.id) rows × IsDistinct rows

eq-false : (a b : ℕ) → a ≢ b → (a == b) ≡ false
eq-false a b h = ground arith

pub eq-other : (a b : ℕ) → (a == b) ≡ false → a ≢ b
eq-other a b h = ground arith

pub eq-true : (a b : ℕ) → (a == b) ≡ true → a ≡ b
eq-true a b h = ground arith

-- Writing a row leaves the rows with other ids.
pub put_row-others :
    (e x : NotificationDelivery) (rows : List NotificationDelivery)
    → In x rows
    → x.id ≢ e.id
    → In x (put_row e rows)
unfolding put_row
put_row-others e x [] m h = elim m [ ]
put_row-others e x (y ∷ rows) m h =
    let ih = put_row-others e x rows in
    elim (Bool-cases (y.id == e.id)) [
      | inl same ↦ rw same (elim (In-cons m) [
        | inl is_y ↦ absurd (h (ap (λ z. z.id) is_y ∙ eq-true y.id e.id same))
        | inr later ↦ there (ih later h)
      ])
      | inr other ↦ rw other (elim (In-cons m) [
        | inl is_y ↦ subst (λ z. In x (z ∷ put_row e rows)) is_y here
        | inr later ↦ there (ih later h)
      ])
    ]

-- And puts the new row in the place of the old one.
pub put_row-written :
    (e x : NotificationDelivery) (rows : List NotificationDelivery)
    → In x rows
    → x.id ≡ e.id
    → In e (put_row e rows)
unfolding put_row
put_row-written e x [] m same = elim m [ ]
put_row-written e x (y ∷ rows) m same =
    let ih = put_row-written e x rows in
    elim (Bool-cases (y.id == e.id)) [
      | inl found ↦ rw found here
      | inr other ↦ rw other (elim (In-cons m) [
        | inl is_y ↦ absurd (eq-other y.id e.id other (sym (ap (λ z. z.id) is_y) ∙ same))
        | inr later ↦ there (ih later same)
      ])
    ]

-- Rows with one id are one row.
pub same_row :
    (rows : List NotificationDelivery) (x y : NotificationDelivery)
    → IsDistinct rows
    → In x rows
    → In y rows
    → x.id ≡ y.id
    → x ≡ y
same_row [] x y h m _ e = elim m [ ]
same_row (d ∷ rows) x y h here here e = refl
same_row (d ∷ rows) x y h here (there m) e = absurd (All-at (λ z. z.id ≢ d.id) h.0 m (sym e))
same_row (d ∷ rows) x y h (there m) here e = absurd (All-at (λ z. z.id ≢ d.id) h.0 m e)
same_row (d ∷ rows) x y h (there m) (there n) e = same_row rows x y h.1 m n e

insert_due-IsFrom :
    (d : NotificationDelivery) (rows : List NotificationDelivery)
    → IsFrom (insert_due d rows) (d ∷ rows)
unfolding insert_due
insert_due-IsFrom d [] x m = m
insert_due-IsFrom d (y ∷ rows) x m =
    let ih = insert_due-IsFrom d rows x in
    elim (Bool-cases (is_ahead d y)) [
      | inl ahead ↦ subst (λ l. In x l) (rw ahead refl) m
      | inr behind ↦ elim (In-cons (subst (λ l. In x l) (rw behind refl) m)) [
        | inl is_y ↦ subst (λ z. In x (d ∷ z ∷ rows)) is_y (there here)
        | inr later ↦ elim (In-cons (ih later)) [
          | inl is_d ↦ subst (λ z. In x (z ∷ y ∷ rows)) is_d here
          | inr deep ↦ there (there deep)
        ]
      ]
    ]

pub due_order-IsFrom : (rows : List NotificationDelivery) → IsFrom (due_order rows) rows
unfolding due_order
due_order-IsFrom [] x m = m
due_order-IsFrom (d ∷ rows) x m = elim (In-cons (insert_due-IsFrom d (due_order rows) x m)) [
  | inl is_d ↦ subst (λ z. In x (z ∷ rows)) is_d here
  | inr later ↦ there (due_order-IsFrom rows x later)
]

-- Distinct rows stay distinct in a query's result.
All-from :
    (P : NotificationDelivery → Type 0) (xs ys : List NotificationDelivery)
    → IsFrom xs ys
    → All P ys
    → All P xs
All-from P xs ys from h = In-All P xs (λ x m. All-at P h (from x m))

select-IsDistinct :
    (p : NotificationDelivery → Bool) (rows : List NotificationDelivery)
    → IsDistinct rows
    → IsDistinct (select p rows)
select-IsDistinct p [] h = tt
select-IsDistinct p (d ∷ rows) h =
    let ih = select-IsDistinct p rows h.1 in
    let new =
      All-from (λ x. x.id ≢ d.id) (select p rows) rows (λ x m. (In-select p x rows m).0) h.0 in
    elim (Bool-cases (p d)) [ inl hit ↦ rw hit (new, ih) | inr miss ↦ rw miss ih ]

insert_due-IsDistinct :
    (d : NotificationDelivery) (rows : List NotificationDelivery)
    → All (λ x. x.id ≢ d.id) rows
    → IsDistinct rows
    → IsDistinct (insert_due d rows)
unfolding insert_due
insert_due-IsDistinct d [] h k = (tt, tt)
insert_due-IsDistinct d (y ∷ rows) h k =
    let ih = insert_due-IsDistinct d rows h.1 k.1 in
    let new : All (λ x. x.id ≢ y.id) (insert_due d rows) =
      All-from (λ x. x.id ≢ y.id) (insert_due d rows) (d ∷ rows) (insert_due-IsFrom d rows)
        ((λ e. h.0 (sym e)), k.0) in
    elim (Bool-cases (is_ahead d y)) [
      | inl ahead ↦ rw ahead (h, k)
      | inr behind ↦ rw behind (new, ih)
    ]

pub due_order-IsDistinct :
    (rows : List NotificationDelivery) → IsDistinct rows → IsDistinct (due_order rows)
unfolding due_order
due_order-IsDistinct [] h = h
due_order-IsDistinct (d ∷ rows) h =
    insert_due-IsDistinct d (due_order rows)
      (All-from (λ x. x.id ≢ d.id) (due_order rows) rows (due_order-IsFrom rows) h.0)
      (due_order-IsDistinct rows h.1)

take-IsDistinct :
    (n : ℕ) (rows : List NotificationDelivery) → IsDistinct rows → IsDistinct (take n rows)
take-IsDistinct zero rows h = tt
take-IsDistinct (suc n) [] h = tt
take-IsDistinct (suc n) (d ∷ rows) h = (
  All-from (λ x. x.id ≢ d.id) (take n rows) rows (take-IsFrom n rows) h.0,
  take-IsDistinct n rows h.1,
)

-- A batch: the first rows that a test accepts, in the order of their becoming due.
module _ (p : NotificationDelivery → Bool) (n : ℕ) (rows : List NotificationDelivery) where
  pub batch-In :
      (x : NotificationDelivery)
      → In x (take n (due_order (select p rows)))
      → In x rows × (p x ≡ true)
  batch-In x m =
      In-select p x rows
        (due_order-IsFrom (select p rows) x (take-IsFrom n (due_order (select p rows)) x m))

  pub batch-IsDistinct : IsDistinct rows → IsDistinct (take n (due_order (select p rows)))
  batch-IsDistinct h =
      take-IsDistinct n (due_order (select p rows))
        (due_order-IsDistinct (select p rows) (select-IsDistinct p rows h))
