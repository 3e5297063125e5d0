-- ===== src/Notify/Batches.antt =====
-- central/channels/delivery.py: `_due_deliveries`, whom a bounded batch leaves out.
use mathlib.Core.Path.{◌∙◌}
use printer_nanny.Common.{
  ℕ, zero, suc, ◌≤◌, ◌≡◌, ◌⊎◌, inl, inr, refl, sym, ap, Bool, true, false, List, [], ◌∷◌, length,
  take, select, selected-In, In, here, there, In-inserted, IsFrom, Bool-cases, ==-refl, ◌==◌,
  false-ne-true, arith,
}
use printer_nanny.Notify.{NotificationDelivery}
use printer_nanny.Notify.Retry.{is_ahead, insert_due, due_order, has_id}

insert_due-In :
    (d : NotificationDelivery) (rows : List NotificationDelivery)
    → IsFrom (d ∷ rows) (insert_due d rows)
unfolding insert_due
insert_due-In d [] x m = m
insert_due-In d (y ∷ rows) x m =
    In-inserted d y x rows (insert_due d rows) (is_ahead d y) (insert_due-In d rows x) m

due_order-In : (rows : List NotificationDelivery) → IsFrom rows (due_order rows)
unfolding due_order
due_order-In [] x m = m
due_order-In (d ∷ rows) x here = insert_due-In d (due_order rows) d here
due_order-In (d ∷ rows) x (there m) =
    insert_due-In d (due_order rows) x (there (due_order-In rows x m))

length-insert_due :
    (d : NotificationDelivery) (rows : List NotificationDelivery)
    → length (insert_due d rows) ≡ suc (length rows)
unfolding insert_due
length-insert_due d [] = refl
length-insert_due d (y ∷ rows) =
    let ih = length-insert_due d rows in
    elim (Bool-cases (is_ahead d y)) [ inl y ↦ rw y refl | inr n ↦ rw n (ap suc ih) ]

length-due_order : (rows : List NotificationDelivery) → length (due_order rows) ≡ length rows
unfolding due_order
length-due_order [] = refl
length-due_order (d ∷ rows) = length-insert_due d (due_order rows) ∙ ap suc (length-due_order rows)

In-take {ℓ} :
    {A : Type ℓ} (n : ℕ) (x : A) (xs : List A) → In x xs → In x (take n xs) ⊎ (n ≤ length xs)
In-take zero x xs m = inr (omega arith)
In-take (suc n) x [] m = elim m [ ]
In-take (suc n) x (y ∷ xs) here = inl here
In-take (suc n) x (y ∷ xs) (there m) = elim (In-take n x xs m) [
  | inl taken ↦ inl (there taken)
  | inr full ↦ inr (omega (arith, full))
]

has_id-In :
    (x : NotificationDelivery) (rows : List NotificationDelivery)
    → In x rows
    → has_id x.id rows ≡ true
unfolding has_id
has_id-In x [] m = elim m [ ]
has_id-In x (y ∷ rows) here = rw (==-refl x.id) refl
has_id-In x (y ∷ rows) (there m) =
    let ih = has_id-In x rows m in
    elim (Bool-cases (y.id == x.id)) [ inl e ↦ rw e refl | inr e ↦ rw e ih ]

-- A row that is accepted and not in the batch: the batch is full.
pub left_out :
    (p : NotificationDelivery → Bool) (n : ℕ) (rows : List NotificationDelivery)
    (x : NotificationDelivery)
    → In x rows
    → p x ≡ true
    → has_id x.id (take n (due_order (select p rows))) ≡ false
    → n ≤ length (select p rows)
left_out p n rows x m accepted out =
    let ordered = due_order (select p rows) in
    elim (In-take n x ordered (due_order-In (select p rows) x (selected-In p x rows m accepted))) [
      | inl taken ↦ absurd (false-ne-true (sym out ∙ has_id-In x (take n ordered) taken))
      | inr full ↦ omega (arith, full, length-due_order (select p rows))
    ]
