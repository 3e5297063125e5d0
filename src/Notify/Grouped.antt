-- ===== src/Notify/Grouped.antt =====
-- central/channels/delivery.py: `flush_deferred`, how the held rows are grouped by client.
use printer_nanny.Common.{
  In-left, In-cons, ℕ, ◌≡◌, refl, sym, ap, inl, inr, String, Bool, true, false, Option, none, some,
  List, [], ◌∷◌, ◌++◌, All, All-append, In, here, there, Bool-cases, false-ne-true,
}
use mathlib.Core.Path.{subst}
use printer_nanny.Notify.{NotificationDelivery, Alert, alert_resolved}
use printer_nanny.Notify.Deferred.{client_of, Group, same_client, add_to_group, group}
use printer_nanny.Notify.Rows.{eq-true}

pub same_client-eq : (a b : Option ℕ) → same_client a b ≡ true → a ≡ b
same_client-eq none none h = refl
same_client-eq none (some b) h = absurd (false-ne-true h)
same_client-eq (some a) none h = absurd (false-ne-true h)
same_client-eq (some a) (some b) h = ap some (sym (eq-true b a h))

pub In-right {ℓ} : {A : Type ℓ} (x : A) (xs : List A) → In x (xs ++ (x ∷ []))
In-right x [] = here
In-right x (y ∷ xs) = there (In-right x xs)

-- A row stands in one of the groups.
abbrev pub IsHeld : NotificationDelivery → List Group → Type 0
IsHeld d groups = (g : Group) × In g groups × In d g.rows

module _ (alerts : List Alert) (table : List NotificationDelivery) where
  -- The rows of a group are of its client, unresolved, and from the table.
  abbrev pub IsOfClient : Group → Type 0
  IsOfClient g =
      All
        (λ y.
          ((client_of alerts y).0 ≡ g.client_id) × (alert_resolved alerts y ≡ false) × In y table)
        g.rows

  added-IsOfClient :
      (d : NotificationDelivery) (name : Option String) (g : Group)
      → (client_of alerts d).0 ≡ g.client_id
      → In d table
      → IsOfClient g
      → IsOfClient (add_to_group d name (alert_resolved alerts d) g)
  unfolding add_to_group
  added-IsOfClient d name g same m h = elim (Bool-cases (alert_resolved alerts d)) [
    | inl gone ↦ rw gone h
    | inr live ↦ rw live (All-append _ g.rows (d ∷ []) h ((same, live, m), tt))
  ]

  pub group-IsOfClient :
      (d : NotificationDelivery) (name : Option String) (groups : List Group)
      → In d table
      → All IsOfClient groups
      → All IsOfClient (group d (client_of alerts d).0 name (alert_resolved alerts d) groups)
  unfolding group
  group-IsOfClient d name [] m h = (
    added-IsOfClient d name
        (record { client_id = (client_of alerts d).0; client_name = name; rows = []; resolved = 0 })
        refl m tt,
    tt,
  )
  group-IsOfClient d name (g ∷ groups) m h =
      let ih = group-IsOfClient d name groups m h.1 in
      elim (Bool-cases (same_client (client_of alerts d).0 g.client_id)) [
        | inl same ↦ rw same (
          added-IsOfClient d name g (same_client-eq (client_of alerts d).0 g.client_id same) m h.0,
          h.1,
        )
        | inr other ↦ rw other (h.0, ih)
      ]

added-keeps :
    (x d : NotificationDelivery) (name : Option String) (res : Bool) (g : Group)
    → In x g.rows
    → In x (add_to_group d name res g).rows
unfolding add_to_group
added-keeps x d name true g m = m
added-keeps x d name false g m = In-left (d ∷ []) m

added-new :
    (d : NotificationDelivery) (name : Option String) (g : Group)
    → In d (add_to_group d name false g).rows
unfolding add_to_group
added-new d name g = In-right d g.rows

pub group-keeps :
    (x d : NotificationDelivery) (client : Option ℕ) (name : Option String) (res : Bool)
    (groups : List Group)
    → IsHeld x groups
    → IsHeld x (group d client name res groups)
unfolding group
group-keeps x d client name res [] (g, at, m) = elim at [ ]
group-keeps x d client name res (g ∷ groups) (k, at, m) =
    let ih = group-keeps x d client name res groups in
    elim (Bool-cases (same_client client g.client_id)) [
      | inl same ↦ rw same (elim (In-cons at) [
        | inl is_g ↦ (
          add_to_group d name res g,
          here,
          added-keeps x d name res g (subst (λ z. In x z.rows) is_g m),
        )
        | inr later ↦ (k, there later, m)
      ])
      | inr other ↦ rw other (elim (In-cons at) [
        | inl is_g ↦ (g, here, subst (λ z. In x z.rows) is_g m)
        | inr later ↦ let (j, n, o) = ih (k, later, m) in (j, there n, o)
      ])
    ]

pub group-new :
    (d : NotificationDelivery) (client : Option ℕ) (name : Option String) (groups : List Group)
    → IsHeld d (group d client name false groups)
unfolding group
group-new d client name [] = (_, here, added-new d name _)
group-new d client name (g ∷ groups) =
    let ih = group-new d client name groups in
    elim (Bool-cases (same_client client g.client_id)) [
      | inl same ↦ rw same (add_to_group d name false g, here, added-new d name g)
      | inr other ↦ rw other (let (j, n, o) = ih in (j, there n, o))
    ]
