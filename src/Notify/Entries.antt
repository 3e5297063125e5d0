-- ===== src/Notify/Entries.antt =====
-- central/channels/delivery.py: `flush_deferred`, what each group holds once all rows are grouped.
use mathlib.Core.Path.{subst, ◌∙◌}
use mathlib.Core.List.{append-nil}
use printer_nanny.Common.{
  ℕ, ◌+◌, ◌≡◌, ◌≢◌, refl, sym, ap, inl, inr, Bool, true, false, ◌&&◌, not, String, Option, none,
  some, List, [], ◌∷◌, ◌++◌, length, length-append, select, select-append, All, Any, In, In-left,
  Bool-cases, false-ne-true, ◌==◌, ==-refl, arith,
}
use printer_nanny.Notify.{NotificationDelivery, Alert, alert_resolved}
use printer_nanny.Notify.Deferred.{client_of, Group, same_client, add_to_group, group}
use printer_nanny.Notify.Grouped.{same_client-eq, In-right}

abbrev pub is_same : Option ℕ → Option ℕ → Bool
is_same none none = true
is_same none (some b) = false
is_same (some a) none = false
is_same (some a) (some b) = a == b

is_same-same_client : (a b : Option ℕ) → same_client b a ≡ is_same a b
is_same-same_client none none = refl
is_same-same_client none (some b) = refl
is_same-same_client (some a) none = refl
is_same-same_client (some a) (some b) = refl

is_same_refl : (a : Option ℕ) → is_same a a ≡ true
is_same_refl none = refl
is_same_refl (some a) = ==-refl a

pub is_same-other : (a b : Option ℕ) → a ≢ b → is_same a b ≡ false
is_same-other none none n = absurd (n refl)
is_same-other none (some b) n = refl
is_same-other (some a) none n = refl
is_same-other (some a) (some b) n = elim (Bool-cases (a == b)) [
  | inl y ↦ absurd (n (ap some (ground arith)))
  | inr m ↦ m
]

module _ (alerts : List Alert) where
  -- An entry of the client's digest, and a row that the digest only counts.
  abbrev pub is_entry : Option ℕ → NotificationDelivery → Bool
  is_entry client y = is_same (client_of alerts y).0 client && not (alert_resolved alerts y)

  abbrev pub is_dropped : Option ℕ → NotificationDelivery → Bool
  is_dropped client y = is_same (client_of alerts y).0 client && alert_resolved alerts y

  -- The name of the client as a row's alert has it.
  abbrev pub IsNamed : List NotificationDelivery → Option ℕ → Option String → Type 0
  IsNamed seen client name =
      (y : NotificationDelivery) × In y seen
      × ((client_of alerts y).0 ≡ client)
      × (name ≡ (client_of alerts y).1)

  abbrev IsCounted : List NotificationDelivery → Group → Type 0
  IsCounted seen g =
      (g.rows ≡ select (is_entry g.client_id) seen)
      × (g.resolved ≡ length (select (is_dropped g.client_id) seen))

  -- The group holds just its client's rows among those that were seen.
  abbrev pub IsExact : List NotificationDelivery → Group → Type 0
  IsExact seen g = IsCounted seen g × IsNamed seen g.client_id g.client_name

  abbrev pub HasDistinctClients : List Group → Type 0
  HasDistinctClients [] = Unit
  HasDistinctClients (g ∷ groups) =
      All (λ h. h.client_id ≢ g.client_id) groups × HasDistinctClients groups

  module _ (d : NotificationDelivery) where
    abbrev pub client : Option ℕ
    client = (client_of alerts d).0

    abbrev pub name : Option String
    name = (client_of alerts d).1

    abbrev added : Group → Group
    added g = add_to_group d name (alert_resolved alerts d) g

    abbrev pub grouped : List Group → List Group
    grouped groups = group d client name (alert_resolved alerts d) groups

    added-client : (g : Group) → (added g).client_id ≡ g.client_id
    unfolding add_to_group
    added-client g = elim (Bool-cases (alert_resolved alerts d)) [
      | inl y ↦ rw y refl
      | inr n ↦ rw n refl
    ]

    -- A group of another client is as it was.
    other-IsExact :
        (seen : List NotificationDelivery) (g : Group)
        → g.client_id ≢ client
        → IsExact seen g
        → IsExact (seen ++ (d ∷ [])) g
    other-IsExact seen g ne ((rows, resolved), (y, m, c, n)) =
        let other = is_same-other client g.client_id (λ e. ne (sym e)) in
        (
          (
            rows
                ∙ sym (append-nil (select (is_entry g.client_id) seen))
                ∙ sym (select-append (is_entry g.client_id) seen (d ∷ []) ∙ rw other refl),
            resolved
                ∙ ap length (
                    sym (append-nil (select (is_dropped g.client_id) seen))
                    ∙ sym (select-append (is_dropped g.client_id) seen (d ∷ []) ∙ rw other refl)),
          ),
          (y, In-left (d ∷ []) m, c, n),
        )

    -- The row's own group counts it.
    own-IsExact :
        (seen : List NotificationDelivery) (g : Group)
        → g.client_id ≡ client
        → IsCounted seen g
        → IsExact (seen ++ (d ∷ [])) (added g)
    unfolding add_to_group
    own-IsExact seen g same (rows, resolved) =
        let own : is_same client g.client_id ≡ true =
          subst (λ c. is_same client c ≡ true) (sym same) (is_same_refl client) in
        let named : IsNamed (seen ++ (d ∷ [])) g.client_id name =
          (d, In-right d seen, sym same, refl) in
        elim (Bool-cases (alert_resolved alerts d)) [
          | inl gone ↦ rw gone (
            (
              rows
                  ∙ sym (append-nil (select (is_entry g.client_id) seen))
                  ∙ sym (select-append (is_entry g.client_id) seen (d ∷ []) ∙ rw (own, gone) refl),
              ap (λ n. n + 1) resolved
                  ∙ sym (length-append (select (is_dropped g.client_id) seen) (d ∷ []))
                  ∙ ap length (
                      sym (
                        select-append (is_dropped g.client_id) seen (d ∷ [])
                        ∙ rw (own, gone) refl)),
            ),
            named,
          )
          | inr live ↦ rw live (
            (
              ap (λ l. l ++ (d ∷ [])) rows
                  ∙ sym (select-append (is_entry g.client_id) seen (d ∷ []) ∙ rw (own, live) refl),
              resolved
                  ∙ ap length (
                      sym (append-nil (select (is_dropped g.client_id) seen))
                      ∙ sym (
                          select-append (is_dropped g.client_id) seen (d ∷ [])
                          ∙ rw (own, live) refl)),
            ),
            named,
          )
        ]

    others-IsExact :
        (seen : List NotificationDelivery) (groups : List Group)
        → All (λ g. g.client_id ≢ client) groups
        → All (IsExact seen) groups
        → All (IsExact (seen ++ (d ∷ []))) groups
    others-IsExact seen [] n h = tt
    others-IsExact seen (g ∷ groups) n h =
        (other-IsExact seen g n.0 h.0, others-IsExact seen groups n.1 h.1)

    different : (c : Option ℕ) → same_client client c ≡ false → c ≢ client
    different c h e = false-ne-true (
        sym h
        ∙ is_same-same_client c client
        ∙ subst (λ x. is_same x client ≡ true) (sym e) (is_same_refl client))

    -- No row of a client without a group was seen.
    abbrev pub NoneSeen : List NotificationDelivery → Type 0
    NoneSeen seen = (select (is_entry client) seen ≡ []) × (select (is_dropped client) seen ≡ [])

    pub grouped-IsExact :
        (seen : List NotificationDelivery) (groups : List Group)
        → (All (λ g. g.client_id ≢ client) groups → NoneSeen seen)
        → HasDistinctClients groups
        → All (IsExact seen) groups
        → All (IsExact (seen ++ (d ∷ []))) (grouped groups)
    unfolding group
    grouped-IsExact seen [] new distinct h =
        let (a, b) = new tt in (own-IsExact seen _ refl (sym a, ap length (sym b)), tt)
    grouped-IsExact seen (g ∷ groups) new distinct h =
        elim (Bool-cases (same_client client g.client_id)) [
          | inl same ↦
              let e = same_client-eq client g.client_id same in
              let others : All (λ x. x.client_id ≢ client) groups =
                subst (λ c. All (λ x. x.client_id ≢ c) groups) (sym e) distinct.0 in
              rw same (own-IsExact seen g (sym e) h.0.0, others-IsExact seen groups others h.1)
          | inr other ↦
              let ne : g.client_id ≢ client = different g.client_id other in
              rw other (
                other-IsExact seen g ne h.0,
                grouped-IsExact seen groups (λ n. new (ne, n)) distinct.1 h.1,
              )
        ]

    grouped-All :
        (P : Option ℕ → Type 0) (groups : List Group)
        → P client
        → All (λ g. P g.client_id) groups
        → All (λ g. P g.client_id) (grouped groups)
    unfolding group
    grouped-All P [] p h = (subst P (sym (added-client _)) p, tt)
    grouped-All P (g ∷ groups) p h = elim (Bool-cases (same_client client g.client_id)) [
      | inl same ↦ rw same (subst P (sym (added-client g)) h.0, h.1)
      | inr other ↦ rw other (h.0, grouped-All P groups p h.1)
    ]

    pub grouped-HasDistinctClients :
        (groups : List Group) → HasDistinctClients groups → HasDistinctClients (grouped groups)
    unfolding group
    grouped-HasDistinctClients [] h = (tt, tt)
    grouped-HasDistinctClients (g ∷ groups) h = elim (Bool-cases (same_client client g.client_id)) [
      | inl same ↦
          rw same (subst (λ c. All (λ x. x.client_id ≢ c) groups) (sym (added-client g)) h.0, h.1)
      | inr other ↦ rw other (
        grouped-All (λ c. c ≢ g.client_id) groups (λ e. different g.client_id other (sym e)) h.0,
        grouped-HasDistinctClients groups h.1,
      )
    ]

    pub grouped-own : (groups : List Group) → Any (λ g. g.client_id ≡ client) (grouped groups)
    unfolding group
    grouped-own [] = inl (added-client _)
    grouped-own (g ∷ groups) = elim (Bool-cases (same_client client g.client_id)) [
      | inl same ↦ rw same (inl (added-client g ∙ sym (same_client-eq client g.client_id same)))
      | inr other ↦ rw other (inr (grouped-own groups))
    ]

    pub grouped-Any :
        (c : Option ℕ) (groups : List Group)
        → Any (λ g. g.client_id ≡ c) groups
        → Any (λ g. g.client_id ≡ c) (grouped groups)
    unfolding group
    grouped-Any c [] h = absurd h
    grouped-Any c (g ∷ groups) h = elim (Bool-cases (same_client client g.client_id)) [
      | inl same ↦ rw same (elim h [ inl now ↦ inl (added-client g ∙ now) | inr later ↦ inr later ])
      | inr other ↦
          rw other (elim h [ inl now ↦ inl now | inr later ↦ inr (grouped-Any c groups later) ])
    ]
