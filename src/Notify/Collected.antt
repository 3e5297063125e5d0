-- ===== src/Notify/Collected.antt =====
-- central/channels/delivery.py: `flush_deferred`, the groups that its first loop ends with.
use mathlib.Core.Path.{subst, ◌∙◌}
use mathlib.Core.List.{append_assoc, append-nil}
use printer_nanny.Common.{
  All-map, In-append, Any-In, ◌≡◌, ◌≢◌, refl, sym, inl, inr, false, List, [], ◌∷◌, ◌++◌,
  select-none, All, In-All, All-at, Any, In, In-cons, if◌then◌else◌,
}
use printer_nanny.Delivery.{resolved_while_held}
use printer_nanny.Notify.{NotificationDelivery, Alert, Db, close, alert_resolved}
use printer_nanny.Notify.Owed.{with_row}
use printer_nanny.Notify.Deferred.{client_of, Group}
use printer_nanny.Notify.Flush.{collect}
use printer_nanny.Notify.Entries.{
  is_same, is_same-other, is_entry, is_dropped, IsExact, HasDistinctClients, client, grouped,
  NoneSeen, grouped-IsExact, grouped-HasDistinctClients, grouped-own, grouped-Any,
}

module _ (alerts : List Alert) where
  -- The groups, once the rows `seen` were put into them.
  pub record Table (seen : List NotificationDelivery) (groups : List Group) : Type 0 where
    pub distinct : HasDistinctClients alerts groups
    pub exact : All (IsExact alerts seen) groups
    pub complete :
        (y : NotificationDelivery)
        → In y seen
        → Any (λ g. g.client_id ≡ (client_of alerts y).0) groups

  none_seen :
      (d : NotificationDelivery) (seen : List NotificationDelivery) (groups : List Group)
      → Table seen groups
      → All (λ g. g.client_id ≢ client alerts d) groups
      → NoneSeen alerts d seen
  none_seen d seen groups t n =
      let strange =
        In-All (λ y. is_same (client_of alerts y).0 (client alerts d) ≡ false) seen
          (λ y m. is_same-other (client_of alerts y).0 (client alerts d) (λ e.
            let (g, at, own) =
              Any-In (λ g. g.client_id ≡ (client_of alerts y).0) groups (t.complete y m) in
            All-at (λ g. g.client_id ≢ client alerts d) n at (own ∙ e))) in
      (
        select-none (is_entry alerts (client alerts d)) seen
            (All-map _ _ seen (λ y e. rw e refl) strange),
        select-none (is_dropped alerts (client alerts d)) seen
            (All-map _ _ seen (λ y e. rw e refl) strange),
      )

  grouped-Table :
      (d : NotificationDelivery) (seen : List NotificationDelivery) (groups : List Group)
      → Table seen groups
      → Table (seen ++ (d ∷ [])) (grouped alerts d groups)
  grouped-Table d seen groups t = record {
    distinct = grouped-HasDistinctClients alerts d groups t.distinct;
    exact = grouped-IsExact alerts d seen groups (none_seen d seen groups t) t.distinct t.exact;
    complete = λ y m. elim (In-append y seen (d ∷ []) m) [
      | inl before ↦ grouped-Any alerts d (client_of alerts y).0 groups (t.complete y before)
      | inr now ↦ elim (In-cons now) [
        | inl is_d ↦
            subst (λ z. Any (λ g. g.client_id ≡ (client_of alerts z).0) (grouped alerts d groups))
              (sym is_d) (grouped-own alerts d groups)
        | inr past ↦ elim past [ ]
      ]
    ];
  }

  collect-Table :
      (db : Db) (groups : List Group) (rows seen : List NotificationDelivery)
      → Table seen groups
      → Table (seen ++ rows) (collect alerts db groups rows).1
  unfolding collect
  collect-Table db groups [] seen t = subst (λ l. Table l groups) (sym (append-nil seen)) t
  collect-Table db groups (d ∷ rows) seen t =
      let next : Db =
        if alert_resolved alerts d then with_row db (close resolved_while_held d) else db in
      subst (λ l. Table l (collect alerts next (grouped alerts d groups) rows).1)
        (append_assoc seen (d ∷ []) rows)
        (collect-Table next (grouped alerts d groups) rows (seen ++ (d ∷ []))
          (grouped-Table d seen groups t))

  -- The groups that `collect` makes hold just their clients' rows.
  pub collect-IsExact :
      (db : Db) (rows : List NotificationDelivery)
      → All (IsExact alerts rows) (collect alerts db [] rows).1
  collect-IsExact db rows =
      (collect-Table db [] rows []
        (record { distinct = tt; exact = tt; complete = λ y m. elim m [ ] })).exact
