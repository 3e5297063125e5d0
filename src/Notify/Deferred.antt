-- ===== src/Notify/Deferred.antt =====
-- central/channels/delivery.py: `flush_deferred`, which sends the notifications that a window held
-- as one digest for each client; central/worker/jobs.py: `_record_withheld`, which holds them.
use printer_nanny.Common.{
  ℕ, ◌+◌, String, Bool, true, false, ◌&&◌, Option, none, some, List, [], ◌∷◌, ◌++◌, ltb, leb,
  if◌then◌else◌, is_some_of, is_none,
}
use printer_nanny.Suppression.{EventSeverity, severity_rank}
use printer_nanny.Delivery.{DeliveryStatus, deferred}
use printer_nanny.Notify.{Notification, Digest, NotificationDelivery, Alert, find_alert}

abbrev pub is_deferred : DeliveryStatus → Bool
is_deferred deferred = true
is_deferred _ = false

-- `_due_deferred`
unfoldable pub is_due_deferred : ℕ → NotificationDelivery → Bool
is_due_deferred now d =
    is_deferred d.status && elim d.next_attempt_at [ none ↦ true | some at ↦ leb at now ]

-- The strictly higher of two severities replaces the lower, from `info` on.
unfoldable pub highest : EventSeverity → List Notification → EventSeverity
highest severity [] = severity
highest severity (e ∷ entries) =
    if ltb (severity_rank severity) (severity_rank e.severity)
    then highest e.severity entries
    else highest severity entries

-- `_digest_note`, before it is rendered.
unfoldable pub digest_note : List Notification → ℕ → Option String → Digest
digest_note entries resolved_count client = record {
  entries = entries;
  resolved_count = resolved_count;
  top_severity = highest EventSeverity.info entries;
  client = client;
}

-- `_client_of`
unfoldable pub client_of : List Alert → NotificationDelivery → Option ℕ × Option String
client_of alerts d = elim d.alert_id [
  | none ↦ (none, none)
  | some id ↦ elim (find_alert id alerts) [
    | none ↦ (none, none)
    | some a ↦ elim a.client_id [ none ↦ (none, none) | some c ↦ (some c, a.client_name) ]
  ]
]

-- What is held for one client: the rows that are still wanted, how many were resolved, the name.
pub record Group : Type 0 where
  pub client_id : Option ℕ
  pub client_name : Option String
  pub rows : List NotificationDelivery
  pub resolved : ℕ

abbrev pub same_client : Option ℕ → Option ℕ → Bool
same_client none other = is_none other
same_client (some c) other = is_some_of other c

unfoldable pub add_to_group : NotificationDelivery → Option String → Bool → Group → Group
add_to_group d name is_resolved g =
    if is_resolved
    then record g { client_name = name; resolved = g.resolved + 1 }
    else record g { client_name = name; rows = g.rows ++ (d ∷ []) }

-- The entry of a row's client in the dictionaries, in the order of their insertion.
unfoldable pub group :
    NotificationDelivery → Option ℕ → Option String → Bool → List Group → List Group
group d client name is_resolved [] =
    add_to_group d name is_resolved
      (record { client_id = client; client_name = name; rows = []; resolved = 0 })
    ∷ []
group d client name is_resolved (g ∷ groups) =
    let rest = group d client name is_resolved groups in
    if same_client client g.client_id then add_to_group d name is_resolved g ∷ groups else g ∷ rest
