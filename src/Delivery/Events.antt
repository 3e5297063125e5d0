-- ===== src/Delivery/Events.antt =====
-- central/events/delivery.py and central/events/emit.py: one send, and the sweeper. The other code
-- that a send calls (secrets, the URL policy, signing and HTTP) is the argument `Transport`.
use printer_nanny.Common.{
  ℕ, ◌+◌, String, Bool, true, false, ◌&&◌, ◌||◌, not, Option, none, some, List, [], ◌∷◌, ltb, leb,
  if◌then◌else◌, ◌==◌, is_some_of, str_eq,
}
use printer_nanny.Delivery.{
  DeliveryStatus, Reason, orphaned, refused, unsubscribed, EventDelivery, ChannelResult,
  apply_result,
}

-- `event_types` is empty where the subscriber wants every type.
pub record EventSubscription : Type 0 where
  pub id : ℕ
  pub client_id : Option ℕ
  pub url : String
  pub secret : String
  pub event_types : List String
  pub enabled : Bool
  pub last_attempt_at : Option ℕ
  pub last_ok : Option Bool
  pub last_error : Option String

pub record OutboundEvent : Type 0 where
  pub id : ℕ
  pub kind : String
  pub client_id : Option ℕ
  pub created_at : ℕ

-- Is the first id there, and the second the same?
abbrev pub same_client : Option ℕ → ℕ → Bool
same_client client_id c = is_some_of client_id c

unfoldable pub scope_allows : EventSubscription → Option ℕ → Bool
scope_allows s client_id = elim s.client_id [ none ↦ true | some c ↦ same_client client_id c ]

abbrev pub has_text : String → List String → Bool
has_text t [] = false
has_text t (x ∷ xs) = str_eq t x || has_text t xs

abbrev pub is_empty : List String → Bool
is_empty [] = true
is_empty (_ ∷ _) = false

unfoldable pub wants_type : EventSubscription → String → Bool
wants_type s kind = is_empty s.event_types || has_text kind s.event_types

pub data Checked : Type 0 where
  allowed : String → Checked
  forbidden : String → Checked

-- A POST that raised, or the response's status and first bytes.
pub data Answer : Type 0 where
  request_error : String → Answer
  unhandled : String → Answer
  response : ℕ → String → Answer

pub record Transport : Type 0 where
  pub decrypt_value : String → String
  pub validate_url : String → Checked
  pub post : String → OutboundEvent → ℕ → Answer

-- The result, the status, and whether a request left for the destination.
unfoldable pub send_one :
    Transport → EventSubscription → OutboundEvent → ℕ → ChannelResult × Option ℕ × Bool
send_one t s e attempt =
    if str_eq (t.decrypt_value s.secret) ""
    then (
      record { ok = false; sent = false; text = "signing secret could not be decrypted" },
      none,
      false,
    )
    else elim (t.validate_url s.url) [
      | forbidden why ↦ (record { ok = false; sent = false; text = why }, none, false)
      | allowed url ↦ elim (t.post url e attempt) [
        | request_error why ↦ (record { ok = false; sent = true; text = why }, none, true)
        | unhandled why ↦ (record { ok = false; sent = true; text = why }, none, true)
        | response status text ↦
            if leb 200 status && ltb status 300
            then (record { ok = true; sent = true; text = "delivered" }, some status, true)
            else (record { ok = false; sent = true; text = text }, some status, true)
      ]
    ]

unfoldable pub stamp : EventSubscription → ChannelResult → ℕ → EventSubscription
stamp s result now = record s {
  last_attempt_at = some now;
  last_ok = some (result.ok && result.sent);
  last_error = if result.ok then none else some result.text;
}

unfoldable pub terminate : EventDelivery → DeliveryStatus → Reason → EventDelivery
terminate d status reason = record d {
  status = status;
  last_error = some reason;
  next_attempt_at = none;
}

abbrev pub is_open : DeliveryStatus → Bool
is_open DeliveryStatus.pending = true
is_open DeliveryStatus.failed = true
is_open _ = false

-- `_due`, for one row
unfoldable pub is_due : ℕ → EventDelivery → Bool
is_due now d = is_open d.status && elim d.next_attempt_at [ none ↦ true | some t ↦ leb t now ]

unfoldable pub get_subscription : List EventSubscription → ℕ → Option EventSubscription
get_subscription [] k = none
get_subscription (s ∷ subs) k = if s.id == k then some s else get_subscription subs k

unfoldable pub get_event : List OutboundEvent → ℕ → Option OutboundEvent
get_event [] k = none
get_event (e ∷ events) k = if e.id == k then some e else get_event events k

-- Under which figure of the summary a row was counted.
pub data Outcome : Type 0 where
  sent failed dead skipped not_sent : Outcome

abbrev pub outcome_of : DeliveryStatus → Outcome
outcome_of DeliveryStatus.delivered = Outcome.sent
outcome_of DeliveryStatus.dead = Outcome.dead
outcome_of DeliveryStatus.skipped = Outcome.not_sent
outcome_of _ = Outcome.failed

pub record Policy : Type 0 where
  pub max_attempts : ℕ
  pub base_seconds : ℕ

-- A call of `send_one`.
pub record Attempt : Type 0 where
  pub subscription : EventSubscription
  pub event : OutboundEvent
  pub result : ChannelResult
  pub transmitted : Bool

pub record Handled : Type 0 where
  pub row : EventDelivery
  pub outcome : Outcome
  pub attempt : Option Attempt
  pub refusal : Bool

abbrev pub tried :
    Policy
    → EventSubscription
    → OutboundEvent
    → ℕ
    → EventDelivery
    → ChannelResult × Option ℕ × Bool
    → Handled
tried p s e now d (result, status, left) =
    let row : EventDelivery =
      apply_result (record d { response_status = status }) result now p.max_attempts
        p.base_seconds in
    record {
      row = row;
      outcome = outcome_of row.status;
      attempt = some (record { subscription = s; event = e; result = result; transmitted = left });
      refusal = false;
    }

abbrev pub settled : EventDelivery → Outcome → Bool → Handled
settled row outcome refusal = record {
  row = row;
  outcome = outcome;
  attempt = none;
  refusal = refusal;
}

-- The body of the loop for a row whose subscription and event exist.
unfoldable pub handle_known :
    Transport → Policy → ℕ → EventDelivery → EventSubscription → OutboundEvent → Handled
handle_known t p now d s e =
    if not s.enabled
    then settled d Outcome.skipped false
    else if not (scope_allows s e.client_id)
    then settled (terminate d DeliveryStatus.dead (refused s.client_id e.client_id)) Outcome.dead
        true
    else if not (wants_type s e.kind)
    then settled (terminate d DeliveryStatus.skipped (unsubscribed e.kind)) Outcome.not_sent false
    else tried p s e now d (send_one t s e (d.attempts + 1))

unfoldable pub handle :
    Transport → Policy → ℕ → List OutboundEvent → List EventSubscription → EventDelivery → Handled
handle t p now events subs d = elim (get_subscription subs d.subscription_id) [
  | none ↦ settled (terminate d DeliveryStatus.dead orphaned) Outcome.dead false
  | some s ↦ elim (get_event events d.event_id) [
    | none ↦ settled (terminate d DeliveryStatus.dead orphaned) Outcome.dead false
    | some e ↦ handle_known t p now d s e
  ]
]
