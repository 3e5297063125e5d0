-- ===== src/Alerts.antt =====
-- central/worker/jobs.py: alerts, from the rules that an operator writes to the rows that open,
-- flap, resolve and escalate. Instants are seconds; thresholds, levels and margins are whole
-- numbers. The wording of titles and details, and two operations on text, are the argument
-- `Texts`. FreeScout's ticket numbers, and the closing of such tickets, are not represented.
mod Conditions
mod Events
mod Findings
mod Lifecycle
mod Evaluate
mod Routing
mod Rows
mod Steps
mod Sound
mod Kept
mod Feed
mod Passes
mod Flapping
mod Openings
mod Resolutions
mod Live
mod Opened
mod Acted
mod Closing
mod Held
mod Hysteresis
mod Tests
use printer_nanny.Common.{
  ℕ, suc, ◌+◌, String, Bool, true, false, ◌&&◌, not, Option, none, some, List, [], ◌∷◌, ◌++◌, ◌==◌,
  str_eq, if◌then◌else◌,
}
use printer_nanny.Suppression.{EventSeverity, AlertScope, Window, Zone}
use printer_nanny.Suppression as Suppression
use printer_nanny.Notify.{Channel, NotificationDelivery, Badge, AuditEntry}
use printer_nanny.Notify as Notify

pub data AlertConditionType : Type 0 where
  manual_issue supply_below error_severity offline_minutes maintenance_due : AlertConditionType
  printer_offline predicted_depletion occurrence_rate : AlertConditionType

pub data AlertState : Type 0 where
  still_open acknowledged resolved : AlertState

pub data AgentStatus : Type 0 where
  online offline never_seen : AgentStatus

pub data DiscoveryState : Type 0 where
  pending approved ignored : DiscoveryState

pub data SupplyType : Type 0 where
  toner ink drum fuser waste staples developer other : SupplyType

-- What the device says of a supply; a text that is neither of the two counts as no answer.
pub data SupplyClass : Type 0 where
  receptacle consumed unreported : SupplyClass

pub record Supply : Type 0 where
  pub id : ℕ
  pub type : SupplyType
  pub supply_class : SupplyClass
  pub color : Option String
  pub level_pct : Option ℕ

pub record PrinterEvent : Type 0 where
  pub printer_id : ℕ
  pub ts : ℕ
  pub code : Option String
  pub severity : EventSeverity
  pub message : String
  pub is_resolved : Bool

-- A printer, with its label and the names that a notification shows.
pub record Printer : Type 0 where
  pub place : Suppression.Printer
  pub discovery_state : DiscoveryState
  pub last_seen : Option ℕ
  pub supplies : List Supply
  pub label : String
  pub client_name : Option String
  pub site_name : Option String

pub record Agent : Type 0 where
  pub id : ℕ
  pub name : String
  pub site_id : ℕ
  pub status : AgentStatus
  pub last_heartbeat : Option ℕ

pub record Subnet : Type 0 where
  pub site_id : ℕ
  pub agent_id : Option ℕ
  pub collector_agent_id : Option ℕ

-- A window of no minutes stands for one that is not positive.
pub record AlertRule : Type 0 where
  pub id : ℕ
  pub scope : AlertScope
  pub scope_id : Option ℕ
  pub condition_type : AlertConditionType
  pub threshold : Option ℕ
  pub severity : EventSeverity
  pub channel_ids : List ℕ
  pub enabled : Bool
  pub window_minutes : Option ℕ
  pub match_code : Option String
  pub match_min_severity : Option EventSeverity

-- The texts of the keys are distinct for distinct parts, so a key is kept as its parts: the rule
-- first, then the agent or the printer.
pub data DedupeKey : Type 0 where
  agent_key offline_key rate_key : ℕ → ℕ → DedupeKey
  supply_key : ℕ → ℕ → ℕ → DedupeKey
  error_key : ℕ → ℕ → String → DedupeKey
  other_key : String → DedupeKey

unfoldable pub key_eq : DedupeKey → DedupeKey → Bool
key_eq (agent_key r a) (agent_key r' a') = (r == r') && (a == a')
key_eq (offline_key r p) (offline_key r' p') = (r == r') && (p == p')
key_eq (rate_key r p) (rate_key r' p') = (r == r') && (p == p')
key_eq (supply_key r p s) (supply_key r' p' s') = (r == r') && ((p == p') && (s == s'))
key_eq (error_key r p c) (error_key r' p' c') = (r == r') && ((p == p') && str_eq c c')
key_eq (other_key t) (other_key t') = str_eq t t'
key_eq _ _ = false

pub data Title : Type 0 where
  agent_offline printer_is_offline error_on : String → Title
  low frequent : String → String → Title
  other_title : String → Title

pub data Detail : Type 0 where
  no_heartbeat no_reading : Option ℕ → Option ℕ → Detail
  at_level : String → ℕ → ℕ → Detail
  event_text : EventSeverity → String → ℕ → ℕ → Detail
  counted : ℕ → ℕ → ℕ → Detail
  receding : ℕ → ℕ → ℕ → Detail
  flapped : Detail → ℕ → ℕ → Detail
  other_detail : String → Detail

pub record Alert : Type 0 where
  pub id : ℕ
  pub rule_id : Option ℕ
  pub printer_id : Option ℕ
  pub agent_id : Option ℕ
  pub type : AlertConditionType
  pub severity : EventSeverity
  pub state : AlertState
  pub title : Title
  pub detail : Detail
  pub dedupe_key : DedupeKey
  pub notified_channels : List Badge
  pub last_notified_at : Option ℕ
  pub escalation_level : ℕ
  pub flap_count : ℕ
  pub created_at : ℕ
  pub resolved_at : Option ℕ

-- What a subscriber is told: the alert and its flap count, which are the event's key.
pub data Transition : Type 0 where
  alert_opened alert_resolved : ℕ → ℕ → Transition

-- What the evaluation reads.
pub record Fleet : Type 0 where
  pub rules : List AlertRule
  pub agents : List Agent
  pub subnets : List Subnet
  pub printers : List Printer
  pub events : List PrinterEvent
  pub windows : List Window

-- What it writes, the rows in the order of their ids.
pub record Db : Type 0 where
  pub alerts : List Alert
  pub next_alert : ℕ
  pub deliveries : List NotificationDelivery
  pub next_id : ℕ
  pub audit : List AuditEntry
  pub outbox : List Transition

pub record Texts : Type 0 where
  pub title_of : Title → String
  pub body_of : Detail → String
  pub strip : String → String
  pub contains : String → String → Bool

-- A channel with what it is addressed by.
pub record RoutableChannel : Type 0 where
  pub channel : Channel
  pub row_id : Option ℕ
  pub scope : AlertScope
  pub scope_id : Option ℕ

pub record Settings : Type 0 where
  pub delivery : Notify.Settings
  pub zone : Zone
  pub renotify_cooldown_min : ℕ
  pub escalate_after_minutes : ℕ
  pub supply_deadband_pct : ℕ
  pub occurrence_clear_margin_pct : ℕ
  pub max_error_alerts_per_printer : ℕ

-- `_LIVE_STATES`
unfoldable pub is_live_state : AlertState → Bool
is_live_state still_open = true
is_live_state acknowledged = true
is_live_state resolved = false

abbrev pub is_live : Alert → Bool
is_live a = is_live_state a.state

-- `_find_open_alert`
unfoldable pub find_open_alert : DedupeKey → List Alert → Option Alert
find_open_alert key [] = none
find_open_alert key (a ∷ alerts) =
    let rest = find_open_alert key alerts in
    if key_eq a.dedupe_key key && is_live a then some a else rest

-- Changes of one row, by its id.
unfoldable pub update_alert : ℕ → (Alert → Alert) → List Alert → List Alert
update_alert id f [] = []
update_alert id f (a ∷ alerts) =
    let rest = update_alert id f alerts in if a.id == id then f a ∷ rest else a ∷ rest

unfoldable pub same_transition : Transition → Transition → Bool
same_transition (alert_opened a n) (alert_opened b m) = (a == b) && (n == m)
same_transition (alert_resolved a n) (alert_resolved b m) = (a == b) && (n == m)
same_transition _ _ = false

unfoldable pub was_emitted : Transition → List Transition → Bool
was_emitted t [] = false
was_emitted t (x ∷ outbox) =
    let rest = was_emitted t outbox in if same_transition x t then true else rest

-- `emit`, of which the last is the first of the list: a key is emitted once.
unfoldable pub emit : Transition → List Transition → List Transition
emit t outbox = if was_emitted t outbox then outbox else t ∷ outbox
