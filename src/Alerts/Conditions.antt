-- ===== src/Alerts/Conditions.antt =====
-- central/worker/jobs.py: what the rules of `evaluate_alerts` find. A finding is what the loop then
-- does with one key; the evaluation itself does not read the alerts. Here are the rules on agents,
-- on silent printers and on supplies.
use printer_nanny.Common.{
  ℕ, ◌+◌, ◌*◌, String, Bool, true, false, ◌&&◌, ◌||◌, Option, none, some, List, [], ◌∷◌, ◌++◌,
  select, ltb, leb, ◌==◌, is_some_of, get_or, str_eq, if◌then◌else◌,
}
use printer_nanny.Suppression.{AlertScope}
use printer_nanny.Alerts.{
  AgentStatus, online, DiscoveryState, SupplyType, SupplyClass, receptacle, consumed, unreported,
  Supply, Printer, Agent, Subnet, AlertRule, DedupeKey, agent_key, offline_key, supply_key, Title,
  agent_offline, printer_is_offline, low, Detail, no_heartbeat, no_reading, at_level, Fleet,
  Settings,
}

-- A condition that holds.
pub record Demand : Type 0 where
  pub key : DedupeKey
  pub title : Title
  pub detail : Detail
  pub printer : Option Printer
  pub agent_id : Option ℕ
  pub cooldown_cap_min : Option ℕ
  pub refresh_detail : Bool

-- A condition that holds; one that has not recovered, where its alert is still live; and the same
-- with a new text.
pub data Finding : Type 0 where
  raise : Demand → Finding
  hold : DedupeKey → Finding
  recede : DedupeKey → Detail → ℕ → Finding

abbrev is_approved : DiscoveryState → Bool
is_approved DiscoveryState.approved = true
is_approved _ = false

abbrev is_online : AgentStatus → Bool
is_online online = true
is_online _ = false

abbrev pub is_in : ℕ → List ℕ → Bool
is_in k [] = false
is_in k (x ∷ ids) = (x == k) || is_in k ids

-- `rule.scope == … and rule.scope_id`, which an id of 0 is not.
unfoldable pub in_scope : AlertRule → Printer → Bool
in_scope rule p = by_scope rule.scope (get_or rule.scope_id 0)
  where
    by_scope : AlertScope → ℕ → Bool
    by_scope AlertScope.global k = true
    by_scope AlertScope.client k = if k == 0 then true else is_some_of p.place.client_id k
    by_scope AlertScope.site k = if k == 0 then true else is_some_of p.place.site_id k
    by_scope AlertScope.printer k = if k == 0 then true else p.place.id == k

unfoldable pub printers_in_scope : Fleet → AlertRule → List Printer
printers_in_scope fleet rule =
    select (λ p. is_approved p.discovery_state && in_scope rule p) fleet.printers

unfoldable pub sites_of_agent : List Subnet → Agent → List ℕ
sites_of_agent [] agent = agent.site_id ∷ []
sites_of_agent (s ∷ subnets) agent =
    let rest = sites_of_agent subnets agent in
    if is_some_of s.agent_id agent.id || is_some_of s.collector_agent_id agent.id
    then s.site_id ∷ rest
    else rest

unfoldable pub sites_with_a_live_agent : List Subnet → List Agent → List ℕ
sites_with_a_live_agent subnets [] = []
sites_with_a_live_agent subnets (agent ∷ agents) =
    let rest = sites_with_a_live_agent subnets agents in
    if is_online agent.status then sites_of_agent subnets agent ++ rest else rest

-- `now - last >= limit`, of an instant that may lie ahead.
abbrev pub has_lasted : ℕ → ℕ → ℕ → Bool
has_lasted now last limit = leb (last + limit) now

unfoldable pub offline_agents : AlertRule → ℕ → List Agent → List Finding
offline_agents rule now [] = []
offline_agents rule now (agent ∷ agents) =
    let rest = offline_agents rule now agents in
    if elim agent.last_heartbeat [
      | none ↦ true
      | some last ↦ has_lasted now last (get_or rule.threshold 0 * 60)
    ]
    then raise (record {
      key = agent_key rule.id agent.id;
      title = agent_offline agent.name;
      detail = no_heartbeat rule.threshold agent.last_heartbeat;
      printer = none;
      agent_id = some agent.id;
      cooldown_cap_min = none;
      refresh_detail = false;
    })
      ∷ rest
    else rest

abbrev pub demand_of : Printer → DedupeKey → Title → Detail → Demand
demand_of p key title detail = record {
  key = key;
  title = title;
  detail = detail;
  printer = some p;
  agent_id = none;
  cooldown_cap_min = none;
  refresh_detail = false;
}

unfoldable pub offline_printer : AlertRule → ℕ → List ℕ → Printer → List Finding
offline_printer rule now covered p =
    if elim p.place.site_id [ none ↦ false | some site ↦ is_in site covered ] && elim p.last_seen [
      | none ↦ false
      | some last ↦ has_lasted now last (get_or rule.threshold 0 * 60)
    ]
    then raise (
        demand_of p (offline_key rule.id p.place.id) (printer_is_offline p.label)
          (no_reading rule.threshold p.last_seen))
      ∷ []
    else []

-- central/supplies.py
unfoldable pub is_receptacle : Supply → Bool
is_receptacle supply = by_class supply.supply_class supply.type
  where
    by_class : SupplyClass → SupplyType → Bool
    by_class receptacle type = true
    by_class consumed type = false
    by_class unreported SupplyType.waste = true
    by_class unreported _ = false

abbrev name_of : SupplyType → String
name_of SupplyType.toner = "toner"
name_of SupplyType.ink = "ink"
name_of SupplyType.drum = "drum"
name_of SupplyType.fuser = "fuser"
name_of SupplyType.waste = "waste"
name_of SupplyType.staples = "staples"
name_of SupplyType.developer = "developer"
name_of SupplyType.other = "other"

abbrev label_of : Supply → String
label_of supply =
    let color = get_or supply.color "" in if str_eq color "" then name_of supply.type else color

-- One supply with its level: open at the threshold, and hold below the margin above it.
unfoldable pub supply_at : Settings → AlertRule → Printer → Supply → ℕ → List Finding
supply_at settings rule p supply level =
    let threshold = get_or rule.threshold 0 in
    let key = supply_key rule.id p.place.id supply.id in
    if leb level threshold
    then raise (
        demand_of p key (low (label_of supply) p.label)
          (at_level (label_of supply) level threshold))
      ∷ []
    else if ltb 0 settings.supply_deadband_pct
        && ltb level (threshold + settings.supply_deadband_pct)
    then hold key ∷ []
    else []

unfoldable pub low_supplies : Settings → AlertRule → Printer → List Supply → List Finding
low_supplies settings rule p [] = []
low_supplies settings rule p (supply ∷ supplies) =
    (if is_receptacle supply then [] else elim supply.level_pct [
      | none ↦ []
      | some level ↦ supply_at settings rule p supply level
    ])
    ++ low_supplies settings rule p supplies
