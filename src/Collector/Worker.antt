-- ===== src/Collector/Worker.antt =====
-- central/worker/jobs.py: `mark_offline_agents`, and `reassign_collectors`, the one path that moves
-- a lease from an agent to another.
use printer_nanny.Common.{
  ℕ, ◌+◌, Bool, true, false, ◌&&◌, ◌||◌, not, Option, none, some, List, [], ◌∷◌, ltb, ◌==◌,
  is_some_of, is_none, if◌then◌else◌,
}
use printer_nanny.Collector.{Subnet, has_passed, eligible_agent_ids}
use printer_nanny.Collector.Lease.{grant_lease}

pub data AgentStatus : Type 0 where
  online offline never_seen : AgentStatus

abbrev pub is_online : AgentStatus → Bool
is_online AgentStatus.online = true
is_online _ = false

abbrev pub is_offline : AgentStatus → Bool
is_offline AgentStatus.offline = true
is_offline _ = false

pub record Agent : Type 0 where
  pub id : ℕ
  pub status : AgentStatus
  pub last_heartbeat : Option ℕ

-- `db.get(m.Agent, id)`
unfoldable pub get_agent : List Agent → ℕ → Option Agent
get_agent [] k = none
get_agent (a ∷ agents) k = if a.id == k then some a else get_agent agents k

-- Is `now - last > seconds`? The subtraction of instants has a sign, so the sum is compared.
abbrev pub silent_longer : ℕ → ℕ → ℕ → Bool
silent_longer now last seconds = ltb (last + seconds) now

unfoldable pub status_of : ℕ → ℕ → Option ℕ → AgentStatus
status_of now grace none = AgentStatus.never_seen
status_of now grace (some last) =
    if silent_longer now last grace then AgentStatus.offline else AgentStatus.online

-- The statuses after `mark_offline_agents`. (The number of those that changed is a log figure.)
unfoldable pub mark_offline_agents : ℕ → ℕ → List Agent → List Agent
mark_offline_agents now grace [] = []
mark_offline_agents now grace (a ∷ agents) =
    record a { status = status_of now grace a.last_heartbeat }
    ∷ mark_offline_agents now grace agents

unfoldable pub alive : ℕ → ℕ → Option Agent → Bool
alive now grace none = false
alive now grace (some a) =
    is_online a.status
    && elim a.last_heartbeat [ none ↦ false | some last ↦ not (silent_longer now last grace) ]

unfoldable pub gone : ℕ → ℕ → Option Agent → Bool
gone now silent_for none = true
gone now silent_for (some a) =
    is_offline a.status
    && elim a.last_heartbeat [ none ↦ true | some last ↦ silent_longer now last silent_for ]

abbrev pub is_member : ℕ → List ℕ → Bool
is_member k [] = false
is_member k (a ∷ ids) = a == k || is_member k ids

-- `next(iter(ids - {k}), None)`
abbrev pub other_than : ℕ → List ℕ → Option ℕ
other_than k [] = none
other_than k (a ∷ ids) = if a == k then other_than k ids else some a

-- The settings of one run, and the agents table.
pub record Cycle : Type 0 where
  pub now : ℕ
  pub ttl : ℕ
  pub takeover_after : ℕ
  pub grace : ℕ
  pub auto : Bool
  pub agents : List Agent

-- Whom the loop's body would hand the subnet to, judged on the row as it was loaded: `none` stands
-- for each `continue`.
unfoldable pub takeover_candidate : Cycle → Subnet → Option ℕ
unfolding eligible_agent_ids
takeover_candidate c s =
    if not (has_passed s.collector_lease_expires_at c.now)
    then none
    else elim s.collector_agent_id [
      | none ↦ s.agent_id
      | some holder ↦
          if not (is_member holder (eligible_agent_ids s))
          then s.agent_id
          else if not c.auto
          then none
          else if not (gone c.now c.takeover_after (get_agent c.agents holder))
          then none
          else other_than holder (eligible_agent_ids s)
    ]

-- `holder` is the one that was loaded; a candidate that holds the subnet already, or that is not
-- alive, is passed over.
unfoldable pub choose : Cycle → Subnet → Option ℕ
choose c s = elim (takeover_candidate c s) [
  | none ↦ none
  | some k ↦
      if is_some_of s.collector_agent_id k
      then none
      else if alive c.now c.grace (get_agent c.agents k)
      then some k
      else none
]

-- The write is tried on the rows as they are now, with the holder of the row as it was loaded.
unfoldable pub reassign_one : Cycle → Subnet → List Subnet → List Subnet × Bool
reassign_one c loaded rows = elim (choose c loaded) [
  | none ↦ (rows, false)
  | some k ↦ grant_lease rows loaded.id k loaded.collector_agent_id c.now c.ttl
]

unfoldable pub reassign_each : Cycle → List Subnet → List Subnet → List Subnet × ℕ
reassign_each c [] rows = (rows, 0)
reassign_each c (s ∷ subnets) rows =
    let (rows', moved) = reassign_one c s rows in
    let (rows'', taken) = reassign_each c subnets rows' in
    (rows'', if moved then taken + 1 else taken)

abbrev pub leased_rows : List Subnet → List Subnet
leased_rows [] = []
leased_rows (s ∷ rows) =
    let rest = leased_rows rows in if is_none s.standby_agent_id then rest else s ∷ rest

-- The rows after it, and the number of takeovers.
unfoldable pub reassign_collectors : Cycle → List Subnet → List Subnet × ℕ
reassign_collectors c rows = reassign_each c (leased_rows rows) rows
