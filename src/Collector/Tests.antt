-- ===== src/Collector/Tests.antt =====
-- Runs of the collector's lease, and its theorems at concrete states.
use printer_nanny.Common.{
  ℕ, ◌+◌, ◌≤◌, ◌≡◌, refl, true, false, none, some, [], ◌∷◌, here, arith, ◌*◌, if◌then◌else◌, ◌==◌,
  is_some_of, ◌⊎◌,
}
use printer_nanny.Collector.{Subnet, has_passed, eligible_agent_ids, admits}
use printer_nanny.Collector.Lease.{
  grant_lease, renew_where, renew_values, update_where, grant_where, grant_values,
}
use printer_nanny.Collector.Worker.{
  AgentStatus, Cycle, choose, get_agent, alive, gone, is_member, takeover_candidate,
  reassign_collectors, reassign_each, reassign_one,
}
use printer_nanny.Collector.Agent.{record_grant, holds}
use printer_nanny.Collector.System.{
  World, Request, Reply, renew_row, reassign_row, tick, send, serve, receive, Reach, start, next,
  IsInitial, served, received,
}
use printer_nanny.Collector.Safety.{sweeps, no_split_brain}
use printer_nanny.Collector.Ordering.{history_only}
use printer_nanny.Collector.Handover.{
  IsHandedOver, renewal_beats_takeover, choice_justified, failover,
}
use printer_nanny.Collector.Handback.{reenabled, heartbeat, reenabling_splits}

-- Primary 1, standby 2; nobody holds the lease yet.
abbrev fresh : Subnet
fresh = record {
  id = 7;
  cidr = "10.0.0.0/24";
  agent_id = some 1;
  standby_agent_id = some 2;
  collector_agent_id = none;
  collector_lease_expires_at = none;
  collector_since = none;
  collector_prev_agent_id = none;
  collector_prev_until = none;
}

-- The standby took over at 200; the primary's tenure had ended at 150.
abbrev taken : Subnet
taken = record fresh {
  collector_agent_id = some 2;
  collector_lease_expires_at = some 1100;
  collector_since = some 200;
  collector_prev_agent_id = some 1;
  collector_prev_until = some 150;
}

abbrev other_subnet : Subnet
other_subnet = record taken { id = 8; cidr = "10.0.1.0/24"; standby_agent_id = none }

abbrev skew : ℕ → ℕ
skew a = a * 1000

abbrev initial : World
initial = record { now = 10; row = fresh; requests = []; replies = []; leases = λ a. [] }

initial-IsInitial : IsInitial initial
initial-IsInitial = record { no_requests = refl; no_replies = refl; no_leases = λ a. refl }

abbrev request : Request
request = record { agent = 1; anchor = 1010 }

abbrev reply : Reply
reply = record { agent = 1; anchor = 1010; held = "10.0.0.0/24" ∷ [] }

abbrev sent : World
sent = record initial { requests = request ∷ [] }

abbrev delayed : World
delayed = record sent { now = 10 + 5 }

-- The primary's first heartbeat, sent at 10 and served at 15.
abbrev granted : World
granted = received skew 900 (served skew 900 delayed request) reply

granted-Reach : Reach skew 900 initial granted
unfolding renew_row renew_where renew_values
granted-Reach =
    next (next (next (next start (send 1)) (tick 5)) (serve request here)) (receive reply here)

granted-sweeps : sweeps skew 900 granted 1 ≡ true
unfolding renew_row renew_where renew_values holds record_grant
granted-sweeps = refl

no_split_brain_example : ◌≡◌ {A = ℕ} 1 1
no_split_brain_example =
    no_split_brain skew 900 1 1 initial-IsInitial granted-Reach granted-sweeps granted-sweeps

abbrev taken_world : World
taken_world = record {
  now = 500;
  row = taken;
  requests = [];
  replies = [];
  leases = λ a. if a == 2 then ("10.0.0.0/24", 3000) ∷ [] else [];
}

history_only_example : (since : ℕ) × (taken.collector_since ≡ some since) × (120 ≤ since)
unfolding admits
history_only_example =
    history_only skew 900 {w = taken_world} 2 1 120 (omega arith) start (λ e. cc e) refl
      (omega arith) refl

abbrev cycle : Cycle
cycle = record {
  now = 1200;
  ttl = 900;
  takeover_after = 900;
  grace = 300;
  auto = true;
  agents =
      record { id = 1; status = AgentStatus.offline; last_heartbeat = some 150 }
      ∷ record { id = 2; status = AgentStatus.online; last_heartbeat = some 1190 }
      ∷ [];
}

-- The primary's lease has lapsed.
abbrev lapsed_row : Subnet
lapsed_row = record fresh { collector_agent_id = some 1; collector_lease_expires_at = some 1050 }

renewal_beats_takeover_example :
    reassign_row cycle lapsed_row (renew_row 1 1150 900 lapsed_row).0
    ≡ (renew_row 1 1150 900 lapsed_row).0
unfolding renew_row renew_where
renewal_beats_takeover_example =
    renewal_beats_takeover 1 1150 900 cycle lapsed_row lapsed_row refl (omega arith)

lapsed-choice : choose cycle lapsed_row ≡ some 2
unfolding choose takeover_candidate get_agent alive gone
lapsed-choice = refl

choice_justified_example :
    (has_passed lapsed_row.collector_lease_expires_at cycle.now ≡ true)
    × (alive cycle.now cycle.grace (get_agent cycle.agents 2) ≡ true)
    × (is_some_of lapsed_row.collector_agent_id 2 ≡ false)
    × ((lapsed_row.agent_id ≡ some 2) ⊎ (lapsed_row.standby_agent_id ≡ some 2))
    × ((h : ℕ)
        → lapsed_row.collector_agent_id ≡ some h
        → is_member h (eligible_agent_ids lapsed_row) ≡ true
        → (cycle.auto ≡ true)
          × (gone cycle.now cycle.takeover_after (get_agent cycle.agents h) ≡ true))
choice_justified_example = choice_justified cycle lapsed_row 2 lapsed-choice

failover_example : IsHandedOver 1200 900 1 2 lapsed_row (reassign_row cycle lapsed_row lapsed_row)
unfolding gone alive get_agent
failover_example = failover cycle lapsed_row 1 2 refl refl (omega arith) refl refl refl refl refl

-- A worker run over the whole table: the lapsed subnet moves, the others stay.
reassign_run :
    reassign_collectors cycle (other_subnet ∷ lapsed_row ∷ [])
    ≡ (other_subnet ∷ grant_values 2 1200 900 lapsed_row ∷ [], 1)
unfolding reassign_collectors reassign_each reassign_one choose takeover_candidate get_agent alive
    gone grant_lease grant_where update_where
reassign_run = refl

reenabling_splits_example :
    let v = heartbeat skew 900 (record taken_world { row = reenabled 2 taken 500 900 }) 1 in
    (sweeps skew 900 v 1 ≡ true) × (sweeps skew 900 v 2 ≡ true)
unfolding holds
reenabling_splits_example =
    reenabling_splits skew 900 taken_world 1 2 refl refl refl (omega arith) (omega arith) refl
