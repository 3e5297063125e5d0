-- ===== src/Collector/Operator.antt =====
-- central/dashboard/manage.py: the operator's two changes of a lease, `_apply_standby` and
-- `subnet_handback`, on the row that they load. Forms, permissions, flashes and the audit are not
-- modelled.
use printer_nanny.Common.{ℕ, Option, none, some, is_some_of, is_none, ◌||◌, if◌then◌else◌}
use printer_nanny.Collector.{Subnet}
use printer_nanny.Collector.Lease.{release_values, seed_lease}

-- `release_lease` on the one row that it names, whose holder is `holder`.
abbrev pub release_row : ℕ → Subnet → Subnet
release_row holder s = if is_some_of s.collector_agent_id holder then release_values holder s else s

-- The form's choice: no agent, or an agent id that was found.
unfoldable pub set_standby : Option ℕ → Subnet → ℕ → ℕ → Subnet
unfolding seed_lease
set_standby none s now ttl =
    if is_none s.standby_agent_id
    then s
    else (let cleared : Subnet = record s { standby_agent_id = none } in
        elim s.collector_agent_id [ none ↦ cleared | some holder ↦ release_row holder cleared ])
set_standby (some k) s now ttl =
    if is_none s.agent_id || is_some_of s.agent_id k
    then s
    else if is_some_of s.standby_agent_id k
    then s
    else (let s' : Subnet = record s { standby_agent_id = some k } in
        if is_none s.standby_agent_id then seed_lease s' now ttl else s')

-- The state change of "Return to primary": the primary is there and is not the holder.
unfoldable pub handback : Subnet → Subnet
handback s = elim s.collector_agent_id [
  | none ↦ s
  | some holder ↦
      if is_some_of s.agent_id holder || is_none s.agent_id then s else release_row holder s
]
