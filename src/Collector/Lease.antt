-- ===== src/Collector/Lease.antt =====
-- central/collector.py: granting, renewing and revoking. Each is one conditional UPDATE, whose row
-- count says whether it took effect. A comparison with NULL is not true, so it selects no row.
use printer_nanny.Common.{
  ℕ, ◌+◌, String, Bool, ◌&&◌, ◌||◌, not, Option, none, some, List, [], ◌∷◌, ◌==◌, is_some_of,
  is_none, if◌then◌else◌,
}
use printer_nanny.Collector.{Subnet, has_passed}

-- `UPDATE subnets SET values WHERE cond`, with its row count.
unfoldable pub update_where : (Subnet → Bool) → (Subnet → Subnet) → List Subnet → List Subnet × ℕ
update_where cond values [] = ([], 0)
update_where cond values (s ∷ rows) =
    let (rest, n) = update_where cond values rows in
    if cond s then (values s ∷ rest, n + 1) else (s ∷ rest, n)

-- `_displaced`: the SET expressions that record who held the lease before this statement. All of
-- them read the row's old values.
unfoldable pub displaced_agent : Subnet → ℕ → Option ℕ
displaced_agent s agent_id =
    if is_none s.collector_agent_id || is_some_of s.collector_agent_id agent_id
    then s.collector_prev_agent_id
    else s.collector_agent_id

unfoldable pub displaced_until : Subnet → ℕ → Option ℕ
displaced_until s agent_id =
    if is_none s.collector_agent_id || is_some_of s.collector_agent_id agent_id
    then s.collector_prev_until
    else s.collector_lease_expires_at

-- May this agent hold the subnet at all: is it the primary or the standby?
abbrev pub is_eligible : Subnet → ℕ → Bool
is_eligible s agent_id = is_some_of s.agent_id agent_id || is_some_of s.standby_agent_id agent_id

-- The WHERE clause of `renew_lease`, without the id.
unfoldable pub renew_where : ℕ → ℕ → Subnet → Bool
renew_where agent_id now s =
    not (is_none s.standby_agent_id)
    && (is_eligible s agent_id
        && (is_some_of s.collector_agent_id agent_id
            || (is_none s.collector_agent_id && has_passed s.collector_lease_expires_at now)))

unfoldable pub renew_values : ℕ → ℕ → ℕ → Subnet → Subnet
unfolding displaced_agent displaced_until
renew_values agent_id now ttl_seconds s = record s {
  collector_agent_id = some agent_id;
  collector_lease_expires_at = some (now + ttl_seconds);
  collector_since =
      if is_some_of s.collector_agent_id agent_id then s.collector_since else some now;
  collector_prev_agent_id = displaced_agent s agent_id;
  collector_prev_until = displaced_until s agent_id;
}

unfoldable pub renew_lease : List Subnet → ℕ → ℕ → ℕ → ℕ → List Subnet × Bool
renew_lease rows subnet_id agent_id now ttl_seconds =
    let (rows', n) =
      update_where (λ s. s.id == subnet_id && renew_where agent_id now s)
        (renew_values agent_id now ttl_seconds) rows in
    (rows', n == 1)

-- The WHERE clause of `grant_lease`: the holder that the caller judged, `from_agent_id`, must hold
-- the lease still, and its expiry must have passed.
abbrev pub holder_is : Option ℕ → Subnet → Bool
holder_is none s = is_none s.collector_agent_id
holder_is (some a) s = is_some_of s.collector_agent_id a

unfoldable pub grant_where : ℕ → Option ℕ → ℕ → Subnet → Bool
grant_where to_agent_id from_agent_id now s =
    not (is_none s.standby_agent_id)
    && (is_eligible s to_agent_id
        && (has_passed s.collector_lease_expires_at now && holder_is from_agent_id s))

unfoldable pub grant_values : ℕ → ℕ → ℕ → Subnet → Subnet
unfolding displaced_agent displaced_until
grant_values to_agent_id now ttl_seconds s = record s {
  collector_agent_id = some to_agent_id;
  collector_lease_expires_at = some (now + ttl_seconds);
  collector_since = some now;
  collector_prev_agent_id = displaced_agent s to_agent_id;
  collector_prev_until = displaced_until s to_agent_id;
}

unfoldable pub grant_lease : List Subnet → ℕ → ℕ → Option ℕ → ℕ → ℕ → List Subnet × Bool
grant_lease rows subnet_id to_agent_id from_agent_id now ttl_seconds =
    let (rows', n) =
      update_where (λ s. s.id == subnet_id && grant_where to_agent_id from_agent_id now s)
        (grant_values to_agent_id now ttl_seconds) rows in
    (rows', n == 1)

-- The expiry stays: it is the barrier before which nobody may acquire the lease.
unfoldable pub release_values : ℕ → Subnet → Subnet
release_values holder_id s = record s {
  collector_agent_id = none;
  collector_prev_agent_id = some holder_id;
  collector_prev_until = s.collector_lease_expires_at;
  collector_since = none;
}

unfoldable pub release_lease : List Subnet → ℕ → ℕ → List Subnet × Bool
release_lease rows subnet_id holder_id =
    let (rows', n) =
      update_where (λ s. s.id == subnet_id && is_some_of s.collector_agent_id holder_id)
        (release_values holder_id) rows in
    (rows', n == 1)

-- An assignment to the loaded row, unconditional but for the missing primary.
unfoldable pub seed_lease : Subnet → ℕ → ℕ → Subnet
seed_lease s now ttl_seconds = elim s.agent_id [
  | none ↦ s
  | some a ↦ record s {
    collector_agent_id = some a;
    collector_lease_expires_at = some (now + ttl_seconds);
    collector_since = some now;
    collector_prev_agent_id = none;
    collector_prev_until = none;
  }
]

-- The loop of `renew_all` over the rows that its query selected.
unfoldable pub renew_each : List Subnet → ℕ → ℕ → ℕ → List Subnet → List Subnet × List String
renew_each [] agent_id now ttl_seconds rows = (rows, [])
renew_each (c ∷ candidates) agent_id now ttl_seconds rows =
    let (rows', won) = renew_lease rows c.id agent_id now ttl_seconds in
    let (rows'', held) = renew_each candidates agent_id now ttl_seconds rows' in
    (rows'', if won then c.cidr ∷ held else held)

abbrev pub renew_candidates : ℕ → List Subnet → List Subnet
renew_candidates agent_id [] = []
renew_candidates agent_id (s ∷ rows) =
    let rest = renew_candidates agent_id rows in
    if not (is_none s.standby_agent_id) && is_eligible s agent_id then s ∷ rest else rest

-- The rows after it, and the CIDRs that the heartbeat's answer carries.
unfoldable pub renew_all : List Subnet → ℕ → ℕ → ℕ → List Subnet × List String
unfolding renew_each
renew_all rows agent_id now ttl_seconds =
    renew_each (renew_candidates agent_id rows) agent_id now ttl_seconds rows
