-- ===== src/Collector/System.antt =====
-- One leased subnet, its agents and central, as a step relation: every heartbeat, the worker and
-- the operator may act at any time, messages are delayed or lost, and no two clocks agree. `skew a`
-- is what agent a's monotonic clock shows at central's instant 0; both then run at one rate. The
-- lease length is the same in all grants, and a heartbeat's handler reads the clock and runs its
-- UPDATE in one step. The worker acts on a row and an instant that it read earlier.
use printer_nanny.Common.{
  ℕ, ◌+◌, ◌≤◌, ◌≡◌, String, Bool, true, false, Option, none, some, List, [], ◌∷◌, In, ◌==◌, is_none,
  if◌then◌else◌, arith, Bool-cases, not, ◌&&◌, inl, inr, ==-refl,
}
use printer_nanny.Collector.{Subnet, has_passed}
use printer_nanny.Collector.Lease.{
  renew_where, renew_values, renew_lease, renew_all, is_eligible, update_where, grant_where,
  grant_values, grant_lease,
}
use printer_nanny.Collector.Worker.{Cycle, choose, reassign_one}
use printer_nanny.Collector.Operator.{set_standby, handback}
use printer_nanny.Collector.Agent.{CollectorLeases, record_grant}

-- `renew_lease` and `reassign_one` on one row.
unfoldable pub renew_row : ℕ → ℕ → ℕ → Subnet → Subnet × Bool
renew_row a now ttl s = if renew_where a now s then (renew_values a now ttl s, true) else (s, false)

unfoldable pub reassign_row : Cycle → Subnet → Subnet → Subnet
reassign_row c loaded s = elim (choose c loaded) [
  | none ↦ s
  | some k ↦
      if grant_where k loaded.collector_agent_id c.now s then grant_values k c.now c.ttl s else s
]

abbrev pub held_after : Subnet × Bool → List String
held_after (s, won) = if won then s.cidr ∷ [] else []

renew_where-candidate :
    (a now : ℕ) (s : Subnet)
    → renew_where a now s ≡ true
    → (not (is_none s.standby_agent_id) && is_eligible s a) ≡ true
unfolding renew_where
renew_where-candidate a now s h = ground arith

renew_lease-single :
    (a now ttl : ℕ) (s : Subnet)
    → renew_lease (s ∷ []) s.id a now ttl
      ≡ ((renew_row a now ttl s).0 ∷ [], (renew_row a now ttl s).1)
unfolding renew_lease renew_row update_where
renew_lease-single a now ttl s = elim (Bool-cases (renew_where a now s)) [
  | inl e ↦ rw (==-refl s.id, e)
  | inr e ↦ rw (==-refl s.id, e)
]

renew_row-cidr : (a now ttl : ℕ) (s : Subnet) → (renew_row a now ttl s).0.cidr ≡ s.cidr
unfolding renew_row renew_values
renew_row-cidr a now ttl s = ground arith

renew_row-not_candidate :
    (a now ttl : ℕ) (s : Subnet)
    → (not (is_none s.standby_agent_id) && is_eligible s a) ≡ false
    → renew_row a now ttl s ≡ (s, false)
unfolding renew_row
renew_row-not_candidate a now ttl s h = ground (arith, renew_where-candidate a now s)

-- A heartbeat, on the table of one row.
pub renew_all-single :
    (a now ttl : ℕ) (s : Subnet)
    → renew_all (s ∷ []) a now ttl
      ≡ ((renew_row a now ttl s).0 ∷ [], held_after (renew_row a now ttl s))
unfolding renew_all
renew_all-single a now ttl s =
    elim (Bool-cases (not (is_none s.standby_agent_id) && is_eligible s a)) [
      | inl e ↦ rw (e, renew_lease-single, renew_row-cidr)
      | inr e ↦ rw (e, renew_row-not_candidate a now ttl s e)
    ]

-- The worker's statement, on the table of one row.
pub reassign_one-single :
    (c : Cycle) (loaded s : Subnet)
    → loaded.id ≡ s.id
    → (reassign_one c loaded (s ∷ [])).0 ≡ reassign_row c loaded s ∷ []
unfolding reassign_one reassign_row grant_lease update_where
reassign_one-single c loaded s e = ground arith

pub record Request : Type 0 where
  pub agent : ℕ
  pub anchor : ℕ

pub record Reply : Type 0 where
  pub agent : ℕ
  pub anchor : ℕ
  pub held : List String

pub record World : Type 0 where
  pub now : ℕ
  pub row : Subnet
  pub requests : List Request
  pub replies : List Reply
  pub leases : ℕ → CollectorLeases

abbrev pub store : (ℕ → CollectorLeases) → ℕ → CollectorLeases → ℕ → CollectorLeases
store leases a l b = if b == a then l else leases b

module _ (skew : ℕ → ℕ) (ttl : ℕ) where
  abbrev pub served : World → Request → World
  served w q = record w {
    row = (renew_row q.agent w.now ttl w.row).0;
    replies =
        record {
          agent = q.agent;
          anchor = q.anchor;
          held = held_after (renew_row q.agent w.now ttl w.row);
        }
        ∷ w.replies;
  }

  abbrev pub received : World → Reply → World
  received w r = record w { leases = store w.leases r.agent (record_grant r.held ttl r.anchor) }

  -- A seed is taken only once the old barrier has passed: the code does not test it.
  pub data Step (w : World) : World → Type 0 where
    tick : (seconds : ℕ) → Step w (record w { now = w.now + seconds })
    send :
        (a : ℕ)
        → Step w
            (record w { requests = record { agent = a; anchor = w.now + skew a } ∷ w.requests })
    serve : (q : Request) → In q w.requests → Step w (served w q)
    receive : (r : Reply) → In r w.replies → Step w (received w r)
    reassign :
        (c : Cycle) (loaded : Subnet)
        → c.now ≤ w.now
        → Step w (record w { row = reassign_row c loaded w.row })
    set_primary : (p : Option ℕ) → Step w (record w { row = record w.row { agent_id = p } })
    standby :
        (k : Option ℕ)
        → (is_none w.row.standby_agent_id ≡ true
            → has_passed w.row.collector_lease_expires_at w.now ≡ true)
        → Step w (record w { row = set_standby k w.row w.now ttl })
    hand_back : Step w (record w { row = handback w.row })

  pub data Reach (w : World) : World → Type 0 where
    start : Reach w w
    next : {u v : World} → Reach w u → Step u v → Reach w v

-- No message is under way, and no agent has been granted anything.
pub record IsInitial (w : World) : Type 0 where
  pub no_requests : w.requests ≡ []
  pub no_replies : w.replies ≡ []
  pub no_leases : (a : ℕ) → w.leases a ≡ []
