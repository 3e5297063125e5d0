-- ===== src/Collector/Ordering.antt =====
-- The readings of a displaced collector, and when its successor's tenure began.
use printer_nanny.Common.{
  ℕ, ◌≤◌, ◌≡◌, ◌≢◌, true, Option, none, some, arith, get_or, Option-cases, Bool-cases, is_some_of,
  false, inl, inr,
}
use printer_nanny.Collector.{Subnet, admits}
use printer_nanny.Collector.Lease.{
  renew_where, renew_values, grant_where, grant_values, release_values, seed_lease,
}
use printer_nanny.Collector.Worker.{Cycle, choose}
use printer_nanny.Collector.Operator.{set_standby, handback}
use printer_nanny.Collector.System.{
  World, renew_row, reassign_row, Step, tick, send, serve, receive, reassign, set_primary, standby,
  hand_back, Reach, start, next,
}

abbrev OrderedBy : Option ℕ → ℕ → Type 0
OrderedBy none until = ⊥
OrderedBy (some since) until = until ≤ since

-- While nobody holds the lease the last tenure ends by the barrier; a holder began after it.
abbrev pub IsOrdered : Subnet → Type 0
IsOrdered s = elim s.collector_agent_id [
  | none ↦ get_or s.collector_prev_until 0 ≤ get_or s.collector_lease_expires_at 0
  | some _ ↦ OrderedBy s.collector_since (get_or s.collector_prev_until 0)
]

renew_row-IsOrdered :
    (a now ttl : ℕ) (s : Subnet) → IsOrdered s → IsOrdered (renew_row a now ttl s).0
unfolding renew_row renew_where renew_values
renew_row-IsOrdered a now ttl s h = ground arith

grant-IsOrdered :
    (k : ℕ) (from : Option ℕ) (now ttl : ℕ) (s : Subnet)
    → grant_where k from now s ≡ true
    → is_some_of from k ≡ false
    → IsOrdered s
    → IsOrdered (grant_values k now ttl s)
unfolding grant_where grant_values
grant-IsOrdered k from now ttl s w other h = ground arith

choice-not_holder :
    (c : Cycle) (s : Subnet) (k : ℕ)
    → choose c s ≡ some k
    → is_some_of s.collector_agent_id k ≡ false
unfolding choose
choice-not_holder c s k h = ground arith

reassign_row-IsOrdered :
    (c : Cycle) (loaded s : Subnet) → IsOrdered s → IsOrdered (reassign_row c loaded s)
unfolding reassign_row
reassign_row-IsOrdered c loaded s h = elim (Option-cases (choose c loaded)) [
  | inl stays ↦ rw (stays, reassign_row) h
  | inr (k, e) ↦ elim (Bool-cases (grant_where k loaded.collector_agent_id c.now s)) [
    | inl wins ↦
        rw (e, reassign_row, wins)
          (grant-IsOrdered k loaded.collector_agent_id c.now c.ttl s wins
            (choice-not_holder c loaded k e) h)
    | inr misses ↦ rw (e, reassign_row, misses) h
  ]
]

set_standby-IsOrdered :
    (k : Option ℕ) (now ttl : ℕ) (s : Subnet) → IsOrdered s → IsOrdered (set_standby k s now ttl)
unfolding set_standby release_values seed_lease
set_standby-IsOrdered none now ttl s h = ground arith
set_standby-IsOrdered (some k) now ttl s h = ground arith

handback-IsOrdered : (s : Subnet) → IsOrdered s → IsOrdered (handback s)
unfolding handback release_values
handback-IsOrdered s h = ground arith

admitted-le-since :
    (s : Subnet) (a b ts : ℕ)
    → IsOrdered s
    → s.standby_agent_id ≢ none
    → s.collector_agent_id ≡ some a
    → a ≢ b
    → admits (some s) b (some ts) ≡ true
    → (since : ℕ) × (s.collector_since ≡ some since) × (ts ≤ since)
unfolding admits
admitted-le-since s a b ts ordered leased holder ne adm = elim (Option-cases s.collector_since) [
  | inl missing ↦ absurd (ground arith)
  | inr (since, e) ↦ (since, e, ground arith)
]

module _ (skew : ℕ → ℕ) (ttl : ℕ) where
  step-IsOrdered : {w v : World} → Step skew ttl w v → IsOrdered w.row → IsOrdered v.row
  step-IsOrdered (tick k) h = h
  step-IsOrdered (send a) h = h
  step-IsOrdered {w} (serve q m) h = renew_row-IsOrdered q.agent w.now ttl w.row h
  step-IsOrdered (receive r m) h = h
  step-IsOrdered {w} (reassign c loaded le) h = reassign_row-IsOrdered c loaded w.row h
  step-IsOrdered (set_primary p) h = h
  step-IsOrdered {w} (standby k ok) h = set_standby-IsOrdered k w.now ttl w.row h
  step-IsOrdered {w} hand_back h = handback-IsOrdered w.row h

  Reach-IsOrdered : {w v : World} → IsOrdered w.row → Reach skew ttl w v → IsOrdered v.row
  Reach-IsOrdered h start = h
  Reach-IsOrdered h (next r st) = step-IsOrdered st (Reach-IsOrdered h r)

  -- In every reachable state of a subnet with a standby, a reading that is admitted from an agent
  -- other than the holder is stamped no later than the instant at which the holder's tenure began.
  pub history_only :
      {w v : World} (a b ts : ℕ)
      → IsOrdered w.row
      → Reach skew ttl w v
      → v.row.standby_agent_id ≢ none
      → v.row.collector_agent_id ≡ some a
      → a ≢ b
      → admits (some v.row) b (some ts) ≡ true
      → (since : ℕ) × (v.row.collector_since ≡ some since) × (ts ≤ since)
  history_only {v} a b ts h r = admitted-le-since v.row a b ts (Reach-IsOrdered h r)
