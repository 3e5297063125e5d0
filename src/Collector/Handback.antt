-- ===== src/Collector/Handback.antt =====
-- What an operator's changes do to a lease: the hand-back, and switching redundancy off and on.
use printer_nanny.Common.{
  ℕ, ◌+◌, ◌≤◌, ◌<◌, ◌≡◌, ◌≢◌, true, false, none, some, [], ◌∷◌, arith, eq_refl, ◌∙◌, String, lt→ltb,
  ◌==◌, ==-refl,
}
use printer_nanny.Collector.{Subnet, admits}
use printer_nanny.Collector.Lease.{renew_where, renew_values, release_values, seed_lease}
use printer_nanny.Collector.Operator.{set_standby, handback}
use printer_nanny.Collector.Agent.{record_grant, deadline, holds}
use printer_nanny.Collector.System.{World, Request, renew_row, served, received, held_after}
use printer_nanny.Collector.Safety.{sweeps}

module _ (s : Subnet) (p b e : ℕ) (primary : s.agent_id ≡ some p)
    (leased : s.standby_agent_id ≢ none) (holder : s.collector_agent_id ≡ some b) (other : p ≢ b)
    (expiry : s.collector_lease_expires_at ≡ some e) where
  -- "Return to primary", on a leased subnet with a primary that another agent holds: until the
  -- standby's lease has elapsed no agent can renew the released subnet, and from then on the
  -- primary's heartbeat acquires it.
  pub handback_gap :
      (now ttl : ℕ)
      → ((a : ℕ) → now < e → renew_row a now ttl (handback s) ≡ (handback s, false))
        × (e ≤ now → (renew_row p now ttl (handback s)).1 ≡ true)
  unfolding renew_row renew_where handback release_values
  handback_gap now ttl = (λ a early. ground arith, λ late. ground arith)

  -- After a hand-back of a leased subnet that another agent than the primary holds, and until the
  -- next grant, a dated reading is admitted only from that agent, dated no later than its lease's
  -- expiry.
  pub handback-admits :
      (a ts : ℕ) → admits (some (handback s)) a (some ts) ≡ true → (a ≡ b) × (ts ≤ e)
  unfolding admits handback release_values
  handback-admits a ts adm = ground arith

-- An operator clears the standby and sets the same agent again.
unfoldable pub reenabled : ℕ → Subnet → ℕ → ℕ → Subnet
reenabled b s now ttl = set_standby (some b) (set_standby none s now ttl) now ttl

module _ (s : Subnet) (p b : ℕ) (primary : s.agent_id ≡ some p)
    (standby : s.standby_agent_id ≡ some b) (holder : s.collector_agent_id ≡ some b)
    (other : p ≢ b) where
  reenabled_cidr : (now ttl : ℕ) → (reenabled b s now ttl).cidr ≡ s.cidr
  unfolding reenabled set_standby release_values seed_lease
  reenabled_cidr now ttl = ground arith

  reenabled_renews : (now ttl : ℕ) → (renew_row p now ttl (reenabled b s now ttl)).1 ≡ true
  unfolding renew_row renew_where reenabled set_standby release_values seed_lease
  reenabled_renews now ttl = ground arith

renewed_cidr : (a now ttl : ℕ) (s : Subnet) → (renew_row a now ttl s).0.cidr ≡ s.cidr
unfolding renew_row renew_values
renewed_cidr a now ttl s = ground arith

own_grant :
    (cidr : String) (now ttl : ℕ)
    → 0 < ttl
    → holds (record_grant (cidr ∷ []) ttl now) cidr now ≡ true
unfolding holds record_grant deadline
own_grant cidr now ttl h = rw (holds, eq_refl cidr) (lt→ltb now (now + ttl) (omega arith))

-- The state after a heartbeat of `p`, sent, served and received at once.
abbrev pub heartbeat : (ℕ → ℕ) → ℕ → World → ℕ → World
heartbeat skew ttl w p =
    let q : Request = record { agent = p; anchor = w.now + skew p } in
    received skew ttl (served skew ttl w q) (record {
      agent = p;
      anchor = w.now + skew p;
      held = held_after (renew_row p w.now ttl w.row);
    })

-- The seed is not safe while the old lease lives. Where the standby holds and sweeps the subnet, an
-- operator who switches redundancy off and on again gives the lease to the primary at once: after
-- the primary's next heartbeat both agents sweep the subnet under a lease.
pub reenabling_splits :
    (skew : ℕ → ℕ) (ttl : ℕ) (w : World) (p b : ℕ)
    → w.row.agent_id ≡ some p
    → w.row.standby_agent_id ≡ some b
    → w.row.collector_agent_id ≡ some b
    → p ≢ b
    → 0 < ttl
    → sweeps skew ttl w b ≡ true
    → let v = heartbeat skew ttl (record w { row = reenabled b w.row w.now ttl }) p in
      (sweeps skew ttl v p ≡ true) × (sweeps skew ttl v b ≡ true)
reenabling_splits skew ttl w p b ep eb eh ne pos live =
    let same : (renew_row p w.now ttl (reenabled b w.row w.now ttl)).0.cidr ≡ w.row.cidr =
      renewed_cidr p w.now ttl (reenabled b w.row w.now ttl)
      ∙ reenabled_cidr w.row p b ep eb eh ne w.now ttl in
    (
      rw (==-refl p, reenabled_renews w.row p b ep eb eh ne w.now ttl)
          (own_grant (renew_row p w.now ttl (reenabled b w.row w.now ttl)).0.cidr (w.now + skew p)
            ttl pos),
      rw (b_is_not_p, same) live,
    )
  where
    b_is_not_p : (b == p) ≡ false
    b_is_not_p = ground arith
