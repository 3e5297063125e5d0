-- ===== src/Collector/Safety.antt =====
-- Who may sweep a leased subnet, in every reachable state.
use printer_nanny.Common.{
  ℕ, ◌+◌, ◌≤◌, ◌<◌, ◌≡◌, ◌⊎◌, inl, inr, refl, true, Option, none, some, All, All-In, All-map, arith,
  get_or, Bool-cases, Option-cases, Bool, ltb→lt, ◌==◌, is_none,
}
use printer_nanny.Collector.{Subnet, has_passed}
use printer_nanny.Collector.Lease.{
  renew_where, renew_values, grant_where, grant_values, release_values, seed_lease,
}
use printer_nanny.Collector.Worker.{Cycle}
use printer_nanny.Collector.Operator.{set_standby, handback}
use printer_nanny.Collector.Agent.{CollectorLeases, record_grant, deadline, holds}
use printer_nanny.Collector.System.{
  World, Request, Reply, renew_row, reassign_row, held_after, Step, tick, send, serve, receive,
  reassign, set_primary, standby, hand_back, Reach, start, next, IsInitial, received,
}

-- The agent that may have a live grant: the holder, or the one that was released last.
abbrev pub owner : Subnet → Option ℕ
owner s = elim s.collector_agent_id [ none ↦ s.collector_prev_agent_id | some a ↦ some a ]

abbrev pub barrier : Subnet → ℕ
barrier s = get_or s.collector_lease_expires_at 0

module _ (skew : ℕ → ℕ) (ttl : ℕ) where
  -- A grant to `a` until `d` on its own clock.
  pub record IsCovered (now : ℕ) (s : Subnet) (a d : ℕ) : Type 0 where
    pub bounded : d ≤ now + skew a + ttl
    pub owned : now + skew a < d → owner s ≡ some a
    pub within : now + skew a < d → d ≤ barrier s + skew a

  -- What an update of the row at `now` does to the outstanding grants.
  abbrev Moves : ℕ → Subnet → Subnet → Type 0
  Moves now s s' =
      (s'.cidr ≡ s.cidr)
      × ((barrier s ≤ now)
          ⊎ ((owner s' ≡ owner s) × ((barrier s ≤ barrier s') ⊎ (now + ttl ≤ barrier s'))))

  renew_row-Moves : (a now : ℕ) (s : Subnet) → Moves now s (renew_row a now ttl s).0
  unfolding renew_row renew_where renew_values
  renew_row-Moves a now s = ground arith

  reassign_row-Moves :
      (c : Cycle) (loaded : Subnet) (now : ℕ) (s : Subnet)
      → c.now ≤ now
      → Moves now s (reassign_row c loaded s)
  unfolding reassign_row grant_where grant_values
  reassign_row-Moves c loaded now s h = ground arith

  set_standby-Moves :
      (k : Option ℕ) (now : ℕ) (s : Subnet)
      → (is_none s.standby_agent_id ≡ true → has_passed s.collector_lease_expires_at now ≡ true)
      → Moves now s (set_standby k s now ttl)
  unfolding set_standby release_values seed_lease
  set_standby-Moves none now s h = ground arith
  set_standby-Moves (some k) now s h = ground arith

  handback-Moves : (now : ℕ) (s : Subnet) → Moves now s (handback s)
  unfolding handback release_values
  handback-Moves now s = ground arith

  -- Every deadline that a set of leases has for the subnet is covered.
  abbrev AllCovered : ℕ → Subnet → ℕ → CollectorLeases → Type 0
  AllCovered now s a l = (d : ℕ) → deadline l s.cidr ≡ some d → IsCovered now s a d

  abbrev RequestOk : ℕ → Request → Type 0
  RequestOk now q = q.anchor ≤ now + skew q.agent

  abbrev ReplyOk : ℕ → Subnet → Reply → Type 0
  ReplyOk now s r = AllCovered now s r.agent (record_grant r.held ttl r.anchor)

  pub record IsSafe (w : World) : Type 0 where
    pub requests : All (RequestOk w.now) w.requests
    pub replies : All (ReplyOk w.now w.row) w.replies
    pub leases : (a : ℕ) → AllCovered w.now w.row a (w.leases a)

  IsCovered-Moves :
      {now : ℕ} {s s' : Subnet} (a d : ℕ)
      → Moves now s s'
      → IsCovered now s a d
      → IsCovered now s' a d
  IsCovered-Moves a d m h = ground arith

  AllCovered-Moves :
      {now : ℕ} {s s' : Subnet} (a : ℕ) (l : CollectorLeases)
      → Moves now s s'
      → AllCovered now s a l
      → AllCovered now s' a l
  AllCovered-Moves a l m h d e = IsCovered-Moves a d m (h d (rw m.0 at e))

  -- An update of the row keeps the invariant.
  row-IsSafe :
      {w : World} (s' : Subnet) → Moves w.now w.row s' → IsSafe w → IsSafe (record w { row = s' })
  row-IsSafe {w} s' m h = record {
    requests = h.requests;
    replies =
        All-map (ReplyOk w.now w.row) (ReplyOk w.now s') w.replies
          (λ r. AllCovered-Moves r.agent (record_grant r.held ttl r.anchor) m) h.replies;
    leases = λ a. AllCovered-Moves a (w.leases a) m (h.leases a);
  }

  tick-IsSafe : {w : World} (k : ℕ) → IsSafe w → IsSafe (record w { now = w.now + k })
  tick-IsSafe {w} k h = record {
    requests =
        All-map (RequestOk w.now) (RequestOk (w.now + k)) w.requests (λ q p. omega arith)
          h.requests;
    replies =
        All-map (ReplyOk w.now w.row) (ReplyOk (w.now + k) w.row) w.replies
          (λ r p d e. later k (p d e)) h.replies;
    leases = λ a d e. later k (h.leases a d e);
  }
    where
      later :
          {now : ℕ} {s : Subnet} {a d : ℕ} (k : ℕ) → IsCovered now s a d → IsCovered (now + k) s a d
      later k c = ground arith

  -- What central answers to a heartbeat that was sent no later than now.
  reply-AllCovered :
      (now a anchor : ℕ) (s : Subnet)
      → anchor ≤ now + skew a
      → AllCovered now
          (renew_row a now ttl s).0
          a
          (record_grant (held_after (renew_row a now ttl s)) ttl anchor)
  unfolding renew_row renew_values record_grant deadline
  reply-AllCovered now a anchor s h d e = ground arith

  step-IsSafe : {w v : World} → Step skew ttl w v → IsSafe w → IsSafe v
  step-IsSafe (tick k) h = tick-IsSafe k h
  step-IsSafe {w} (send a) h = record {
    requests = (omega arith, h.requests);
    replies = h.replies;
    leases = h.leases;
  }
  step-IsSafe {w} (serve q m) h =
      let moved =
        row-IsSafe (renew_row q.agent w.now ttl w.row).0 (renew_row-Moves q.agent w.now w.row) h in
      record {
        requests = moved.requests;
        replies = (
          reply-AllCovered w.now q.agent q.anchor w.row (All-In (RequestOk w.now) m h.requests),
          moved.replies,
        );
        leases = moved.leases;
      }
  step-IsSafe {w} (receive r m) h = record {
    requests = h.requests;
    replies = h.replies;
    leases = λ a. stored a (All-In (ReplyOk w.now w.row) m h.replies);
  }
    where
      stored :
          (a : ℕ)
          → ReplyOk w.now w.row r
          → AllCovered w.now w.row a ((received skew ttl w r).leases a)
      stored a p d e = elim (Bool-cases (a == r.agent)) [
        | inl same ↦ let q : a ≡ r.agent = ground arith in rw q (p d (rw same at e))
        | inr other ↦ h.leases a d (rw other at e)
      ]
  step-IsSafe {w} (reassign c loaded le) h =
      row-IsSafe (reassign_row c loaded w.row) (reassign_row-Moves c loaded w.now w.row le) h
  step-IsSafe {w} (set_primary p) h =
      row-IsSafe (record w.row { agent_id = p }) (refl, inr (refl, inl (omega arith))) h
  step-IsSafe {w} (standby k ok) h =
      row-IsSafe (set_standby k w.row w.now ttl) (set_standby-Moves k w.now w.row ok) h
  step-IsSafe {w} hand_back h = row-IsSafe (handback w.row) (handback-Moves w.now w.row) h

  initial-IsSafe : {w : World} → IsInitial w → IsSafe w
  unfolding deadline
  initial-IsSafe {w} i = record {
    requests = rw i.no_requests tt;
    replies = rw i.no_replies tt;
    leases = λ a d e. cc (rw (i.no_leases a) at e);
  }

  Reach-IsSafe : {w v : World} → IsSafe w → Reach skew ttl w v → IsSafe v
  Reach-IsSafe h start = h
  Reach-IsSafe h (next r st) = step-IsSafe st (Reach-IsSafe h r)

  -- Does `a` believe at this instant that it may sweep the subnet under its lease?
  abbrev pub sweeps : World → ℕ → Bool
  sweeps w a = holds (w.leases a) w.row.cidr (w.now + skew a)

  sweeps-owner : {w : World} (a : ℕ) → IsSafe w → sweeps w a ≡ true → owner w.row ≡ some a
  unfolding holds
  sweeps-owner {w} a h e = elim (Option-cases (deadline (w.leases a) w.row.cidr)) [
    | inl missing ↦ cc (rw (missing, holds) at e)
    | inr (d, found) ↦
        (h.leases a d found).owned (ltb→lt (w.now + skew a) d (rw (found, holds) at e))
  ]

  -- No split brain. From a state in which nothing was granted and no message is under way, whatever
  -- heartbeats, delays, losses, takeovers and operator changes follow, provided that a standby is
  -- set on a subnet that has none only once the lease's last expiry has passed: two agents that
  -- sweep the subnet under a lease that each believes to be live are one agent.
  pub no_split_brain :
      {w v : World} (a b : ℕ)
      → IsInitial w
      → Reach skew ttl w v
      → sweeps v a ≡ true
      → sweeps v b ≡ true
      → a ≡ b
  no_split_brain a b i r ha hb =
      let safe = Reach-IsSafe (initial-IsSafe i) r in
      cc (sweeps-owner a safe ha, sweeps-owner b safe hb)
