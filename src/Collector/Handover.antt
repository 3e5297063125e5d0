-- ===== src/Collector/Handover.antt =====
-- What moves a lease, and what cannot.
use printer_nanny.Common.{
  ℕ, ◌+◌, ◌<◌, ◌≡◌, ◌≢◌, refl, Bool, true, false, some, List, [], ◌∷◌, All, arith, ◌==◌, is_some_of,
  ◌⊎◌, ◌&&◌, sym,
}
use mathlib.Core.Path.{subst}
use printer_nanny.Collector.{
  Subnet, has_passed, eligible_agent_ids, is_redundant, may_collect, admits, stamped_by,
}
use printer_nanny.Collector.Lease.{
  update_where, renew_where, renew_values, renew_lease, grant_where, grant_values, displaced_agent,
  displaced_until,
}
use printer_nanny.Collector.Worker.{
  Cycle, choose, get_agent, alive, gone, takeover_candidate, is_member,
}
use printer_nanny.Collector.System.{renew_row, reassign_row}

update_where-none :
    (cond : Subnet → Bool) (values : Subnet → Subnet) (rows : List Subnet)
    → All (λ s. cond s ≡ false) rows
    → update_where cond values rows ≡ (rows, 0)
unfolding update_where
update_where-none cond values [] h = refl
update_where-none cond values (s ∷ rows) h = rw (update_where-none cond values rows h.1, h.0)

abbrev HeldByOther : ℕ → ℕ → Subnet → Type 0
HeldByOther k a s = s.id ≡ k → (b : ℕ) × (s.collector_agent_id ≡ some b) × (b ≢ a)

renew_where-held :
    (k a now : ℕ) (s : Subnet) → HeldByOther k a s → (s.id == k && renew_where a now s) ≡ false
unfolding renew_where
renew_where-held k a now s h = ground arith

held-All :
    (k a now : ℕ) (rows : List Subnet)
    → All (HeldByOther k a) rows
    → All (λ s. (s.id == k && renew_where a now s) ≡ false) rows
held-All k a now [] h = tt
held-All k a now (s ∷ rows) h = (renew_where-held k a now s h.0, held-All k a now rows h.1)

-- A heartbeat never takes a lease from another agent, lapsed or not: on a subnet that another agent
-- holds, `renew_lease` changes no row and reports failure.
pub renew_never_displaces :
    (k a now ttl : ℕ) (rows : List Subnet)
    → All (HeldByOther k a) rows
    → renew_lease rows k a now ttl ≡ (rows, false)
unfolding renew_lease
renew_never_displaces k a now ttl rows h = rw (
    update_where-none (λ s. s.id == k && renew_where a now s) (renew_values a now ttl) rows
      (held-All k a now rows h))

-- A slow holder is not displaced: once a heartbeat has renewed the lease until `now + ttl`, a
-- worker whose instant lies before that changes nothing, whatever row it judged beforehand.
pub renewal_beats_takeover :
    (a now ttl : ℕ) (c : Cycle) (loaded s : Subnet)
    → (renew_row a now ttl s).1 ≡ true
    → c.now < now + ttl
    → reassign_row c loaded (renew_row a now ttl s).0 ≡ (renew_row a now ttl s).0
unfolding renew_row renew_values reassign_row grant_where
renewal_beats_takeover a now ttl c loaded s won early = ground arith

candidate_justified :
    (c : Cycle) (s : Subnet) (k : ℕ)
    → takeover_candidate c s ≡ some k
    → (has_passed s.collector_lease_expires_at c.now ≡ true)
      × ((s.agent_id ≡ some k) ⊎ (s.standby_agent_id ≡ some k))
unfolding takeover_candidate
candidate_justified c s k h = ground arith

candidate_of_gone :
    (c : Cycle) (s : Subnet) (k h : ℕ)
    → takeover_candidate c s ≡ some k
    → s.collector_agent_id ≡ some h
    → is_member h (eligible_agent_ids s) ≡ true
    → (c.auto ≡ true) × (gone c.now c.takeover_after (get_agent c.agents h) ≡ true)
unfolding takeover_candidate
candidate_of_gone c s k h e eh m = ground arith

choice-candidate :
    (c : Cycle) (s : Subnet) (k : ℕ)
    → choose c s ≡ some k
    → (takeover_candidate c s ≡ some k)
      × (is_some_of s.collector_agent_id k ≡ false)
      × (alive c.now c.grace (get_agent c.agents k) ≡ true)
unfolding choose
choice-candidate c s k h = ground arith

-- A takeover is justified: whom the worker chooses is alive, does not hold the subnet, and is its
-- primary or its standby. The lease has lapsed, and a holder that is the primary or the standby is
-- gone and takeovers are switched on.
pub choice_justified :
    (c : Cycle) (s : Subnet) (k : ℕ)
    → choose c s ≡ some k
    → (has_passed s.collector_lease_expires_at c.now ≡ true)
      × (alive c.now c.grace (get_agent c.agents k) ≡ true)
      × (is_some_of s.collector_agent_id k ≡ false)
      × ((s.agent_id ≡ some k) ⊎ (s.standby_agent_id ≡ some k))
      × ((h : ℕ)
          → s.collector_agent_id ≡ some h
          → is_member h (eligible_agent_ids s) ≡ true
          → (c.auto ≡ true) × (gone c.now c.takeover_after (get_agent c.agents h) ≡ true))
choice_justified c s k h =
    let (e, other, live) = choice-candidate c s k h in
    let (lapsed, who) = candidate_justified c s k e in
    (lapsed, live, other, who, λ i eh m. candidate_of_gone c s k i e eh m)

choose-failover :
    (c : Cycle) (s : Subnet) (p b : ℕ)
    → s.agent_id ≡ some p
    → s.standby_agent_id ≡ some b
    → p ≢ b
    → s.collector_agent_id ≡ some p
    → has_passed s.collector_lease_expires_at c.now ≡ true
    → c.auto ≡ true
    → gone c.now c.takeover_after (get_agent c.agents p) ≡ true
    → alive c.now c.grace (get_agent c.agents b) ≡ true
    → choose c s ≡ some b
unfolding choose takeover_candidate
choose-failover c s p b ep eb ne eh lapsed auto dead live = ground arith

-- The row of a subnet whose lease moved from `p` to `b`.
pub record IsHandedOver (now ttl p b : ℕ) (before after : Subnet) : Type 0 where
  pub holder : after.collector_agent_id ≡ some b
  pub expires : after.collector_lease_expires_at ≡ some (now + ttl)
  pub since : after.collector_since ≡ some now
  pub previous : after.collector_prev_agent_id ≡ some p
  pub previous_until : after.collector_prev_until ≡ before.collector_lease_expires_at
  pub pair : (after.agent_id ≡ some p) × (after.standby_agent_id ≡ some b)
  pub collects : (may_collect (some after) b ≡ true) × (may_collect (some after) p ≡ false)
  pub backlog :
      (ts : ℕ)
      → admits (some after) p (some ts) ≡ stamped_by (some ts) before.collector_lease_expires_at
  pub refused : (t length : ℕ) → renew_row p t length after ≡ (after, false)
  pub renewed : (t length : ℕ) → (renew_row b t length after).1 ≡ true

grant_values-IsHandedOver :
    (now ttl p b : ℕ) (s : Subnet)
    → s.agent_id ≡ some p
    → s.standby_agent_id ≡ some b
    → p ≢ b
    → s.collector_agent_id ≡ some p
    → IsHandedOver now ttl p b s (grant_values b now ttl s)
unfolding grant_values displaced_agent displaced_until may_collect is_redundant admits renew_row
    renew_where
grant_values-IsHandedOver now ttl p b s ep eb ne eh = record {
  holder = refl;
  expires = refl;
  since = refl;
  previous = ground arith;
  previous_until = ground arith;
  pair = (ep, eb);
  collects = (ground arith, ground arith);
  backlog = λ ts. ground arith;
  refused = λ t length. ground arith;
  renewed = λ t length. ground arith;
}

-- Failover happens: where the standby is alive, the primary holds a lapsed lease and is gone, and
-- takeovers are switched on, the worker's write moves the lease to the standby, from that instant
-- and for the length of a lease, and keeps the primary with the old expiry as the one before. From
-- then on the standby may collect and the primary may not; a reading of the primary is admitted
-- exactly if it is stamped no later than the old expiry, if there was one; a heartbeat of the
-- primary is refused and one of the standby renews the lease, whenever they come.
pub failover :
    (c : Cycle) (s : Subnet) (p b : ℕ)
    → s.agent_id ≡ some p
    → s.standby_agent_id ≡ some b
    → p ≢ b
    → s.collector_agent_id ≡ some p
    → has_passed s.collector_lease_expires_at c.now ≡ true
    → c.auto ≡ true
    → gone c.now c.takeover_after (get_agent c.agents p) ≡ true
    → alive c.now c.grace (get_agent c.agents b) ≡ true
    → IsHandedOver c.now c.ttl p b s (reassign_row c s s)
unfolding reassign_row grant_where grant_values
failover c s p b ep eb ne eh lapsed auto dead live =
    let moved : reassign_row c s s ≡ grant_values b c.now c.ttl s =
      rw (choose-failover c s p b ep eb ne eh lapsed auto dead live, reassign_row) (ground arith) in
    subst (IsHandedOver c.now c.ttl p b s) (sym moved)
      (grant_values-IsHandedOver c.now c.ttl p b s ep eb ne eh)
