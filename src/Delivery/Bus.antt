-- ===== src/Delivery/Bus.antt =====
-- central/events/delivery.py: `deliver_due` over the tables, and `prune`. The rows of a table are
-- kept in the order of their ids, so the rows that are due, in that order and at most `batch_limit`
-- of them, are met on one walk: handling a row changes no other delivery.
use printer_nanny.Common.{
  ℕ, zero, suc, ◌+◌, ◌*◌, Bool, true, false, ◌&&◌, ◌||◌, not, Option, none, some, List, [], ◌∷◌,
  ltb, ◌==◌, if◌then◌else◌,
}
use printer_nanny.Delivery.{DeliveryStatus, EventDelivery, or_else}
use printer_nanny.Delivery.Events.{
  EventSubscription, OutboundEvent, Transport, stamp, is_due, Outcome, Policy, Attempt, Handled,
  handle,
}

abbrev pub batch_limit : ℕ
batch_limit = 200

-- `_stamp`, on the row that the send was for
unfoldable pub stamped : Attempt → ℕ → List EventSubscription → List EventSubscription
stamped a now [] = []
stamped a now (s ∷ subs) =
    (if s.id == a.subscription.id then stamp s a.result now else s) ∷ stamped a now subs

abbrev pub stamped_if : Option Attempt → ℕ → List EventSubscription → List EventSubscription
stamped_if none now subs = subs
stamped_if (some a) now subs = stamped a now subs

abbrev pub with_attempt : Option Attempt → List Attempt → List Attempt
with_attempt none attempts = attempts
with_attempt (some a) attempts = a ∷ attempts

pub record Swept : Type 0 where
  pub rows : List EventDelivery
  pub subscriptions : List EventSubscription
  pub attempts : List Attempt
  pub outcomes : List Outcome
  -- the deliveries whose refusal was audited
  pub refusals : List EventDelivery

abbrev pub kept : EventDelivery → Swept → Swept
kept d r = record r { rows = d ∷ r.rows }

abbrev pub added : EventDelivery → Handled → Swept → Swept
added d h r = record r {
  rows = h.row ∷ r.rows;
  attempts = with_attempt h.attempt r.attempts;
  outcomes = h.outcome ∷ r.outcomes;
  refusals = if h.refusal then d ∷ r.refusals else r.refusals;
}

-- The loop of `deliver_due`: the first argument after the policy is what is left of the batch.
unfoldable pub sweep :
    Transport
    → Policy
    → ℕ
    → List OutboundEvent
    → List EventDelivery
    → ℕ
    → List EventSubscription
    → Swept
sweep t p now events [] left subs = record {
  rows = [];
  subscriptions = subs;
  attempts = [];
  outcomes = [];
  refusals = [];
}
sweep t p now events (d ∷ rows) zero subs = kept d (sweep t p now events rows zero subs)
sweep t p now events (d ∷ rows) (suc left) subs = elim (is_due now d) [
  | false ↦ kept d (sweep t p now events rows (suc left) subs)
  | true ↦
      let h = handle t p now events subs d in
      added d h (sweep t p now events rows left (stamped_if h.attempt now subs))
]

abbrev pub is_outcome : Outcome → Outcome → Bool
is_outcome Outcome.sent Outcome.sent = true
is_outcome Outcome.failed Outcome.failed = true
is_outcome Outcome.dead Outcome.dead = true
is_outcome Outcome.skipped Outcome.skipped = true
is_outcome Outcome.not_sent Outcome.not_sent = true
is_outcome _ _ = false

pub tally : Outcome → List Outcome → ℕ
tally o [] = 0
tally o (x ∷ xs) = let n = tally o xs in if is_outcome o x then n + 1 else n

pub record Bus : Type 0 where
  pub deliveries : List EventDelivery
  pub events : List OutboundEvent
  pub subscriptions : List EventSubscription

-- Some delivery of the event has not reached a terminal state.
abbrev pub is_live_status : DeliveryStatus → Bool
is_live_status DeliveryStatus.pending = true
is_live_status DeliveryStatus.failed = true
is_live_status DeliveryStatus.deferred = true
is_live_status _ = false

unfoldable pub is_live : List EventDelivery → ℕ → Bool
is_live [] k = false
is_live (d ∷ rows) k = (d.event_id == k && is_live_status d.status) || is_live rows k

unfoldable pub is_stale : List EventDelivery → ℕ → ℕ → OutboundEvent → Bool
is_stale rows days now e = not (is_live rows e.id) && ltb (e.created_at + days * 86400) now

abbrev pub stale_events : List EventDelivery → ℕ → ℕ → List OutboundEvent → List ℕ
stale_events rows days now [] = []
stale_events rows days now (e ∷ events) =
    let rest = stale_events rows days now events in
    if is_stale rows days now e then e.id ∷ rest else rest

abbrev pub is_among : ℕ → List ℕ → Bool
is_among k [] = false
is_among k (i ∷ ids) = (i == k) || is_among k ids

unfoldable pub without_deliveries : List ℕ → List EventDelivery → List EventDelivery
without_deliveries ids [] = []
without_deliveries ids (d ∷ rows) =
    let rest = without_deliveries ids rows in if is_among d.event_id ids then rest else d ∷ rest

unfoldable pub without_events : List ℕ → List OutboundEvent → List OutboundEvent
without_events ids [] = []
without_events ids (e ∷ events) =
    let rest = without_events ids events in if is_among e.id ids then rest else e ∷ rest

-- `days` is the setting, whose 0 and absence mean 30; the code's negative days, which keep
-- everything, are not represented.
unfoldable pub prune : ℕ → ℕ → Bus → Bus
prune days now b =
    let ids = stale_events b.deliveries (or_else days 30) now b.events in
    record b {
      deliveries = without_deliveries ids b.deliveries;
      events = without_events ids b.events;
    }

pub record Settings : Type 0 where
  pub enabled : Bool
  pub max_attempts : ℕ
  pub base_seconds : ℕ
  pub retention_days : ℕ

abbrev pub policy_of : Settings → Policy
policy_of c = record {
  max_attempts = or_else c.max_attempts 8;
  base_seconds = or_else c.base_seconds 60;
}

abbrev pub swept_of : Transport → Settings → ℕ → Bus → Swept
swept_of t c now b = sweep t (policy_of c) now b.events b.deliveries batch_limit b.subscriptions

abbrev pub after_sweep : Bus → Swept → Bus
after_sweep b r = record b { deliveries = r.rows; subscriptions = r.subscriptions }

-- The tables after it, and what the cycle did; `none` while the bus is switched off.
unfoldable pub deliver_due : Transport → Settings → ℕ → Bus → Bus × Option Swept
deliver_due t c now b = if not c.enabled then (b, none) else (
  prune c.retention_days now (after_sweep b (swept_of t c now b)),
  some (swept_of t c now b),
)
