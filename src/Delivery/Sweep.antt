-- ===== src/Delivery/Sweep.antt =====
-- What one sweep of the event bus does to the queue, and to whom it sends.
use printer_nanny.Common.{
  ℕ, zero, suc, ◌+◌, ◌≤◌, ◌≡◌, ◌≢◌, refl, true, false, some, List, [], ◌∷◌, All, arith, length,
  Bool-cases, inl, inr,
}
use printer_nanny.Delivery.{DeliveryStatus, EventDelivery, apply_result}
use printer_nanny.Delivery.Events.{
  EventSubscription, OutboundEvent, Transport, send_one, terminate, is_due, is_open, handle_known,
  handle, Policy,
}
use printer_nanny.Delivery.Cleared.{IsCleared, sweep-IsCleared}
use printer_nanny.Delivery.Bus.{sweep, stamped_if, batch_limit, Bus, Settings, policy_of, swept_of}

-- What a sweep may do to a row: it keeps what the row is about, counts one attempt at most, and
-- leaves a row alone that is not due.
pub record IsKept (now : ℕ) (d d' : EventDelivery) : Type 0 where
  pub same_id : d'.id ≡ d.id
  pub same_event : d'.event_id ≡ d.event_id
  pub same_subscription : d'.subscription_id ≡ d.subscription_id
  pub counted : (d.attempts ≤ d'.attempts) × (d'.attempts ≤ d.attempts + 1)
  pub untouched : is_due now d ≡ false → d' ≡ d

-- The rows correspond one to one.
abbrev pub AllKept : ℕ → List EventDelivery → List EventDelivery → Type 0
AllKept now [] [] = Unit
AllKept now (d ∷ rows) (d' ∷ rows') = IsKept now d d' × AllKept now rows rows'
AllKept now _ _ = ⊥

IsKept-refl : (now : ℕ) (d : EventDelivery) → IsKept now d d
IsKept-refl now d = record {
  same_id = refl;
  same_event = refl;
  same_subscription = refl;
  counted = (omega arith, omega arith);
  untouched = λ e. refl;
}

handle-IsKept :
    (t : Transport) (p : Policy) (now : ℕ) (events : List OutboundEvent)
    (subs : List EventSubscription) (d : EventDelivery)
    → is_due now d ≡ true
    → IsKept now d (handle t p now events subs d).row
unfolding handle handle_known terminate apply_result
handle-IsKept t p now events subs d due = record {
  same_id = ground arith;
  same_event = ground arith;
  same_subscription = ground arith;
  counted = (ground arith, ground arith);
  untouched = λ e. cc;
}

module _ (t : Transport) (p : Policy) (now : ℕ) (events : List OutboundEvent) where
  sweep-AllKept :
      (rows : List EventDelivery) (left : ℕ) (subs : List EventSubscription)
      → AllKept now rows (sweep t p now events rows left subs).rows
  unfolding sweep
  sweep-AllKept [] left subs = tt
  sweep-AllKept (d ∷ rows) zero subs = (IsKept-refl now d, sweep-AllKept rows zero subs)
  sweep-AllKept (d ∷ rows) (suc left) subs = elim (Bool-cases (is_due now d)) [
    | inr later ↦ rw (later, sweep) (IsKept-refl now d, sweep-AllKept rows (suc left) subs)
    | inl due ↦
        rw (due, sweep)
          (
            handle-IsKept t p now events subs d due,
            sweep-AllKept rows left (stamped_if (handle t p now events subs d).attempt now subs),
          )
  ]

  outcomes-le :
      (rows : List EventDelivery) (left : ℕ) (subs : List EventSubscription)
      → length (sweep t p now events rows left subs).outcomes ≤ left
  unfolding sweep
  outcomes-le [] left subs = omega arith
  outcomes-le (d ∷ rows) zero subs = outcomes-le rows zero subs
  outcomes-le (d ∷ rows) (suc left) subs = ground (
    arith,
    outcomes-le rows (suc left) subs,
    outcomes-le rows left (stamped_if (handle t p now events subs d).attempt now subs),
  )

  attempts-le :
      (rows : List EventDelivery) (left : ℕ) (subs : List EventSubscription)
      → length (sweep t p now events rows left subs).attempts
        ≤ length (sweep t p now events rows left subs).outcomes
  unfolding sweep
  attempts-le [] left subs = omega arith
  attempts-le (d ∷ rows) zero subs = attempts-le rows zero subs
  attempts-le (d ∷ rows) (suc left) subs = ground (
    arith,
    attempts-le rows (suc left) subs,
    attempts-le rows left (stamped_if (handle t p now events subs d).attempt now subs),
  )

-- Tenancy: whatever the tables hold, each send of a cycle is one for a row of the table that is
-- pending or failed and due; it carries the row's event and goes to the row's subscription, as
-- these stand in the tables (but for the subscription's record of its last send, which the cycle
-- writes); and that subscription is switched on, is for all clients or for the event's client, and
-- wants all types or the event's type. A cycle handles at most 200 rows and makes at most one send
-- for each.
pub sends_are-IsCleared :
    (t : Transport) (c : Settings) (now : ℕ) (b : Bus)
    → All (IsCleared t now b.deliveries b.events b.subscriptions) (swept_of t c now b).attempts
      × (length (swept_of t c now b).outcomes ≤ 200)
      × (length (swept_of t c now b).attempts ≤ length (swept_of t c now b).outcomes)
sends_are-IsCleared t c now b = (
  sweep-IsCleared t (policy_of c) now b.events b.subscriptions b.deliveries batch_limit
      b.subscriptions refl,
  outcomes-le t (policy_of c) now b.events b.deliveries batch_limit b.subscriptions,
  attempts-le t (policy_of c) now b.events b.deliveries batch_limit b.subscriptions,
)

-- A sweep keeps every row and what it is about, counts at most one attempt on it, and leaves the
-- rows alone that are not due: a delivered, dead, skipped or deferred row is never revisited.
pub rows_are_kept :
    (t : Transport) (c : Settings) (now : ℕ) (b : Bus)
    → AllKept now b.deliveries (swept_of t c now b).rows
rows_are_kept t c now b =
    sweep-AllKept t (policy_of c) now b.events b.deliveries batch_limit b.subscriptions

terminal-not_due : (now : ℕ) (d : EventDelivery) → is_open d.status ≡ false → is_due now d ≡ false
unfolding is_due
terminal-not_due now d h = ground arith

send_one-transmits :
    (t : Transport) (s : EventSubscription) (e : OutboundEvent) (n : ℕ)
    → (send_one t s e n).0.ok ≡ true
    → ((send_one t s e n).0.sent ≡ true) × ((send_one t s e n).2 ≡ true)
unfolding send_one
send_one-transmits t s e n h = ground arith

-- A row is only ever marked delivered by a send of its own that succeeded: the request left for the
-- destination and was answered, and the attempt that the handler reports is that send.
pub delivered_means_transmitted :
    (t : Transport) (p : Policy) (now : ℕ) (d : EventDelivery) (s : EventSubscription)
    (e : OutboundEvent)
    → d.status ≢ DeliveryStatus.delivered
    → (handle_known t p now d s e).row.status ≡ DeliveryStatus.delivered
    → ((handle_known t p now d s e).attempt
        ≡ some (record {
          subscription = s;
          event = e;
          result = (send_one t s e (d.attempts + 1)).0;
          transmitted = true;
        }))
      × ((send_one t s e (d.attempts + 1)).0.ok ≡ true)
unfolding handle_known apply_result terminate
delivered_means_transmitted t p now d s e before h =
    ground (arith, send_one-transmits t s e (d.attempts + 1))
