-- ===== src/Delivery/Prune.antt =====
-- `prune` and the rows that are still needed.
use printer_nanny.Common.{
  ℕ, ◌≡◌, refl, Bool, true, false, List, [], ◌∷◌, In, here, there, arith, Bool-cases, inl, inr, ◌⊎◌,
  ◌==◌, if◌then◌else◌,
}
use printer_nanny.Delivery.{EventDelivery, or_else}
use printer_nanny.Delivery.Events.{OutboundEvent}
use printer_nanny.Delivery.Bus.{
  Bus, prune, is_live, is_stale, stale_events, is_among, without_deliveries, without_events,
}

-- Membership in the list that a step of a filter builds.
In-if {ℓ} :
    {A : Type ℓ} {e x : A} {rest : List A} (b : Bool)
    → In e (if b then rest else (x ∷ rest))
    → ((b ≡ false) × (e ≡ x)) ⊎ In e rest
In-if true m = inr m
In-if false here = inl (refl, refl)
In-if false (there m) = inr m

If-In {ℓ} :
    {A : Type ℓ} {e : A} (x : A) {rest : List A} (b : Bool)
    → In e rest
    → In e (if b then rest else (x ∷ rest))
If-In x true m = m
If-In x false m = there m

stale-not_live :
    (rows : List EventDelivery) (days now : ℕ) (e : OutboundEvent)
    → is_stale rows days now e ≡ true
    → is_live rows e.id ≡ false
unfolding is_stale
stale-not_live rows days now e h = ground arith

among-not_live :
    (rows : List EventDelivery) (days now : ℕ) (events : List OutboundEvent) (k : ℕ)
    → is_among k (stale_events rows days now events) ≡ true
    → is_live rows k ≡ false
among-not_live rows days now [] k h = cc
among-not_live rows days now (e ∷ events) k h = elim (Bool-cases (e.id == k)) [
  | inl same ↦
      let q : e.id ≡ k = ground arith in
      ground (arith, stale-not_live rows days now e, among-not_live rows days now events k)
  | inr other ↦ ground (arith, among-not_live rows days now events k)
]

In-without_events :
    {e : OutboundEvent} (ids : List ℕ) (events : List OutboundEvent)
    → In e events
    → is_among e.id ids ≡ false
    → In e (without_events ids events)
unfolding without_events
In-without_events ids [] m h = elim m [ ]
In-without_events ids (e ∷ events) here h = rw h here
In-without_events ids (x ∷ events) (there m) h =
    If-In x (is_among x.id ids) (In-without_events ids events m h)

without_events-In :
    {e : OutboundEvent} (ids : List ℕ) (events : List OutboundEvent)
    → In e (without_events ids events)
    → In e events
unfolding without_events
without_events-In ids [] m = m
without_events-In {e} ids (x ∷ events) m = elim (In-if (is_among x.id ids) m) [
  | inl (_, same) ↦ rw same here
  | inr later ↦ there (without_events-In ids events later)
]

without_deliveries-In :
    {d : EventDelivery} (ids : List ℕ) (rows : List EventDelivery)
    → In d (without_deliveries ids rows)
    → In d rows × (is_among d.event_id ids ≡ false)
unfolding without_deliveries
without_deliveries-In ids [] m = elim m [ ]
without_deliveries-In {d} ids (x ∷ rows) m = elim (In-if (is_among x.event_id ids) m) [
  | inl (stays, same) ↦ rw same (here, stays)
  | inr later ↦ let (among, kept) = without_deliveries-In ids rows later in (there among, kept)
]

-- An event with a delivery that has not reached a terminal state survives, however old it is.
pub live_events_survive :
    (days now : ℕ) (b : Bus) (e : OutboundEvent)
    → In e b.events
    → is_live b.deliveries e.id ≡ true
    → In e (prune days now b).events
unfolding prune
live_events_survive days now b e m live =
    In-without_events (stale_events b.deliveries (or_else days 30) now b.events) b.events m
      (elim (Bool-cases
        (is_among e.id (stale_events b.deliveries (or_else days 30) now b.events))) [
          | inl gone ↦ cc (among-not_live b.deliveries (or_else days 30) now b.events e.id gone)
          | inr stays ↦ stays
        ])

-- Every delivery belongs to an event that is there.
abbrev pub HasParents : Bus → Type 0
HasParents b =
    (d : EventDelivery)
    → In d b.deliveries
    → (e : OutboundEvent) × In e b.events × (e.id ≡ d.event_id)

-- Pruning orphans nothing: where every delivery has its event, every delivery that is left has its
-- event still. It adds no row either.
pub prune-HasParents :
    (days now : ℕ) (b : Bus)
    → HasParents b
    → HasParents (prune days now b)
      × ((d : EventDelivery) → In d (prune days now b).deliveries → In d b.deliveries)
      × ((e : OutboundEvent) → In e (prune days now b).events → In e b.events)
unfolding prune
prune-HasParents days now b parents =
    let ids = stale_events b.deliveries (or_else days 30) now b.events in
    (
      λ d m.
          let (before, stays) = without_deliveries-In ids b.deliveries m in
          let (e, there_before, same) = parents d before in
          (e, In-without_events ids b.events there_before (rw same stays), same),
      λ d m. (without_deliveries-In ids b.deliveries m).0,
      λ e m. without_events-In ids b.events m,
    )
