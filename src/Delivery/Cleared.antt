-- ===== src/Delivery/Cleared.antt =====
-- Tenancy, and the rest of what is asked of a send.
use printer_nanny.Common.{
  ℕ, zero, suc, ◌+◌, ◌≤◌, ◌≡◌, refl, sym, String, true, Option, none, some, List, [], ◌∷◌, map, All,
  All-map, In, here, there, In-map, mapped-In, arith, Bool-cases, Option-cases, ◌⊎◌, inl, inr,
  str_eq, eq_iff, ◌==◌, ap, if◌then◌else◌, ◌||◌, some-injective, leb,
}
use mathlib.Core.Path.{subst, ◌∙◌}
use printer_nanny.Delivery.{DeliveryStatus, EventDelivery}
use printer_nanny.Delivery.Events.{
  EventSubscription, OutboundEvent, Transport, scope_allows, wants_type, has_text, is_empty,
  send_one, stamp, is_due, is_open, handle_known, handle, get_subscription, get_event, Policy,
  Attempt,
}
use printer_nanny.Delivery.Bus.{sweep, stamped, stamped_if, with_attempt}

-- A subscription but for what its sends leave on it.
abbrev pub unstamped : EventSubscription → EventSubscription
unstamped s = record s { last_attempt_at = none; last_ok = none; last_error = none }

-- The row is pending or failed, and its next attempt has no time or one that has come.
abbrev pub IsDue : ℕ → EventDelivery → Type 0
IsDue now d =
    ((d.status ≡ DeliveryStatus.pending) ⊎ (d.status ≡ DeliveryStatus.failed))
    × ((d.next_attempt_at ≡ none) ⊎ ((u : ℕ) × (d.next_attempt_at ≡ some u) × (u ≤ now)))

-- The send is one for a due row of the table: of the row's event, to the row's subscription as the
-- tables have them.
abbrev pub IsFor :
    Transport → ℕ → List OutboundEvent → List EventSubscription → Attempt → EventDelivery → Type 0
IsFor t now events subs a d =
    IsDue now d
    × (In a.event events × (a.event.id ≡ d.event_id))
    × ((s : EventSubscription) × In s subs
        × (s.id ≡ d.subscription_id)
        × (unstamped a.subscription ≡ unstamped s))
    × (a.result ≡ (send_one t a.subscription a.event (d.attempts + 1)).0)

-- Besides, the subscription is switched on, it may be told about the event's client, and it wants
-- the event's type.
pub record IsCleared (t : Transport) (now : ℕ) (rows : List EventDelivery)
    (events : List OutboundEvent) (subs : List EventSubscription) (a : Attempt) : Type 0 where
  pub row : (d : EventDelivery) × In d rows × IsFor t now events subs a d
  pub enabled : a.subscription.enabled ≡ true
  pub in_scope :
      (a.subscription.client_id ≡ none)
      ⊎ ((c : ℕ) × (a.subscription.client_id ≡ some c) × (a.event.client_id ≡ some c))
  pub wanted : (a.subscription.event_types ≡ []) ⊎ In a.event.kind a.subscription.event_types

get_subscription-In :
    (subs : List EventSubscription) (k : ℕ) (s : EventSubscription)
    → get_subscription subs k ≡ some s
    → In s subs × (s.id ≡ k)
unfolding get_subscription
get_subscription-In [] k s h = ground arith
get_subscription-In (x ∷ subs) k s h = elim (Bool-cases (x.id == k)) [
  | inl y ↦
      let same : x ≡ s =
        some-injective
          (subst (λ b. (if b then some x else get_subscription subs k) ≡ some s) y h) in
      subst (λ z. In z (x ∷ subs) × (z.id ≡ k)) same (here, ground arith)
  | inr n ↦ let (m, e) = get_subscription-In subs k s (ground arith) in (there m, e)
]

get_event-In :
    (events : List OutboundEvent) (k : ℕ) (e : OutboundEvent)
    → get_event events k ≡ some e
    → In e events × (e.id ≡ k)
unfolding get_event
get_event-In [] k e h = ground arith
get_event-In (x ∷ events) k e h = elim (Bool-cases (x.id == k)) [
  | inl y ↦
      let same : x ≡ e =
        some-injective (subst (λ b. (if b then some x else get_event events k) ≡ some e) y h) in
      subst (λ z. In z (x ∷ events) × (z.id ≡ k)) same (here, ground arith)
  | inr n ↦ let (m, i) = get_event-In events k e (ground arith) in (there m, i)
]

scope_allowed :
    (client : Option ℕ) (of_event : Option ℕ) (s : EventSubscription)
    → s.client_id ≡ client
    → scope_allows s of_event ≡ true
    → (client ≡ none) ⊎ ((c : ℕ) × (client ≡ some c) × (of_event ≡ some c))
unfolding scope_allows
scope_allowed none of_event s e h = inl refl
scope_allowed (some c) none s e h = ground arith
scope_allowed (some c) (some x) s e h = inr (c, refl, ground arith)

has_text-In : (k : String) (types : List String) → has_text k types ≡ true → In k types
has_text-In k [] h = ground arith
has_text-In k (x ∷ types) h = elim (Bool-cases (str_eq k x)) [
  | inl y ↦ subst (λ z. In z (x ∷ types)) (sym ((eq_iff k x).0 y)) here
  | inr n ↦ there (has_text-In k types (ground arith))
]

wanted_type :
    (types : List String) (k : String) (s : EventSubscription)
    → s.event_types ≡ types
    → wants_type s k ≡ true
    → (types ≡ []) ⊎ In k types
unfolding wants_type
wanted_type [] k s e h = inl refl
wanted_type (x ∷ types) k s e h =
    inr (has_text-In k (x ∷ types) (subst (λ l. (is_empty l || has_text k l) ≡ true) e h))

opened :
    (s : DeliveryStatus)
    → is_open s ≡ true
    → (s ≡ DeliveryStatus.pending) ⊎ (s ≡ DeliveryStatus.failed)
opened DeliveryStatus.pending h = inl refl
opened DeliveryStatus.failed h = inr refl
opened DeliveryStatus.delivered h = ground arith
opened DeliveryStatus.dead h = ground arith
opened DeliveryStatus.skipped h = ground arith
opened DeliveryStatus.deferred h = ground arith
opened DeliveryStatus.suppressed h = ground arith

due_at :
    (now : ℕ) (o : Option ℕ)
    → elim o [ none ↦ true | some t ↦ leb t now ] ≡ true
    → (o ≡ none) ⊎ ((u : ℕ) × (o ≡ some u) × (u ≤ now))
due_at now none h = inl refl
due_at now (some u) h = inr (u, refl, ground arith)

is_due-IsDue : (now : ℕ) (d : EventDelivery) → is_due now d ≡ true → IsDue now d
unfolding is_due
is_due-IsDue now d h = (opened d.status (ground arith), due_at now d.next_attempt_at (ground arith))

stamped-unstamped :
    (a : Attempt) (now : ℕ) (subs : List EventSubscription)
    → map unstamped (stamped a now subs) ≡ map unstamped subs
unfolding stamped stamp
stamped-unstamped a now [] = refl
stamped-unstamped a now (s ∷ subs) =
    let ih = stamped-unstamped a now subs in
    elim (Bool-cases (s.id == a.subscription.id)) [
      | inl y ↦ rw (y, ih) refl
      | inr n ↦ rw (n, ih) refl
    ]

stamped_if-unstamped :
    (o : Option Attempt) (now : ℕ) (subs : List EventSubscription)
    → map unstamped (stamped_if o now subs) ≡ map unstamped subs
stamped_if-unstamped none now subs = refl
stamped_if-unstamped (some a) now subs = stamped-unstamped a now subs

-- What holds of the send that a row's handler makes, if it makes one.
abbrev SendIf : (Attempt → Type 0) → Option Attempt → Type 0
SendIf P none = Unit
SendIf P (some a) = P a

with_attempt-All :
    (P : Attempt → Type 0) (o : Option Attempt) (attempts : List Attempt)
    → SendIf P o
    → All P attempts
    → All P (with_attempt o attempts)
with_attempt-All P none attempts h k = k
with_attempt-All P (some a) attempts h k = (h, k)

module _ (t : Transport) (p : Policy) (now : ℕ) (events : List OutboundEvent)
    (table : List EventSubscription) where
  -- The subscriptions at some moment of the sweep: those of the table, but for the stamps.
  abbrev AsInTable : List EventSubscription → Type 0
  AsInTable subs = map unstamped subs ≡ map unstamped table

  in_table :
      (subs : List EventSubscription)
      → AsInTable subs
      → (s : EventSubscription) → In s subs
      → (x : EventSubscription) × In x table × (unstamped s ≡ unstamped x)
  in_table subs same s m =
      In-map unstamped (unstamped s) table
        (subst (λ l. In (unstamped s) l) same (mapped-In unstamped s subs m))

  module _ (subs : List EventSubscription) (same : AsInTable subs) (d : EventDelivery)
      (rows : List EventDelivery) (due : is_due now d ≡ true) where
    handle_known-Cleared :
        (s : EventSubscription) (e : OutboundEvent)
        → In s subs × (s.id ≡ d.subscription_id)
        → In e events × (e.id ≡ d.event_id)
        → SendIf (IsCleared t now (d ∷ rows) events table) (handle_known t p now d s e).attempt
    unfolding handle_known
    handle_known-Cleared s e (m, id) of_event =
        let (x, n, like) = in_table subs same s m in
        elim (Bool-cases s.enabled) [
          | inr off ↦ simp off tt
          | inl on ↦ elim (Bool-cases (scope_allows s e.client_id)) [
            | inr outside ↦ simp (on, outside) tt
            | inl inside ↦ elim (Bool-cases (wants_type s e.kind)) [
              | inr unwanted ↦ simp (on, inside, unwanted) tt
              | inl wanted ↦
                  simp (on, inside, wanted)
                    (record {
                      row = (
                        d,
                        here,
                        (
                          is_due-IsDue now d due,
                          of_event,
                          (x, n, sym (ap (λ y. y.id) like) ∙ id, like),
                          refl,
                        ),
                      );
                      enabled = on;
                      in_scope = scope_allowed s.client_id e.client_id s refl inside;
                      wanted = wanted_type s.event_types e.kind s refl wanted;
                    })
            ]
          ]
        ]

    handle-Cleared :
        SendIf (IsCleared t now (d ∷ rows) events table) (handle t p now events subs d).attempt
    unfolding handle
    handle-Cleared = elim (Option-cases (get_subscription subs d.subscription_id)) [
      | inl missing ↦ rw (missing, handle) tt
      | inr (s, found) ↦ elim (Option-cases (get_event events d.event_id)) [
        | inl missing ↦ rw (found, missing, handle) tt
        | inr (e, stands) ↦
            rw (found, stands, handle)
              (handle_known-Cleared s e (get_subscription-In subs d.subscription_id s found)
                (get_event-In events d.event_id e stands))
      ]
    ]

  -- A send for a row of the rest is one for a row of the whole.
  later :
      (d : EventDelivery) (rows : List EventDelivery) (attempts : List Attempt)
      → All (IsCleared t now rows events table) attempts
      → All (IsCleared t now (d ∷ rows) events table) attempts
  later d rows attempts h =
      All-map (IsCleared t now rows events table) (IsCleared t now (d ∷ rows) events table) attempts
        (λ a c. record {
          row = (c.row.0, there c.row.1, c.row.2);
          enabled = c.enabled;
          in_scope = c.in_scope;
          wanted = c.wanted;
        })
        h

  pub sweep-IsCleared :
      (rows : List EventDelivery) (left : ℕ) (subs : List EventSubscription)
      → AsInTable subs
      → All (IsCleared t now rows events table) (sweep t p now events rows left subs).attempts
  unfolding sweep
  sweep-IsCleared [] left subs same = tt
  sweep-IsCleared (d ∷ rows) zero subs same = later d rows _ (sweep-IsCleared rows zero subs same)
  sweep-IsCleared (d ∷ rows) (suc left) subs same = elim (Bool-cases (is_due now d)) [
    | inr wait ↦ rw (wait, sweep) (later d rows _ (sweep-IsCleared rows (suc left) subs same))
    | inl due ↦
        let o = (handle t p now events subs d).attempt in
        rw (due, sweep)
          (with_attempt-All (IsCleared t now (d ∷ rows) events table) o _
            (handle-Cleared subs same d rows due)
            (later d rows _ (
              sweep-IsCleared rows left (stamped_if o now subs)
                (stamped_if-unstamped o now subs ∙ same))))
  ]
