-- ===== src/Delivery/Tests.antt =====
-- Runs of the event bus, and its theorems at concrete tables.
use printer_nanny.Common.{
  ◌≤◌, ◌≡◌, refl, true, false, none, some, [], ◌∷◌, All, here, there, length,
}
use printer_nanny.Delivery.{
  DeliveryStatus, EventDelivery, ChannelResult, backoff_delay, apply_result,
}
use printer_nanny.Delivery.Events.{
  EventSubscription, OutboundEvent, Transport, allowed, response, scope_allows, wants_type,
  send_one, handle, handle_known, terminate, is_due, stamp, get_subscription, get_event, Outcome,
  Policy,
}
use printer_nanny.Delivery.Bus.{sweep, stamped, Bus, Settings, swept_of}
use printer_nanny.Delivery.Cleared.{IsCleared}
use printer_nanny.Delivery.Sweep.{sends_are-IsCleared}
use printer_nanny.Delivery.Prune.{HasParents}

delays : (backoff_delay 1 60 ≡ 60) × (backoff_delay 4 60 ≡ 480) × (backoff_delay 40 60 ≡ 3600)
unfolding backoff_delay
delays = (refl, refl, refl)

abbrev failure : ChannelResult
failure = record { ok = false; sent = true; text = "HTTP 500" }

abbrev queued : EventDelivery
queued = record {
  id = 1;
  event_id = 10;
  subscription_id = 5;
  status = DeliveryStatus.pending;
  attempts = 0;
  last_error = none;
  next_attempt_at = none;
  response_status = none;
}

-- The subscription is scoped to client 3.
abbrev subscription : EventSubscription
subscription = record {
  id = 5;
  client_id = some 3;
  url = "https://hooks.example";
  secret = "s";
  event_types = [];
  enabled = true;
  last_attempt_at = none;
  last_ok = none;
  last_error = none;
}

abbrev event : OutboundEvent
event = record { id = 10; kind = "alert.opened"; client_id = some 3; created_at = 100 }

abbrev foreign : OutboundEvent
foreign = record event { id = 11; client_id = some 4 }

-- Every destination answers 204.
abbrev transport : Transport
transport = record {
  decrypt_value = λ s. s;
  validate_url = λ u. allowed u;
  post = λ u e n. response 204 "";
}

abbrev settings : Settings
settings = record { enabled = true; max_attempts = 8; base_seconds = 60; retention_days = 30 }

abbrev bus : Bus
bus = record {
  deliveries =
      queued
      ∷ record queued { id = 2; event_id = 11 }
      ∷ record queued { id = 3; status = DeliveryStatus.delivered }
      ∷ [];
  events = event ∷ foreign ∷ [];
  subscriptions = subscription ∷ [];
}

-- The first is delivered, the second is refused for its tenant, the third is left alone.
sweep-run : (swept_of transport settings 500 bus).outcomes ≡ Outcome.sent ∷ Outcome.dead ∷ []
unfolding sweep stamped stamp handle handle_known is_due send_one apply_result scope_allows
    wants_type terminate get_subscription get_event
sweep-run = refl

sends_are-IsCleared_example :
    All
      (IsCleared transport 500 bus.deliveries bus.events bus.subscriptions)
      (swept_of transport settings 500 bus).attempts
    × (length (swept_of transport settings 500 bus).outcomes ≤ 200)
    × (length (swept_of transport settings 500 bus).attempts
        ≤ length (swept_of transport settings 500 bus).outcomes)
sends_are-IsCleared_example = sends_are-IsCleared transport settings 500 bus

abbrev policy : Policy
policy = record { max_attempts = 8; base_seconds = 60 }

bus-HasParents : HasParents bus
bus-HasParents d here = (event, here, refl)
bus-HasParents d (there here) = (foreign, there here, refl)
bus-HasParents d (there (there here)) = (event, here, refl)
bus-HasParents d (there (there (there m))) = elim m [ ]
