-- ===== src/Delivery.antt =====
-- central/channels/delivery.py: the backoff policy and the one rule that folds a send's outcome
-- into a delivery row, for notifications and for outbound events alike. Durations are whole
-- seconds. The stored texts are kept as what they are made of, and are not cut to their columns'
-- width.
pub mod Backoff
pub mod Bus
pub mod Events
pub mod Cleared
pub mod Prune
pub mod Sweep
mod Tests
use printer_nanny.Common.{
  ℕ, ◌+◌, ◌-◌, ◌*◌, ◌^◌, min, max, String, Bool, true, false, Option, none, some, List, ltb, leb,
  if◌then◌else◌, ◌==◌,
}

pub data DeliveryStatus : Type 0 where
  pending delivered failed dead skipped deferred suppressed : DeliveryStatus

-- Why a row was last left as it is: a send's detail, or the sweepers' own verdicts.
pub data Reason : Type 0 where
  detail : String → Reason
  orphaned : Reason
  refused : Option ℕ → Option ℕ → Reason
  unsubscribed : String → Reason
  unrouted resolved_first resolved_while_held gave_up : Reason
  superseded : List String → Reason
  nothing_sent : List (String × String) → Reason
  withheld_by : ℕ → Reason

pub record EventDelivery : Type 0 where
  pub id : ℕ
  pub event_id : ℕ
  pub subscription_id : ℕ
  pub status : DeliveryStatus
  pub attempts : ℕ
  pub last_error : Option Reason
  pub next_attempt_at : Option ℕ
  pub response_status : Option ℕ

-- `sent` means something only where `ok` is true.
pub record ChannelResult : Type 0 where
  pub ok : Bool
  pub sent : Bool
  pub text : String

abbrev pub backoff_cap_seconds : ℕ
backoff_cap_seconds = 3600

-- `x or d` for a number
abbrev pub or_else : ℕ → ℕ → ℕ
or_else n d = if n == 0 then d else n

unfoldable pub backoff_delay : ℕ → ℕ → ℕ
backoff_delay attempts base_seconds =
    let base = max 1 (or_else base_seconds 1) in
    let exp = attempts - 1 in min (base * 2 ^ (if ltb 20 exp then 20 else exp)) backoff_cap_seconds

-- `_apply_result`
unfoldable pub apply_result : EventDelivery → ChannelResult → ℕ → ℕ → ℕ → EventDelivery
apply_result d result now max_attempts base_seconds =
    let attempts = d.attempts + 1 in
    if result.ok
    then record d {
      attempts = attempts;
      status = if result.sent then DeliveryStatus.delivered else DeliveryStatus.skipped;
      last_error = if result.sent then none else some (detail result.text);
      next_attempt_at = none;
    }
    else if leb (max 1 max_attempts) attempts
    then record d {
      attempts = attempts;
      status = DeliveryStatus.dead;
      last_error = some (detail result.text);
      next_attempt_at = none;
    }
    else record d {
      attempts = attempts;
      status = DeliveryStatus.failed;
      last_error = some (detail result.text);
      next_attempt_at = some (now + backoff_delay attempts base_seconds);
    }
