-- ===== src/Delivery/Backoff.antt =====
-- The retry schedule and the outcomes of attempts.
use printer_nanny.Common.{
  ℕ, zero, suc, ◌+◌, ◌-◌, ◌*◌, ◌^◌, ◌≤◌, ◌<◌, ◌≡◌, min, max, true, false, some, List, [], ◌∷◌,
  arith, length, ltb, leb, if◌then◌else◌,
}
use native.Mathlib.Nat.{pow-suc}
use printer_nanny.Delivery.{
  DeliveryStatus, EventDelivery, ChannelResult, backoff_delay, backoff_cap_seconds, apply_result,
  or_else,
}

pow_pos : (n : ℕ) → 1 ≤ 2 ^ n
pow_pos zero = omega arith
pow_pos (suc n) = rw (pow-suc) (omega (arith, pow_pos n))

le-mul_pow : (b n : ℕ) → b ≤ b * 2 ^ n
le-mul_pow b n = grind (arith, pow_pos n)

abbrev capped_exp : ℕ → ℕ
capped_exp attempts = if ltb 20 (attempts - 1) then 20 else attempts - 1

-- Every delay is at least one second and at most the cap; up to the cap it is at least the base.
pub backoff_bounds :
    (attempts base : ℕ)
    → (1 ≤ backoff_delay attempts base)
      × (backoff_delay attempts base ≤ backoff_cap_seconds)
      × (base ≤ backoff_cap_seconds → base ≤ backoff_delay attempts base)
unfolding backoff_delay
backoff_bounds attempts base =
    ground (arith, le-mul_pow (max 1 (or_else base 1)) (capped_exp attempts))

-- The waits double until the cap: for a base of at least 1 and `n` up to 20, attempt `n + 1` waits
-- the base times `2 ^ n`, or the cap if that is less.
pub backoff_doubles :
    (n base : ℕ)
    → n ≤ 20
    → 1 ≤ base
    → backoff_delay (suc n) base ≡ min (base * 2 ^ n) backoff_cap_seconds
unfolding backoff_delay
backoff_doubles n base h pos =
    let exponent : capped_exp (suc n) ≡ n = ground arith in
    let factor : max 1 (or_else base 1) ≡ base = ground arith in rw (exponent, factor)

-- The row after several outcomes, each with the instant it was folded in.
pub apply_all : ℕ → ℕ → EventDelivery → List (ChannelResult × ℕ) → EventDelivery
apply_all max_attempts base d [] = d
apply_all max_attempts base d ((r, now) ∷ rest) =
    apply_all max_attempts base (apply_result d r now max_attempts base) rest

abbrev pub AllFail : List (ChannelResult × ℕ) → Type 0
AllFail [] = Unit
AllFail ((r, _) ∷ rest) = (r.ok ≡ false) × AllFail rest

-- A delivery that fails every time: after `n` failures it is dead-lettered if `n` has reached the
-- cap, and is queued for a later attempt if not. (A cap of 0 counts as 1.)
pub failing_delivery :
    (max_attempts base : ℕ) (d : EventDelivery) (r : ChannelResult) (now : ℕ)
    (rest : List (ChannelResult × ℕ))
    → AllFail ((r, now) ∷ rest)
    → let v = apply_all max_attempts base d ((r, now) ∷ rest) in
      let n = d.attempts + length ((r, now) ∷ rest) in
      (v.attempts ≡ n)
      × (v.status
          ≡ (if leb (max 1 max_attempts) n then DeliveryStatus.dead else DeliveryStatus.failed))
unfolding apply_all apply_result
failing_delivery m base d r now [] h = ground arith
failing_delivery m base d r now ((q, t) ∷ rest) h =
    ground (arith, failing_delivery m base (apply_result d r now m base) q t rest h.1)

-- A row is delivered exactly when its send succeeded and transmitted something, and a retry is
-- always scheduled after now.
pub result_outcome :
    (d : EventDelivery) (r : ChannelResult) (now m base : ℕ)
    → ((apply_result d r now m base).status ≡ DeliveryStatus.delivered
        → (r.ok ≡ true) × (r.sent ≡ true))
      × ((r.ok ≡ true) × (r.sent ≡ true)
          → (apply_result d r now m base).status ≡ DeliveryStatus.delivered)
      × ((t : ℕ)
          → (apply_result d r now m base).next_attempt_at ≡ some t
          → (now < t) × (t ≤ now + backoff_cap_seconds))
unfolding apply_result
result_outcome d r now m base = (
  λ e. ground arith,
  λ e. ground arith,
  λ t e. ground (arith, backoff_bounds (d.attempts + 1) base),
)
