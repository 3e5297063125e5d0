-- ===== src/Money/Refusals.antt =====
-- central/money.py: `parse_rate` and `parse_amount`, by the value that the operator typed.
use printer_nanny.Common.{
  ℕ, suc, ◌+◌, ◌-◌, ◌^◌, ◌≤◌, ◌≡◌, refl, ◌∙◌, inl, inr, Bool, true, false, ltb, if◌then◌else◌,
  Bool-cases, arith,
}
use printer_nanny.Money.{
  Decimal, Value, Exception, value_error, invalid_operation, negative, too_large, Result, raise, ok,
  ◌>>=◌, half_up, rescale, quantize, digit_count, context_precision, is_below_zero, is_wider,
}
use printer_nanny.Money.Input.{
  to_decimal, round_money, parse_rate, parse_amount, precision, rate_scale, money_scale,
}
use printer_nanny.Money.Digits.{digit_count-least}
use printer_nanny.Money.Order.{below_power}

-- What a decimal becomes in a column of `precision` digits, `s` of them behind the point.
abbrev pub admitted : ℕ → Decimal → Result Decimal
admitted s dec =
    let c = rescale half_up s dec in
    if is_below_zero dec
    then raise (value_error negative)
    else if ltb c (10 ^ precision)
    then ok (record { is_negative = dec.is_negative; coefficient = c; places = s })
    else if ltb c (10 ^ context_precision)
    then raise (value_error too_large)
    else raise invalid_operation

digits_iff : (n k : ℕ) → ltb (suc k) (digit_count n) ≡ (if ltb n (10 ^ suc k) then false else true)
digits_iff n k = ground (arith, digit_count-least n k, below_power (suc k) n)

-- The three steps behind `to_decimal`.
abbrev fixed_point : ℕ → Decimal → Result Decimal
fixed_point s dec =
    (if is_below_zero dec then raise (value_error negative) else ok dec)
    >>= (λ d. quantize half_up s d)
    >>= (λ q. if is_wider q (precision - s) then raise (value_error too_large) else ok q)

-- The two tests of a rounded number's digits, by what the number is.
digits_tests {ℓ} :
    {A : Type ℓ} (s c : ℕ) (x y r : A)
    → s ≤ precision
    → (if ltb context_precision (digit_count c)
        then x
        else if ltb (precision - s + s) (digit_count c)
        then y
        else r)
      ≡ (if ltb c (10 ^ precision) then r else if ltb c (10 ^ context_precision) then y else x)
digits_tests s c x y r h = rw (digits_iff c 27, width, digits_iff c 11) (ground arith)
  where
    width : precision - s + s ≡ 12
    width = omega (arith, h)

if-bind {ℓ} :
    {A : Type ℓ} (b : Bool) (e : Exception) (a : A) (f : A → Result A)
    → ((if b then raise e else ok a) >>= f) ≡ (if b then raise e else f a)
if-bind true e a f = refl
if-bind false e a f = refl

fixed_point_lem : (s : ℕ) (dec : Decimal) → s ≤ precision → fixed_point s dec ≡ admitted s dec
unfolding quantize
fixed_point_lem s dec h = elim (Bool-cases (is_below_zero dec)) [
  | inl y ↦ rw y refl
  | inr n ↦ rw n (
      if-bind (ltb context_precision (digit_count (rescale half_up s dec))) invalid_operation _ _
      ∙ digits_tests s (rescale half_up s dec) _ _ _ h)
]

-- `parse_rate` refuses what is no decimal as `to_decimal` does, and a decimal below zero as such.
-- Any other decimal it rounds half up to 6 places: below 10 ^ 12 in millionths that is the rate,
-- below 10 ^ 28 it is refused as too large, and from there on the exception is no `ValueError`.
-- `parse_amount` does the same with 2 places.
pub parse_rate-outcomes :
    (raw : Value)
    → (parse_rate raw ≡ (to_decimal raw >>= admitted rate_scale))
      × (parse_amount raw ≡ (to_decimal raw >>= admitted money_scale))
unfolding parse_rate parse_amount round_money to_decimal
parse_rate-outcomes raw = (
  ap_bind rate_scale (to_decimal raw) (λ dec. fixed_point_lem rate_scale dec (omega arith)),
  ap_bind money_scale (to_decimal raw) (λ dec. fixed_point_lem money_scale dec (omega arith)),
)
  where
    ap_bind :
        (s : ℕ) (r : Result Decimal)
        → ((dec : Decimal) → fixed_point s dec ≡ admitted s dec)
        → (r
            >>= (λ dec. if is_below_zero dec then raise (value_error negative) else ok dec)
            >>= (λ d. quantize half_up s d)
            >>= (λ q. if is_wider q (precision - s) then raise (value_error too_large) else ok q))
          ≡ (r >>= admitted s)
    ap_bind s (raise e) h = refl
    ap_bind s (ok dec) h = h dec
