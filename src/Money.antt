-- ===== src/Money.antt =====
-- central/money.py: exact decimals, as the module's callers hold them, and Python's decimal
-- arithmetic where the module uses it. A text is the list of its characters' codes. A decimal's
-- exponent is never positive here, as no text that the module accepts gives one.
mod Column
mod Digits
mod Forms
pub mod Input
mod Order
mod Refusals
mod Results
mod Printed
mod RoundTrip
mod Tests
mod TextOrder
use printer_nanny.Common.{
  ℕ, zero, suc, ◌+◌, ◌-◌, ◌*◌, ◌/◌, ◌%◌, ◌^◌, Bool, true, false, ◌&&◌, ◌||◌, List, [], ◌∷◌, ◌++◌,
  length, ltb, leb, ◌==◌, if◌then◌else◌,
}

abbrev pub Text : Type 0
Text = List ℕ

-- The value is `coefficient / 10 ^ places`, negated under the sign.
pub record Decimal : Type 0 where
  pub is_negative : Bool
  pub coefficient : ℕ
  pub places : ℕ

-- What a caller may pass: `Any`, by the types that `to_decimal` tells apart.
pub data Value : Type 0 where
  decimal : Decimal → Value
  non_finite bool float other : Value
  int : Bool → ℕ → Value
  str : Text → Value

-- The `ValueError`s of the module, by what they say.
pub data MoneyError : Type 0 where
  not_finite is_a_bool is_a_float not_a_literal not_a_type negative too_large : MoneyError

-- `InvalidOperation` is no `ValueError`, so the callers do not catch it.
pub data Exception : Type 0 where
  value_error : MoneyError → Exception
  invalid_operation : Exception

pub data Result {ℓ} (A : Type ℓ) : Type ℓ where
  raise : Exception → Result A
  ok : A → Result A

infixl 5 ◌>>=◌
abbrev pub ◌>>=◌ {ℓ κ} : {A : Type ℓ} {B : Type κ} → Result A → (A → Result B) → Result B
raise e >>= f = raise e
ok a >>= f = f a

-- How many digits a number is printed with; `0` has one. The fuel is the number itself.
unfoldable pub count_digits : ℕ → ℕ → ℕ
count_digits zero n = 1
count_digits (suc fuel) n = elim (ltb n 10) [ true ↦ 1 | false ↦ suc (count_digits fuel (n / 10)) ]

abbrev pub digit_count : ℕ → ℕ
digit_count n = count_digits n n

-- The last `k` digits of a number.
unfoldable pub fixed_digits : ℕ → ℕ → Text
fixed_digits zero n = []
fixed_digits (suc k) n = fixed_digits k (n / 10) ++ ((b'0' + n % 10) ∷ [])

unfoldable pub show : ℕ → Text
show n = fixed_digits (digit_count n) n

-- The number that digits spell behind `n`.
unfoldable pub spell : ℕ → Text → ℕ
spell n [] = n
spell n (c ∷ text) = spell (n * 10 + (c - b'0')) text

pub data Rounding : Type 0 where
  half_up half_even : Rounding

-- Drops the last `k` digits.
unfoldable pub round_off : Rounding → ℕ → ℕ → ℕ
round_off r c zero = c
round_off half_up c (suc k) = (c + 5 * 10 ^ k) / (10 * 10 ^ k)
round_off half_even c (suc k) =
    let q = c / (10 * 10 ^ k) in
    let rest = c % (10 * 10 ^ k) in
    if ltb (5 * 10 ^ k) rest || ((rest == (5 * 10 ^ k)) && ((q % 2) == 1)) then q + 1 else q

unfoldable pub rescale : Rounding → ℕ → Decimal → ℕ
rescale r s d =
    if leb d.places s
    then d.coefficient * 10 ^ (s - d.places)
    else round_off r d.coefficient (d.places - s)

-- The default context's precision.
abbrev pub context_precision : ℕ
context_precision = 28

-- `Decimal.quantize` to `s` places.
unfoldable pub quantize : Rounding → ℕ → Decimal → Result Decimal
quantize r s d =
    let c = rescale r s d in
    if ltb context_precision (digit_count c)
    then raise invalid_operation
    else ok (record { is_negative = d.is_negative; coefficient = c; places = s })

-- `dec < 0`
abbrev pub is_below_zero : Decimal → Bool
is_below_zero d = d.is_negative && ltb 0 d.coefficient

-- `len(q.as_tuple().digits) + q.as_tuple().exponent > width`
abbrev pub is_wider : Decimal → ℕ → Bool
is_wider q width = ltb (width + q.places) (digit_count q.coefficient)

-- `"{:.sf}".format(dec)`, for `s` above 0
unfoldable pub format_fixed : ℕ → Decimal → Text
format_fixed s d =
    let c = rescale half_even s d in
    let body = show (c / 10 ^ s) ++ (b'.' ∷ fixed_digits s (c % 10 ^ s)) in
    if d.is_negative then b'-' ∷ body else body
