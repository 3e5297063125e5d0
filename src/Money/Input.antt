-- ===== src/Money/Input.antt =====
-- central/money.py: what operators type and what the application shows (`to_decimal`,
-- `_parse_literal`, `parse_rate`, `parse_amount`, `round_money`, `format_money`, `format_rate`).
-- The field's name in a message is not modelled, and `\d` stands for the ASCII digits.
use printer_nanny.Common.{
  ℕ, ◌-◌, Bool, true, false, ◌&&◌, ◌||◌, Option, none, some, [], ◌∷◌, ◌++◌, length, ltb, leb, ◌==◌,
  if◌then◌else◌,
}
use printer_nanny.Money.{
  Text, Decimal, Value, decimal, non_finite, bool, float, other, int, str, MoneyError, not_finite,
  is_a_bool, is_a_float, not_a_literal, not_a_type, negative, too_large, value_error, Result, raise,
  ok, ◌>>=◌, half_up, spell, quantize, is_below_zero, is_wider, format_fixed,
}

unfoldable pub is_digit : ℕ → Bool
is_digit c = leb b'0' c && leb c b'9'

-- `str.isspace`, the characters that `strip` removes.
unfoldable pub is_space : ℕ → Bool
is_space c =
    (leb 9 c && leb c 13)
    || (leb 28 c && leb c 32)
    || (c == 133)
    || (c == 160)
    || (c == 5760)
    || (leb 8192 c && leb c 8202)
    || (c == 8232)
    || (c == 8233)
    || (c == 8239)
    || (c == 8287)
    || (c == 12288)

unfoldable pub strip_left : Text → Text
strip_left [] = []
strip_left (c ∷ text) = let rest = strip_left text in if is_space c then rest else c ∷ text

unfoldable pub strip_right : Text → Text
strip_right [] = []
strip_right (c ∷ text) = keep_unless_blank c (strip_right text)
  where
    keep_unless_blank : ℕ → Text → Text
    keep_unless_blank c [] = if is_space c then [] else c ∷ []
    keep_unless_blank c (d ∷ rest) = c ∷ d ∷ rest

abbrev pub strip : Text → Text
strip text = strip_right (strip_left text)

-- `\d*` at the head, and what follows it.
unfoldable pub digits_of : Text → Text × Text
digits_of [] = ([], [])
digits_of (c ∷ text) =
    let (run, rest) = digits_of text in if is_digit c then (c ∷ run, rest) else ([], c ∷ text)

abbrev pub is_empty : Text → Bool
is_empty [] = true
is_empty (_ ∷ _) = false

abbrev pub decimal_of : Bool → Text → Text → Decimal
decimal_of is_negative whole fraction = record {
  is_negative = is_negative;
  coefficient = spell 0 (whole ++ fraction);
  places = length fraction;
}

-- `Decimal` at a text of digits with at most one point, and nothing else.
unfoldable pub after_point : Bool → Text → Text × Text → Option Decimal
after_point sign whole (fraction, []) =
    if is_empty whole && is_empty fraction then none else some (decimal_of sign whole fraction)
after_point sign whole (fraction, _ ∷ _) = none

unfoldable pub after_whole : Bool → Text × Text → Option Decimal
after_whole sign (whole, []) = if is_empty whole then none else some (decimal_of sign whole [])
after_whole sign (whole, c ∷ text) =
    if c == b'.' then after_point sign whole (digits_of text) else none

unfoldable pub unsigned_literal : Bool → Text → Option Decimal
unsigned_literal sign text = after_whole sign (digits_of text)

-- `_DECIMAL_LITERAL`, and the decimal that it reads.
unfoldable pub decimal_literal : Text → Option Decimal
decimal_literal [] = unsigned_literal false []
decimal_literal (c ∷ text) =
    if c == b'+' then unsigned_literal false text else unsigned_literal false (c ∷ text)

unfoldable pub parse_literal : Text → Result Decimal
parse_literal raw = read (decimal_literal (strip raw))
  where
    read : Option Decimal → Result Decimal
    read none = raise (value_error not_a_literal)
    read (some dec) = ok dec

unfoldable pub to_decimal : Value → Result Decimal
to_decimal (decimal dec) = ok dec
to_decimal non_finite = raise (value_error not_finite)
to_decimal bool = raise (value_error is_a_bool)
to_decimal (int sign n) = ok (record { is_negative = sign && ltb 0 n; coefficient = n; places = 0 })
to_decimal float = raise (value_error is_a_float)
to_decimal (str text) = parse_literal text
to_decimal other = raise (value_error not_a_type)

abbrev pub rate_scale : ℕ
rate_scale = 6

abbrev pub money_scale : ℕ
money_scale = 2

abbrev pub precision : ℕ
precision = 12

abbrev pub unless : Bool → MoneyError → Decimal → Result Decimal
unless refused error dec = if refused then raise (value_error error) else ok dec

unfoldable pub parse_rate : Value → Result Decimal
parse_rate raw =
    to_decimal raw
    >>= (λ dec. unless (is_below_zero dec) negative dec)
    >>= (λ dec. quantize half_up rate_scale dec)
    >>= (λ quantized. unless (is_wider quantized (precision - rate_scale)) too_large quantized)

unfoldable pub round_money : Value → Result Decimal
round_money amount = to_decimal amount >>= (λ dec. quantize half_up money_scale dec)

unfoldable pub parse_amount : Value → Result Decimal
parse_amount raw =
    to_decimal raw
    >>= (λ dec. unless (is_below_zero dec) negative dec)
    >>= (λ dec. round_money (decimal dec))
    >>= (λ quantized. unless (is_wider quantized (precision - money_scale)) too_large quantized)

unfoldable pub format_money : Option Value → Result Text
format_money none = ok []
format_money (some amount) = to_decimal amount >>= (λ dec. ok (format_fixed money_scale dec))

unfoldable pub format_rate : Option Value → Result Text
format_rate none = ok []
format_rate (some rate) = to_decimal rate >>= (λ dec. ok (format_fixed rate_scale dec))
