-- ===== src/Money/Column.antt =====
-- central/money.py: `FixedPoint`, the column type that stores an exact decimal as NUMERIC on
-- Postgres and as padded text on SQLite. A column's scale is above 0, as those of `Money` and
-- `Rate` are.
use printer_nanny.Common.{
  ℕ, zero, suc, ◌+◌, ◌-◌, true, false, Option, none, some, [], ◌∷◌, ◌++◌, length, ◌==◌,
  if◌then◌else◌,
}
use printer_nanny.Money.{
  Text, Decimal, Value, value_error, invalid_operation, negative, too_large, Result, raise, ok,
  ◌>>=◌, half_up, half_even, quantize, is_below_zero, is_wider, format_fixed,
}
use printer_nanny.Money.Input.{to_decimal, unsigned_literal, precision, rate_scale, money_scale}

pub record FixedPoint : Type 0 where
  pub precision : ℕ
  pub scale : ℕ

pub data Dialect : Type 0 where
  sqlite postgresql : Dialect

-- What the driver is handed, and hands back.
pub data Stored : Type 0 where
  text : Text → Stored
  numeric : Decimal → Stored

abbrev pub money_column : FixedPoint
money_column = record { precision = precision; scale = money_scale }

abbrev pub rate_column : FixedPoint
rate_column = record { precision = precision; scale = rate_scale }

unfoldable pub zeros : ℕ → Text
zeros zero = []
zeros (suc n) = b'0' ∷ zeros n

-- The `0` of a format's width: zeros after the sign.
unfoldable pub zero_padded : ℕ → Text → Text
zero_padded width [] = zeros width
zero_padded width (c ∷ body) =
    if c == b'-'
    then b'-' ∷ zeros (width - suc (length body)) ++ body
    else zeros (width - suc (length body)) ++ (c ∷ body)

abbrev pub text_width : FixedPoint → ℕ
text_width column = column.precision + 1

unfoldable pub stored_as : FixedPoint → Dialect → Decimal → Stored
stored_as column sqlite quantized =
    text (zero_padded (text_width column) (format_fixed column.scale quantized))
stored_as column postgresql quantized = numeric quantized

unfoldable pub process_bind_param : FixedPoint → Option Value → Dialect → Result (Option Stored)
process_bind_param column none dialect = ok none
process_bind_param column (some value) dialect = to_decimal value >>= (λ dec.
    if is_below_zero dec
    then raise (value_error negative)
    else quantize half_up column.scale dec >>= (λ quantized.
      if is_wider quantized (column.precision - column.scale)
      then raise (value_error too_large)
      else ok (some (stored_as column dialect quantized))))

-- `Decimal(str(value))`, at the texts that this column writes.
abbrev pub read_or_invalid : Option Decimal → Result Decimal
read_or_invalid none = raise invalid_operation
read_or_invalid (some dec) = ok dec

unfoldable pub decimal_of_text : Text → Result Decimal
decimal_of_text [] = raise invalid_operation
decimal_of_text (c ∷ body) =
    read_or_invalid
      (if c == b'-' then unsigned_literal true body else unsigned_literal false (c ∷ body))

abbrev pub decimal_of_stored : Stored → Result Decimal
decimal_of_stored (text t) = decimal_of_text t
decimal_of_stored (numeric dec) = ok dec

unfoldable pub process_result_value : FixedPoint → Option Stored → Result (Option Decimal)
process_result_value column none = ok none
process_result_value column (some value) =
    decimal_of_stored value
    >>= (λ dec. quantize half_even column.scale dec)
    >>= (λ quantized. ok (some quantized))
