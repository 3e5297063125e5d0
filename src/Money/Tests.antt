-- ===== src/Money/Tests.antt =====
-- central/money.py: the rates 0.0085 and 12, and what the theorems say of them.
use Prim.Native.Nat.{compare}
use Prim.Native.Char.{code}
use printer_nanny.Common.{◌≡◌, refl, arith, false, some, [], ◌∷◌, length, String}
use printer_nanny.Money.{
  Text, Decimal, decimal, int, str, raise, ok, ◌>>=◌, invalid_operation, half_up, quantize,
  is_below_zero, format_fixed, show, fixed_digits, count_digits, rescale, spell,
}
use printer_nanny.Money.Input.{
  to_decimal, parse_literal, strip_left, strip_right, is_space, is_digit, digits_of, after_point,
  after_whole, unsigned_literal, decimal_literal, parse_rate, format_rate, rate_scale, parse_amount,
  money_scale,
}
use printer_nanny.Money.Column.{
  Stored, text, sqlite, postgresql, rate_column, stored_as, process_bind_param,
  process_result_value, decimal_of_text, zeros, zero_padded,
}
use printer_nanny.Money.RoundTrip.{bind-result}
use printer_nanny.Money.TextOrder.{compare_text}
use printer_nanny.Money.Order.{stored_texts-order}
use printer_nanny.Money.Refusals.{admitted, parse_rate-outcomes}
use printer_nanny.Money.Forms.{accepted_rate}

abbrev codes : String → Text
codes String.[] = []
codes (String.◌∷◌ c s) = code c ∷ codes s

abbrev mono : Decimal
mono = record { is_negative = false; coefficient = 8500; places = 6 }

abbrev mono_text : Text
mono_text = codes "000000.008500"

abbrev flat : Decimal
flat = record { is_negative = false; coefficient = 12_000_000; places = 6 }

abbrev flat_text : Text
flat_text = codes "000012.000000"

-- A rate of 23 digits leaves the form as an exception that it does not catch.
too_long : parse_rate (str (codes "11111111111111111111111")) ≡ raise invalid_operation
unfolding parse_rate to_decimal parse_literal strip_left strip_right is_space is_digit digits_of
    after_point after_whole unsigned_literal decimal_literal spell quantize rescale count_digits
too_long = refl

mono_typed : parse_rate (str (codes " .0085 ")) ≡ ok mono
unfolding parse_rate to_decimal parse_literal strip_left strip_right is_space is_digit digits_of
    after_point after_whole unsigned_literal decimal_literal spell quantize rescale count_digits
mono_typed = refl

mono_stored :
    process_bind_param rate_column (some (str (codes "0.0085"))) sqlite ≡ ok (some (text mono_text))
unfolding process_bind_param stored_as to_decimal parse_literal strip_left strip_right is_space
    is_digit digits_of after_point after_whole unsigned_literal decimal_literal spell quantize
    rescale count_digits zero_padded zeros format_fixed show fixed_digits
mono_stored = refl

mono_read : process_result_value rate_column (some (text mono_text)) ≡ ok (some mono)
unfolding process_result_value decimal_of_text is_digit digits_of after_point after_whole
    unsigned_literal spell quantize rescale count_digits
mono_read = refl

flat_stored :
    process_bind_param rate_column (some (int false 12)) sqlite ≡ ok (some (text flat_text))
unfolding process_bind_param stored_as to_decimal quantize rescale count_digits zero_padded zeros
    format_fixed show fixed_digits
flat_stored = refl

flat_read : process_result_value rate_column (some (text flat_text)) ≡ ok (some flat)
unfolding process_result_value decimal_of_text is_digit digits_of after_point after_whole
    unsigned_literal spell quantize rescale count_digits
flat_read = refl

bind-result_example :
    (dec : Decimal) × (q : Decimal) × (s' : Stored) × (to_decimal (str (codes "0.0085")) ≡ ok dec)
    × (is_below_zero dec ≡ false)
    × (quantize half_up 6 dec ≡ ok q)
    × (process_bind_param rate_column (some (str (codes "0.0085"))) postgresql ≡ ok (some s'))
    × (process_result_value rate_column (some (text mono_text)) ≡ ok (some q))
    × (process_result_value rate_column (some s') ≡ ok (some q))
bind-result_example =
    bind-result rate_column (str (codes "0.0085")) sqlite postgresql (text mono_text) mono_stored

stored_texts-order_example :
    (length mono_text ≡ 13) × (compare_text mono_text flat_text ≡ compare 8500 12_000_000)
stored_texts-order_example =
    stored_texts-order rate_column (str (codes "0.0085")) (int false 12) mono_text flat_text mono
      flat (omega arith) mono_stored flat_stored mono_read flat_read refl refl

parse_rate-outcomes_example :
    (parse_rate (str (codes "0.0085"))
      ≡ (to_decimal (str (codes "0.0085")) >>= admitted rate_scale))
    × (parse_amount (str (codes "0.0085"))
        ≡ (to_decimal (str (codes "0.0085")) >>= admitted money_scale))
parse_rate-outcomes_example = parse_rate-outcomes (str (codes "0.0085"))

accepted_rate_example :
    (s : Stored) × (t : Text) × (process_bind_param rate_column (some (decimal mono)) sqlite
      ≡ ok (some s))
    × (process_result_value rate_column (some s) ≡ ok (some mono))
    × (format_rate (some (decimal mono)) ≡ ok t)
    × (parse_rate (str t) ≡ ok mono)
accepted_rate_example = accepted_rate (str (codes " .0085 ")) mono sqlite mono_typed refl
