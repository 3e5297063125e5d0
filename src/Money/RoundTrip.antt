-- ===== src/Money/RoundTrip.antt =====
-- central/money.py: `FixedPoint`, from the value that is bound to the value that is read.
use printer_nanny.Common.{ℕ, ◌-◌, ◌≡◌, refl, sym, ap, ◌∙◌, Bool, false, Option, none, some, ltb}
use mathlib.Core.Path.{subst}
use printer_nanny.Money.{
  Text, Decimal, Value, value_error, negative, too_large, invalid_operation, Result, raise, ok,
  Rounding, half_up, half_even, rescale, quantize, digit_count, context_precision, is_below_zero,
  is_wider, format_fixed,
}
use printer_nanny.Money.Input.{to_decimal}
use printer_nanny.Money.Column.{
  FixedPoint, Dialect, sqlite, postgresql, Stored, text, numeric, text_width, stored_as,
  process_bind_param, zero_padded, decimal_of_text, process_result_value,
}
use printer_nanny.Money.Results.{checked, guarded, >>=-ok}
use printer_nanny.Money.Printed.{rescale_same, decimal_of_text-format}

-- What `quantize` returns has the asked places, and fits the context.
pub quantize-ok :
    (r : Rounding) (s : ℕ) (d q : Decimal)
    → quantize r s d ≡ ok q
    → (q ≡ record { is_negative = d.is_negative; coefficient = rescale r s d; places = s })
      × (ltb context_precision (digit_count (rescale r s d)) ≡ false)
unfolding quantize
quantize-ok r s d q h =
    checked (ltb context_precision (digit_count (rescale r s d))) invalid_operation h

pub quantize-fits :
    (r : Rounding) (s c : ℕ) (sign : Bool)
    → ltb context_precision (digit_count c) ≡ false
    → quantize r s (record { is_negative = sign; coefficient = c; places = s })
      ≡ ok (record { is_negative = sign; coefficient = c; places = s })
unfolding quantize
quantize-fits r s c sign fits = rw (rescale_same r s c sign, fits) refl

-- A decimal that was rounded to the places is not changed when it is rounded to them again.
pub quantize-again :
    (r r' : Rounding) (s : ℕ) (d q : Decimal) → quantize r s d ≡ ok q → quantize r' s q ≡ ok q
quantize-again r r' s d q h =
    let (e, fits) = quantize-ok r s d q h in
    subst (λ z. quantize r' s z ≡ ok z) (sym e)
      (quantize-fits r' s (rescale r s d) d.is_negative fits)

-- What a bound value went through.
pub record IsBound (column : FixedPoint) (v : Value) (q : Decimal) : Type 0 where
  pub dec : Decimal
  pub reads : to_decimal v ≡ ok dec
  pub positive : is_below_zero dec ≡ false
  pub rounds : quantize half_up column.scale dec ≡ ok q
  pub fits : is_wider q (column.precision - column.scale) ≡ false

bind-IsBound :
    (column : FixedPoint) (v : Value) (d : Dialect) (s : Stored)
    → process_bind_param column (some v) d ≡ ok (some s)
    → (q : Decimal) × IsBound column v q × (some s ≡ some (stored_as column d q))
unfolding process_bind_param
bind-IsBound column v d s h =
    let (dec, reads, h1) = >>=-ok (to_decimal v) h in
    let (positive, h2) = guarded (is_below_zero dec) (value_error negative) h1 in
    let (q, rounds, h3) = >>=-ok (quantize half_up column.scale dec) h2 in
    let (e, fits) =
      checked (is_wider q (column.precision - column.scale)) (value_error too_large) h3 in
    (q, record { dec = dec; reads = reads; positive = positive; rounds = rounds; fits = fits }, e)

pub IsBound-bind :
    (column : FixedPoint) (v : Value) (d : Dialect) (q : Decimal)
    → IsBound column v q
    → process_bind_param column (some v) d ≡ ok (some (stored_as column d q))
unfolding process_bind_param
IsBound-bind column v d q b = rw (b.reads, b.positive, b.rounds, b.fits) refl

text_read :
    (column : FixedPoint) (dec q : Decimal)
    → quantize half_up column.scale dec ≡ ok q
    → decimal_of_text (zero_padded (text_width column) (format_fixed column.scale q)) ≡ ok q
text_read column dec q rounds =
    let (e, fits) = quantize-ok half_up column.scale dec q rounds in
    subst
      (λ z. decimal_of_text (zero_padded (text_width column) (format_fixed column.scale z)) ≡ ok z)
      (sym e)
      (decimal_of_text-format (text_width column) column.scale (rescale half_up column.scale dec)
        dec.is_negative)

pub stored_read :
    (column : FixedPoint) (d : Dialect) (dec q : Decimal)
    → quantize half_up column.scale dec ≡ ok q
    → process_result_value column (some (stored_as column d q)) ≡ ok (some q)
unfolding process_result_value stored_as
stored_read column sqlite dec q rounds =
    rw (text_read column dec q rounds, quantize-again half_up half_even column.scale dec q rounds)
      refl
stored_read column postgresql dec q rounds =
    rw (quantize-again half_up half_even column.scale dec q rounds) refl

-- A value that one dialect's column stores is a decimal, at least 0; the other dialect's column
-- stores it too, and both read back that decimal rounded half up to the column's places.
pub bind-result :
    (column : FixedPoint) (v : Value) (d d' : Dialect) (s : Stored)
    → process_bind_param column (some v) d ≡ ok (some s)
    → (dec : Decimal) × (q : Decimal) × (s' : Stored) × (to_decimal v ≡ ok dec)
      × (is_below_zero dec ≡ false)
      × (quantize half_up column.scale dec ≡ ok q)
      × (process_bind_param column (some v) d' ≡ ok (some s'))
      × (process_result_value column (some s) ≡ ok (some q))
      × (process_result_value column (some s') ≡ ok (some q))
bind-result column v d d' s h =
    let (q, b, e) = bind-IsBound column v d s h in
    let read = stored_read column d b.dec q b.rounds in
    (
      b.dec,
      q,
      stored_as column d' q,
      b.reads,
      b.positive,
      b.rounds,
      IsBound-bind column v d' q b,
      subst (λ o. process_result_value column o ≡ ok (some q)) (sym e) read,
      stored_read column d' b.dec q b.rounds,
    )

text_of : Text → Option Stored → Text
text_of t none = t
text_of t (some (text t')) = t'
text_of t (some (numeric _)) = t

decimal_or : Decimal → Result (Option Decimal) → Decimal
decimal_or d (raise e) = d
decimal_or d (ok none) = d
decimal_or d (ok (some q)) = q

-- A text that SQLite stores is the column's print of the decimal that is read back, which fits.
pub stored_text_lem :
    (column : FixedPoint) (v : Value) (t : Text) (q : Decimal)
    → process_bind_param column (some v) sqlite ≡ ok (some (text t))
    → process_result_value column (some (text t)) ≡ ok (some q)
    → (t ≡ zero_padded (text_width column) (format_fixed column.scale q))
      × (q.places ≡ column.scale)
      × (is_wider q (column.precision - column.scale) ≡ false)
unfolding text_of decimal_or stored_as
stored_text_lem column v t q h k =
    let (q0, b, e) = bind-IsBound column v sqlite (text t) h in
    let read = stored_read column sqlite b.dec q0 b.rounds in
    let same : q0 ≡ q =
      ap (decimal_or q) (sym read ∙ ap (process_result_value column) (sym e) ∙ k) in
    let (shape, _) = quantize-ok half_up column.scale b.dec q0 b.rounds in
    (
      subst (λ z. t ≡ zero_padded (text_width column) (format_fixed column.scale z)) same
          (ap (text_of t) e),
      subst (λ z. z.places ≡ column.scale) same (ap (λ z. z.places) shape),
      subst (λ z. is_wider z (column.precision - column.scale) ≡ false) same b.fits,
    )
