-- ===== src/Money/Forms.antt =====
-- central/money.py: what a form accepts, in the column that stores it and in the form again.
use printer_nanny.Common.{
  ℕ, ◌+◌, ◌/◌, ◌%◌, ◌^◌, ◌≤◌, ◌<◌, ◌≡◌, refl, sym, ap, ◌∙◌, Bool, true, false, some, [], ◌∷◌, ◌++◌,
  length, All, All-append, All-map, ltb, ◌==◌, if◌then◌else◌, arith, lt→ltb, ltb→lt,
}
use mathlib.Core.Path.{subst}
use printer_nanny.Money.{
  Text, Decimal, Value, decimal, str, value_error, negative, too_large, invalid_operation, raise,
  ok, ◌>>=◌, half_up, half_even, show, rescale, quantize, digit_count, fixed_digits,
  context_precision, format_fixed, is_below_zero,
}
use printer_nanny.Money.Input.{
  is_digit, is_space, strip_left, strip_right, decimal_literal, unsigned_literal, parse_literal,
  to_decimal, parse_rate, format_rate, precision, rate_scale,
}
use printer_nanny.Money.Digits.{
  IsDigits, fixed_digits-IsDigits, length-fixed_digits, digit_count-positive, digit_count-least,
}
use printer_nanny.Money.Printed.{pointed, printed, rescale_same, unsigned_literal-printed}
use printer_nanny.Money.RoundTrip.{quantize-fits, IsBound, IsBound-bind, stored_read}
use printer_nanny.Money.Results.{>>=-ok, guarded, ok-injective, raise-ne-ok}
use printer_nanny.Money.Column.{
  Dialect, Stored, stored_as, rate_column, process_bind_param, process_result_value,
}
use printer_nanny.Money.Refusals.{admitted, parse_rate-outcomes}

abbrev IsPrintable : Text → Type 0
IsPrintable = All (λ c. is_space c ≡ false)

strip_left-IsPrintable : (t : Text) → IsPrintable t → strip_left t ≡ t
unfolding strip_left
strip_left-IsPrintable [] h = refl
strip_left-IsPrintable (c ∷ t) h = rw h.0 refl

strip_right-IsPrintable : (t : Text) → IsPrintable t → strip_right t ≡ t
unfolding strip_right
strip_right-IsPrintable [] h = refl
strip_right-IsPrintable (c ∷ []) h = rw h.0 refl
strip_right-IsPrintable (c ∷ d ∷ t) h = rw (strip_right-IsPrintable (d ∷ t) h.1) refl

digit_not_space : (c : ℕ) → is_digit c ≡ true → is_space c ≡ false
unfolding is_digit is_space
digit_not_space c h = ground arith

printed-IsPrintable : (j s c : ℕ) → IsPrintable (printed j s c)
unfolding is_space
printed-IsPrintable j s c =
    All-append (λ c. is_space c ≡ false) (fixed_digits (j + digit_count (c / 10 ^ s)) (c / 10 ^ s))
      (b'.' ∷ fixed_digits s (c % 10 ^ s)) (plain _ (fixed_digits-IsDigits _ (c / 10 ^ s)))
      (refl, plain _ (fixed_digits-IsDigits s (c % 10 ^ s)))
  where
    plain : (t : Text) → IsDigits t → IsPrintable t
    plain t = All-map (λ c. is_digit c ≡ true) (λ c. is_space c ≡ false) t digit_not_space

digit_not_plus : (c : ℕ) → is_digit c ≡ true → (c == b'+') ≡ false
unfolding is_digit
digit_not_plus c h = ground arith

decimal_literal-digits :
    (xs ys : Text)
    → IsDigits xs
    → 0 < length xs
    → decimal_literal (xs ++ ys) ≡ unsigned_literal false (xs ++ ys)
unfolding decimal_literal
decimal_literal-digits [] ys h some_digit = absurd (omega (arith, some_digit))
decimal_literal-digits (c ∷ xs) ys h some_digit = rw (digit_not_plus c h.0) refl

abbrev rate : ℕ → Decimal
rate c = record { is_negative = false; coefficient = c; places = rate_scale }

format_rate-printed : (c : ℕ) → format_rate (some (decimal (rate c))) ≡ ok (printed 0 rate_scale c)
unfolding format_rate to_decimal format_fixed show
format_rate-printed c = rw (rescale_same half_even rate_scale c false) (
    ap
      (λ k. ok (
        pointed (fixed_digits k (c / 10 ^ rate_scale))
          (fixed_digits rate_scale (c % 10 ^ rate_scale))))
      (omega arith))

parse_literal-printed : (c : ℕ) → parse_literal (printed 0 rate_scale c) ≡ ok (rate c)
unfolding parse_literal
parse_literal-printed c =
    rw
      (
        strip_left-IsPrintable (printed 0 rate_scale c) (printed-IsPrintable 0 rate_scale c),
        strip_right-IsPrintable (printed 0 rate_scale c) (printed-IsPrintable 0 rate_scale c),
        literal,
      )
      refl
  where
    literal : decimal_literal (printed 0 rate_scale c) ≡ some (rate c)
    literal =
        decimal_literal-digits
          (fixed_digits (0 + digit_count (c / 10 ^ rate_scale)) (c / 10 ^ rate_scale))
          (b'.' ∷ fixed_digits rate_scale (c % 10 ^ rate_scale))
          (fixed_digits-IsDigits _ (c / 10 ^ rate_scale))
          (omega (
            arith,
            length-fixed_digits (0 + digit_count (c / 10 ^ rate_scale)) (c / 10 ^ rate_scale),
            digit_count-positive (c / 10 ^ rate_scale),
          ))
        ∙ unsigned_literal-printed false 0 rate_scale c

admitted-again : (c : ℕ) → c < 10 ^ precision → admitted rate_scale (rate c) ≡ ok (rate c)
admitted-again c h = rw (rescale_same half_up rate_scale c false, lt→ltb c (10 ^ precision) h) refl

accepted :
    (b b' : Bool) (x : Decimal) {q : Decimal}
    → (if b then ok x else if b' then raise (value_error too_large) else raise invalid_operation)
      ≡ ok q
    → (b ≡ true) × (q ≡ x)
accepted true b' x h = (refl, sym (ok-injective h))
accepted false true x h = absurd (raise-ne-ok h)
accepted false false x h = absurd (raise-ne-ok h)

-- What the test admits is a decimal with the asked places, below 10 ^ 12 in their units.
admitted-ok :
    (s : ℕ) (dec q : Decimal)
    → admitted s dec ≡ ok q
    → (q.places ≡ s) × (q.coefficient < 10 ^ precision)
admitted-ok s dec q h =
    let c = rescale half_up s dec in
    let (_, h1) = guarded (is_below_zero dec) (value_error negative) h in
    let (fits, e) = accepted (ltb c (10 ^ precision)) (ltb c (10 ^ context_precision)) _ h1 in
    (
      ap (λ z. z.places) e,
      subst (λ z. z.coefficient < 10 ^ precision) (sym e) (ltb→lt c (10 ^ precision) fits),
    )

parse_rate-ok :
    (raw : Value) (r : Decimal)
    → parse_rate raw ≡ ok r
    → r.is_negative ≡ false
    → (r ≡ rate r.coefficient) × (r.coefficient < 10 ^ precision)
parse_rate-ok raw r h n =
    let (dec, _, e) = >>=-ok (to_decimal raw) (sym ((parse_rate-outcomes raw).0) ∙ h) in
    let (p, fits) = admitted-ok rate_scale dec r e in
    ((λ i. record { is_negative = n i; coefficient = r.coefficient; places = p i }), fits)

short_enough : (k c : ℕ) → c < 10 ^ precision → precision ≤ k → ltb k (digit_count c) ≡ false
short_enough k c h le = ground (arith, digit_count-least c 11 h)

rate_rounds : (c : ℕ) → c < 10 ^ precision → quantize half_up rate_scale (rate c) ≡ ok (rate c)
rate_rounds c h =
    quantize-fits half_up rate_scale c false (short_enough context_precision c h (omega arith))

rate-IsBound : (c : ℕ) → c < 10 ^ precision → IsBound rate_column (decimal (rate c)) (rate c)
unfolding to_decimal
rate-IsBound c h = record {
  dec = rate c;
  reads = refl;
  positive = refl;
  rounds = rate_rounds c h;
  fits = short_enough 12 c h (omega arith);
}

read_again : (c : ℕ) → to_decimal (str (printed 0 rate_scale c)) ≡ ok (rate c)
unfolding to_decimal
read_again c = parse_literal-printed c

-- A rate that the form accepts, and that is no negative zero, is stored unchanged by either
-- dialect and read back as it was; and the text that the application shows for it is accepted by
-- the form as the same rate.
pub accepted_rate :
    (raw : Value) (r : Decimal) (d : Dialect)
    → parse_rate raw ≡ ok r
    → r.is_negative ≡ false
    → (s : Stored) × (t : Text) × (process_bind_param rate_column (some (decimal r)) d
        ≡ ok (some s))
      × (process_result_value rate_column (some s) ≡ ok (some r))
      × (format_rate (some (decimal r)) ≡ ok t)
      × (parse_rate (str t) ≡ ok r)
accepted_rate raw r d h n =
    let (shape, fits) = parse_rate-ok raw r h n in subst Kept (sym shape) (kept r.coefficient fits)
  where
    Kept : Decimal → Type 0
    Kept q =
        (s : Stored) × (t : Text) × (process_bind_param rate_column (some (decimal q)) d
          ≡ ok (some s))
        × (process_result_value rate_column (some s) ≡ ok (some q))
        × (format_rate (some (decimal q)) ≡ ok t)
        × (parse_rate (str t) ≡ ok q)

    kept : (c : ℕ) → c < 10 ^ precision → Kept (rate c)
    kept c fits = (
      stored_as rate_column d (rate c),
      printed 0 rate_scale c,
      IsBound-bind rate_column (decimal (rate c)) d (rate c) (rate-IsBound c fits),
      stored_read rate_column d (rate c) (rate c) (rate_rounds c fits),
      format_rate-printed c,
      (parse_rate-outcomes (str (printed 0 rate_scale c))).0
          ∙ ap (λ r. r >>= admitted rate_scale) (read_again c)
          ∙ admitted-again c fits,
    )
