-- ===== src/Money/Printed.antt =====
-- central/money.py: the texts that columns and forms hold, and the decimals that they spell.
use printer_nanny.Common.{
  ℕ, zero, suc, ◌+◌, ◌-◌, ◌*◌, ◌/◌, ◌%◌, ◌^◌, ◌<◌, ◌≡◌, refl, sym, ap, ◌∙◌, Bool, true, false, some,
  [], ◌∷◌, ◌++◌, length, length-append, ◌==◌, arith, le→leb,
}
use native.Mathlib.Nat.{div-add-mod', mod-lt}
use native.Mathlib.Numerals.{unary_clauses}
use mathlib.Core.List.{append_assoc, append-nil}
use printer_nanny.Money.{
  Text, digit_count, fixed_digits, show, spell, format_fixed, rescale, half_even, ok, Rounding,
}
use printer_nanny.Money.Input.{
  is_digit, digits_of, after_point, after_whole, unsigned_literal, decimal_of,
}
use printer_nanny.Money.Column.{zeros, zero_padded, decimal_of_text, read_or_invalid}
use printer_nanny.Money.Digits.{
  IsDigits, fixed_digits-IsDigits, length-fixed_digits, spell-append, spell-fixed_digits,
  digit_count-enough, digit_count-positive, zeros-fixed_digits, digits_of-digits,
}

-- The digits before the point, and those behind it.
abbrev pub pointed : Text → Text → Text
pointed whole fraction = whole ++ (b'.' ∷ fraction)

digits_of-point : (fraction : Text) → digits_of (b'.' ∷ fraction) ≡ ([], b'.' ∷ fraction)
unfolding digits_of is_digit
digits_of-point fraction = refl

digits_of-all : (xs : Text) → IsDigits xs → digits_of xs ≡ (xs, [])
unfolding digits_of
digits_of-all xs h = ap digits_of (sym (append-nil xs)) ∙ digits_of-digits xs [] h refl

after_point-digits :
    (sign : Bool) (whole fraction : Text)
    → 0 < length whole
    → after_point sign whole (fraction, []) ≡ some (decimal_of sign whole fraction)
unfolding after_point
after_point-digits sign [] fraction h = absurd (omega (arith, h))
after_point-digits sign (c ∷ whole) fraction h = refl

unsigned_literal-pointed :
    (sign : Bool) (whole fraction : Text)
    → IsDigits whole
    → IsDigits fraction
    → 0 < length whole
    → unsigned_literal sign (pointed whole fraction) ≡ some (decimal_of sign whole fraction)
unfolding unsigned_literal after_whole
unsigned_literal-pointed sign whole fraction hw hf some_digit =
    rw
      (
        digits_of-digits whole (b'.' ∷ fraction) hw (digits_of-point fraction),
        digits_of-all fraction hf,
      )
      (after_point-digits sign whole fraction some_digit)

zero_times : (p : ℕ) {q : ℕ} → 0 * p + q ≡ q
zero_times p = omega arith

pub reading_digits :
    (sign : Bool) (j s q r : ℕ)
    → 0 < j
    → q < 10 ^ j
    → r < 10 ^ s
    → unsigned_literal sign (pointed (fixed_digits j q) (fixed_digits s r))
      ≡ some (record { is_negative = sign; coefficient = q * 10 ^ s + r; places = s })
reading_digits sign j s q r hj hq hr =
    unsigned_literal-pointed sign (fixed_digits j q) (fixed_digits s r) (fixed_digits-IsDigits j q)
      (fixed_digits-IsDigits s r) (omega (arith, length-fixed_digits j q, hj))
    ∙ (λ i.
        some (record {
          is_negative = sign;
          coefficient = value i;
          places = length-fixed_digits s r i;
        }))
  where
    value : spell 0 (fixed_digits j q ++ fixed_digits s r) ≡ q * 10 ^ s + r
    value =
        spell-append 0 (fixed_digits j q) (fixed_digits s r)
        ∙ rw (spell-fixed_digits j 0 q hq, zero_times (10 ^ j)) (spell-fixed_digits s q r hr)

pub fits_more : (j m n : ℕ) → n < 10 ^ m → n < 10 ^ (j + m)
fits_more zero m n h = rw zero_plus h
  where
    zero_plus : 0 + m ≡ m
    zero_plus = omega arith
fits_more (suc j) m n h = rw (suc_plus j m) (simp unary_clauses (omega (arith, fits_more j m n h)))
  where
    suc_plus : (j m : ℕ) → suc j + m ≡ suc (j + m)
    suc_plus j m = omega arith

power_positive : (s : ℕ) → 0 < 10 ^ s
power_positive zero = omega arith
power_positive (suc s) = simp unary_clauses (omega (arith, power_positive s))

minus_self : (s : ℕ) → s - s ≡ 0
minus_self s = omega arith

pub rescale_same :
    (r : Rounding) (s c : ℕ) (sign : Bool)
    → rescale r s (record { is_negative = sign; coefficient = c; places = s }) ≡ c
unfolding rescale
rescale_same r s c sign = rw (le→leb s s (omega arith), minus_self s) (omega arith)

zero_padded-digits :
    (w : ℕ) (xs ys : Text)
    → IsDigits xs
    → 0 < length xs
    → zero_padded w (xs ++ ys) ≡ zeros (w - length (xs ++ ys)) ++ (xs ++ ys)
unfolding zero_padded is_digit
zero_padded-digits w [] ys h some_digit = absurd (omega (arith, some_digit))
zero_padded-digits w (c ∷ xs) ys h some_digit = ground (arith, h.0)

digits_not_minus : (c : ℕ) → is_digit c ≡ true → (c == b'-') ≡ false
unfolding is_digit
digits_not_minus c h = ground arith

decimal_of_text-digits :
    (xs ys : Text)
    → IsDigits xs
    → 0 < length xs
    → decimal_of_text (xs ++ ys) ≡ read_or_invalid (unsigned_literal false (xs ++ ys))
unfolding decimal_of_text
decimal_of_text-digits [] ys h some_digit = absurd (omega (arith, some_digit))
decimal_of_text-digits (c ∷ xs) ys h some_digit = rw (digits_not_minus c h.0) refl

-- The stored text of a fitting number, in a column of any width: its digits, padded, with a point.
pub zero_padded-show :
    (w q : ℕ) (fraction : Text)
    → zero_padded w (pointed (show q) fraction)
      ≡ pointed
          (fixed_digits (w - (digit_count q + suc (length fraction)) + digit_count q) q)
          fraction
unfolding show
zero_padded-show w q fraction =
    zero_padded-digits w (show q) (b'.' ∷ fraction) (fixed_digits-IsDigits (digit_count q) q)
      (omega (arith, length-fixed_digits (digit_count q) q, digit_count-positive q))
    ∙ rw (printed_length) (
        sym (
          append_assoc (zeros (w - (digit_count q + suc (length fraction)))) (show q)
            (b'.' ∷ fraction))
        ∙ ap (λ t. pointed t fraction)
            (zeros-fixed_digits _ (digit_count q) q (digit_count-enough q)))
  where
    printed_length : length (show q ++ (b'.' ∷ fraction)) ≡ digit_count q + suc (length fraction)
    printed_length =
        omega
          (arith, length-append (show q) (b'.' ∷ fraction), length-fixed_digits (digit_count q) q)

-- A number's digits before and behind the point, with `j` zeros in front.
abbrev pub printed : ℕ → ℕ → ℕ → Text
printed j s c =
    pointed (fixed_digits (j + digit_count (c / 10 ^ s)) (c / 10 ^ s)) (fixed_digits s (c % 10 ^ s))

pub unsigned_literal-printed :
    (sign : Bool) (j s c : ℕ)
    → unsigned_literal sign (printed j s c)
      ≡ some (record { is_negative = sign; coefficient = c; places = s })
unsigned_literal-printed sign j s c =
    reading_digits sign (j + digit_count (c / 10 ^ s)) s (c / 10 ^ s) (c % 10 ^ s)
      (omega (arith, digit_count-positive (c / 10 ^ s)))
      (fits_more j (digit_count (c / 10 ^ s)) (c / 10 ^ s) (digit_count-enough (c / 10 ^ s)))
      (mod-lt c (power_positive s))
    ∙ (λ i.
        some (record { is_negative = sign; coefficient = div-add-mod' c (10 ^ s) i; places = s }))

decimal_of_text-printed :
    (j s c : ℕ)
    → decimal_of_text (printed j s c)
      ≡ ok (record { is_negative = false; coefficient = c; places = s })
decimal_of_text-printed j s c =
    decimal_of_text-digits (fixed_digits (j + digit_count (c / 10 ^ s)) (c / 10 ^ s))
      (b'.' ∷ fixed_digits s (c % 10 ^ s)) (fixed_digits-IsDigits _ (c / 10 ^ s))
      (omega (
        arith,
        length-fixed_digits (j + digit_count (c / 10 ^ s)) (c / 10 ^ s),
        digit_count-positive (c / 10 ^ s),
      ))
    ∙ ap read_or_invalid (unsigned_literal-printed false j s c)

-- The text of a column: the number's digits, padded.
pub zero_padded-format :
    (w s c : ℕ)
    → zero_padded w (format_fixed s (record { is_negative = false; coefficient = c; places = s }))
      ≡ printed (w - (digit_count (c / 10 ^ s) + suc s)) s c
unfolding format_fixed
zero_padded-format w s c = rw (rescale_same half_even s c false) (
    zero_padded-show w (c / 10 ^ s) (fixed_digits s (c % 10 ^ s))
    ∙ ap (λ n. printed (w - (digit_count (c / 10 ^ s) + suc n)) s c)
        (length-fixed_digits s (c % 10 ^ s)))

zero_padded-minus :
    (w s c : ℕ)
    → (j : ℕ) × (zero_padded w
          (format_fixed s (record { is_negative = true; coefficient = c; places = s }))
        ≡ b'-' ∷ printed j s c)
unfolding format_fixed zero_padded show
zero_padded-minus w s c = (
  w - suc (length (pointed (show (c / 10 ^ s)) (fixed_digits s (c % 10 ^ s)))),
  rw (rescale_same half_even s c true) (
      ap (λ t. b'-' ∷ t)
        (sym (append_assoc (zeros _) (show (c / 10 ^ s)) (b'.' ∷ fixed_digits s (c % 10 ^ s)))
          ∙ ap (λ t. pointed t (fixed_digits s (c % 10 ^ s)))
              (zeros-fixed_digits _ (digit_count (c / 10 ^ s)) (c / 10 ^ s)
                (digit_count-enough (c / 10 ^ s))))),
)

decimal_of_text-minus :
    (body : Text) → decimal_of_text (b'-' ∷ body) ≡ read_or_invalid (unsigned_literal true body)
unfolding decimal_of_text
decimal_of_text-minus body = refl

-- A stored text is read back as the number it was made of.
pub decimal_of_text-format :
    (w s c : ℕ) (sign : Bool)
    → decimal_of_text (
        zero_padded w (format_fixed s (record { is_negative = sign; coefficient = c; places = s })))
      ≡ ok (record { is_negative = sign; coefficient = c; places = s })
decimal_of_text-format w s c false =
    ap decimal_of_text (zero_padded-format w s c) ∙ decimal_of_text-printed _ s c
decimal_of_text-format w s c true = negative_text (zero_padded-minus w s c)
  where
    minus_read :
        (j : ℕ)
        → decimal_of_text (b'-' ∷ printed j s c)
          ≡ ok (record { is_negative = true; coefficient = c; places = s })
    minus_read j =
        decimal_of_text-minus (printed j s c)
        ∙ ap read_or_invalid (unsigned_literal-printed true j s c)

    negative_text :
        {text : Text}
        → ((j : ℕ) × (text ≡ b'-' ∷ printed j s c))
        → decimal_of_text text ≡ ok (record { is_negative = true; coefficient = c; places = s })
    negative_text (j, e) = ap decimal_of_text e ∙ minus_read j
