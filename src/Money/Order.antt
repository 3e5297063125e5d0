-- ===== src/Money/Order.antt =====
-- central/money.py: `FixedPoint` on SQLite, whose texts are compared by the database.
use Prim.Native.Nat.{compare}
use printer_nanny.Common.{
  ℕ, zero, suc, ◌+◌, ◌-◌, ◌*◌, ◌/◌, ◌%◌, ◌^◌, ◌≤◌, ◌<◌, ◌≡◌, sym, ap, ◌∙◌, false, some, ◌∷◌, ◌++◌,
  length, length-append, arith,
}
use mathlib.Core.Path.{subst}
use native.Mathlib.Nat.{div-add-mod', mod-lt, div-lt_iff_lt-mul, one-le-pow}
use native.Mathlib.Numerals.{unary_clauses}
use printer_nanny.Money.{
  Text, Decimal, Value, ok, digit_count, fixed_digits, spell, format_fixed, is_wider,
}
use printer_nanny.Money.Column.{
  FixedPoint, sqlite, text, process_bind_param, process_result_value, text_width, zero_padded,
}
use printer_nanny.Money.Digits.{
  fixed_digits-IsDigits, length-fixed_digits, spell-fixed_digits, digit_count-enough,
  digit_count-least, fixed_digits-append,
}
use printer_nanny.Money.Printed.{pointed, printed, fits_more, zero_padded-format}
use printer_nanny.Money.RoundTrip.{stored_text_lem}
use printer_nanny.Money.TextOrder.{compare_text, compare_text-digits, compare_text-pointed}

power_split : (a b : ℕ) → 10 ^ (a + b) ≡ 10 ^ a * 10 ^ b
power_split a zero = simp unary_clauses (omega arith)
power_split a (suc b) = simp unary_clauses (step (10 ^ a) (10 ^ b) (power_split a b))
  where
    step : (p q : ℕ) {r : ℕ} → r ≡ p * q → r * 10 ≡ p * (q * 10)
    step p q h = grind arith

pub below_power : (k n : ℕ) → digit_count n ≤ k → n < 10 ^ k
below_power k n h =
    subst (λ j. n < 10 ^ j) (omega (arith, h))
      (fits_more (k - digit_count n) (digit_count n) n (digit_count-enough n))

-- A number of at most `a + b` digits has at most `a` digits before its last `b`.
whole_fits : (a b c : ℕ) → digit_count c ≤ suc a + b → digit_count (c / 10 ^ b) ≤ suc a
whole_fits a b c h =
    digit_count-least (c / 10 ^ b) a (
      (div-lt_iff_lt-mul (one-le-pow b 10 (omega arith))).1 (rw (sym (power_split (suc a) b)) fits))
  where
    fits : c < 10 ^ (suc a + b)
    fits = below_power (suc a + b) c h

-- A stored text has the column's width, and spells its number's digits.
column_text :
    (a s c : ℕ)
    → digit_count c ≤ suc a + s
    → printed (suc (suc a + s) - (digit_count (c / 10 ^ s) + suc s)) s c
      ≡ pointed (fixed_digits (suc a) (c / 10 ^ s)) (fixed_digits s (c % 10 ^ s))
column_text a s c h =
    ap (λ k. pointed (fixed_digits k (c / 10 ^ s)) (fixed_digits s (c % 10 ^ s)))
      (omega (arith, whole_fits a s c h))

digits_joined :
    (a s c : ℕ)
    → fixed_digits a (c / 10 ^ s) ++ fixed_digits s (c % 10 ^ s) ≡ fixed_digits (a + s) c
digits_joined a s c =
    sym
      (fixed_digits-append a s (c / 10 ^ s) (c % 10 ^ s) (mod-lt c (one-le-pow s 10 (omega arith))))
    ∙ ap (fixed_digits (a + s)) (div-add-mod' c (10 ^ s))

-- A column whose digits before the point are `suc a`, and its text of the number `c`.
text_shape :
    (a s c : ℕ) (t : Text) (q : Decimal)
    → t ≡ zero_padded (suc a + s + 1) (format_fixed s q)
    → q ≡ record { is_negative = false; coefficient = c; places = s }
    → digit_count c ≤ suc a + s
    → t ≡ pointed (fixed_digits (suc a) (c / 10 ^ s)) (fixed_digits s (c % 10 ^ s))
text_shape a s c t q e shape fits =
    e
    ∙ ap (λ z. zero_padded (suc a + s + 1) (format_fixed s z)) shape
    ∙ ap
        (λ w.
          zero_padded w
            (format_fixed s (record { is_negative = false; coefficient = c; places = s })))
        (omega arith)
    ∙ zero_padded-format (suc (suc a + s)) s c
    ∙ column_text a s c fits

length-pointed :
    (a s c : ℕ)
    → length (pointed (fixed_digits a (c / 10 ^ s)) (fixed_digits s (c % 10 ^ s))) ≡ suc (a + s)
length-pointed a s c = omega (
  arith,
  length-append (fixed_digits a (c / 10 ^ s)) (b'.' ∷ fixed_digits s (c % 10 ^ s)),
  length-fixed_digits a (c / 10 ^ s),
  length-fixed_digits s (c % 10 ^ s),
)

compare_text-numbers :
    (a s c c' : ℕ)
    → digit_count c ≤ a + s
    → digit_count c' ≤ a + s
    → compare_text
        (pointed (fixed_digits a (c / 10 ^ s)) (fixed_digits s (c % 10 ^ s)))
        (pointed (fixed_digits a (c' / 10 ^ s)) (fixed_digits s (c' % 10 ^ s)))
      ≡ compare c c'
compare_text-numbers a s c c' fits fits' =
    compare_text-pointed (fixed_digits a (c / 10 ^ s)) (fixed_digits a (c' / 10 ^ s))
      (fixed_digits s (c % 10 ^ s)) (fixed_digits s (c' % 10 ^ s))
      (length-fixed_digits a (c / 10 ^ s) ∙ sym (length-fixed_digits a (c' / 10 ^ s)))
    ∙ (λ i. compare_text (digits_joined a s c i) (digits_joined a s c' i))
    ∙ compare_text-digits 0 (fixed_digits (a + s) c) (fixed_digits (a + s) c')
        (fixed_digits-IsDigits (a + s) c) (fixed_digits-IsDigits (a + s) c')
        (length-fixed_digits (a + s) c ∙ sym (length-fixed_digits (a + s) c'))
    ∙ (λ i. compare (spelt c fits i) (spelt c' fits' i))
  where
    spelt : (n : ℕ) → digit_count n ≤ a + s → spell 0 (fixed_digits (a + s) n) ≡ n
    spelt n h = spell-fixed_digits (a + s) 0 n (below_power (a + s) n h) ∙ omega arith

not_wider :
    (k : ℕ) {s : ℕ} (q : Decimal)
    → q.places ≡ s
    → is_wider q k ≡ false
    → digit_count q.coefficient ≤ k + s
not_wider k q p f = ground (arith, p, f)

column_shape :
    (column : FixedPoint) (v : Value) (t : Text) (q : Decimal)
    → column.scale < column.precision
    → process_bind_param column (some v) sqlite ≡ ok (some (text t))
    → process_result_value column (some (text t)) ≡ ok (some q)
    → q.is_negative ≡ false
    → (t
        ≡ pointed
            (fixed_digits (column.precision - column.scale) (q.coefficient / 10 ^ column.scale))
            (fixed_digits column.scale (q.coefficient % 10 ^ column.scale)))
      × (digit_count q.coefficient ≤ (column.precision - column.scale) + column.scale)
column_shape column v t q wide bind read n =
    let s = column.scale in
    let c = q.coefficient in
    let (e, p, f) = stored_text_lem column v t q bind read in
    let fits : digit_count c ≤ (column.precision - s) + s =
      not_wider (column.precision - s) q p f in
    let whole : suc (column.precision - s - 1) ≡ column.precision - s = omega (arith, wide) in
    (
      subst (λ k. t ≡ pointed (fixed_digits k (c / 10 ^ s)) (fixed_digits s (c % 10 ^ s))) whole
          (text_shape (column.precision - s - 1) s c t q
            (e ∙ ap (λ w. zero_padded w (format_fixed s q)) (omega (arith, wide)))
            (λ i. record { is_negative = n i; coefficient = c; places = p i })
            (omega (arith, fits, wide))),
      fits,
    )

-- Where a column has digits before the point, the texts that SQLite stores have exactly the
-- column's width, and the database's order of two of them is the order of the numbers that are
-- read back, none of these being a negative zero.
pub stored_texts-order :
    (column : FixedPoint) (v v' : Value) (t t' : Text) (q q' : Decimal)
    → column.scale < column.precision
    → process_bind_param column (some v) sqlite ≡ ok (some (text t))
    → process_bind_param column (some v') sqlite ≡ ok (some (text t'))
    → process_result_value column (some (text t)) ≡ ok (some q)
    → process_result_value column (some (text t')) ≡ ok (some q')
    → q.is_negative ≡ false
    → q'.is_negative ≡ false
    → (length t ≡ text_width column) × (compare_text t t' ≡ compare q.coefficient q'.coefficient)
stored_texts-order column v v' t t' q q' wide b b' r r' n n' =
    let a = column.precision - column.scale in
    let (e, f) = column_shape column v t q wide b r n in
    let (e', f') = column_shape column v' t' q' wide b' r' n' in
    (
      ap length e ∙ length-pointed a column.scale q.coefficient ∙ omega (arith, wide),
      (λ i. compare_text (e i) (e' i))
          ∙ compare_text-numbers a column.scale q.coefficient q'.coefficient f f',
    )
