-- ===== src/Money/Digits.antt =====
-- central/money.py: digits, printed and spelt.
use printer_nanny.Common.{
  ℕ, zero, suc, ◌+◌, ◌-◌, ◌*◌, ◌/◌, ◌%◌, ◌^◌, ◌≤◌, ◌<◌, ◌≡◌, ◌⊎◌, refl, sym, ap, ◌∙◌, true, [], ◌∷◌,
  ◌++◌, length, length-append, All, All-append, inl, inr, arith,
}
use native.Mathlib.Numerals.{unary_clauses}
use mathlib.Core.List.{append_assoc, append-nil}
use printer_nanny.Money.{Text, count_digits, digit_count, fixed_digits, spell}
use printer_nanny.Money.Input.{is_digit, digits_of}
use printer_nanny.Money.Column.{zeros}

abbrev pub IsDigits : Text → Type 0
IsDigits = All (λ c. is_digit c ≡ true)

last_is_digit : (n : ℕ) → is_digit (b'0' + n % 10) ≡ true
unfolding is_digit
last_is_digit n = ground arith

pub fixed_digits-IsDigits : (k n : ℕ) → IsDigits (fixed_digits k n)
unfolding fixed_digits
fixed_digits-IsDigits zero n = tt
fixed_digits-IsDigits (suc k) n =
    All-append (λ c. is_digit c ≡ true) (fixed_digits k (n / 10)) ((b'0' + n % 10) ∷ [])
      (fixed_digits-IsDigits k (n / 10)) (last_is_digit n, tt)

pub length-fixed_digits : (k n : ℕ) → length (fixed_digits k n) ≡ k
unfolding fixed_digits
length-fixed_digits zero n = refl
length-fixed_digits (suc k) n = omega (
  arith,
  length-append (fixed_digits k (n / 10)) ((b'0' + n % 10) ∷ []),
  length-fixed_digits k (n / 10),
)

pub spell-append : (n : ℕ) (xs ys : Text) → spell n (xs ++ ys) ≡ spell (spell n xs) ys
unfolding spell
spell-append n [] ys = refl
spell-append n (x ∷ xs) ys = spell-append (n * 10 + (x - b'0')) xs ys

tenth_fits : (k n : ℕ) → n < 10 ^ suc k → n / 10 < 10 ^ k
tenth_fits k n h = grind arith

times_ten : (m p : ℕ) → m * (p * 10) ≡ 10 * (m * p)
times_ten m p = grind arith

next_place : (m k : ℕ) → m * 10 ^ suc k ≡ 10 * (m * 10 ^ k)
next_place m k = simp unary_clauses (times_ten m (10 ^ k))

pub spell-fixed_digits : (k m n : ℕ) → n < 10 ^ k → spell m (fixed_digits k n) ≡ m * 10 ^ k + n
unfolding fixed_digits spell
spell-fixed_digits zero m n h = grind arith
spell-fixed_digits (suc k) m n h =
    rw
      (
        spell-append m (fixed_digits k (n / 10)) ((b'0' + n % 10) ∷ []),
        spell-fixed_digits k m (n / 10) (tenth_fits k n h),
      )
      (omega (arith, next_place m k))

le_or_lt : (a b : ℕ) → (a ≤ b) ⊎ (b < a)
le_or_lt a b = ground arith

count_zero : (n : ℕ) → count_digits zero n ≡ 1
unfolding count_digits
count_zero n = refl

count_small : (fuel n : ℕ) → n < 10 → count_digits (suc fuel) n ≡ 1
unfolding count_digits
count_small fuel n h = ground arith

count_large : (fuel n : ℕ) → 10 ≤ n → count_digits (suc fuel) n ≡ suc (count_digits fuel (n / 10))
unfolding count_digits
count_large fuel n h = ground arith

-- The printed length is enough for the number, and no longer than any that is.
count_digits-enough : (fuel n : ℕ) → n ≤ fuel → n < 10 ^ count_digits fuel n
count_digits-enough zero n h = rw (count_zero n) (omega (arith, h))
count_digits-enough (suc fuel) n h = elim (le_or_lt 10 n) [
  | inl large ↦
      rw (count_large fuel n large)
        (grind (arith, count_digits-enough fuel (n / 10) (omega (arith, h, large))))
  | inr small ↦ rw (count_small fuel n small) (omega (arith, small))
]

count_digits-least : (fuel n k : ℕ) → n < 10 ^ suc k → count_digits fuel n ≤ suc k
count_digits-least zero n k h = rw (count_zero n) (omega arith)
count_digits-least (suc fuel) n zero h = rw (count_small fuel n h) (omega arith)
count_digits-least (suc fuel) n (suc k) h = elim (le_or_lt 10 n) [
  | inl large ↦
      rw (count_large fuel n large)
        (omega (arith, count_digits-least fuel (n / 10) k (tenth_fits (suc k) n h)))
  | inr small ↦ rw (count_small fuel n small) (omega arith)
]

pub digit_count-enough : (n : ℕ) → n < 10 ^ digit_count n
digit_count-enough n = count_digits-enough n n (omega arith)

pub digit_count-least : (n k : ℕ) → n < 10 ^ suc k → digit_count n ≤ suc k
digit_count-least n k h = count_digits-least n n k h

count_digits-positive : (fuel n : ℕ) → 0 < count_digits fuel n
unfolding count_digits
count_digits-positive zero n = omega arith
count_digits-positive (suc fuel) n = ground arith

pub digit_count-positive : (n : ℕ) → 0 < digit_count n
digit_count-positive n = count_digits-positive n n

zeros_snoc : (j : ℕ) → b'0' ∷ zeros j ≡ zeros j ++ (b'0' ∷ [])
unfolding zeros
zeros_snoc zero = refl
zeros_snoc (suc j) = ap (λ t. b'0' ∷ t) (zeros_snoc j)

all_zeros : (j : ℕ) → zeros j ≡ fixed_digits j 0
unfolding fixed_digits zeros
all_zeros zero = refl
all_zeros (suc j) = zeros_snoc j ∙ ap (λ t. t ++ (b'0' ∷ [])) (all_zeros j)

-- Zeros in front of a number's digits are more of its digits.
pub zeros-fixed_digits :
    (j k n : ℕ) → n < 10 ^ k → zeros j ++ fixed_digits k n ≡ fixed_digits (j + k) n
unfolding fixed_digits zeros
zeros-fixed_digits j zero n h = simp (unary_clauses, append-nil) (none_of (omega (arith, h)))
  where
    none_of : n ≡ 0 → zeros j ≡ fixed_digits j n
    none_of e = rw e (all_zeros j)
zeros-fixed_digits j (suc k) n h = simp unary_clauses (
    rw
      (
        sym (append_assoc (zeros j) (fixed_digits k (n / 10)) ((b'0' + n % 10) ∷ [])),
        zeros-fixed_digits j k (n / 10) (tenth_fits k n h),
      )
      refl)

-- The digits above a place and those below it.
pub fixed_digits-append :
    (a b hi lo : ℕ)
    → lo < 10 ^ b
    → fixed_digits (a + b) (hi * 10 ^ b + lo) ≡ fixed_digits a hi ++ fixed_digits b lo
unfolding fixed_digits
fixed_digits-append a zero hi lo h = simp (unary_clauses, append-nil) (rw (nothing h) refl)
  where
    nothing : lo < 1 → hi * 1 + lo ≡ hi
    nothing h = omega arith
fixed_digits-append a (suc b) hi lo h = simp unary_clauses (
    rw
      (
        times_ten hi (10 ^ b),
        above (hi * 10 ^ b),
        below (hi * 10 ^ b),
        fixed_digits-append a b hi (lo / 10) (tenth_fits b lo h),
      )
      (append_assoc (fixed_digits a hi) (fixed_digits b (lo / 10)) ((b'0' + lo % 10) ∷ [])))
  where
    above : (q : ℕ) → (10 * q + lo) / 10 ≡ q + lo / 10
    above q = omega arith

    below : (q : ℕ) → (10 * q + lo) % 10 ≡ lo % 10
    below q = omega arith

pub digits_of-digits :
    (xs rest : Text)
    → IsDigits xs
    → digits_of rest ≡ ([], rest)
    → digits_of (xs ++ rest) ≡ (xs, rest)
unfolding digits_of
digits_of-digits [] rest h e = e
digits_of-digits (x ∷ xs) rest h e = rw (digits_of-digits xs rest h.1 e, h.0) refl
