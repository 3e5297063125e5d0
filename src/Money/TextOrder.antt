-- ===== src/Money/TextOrder.antt =====
-- central/money.py: the order of the texts that SQLite compares.
use Prim.Native.Nat.{compare, Ordering, lt, eq, gt}
use printer_nanny.Common.{
  ℕ, suc, ◌+◌, ◌-◌, ◌*◌, ◌^◌, ◌≤◌, ◌<◌, ◌≡◌, refl, sym, ap, ◌∙◌, ◌⊎◌, inl, inr, true, [], ◌∷◌, ◌++◌,
  length, arith,
}
use mathlib.Core.Path.{subst}
use native.Mathlib.Numerals.{unary_clauses}
use printer_nanny.Money.{Text, spell}
use printer_nanny.Money.Input.{is_digit}
use printer_nanny.Money.Digits.{IsDigits}
use printer_nanny.Money.Printed.{pointed}

abbrev pub first_of : Ordering → Ordering → Ordering
first_of lt rest = lt
first_of gt rest = gt
first_of eq rest = rest

-- SQLite's order of texts: by the first character that differs, the shorter first.
unfoldable pub compare_text : Text → Text → Ordering
compare_text [] [] = eq
compare_text [] (_ ∷ _) = lt
compare_text (_ ∷ _) [] = gt
compare_text (a ∷ t) (b ∷ u) = first_of (compare a b) (compare_text t u)

times_le : (a b p : ℕ) → a ≤ b → a * p ≤ b * p
times_le a b p h = grind arith

regroup : (m p : ℕ) → m * 10 * p ≡ m * (p * 10)
regroup m p = grind arith

spell-lower : (m : ℕ) (xs : Text) → m * 10 ^ length xs ≤ spell m xs
unfolding spell
spell-lower m [] = omega arith
spell-lower m (c ∷ xs) =
    simp unary_clauses (lower (10 ^ length xs) (spell-lower (m * 10 + (c - b'0')) xs))
  where
    lower : (p : ℕ) {n : ℕ} → (m * 10 + (c - b'0')) * p ≤ n → m * (p * 10) ≤ n
    lower p h = grind arith

spell-upper : (m : ℕ) (xs : Text) → IsDigits xs → spell m xs < suc m * 10 ^ length xs
unfolding spell is_digit
spell-upper m [] h = omega arith
spell-upper m (c ∷ xs) h =
    simp unary_clauses
      (upper (10 ^ length xs) (digit_below h.0) (spell-upper (m * 10 + (c - b'0')) xs h.1))
  where
    upper :
        (p : ℕ) {n : ℕ} → c - b'0' < 10 → n < suc (m * 10 + (c - b'0')) * p → n < suc m * (p * 10)
    upper p small h = omega (
      arith,
      h,
      times_le (suc (m * 10 + (c - b'0'))) (suc m * 10) p (omega (arith, small)),
      regroup (suc m) p,
    )

    digit_below : is_digit c ≡ true → c - b'0' < 10
    digit_below e = ground arith

compare-lt : (a b : ℕ) → a < b → compare a b ≡ lt
compare-lt a b h = ground arith

compare-gt : (a b : ℕ) → b < a → compare a b ≡ gt
compare-gt a b h = ground arith

compare-same : (a : ℕ) → eq ≡ compare a a
compare-same a = ground arith

compared : (a b : ℕ) → (a < b) ⊎ (b < a) ⊎ (a ≡ b)
compared a b = ground arith

spell-below :
    (n x y : ℕ) (xs ys : Text)
    → IsDigits (x ∷ xs)
    → IsDigits (y ∷ ys)
    → suc (length xs) ≡ suc (length ys)
    → x < y
    → spell n (x ∷ xs) < spell n (y ∷ ys)
unfolding spell is_digit
spell-below n x y xs ys hx hy e below =
    between (length xs) (length ys) (omega (arith, e)) (spell-upper (n * 10 + (x - b'0')) xs hx.1)
      (spell-lower (n * 10 + (y - b'0')) ys)
  where
    steps : (suc (n * 10 + (x - b'0'))) ≤ n * 10 + (y - b'0')
    steps = ground (arith, hx.0, hy.0)

    between :
        (j k : ℕ) {a b : ℕ}
        → j ≡ k
        → a < suc (n * 10 + (x - b'0')) * 10 ^ j
        → (n * 10 + (y - b'0')) * 10 ^ k ≤ b
        → a < b
    between j k {a = a} same upper lower =
        let le = times_le _ _ (10 ^ k) steps in
        omega (arith, subst (λ l. a < suc (n * 10 + (x - b'0')) * 10 ^ l) same upper, lower, le)

decides :
    (x y : ℕ) (xs ys : Text) {o : Ordering}
    → compare x y ≡ o
    → compare_text (x ∷ xs) (y ∷ ys) ≡ first_of o (compare_text xs ys)
unfolding compare_text
decides x y xs ys h = ap (λ o. first_of o (compare_text xs ys)) h

-- Digits of one length stand in the order of the numbers that they spell.
pub compare_text-digits :
    (n : ℕ) (xs ys : Text)
    → IsDigits xs
    → IsDigits ys
    → length xs ≡ length ys
    → compare_text xs ys ≡ compare (spell n xs) (spell n ys)
unfolding compare_text spell
compare_text-digits n [] [] hx hy e = compare-same n
compare_text-digits n [] (y ∷ ys) hx hy e = absurd (omega (arith, e))
compare_text-digits n (x ∷ xs) [] hx hy e = absurd (omega (arith, e))
compare_text-digits n (x ∷ xs) (y ∷ ys) hx hy e = elim (compared x y) [
  | inl below ↦
      decides x y xs ys (compare-lt x y below)
      ∙ (sym (compare-lt _ _ (spell-below n x y xs ys hx hy e below)))
  | inr (inl above) ↦
      decides x y xs ys (compare-gt x y above)
      ∙ (sym (compare-gt _ _ (spell-below n y x ys xs hy hx (sym e) above)))
  | inr (inr same) ↦
      decides x y xs ys (ap (compare x) (sym same) ∙ sym (compare-same x))
      ∙ compare_text-digits (n * 10 + (x - b'0')) xs ys hx.1 hy.1 (omega (arith, e))
      ∙ ap (λ c. compare (spell n (x ∷ xs)) (spell n (c ∷ ys))) same
]

-- The point stands at the same place, so it decides nothing.
pub compare_text-pointed :
    (w w' f f' : Text)
    → length w ≡ length w'
    → compare_text (pointed w f) (pointed w' f') ≡ compare_text (w ++ f) (w' ++ f')
unfolding compare_text
compare_text-pointed [] [] f f' e = refl
compare_text-pointed [] (_ ∷ _) f f' e = absurd (omega (arith, e))
compare_text-pointed (_ ∷ _) [] f f' e = absurd (omega (arith, e))
compare_text-pointed (a ∷ w) (b ∷ w') f f' e =
    ap (first_of (compare a b)) (compare_text-pointed w w' f f' (omega (arith, e)))
