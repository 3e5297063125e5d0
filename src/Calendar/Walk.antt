-- ===== src/Calendar/Walk.antt =====
-- central/business_calendar.py: the loop of `add_business_days`, for any test of a day.
use printer_nanny.Common.{
  ℕ, zero, suc, ◌+◌, ◌≡◌, refl, sym, ◌∙◌, ap, arith, Bool, true, false, some, ◌⊎◌, inl, inr,
  Bool-cases, some-injective, none-ne-some, if◌then◌else◌,
}
use mathlib.Core.Path.{subst}
use printer_nanny.Calendar.{walk}

-- How many of the next days are open.
unfoldable pub open_days : (ℕ → Bool) → ℕ → ℕ → ℕ
open_days is_open day zero = 0
open_days is_open day (suc k) = (if is_open (day + 1) then 1 else 0) + open_days is_open (day + 1) k

-- The walk from `day` ends at the first later day up to which `n` days were open, whatever fuel
-- there is above `fuel`.
pub record Walked (is_open : ℕ → Bool) (day n : ℕ) : Type 0 where
  pub fuel : ℕ
  pub span : ℕ
  pub result : (more : ℕ) → walk is_open (fuel + more) day n ≡ some (day + span)
  pub counted : open_days is_open day span ≡ n
  pub last : ((span ≡ 0) × (n ≡ 0)) ⊎ (is_open (day + span) ≡ true)

module _ (is_open : ℕ → Bool) where
  here_already : (day : ℕ) → Walked is_open day 0
  unfolding walk open_days
  here_already day = record {
    fuel = 0;
    span = 0;
    result = λ more. ap some (omega arith);
    counted = refl;
    last = inl (refl, refl);
  }

  pub fuel_suc :
      (fuel more day n : ℕ)
      → walk is_open (suc fuel + more) day n ≡ walk is_open (suc (fuel + more)) day n
  fuel_suc fuel more day n =
      let e : suc fuel + more ≡ suc (fuel + more) = omega arith in ap (λ f. walk is_open f day n) e

  on_open :
      (day n : ℕ)
      → is_open (day + 1) ≡ true
      → Walked is_open (day + 1) n
      → Walked is_open day (suc n)
  unfolding walk open_days
  on_open day n o w = record {
    fuel = suc w.fuel;
    span = suc w.span;
    result = λ more.
        fuel_suc w.fuel more day (suc n) ∙ rw (o, walk) (w.result more ∙ ap some (omega arith));
    counted = rw o (ground (arith, w.counted));
    last = elim w.last [
      | inl (s, _) ↦ inr (subst (λ d. is_open d ≡ true) (omega (arith, s)) o)
      | inr open_then ↦ inr (subst (λ d. is_open d ≡ true) (omega arith) open_then)
    ];
  }

  on_closed :
      (day n : ℕ)
      → is_open (day + 1) ≡ false
      → Walked is_open (day + 1) (suc n)
      → Walked is_open day (suc n)
  unfolding walk open_days
  on_closed day n o w = record {
    fuel = suc w.fuel;
    span = suc w.span;
    result = λ more.
        fuel_suc w.fuel more day (suc n) ∙ rw (o, walk) (w.result more ∙ ap some (omega arith));
    counted = rw o (ground (arith, w.counted));
    last = elim w.last [
      | inl (_, e) ↦ ground (arith, e)
      | inr open_then ↦ inr (subst (λ d. is_open d ≡ true) (omega arith) open_then)
    ];
  }

  up_to_open :
      (k day n : ℕ)
      → is_open (day + 1 + k) ≡ true
      → ((d : ℕ) → Walked is_open d n)
      → Walked is_open day (suc n)
  up_to_open zero day n h then_on =
      on_open day n (subst (λ d. is_open d ≡ true) (omega arith) h) (then_on (day + 1))
  up_to_open (suc k) day n h then_on =
      let later =
        up_to_open k (day + 1) n (subst (λ d. is_open d ≡ true) (omega arith) h) then_on in
      elim (Bool-cases (is_open (day + 1))) [
        | inl o ↦ on_open day n o (then_on (day + 1))
        | inr o ↦ on_closed day n o later
      ]

  pub walk-Walked :
      ((day : ℕ) → (k : ℕ) × (is_open (day + 1 + k) ≡ true)) → (n day : ℕ) → Walked is_open day n
  walk-Walked opens zero day = here_already day
  walk-Walked opens (suc n) day =
      let (k, h) = opens day in up_to_open k day n h (walk-Walked opens n)

  walk-suc :
      (f day n : ℕ)
      → walk is_open (suc f) day (suc n)
        ≡ walk is_open f (day + 1) (if is_open (day + 1) then n else suc n)
  unfolding walk
  walk-suc f day n = refl

  walk-start : (f day : ℕ) → walk is_open f day 0 ≡ some day
  unfolding walk
  walk-start f day = refl

  -- One walk after another is one walk.
  pub walk-add :
      (f g day m n r s : ℕ)
      → walk is_open f day m ≡ some r
      → ((more : ℕ) → walk is_open (g + more) r n ≡ some s)
      → walk is_open (f + g) day (m + n) ≡ some s
  unfolding walk
  walk-add f g day zero n r s first then_on =
      let same : f + g ≡ g + f = omega arith in
      let here : day ≡ r = some-injective (sym (walk-start f day) ∙ first) in
      let none_first : 0 + n ≡ n = omega arith in
      ap (walk is_open (f + g) day) none_first
      ∙ ap (λ k. walk is_open k day n) same
      ∙ ap (λ d. walk is_open (g + f) d n) here
      ∙ then_on f
  walk-add zero g day (suc m) n r s first then_on = elim (none-ne-some first) [ ]
  walk-add (suc f) g day (suc m) n r s first then_on =
      let on_fuel : suc f + g ≡ suc (f + g) = omega arith in
      let on_days : suc m + n ≡ suc (m + n) = omega arith in
      let stepped = sym (walk-suc f day m) ∙ first in
      let kept : Bool → Type 0 = λ b. walk is_open f (day + 1) (if b then m else suc m) ≡ some r in
      let opened = walk-add f g (day + 1) m n r s in
      let closed = walk-add f g (day + 1) (suc m) n r s in
      ap (λ k. walk is_open k day (suc m + n)) on_fuel
      ∙ ap (walk is_open (suc (f + g)) day) on_days
      ∙ walk-suc (f + g) day (m + n)
      ∙ elim (Bool-cases (is_open (day + 1))) [
        | inl o ↦ rw o (opened (subst kept o stepped) then_on)
        | inr o ↦ rw o (
            ap (walk is_open (f + g) (day + 1)) (sym on_days)
            ∙ closed (subst kept o stepped) then_on)
      ]
