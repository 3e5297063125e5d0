-- ===== src/Calendar/Counts.antt =====
-- central/business_calendar.py: how many of the days that follow a day pass a test.
use printer_nanny.Common.{
  ℕ, zero, suc, ◌+◌, ◌*◌, ◌≡◌, ◌≤◌, ◌<◌, ◌⊎◌, inl, inr, arith, ap, ◌∙◌, refl, sym, some, Bool, true,
  false, not, ◌||◌, List, [], ◌∷◌, length, leb, ◌==◌, Bool-cases, if◌then◌else◌,
}
use mathlib.Core.Path.{subst}
use printer_nanny.Calendar.{weekday, is_listed, walk}
use printer_nanny.Calendar.Walk.{open_days, fuel_suc}

pub open_days-add :
    (p : ℕ → Bool) (day a b : ℕ)
    → open_days p day (a + b) ≡ open_days p day a + open_days p (day + a) b
unfolding open_days
open_days-add p day zero b =
    let whole : 0 + b ≡ b = omega arith in
    let same : day + 0 ≡ day = omega arith in rw (whole, same) (omega arith)
open_days-add p day (suc a) b =
    let on_days : suc a + b ≡ suc (a + b) = omega arith in
    let on_start : day + 1 + a ≡ day + suc a = omega arith in
    let rest =
      open_days-add p (day + 1) a b
      ∙ ap (λ d. open_days p (day + 1) a + open_days p d b) on_start in
    rw on_days (ground (arith, rest))

-- A test that holds where another or a third one does.
pub open_days-covered :
    (p q r : ℕ → Bool) (day k : ℕ)
    → ((j : ℕ) → j < k → p (day + 1 + j) ≡ true → (q (day + 1 + j) || r (day + 1 + j)) ≡ true)
    → open_days p day k ≤ open_days q day k + open_days r day k
unfolding open_days
open_days-covered p q r day zero h = omega arith
open_days-covered p q r day (suc k) h =
    let at : ℕ → Type 0 = λ d. p d ≡ true → (q d || r d) ≡ true in
    let rest =
      open_days-covered p q r (day + 1) k
        (λ j small. subst at (omega arith) (h (suc j) (omega (arith, small)))) in
    let now = subst at (omega arith) (h 0 (omega arith)) in
    first_day (p (day + 1)) _ _ _ _ _ now rest
  where
    first_day :
        (a b c : Bool) (m n o : ℕ)
        → (a ≡ true → (b || c) ≡ true)
        → m ≤ n + o
        → (if a then 1 else 0) + m ≤ (if b then 1 else 0) + n + ((if c then 1 else 0) + o)
    first_day false b c m n o h rest = ground (arith, rest)
    first_day true b c m n o h rest = ground (arith, rest, h refl)

past : (x day k : ℕ) → x ≤ day → open_days (λ d. x == d) day k ≡ 0
unfolding open_days
past x day zero h = refl
past x day (suc k) h = let rest = past x (day + 1) k (omega (arith, h)) in ground (arith, rest, h)

open_days-one : (x day k : ℕ) → open_days (λ d. x == d) day k ≤ 1
unfolding open_days
open_days-one x day zero = omega arith
open_days-one x day (suc k) =
    let rest = open_days-one x (day + 1) k in
    let over = past x (day + 1) k in ground (arith, rest, over)

none_open : (day k : ℕ) → open_days (λ d. false) day k ≤ 0
unfolding open_days
none_open day zero = omega arith
none_open day (suc k) = let rest = none_open (day + 1) k in omega (arith, rest)

-- At most as many days are listed as the list is long.
pub open_days-is_listed :
    (days : List ℕ) (day k : ℕ) → open_days (λ d. is_listed d days) day k ≤ length days
unfolding is_listed
open_days-is_listed [] day k = none_open day k
open_days-is_listed (x ∷ days) day k =
    let rest = open_days-is_listed days day k in
    let one = open_days-one x day k in
    let both =
      open_days-covered (λ d. is_listed d (x ∷ days)) (λ d. x == d) (λ d. is_listed d days) day k
        (λ j small h. h) in
    omega (arith, rest, one, both)

abbrev pub on_weekdays : ℕ → Bool
on_weekdays day = not (leb 5 (weekday day))

week : (day : ℕ) → open_days on_weekdays day 7 ≡ 5
unfolding open_days weekday
week day = ground arith

no_days : (p : ℕ → Bool) (day : ℕ) → open_days p day 0 ≡ 0
unfolding open_days
no_days p day = refl

pub weeks : (m day : ℕ) → open_days on_weekdays day (m * 7) ≡ m * 5
weeks zero day = let e : 0 * 7 ≡ 0 = omega arith in rw e (no_days on_weekdays day)
weeks (suc m) day =
    let later = weeks m (day + 7) in
    let whole : suc m * 7 ≡ 7 + m * 7 = omega arith in
    let parts = open_days-add on_weekdays day 7 (m * 7) in
    let first = week day in rw whole (omega (arith, parts, first, later))

-- The walk from `day` ends within `k` days, with fuel for as many.
pub record Within (p : ℕ → Bool) (day k n : ℕ) : Type 0 where
  pub span : ℕ
  pub bounded : span ≤ k
  pub counted : open_days p day span ≡ n
  pub last : (span ≡ 0) ⊎ (p (day + span) ≡ true)
  pub result : (more : ℕ) → walk p (k + more) day n ≡ some (day + span)

last_open :
    (p : ℕ → Bool) (day span : ℕ)
    → p (day + 1) ≡ true
    → (span ≡ 0) ⊎ (p (day + 1 + span) ≡ true)
    → (suc span ≡ 0) ⊎ (p (day + suc span) ≡ true)
last_open p day span o (inl none_after) =
    inr (subst (λ d. p d ≡ true) (omega (arith, none_after)) o)
last_open p day span o (inr after) = inr (subst (λ d. p d ≡ true) (omega arith) after)

last_closed :
    (p : ℕ → Bool) (day span n : ℕ)
    → open_days p (day + 1) span ≡ suc n
    → (span ≡ 0) ⊎ (p (day + 1 + span) ≡ true)
    → (suc span ≡ 0) ⊎ (p (day + suc span) ≡ true)
last_closed p day span n some_days (inl none_after) =
    let nothing = subst (λ k. open_days p (day + 1) k ≡ 0) (sym none_after) (no_days p (day + 1)) in
    ground (arith, some_days, nothing)
last_closed p day span n some_days (inr after) = inr (subst (λ d. p d ≡ true) (omega arith) after)

pub walk-Within : (p : ℕ → Bool) (k n day : ℕ) → n ≤ open_days p day k → Within p day k n
unfolding open_days walk
walk-Within p k zero day h = record {
  span = 0;
  bounded = omega arith;
  counted = refl;
  last = inl refl;
  result = λ more. ap some (omega arith);
}
walk-Within p zero (suc n) day h = ground (arith, h)
walk-Within p (suc k) (suc n) day h = elim (Bool-cases (p (day + 1))) [
  | inl o ↦
      let w = walk-Within p k n (day + 1) (ground (arith, h, o)) in
      record {
        span = suc w.span;
        bounded = omega (arith, w.bounded);
        counted = rw o (omega (arith, w.counted));
        last = last_open p day w.span o w.last;
        result = λ more.
            fuel_suc p k more day (suc n) ∙ rw (o, walk) (w.result more ∙ ap some (omega arith));
      }
  | inr o ↦
      let w = walk-Within p k (suc n) (day + 1) (ground (arith, h, o)) in
      record {
        span = suc w.span;
        bounded = omega (arith, w.bounded);
        counted = rw o (omega (arith, w.counted));
        last = last_closed p day w.span n w.counted w.last;
        result = λ more.
            fuel_suc p k more day (suc n) ∙ rw (o, walk) (w.result more ∙ ap some (omega arith));
      }
]
