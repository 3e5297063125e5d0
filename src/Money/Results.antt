-- ===== src/Money/Results.antt =====
-- central/money.py: the exceptions of its functions, followed through their calls.
use printer_nanny.Common.{◌≡◌, refl, sym, ap, Bool, true, false, if◌then◌else◌}
use printer_nanny.Money.{Exception, Result, raise, ok, ◌>>=◌}

ok_or {ℓ} : {A : Type ℓ} → A → Result A → A
ok_or d (raise e) = d
ok_or d (ok a) = a

pub ok-injective {ℓ} : {A : Type ℓ} {a b : A} → ok a ≡ ok b → a ≡ b
unfolding ok_or
ok-injective {a = a} h = ap (ok_or a) h

pub raise-ne-ok {ℓ} : {A : Type ℓ} {e : Exception} {a : A} → ¬ (raise e ≡ ok a)
raise-ne-ok h = cc

-- A guard that let a value through did not fire.
pub checked {ℓ} :
    {A : Type ℓ} (b : Bool) (e : Exception) {a a' : A}
    → (if b then raise e else ok a) ≡ ok a'
    → (a' ≡ a) × (b ≡ false)
checked true e h = absurd (raise-ne-ok h)
checked false e h = (sym (ok-injective h), refl)

pub guarded {ℓ} :
    {A : Type ℓ} (b : Bool) (e : Exception) {r : Result A} {a : A}
    → (if b then raise e else r) ≡ ok a
    → (b ≡ false) × (r ≡ ok a)
guarded true e h = absurd (raise-ne-ok h)
guarded false e h = (refl, h)

pub >>=-ok {ℓ κ} :
    {A : Type ℓ} {B : Type κ} (r : Result A) {f : A → Result B} {b : B}
    → (r >>= f) ≡ ok b
    → (a : A) × (r ≡ ok a) × (f a ≡ ok b)
>>=-ok (raise e) h = absurd (raise-ne-ok h)
>>=-ok (ok a) h = (a, refl, h)
