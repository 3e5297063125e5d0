-- ===== src/Common/Lists.antt =====
-- Lists measured by native numbers, and predicates on lists.
use Prim.Native.Nat.{ℕ, zero, suc, ◌+◌, ◌-◌, min}
use mathlib.Core.Path.{◌≡◌, refl, sym, subst, ap, ◌∙◌}
use mathlib.Core.List.{List, [], ◌∷◌, ◌++◌, map}
use mathlib.Core.Logic.{◌⊎◌, inl, inr}
use mathlib.Core.Bool.{Bool, true, false, ◌||◌}
use printer_nanny.Common.Tests.{if◌then◌else◌, Bool-cases}
use native.Mathlib.Omega.{arith}

module _ {ℓ} {A : Type ℓ} where
  abbrev pub length : List A → ℕ
  length [] = 0
  length (x ∷ xs) = suc (length xs)

  abbrev pub take : ℕ → List A → List A
  take zero xs = []
  take (suc n) [] = []
  take (suc n) (x ∷ xs) = x ∷ take n xs

  abbrev pub drop : ℕ → List A → List A
  drop zero xs = xs
  drop (suc n) [] = []
  drop (suc n) (x ∷ xs) = drop n xs

  pub length-append : (xs ys : List A) → length (xs ++ ys) ≡ length xs + length ys
  length-append [] ys = omega arith
  length-append (x ∷ xs) ys = omega (arith, length-append xs ys)

  pub length-take : (n : ℕ) (xs : List A) → length (take n xs) ≡ min n (length xs)
  length-take zero xs = omega arith
  length-take (suc n) [] = omega arith
  length-take (suc n) (x ∷ xs) = omega (arith, length-take n xs)

  pub length-drop : (n : ℕ) (xs : List A) → length (drop n xs) ≡ length xs - n
  length-drop zero xs = omega arith
  length-drop (suc n) [] = omega arith
  length-drop (suc n) (x ∷ xs) = omega (arith, length-drop n xs)

  pub take-append-drop : (n : ℕ) (xs : List A) → take n xs ++ drop n xs ≡ xs
  take-append-drop zero xs = refl
  take-append-drop (suc n) [] = refl
  take-append-drop (suc n) (x ∷ xs) = rw (take-append-drop n xs)

-- Every element satisfies `P`.
abbrev pub All {ℓ κ} : {A : Type ℓ} → (A → Type κ) → List A → Type κ
All P [] = Unit
All P (x ∷ xs) = P x × All P xs

pub everything-All {ℓ κ} : {A : Type ℓ} (P : A → Type κ) (xs : List A) → ((x : A) → P x) → All P xs
everything-All P [] f = tt
everything-All P (x ∷ xs) f = (f x, everything-All P xs f)

-- Some element satisfies `P`.
abbrev pub Any {ℓ} : {A : Type ℓ} → (A → Type 0) → List A → Type 0
Any P [] = ⊥
Any P (x ∷ xs) = P x ⊎ Any P xs

-- `In x xs`: `x` stands in `xs`.
pub data In {ℓ} {A : Type ℓ} (x : A) : List A → Type ℓ where
  here : {xs : List A} → In x (x ∷ xs)
  there : {y : A} {xs : List A} → In x xs → In x (y ∷ xs)

pub All-In {ℓ κ} : {A : Type ℓ} (P : A → Type κ) {x : A} {xs : List A} → In x xs → All P xs → P x
All-In P here h = h.0
All-In P (there m) h = All-In P m h.1

pub All-map {ℓ κ} :
    {A : Type ℓ} (P Q : A → Type κ) (xs : List A) → ((x : A) → P x → Q x) → All P xs → All Q xs
All-map P Q [] f h = tt
All-map P Q (x ∷ xs) f h = (f x h.0, All-map P Q xs f h.1)

-- Queries: the elements that a test accepts, in their order.
module _ {ℓ} {A : Type ℓ} where
  abbrev pub select : (A → Bool) → List A → List A
  select p [] = []
  select p (x ∷ xs) = let rest = select p xs in if p x then x ∷ rest else rest

  pub select-none : (p : A → Bool) (xs : List A) → All (λ x. p x ≡ false) xs → select p xs ≡ []
  select-none p [] h = refl
  select-none p (x ∷ xs) h = rw (h.0, select-none p xs h.1) refl

  selected : (p : A → Bool) (x : A) (xs : List A) → p x ≡ true → select p (x ∷ xs) ≡ x ∷ select p xs
  selected p x xs h = rw h refl

  unselected : (p : A → Bool) (x : A) (xs : List A) → p x ≡ false → select p (x ∷ xs) ≡ select p xs
  unselected p x xs h = rw h refl

  pub select-append :
      (p : A → Bool) (xs ys : List A) → select p (xs ++ ys) ≡ select p xs ++ select p ys
  select-append p [] ys = refl
  select-append p (x ∷ xs) ys =
      let ih = select-append p xs ys in
      elim (Bool-cases (p x)) [ inl t ↦ rw t (ap (λ l. x ∷ l) ih) | inr f ↦ rw f ih ]

  -- A list in which no element of the early test stands behind one of the late test.
  abbrev pub IsDivided : (A → Bool) → (A → Bool) → List A → Type ℓ
  IsDivided early late [] = Unit
  IsDivided early late (x ∷ xs) =
      ((late x ≡ false) ⊎ ((early x ≡ false) × All (λ y. early y ≡ false) xs))
      × IsDivided early late xs

  pub select-divided :
      (whole early late : A → Bool) (xs : List A)
      → ((x : A) → whole x ≡ (early x || late x))
      → IsDivided early late xs
      → select whole xs ≡ select early xs ++ select late xs
  select-divided whole early late [] same divided = refl
  select-divided whole early late (x ∷ xs) same (inl n, rest) =
      let ih = select-divided whole early late xs same rest in
      elim (Bool-cases (early x)) [
        | inl y ↦ rw (same x, y, n, ih) refl
        | inr m ↦ rw (same x, m, n, ih) refl
      ]
  select-divided whole early late (x ∷ xs) same (inr (n, after), rest) =
      let ih = select-divided whole early late xs same rest in
      let nothing = select-none early xs after in
      elim (Bool-cases (late x)) [
        | inl y ↦ rw (same x, n, y, ih, nothing) refl
        | inr m ↦ rw (same x, n, m, ih, nothing) refl
      ]

pub All-append {ℓ κ} :
    {A : Type ℓ} (P : A → Type κ) (xs ys : List A) → All P xs → All P ys → All P (xs ++ ys)
All-append P [] ys h k = k
All-append P (x ∷ xs) ys h k = (h.0, All-append P xs ys h.1 k)

-- What a query finds has passed the test and stands in the list.
pub select-Any {ℓ} :
    {A : Type ℓ} (Q : A → A → Type 0) (p : A → Bool) (xs : List A)
    → ((x : A) → p x ≡ true → Q x x)
    → All (λ x. Any (λ y. Q y x) xs) (select p xs)
select-Any Q p [] h = tt
select-Any Q p (x ∷ xs) h =
    let later =
      All-map (λ z. Any (λ y. Q y z) xs) (λ z. Any (λ y. Q y z) (x ∷ xs)) (select p xs)
        (λ z a. inr a) (select-Any Q p xs h) in
    elim (Bool-cases (p x)) [
      | inl y ↦
          subst (All (λ z. Any (λ y. Q y z) (x ∷ xs))) (sym (selected p x xs y))
            (inl (h x y), later)
      | inr n ↦ subst (All (λ z. Any (λ y. Q y z) (x ∷ xs))) (sym (unselected p x xs n)) later
    ]

pub In-cons {ℓ} : {A : Type ℓ} {x y : A} {xs : List A} → In x (y ∷ xs) → (x ≡ y) ⊎ In x xs
In-cons here = inl refl
In-cons (there m) = inr m

pub In-append {ℓ} : {A : Type ℓ} (x : A) (xs ys : List A) → In x (xs ++ ys) → In x xs ⊎ In x ys
In-append x [] ys m = inr m
In-append x (y ∷ xs) ys m = elim (In-cons m) [
  | inl e ↦ inl (subst (λ z. In x (z ∷ xs)) e here)
  | inr n ↦ elim (In-append x xs ys n) [ inl a ↦ inl (there a) | inr b ↦ inr b ]
]

pub Any-In {ℓ} : {A : Type ℓ} (P : A → Type 0) (xs : List A) → Any P xs → (x : A) × In x xs × P x
Any-In P [] a = absurd a
Any-In P (x ∷ xs) (inl p) = (x, here, p)
Any-In P (x ∷ xs) (inr a) = let (y, m, p) = Any-In P xs a in (y, there m, p)

pub In-left {ℓ} : {A : Type ℓ} {x : A} {xs : List A} (ys : List A) → In x xs → In x (xs ++ ys)
In-left ys here = here
In-left ys (there m) = there (In-left ys m)

pub In-All {ℓ κ} :
    {A : Type ℓ} (P : A → Type κ) (xs : List A) → ((x : A) → In x xs → P x) → All P xs
In-All P [] f = tt
In-All P (x ∷ xs) f = (f x here, In-All P xs (λ y m. f y (there m)))

pub All-at {ℓ κ} : {A : Type ℓ} (P : A → Type κ) {x : A} {xs : List A} → All P xs → In x xs → P x
All-at P h here = h.0
All-at P h (there m) = All-at P h.1 m

-- Queries find what they test, among what is there.
pub In-select {ℓ} :
    {A : Type ℓ} (p : A → Bool) (x : A) (xs : List A) → In x (select p xs) → In x xs × (p x ≡ true)
In-select p x [] m = elim m [ ]
In-select p x (y ∷ xs) m =
    let ih = In-select p x xs in
    elim (Bool-cases (p y)) [
      | inl hit ↦ elim (In-cons (subst (λ l. In x l) (rw hit refl) m)) [
        | inl is_y ↦ (subst (λ z. In x (z ∷ xs)) is_y here, ap p is_y ∙ hit)
        | inr later ↦ let (found, e) = ih later in (there found, e)
      ]
      | inr miss ↦ let (found, e) = ih (subst (λ l. In x l) (rw miss refl) m) in (there found, e)
    ]

pub In-map {ℓ κ} :
    {A : Type ℓ} {B : Type κ} (f : A → B) (y : B) (xs : List A)
    → In y (map f xs)
    → (x : A) × In x xs × (y ≡ f x)
In-map f y [] m = elim m [ ]
In-map f y (x ∷ xs) m = elim (In-cons m) [
  | inl e ↦ (x, here, e)
  | inr later ↦ let (z, n, e) = In-map f y xs later in (z, there n, e)
]

-- `xs` takes its elements from `ys`.
abbrev pub IsFrom {ℓ} : {A : Type ℓ} → List A → List A → Type ℓ
IsFrom {A = A} xs ys = (x : A) → In x xs → In x ys

pub take-IsFrom {ℓ} : {A : Type ℓ} (n : ℕ) (xs : List A) → IsFrom (take n xs) xs
take-IsFrom zero xs x m = elim m [ ]
take-IsFrom (suc n) [] x m = elim m [ ]
take-IsFrom (suc n) (y ∷ xs) x here = here
take-IsFrom (suc n) (y ∷ xs) x (there m) = there (take-IsFrom n xs x m)

pub selected-In {ℓ} :
    {A : Type ℓ} (p : A → Bool) (x : A) (xs : List A) → In x xs → p x ≡ true → In x (select p xs)
selected-In p x [] m h = elim m [ ]
selected-In p x (y ∷ xs) here h = rw h here
selected-In p x (y ∷ xs) (there m) h =
    let later = selected-In p x xs m h in
    elim (Bool-cases (p y)) [ inl t ↦ rw t (there later) | inr f ↦ rw f later ]

pub mapped-In {ℓ κ} :
    {A : Type ℓ} {B : Type κ} (f : A → B) (x : A) (xs : List A) → In x xs → In (f x) (map f xs)
mapped-In f x [] m = elim m [ ]
mapped-In f x (y ∷ xs) here = here
mapped-In f x (y ∷ xs) (there m) = there (mapped-In f x xs m)

-- One step of an insertion: `o` stands before `y`, or further on.
module _ {ℓ} {A : Type ℓ} (o y x : A) (xs rest : List A) where
  pub In-inserted :
      (first : Bool)
      → (In x (o ∷ xs) → In x rest)
      → In x (o ∷ y ∷ xs)
      → In x (if first then o ∷ y ∷ xs else (y ∷ rest))
  In-inserted true f m = m
  In-inserted false f m = elim (In-cons m) [
    | inl is_o ↦ there (f (subst (λ z. In x (z ∷ xs)) is_o here))
    | inr n ↦ elim (In-cons n) [
      | inl is_y ↦ subst (λ z. In x (z ∷ rest)) is_y here
      | inr deep ↦ there (f (there deep))
    ]
  ]

  pub inserted-In :
      (first : Bool)
      → (In x rest → In x (o ∷ xs))
      → In x (if first then o ∷ y ∷ xs else (y ∷ rest))
      → In x (o ∷ y ∷ xs)
  inserted-In true f m = m
  inserted-In false f m = elim (In-cons m) [
    | inl is_y ↦ subst (λ z. In x (o ∷ z ∷ xs)) is_y (there here)
    | inr later ↦ elim (In-cons (f later)) [
      | inl is_o ↦ subst (λ z. In x (z ∷ y ∷ xs)) is_o here
      | inr deep ↦ there (there deep)
    ]
  ]
