-- ===== src/Throttle/Instants.antt =====
-- The instants of failures in order, and how many of them a window holds.
use printer_nanny.Common.{
  ℕ, zero, suc, ◌+◌, ◌≤◌, ◌<◌, ◌≡◌, refl, ap, ◌∙◌, String, some, List, [], ◌∷◌, map, length, drop,
  select, Bool-cases, inl, inr, leb, if◌then◌else◌, arith, leb→le,
}
use printer_nanny.Throttle.{Scope, LoginAttempt, is_failure, count_of, insert_ts, sort_ts, first_of}

-- How many instants are not before `since`.
abbrev pub count_from : ℕ → List ℕ → ℕ
count_from since [] = 0
count_from since (t ∷ ts) = let rest = count_from since ts in if leb since t then suc rest else rest

count_from-insert :
    (since t : ℕ) (ts : List ℕ) → count_from since (insert_ts t ts) ≡ count_from since (t ∷ ts)
unfolding insert_ts
count_from-insert since t [] = refl
count_from-insert since t (u ∷ ts) = ground (arith, count_from-insert since t ts)

pub count_from-sort :
    (since : ℕ) (ts : List ℕ) → count_from since (sort_ts ts) ≡ count_from since ts
unfolding sort_ts
count_from-sort since [] = refl
count_from-sort since (t ∷ ts) =
    count_from-insert since t (sort_ts ts) ∙ rw (count_from-sort since ts) refl

length-insert : (t : ℕ) (ts : List ℕ) → length (insert_ts t ts) ≡ suc (length ts)
unfolding insert_ts
length-insert t [] = refl
length-insert t (u ∷ ts) = ground (arith, length-insert t ts)

pub length-sort : (ts : List ℕ) → length (sort_ts ts) ≡ length ts
unfolding sort_ts
length-sort [] = refl
length-sort (t ∷ ts) = length-insert t (sort_ts ts) ∙ ap suc (length-sort ts)

abbrev pub Ascends : ℕ → List ℕ → Type 0
Ascends c [] = Unit
Ascends c (t ∷ ts) = (c ≤ t) × Ascends t ts

insert_ts-Ascends : (c t : ℕ) (ts : List ℕ) → c ≤ t → Ascends c ts → Ascends c (insert_ts t ts)
unfolding insert_ts
insert_ts-Ascends c t [] low up = (low, tt)
insert_ts-Ascends c t (u ∷ ts) low up = elim (Bool-cases (leb t u)) [
  | inl y ↦ rw (insert_ts, y) (low, (leb→le t u y, up.1))
  | inr n ↦ rw (insert_ts, n) (up.0, insert_ts-Ascends u t ts (ground arith) up.1)
]

pub sort_ts-Ascends : (ts : List ℕ) → Ascends 0 (sort_ts ts)
unfolding sort_ts
sort_ts-Ascends [] = tt
sort_ts-Ascends (t ∷ ts) = insert_ts-Ascends 0 t (sort_ts ts) (omega arith) (sort_ts-Ascends ts)

count_from-le : (since : ℕ) (ts : List ℕ) → count_from since ts ≤ length ts
count_from-le since [] = omega arith
count_from-le since (t ∷ ts) = ground (arith, count_from-le since ts)

count_from-all :
    (since c : ℕ) (ts : List ℕ) → since ≤ c → Ascends c ts → count_from since ts ≡ length ts
count_from-all since c [] h up = refl
count_from-all since c (t ∷ ts) h up =
    ground (arith, count_from-all since t ts (omega (arith, up.0)) up.1)

place-le : (c o t : ℕ) (ts : List ℕ) → Ascends c ts → first_of (drop o ts) ≡ some t → c ≤ t
place-le c zero t [] up h = ground arith
place-le c (suc o) t [] up h = ground arith
place-le c zero t (u ∷ ts) up h = ground arith
place-le c (suc o) t (u ∷ ts) up h = omega (arith, up.0, place-le u o t ts up.1 h)

pub place_within : (o : ℕ) (ts : List ℕ) → o < length ts → (t : ℕ) × (first_of (drop o ts) ≡ some t)
place_within o [] h = absurd (omega arith)
place_within zero (u ∷ ts) h = (u, refl)
place_within (suc o) (u ∷ ts) h = place_within o ts (omega arith)

-- The instant at a place of an ascending list: a window that starts after it leaves out that many
-- and itself, and one that does not leaves out no more than that many.
pub at_place :
    (c o t since : ℕ) (ts : List ℕ)
    → Ascends c ts
    → first_of (drop o ts) ≡ some t
    → (t < since → count_from since ts + (o + 1) ≤ length ts)
      × (since ≤ t → length ts ≤ count_from since ts + o)
at_place c zero t since [] up h = (λ l. ground arith, λ l. ground arith)
at_place c (suc o) t since [] up h = (λ l. ground arith, λ l. ground arith)
at_place c zero t since (u ∷ ts) up h = (
  λ l. ground (arith, count_from-le since ts),
  λ l.
      let same : u ≡ t = ground arith in
      ground (arith, count_from-all since u ts (omega arith) up.1),
)
at_place c (suc o) t since (u ∷ ts) up h = (
  λ l. let above = place-le u o t ts up.1 h in ground (arith, (at_place u o t since ts up.1 h).0 l),
  λ l. ground (arith, (at_place u o t since ts up.1 h).1 l),
)

pub count_of-later :
    (rows : List LoginAttempt) (s : Scope) (k : String) (since later : ℕ)
    → since ≤ later
    → count_of rows s k later
      ≡ count_from later (map (λ a. a.ts) (select (is_failure s k since) rows))
unfolding count_of
count_of-later [] s k since later h = refl
count_of-later (a ∷ rows) s k since later h = ground (arith, count_of-later rows s k since later h)

pub length-map : (rows : List LoginAttempt) → length (map (λ a. a.ts) rows) ≡ length rows
length-map [] = refl
length-map (a ∷ rows) = ap suc (length-map rows)
