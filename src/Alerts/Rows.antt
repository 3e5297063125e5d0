-- ===== src/Alerts/Rows.antt =====
-- central/worker/jobs.py: the table of alerts, as the passes look rows up and write them.
use printer_nanny.Common.{
  ℕ, suc, ◌+◌, ◌≡◌, ◌≤◌, refl, sym, ◌∙◌, ap, arith, Bool, true, false, ◌&&◌, none, some, List, [],
  ◌∷◌, ◌++◌, ◌==◌, if◌then◌else◌, select, In, here, there, Bool-cases, and-true, ==-refl, eq_iff,
  eq_refl, if-cases, some-injective, none-ne-some, In-cons, inl, inr,
}
use mathlib.Core.Path.{subst}
use printer_nanny.Alerts.{
  DedupeKey, agent_key, offline_key, rate_key, supply_key, error_key, other_key, key_eq, Alert,
  is_live, find_open_alert, update_alert,
}

pub key_eq_refl : (k : DedupeKey) → key_eq k k ≡ true
unfolding key_eq
key_eq_refl (agent_key r a) = rw (==-refl r, ==-refl a) refl
key_eq_refl (offline_key r p) = rw (==-refl r, ==-refl p) refl
key_eq_refl (rate_key r p) = rw (==-refl r, ==-refl p) refl
key_eq_refl (supply_key r p s) = rw (==-refl r, ==-refl p, ==-refl s) refl
key_eq_refl (error_key r p c) = rw (==-refl r, ==-refl p, eq_refl c) refl
key_eq_refl (other_key t) = eq_refl t

pub key_eq-eq : (k l : DedupeKey) → key_eq k l ≡ true → k ≡ l
unfolding key_eq
key_eq-eq (agent_key r a) l h = ground arith
key_eq-eq (offline_key r a) l h = ground arith
key_eq-eq (rate_key r a) l h = ground arith
key_eq-eq (supply_key r p s) l h = ground arith
key_eq-eq (error_key r p c) (error_key r' p' c') h = ground (arith, eq_iff c c')
key_eq-eq (error_key r p c) l h = ground arith
key_eq-eq (other_key c) (other_key c') h = ground (arith, eq_iff c c')
key_eq-eq (other_key c) l h = ground arith

-- How many rows have an id, and how many live ones a key.
abbrev pub count_id : ℕ → List Alert → ℕ
count_id i [] = 0
count_id i (a ∷ alerts) = (if a.id == i then 1 else 0) + count_id i alerts

abbrev pub count_live : DedupeKey → List Alert → ℕ
count_live k [] = 0
count_live k (a ∷ alerts) =
    (if key_eq a.dedupe_key k && is_live a then 1 else 0) + count_live k alerts

pub find_open_alert-none :
    (k : DedupeKey) (alerts : List Alert)
    → find_open_alert k alerts ≡ none
    → count_live k alerts ≡ 0
unfolding find_open_alert
find_open_alert-none k [] h = refl
find_open_alert-none k (a ∷ alerts) h = ground (arith, find_open_alert-none k alerts)

pub find_open_alert-some :
    (k : DedupeKey) (alerts : List Alert) (a : Alert)
    → find_open_alert k alerts ≡ some a
    → In a alerts × (key_eq a.dedupe_key k ≡ true) × (is_live a ≡ true) × (1 ≤ count_live k alerts)
unfolding find_open_alert
find_open_alert-some k [] a h = elim (none-ne-some h) [ ]
find_open_alert-some k (x ∷ alerts) a h = elim (if-cases (key_eq x.dedupe_key k && is_live x) h) [
  | inl (fits, is_it) ↦
      let (same, live) = and-true (key_eq x.dedupe_key k) (is_live x) fits in
      subst
        (λ z.
          In z (x ∷ alerts)
          × (key_eq z.dedupe_key k ≡ true)
          × (is_live z ≡ true)
          × (1 ≤ count_live k (x ∷ alerts)))
        (some-injective is_it) (here, same, live, ground (arith, fits))
  | inr (misses, later) ↦
      let (m, same, live, counted) = find_open_alert-some k alerts a later in
      (there m, same, live, ground (arith, counted))
]

pub count_id-In : (a : Alert) (alerts : List Alert) → In a alerts → 1 ≤ count_id a.id alerts
count_id-In a [] m = elim m [ ]
count_id-In a (x ∷ alerts) here = ground (arith, ==-refl a.id)
count_id-In a (x ∷ alerts) (there m) = ground (arith, count_id-In a alerts m)

pub count_id-select :
    (i : ℕ) (p : Alert → Bool) (alerts : List Alert)
    → count_id i (select p alerts) ≤ count_id i alerts
count_id-select i p [] = omega arith
count_id-select i p (a ∷ alerts) = ground (arith, count_id-select i p alerts)

pub count_id-append :
    (i : ℕ) (xs ys : List Alert) → count_id i (xs ++ ys) ≡ count_id i xs + count_id i ys
count_id-append i [] ys = omega arith
count_id-append i (x ∷ xs) ys = omega (arith, count_id-append i xs ys)

pub count_live-append :
    (k : DedupeKey) (xs ys : List Alert)
    → count_live k (xs ++ ys) ≡ count_live k xs + count_live k ys
count_live-append k [] ys = omega arith
count_live-append k (x ∷ xs) ys = omega (arith, count_live-append k xs ys)

-- A change that keeps the ids keeps the counts of ids.
pub count_id-update :
    (i id : ℕ) (f : Alert → Alert) (alerts : List Alert)
    → ((x : Alert) → (f x).id ≡ x.id)
    → count_id i (update_alert id f alerts) ≡ count_id i alerts
unfolding update_alert
count_id-update i id f [] same = refl
count_id-update i id f (a ∷ alerts) same =
    ground (arith, same a, count_id-update i id f alerts same)

-- A row with another id is still there.
pub In-update :
    (id : ℕ) (f : Alert → Alert) (a : Alert) (alerts : List Alert)
    → (a.id == id) ≡ false
    → In a alerts
    → In a (update_alert id f alerts)
unfolding update_alert
In-update id f a [] other m = elim m [ ]
In-update id f a (x ∷ alerts) other here = subst (In a) (sym (skipped other)) here
  where
    skipped : (a.id == id) ≡ false → update_alert id f (a ∷ alerts) ≡ a ∷ update_alert id f alerts
    skipped h = rw h refl
In-update id f a (x ∷ alerts) other (there m) =
    let later = In-update id f a alerts other m in
    elim (Bool-cases (x.id == id)) [ inl y ↦ rw y (there later) | inr n ↦ rw n (there later) ]

count_id-absent : (a : Alert) (alerts : List Alert) → count_id a.id alerts ≡ 0 → ¬ In a alerts
count_id-absent a alerts h m = omega (arith, count_id-In a alerts m)

-- Rows with distinct ids are the same where their ids are.
pub In-unique :
    (a x : Alert) (alerts : List Alert)
    → count_id a.id alerts ≤ 1
    → x.id ≡ a.id
    → In a alerts
    → In x alerts
    → x ≡ a
In-unique a x [] distinct same m n = elim m [ ]
In-unique a x (y ∷ alerts) distinct same m n = elim (In-cons m) [
  | inl is_y ↦ elim (In-cons n) [
    | inl too ↦ too ∙ sym is_y
    | inr later ↦ absurd (
        omega (
          arith,
          twice y a (ap (λ (z : Alert). z.id) (sym is_y)),
          ap (λ (i : ℕ). count_id i alerts) same,
          count_id-In x alerts later,
        ))
  ]
  | inr behind ↦ elim (In-cons n) [
    | inl is_y ↦ absurd (
        omega (
          arith,
          twice y a (sym (ap (λ (z : Alert). z.id) is_y) ∙ same),
          count_id-In a alerts behind,
        ))
    | inr later ↦ In-unique a x alerts (omega (arith, more y)) same behind later
  ]
]
  where
    twice : (y a : Alert) → y.id ≡ a.id → count_id a.id (y ∷ alerts) ≡ suc (count_id a.id alerts)
    twice y a e = ground (arith, e)

    more : (y : Alert) → count_id a.id alerts ≤ count_id a.id (y ∷ alerts)
    more y = omega arith

abbrev pub is_live_with : DedupeKey → Alert → Bool
is_live_with k a = key_eq a.dedupe_key k && is_live a

pub count_live-kept :
    (k : DedupeKey) (id : ℕ) (f : Alert → Alert) (alerts : List Alert)
    → ((x : Alert) → In x alerts → x.id ≡ id → is_live_with k (f x) ≡ is_live_with k x)
    → count_live k (update_alert id f alerts) ≡ count_live k alerts
unfolding update_alert
count_live-kept k id f [] same = refl
count_live-kept k id f (a ∷ alerts) same =
    let rest = count_live-kept k id f alerts (λ x m. same x (there m)) in
    elim (Bool-cases (a.id == id)) [
      | inl y ↦ rw (y, same a here (ground (arith, y)), rest) refl
      | inr n ↦ rw (n, rest) refl
    ]

pub count_live-grows :
    (k : DedupeKey) (id : ℕ) (f : Alert → Alert) (alerts : List Alert)
    → count_live k (update_alert id f alerts) ≤ count_live k alerts + count_id id alerts
unfolding update_alert
count_live-grows k id f [] = omega arith
count_live-grows k id f (a ∷ alerts) = ground (arith, count_live-grows k id f alerts)

pub count_live-falls :
    (k : DedupeKey) (id : ℕ) (f : Alert → Alert) (alerts : List Alert)
    → ((x : Alert) → is_live (f x) ≡ false)
    → count_live k (update_alert id f alerts) ≤ count_live k alerts
unfolding update_alert
count_live-falls k id f [] h = omega arith
count_live-falls k id f (a ∷ alerts) h = ground (arith, h a, count_live-falls k id f alerts h)
