-- ===== src/Retention/Merging.antt =====
-- A rollup that is merged with stragglers, and the rollup of all the rows.
use printer_nanny.Common.{
  ℕ, ◌+◌, ◌≤◌, ◌<◌, ◌≡◌, refl, sym, ap, ◌∙◌, min, max, true, false, Option, none, some, List, [],
  ◌∷◌, ◌++◌, length, length-append, ltb, lt→ltb, if◌then◌else◌, arith,
}
use printer_nanny.Retention.{
  RawRow, Span, Rollup, or_other, see_meter, see_row, see_rows, unknown, opened, aggregate, merge,
}

abbrev then_span : Span → Span → Span
then_span s t = record { start = or_other s.start t.start; end = or_other t.end s.end }

-- One part of a day's rows, then another.
abbrev followed : ℕ → Rollup → Rollup → Rollup
followed n f g = record {
  readings_count = n;
  first_ts = min f.first_ts g.first_ts;
  last_ts = max f.last_ts g.last_ts;
  page_count = then_span f.page_count g.page_count;
  mono_count = then_span f.mono_count g.mono_count;
  color_count = then_span f.color_count g.color_count;
  supply_snapshot = or_other g.supply_snapshot f.supply_snapshot;
}

or_assoc {ℓ} :
    {A : Type ℓ} (a b c : Option A) → or_other (or_other a b) c ≡ or_other a (or_other b c)
or_assoc none b c = refl
or_assoc (some x) b c = refl

earlier_min :
    (t a b : ℕ) → (if ltb t (min a b) then t else min a b) ≡ min a (if ltb t b then t else b)
earlier_min t a b = ground arith

later_max :
    (t a b : ℕ) → (if ltb (max a b) t then t else max a b) ≡ max a (if ltb b t then t else b)
later_max t a b = ground arith

see_meter-then :
    (s t : Span) (v : Option ℕ) → see_meter (then_span s t) v ≡ then_span s (see_meter t v)
see_meter-then s t v = rw (or_assoc s.start t.start v, or_assoc v t.end s.end) refl

see_row-followed :
    (n : ℕ) (f g : Rollup) (r : RawRow) → see_row (followed n f g) r ≡ followed n f (see_row g r)
unfolding see_row
see_row-followed n f g r = λ i. record {
  readings_count = n;
  first_ts = earlier_min r.ts f.first_ts g.first_ts i;
  last_ts = later_max r.ts f.last_ts g.last_ts i;
  page_count = see_meter-then f.page_count g.page_count r.page_count i;
  mono_count = see_meter-then f.mono_count g.mono_count r.mono_count i;
  color_count = see_meter-then f.color_count g.color_count r.color_count i;
  supply_snapshot = sym (or_assoc r.supply_snapshot g.supply_snapshot f.supply_snapshot) i;
}

see_rows-followed :
    (n : ℕ) (f g : Rollup) (rows : List RawRow)
    → see_rows (followed n f g) rows ≡ followed n f (see_rows g rows)
unfolding see_rows
see_rows-followed n f g [] = refl
see_rows-followed n f g (r ∷ rows) =
    ap (λ x. see_rows x rows) (see_row-followed n f g r) ∙ see_rows-followed n f (see_row g r) rows

first_seen : (t a : ℕ) → (if ltb t a then t else a) ≡ min a (if ltb t t then t else t)
first_seen t a = ground arith

last_seen : (t a : ℕ) → (if ltb a t then t else a) ≡ max a (if ltb t t then t else t)
last_seen t a = ground arith

or_none {ℓ} : {A : Type ℓ} (o : Option A) → or_other o none ≡ o
or_none none = refl
or_none (some x) = refl

see_meter-alone : (s : Span) (v : Option ℕ) → see_meter s v ≡ then_span s (see_meter unknown v)
see_meter-alone s v =
    λ i. record { start = or_other s.start v; end = or_other (sym (or_none v) i) s.end }

-- A row seen after others, and the rollup of that row alone after theirs.
see_row-alone :
    (n : ℕ) (f : Rollup) (r : RawRow)
    → see_row f r ≡ followed f.readings_count f (see_row (opened n r) r)
unfolding see_row
see_row-alone n f r = λ i. record {
  readings_count = f.readings_count;
  first_ts = first_seen r.ts f.first_ts i;
  last_ts = last_seen r.ts f.last_ts i;
  page_count = see_meter-alone f.page_count r.page_count i;
  mono_count = see_meter-alone f.mono_count r.mono_count i;
  color_count = see_meter-alone f.color_count r.color_count i;
  supply_snapshot = or_other (sym (or_none r.supply_snapshot) i) f.supply_snapshot;
}

-- The rollup of rows of which there is at least one.
abbrev pub total : RawRow → List RawRow → Rollup
total r rows = see_rows (opened (length (r ∷ rows)) r) (r ∷ rows)

see_rows-append :
    (f : Rollup) (xs ys : List RawRow) → see_rows f (xs ++ ys) ≡ see_rows (see_rows f xs) ys
unfolding see_rows
see_rows-append f [] ys = refl
see_rows-append f (x ∷ xs) ys = see_rows-append (see_row f x) xs ys

-- More rows, and the rollup of those rows by themselves.
see_rows-more :
    (f : Rollup) (n : ℕ) (r : RawRow) (rows : List RawRow)
    → see_rows f (r ∷ rows) ≡ followed f.readings_count f (see_rows (opened n r) (r ∷ rows))
unfolding see_rows
see_rows-more f n r rows =
    ap (λ x. see_rows x rows) (see_row-alone n f r)
    ∙ see_rows-followed f.readings_count f (see_row (opened n r) r) rows

pub see_rows-count :
    (f : Rollup) (rows : List RawRow) → (see_rows f rows).readings_count ≡ f.readings_count
unfolding see_rows see_row
see_rows-count f [] = refl
see_rows-count f (r ∷ rows) = see_rows-count (see_row f r) rows

-- The count is carried along.
recount : ℕ → Rollup → Rollup
recount n f = record f { readings_count = n }

see_rows-recount :
    (n : ℕ) (f : Rollup) (rows : List RawRow)
    → see_rows (recount n f) rows ≡ recount n (see_rows f rows)
unfolding see_rows see_row recount
see_rows-recount n f [] = refl
see_rows-recount n f (r ∷ rows) = see_rows-recount n (see_row f r) rows

-- All the rows, from the rollups of two parts.
total-append :
    (x y : RawRow) (xs ys : List RawRow)
    → total x (xs ++ (y ∷ ys))
      ≡ followed
          ((total x xs).readings_count + (total y ys).readings_count)
          (total x xs)
          (total y ys)
unfolding recount
total-append x y xs ys =
    let n = length (x ∷ (xs ++ (y ∷ ys))) in
    let counted : n ≡ (total x xs).readings_count + (total y ys).readings_count = omega (
      arith,
      length-append xs (y ∷ ys),
      see_rows-count (opened (length (x ∷ xs)) x) (x ∷ xs),
      see_rows-count (opened (length (y ∷ ys)) y) (y ∷ ys),
    ) in
    see_rows-append (opened n x) (x ∷ xs) (y ∷ ys)
    ∙ ap (λ f. see_rows f (y ∷ ys)) (see_rows-recount n (opened (length (x ∷ xs)) x) (x ∷ xs))
    ∙ see_rows-more (recount n (total x xs)) (length (y ∷ ys)) y ys
    ∙ ap (λ k. followed k (total x xs) (total y ys)) counted

merge-later :
    (a b : Rollup)
    → a.first_ts ≤ b.first_ts
    → a.last_ts < b.last_ts
    → merge a b ≡ followed (a.readings_count + b.readings_count) a b
unfolding merge
merge-later a b first last =
    let earlier : ltb b.first_ts a.first_ts ≡ false = ground arith in
    let later : ltb a.last_ts b.last_ts ≡ true = lt→ltb a.last_ts b.last_ts last in
    let low : min a.first_ts b.first_ts ≡ a.first_ts = omega arith in
    let high : max a.last_ts b.last_ts ≡ b.last_ts = omega arith in
    rw (earlier, later, low, high) refl

merge-earlier :
    (a b : Rollup)
    → a.first_ts < b.first_ts
    → a.last_ts ≤ b.last_ts
    → merge b a ≡ followed (a.readings_count + b.readings_count) a b
unfolding merge
merge-earlier a b first last =
    let earlier : ltb a.first_ts b.first_ts ≡ true = lt→ltb a.first_ts b.first_ts first in
    let later : ltb b.last_ts a.last_ts ≡ false = ground arith in
    let low : min a.first_ts b.first_ts ≡ a.first_ts = omega arith in
    let high : max a.last_ts b.last_ts ≡ b.last_ts = omega arith in
    let swapped : b.readings_count + a.readings_count ≡ a.readings_count + b.readings_count =
      omega arith in
    rw (earlier, later, low, high, swapped) refl

abbrev rollup_or : Rollup → Option Rollup → Rollup
rollup_or r none = r
rollup_or r (some a) = a

total_of :
    (x : RawRow) (xs : List RawRow) (a : Rollup) → aggregate (x ∷ xs) ≡ some a → total x xs ≡ a
unfolding aggregate
total_of x xs a h = ap (rollup_or a) h

-- Merging loses nothing of what a rollup says. Where a day's rows are two parts, of which each has
-- a row and one comes before the other: the part that comes later merged into the rollup of the
-- earlier one, where it ends after it, and the part that comes earlier merged into the rollup of
-- the later one, where it starts before it, each give the rollup of all the rows.
pub aggregate-merge :
    (x y : RawRow) (xs ys : List RawRow) (a b : Rollup)
    → aggregate (x ∷ xs) ≡ some a
    → aggregate (y ∷ ys) ≡ some b
    → a.first_ts ≤ b.first_ts
    → a.last_ts ≤ b.last_ts
    → let whole = aggregate ((x ∷ xs) ++ (y ∷ ys)) in
      (a.last_ts < b.last_ts → whole ≡ some (merge a b))
      × (a.first_ts < b.first_ts → whole ≡ some (merge b a))
unfolding aggregate
aggregate-merge x y xs ys a b ha hb first last =
    let parts : total x (xs ++ (y ∷ ys)) ≡ followed (a.readings_count + b.readings_count) a b =
      total-append x y xs ys ∙ (λ i.
        let u = total_of x xs a ha i in
        let v = total_of y ys b hb i in followed (u.readings_count + v.readings_count) u v) in
    (
      λ l. ap some (parts ∙ sym (merge-later a b first l)),
      λ l. ap some (parts ∙ sym (merge-earlier a b l last)),
    )
