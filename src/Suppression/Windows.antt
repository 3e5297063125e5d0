-- ===== src/Suppression/Windows.antt =====
-- When a window mutes a message, said by its fields.
use printer_nanny.Common.{
  ℕ, ◌/◌, ◌%◌, ◌-◌, ◌≤◌, ◌<◌, ◌≡◌, ◌+◌, ◌⊎◌, inl, inr, refl, true, Option, none, some, List, [],
  ◌∷◌, In, here, there, Bool-cases, arith, leb, ltb, if◌then◌else◌, ◌==◌,
}
use mathlib.Core.Path.{subst}
use printer_nanny.Suppression.{
  EventSeverity, severity_rank, SuppressionKind, AlertScope, Mask, every_day, days, unreadable,
  Window, Printer, Zone, local_end_to_utc, is_day, mask_allows, weekday, weekday_allowed, hours_end,
  scope_covers,
}
use printer_nanny.Suppression.Decide.{rank_of}

-- The scope is global, or the printer is known and is, or belongs to, what the scope names.
abbrev pub Covers : AlertScope → Option ℕ → Option Printer → Type 0
Covers scope scope_id p =
    (scope ≡ AlertScope.global)
    ⊎ ((k : ℕ) × (q : Printer) × (scope_id ≡ some k)
        × (p ≡ some q)
        × (((scope ≡ AlertScope.client) × (q.client_id ≡ some k))
            ⊎ (((scope ≡ AlertScope.site) × (q.site_id ≡ some k))
                ⊎ ((scope ≡ AlertScope.printer) × (q.id ≡ k)))))

-- The day is one of the window's weekdays; no list, an empty or an unreadable one allows all days.
abbrev pub OnDay : Mask → ℕ → Type 0
OnDay mask day =
    (mask ≡ every_day)
    ⊎ ((mask ≡ unreadable) ⊎ ((ds : List ℕ) × (mask ≡ days ds) × ((ds ≡ []) ⊎ In (weekday day) ds)))

-- Between two minutes of the day, the first included; hours that do not end after they start run
-- into the next day, and belong to the weekday on which they start.
abbrev pub InHours : Mask → ℕ → ℕ → ℕ → ℕ → Type 0
InHours mask start end today minute =
    ((start < end) × (start ≤ minute) × (minute < end) × OnDay mask today)
    ⊎ (((end ≤ start) × (start ≤ minute) × OnDay mask today)
        ⊎ ((end ≤ start) × (minute < end) × OnDay mask (today - 1)))

abbrev pub IsActive : Window → ℕ → Zone → Type 0
IsActive w now z =
    ((w.kind ≡ SuppressionKind.maintenance)
      × ((s : ℕ) × (e : ℕ) × (w.starts_at ≡ some s) × (w.ends_at ≡ some e) × (s ≤ now) × (now < e)))
    ⊎ ((w.kind ≡ SuppressionKind.quiet_hours)
        × ((s : ℕ) × (e : ℕ) × (w.start_minute ≡ some s)
            × (w.end_minute ≡ some e)
            × InHours w.weekdays (s % 1440) (if leb e 1440 then e else e % 1440)
                (z.local now / 86400) ((z.local now % 86400) / 60)))

-- The window is enabled, covers the printer, is active now, and is not one that lets the severity
-- through.
abbrev pub IsMuting : Option Printer → Option EventSeverity → ℕ → Zone → Window → Type 0
IsMuting p severity now z w =
    (w.enabled ≡ true)
    × Covers w.scope w.scope_id p
    × IsActive w now z
    × (¬ (
        (w.allow_breakthrough ≡ true)
        × (severity_rank w.min_severity_breakthrough ≤ rank_of severity)))

pub covers :
    (scope : AlertScope) (scope_id : Option ℕ) (p : Option Printer)
    → scope_covers scope scope_id p ≡ true
    → Covers scope scope_id p
covers AlertScope.global scope_id p h = inl refl
covers AlertScope.client none p h = ground arith
covers AlertScope.client (some k) none h = ground arith
covers AlertScope.client (some k) (some q) h = inr (k, q, refl, refl, inl (refl, ground arith))
covers AlertScope.site none p h = ground arith
covers AlertScope.site (some k) none h = ground arith
covers AlertScope.site (some k) (some q) h = inr (k, q, refl, refl, inr (inl (refl, ground arith)))
covers AlertScope.printer none p h = ground arith
covers AlertScope.printer (some k) none h = ground arith
covers AlertScope.printer (some k) (some q) h =
    inr (k, q, refl, refl, inr (inr (refl, ground arith)))

pub covered :
    (scope : AlertScope) (scope_id : Option ℕ) (p : Option Printer)
    → Covers scope scope_id p
    → scope_covers scope scope_id p ≡ true
covered scope scope_id p (inl e) = rw e refl
covered scope scope_id p (inr (k, q, ek, eq, inl (e, m))) = rw (e, ek, eq) (ground arith)
covered scope scope_id p (inr (k, q, ek, eq, inr (inl (e, m)))) = rw (e, ek, eq) (ground arith)
covered scope scope_id p (inr (k, q, ek, eq, inr (inr (e, m)))) = rw (e, ek, eq) (ground arith)

is_day-In : (d : ℕ) (ds : List ℕ) → is_day d ds ≡ true → In d ds
is_day-In d [] h = ground arith
is_day-In d (x ∷ ds) h = elim (Bool-cases (x == d)) [
  | inl y ↦ let same : x ≡ d = ground arith in subst (λ i. In i (x ∷ ds)) same here
  | inr n ↦ there (is_day-In d ds (ground arith))
]

In-is_day : (d : ℕ) (ds : List ℕ) → In d ds → is_day d ds ≡ true
In-is_day d [] i = elim i [ ]
In-is_day d (x ∷ ds) here = ground arith
In-is_day d (x ∷ ds) (there i) = let rest = In-is_day d ds i in ground arith

mask_allows-OnDay : (mask : Mask) (day : ℕ) → mask_allows mask day ≡ true → OnDay mask day
mask_allows-OnDay every_day day h = inl refl
mask_allows-OnDay unreadable day h = inr (inl refl)
mask_allows-OnDay (days []) day h = inr (inr ([], refl, inl refl))
mask_allows-OnDay (days (x ∷ xs)) day h =
    inr (inr (x ∷ xs, refl, inr (is_day-In (weekday day) (x ∷ xs) h)))

listed_allows :
    (ds : List ℕ) (day : ℕ) → (ds ≡ []) ⊎ In (weekday day) ds → mask_allows (days ds) day ≡ true
listed_allows [] day h = refl
listed_allows (x ∷ xs) day (inl e) = ground arith
listed_allows (x ∷ xs) day (inr i) = In-is_day (weekday day) (x ∷ xs) i

OnDay-mask_allows : (mask : Mask) (day : ℕ) → OnDay mask day → mask_allows mask day ≡ true
OnDay-mask_allows mask day (inl e) = rw e refl
OnDay-mask_allows mask day (inr (inl e)) = rw e refl
OnDay-mask_allows mask day (inr (inr (ds, e, i))) = rw e (listed_allows ds day i)

module _ (w : Window) (start end now : ℕ) (z : Zone) where
  pub hours_end-InHours :
      (e : ℕ)
      → hours_end w start end now z ≡ some e
      → InHours w.weekdays start end (z.local now / 86400) ((z.local now % 86400) / 60)
  unfolding hours_end weekday_allowed
  hours_end-InHours e h =
      let today = mask_allows-OnDay w.weekdays (z.local now / 86400) in
      let before = mask_allows-OnDay w.weekdays (z.local now / 86400 - 1) in
      elim (Bool-cases (ltb start end)) [
        | inl y ↦ inl (ground arith, ground arith, ground arith, today (ground arith))
        | inr n ↦ elim (Bool-cases (leb start ((z.local now % 86400) / 60))) [
          | inl y ↦ inr (inl (ground arith, ground arith, today (ground arith)))
          | inr m ↦ inr (inr (ground arith, ground arith, before (ground arith)))
        ]
      ]

  pub InHours-hours_end :
      InHours w.weekdays start end (z.local now / 86400) ((z.local now % 86400) / 60)
      → (e : ℕ) × (hours_end w start end now z ≡ some e)
  unfolding hours_end weekday_allowed
  InHours-hours_end (inl (a, b, c, d)) =
      let on = OnDay-mask_allows w.weekdays (z.local now / 86400) d in
      (local_end_to_utc (z.local now / 86400) end z, ground arith)
  InHours-hours_end (inr (inl (a, b, d))) =
      let on = OnDay-mask_allows w.weekdays (z.local now / 86400) d in
      (local_end_to_utc (z.local now / 86400 + 1) end z, ground arith)
  InHours-hours_end (inr (inr (a, b, d))) =
      let on = OnDay-mask_allows w.weekdays (z.local now / 86400 - 1) d in
      elim (Bool-cases (leb start ((z.local now % 86400) / 60))) [
        | inl y ↦ (local_end_to_utc (z.local now / 86400) end z, ground arith)
        | inr n ↦ (local_end_to_utc (z.local now / 86400) end z, ground arith)
      ]
