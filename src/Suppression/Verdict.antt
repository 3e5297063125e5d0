-- ===== src/Suppression/Verdict.antt =====
-- What `evaluate` decides.
use printer_nanny.Common.{
  ℕ, ◌+◌, ◌≤◌, ◌<◌, ◌≡◌, ◌⊎◌, inl, inr, ◌↔◌, refl, true, false, Option, none, some, List, [], ◌∷◌,
  All, Any, All-map, everything-All, ltb→lt, sym, Bool-cases, Option-cases, arith, ltb,
  if◌then◌else◌,
}
use mathlib.Core.Path.{subst}
use printer_nanny.Suppression.{EventSeverity, SuppressionKind, Window, Printer, Zone}
use printer_nanny.Suppression.Windows.{IsMuting}
use printer_nanny.Suppression.Muted.{Suppresses, IsSilencing, silencing, silenced, quiet, unmuted}
use printer_nanny.Suppression.Hours.{IsSteady, active_end_ahead}
use printer_nanny.Suppression.Muting.{
  Whenever, muting, muting-All, All-muting, muting-Any, Any-muting,
}
use printer_nanny.Suppression.Decide.{
  Decision, lowest_suppressor, is_suppress, latest, clamp_end, decide, evaluate, horizon_of,
}

lowest_suppressor-Any :
    (cs : List (Window × ℕ)) (w : Window) → lowest_suppressor cs ≡ some w → Any Suppresses cs
unfolding lowest_suppressor
lowest_suppressor-Any [] w h = ground arith
lowest_suppressor-Any ((v, e) ∷ cs) w h = elim (Bool-cases (is_suppress v.action)) [
  | inl y ↦ inl y
  | inr n ↦ inr (lowest_suppressor-Any cs w (ground arith))
]

Any-lowest_suppressor : (cs : List (Window × ℕ)) → lowest_suppressor cs ≡ none → ¬ Any Suppresses cs
unfolding lowest_suppressor
Any-lowest_suppressor [] h a = a
Any-lowest_suppressor ((v, e) ∷ cs) h (inl y) = elim (Option-cases (lowest_suppressor cs)) [
  | inl n ↦ ground arith
  | inr (x, m) ↦ ground arith
]
Any-lowest_suppressor ((v, e) ∷ cs) h (inr a) = Any-lowest_suppressor cs (ground arith) a

latest-le : (best : Window × ℕ) (cs : List (Window × ℕ)) → best.1 ≤ (latest best cs).1
unfolding latest
latest-le best [] = omega arith
latest-le best (c ∷ cs) = elim (Bool-cases (ltb best.1 c.1)) [
  | inl y ↦ rw (latest, y) (let h = ltb→lt best.1 c.1 y in omega (arith, h, latest-le c cs))
  | inr n ↦ rw (latest, n) (latest-le best cs)
]

latest-le_next : (best c : Window × ℕ) (cs : List (Window × ℕ)) → c.1 ≤ (latest best (c ∷ cs)).1
unfolding latest
latest-le_next best c cs = elim (Bool-cases (ltb best.1 c.1)) [
  | inl y ↦ rw (latest, y) (latest-le c cs)
  | inr n ↦ rw (latest, n) (let h = latest-le best cs in ground arith)
]

latest-All : (best : Window × ℕ) (cs : List (Window × ℕ)) → All (λ c. c.1 ≤ (latest best cs).1) cs
unfolding latest
latest-All best [] = tt
latest-All best (c ∷ cs) =
    (latest-le_next best c cs, latest-All (if ltb best.1 c.1 then c else best) cs)

latest-holds :
    (P : Window × ℕ → Type 0) (best : Window × ℕ) (cs : List (Window × ℕ))
    → P best
    → All P cs
    → P (latest best cs)
unfolding latest
latest-holds P best [] p h = p
latest-holds P best (c ∷ cs) p h = elim (Bool-cases (ltb best.1 c.1)) [
  | inl y ↦ rw (latest, y) (latest-holds P c cs h.0 h.1)
  | inr n ↦ rw (latest, n) (latest-holds P best cs p h.1)
]

-- The three verdicts of a decision exclude each other, and a deferral has a time.
abbrev pub IsDispatched : Decision → Type 0
IsDispatched d =
    (d.dispatch ≡ true) × (d.defer ≡ false) × (d.suppress ≡ false) × (d.deferred_until ≡ none)

abbrev pub IsSuppressed : Decision → Type 0
IsSuppressed d =
    (d.dispatch ≡ false) × (d.defer ≡ false) × (d.suppress ≡ true) × (d.deferred_until ≡ none)

abbrev pub IsDeferred : Decision → ℕ → Type 0
IsDeferred d t =
    (d.dispatch ≡ false) × (d.defer ≡ true) × (d.suppress ≡ false) × (d.deferred_until ≡ some t)

-- When the last of the muting windows ends, as `decide` bounds it.
abbrev pub resume_at : ℕ → Window × ℕ → List (Window × ℕ) → ℕ
resume_at now c cs = clamp_end now (horizon_of (latest c cs).0.kind) (latest c cs).1

-- What `decide` says of the muting windows.
Says : ℕ → List (Window × ℕ) → Decision → Type 0
Says now [] d = IsDispatched d
Says now (c ∷ cs) d =
    (IsSuppressed d × Any Suppresses (c ∷ cs))
    ⊎ (IsDeferred d (resume_at now c cs) × (¬ Any Suppresses (c ∷ cs)))

decide-Says : (now : ℕ) (cs : List (Window × ℕ)) → Says now cs (decide now cs)
unfolding decide Says
decide-Says now [] = (refl, refl, refl, refl)
decide-Says now (c ∷ cs) = elim (Option-cases (lowest_suppressor (c ∷ cs))) [
  | inl n ↦ inr (rw (decide, n) (refl, refl, refl, refl), Any-lowest_suppressor (c ∷ cs) n)
  | inr (w, s) ↦ inl (rw (decide, s) (refl, refl, refl, refl), lowest_suppressor-Any (c ∷ cs) w s)
]

Says-suppress :
    (now : ℕ) (cs : List (Window × ℕ)) (d : Decision)
    → Says now cs d
    → (d.suppress ≡ true) ↔ Any Suppresses cs
unfolding Says
Says-suppress now [] d s = (λ h. ground arith, λ h. absurd h)
Says-suppress now (c ∷ cs) d (inl (s, a)) = (λ h. a, λ h. s.2)
Says-suppress now (c ∷ cs) d (inr (s, n)) = (λ h. ground arith, λ h. absurd (n h))

Says-dispatch :
    (now : ℕ) (cs : List (Window × ℕ)) (d : Decision)
    → Says now cs d
    → (d.dispatch ≡ true) ↔ All (λ c. ⊥) cs
unfolding Says
Says-dispatch now [] d s = (λ h. tt, λ h. s.0)
Says-dispatch now (c ∷ cs) d (inl (s, a)) = (λ h. ground arith, λ h. absurd h.0)
Says-dispatch now (c ∷ cs) d (inr (s, n)) = (λ h. ground arith, λ h. absurd h.0)

-- A decision is suppression exactly when some window mutes the message and has the action
-- "suppress"; it is dispatch exactly when no window mutes it. A window mutes a message if it is
-- enabled, covers the printer by its scope and the scope's id, is active (maintenance from its
-- start to before its end; quiet hours between their minutes on an allowed weekday, past midnight
-- if they do not end after they start), and does not let the severity through.
pub suppressed_iff :
    (windows : List Window) (p : Option Printer) (severity : Option EventSeverity) (now : ℕ)
    (z : Zone)
    → (((evaluate windows p severity now z).suppress ≡ true)
        ↔ Any (IsSilencing p severity now z) windows)
      × (((evaluate windows p severity now z).dispatch ≡ true)
          ↔ All (λ w. ¬ IsMuting p severity now z w) windows)
unfolding evaluate
suppressed_iff windows p severity now z =
    let d = decide now (muting p severity now z windows) in
    let says = decide-Says now (muting p severity now z windows) in
    let (a, b) = Says-suppress now (muting p severity now z windows) d says in
    let (x, y) = Says-dispatch now (muting p severity now z windows) d says in
    (
      (
        λ h.
            silencing p severity now z windows
              (muting-Any p severity now z Suppresses windows (a h)),
        λ h.
            b (
              Any-muting p severity now z Suppresses windows (silenced p severity now z windows h)),
      ),
      (
        λ h. quiet p severity now z windows (muting-All p severity now z (λ c. ⊥) windows (x h)),
        λ h. y (All-muting p severity now z (λ c. ⊥) windows (unmuted p severity now z windows h)),
      ),
    )

-- Dispatched, or suppressed, or deferred to a time that no muting window outlives within the bound.
abbrev pub IsVerdict :
    List Window → Option Printer → Option EventSeverity → ℕ → Zone → Decision → Type 0
IsVerdict windows p severity now z d =
    IsDispatched d
    ⊎ (IsSuppressed d
        ⊎ ((t : ℕ) × IsDeferred d t
            × (now < t)
            × (t ≤ now + 604800)
            × All (Whenever p severity now z (λ c. (c.1 ≤ t) ⊎ (t ≡ now + 604800))) windows))

-- The end of a muting window is ahead, by a day at most if the window is one of quiet hours.
IsAhead : ℕ → Window × ℕ → Type 0
IsAhead now (w, e) = (now < e) × (w.kind ≡ SuppressionKind.quiet_hours → e ≤ now + 86400)

clamped :
    (now : ℕ) (k : SuppressionKind) (e : ℕ)
    → now < e
    → (k ≡ SuppressionKind.quiet_hours → e ≤ now + 86400)
    → (now < clamp_end now (horizon_of k) e)
      × (clamp_end now (horizon_of k) e ≤ now + 604800)
      × ((x : ℕ)
          → x ≤ e
          → (x ≤ clamp_end now (horizon_of k) e) ⊎ (clamp_end now (horizon_of k) e ≡ now + 604800))
unfolding clamp_end
clamped now SuppressionKind.maintenance e ahead day =
    (ground arith, ground arith, λ x h. ground arith)
clamped now SuppressionKind.quiet_hours e ahead day =
    let near = day refl in (ground arith, ground arith, λ x h. ground arith)

ends-IsAhead :
    (windows : List Window) (p : Option Printer) (severity : Option EventSeverity) (now : ℕ)
    (z : Zone)
    → IsSteady z now
    → All (IsAhead now) (muting p severity now z windows)
unfolding IsAhead
ends-IsAhead windows p severity now z steady =
    All-muting p severity now z (IsAhead now) windows
      (everything-All _ windows (λ w e m. active_end_ahead w p now z e steady m.0))

deferral_bounds_from :
    (windows : List Window) (p : Option Printer) (severity : Option EventSeverity) (now : ℕ)
    (z : Zone)
    → (cs : List (Window × ℕ)) → All (IsAhead now) cs
    → muting p severity now z windows ≡ cs
    → (d : Decision) → Says now cs d
    → IsVerdict windows p severity now z d
unfolding Says IsAhead
deferral_bounds_from windows p severity now z [] ahead same d s = inl s
deferral_bounds_from windows p severity now z (c ∷ cs) ahead same d (inl (s, a)) = inr (inl s)
deferral_bounds_from windows p severity now z (c ∷ cs) ahead same d (inr (s, n)) =
    let (low, day) = latest-holds (IsAhead now) c cs ahead.0 ahead.1 in
    let (a, b, covers) = clamped now (latest c cs).0.kind (latest c cs).1 low day in
    let t = resume_at now c cs in
    let P : Window × ℕ → Type 0 = (λ x. (x.1 ≤ t) ⊎ (t ≡ now + 604800)) in
    let all =
      All-map (λ x. x.1 ≤ (latest c cs).1) P (c ∷ cs) (λ x h. covers x.1 h)
        (latest-le c cs, latest-All c cs) in
    inr (inr (t, s, a, b, muting-All p severity now z P windows (subst (All P) (sym same) all)))

-- When the zone has no transition within the next two days, a decision is one of dispatch, deferral
-- and suppression, and only a deferral has a time: it is ahead of now and at most 7 days ahead, and
-- each window that mutes the message ends by then, or the time is the 7 days' bound.
pub deferral_bounds :
    (windows : List Window) (p : Option Printer) (severity : Option EventSeverity) (now : ℕ)
    (z : Zone)
    → IsSteady z now
    → IsVerdict windows p severity now z (evaluate windows p severity now z)
unfolding evaluate
deferral_bounds windows p severity now z steady =
    let cs = muting p severity now z windows in
    let says = decide-Says now cs in
    deferral_bounds_from windows p severity now z cs (ends-IsAhead windows p severity now z steady)
      refl (decide now cs) says
