-- ===== src/Suppression/Muted.antt =====
-- The muting windows of the code are those that the fields describe.
use printer_nanny.Common.{
  ℕ, ◌/◌, ◌%◌, ◌≤◌, ◌<◌, ◌≡◌, ◌⊎◌, inl, inr, refl, true, false, Option, none, some, List, [], ◌∷◌,
  All, Any, Bool-cases, Option-cases, arith, leb, if◌then◌else◌, sym,
}
use mathlib.Core.Path.{subst}
use printer_nanny.Suppression.{
  EventSeverity, severity_rank, SuppressionKind, SuppressionAction, Window, Printer, Zone,
  active_end, hours_end, stored_hours_end, quiet_hours_end, maintenance_end, window_end,
  scope_matches,
}
use printer_nanny.Suppression.Decide.{is_suppress, rank_of, breaks_through}
use printer_nanny.Suppression.Muting.{Mutes, Whenever, Muting}
use printer_nanny.Suppression.Windows.{
  InHours, IsActive, IsMuting, covers, covered, hours_end-InHours, InHours-hours_end,
}

abbrev pub Suppresses : Window × ℕ → Type 0
Suppresses (w, e) = is_suppress w.action ≡ true

stored-InHours :
    (w : Window) (a b : Option ℕ) (now : ℕ) (z : Zone) (x : ℕ)
    → stored_hours_end w a b now z ≡ some x
    → (s : ℕ) × (e : ℕ) × (a ≡ some s)
      × (b ≡ some e)
      × InHours w.weekdays
          (s % 1440)
          (if leb e 1440 then e else e % 1440)
          (z.local now / 86400)
          ((z.local now % 86400) / 60)
stored-InHours w none b now z x h = ground arith
stored-InHours w (some s) none now z x h = ground arith
stored-InHours w (some s) (some e) now z x h = (
  s,
  e,
  refl,
  refl,
  hours_end-InHours w (s % 1440) (if leb e 1440 then e else e % 1440) now z x h,
)

kind_cases :
    (k : SuppressionKind) → (k ≡ SuppressionKind.maintenance) ⊎ (k ≡ SuppressionKind.quiet_hours)
kind_cases SuppressionKind.maintenance = inl refl
kind_cases SuppressionKind.quiet_hours = inr refl

maintenance-active :
    (w : Window) (now x : ℕ)
    → maintenance_end w now ≡ some x
    → (s : ℕ) × (e : ℕ) × (w.starts_at ≡ some s) × (w.ends_at ≡ some e) × (s ≤ now) × (now < e)
unfolding maintenance_end
maintenance-active w now x h = elim (Option-cases w.starts_at) [
  | inl n ↦ ground arith
  | inr (s, es) ↦ elim (Option-cases w.ends_at) [
    | inl n ↦ ground arith
    | inr (e, ee) ↦ (s, e, es, ee, ground arith, ground arith)
  ]
]

window_end-IsActive :
    (w : Window) (now : ℕ) (z : Zone) (x : ℕ)
    → window_end w.kind w now z ≡ some x
    → IsActive w now z
unfolding maintenance_end quiet_hours_end
window_end-IsActive w now z x h = elim (kind_cases w.kind) [
  | inl m ↦
      let h' : maintenance_end w now ≡ some x = subst (λ k. window_end k w now z ≡ some x) m h in
      inl (m, maintenance-active w now x h')
  | inr q ↦
      let h' : quiet_hours_end w now z ≡ some x = subst (λ k. window_end k w now z ≡ some x) q h in
      inr (q, stored-InHours w w.start_minute w.end_minute now z x h')
]

stored_ended :
    (w : Window) (now : ℕ) (z : Zone) (s e x : ℕ)
    → w.start_minute ≡ some s
    → w.end_minute ≡ some e
    → hours_end w (s % 1440) (if leb e 1440 then e else e % 1440) now z ≡ some x
    → quiet_hours_end w now z ≡ some x
unfolding quiet_hours_end
stored_ended w now z s e x es ee h =
    let both : stored_hours_end w (some s) (some e) now z ≡ some x = h in
    subst (λ a. stored_hours_end w a w.end_minute now z ≡ some x) (sym es)
      (subst (λ b. stored_hours_end w (some s) b now z ≡ some x) (sym ee) both)

IsActive-window_end :
    (w : Window) (now : ℕ) (z : Zone)
    → IsActive w now z
    → (x : ℕ) × (window_end w.kind w now z ≡ some x)
unfolding maintenance_end quiet_hours_end
IsActive-window_end w now z (inl (k, (s, e, es, ee, low, high))) =
    (e, subst (λ i. window_end i w now z ≡ some e) (sym k) (ground arith))
IsActive-window_end w now z (inr (k, (s, e, es, ee, within))) =
    let (x, h) = InHours-hours_end w (s % 1440) (if leb e 1440 then e else e % 1440) now z within in
    (x, subst (λ i. window_end i w now z ≡ some x) (sym k) (stored_ended w now z s e x es ee h))

muted-IsMuting :
    (p : Option Printer) (severity : Option EventSeverity) (now : ℕ) (z : Zone) (w : Window)
    → (x : ℕ) × Mutes p severity now z w x
    → IsMuting p severity now z w
unfolding active_end scope_matches
muted-IsMuting p severity now z w (x, (h, loud)) = (
  ground arith,
  covers w.scope w.scope_id p (ground arith),
  window_end-IsActive w now z x (ground arith),
  λ b. ground arith,
)

not_broken :
    (w : Window) (severity : Option EventSeverity)
    → (¬ (
        (w.allow_breakthrough ≡ true)
        × (severity_rank w.min_severity_breakthrough ≤ rank_of severity)))
    → breaks_through w severity ≡ false
not_broken w severity loud = elim (Bool-cases (breaks_through w severity)) [
  | inl y ↦ absurd (loud (ground arith, ground arith))
  | inr n ↦ n
]

IsMuting-muted :
    (p : Option Printer) (severity : Option EventSeverity) (now : ℕ) (z : Zone) (w : Window)
    → IsMuting p severity now z w
    → (x : ℕ) × Mutes p severity now z w x
unfolding active_end scope_matches
IsMuting-muted p severity now z w (on, inside, active, loud) =
    let (x, h) = IsActive-window_end w now z active in
    let c = covered w.scope w.scope_id p inside in (x, (ground arith, not_broken w severity loud))

is_suppress-suppress :
    (a : SuppressionAction) → is_suppress a ≡ true → a ≡ SuppressionAction.suppress
is_suppress-suppress SuppressionAction.suppress h = refl
is_suppress-suppress SuppressionAction.defer h = ground arith

module _ (p : Option Printer) (severity : Option EventSeverity) (now : ℕ) (z : Zone) where
  -- The window mutes the message, and its action is to suppress it.
  abbrev pub IsSilencing : Window → Type 0
  IsSilencing w = IsMuting p severity now z w × (w.action ≡ SuppressionAction.suppress)

  pub silencing :
      (windows : List Window)
      → Any (Muting p severity now z Suppresses) windows
      → Any IsSilencing windows
  silencing [] h = elim h [ ]
  silencing (w ∷ windows) (inl (e, m, s)) =
      inl (muted-IsMuting p severity now z w (e, m), is_suppress-suppress w.action s)
  silencing (w ∷ windows) (inr h) = inr (silencing windows h)

  pub silenced :
      (windows : List Window)
      → Any IsSilencing windows
      → Any (Muting p severity now z Suppresses) windows
  silenced [] h = elim h [ ]
  silenced (w ∷ windows) (inl (m, s)) =
      let (e, mutes) = IsMuting-muted p severity now z w m in inl (e, mutes, rw (s) refl)
  silenced (w ∷ windows) (inr h) = inr (silenced windows h)

  pub quiet :
      (windows : List Window)
      → All (Whenever p severity now z (λ c. ⊥)) windows
      → All (λ w. ¬ IsMuting p severity now z w) windows
  quiet [] h = tt
  quiet (w ∷ windows) h =
      (λ m. let (e, mutes) = IsMuting-muted p severity now z w m in h.0 e mutes, quiet windows h.1)

  pub unmuted :
      (windows : List Window)
      → All (λ w. ¬ IsMuting p severity now z w) windows
      → All (Whenever p severity now z (λ c. ⊥)) windows
  unmuted [] h = tt
  unmuted (w ∷ windows) h =
      (λ e m. h.0 (muted-IsMuting p severity now z w (e, m)), unmuted windows h.1)
