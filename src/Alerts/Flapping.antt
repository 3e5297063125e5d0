-- ===== src/Alerts/Flapping.antt =====
-- central/worker/jobs.py: `_revive_flapping_alert` finds an alert that is over.
use mathlib.Core.Path.{subst}
use printer_nanny.Common.{
  ℕ, suc, ◌+◌, ◌*◌, ◌≡◌, refl, sym, ◌∙◌, true, false, ◌&&◌, not, Option, none, some, List, [], ◌∷◌,
  ◌==◌, In, here, there, Bool-cases, inl, inr, ◌⊎◌, and-true, some-injective, none-ne-some,
  if-cases, is_none, get_or, ltb, false-ne-true,
}
use printer_nanny.Alerts.{
  DedupeKey, key_eq, Alert, AlertState, still_open, acknowledged, resolved, Detail, Settings,
  is_live, is_live_state,
}
use printer_nanny.Alerts.Rows.{key_eq-eq}
use printer_nanny.Alerts.Lifecycle.{
  flap_cooldown_minutes, later_resolved, last_resolved, flapping_alert, is_resolved, revived,
  if_recent,
}
use printer_nanny.Alerts.Evaluate.{closed}
use printer_nanny.Alerts.Steps.{Turns}

-- What `_revive_flapping_alert` finds.
later_resolved-one :
    (a : Alert) (o : Option Alert) → (later_resolved a o ≡ a) ⊎ (o ≡ some (later_resolved a o))
unfolding later_resolved
later_resolved-one a none = inl refl
later_resolved-one a (some b) =
    elim (Bool-cases (ltb (get_or a.resolved_at 0) (get_or b.resolved_at 0))) [
      | inl y ↦ inr (rw y refl)
      | inr n ↦ inl (rw n refl)
    ]

abbrev pub IsOver : DedupeKey → List Alert → Alert → Type 0
IsOver key alerts a = In a alerts × (a.dedupe_key ≡ key) × (is_live a ≡ false)

resolved-over : (s : AlertState) → is_resolved s ≡ true → is_live_state s ≡ false
unfolding is_live_state
resolved-over still_open h = absurd (false-ne-true h)
resolved-over acknowledged h = absurd (false-ne-true h)
resolved-over resolved h = refl

last_resolved-IsOver :
    (key : DedupeKey) (alerts : List Alert) (a : Alert)
    → last_resolved key alerts ≡ some a
    → IsOver key alerts a
unfolding last_resolved
last_resolved-IsOver key [] a h = elim (none-ne-some h) [ ]
last_resolved-IsOver key (x ∷ alerts) a h =
    let later : last_resolved key alerts ≡ some a → IsOver key (x ∷ alerts) a =
      λ e. let (m, same, over) = last_resolved-IsOver key alerts a e in (there m, same, over) in
    elim (if-cases (key_eq x.dedupe_key key && (is_resolved x.state && not (is_none x.resolved_at)))
      h) [
        | inr (_, e) ↦ later e
        | inl (fits, e) ↦
            let (same, rest) = and-true (key_eq x.dedupe_key key) _ fits in
            let (over, _) = and-true (is_resolved x.state) _ rest in
            elim (later_resolved-one x (last_resolved key alerts)) [
              | inl is_x ↦
                  subst (IsOver key (x ∷ alerts)) (sym is_x ∙ some-injective e)
                    (here, key_eq-eq x.dedupe_key key same, resolved-over x.state over)
              | inr it ↦ later (it ∙ e)
            ]
      ]

if_recent-some :
    (now minutes : ℕ) (o : Option Alert) (a : Alert) → if_recent now minutes o ≡ some a → o ≡ some a
unfolding if_recent
if_recent-some now minutes none a h = h
if_recent-some now minutes (some b) a h =
    elim (if-cases (ltb (get_or b.resolved_at 0 + minutes * 60) now) h) [
      | inl (_, e) ↦ absurd (none-ne-some e)
      | inr (_, e) ↦ e
    ]

pub flapping_alert-IsOver :
    (settings : Settings) (key : DedupeKey) (now : ℕ) (cap : Option ℕ) (alerts : List Alert)
    (a : Alert)
    → flapping_alert settings key now cap alerts ≡ some a
    → IsOver key alerts a
unfolding flapping_alert
flapping_alert-IsOver settings key now cap alerts a h =
    elim (if-cases (flap_cooldown_minutes settings cap == 0) h) [
      | inl (_, e) ↦ absurd (none-ne-some e)
      | inr (_, e) ↦
          last_resolved-IsOver key alerts a
            (if_recent-some now (flap_cooldown_minutes settings cap) (last_resolved key alerts) a e)
    ]

pub revived-Turns : (detail : Detail) (minutes : ℕ) → Turns (revived detail minutes) true suc
unfolding is_live_state
revived-Turns detail minutes = record {
  same_id = λ x. refl;
  same_key = λ x. refl;
  same_type = λ x. refl;
  turned = λ x. refl;
  flapped = λ x. refl;
}

pub closed-Turns : (now : ℕ) → Turns (closed now) false (λ n. n)
unfolding is_live_state
closed-Turns now = record {
  same_id = λ x. refl;
  same_key = λ x. refl;
  same_type = λ x. refl;
  turned = λ x. refl;
  flapped = λ x. refl;
}
