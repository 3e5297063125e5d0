-- ===== src/Alerts/Acted.antt =====
-- central/worker/jobs.py: which keys the findings of a pass make live, and active.
use mathlib.Core.Path.{subst}
use printer_nanny.Common.{
  ℕ, ◌≡◌, ◌≤◌, refl, ◌∙◌, ap, arith, Bool, true, false, ◌&&◌, ◌||◌, Option, none, some, List, [],
  ◌∷◌, Bool-cases, inl, inr,
}
use printer_nanny.Alerts.{DedupeKey, key_eq, Alert, AlertRule, Db, Detail, find_open_alert}
use printer_nanny.Alerts.Rows.{key_eq-eq, count_live, find_open_alert-none, find_open_alert-some}
use printer_nanny.Alerts.Conditions.{Finding, raise, hold, recede}
use printer_nanny.Alerts.Lifecycle.{Pass, open_alert}
use printer_nanny.Alerts.Evaluate.{act, act_all, hold_if, recede_if, is_active}
use printer_nanny.Alerts.Steps.{board_of}
use printer_nanny.Alerts.Sound.{IsSound}
use printer_nanny.Alerts.Kept.{Steps-IsSound}
use printer_nanny.Alerts.Openings.{act-Steps}
use printer_nanny.Alerts.Live.{has_live}
use printer_nanny.Alerts.Opened.{
  is_raised_by, is_held_by, is_raised, is_held, Opened, or_false, Opened-then, Opened-same,
  with_detail-Opened, open_unless-Opened,
}

-- One finding after the other.
module _ (pass : Pass) (k : DedupeKey) where
  -- What one or several findings make of the tables and of the active keys.
  pub record Acted (raised held : Bool) (s s' : Db × List DedupeKey) : Type 0 where
    pub opened : Opened k raised s.0.alerts s'.0.alerts
    pub active : is_active k s'.1 ≡ (is_active k s.1 || (raised || (held && has_live k s.0.alerts)))

  not_held :
      (key : DedupeKey) (alerts : List Alert)
      → find_open_alert key alerts ≡ none
      → (key_eq key k && has_live k alerts) ≡ false
  not_held key alerts e = elim (Bool-cases (key_eq key k)) [
    | inl y ↦
        let none_live =
          subst (λ z. count_live z alerts ≡ 0) (key_eq-eq key k y)
            (find_open_alert-none key alerts e) in
        ground (arith, y, none_live)
    | inr n ↦ rw n refl
  ]

  held_live :
      (key : DedupeKey) (alerts : List Alert) (a : Alert)
      → find_open_alert key alerts ≡ some a
      → (key_eq key k && has_live k alerts) ≡ key_eq key k
  held_live key alerts a e = elim (Bool-cases (key_eq key k)) [
    | inl y ↦
        let (_, _, _, counted) = find_open_alert-some key alerts a e in
        let live = subst (λ z. 1 ≤ count_live z alerts) (key_eq-eq key k y) counted in
        ground (arith, y, live)
    | inr n ↦ rw n refl
  ]

  absorbed : (b : Bool) (x : Bool) → x ≡ false → b ≡ (b || (false || x))
  absorbed b x h = rw h (or_false b)

  turned : (b x y : Bool) → x ≡ y → (y || b) ≡ (b || (false || x))
  turned true x y h = ground (arith, h)
  turned false x y h = ground (arith, h)

  hold_if-Acted :
      (key : DedupeKey) (db : Db) (active : List DedupeKey) (o : Option Alert)
      → find_open_alert key db.alerts ≡ o
      → Acted false (key_eq key k) (db, active) (hold_if key (db, active) o)
  unfolding hold_if is_active
  hold_if-Acted key db active none e = record {
    opened = Opened-same k db.alerts;
    active = absorbed (is_active k active) _ (not_held key db.alerts e);
  }
  hold_if-Acted key db active (some a) e = record {
    opened = Opened-same k db.alerts;
    active = turned (is_active k active) _ (key_eq key k) (held_live key db.alerts a e);
  }

  recede_if-Acted :
      (key : DedupeKey) (detail : Detail) (window : ℕ) (db : Db) (active : List DedupeKey)
      (o : Option Alert)
      → find_open_alert key db.alerts ≡ o
      → Acted false
          (key_eq key k)
          (db, active)
          (recede_if pass.settings key detail window (db, active) o)
  unfolding recede_if is_active
  recede_if-Acted key detail window db active none e = record {
    opened = Opened-same k db.alerts;
    active = absorbed (is_active k active) _ (not_held key db.alerts e);
  }
  recede_if-Acted key detail window db active (some a) e = record {
    opened = with_detail-Opened pass k a detail (some window) db;
    active = turned (is_active k active) _ (key_eq key k) (held_live key db.alerts a e);
  }

  asked : (b x y : Bool) → (x || b) ≡ (b || (x || (false && y)))
  asked true true y = refl
  asked true false y = refl
  asked false true y = refl
  asked false false y = refl

  act-Acted :
      (rule : AlertRule) (s : Db × List DedupeKey) (f : Finding)
      → IsSound (board_of s.0)
      → Acted (is_raised_by k f) (is_held_by k f) s (act pass rule s f)
  unfolding act open_alert is_active
  act-Acted rule (db, active) (raise d) sound = record {
    opened =
        open_unless-Opened pass k db rule d (find_open_alert d.key db.alerts) sound.distinct
          (λ a e. (find_open_alert-some d.key db.alerts a e).3);
    active = asked (is_active k active) (key_eq d.key k) (has_live k db.alerts);
  }
  act-Acted rule (db, active) (hold key) sound =
      hold_if-Acted key db active (find_open_alert key db.alerts) refl
  act-Acted rule (db, active) (recede key detail window) sound =
      recede_if-Acted key detail window db active (find_open_alert key db.alerts) refl

  -- Two steps ask for what one of them asks for; what the first raised the second may hold.
  merged :
      (a r h rs hs l l' : Bool)
      → l' ≡ (l || r)
      → ((a || (r || (h && l))) || (rs || (hs && l'))) ≡ (a || ((r || rs) || ((h || hs) && l)))
  merged a r h rs hs l l' e = ground (arith, e)

  pub Acted-then :
      (r h rs hs : Bool) (s t u : Db × List DedupeKey)
      → Acted r h s t
      → Acted rs hs t u
      → Acted (r || rs) (h || hs) s u
  Acted-then r h rs hs s t u x y = record {
    opened = Opened-then k r rs s.0.alerts t.0.alerts u.0.alerts x.opened y.opened;
    active =
        y.active
        ∙ ap (λ z. z || (rs || (hs && has_live k t.0.alerts))) x.active
        ∙ merged (is_active k s.1) r h rs hs (has_live k s.0.alerts) (has_live k t.0.alerts)
            x.opened.lives;
  }

  pub Acted-none : (s : Db × List DedupeKey) → Acted false false s s
  Acted-none s = record { opened = Opened-same k s.0.alerts; active = or_false (is_active k s.1) }

  pub act_all-Acted :
      (rule : AlertRule) (s : Db × List DedupeKey) (findings : List Finding)
      → IsSound (board_of s.0)
      → Acted (is_raised k findings) (is_held k findings) s (act_all pass rule s findings)
  unfolding act_all
  act_all-Acted rule s [] sound = Acted-none s
  act_all-Acted rule s (f ∷ findings) sound =
      Acted-then (is_raised_by k f) (is_held_by k f) (is_raised k findings) (is_held k findings) s
        (act pass rule s f) (act_all pass rule (act pass rule s f) findings)
        (act-Acted rule s f sound)
        (act_all-Acted rule (act pass rule s f) findings
          (Steps-IsSound (act-Steps pass rule s f) sound))
