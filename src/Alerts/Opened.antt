-- ===== src/Alerts/Opened.antt =====
-- central/worker/jobs.py: `_open_alert`, on one key.
use mathlib.Core.Path.{subst}
use printer_nanny.Common.{
  ℕ, ◌≡◌, ◌≢◌, ◌≤◌, refl, sym, ◌∙◌, ap, arith, Bool, true, false, ◌||◌, Option, none, some, List,
  [], ◌∷◌, Bool-cases, inl, inr, false-ne-true,
}
use printer_nanny.Alerts.{
  DedupeKey, key_eq, Alert, AlertRule, Db, is_live_state, Detail, update_alert,
}
use printer_nanny.Alerts.Rows.{key_eq-eq, key_eq_refl, count_id, count_live, count_live-append}
use printer_nanny.Alerts.Conditions.{Demand, Finding, raise, hold, recede}
use printer_nanny.Alerts.Lifecycle.{
  Pass, notify_alert, notify_if, new_alert, with_new, with_detail, worded, open_unless,
  reopen_or_new, flapping_alert, flap_cooldown_minutes, revived, decision_on,
}
use printer_nanny.Alerts.Steps.{Board, Writes}
use printer_nanny.Alerts.Passes.{WritesOn, worded-Writes, notify_if-WritesOn}
use printer_nanny.Alerts.Flapping.{revived-Turns, flapping_alert-IsOver, IsOver}
use printer_nanny.Alerts.Live.{
  has_live, Writes-has_live, Turns-has_live, AreDriven, update-AreDriven, snoc-AreDriven,
}

-- What the findings of a pass ask of a key.
abbrev pub is_raised_by : DedupeKey → Finding → Bool
is_raised_by k (raise d) = key_eq d.key k
is_raised_by k (hold key) = false
is_raised_by k (recede key detail window) = false

abbrev pub is_held_by : DedupeKey → Finding → Bool
is_held_by k (raise d) = false
is_held_by k (hold key) = key_eq key k
is_held_by k (recede key detail window) = key_eq key k

abbrev pub is_raised : DedupeKey → List Finding → Bool
is_raised k [] = false
is_raised k (f ∷ findings) = is_raised_by k f || is_raised k findings

abbrev pub is_held : DedupeKey → List Finding → Bool
is_held k [] = false
is_held k (f ∷ findings) = is_held_by k f || is_held k findings

-- Between two tables: a key becomes live where it was, or was asked for; what is not asked for
-- keeps its kind.
pub record Opened (k : DedupeKey) (asked : Bool) (before after : List Alert) : Type 0 where
  pub lives : has_live k after ≡ (has_live k before || asked)
  pub driven : asked ≡ false → AreDriven k before → AreDriven k after

pub or_false : (b : Bool) → b ≡ (b || false)
or_false true = refl
or_false false = refl

Writes-Opened :
    (k : DedupeKey) (id : ℕ) (f : Alert → Alert) (alerts : List Alert)
    → Writes f
    → Opened k false alerts (update_alert id f alerts)
Writes-Opened k id f alerts w = record {
  lives = Writes-has_live k id f alerts w ∙ or_false (has_live k alerts);
  driven = λ _ d. update-AreDriven k id f alerts w.same_key w.same_type d;
}

pub Opened-then :
    (k : DedupeKey) (p q : Bool) (a b c : List Alert)
    → Opened k p a b
    → Opened k q b c
    → Opened k (p || q) a c
Opened-then k p q a b c s t = record {
  lives = t.lives ∙ ap (λ h. h || q) s.lives ∙ or_assoc (has_live k a) p q;
  driven = λ h d. let (np, nq) = neither p q h in t.driven nq (s.driven np d);
}
  where
    or_assoc : (x y z : Bool) → ((x || y) || z) ≡ (x || (y || z))
    or_assoc true y z = refl
    or_assoc false y z = refl

    neither : (x y : Bool) → (x || y) ≡ false → (x ≡ false) × (y ≡ false)
    neither true y h = ground (arith, h)
    neither false y h = (refl, h)

pub WritesOn-Opened :
    (k : DedupeKey) (id : ℕ) (db db' : Db)
    → WritesOn id db db'
    → Opened k false db.alerts db'.alerts
WritesOn-Opened k id db db' (f, w, e) =
    subst (Opened k false db.alerts) (sym (ap (λ (b : Board). b.alerts) e))
      (Writes-Opened k id f db.alerts w)

pub Opened-writes :
    (k : DedupeKey) (p : Bool) (a b c : List Alert)
    → Opened k p a b
    → Opened k false b c
    → Opened k p a c
Opened-writes k p a b c s t = record {
  lives = t.lives ∙ sym (or_false (has_live k b)) ∙ s.lives;
  driven = λ h d. t.driven refl (s.driven h d);
}

-- What is live already may be asked for.
Opened-idle :
    (k : DedupeKey) (p : Bool) (a b : List Alert)
    → (p ≡ true → has_live k a ≡ true)
    → Opened k false a b
    → Opened k p a b
Opened-idle k true a b h t = record {
  lives = t.lives ∙ sym (or_false (has_live k a)) ∙ h refl ∙ ap (λ x. x || true) (sym (h refl));
  driven = λ e d. t.driven refl d;
}
Opened-idle k false a b h t = t

pub Opened-same : (k : DedupeKey) (a : List Alert) → Opened k false a a
Opened-same k a = record { lives = or_false (has_live k a); driven = λ _ d. d }

pub key_eq-ne : (a k : DedupeKey) → key_eq a k ≡ false → a ≢ k
key_eq-ne a k h e = false-ne-true (sym h ∙ subst (λ z. key_eq a z ≡ true) e (key_eq_refl a))

module _ (pass : Pass) (k : DedupeKey) where
  new-Opened :
      (db : Db) (rule : AlertRule) (d : Demand)
      → Opened k (key_eq d.key k) db.alerts (with_new pass db rule d).alerts
  unfolding new_alert is_live_state
  new-Opened db rule d = record {
    lives = elim (Bool-cases (key_eq d.key k)) [
      | inl y ↦ ground (arith, y, count_live-append k db.alerts (new_alert pass db rule d ∷ []))
      | inr n ↦ ground (arith, n, count_live-append k db.alerts (new_alert pass db rule d ∷ []))
    ];
    driven = λ h driven.
        snoc-AreDriven k (new_alert pass db rule d) db.alerts (key_eq-ne d.key k h) driven;
  }

  reopen_or_new-Opened :
      (db : Db) (rule : AlertRule) (d : Demand) (o : Option Alert)
      → ((i : ℕ) → count_id i db.alerts ≤ 1)
      → ((a : Alert) → o ≡ some a → IsOver d.key db.alerts a)
      → Opened k (key_eq d.key k) db.alerts (reopen_or_new pass db rule d o).alerts
  unfolding reopen_or_new notify_alert
  reopen_or_new-Opened db rule d none distinct over =
      let fresh = with_new pass db rule d in
      let a = new_alert pass db rule d in
      let go = (decision_on pass a d.printer).dispatch in
      Opened-writes k (key_eq d.key k) db.alerts fresh.alerts _ (new-Opened db rule d) (
        WritesOn-Opened k a.id fresh (notify_if go pass fresh a (some rule) d.printer).0
          (notify_if-WritesOn go pass fresh a (some rule) d.printer))
  reopen_or_new-Opened db rule d (some a) distinct over =
      let (m, same, dead) = over a refl in
      let minutes = flap_cooldown_minutes pass.settings d.cooldown_cap_min in
      let t = revived-Turns d.detail minutes in
      record {
        lives =
            Turns-has_live k db.alerts distinct a m (revived d.detail minutes) t
            ∙ ap (λ z. has_live k db.alerts || key_eq z k) same;
        driven = λ h driven.
            update-AreDriven k a.id (revived d.detail minutes) db.alerts t.same_key t.same_type
              driven;
      }

  pub with_detail-Opened :
      (live : Alert) (detail : Detail) (cap : Option ℕ) (db : Db)
      → Opened k false db.alerts (with_detail pass.settings live detail cap db).alerts
  with_detail-Opened live detail cap db =
      Writes-Opened k live.id (worded _) db.alerts (worded-Writes _)

  pub open_unless-Opened :
      (db : Db) (rule : AlertRule) (d : Demand) (o : Option Alert)
      → ((i : ℕ) → count_id i db.alerts ≤ 1)
      → ((a : Alert) → o ≡ some a → 1 ≤ count_live d.key db.alerts)
      → Opened k (key_eq d.key k) db.alerts (open_unless pass db rule d o).alerts
  unfolding open_unless
  open_unless-Opened db rule d none distinct live_already =
      reopen_or_new-Opened db rule d
        (flapping_alert pass.settings d.key pass.now d.cooldown_cap_min db.alerts) distinct
        (λ a e. flapping_alert-IsOver pass.settings d.key pass.now d.cooldown_cap_min db.alerts a e)
  open_unless-Opened db rule d (some live) distinct live_already =
      let known : key_eq d.key k ≡ true → has_live k db.alerts ≡ true = λ h.
        subst (λ z. has_live z db.alerts ≡ true) (key_eq-eq d.key k h)
          (ground (arith, live_already live refl)) in
      elim (Bool-cases d.refresh_detail) [
        | inl y ↦ rw y (
            Opened-idle k (key_eq d.key k) db.alerts _ known
              (with_detail-Opened live d.detail d.cooldown_cap_min db))
        | inr n ↦
            rw n
              (Opened-idle k (key_eq d.key k) db.alerts db.alerts known (Opened-same k db.alerts))
      ]
