-- ===== src/Alerts/Passes.antt =====
-- central/worker/jobs.py: writes of what is only shown of an alert, `_notify_alert` among them.
use printer_nanny.Common.{ℕ, ◌≡◌, refl, Bool, true, false, Option, none, some, List}
use printer_nanny.Notify.{Badge, NotificationDelivery}
use printer_nanny.Suppression.Decide.{Decision}
use printer_nanny.Alerts.{Alert, AlertRule, Printer, Detail, Db, Settings, update_alert}
use printer_nanny.Alerts.Lifecycle.{
  Pass, withheld_row, record_withheld, notify_alert, with_detail, notify_if, put_withheld, badged,
  badge_of, notified, worded, send_now, decision_on,
}
use printer_nanny.Alerts.Evaluate.{raised_level}
use printer_nanny.Alerts.Steps.{board_of, Writes, writes, Steps, done, before}

-- A pass that writes what is shown on one alert.
abbrev pub WritesOn : ℕ → Db → Db → Type 0
WritesOn id db db' =
    (f : Alert → Alert) × Writes f
    × (board_of db' ≡ record (board_of db) { alerts = update_alert id f db.alerts })

WritesOn-Steps : (id : ℕ) (db db' : Db) → WritesOn id db db' → Steps (board_of db) (board_of db')
WritesOn-Steps id db db' (f, w, e) = before (writes id f w e) done

pub badged-Writes : (b : Badge) → Writes (badged b)
badged-Writes b = record {
  same_id = λ x. refl;
  same_key = λ x. refl;
  same_type = λ x. refl;
  same_life = λ x. refl;
  same_flaps = λ x. refl;
}

pub notified-Writes : (badges : List Badge) (now : ℕ) → Writes (notified badges now)
notified-Writes badges now = record {
  same_id = λ x. refl;
  same_key = λ x. refl;
  same_type = λ x. refl;
  same_life = λ x. refl;
  same_flaps = λ x. refl;
}

pub worded-Writes : (detail : Detail) → Writes (worded detail)
worded-Writes detail = record {
  same_id = λ x. refl;
  same_key = λ x. refl;
  same_type = λ x. refl;
  same_life = λ x. refl;
  same_flaps = λ x. refl;
}

pub raised_level-Writes : Writes raised_level
raised_level-Writes = record {
  same_id = λ x. refl;
  same_key = λ x. refl;
  same_type = λ x. refl;
  same_life = λ x. refl;
  same_flaps = λ x. refl;
}

put_withheld-WritesOn :
    (pass : Pass) (db : Db) (a : Alert) (d : Decision) (o : Option NotificationDelivery)
    → WritesOn a.id db (put_withheld pass db a d o)
unfolding put_withheld
put_withheld-WritesOn pass db a d none = (badged (badge_of d), badged-Writes (badge_of d), refl)
put_withheld-WritesOn pass db a d (some row) =
    (badged (badge_of d), badged-Writes (badge_of d), refl)

send_now-WritesOn :
    (pass : Pass) (db : Db) (a : Alert) (rule : Option AlertRule) (printer : Option Printer)
    → WritesOn a.id db (send_now pass db a rule printer)
unfolding send_now
send_now-WritesOn pass db a rule printer = (notified _ pass.now, notified-Writes _ pass.now, refl)

pub notify_if-WritesOn :
    (go : Bool) (pass : Pass) (db : Db) (a : Alert) (rule : Option AlertRule)
    (printer : Option Printer)
    → WritesOn a.id db (notify_if go pass db a rule printer).0
unfolding notify_if record_withheld
notify_if-WritesOn true pass db a rule printer = send_now-WritesOn pass db a rule printer
notify_if-WritesOn false pass db a rule printer =
    put_withheld-WritesOn pass db a (decision_on pass a printer) (withheld_row a.id db.deliveries)

pub notify_alert-Steps :
    (pass : Pass) (db : Db) (a : Alert) (rule : Option AlertRule) (printer : Option Printer)
    → Steps (board_of db) (board_of (notify_alert pass db a rule printer).0)
unfolding notify_alert
notify_alert-Steps pass db a rule printer =
    let go = (decision_on pass a printer).dispatch in
    WritesOn-Steps a.id db (notify_if go pass db a rule printer).0
      (notify_if-WritesOn go pass db a rule printer)

pub with_detail-Steps :
    (settings : Settings) (live : Alert) (detail : Detail) (cap : Option ℕ) (db : Db)
    → Steps (board_of db) (board_of (with_detail settings live detail cap db))
with_detail-Steps settings live detail cap db =
    before (writes live.id (worded _) (worded-Writes _) refl) done
