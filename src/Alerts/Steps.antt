-- ===== src/Alerts/Steps.antt =====
-- central/worker/jobs.py: the life of alerts as a relation of steps, which the passes refine.
use printer_nanny.Common.{ℕ, suc, ◌≡◌, Bool, true, false, List, [], ◌∷◌, ◌++◌, In}
use printer_nanny.Alerts.{
  Alert, Transition, alert_opened, alert_resolved, Db, is_live, update_alert, emit,
}
use printer_nanny.Alerts.Rows.{count_live}

-- What the life of the alerts is about.
pub record Board : Type 0 where
  pub alerts : List Alert
  pub next : ℕ
  pub outbox : List Transition

abbrev pub board_of : Db → Board
board_of db = record { alerts = db.alerts; next = db.next_alert; outbox = db.outbox }

-- A change of one row that keeps what the row is, and makes it live or not, with a new flap count.
pub record Turns (f : Alert → Alert) (live : Bool) (flaps : ℕ → ℕ) : Type 0 where
  pub same_id : (x : Alert) → (f x).id ≡ x.id
  pub same_key : (x : Alert) → (f x).dedupe_key ≡ x.dedupe_key
  pub same_type : (x : Alert) → (f x).type ≡ x.type
  pub turned : (x : Alert) → is_live (f x) ≡ live
  pub flapped : (x : Alert) → (f x).flap_count ≡ flaps x.flap_count

-- A change of what is only shown.
pub record Writes (f : Alert → Alert) : Type 0 where
  pub same_id : (x : Alert) → (f x).id ≡ x.id
  pub same_key : (x : Alert) → (f x).dedupe_key ≡ x.dedupe_key
  pub same_type : (x : Alert) → (f x).type ≡ x.type
  pub same_life : (x : Alert) → is_live (f x) ≡ is_live x
  pub same_flaps : (x : Alert) → (f x).flap_count ≡ x.flap_count

pub data Step (b c : Board) : Type 0 where
  opens :
      (a : Alert)
      → a.id ≡ b.next
      → a.flap_count ≡ 0
      → is_live a ≡ true
      → count_live a.dedupe_key b.alerts ≡ 0
      → c ≡ record {
        alerts = b.alerts ++ (a ∷ []);
        next = suc b.next;
        outbox = emit (alert_opened b.next 0) b.outbox;
      }
      → Step b c
  reopens :
      (a : Alert) (f : Alert → Alert)
      → In a b.alerts
      → is_live a ≡ false
      → count_live a.dedupe_key b.alerts ≡ 0
      → Turns f true suc
      → c ≡ record b {
        alerts = update_alert a.id f b.alerts;
        outbox = emit (alert_opened a.id (suc a.flap_count)) b.outbox;
      }
      → Step b c
  closes :
      (a : Alert) (f : Alert → Alert)
      → In a b.alerts
      → is_live a ≡ true
      → Turns f false (λ n. n)
      → c ≡ record b {
        alerts = update_alert a.id f b.alerts;
        outbox = emit (alert_resolved a.id a.flap_count) b.outbox;
      }
      → Step b c
  writes :
      (id : ℕ) (f : Alert → Alert)
      → Writes f
      → c ≡ record b { alerts = update_alert id f b.alerts }
      → Step b c

pub data Steps : Board → Board → Type 0 where
  done : {b : Board} → Steps b b
  before : {b c d : Board} → Step b c → Steps c d → Steps b d

pub Steps-append : {b c d : Board} → Steps b c → Steps c d → Steps b d
Steps-append done t = t
Steps-append (before s r) t = before s (Steps-append r t)
