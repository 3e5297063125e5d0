-- ===== src/Notify/Late.antt =====
-- central/channels/delivery.py: `_fan_out_owed` and `record_dispatch`, the late dispatch of a
-- notification and the one on time.
use printer_nanny.Common.{
  ℕ, suc, ◌+◌, ◌≡◌, refl, sym, ap, ◌∙◌, inl, inr, Bool, false, Option, some, List, [], ◌∷◌, ◌++◌,
  map, length, All, max, leb, Bool-cases,
}
use printer_nanny.Delivery.{DeliveryStatus, Reason, ChannelResult, apply_result}
use printer_nanny.Notify.{
  Notification, Message, single, Channel, ChannelKey, channel_key, NotificationDelivery, Db,
  Settings, dispatch_one, fold_result, put_row,
}
use printer_nanny.Notify.Sending.{new_row, dispatch, rows_of, write_results, record_dispatch}
use printer_nanny.Notify.Owed.{
  Tally, delivered_after, has_name, targets_of, siblings, attempt, all_not_sent, rows_written,
  settle, restamp, named_results, tally_all, fan_out_to, fan_out_owed,
}

-- A row but for its id and the moment it was written.
pub record Content : Type 0 where
  pub alert_id : Option ℕ
  pub key : ChannelKey
  pub status : DeliveryStatus
  pub attempts : ℕ
  pub last_error : Option Reason
  pub next_attempt_at : Option ℕ
  pub payload : Notification

unfoldable pub content : NotificationDelivery → Content
content d = record {
  alert_id = d.alert_id;
  key = d.key;
  status = d.status;
  attempts = d.attempts;
  last_error = d.last_error;
  next_attempt_at = d.next_attempt_at;
  payload = d.payload;
}

-- What a channel answers does not depend on the row that is attempted.
abbrev pub IsSteady : Channel → Type 0
IsSteady c = (i j : ℕ) (m : Message) → c.send i m ≡ c.send j m

dispatch_one-steady :
    (c : Channel) (i j : ℕ) (m : Message) → IsSteady c → dispatch_one c i m ≡ dispatch_one c j m
unfolding dispatch_one
dispatch_one-steady c i j m steady = rw (steady i j m) refl

all_targets : (channels : List Channel) → targets_of channels [] ≡ channels
unfolding has_name
all_targets [] = refl
all_targets (c ∷ channels) = ap (λ l. c ∷ l) (all_targets channels)

row_of : Option ℕ → ChannelKey → ℕ → Notification → NotificationDelivery
row_of alert_id key attempts payload = record (new_row alert_id key payload 0 0) {
  attempts = attempts;
}

-- What a result makes of a row depends on its alert, key, attempts and payload alone.
fold_result-row_of :
    (settings : Settings) (now : ℕ) (d : NotificationDelivery) (r : ChannelResult)
    → content (fold_result settings now d r)
      ≡ content (fold_result settings now (row_of d.alert_id d.key d.attempts d.payload) r)
unfolding content fold_result apply_result row_of
fold_result-row_of settings now d r = elim (Bool-cases r.ok) [
  | inl good ↦ rw good refl
  | inr bad ↦ elim (Bool-cases (leb (max 1 settings.max_attempts) (d.attempts + 1))) [
    | inl spent ↦ rw (bad, spent) refl
    | inr more ↦ rw (bad, more) refl
  ]
]

-- One attempt of a row that was never attempted, and one row of a dispatch.
attempt-content :
    (settings : Settings) (now i j k : ℕ) (d e : NotificationDelivery) (c : Channel) (m : Message)
    → IsSteady c
    → d.attempts ≡ 0
    → e ≡ record d { id = i; key = channel_key c.name }
    → content (fold_result settings now e (dispatch_one c e.id m))
      ≡ content (
          fold_result settings now
            (new_row d.alert_id (channel_key c.name) d.payload j now)
            (dispatch_one c k m))
attempt-content settings now i j k d e c m steady fresh shape =
    fold_result-row_of settings now e (dispatch_one c e.id m)
    ∙ (λ n. content (
        fold_result settings now
          (row_of (shape n).alert_id (shape n).key (shape n).attempts (shape n).payload)
          (dispatch_one-steady c e.id k m steady n)))
    ∙ ap
        (λ a. content (
          fold_result settings now (row_of d.alert_id (channel_key c.name) a d.payload)
            (dispatch_one c k m)))
        fresh
    ∙ sym (
        fold_result-row_of settings now (new_row d.alert_id (channel_key c.name) d.payload j now)
          (dispatch_one c k m))

-- The siblings of an owed row, attempted, and the rows of a dispatch.
siblings-content :
    (settings : Settings) (now : ℕ) (d : NotificationDelivery) (i j k : ℕ) (channels : List Channel)
    → All IsSteady channels
    → map content
        (rows_written (attempt settings now d.payload (siblings d now i channels) channels))
      ≡ map content
          (rows_of settings now d.alert_id d.payload j (dispatch k (single d.payload) channels))
unfolding siblings attempt rows_written rows_of dispatch
siblings-content settings now d i j k [] h = refl
siblings-content settings now d i j k (c ∷ channels) h = λ n.
    attempt-content settings now i j k (new_row d.alert_id (channel_key c.name) d.payload i now)
      (new_row d.alert_id (channel_key c.name) d.payload i now) c (single d.payload) h.0 refl refl n
    ∷ siblings-content settings now d (suc i) (suc j) (suc k) channels h.1 n

-- The attempts of an owed row and its siblings.
abbrev pub attempts_of :
    Settings
    → ℕ
    → Db
    → NotificationDelivery
    → Channel
    → List Channel
    → List (NotificationDelivery × ChannelResult)
attempts_of settings now db d c channels =
    attempt settings now d.payload
      (record d { key = channel_key c.name } ∷ siblings d now db.next_id channels) (c ∷ channels)

fan_out_alone :
    (deletes_pending : Bool) (settings : Settings) (now : ℕ) (c : Channel) (channels : List Channel)
    (flushed : List NotificationDelivery) (db : Db) (d : NotificationDelivery)
    → delivered_after flushed d.alert_id d.id ≡ []
    → fan_out_owed deletes_pending settings now (c ∷ channels) flushed db d
      ≡ settle deletes_pending now db d (c ∷ channels) (attempts_of settings now db d c channels)
unfolding fan_out_owed fan_out_to
fan_out_alone deletes_pending settings now c channels flushed db d alone =
    ap (λ l. fan_out_to deletes_pending settings now db d l (targets_of (c ∷ channels) l)) alone
    ∙ ap (λ l. fan_out_to deletes_pending settings now db d [] l) (all_targets (c ∷ channels))

settle-heard :
    (deletes_pending : Bool) (now : ℕ) (db : Db) (d : NotificationDelivery) (targets : List Channel)
    (first : NotificationDelivery × ChannelResult)
    (rest : List (NotificationDelivery × ChannelResult))
    → all_not_sent (first ∷ rest) ≡ false
    → settle deletes_pending now db d targets (first ∷ rest)
      ≡ some (
        record db {
          deliveries = put_row (first.0) db.deliveries ++ rows_written rest;
          next_id = db.next_id + length rest;
          alerts = restamp db.alerts d.alert_id (named_results targets (first ∷ rest)) now;
        },
        tally_all (first ∷ rest),
      )
unfolding settle
settle-heard deletes_pending now db d targets first rest heard = rw heard refl

-- An owed row that was never attempted, whose alert got no later delivery, fanned out to the
-- channels that are live now: where at least one result is a failure or was sent, and no channel's
-- answer depends on the row, the table keeps its rows but for the owed one, and the owed row and
-- its siblings say what the rows of a first dispatch to these channels say, but for their ids and
-- the moment they were written.
pub late_dispatch :
    (deletes_pending : Bool) (settings : Settings) (now : ℕ) (c : Channel) (channels : List Channel)
    (flushed : List NotificationDelivery) (db : Db) (d : NotificationDelivery)
    → All IsSteady (c ∷ channels)
    → d.attempts ≡ 0
    → delivered_after flushed d.alert_id d.id ≡ []
    → all_not_sent (attempts_of settings now db d c channels) ≡ false
    → (db' : Db) × (t : Tally) × (first : NotificationDelivery) × (rest : List NotificationDelivery)
      × (on_time : List NotificationDelivery) × (fan_out_owed deletes_pending settings now
            (c ∷ channels)
            flushed
            db
            d
          ≡ some (db', t))
      × (db'.deliveries ≡ put_row first db.deliveries ++ rest)
      × ((record_dispatch settings now db d.alert_id d.payload (c ∷ channels)).0.deliveries
          ≡ db.deliveries ++ on_time)
      × (first.id ≡ d.id)
      × (map content (first ∷ rest) ≡ map content on_time)
unfolding attempt rows_written record_dispatch write_results dispatch rows_of fold_result
late_dispatch deletes_pending settings now c channels flushed db d steady fresh alone heard = (
  _,
  _,
  _,
  _,
  _,
  fan_out_alone deletes_pending settings now c channels flushed db d alone
      ∙ settle-heard deletes_pending now db d (c ∷ channels) _ _ heard,
  refl,
  refl,
  refl,
  (λ n.
      attempt-content settings now d.id db.next_id db.next_id d
        (record d { key = channel_key c.name }) c (single d.payload) steady.0 fresh refl n
      ∷ siblings-content settings now d db.next_id (suc db.next_id) (suc db.next_id) channels
          steady.1 n),
)
