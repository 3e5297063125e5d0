-- ===== src/Notify/Retry.antt =====
-- central/channels/delivery.py: `retry_due`, the sweep of each cycle, with its two bounded passes.
use printer_nanny.Common.{
  ℕ, String, Bool, true, false, ◌&&◌, ◌||◌, not, Option, none, some, List, [], ◌∷◌, length, take,
  map, ltb, leb, if◌then◌else◌, ◌==◌, str_eq, select,
}
use printer_nanny.Delivery.{resolved_first}
use printer_nanny.Notify.{
  single, Channel, ChannelKey, unrouted_key, withheld_key, channel_key, NotificationDelivery, Alert,
  Db, Settings, dispatch_one, fold_result, close, is_due, alert_resolved,
}
use printer_nanny.Notify.Owed.{
  Tally, no_tally, add_tally, tally_of, has_name, with_row, fan_out_owed,
}

abbrev pub batch_limit : ℕ
batch_limit = 200

-- `_due_order`: NULL first, then the earlier, then the smaller id.
unfoldable pub is_ahead : NotificationDelivery → NotificationDelivery → Bool
is_ahead a b = earlier a.next_attempt_at b.next_attempt_at
  where
    earlier : Option ℕ → Option ℕ → Bool
    earlier none none = leb a.id b.id
    earlier none (some _) = true
    earlier (some _) none = false
    earlier (some x) (some y) = ltb x y || ((x == y) && leb a.id b.id)

unfoldable pub insert_due :
    NotificationDelivery → List NotificationDelivery → List NotificationDelivery
insert_due d [] = d ∷ []
insert_due d (x ∷ rows) =
    let rest = insert_due d rows in if is_ahead d x then d ∷ x ∷ rows else x ∷ rest

unfoldable pub due_order : List NotificationDelivery → List NotificationDelivery
due_order [] = []
due_order (d ∷ rows) = insert_due d (due_order rows)

-- `_due_deliveries`; `wanted` is the test of the channels.
unfoldable pub due_deliveries :
    (ChannelKey → Bool) → ℕ → List NotificationDelivery → List NotificationDelivery
due_deliveries wanted now rows =
    take batch_limit (due_order (select (λ d. is_due now d && wanted d.key) rows))

abbrev pub resolved_due : List Alert → ℕ → List NotificationDelivery → List NotificationDelivery
resolved_due alerts now rows =
    take batch_limit (due_order (select (λ d. is_due now d && alert_resolved alerts d) rows))

unfoldable pub has_id : ℕ → List NotificationDelivery → Bool
has_id id [] = false
has_id id (d ∷ rows) = (d.id == id) || has_id id rows

-- `UPDATE … WHERE id IN (ids)`
unfoldable pub close_if_listed :
    List NotificationDelivery → NotificationDelivery → NotificationDelivery
close_if_listed ids d = if has_id d.id ids then close resolved_first d else d

unfoldable pub close_listed :
    List NotificationDelivery → List NotificationDelivery → List NotificationDelivery
close_listed ids [] = []
close_listed ids (d ∷ rows) = close_if_listed ids d ∷ close_listed ids rows

-- `_close_resolved_due`: the rows, and how many were closed.
unfoldable pub close_resolved_due :
    List Alert → ℕ → List NotificationDelivery → List NotificationDelivery × ℕ
close_resolved_due alerts now rows =
    let ids = resolved_due alerts now rows in (close_listed ids rows, length ids)

unfoldable pub find_channel : String → List Channel → Option Channel
find_channel name [] = none
find_channel name (c ∷ channels) =
    let rest = find_channel name channels in if str_eq c.name name then some c else rest

-- The live channels and the reserved key of an owed row.
unfoldable pub is_wanted : List Channel → ChannelKey → Bool
is_wanted channels unrouted_key = true
is_wanted channels withheld_key = false
is_wanted channels (channel_key name) = has_name name (map (λ c. c.name) channels)

unfoldable pub send_to : Settings → ℕ → Db → NotificationDelivery → Option Channel → Db × Tally
send_to settings now db d none = (db, record no_tally { skipped = 1 })
send_to settings now db d (some c) =
    let sent = fold_result settings now d (dispatch_one c d.id (single d.payload)) in
    (with_row db sent, tally_of sent.status)

unfoldable pub send_by_key :
    Bool
    → Settings
    → ℕ
    → List Channel
    → List NotificationDelivery
    → Db
    → NotificationDelivery
    → ChannelKey
    → Option (Db × Tally)
send_by_key deletes_pending settings now channels flushed db d unrouted_key =
    fan_out_owed deletes_pending settings now channels flushed db d
send_by_key deletes_pending settings now channels flushed db d withheld_key =
    some (send_to settings now db d none)
send_by_key deletes_pending settings now channels flushed db d (channel_key name) =
    some (send_to settings now db d (find_channel name channels))

-- One row of the batch.
unfoldable pub handle :
    Bool
    → Settings
    → ℕ
    → List Channel
    → List NotificationDelivery
    → Db
    → NotificationDelivery
    → Option (Db × Tally)
handle deletes_pending settings now channels flushed db d =
    if alert_resolved db.alerts d
    then some (with_row db (close resolved_first d), record no_tally { dead = 1 })
    else send_by_key deletes_pending settings now channels flushed db d d.key

-- Goes on with the tables and the counts, unless the row raised.
abbrev pub resume : Option (Db × Tally) → (Db → Tally → Option (Db × Tally)) → Option (Db × Tally)
resume none go = none
resume (some (db, tally)) go = go db tally

-- The loop over the batch; a row that raises ends it, and the caller rolls back.
unfoldable pub sweep :
    Bool
    → Settings
    → ℕ
    → List Channel
    → List NotificationDelivery
    → Db
    → Tally
    → List NotificationDelivery
    → Option (Db × Tally)
sweep deletes_pending settings now channels flushed db tally [] = some (db, tally)
sweep deletes_pending settings now channels flushed db tally (d ∷ batch) =
    resume (handle deletes_pending settings now channels flushed db d)
      (λ db' t. sweep deletes_pending settings now channels flushed db' (add_tally tally t) batch)

-- `_skipped_due_count`
unfoldable pub skipped_due_count : List Channel → List Alert → ℕ → List NotificationDelivery → ℕ
skipped_due_count channels alerts now rows = length (
    select (λ d. is_due now d && (not (is_wanted channels d.key) && not (alert_resolved alerts d)))
      rows)

unfoldable pub retry_due : Bool → Settings → List Channel → ℕ → Db → Option (Db × Tally)
retry_due deletes_pending settings channels now db =
    let (flushed, closed) = close_resolved_due db.alerts now db.deliveries in
    let waiting = skipped_due_count channels db.alerts now flushed in
    sweep deletes_pending settings now channels flushed (record db { deliveries = flushed })
      (record no_tally { dead = closed; skipped = waiting })
      (due_deliveries (is_wanted channels) now flushed)
