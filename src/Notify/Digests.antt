-- ===== src/Notify/Digests.antt =====
-- central/channels/delivery.py: what `flush_deferred` makes of a held row.
use printer_nanny.Common.{
  ◌↔◌, ◌+◌, ◌&&◌, String, Bool, Option, none, some, length, select, Any, Bool-cases, arith,
  if◌then◌else◌, In-cons, ℕ, ◌≡◌, ◌≢◌, refl, sym, ap, ◌∙◌, ◌⊎◌, inl, inr, true, false, List, [],
  ◌∷◌, map, All, In,
}
use mathlib.Core.Path.{subst}
use printer_nanny.Delivery.{
  DeliveryStatus, unrouted, resolved_while_held, nothing_sent, ChannelResult,
}
use printer_nanny.Notify.{
  Message, digest, unrouted_key, channel_key, Channel, NotificationDelivery, Alert, Db,
  alert_resolved,
}
use printer_nanny.Notify.Entries.{is_entry, is_dropped, IsNamed}
use printer_nanny.Notify.Sending.{dispatch}
use printer_nanny.Notify.Owed.{with_row}
use printer_nanny.Notify.Deferred.{digest_note, client_of}
use printer_nanny.Notify.Flush.{details, sent_any, write_rows}
use printer_nanny.Notify.Rows.{IsDistinct, same_row, put_row-others, put_row-written}
use printer_nanny.Notify.Restamps.{same_or_other}

-- The digest of a client: its rows that are held and not resolved, the number of those that are
-- resolved, and its name.
abbrev pub client_digest :
    List Alert
    → List NotificationDelivery
    → Option ℕ
    → Option String
    → List NotificationDelivery
    → Message
client_digest alerts held client name entries = digest (
    digest_note (map (λ r. r.payload) entries) (length (select (is_dropped alerts client) held))
      name)

-- A channel took what it was given: it sent it, and that went well.
abbrev pub IsTaken : String × ChannelResult → Type 0
IsTaken (name, result) = (result.ok ≡ true) × (result.sent ≡ true)

-- The row before, and after; `held` are the held rows whose window has closed.
pub data HeldFate (channels : List Channel) (alerts : List Alert) (held : List NotificationDelivery)
    : NotificationDelivery → NotificationDelivery → Type 0 where
  resolved_held :
      {d : NotificationDelivery}
      → alert_resolved alerts d ≡ true
      → HeldFate channels alerts held d (record d {
        status = DeliveryStatus.dead;
        last_error = some resolved_while_held;
        next_attempt_at = none;
      })
  handed_over :
      {d : NotificationDelivery}
      → alert_resolved alerts d ≡ false
      → channels ≡ []
      → HeldFate channels alerts held d (record d {
        key = unrouted_key;
        status = DeliveryStatus.pending;
        last_error = some unrouted;
        next_attempt_at = none;
      })
  in_digest :
      {d : NotificationDelivery} (c : Channel) (cs : List Channel) (first : NotificationDelivery)
      (rest : List NotificationDelivery) (name : Option String)
      (results : List (String × ChannelResult))
      → alert_resolved alerts d ≡ false
      → channels ≡ c ∷ cs
      → first ∷ rest ≡ select (is_entry alerts (client_of alerts d).0) held
      → IsNamed alerts held (client_of alerts d).0 name
      → results
        ≡ dispatch first.id
            (client_digest alerts held (client_of alerts d).0 name (first ∷ rest))
            (c ∷ cs)
      → (sent : Bool) → (sent ≡ true) ↔ Any IsTaken results
      → HeldFate channels alerts held d (record d {
        attempts = d.attempts + 1;
        key = channel_key c.name;
        status = if sent then DeliveryStatus.delivered else DeliveryStatus.skipped;
        last_error = if sent then none else some (nothing_sent (details results));
        next_attempt_at = none;
      })

pub sent_any-IsTaken :
    (results : List (String × ChannelResult)) → (sent_any results ≡ true) ↔ Any IsTaken results
unfolding sent_any
sent_any-IsTaken [] = (λ h. ground arith, λ h. absurd h)
sent_any-IsTaken ((name, result) ∷ results) =
    let (f, g) = sent_any-IsTaken results in
    (
      λ h. elim (Bool-cases (result.ok && result.sent)) [
        | inl y ↦ inl (ground arith, ground arith)
        | inr n ↦ inr (f (ground arith))
      ],
      λ h. elim h [ inl t ↦ ground arith | inr later ↦ let rest = g later in ground arith ],
    )

module _ (channels : List Channel) (alerts : List Alert)
    (table held : List NotificationDelivery) where
  -- The row has met its fate.
  abbrev pub Settled : NotificationDelivery → Db → Type 0
  Settled d db =
      (after : NotificationDelivery) × In after db.deliveries
      × (after.id ≡ d.id)
      × HeldFate channels alerts held d after

  abbrev pub Stage : NotificationDelivery → Db → Type 0
  Stage d db = In d db.deliveries ⊎ Settled d db

  -- A row of the table that is written as its fate says.
  abbrev pub IsWritten :
      (NotificationDelivery → NotificationDelivery) → NotificationDelivery → Type 0
  IsWritten change y =
      In y table × ((change y).id ≡ y.id) × HeldFate channels alerts held y (change y)

  -- The row that stands for `d`, whichever it is.
  current :
      (d : NotificationDelivery) (db : Db)
      → Stage d db
      → (cur : NotificationDelivery) × In cur db.deliveries × (cur.id ≡ d.id)
  current d db (inl m) = (d, m, refl)
  current d db (inr (after, m, e, _)) = (after, m, e)

  pub written-Settled :
      (change : NotificationDelivery → NotificationDelivery) (d : NotificationDelivery) (db : Db)
      → IsWritten change d
      → Stage d db
      → Settled d (with_row db (change d))
  written-Settled change d db (m, same, fate) stage =
      let (cur, at, e) = current d db stage in
      (change d, put_row-written (change d) cur db.deliveries at (e ∙ sym same), same, fate)

  pub others-Stage :
      (e d : NotificationDelivery) (db : Db) → d.id ≢ e.id → Stage d db → Stage d (with_row db e)
  others-Stage e d db ne (inl m) = inl (put_row-others e d db.deliveries m ne)
  others-Stage e d db ne (inr (after, m, same, fate)) =
      inr (after, put_row-others e after db.deliveries m (λ eq. ne (sym same ∙ eq)), same, fate)

  pub others-Settled :
      (e d : NotificationDelivery) (db : Db)
      → d.id ≢ e.id
      → Settled d db
      → Settled d (with_row db e)
  others-Settled e d db ne (after, m, same, fate) =
      (after, put_row-others e after db.deliveries m (λ eq. ne (sym same ∙ eq)), same, fate)

  module _ (d : NotificationDelivery) (distinct : IsDistinct table) (at : In d table) where
    -- A row that was settled stays settled, whatever is written.
    write_row-Settled :
        (change : NotificationDelivery → NotificationDelivery) (y : NotificationDelivery) (db : Db)
        → IsWritten change y
        → Settled d db
        → Settled d (with_row db (change y))
    write_row-Settled change y db w settled = elim (same_or_other d.id y.id) [
      | inl same ↦
          let is_y = same_row table d y distinct at w.0 same in
          subst (λ z. Settled d (with_row db (change z))) is_y
            (written-Settled change d db (subst (IsWritten change) (sym is_y) w) (inr settled))
      | inr ne ↦ others-Settled (change y) d db (λ e. ne (e ∙ w.1)) settled
    ]

    write_rows-Settled :
        (change : NotificationDelivery → NotificationDelivery) (rows : List NotificationDelivery)
        (db : Db)
        → All (IsWritten change) rows
        → Settled d db
        → Settled d (write_rows change db rows)
    unfolding write_rows
    write_rows-Settled change [] db h settled = settled
    write_rows-Settled change (y ∷ rows) db h settled =
        write_rows-Settled change rows (with_row db (change y)) h.1
          (write_row-Settled change y db h.0 settled)

    -- And one of the rows that are written is settled by it.
    write_rows-Stage :
        (change : NotificationDelivery → NotificationDelivery) (rows : List NotificationDelivery)
        (db : Db)
        → All (IsWritten change) rows
        → Stage d db
        → (In d rows → Settled d (write_rows change db rows)) × Stage d (write_rows change db rows)
    unfolding write_rows
    write_rows-Stage change [] db h stage = ((λ m. elim m [ ]), stage)
    write_rows-Stage change (y ∷ rows) db h stage = elim (same_or_other d.id y.id) [
      | inl same ↦
          let is_y = same_row table d y distinct at h.0.0 same in
          let settled =
            subst (λ z. Settled d (with_row db (change z))) is_y
              (written-Settled change d db (subst (IsWritten change) (sym is_y) h.0) stage) in
          let all = write_rows-Settled change rows (with_row db (change y)) h.1 settled in
          ((λ m. all), inr all)
      | inr ne ↦
          let (ih, later) =
            write_rows-Stage change rows (with_row db (change y)) h.1
              (others-Stage (change y) d db (λ e. ne (e ∙ h.0.1)) stage) in
          (
            (λ m. elim (In-cons m) [ inl is_y ↦ absurd (ne (ap (λ z. z.id) is_y)) | inr n ↦ ih n ]),
            later,
          )
    ]

    -- A part of the flush that settles the row where `Q` holds, and never unsettles it.
    pub record IsCarrying (Q : Type 0) (db db' : Db) : Type 0 where
      pub keeps : Settled d db → Settled d db'
      pub stays : Stage d db → Stage d db'
      pub settles : Stage d db → Q → Settled d db'

    pub write_rows-IsCarrying :
        (change : NotificationDelivery → NotificationDelivery) (rows : List NotificationDelivery)
        (db : Db)
        → All (IsWritten change) rows
        → IsCarrying (In d rows) db (write_rows change db rows)
    write_rows-IsCarrying change rows db h = record {
      keeps = write_rows-Settled change rows db h;
      stays = λ stage. (write_rows-Stage change rows db h stage).1;
      settles = λ stage m. (write_rows-Stage change rows db h stage).0 m;
    }
