-- ===== src/Notify/Handled.antt =====
-- central/channels/delivery.py: each branch of the handling of one due row ends in a fate.
use printer_nanny.Common.{
  All, Any, Bool-cases, false-ne-true, some-injective, none-ne-some, In-left, ℕ, ◌-◌, ◌≤◌, ◌≡◌, ◌≢◌,
  refl, sym, ap, ◌∙◌, inl, inr, String, Bool, true, false, not, Option, none, some, List, [], ◌∷◌,
  ◌++◌, ◌||◌, ◌&&◌, if-cases, and-true, not-true, ltb→lt, In, ltb, arith,
}
use mathlib.Core.Path.{subst}
use printer_nanny.Delivery.{ChannelResult, gave_up}
use printer_nanny.Notify.{
  single, Channel, ChannelKey, unrouted_key, withheld_key, channel_key, NotificationDelivery, Alert,
  Db, AuditEntry, Settings, dispatch_one, fold_result, close, is_due, alert_resolved, put_row,
}
use printer_nanny.Notify.Owed.{
  Tally, unrouted_give_up, delivered_after, targets_of, attempt, all_not_sent, rows_written,
  restamp, with_row, wait_or_give_up, owed_again, settle, fan_out_to, fan_out_owed, siblings,
  is_nil,
}
use printer_nanny.Notify.Targets.{IsTargets, targets_of-IsTargets}
use printer_nanny.Notify.Answers.{StaysSilent, Responds, siblings-silent, siblings-heard}
use printer_nanny.Notify.Wanted.{found_channel}
use printer_nanny.Notify.Retry.{is_wanted, find_channel, send_to, send_by_key, handle}
use printer_nanny.Notify.Fates.{
  IsWaiting, Fate, resolved, attempted, routed, waiting, given_up, superseded_by, still_owed,
  find_channel-In,
}
use printer_nanny.Notify.Restamps.{restamp-resolved}
use printer_nanny.Notify.Rows.{put_row-others, put_row-written}

ltb-ge : (a b : ℕ) → ltb a b ≡ false → b ≤ a
ltb-ge a b h = ground arith

talks :
    (answer : ChannelResult) (rest : Bool)
    → ((answer.ok && not answer.sent) && rest) ≡ false
    → rest ≡ true
    → answer.ok ≡ true
    → answer.sent ≡ false
    → ⊥
talks answer rest h all is_ok unsent = ground arith

module _ (settings : Settings) (channels : List Channel) (now : ℕ)
    (table rows : List NotificationDelivery) (alerts : List Alert) where
  -- What handling the row `d` does to the tables.
  pub record IsStep (d : NotificationDelivery) (db db' : Db) : Type 0 where
    pub after : NotificationDelivery
    pub stands : In after db'.deliveries
    pub same_id : after.id ≡ d.id
    pub fate : Fate settings channels now table rows alerts d after
    pub others : (x : NotificationDelivery) → In x db.deliveries → x.id ≢ d.id → In x db'.deliveries
    pub resolves :
        (x : NotificationDelivery) → alert_resolved db'.alerts x ≡ alert_resolved db.alerts x

  rewritten :
      (d e : NotificationDelivery) (db : Db)
      → In d db.deliveries
      → e.id ≡ d.id
      → Fate settings channels now table rows alerts d e
      → IsStep d db (with_row db e)
  rewritten d e db m same f = record {
    after = e;
    stands = put_row-written e d db.deliveries m (sym same);
    same_id = same;
    fate = f;
    others = λ x n ne. put_row-others e x db.deliveries n (λ eq. ne (eq ∙ same));
    resolves = λ x. refl;
  }

  -- The table with the first row rewritten, and siblings behind it.
  fanned_out :
      (d e : NotificationDelivery) (db : Db) (new : List NotificationDelivery) (next : ℕ)
      (results : List (String × ChannelResult))
      → In d db.deliveries
      → e.id ≡ d.id
      → Fate settings channels now table rows alerts d e
      → IsStep d db (record db {
        deliveries = put_row e db.deliveries ++ new;
        next_id = next;
        alerts = restamp db.alerts d.alert_id results now;
      })
  fanned_out d e db new next results m same f = record {
    after = e;
    stands = In-left new (put_row-written e d db.deliveries m (sym same));
    same_id = same;
    fate = f;
    others = λ x n ne. In-left new (put_row-others e x db.deliveries n (λ eq. ne (eq ∙ same)));
    resolves = λ x. restamp-resolved db.alerts d.alert_id results now x;
  }

  audited :
      (d : NotificationDelivery) (db db' : Db) (entries : List AuditEntry)
      → IsStep d db db'
      → IsStep d db (record db' { audit = entries })
  audited d db db' entries s = record {
    after = s.after;
    stands = s.stands;
    same_id = s.same_id;
    fate = s.fate;
    others = s.others;
    resolves = s.resolves;
  }

  module _ (deletes_pending : Bool) (db : Db) (d : NotificationDelivery) where
    -- The results of an owed row's targets, the first of which is `c`.
    settle-IsStep :
        (c : Channel) (targets : List Channel) (rest : List (NotificationDelivery × ChannelResult))
        (db' : Db) (t : Tally)
        → In d db.deliveries
        → IsWaiting now alerts d
        → d.key ≡ unrouted_key
        → IsTargets rows d channels (c ∷ targets)
        → (all_not_sent rest ≡ true → All (StaysSilent d.payload) targets)
        → (all_not_sent rest ≡ false → Any (Responds d.payload) targets)
        → settle deletes_pending now db d (c ∷ targets) (
            (
              fold_result settings now
                  (record d { key = channel_key c.name })
                  (dispatch_one c d.id (single d.payload)),
              dispatch_one c d.id (single d.payload),
            )
            ∷ rest)
          ≡ some (db', t)
        → IsStep d db db'
    unfolding settle all_not_sent fold_result owed_again
    settle-IsStep c targets rest db' t m due key at silent heard h =
        let answer = dispatch_one c d.id (single d.payload) in
        elim (if-cases ((answer.ok && not answer.sent) && all_not_sent rest) h) [
          | inl (quiet, e) ↦
              let (q, all) = and-true (answer.ok && not answer.sent) (all_not_sent rest) quiet in
              let (is_ok, unsent) = and-true answer.ok (not answer.sent) q in
              elim (if-cases (is_nil rest || deletes_pending) e) [
                | inl (_, f) ↦ subst (IsStep d db) (ap (λ p. p.0) (some-injective f)) (
                    rewritten d (owed_again now d) db m refl (
                      still_owed c targets due key at (is_ok, not-true answer.sent unsent)
                        (silent all)))
                | inr (_, f) ↦ absurd (none-ne-some f)
              ]
          | inr (loud, e) ↦ subst (IsStep d db) (ap (λ p. p.0) (some-injective e)) (
              fanned_out d _ db (rows_written rest) _ _ m refl (
                routed c targets due key at (elim (Bool-cases (all_not_sent rest)) [
                  | inl all ↦ inl (λ q. talks answer (all_not_sent rest) loud all q.0 q.1)
                  | inr some_heard ↦ inr (heard some_heard)
                ])))
        ]

    wait-IsStep :
        (db' : Db) (t : Tally)
        → In d db.deliveries
        → IsWaiting now alerts d
        → d.key ≡ unrouted_key
        → channels ≡ []
        → wait_or_give_up now db d ≡ (db', t)
        → IsStep d db db'
    unfolding wait_or_give_up close
    wait-IsStep db' t m due key none_at h =
        elim (if-cases (ltb (now - d.created_at) unrouted_give_up) h) [
          | inl (young, e) ↦ subst (IsStep d db) (ap (λ p. p.0) e) (
              rewritten d (record d { next_attempt_at = some now }) db m refl
                (waiting due key none_at (ltb→lt _ _ young)))
          | inr (old, e) ↦ subst (IsStep d db) (ap (λ p. p.0) e) (
              audited d db _ _ (
                rewritten d (close gave_up d) db m refl
                  (given_up due key none_at (ltb-ge (now - d.created_at) unrouted_give_up old))))
        ]

    -- An owed row, over the rows that the queries of the cycle read.
    fan_out_to-IsStep :
        (c : Channel) (more targets : List Channel) (db' : Db) (t : Tally)
        → channels ≡ c ∷ more
        → In d db.deliveries
        → IsWaiting now alerts d
        → d.key ≡ unrouted_key
        → IsTargets rows d channels targets
        → fan_out_to deletes_pending settings now db d
            (delivered_after rows d.alert_id d.id)
            targets
          ≡ some (db', t)
        → IsStep d db db'
    unfolding fan_out_to attempt close
    fan_out_to-IsStep c more [] db' t live m due key all h =
        subst (IsStep d db) (ap (λ p. p.0) (some-injective h))
          (rewritten d _ db m refl (superseded_by c more _ due key live all refl))
    fan_out_to-IsStep c more (x ∷ targets) db' t live m due key all h =
        settle-IsStep x targets
          (attempt settings now d.payload (siblings d now db.next_id targets) targets) db' t m due
          key all (siblings-silent settings now db.next_id d targets)
          (siblings-heard settings now db.next_id d targets) h

    fan_out_owed-IsStep :
        (db' : Db) (t : Tally) (live : List Channel)
        → live ≡ channels
        → In d db.deliveries
        → IsWaiting now alerts d
        → d.key ≡ unrouted_key
        → fan_out_owed deletes_pending settings now live rows db d ≡ some (db', t)
        → IsStep d db db'
    unfolding fan_out_owed
    fan_out_owed-IsStep db' t [] same m due key h =
        wait-IsStep db' t m due key (sym same) (some-injective h)
    fan_out_owed-IsStep db' t (c ∷ live) same m due key h =
        let already = delivered_after rows d.alert_id d.id in
        fan_out_to-IsStep c live (targets_of (c ∷ live) already) db' t (sym same) m due key
          (subst (λ l. IsTargets rows d l (targets_of (c ∷ live) already)) same
            (targets_of-IsTargets rows d (c ∷ live)))
          h

    send_to-IsStep :
        (db' : Db) (t : Tally) (name : String) (found : Option Channel)
        → find_channel name channels ≡ found
        → is_wanted channels (channel_key name) ≡ true
        → In d db.deliveries
        → IsWaiting now alerts d
        → d.key ≡ channel_key name
        → some (send_to settings now db d found) ≡ some (db', t)
        → IsStep d db db'
    unfolding send_to fold_result is_wanted
    send_to-IsStep db' t name none f wanted m due key h =
        absurd (false-ne-true (sym (found_channel name channels f) ∙ wanted))
    send_to-IsStep db' t name (some c) f wanted m due key h =
        let (at, named) = find_channel-In name channels c f in
        subst (IsStep d db) (ap (λ p. p.0) (some-injective h))
          (rewritten d _ db m refl (attempted c due (key ∙ ap channel_key (sym named)) at))

    send_by_key-IsStep :
        (key : ChannelKey) (db' : Db) (t : Tally)
        → d.key ≡ key
        → is_wanted channels key ≡ true
        → In d db.deliveries
        → IsWaiting now alerts d
        → send_by_key deletes_pending settings now channels rows db d key ≡ some (db', t)
        → IsStep d db db'
    unfolding send_by_key is_wanted
    send_by_key-IsStep unrouted_key db' t e wanted m due h =
        fan_out_owed-IsStep db' t channels refl m due e h
    send_by_key-IsStep withheld_key db' t e wanted m due h = absurd (false-ne-true wanted)
    send_by_key-IsStep (channel_key name) db' t e wanted m due h =
        send_to-IsStep db' t name (find_channel name channels) refl wanted m due e h

    pub handle-IsStep :
        (db' : Db) (t : Tally)
        → In d db.deliveries
        → is_due now d ≡ true
        → is_wanted channels d.key ≡ true
        → alert_resolved db.alerts d ≡ alert_resolved alerts d
        → handle deletes_pending settings now channels rows db d ≡ some (db', t)
        → IsStep d db db'
    unfolding handle close
    handle-IsStep db' t m due wanted same h = elim (if-cases (alert_resolved db.alerts d) h) [
      | inl (gone, e) ↦
          subst (IsStep d db) (ap (λ p. p.0) (some-injective e))
            (rewritten d _ db m refl (resolved due (sym same ∙ gone)))
      | inr (live, e) ↦ send_by_key-IsStep d.key db' t refl wanted m (due, sym same ∙ live) e
    ]
