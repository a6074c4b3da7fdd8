-- ===== src/Notification/Invariant.antt =====
-- What notification-service keeps over its deliveries (services/notification-service/).
use url_shortener_microservi.Prelude.{
  ◌≤◌, ◌≡◌, inl, inr, refl, sym, ap, subst, true, false, ◌||◌, Text, List, [], ◌∷◌, ◌++◌, length,
  length-append, some_of, All, All-append, Option, none, some, text_eq, is_empty, if-skips,
  if-splits, none-ne-some, some-injective, arith,
}
use url_shortener_microservi.Events.{url_created, url_deleted, milestone_reached, type_name}
use url_shortener_microservi.Notification.{
  Notification, NotificationRecord, Draws, Email, Inserted, sent, insert_notification,
}
use url_shortener_microservi.Notification.Written.{
  sent_row, Outcome, fails, commits, insert_notification-Outcome,
}
use url_shortener_microservi.Notification.Consumer.{
  notification_routing_keys, parse_event_id, for_event, Unmarshal, Delivery, notification_from,
  notification_by_key, notification_from_delivery, acked, requeued, Processed, answered,
  process_record, process_delivery,
}

-- The two answers to a delivery whose record is `rec`, and to one that has none.
pub data Answer (d : Draws) (before : List Notification)
    : Option NotificationRecord → Processed → Type 0 where
  discards :
      {p : Processed}
      → p.acknowledgement ≡ acked
      → p.rows ≡ before
      → p.emails ≡ []
      → Answer d before none p
  retries :
      {rec : NotificationRecord} {p : Processed}
      → p.acknowledgement ≡ requeued
      → p.rows ≡ before
      → Answer d before (some rec) p
  notifies :
      {rec : NotificationRecord} {p : Processed}
      → p.acknowledgement ≡ acked
      → p.rows ≡ before ++ (sent_row d rec ∷ [])
      → p.emails ≡ (rec.user_email, rec.event_type) ∷ []
      → Answer d before (some rec) p

answered-Answer :
    (d : Draws) (rec : NotificationRecord) (before : List Notification) (i : Inserted)
    → Outcome d rec before i
    → Answer d before (some rec) (answered i)
unfolding answered
answered-Answer d rec before i (fails n rows) = rw (n) (retries refl rows)
answered-Answer d rec before i (commits n same fresh rows emails) =
    rw (same) (notifies refl rows emails)

process_record-Answer :
    (d : Draws) (rows : List Notification) (rec : Option NotificationRecord)
    → Answer d rows rec (process_record d rows rec)
unfolding process_record
process_record-Answer d rows none = discards refl refl refl
process_record-Answer d rows (some rec) =
    answered-Answer d rec rows (insert_notification d rec rows)
      (insert_notification-Outcome d rec rows)

-- A delivery is either acknowledged without a row or an email, if it has no valid notification; or it
-- is put back and the table stays; or it is acknowledged, with exactly one new row, which is sent, and
-- exactly one email.
pub process_delivery-Answer :
    (u : Unmarshal) (d : Draws) (delivery : Delivery) (rows : List Notification)
    → Answer d rows (notification_from_delivery u delivery) (process_delivery u d delivery rows)
unfolding process_delivery
process_delivery-Answer u d delivery rows =
    process_record-Answer d rows (notification_from_delivery u delivery)

-- A record that the consumer makes.
pub record IsValid (rec : NotificationRecord) : Type 0 where
  pub user : is_empty rec.user_id ≡ false
  pub email : is_empty rec.user_email ≡ false
  pub key : some_of (text_eq rec.event_type) notification_routing_keys ≡ true

notification_from-IsValid :
    (user : Option (Text × Text)) (body key : Text) (rec : NotificationRecord)
    → some_of (text_eq key) notification_routing_keys ≡ true
    → notification_from user body key ≡ some rec
    → IsValid rec
unfolding notification_from
notification_from-IsValid none body key rec k h = cc
notification_from-IsValid (some (user, email)) body key rec k h =
    let (valid, same) = if-skips (is_empty user || is_empty email) none-ne-some h in
    subst IsValid (some-injective same)
      (record { user = ground arith; email = ground arith; key = k })

notification_by_key-IsValid :
    (u : Unmarshal) (key body : Text) (rec : NotificationRecord)
    → notification_by_key u key body ≡ some rec
    → IsValid rec
unfolding notification_by_key notification_routing_keys some_of
notification_by_key-IsValid u key body rec h =
    elim (if-splits (text_eq key (type_name url_created)) h) [
      | inl (is, e) ↦ notification_from-IsValid (u.created body) body key rec (ground arith) e
      | inr (is_not, rest) ↦ elim (if-splits (text_eq key (type_name url_deleted)) rest) [
        | inl (is, e) ↦ notification_from-IsValid (u.deleted body) body key rec (ground arith) e
        | inr (is_not_either, last) ↦
            elim (if-splits (text_eq key (type_name milestone_reached)) last) [
              | inl (is, e) ↦
                  notification_from-IsValid (u.milestone body) body key rec (ground arith) e
              | inr (none_of_them, e) ↦ absurd (none-ne-some e)
            ]
      ]
    ]

for_event-IsValid :
    (u : Unmarshal) (d : Delivery) (id : Option Text) (rec : NotificationRecord)
    → for_event u d id ≡ some rec
    → IsValid rec
unfolding for_event
for_event-IsValid u d none rec h = cc
for_event-IsValid u d (some id) rec h = notification_by_key-IsValid u d.routing_key d.body rec h

notification_from_delivery-IsValid :
    (u : Unmarshal) (d : Delivery) (rec : NotificationRecord)
    → notification_from_delivery u d ≡ some rec
    → IsValid rec
unfolding notification_from_delivery
notification_from_delivery-IsValid u d rec h = for_event-IsValid u d (parse_event_id u d.body) rec h

-- The table and all emails that were sent.
pub record Mailbox : Type 0 where
  pub rows : List Notification
  pub emails : List Email

pub record Received : Type 0 where
  pub draws : Draws
  pub delivery : Delivery

unfoldable pub deliver : Unmarshal → Mailbox → Received → Mailbox
deliver u m r =
    let p = process_delivery u r.draws r.delivery m.rows in
    record { rows = p.rows; emails = m.emails ++ p.emails }

-- The loop of Run over the deliveries.
unfoldable pub consume : Unmarshal → Mailbox → List Received → Mailbox
consume u m [] = m
consume u m (r ∷ rs) = consume u (deliver u m r) rs

-- A committed row.
pub record IsSent (n : Notification) : Type 0 where
  pub status : n.status ≡ sent
  pub sent_at : n.sent_at ≡ some n.created_at
  pub user : is_empty n.user_id ≡ false
  pub key : some_of (text_eq n.event_type) notification_routing_keys ≡ true

pub record IsDelivered (m : Mailbox) : Type 0 where
  pub sent : All IsSent m.rows
  pub emailed : length m.rows ≤ length m.emails

Answer-IsDelivered :
    (d : Draws) (m : Mailbox) (rec : Option NotificationRecord) (p : Processed)
    → ((r : NotificationRecord) → rec ≡ some r → IsValid r)
    → IsDelivered m
    → Answer d m.rows rec p
    → IsDelivered (record { rows = p.rows; emails = m.emails ++ p.emails })
Answer-IsDelivered d m none p v s (discards a rows emails) = record {
  sent = subst (All IsSent) (sym rows) s.sent;
  emailed = omega (arith, length-append m.emails p.emails, ap length rows);
}
Answer-IsDelivered d m (some rec) p v s (retries a rows) = record {
  sent = subst (All IsSent) (sym rows) s.sent;
  emailed = omega (arith, length-append m.emails p.emails, ap length rows);
}
Answer-IsDelivered d m (some rec) p v s (notifies a rows emails) =
    let valid = v rec refl in
    record {
      sent = subst (All IsSent) (sym rows) (
          All-append IsSent m.rows (sent_row d rec ∷ []) s.sent
            (record { status = refl; sent_at = refl; user = valid.user; key = valid.key }, tt));
      emailed = omega (
        arith,
        length-append m.emails p.emails,
        ap length rows,
        ap length emails,
        length-append m.rows (sent_row d rec ∷ []),
      );
    }

deliver-IsDelivered :
    (u : Unmarshal) (m : Mailbox) (r : Received) → IsDelivered m → IsDelivered (deliver u m r)
unfolding deliver
deliver-IsDelivered u m r s =
    Answer-IsDelivered r.draws m (notification_from_delivery u r.delivery) _
      (notification_from_delivery-IsValid u r.delivery) s
      (process_delivery-Answer u r.draws r.delivery m.rows)

-- Whatever is delivered, with whatever errors of the database: every row of the table is sent, at the
-- time of its creation, has a user and one of the three routing keys of the queue, and there are at
-- least as many emails as rows; if it was so before.
pub consume-IsDelivered :
    (u : Unmarshal) (m : Mailbox) (rs : List Received)
    → IsDelivered m
    → IsDelivered (consume u m rs)
unfolding consume
consume-IsDelivered u m [] s = s
consume-IsDelivered u m (r ∷ rs) s =
    consume-IsDelivered u (deliver u m r) rs (deliver-IsDelivered u m r s)
