-- ===== src/Notification/Redelivery.antt =====
-- A message that notification-service sees twice (services/notification-service/consumer.go, store.go).
use url_shortener_microservi.Prelude.{
  ◌≡◌, refl, ap, ◌∙◌, false, List, [], ◌∷◌, ◌++◌, some_of, some, ◌==◌, if◌then◌else◌,
}
use url_shortener_microservi.Notification.{
  Notification, NotificationRecord, Draws, insert, mark_sent, finish, insert_notification,
}
use url_shortener_microservi.Notification.Written.{sent_row, pending_row, mark_row-append}
use url_shortener_microservi.Notification.Consumer.{
  Unmarshal, Delivery, notification_from_delivery, acked, Processed, answered, process_record,
  process_delivery,
}

-- The database answers no error, and draws an id that no row has.
pub record IsHealthy (d : Draws) (rows : List Notification) : Type 0 where
  pub begins : d.begin_fails ≡ false
  pub inserts : d.insert_fails ≡ false
  pub marks : d.mark_fails ≡ false
  pub commits : d.commit_fails ≡ false
  pub fresh : some_of (λ x. x.id == d.id) rows ≡ false

-- What a delivery that is notified leaves.
abbrev pub notified : Draws → NotificationRecord → List Notification → Processed
notified d rec rows = record {
  acknowledgement = acked;
  emails = (rec.user_email, rec.event_type) ∷ [];
  rows = rows ++ (sent_row d rec ∷ []);
}

process_record-notified :
    (d : Draws) (rec : NotificationRecord) (rows : List Notification)
    → IsHealthy d rows
    → process_record d rows (some rec) ≡ notified d rec rows
unfolding process_record answered insert_notification insert finish mark_sent
process_record-notified d rec rows h =
    rw (h.begins, h.inserts, h.fresh, h.marks, h.commits, if◌then◌else◌)
      (ap
        (λ l. record {
          acknowledgement = acked;
          emails = (rec.user_email, rec.event_type) ∷ [];
          rows = l;
        })
        (mark_row-append d.id d.now rows (pending_row d rec) h.fresh refl))

-- A delivery with a valid notification is notified and acknowledged where the database answers no
-- error.
pub process_delivery-notified :
    (u : Unmarshal) (d : Draws) (delivery : Delivery) (rec : NotificationRecord)
    (rows : List Notification)
    → notification_from_delivery u delivery ≡ some rec
    → IsHealthy d rows
    → process_delivery u d delivery rows ≡ notified d rec rows
unfolding process_delivery
process_delivery-notified u d delivery rec rows valid h =
    ap (process_record d rows) valid ∙ process_record-notified d rec rows h

-- A message that comes a second time, because its acknowledgement was lost, is notified a second time:
-- the event id is not looked up, and both rows and both emails are the same but for the id and the
-- time.
pub process_delivery-duplicates :
    (u : Unmarshal) (d d' : Draws) (delivery : Delivery) (rec : NotificationRecord)
    (rows : List Notification)
    → notification_from_delivery u delivery ≡ some rec
    → IsHealthy d rows
    → IsHealthy d' (rows ++ (sent_row d rec ∷ []))
    → process_delivery u d' delivery (process_delivery u d delivery rows).rows
      ≡ notified d' rec (rows ++ (sent_row d rec ∷ []))
process_delivery-duplicates u d d' delivery rec rows valid h h' =
    ap (λ p. process_delivery u d' delivery p.rows)
      (process_delivery-notified u d delivery rec rows valid h)
    ∙ process_delivery-notified u d' delivery rec (rows ++ (sent_row d rec ∷ [])) valid h'
