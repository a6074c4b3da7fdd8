-- ===== src/Notification/Consumer.antt =====
-- The consumer of services/notification-service/consumer.go and the bindings of its queue
-- (services/notification-service/rabbitmq.go). It takes one delivery at a time (Qos 1).
use url_shortener_microservi.Prelude.{
  ◌||◌, Text, List, [], ◌∷◌, Option, none, some, text_eq, is_empty, if◌then◌else◌,
}
use url_shortener_microservi.Events.{url_created, url_deleted, milestone_reached, type_name}
use url_shortener_microservi.Notification.{
  Notification, NotificationRecord, Draws, Email, Inserted, insert_notification,
}

-- notificationRoutingKeys
unfoldable pub notification_routing_keys : List Text
unfolding type_name
notification_routing_keys =
    type_name url_created ∷ type_name url_deleted ∷ type_name milestone_reached ∷ []

-- What json.Unmarshal reads from a body: the event_id for BaseEvent, and the user_id and user_email for
-- each of the three events; `none` is an error.
pub record Unmarshal : Type 0 where
  pub event_id : Text → Option Text
  pub created : Text → Option (Text × Text)
  pub deleted : Text → Option (Text × Text)
  pub milestone : Text → Option (Text × Text)

pub record Delivery : Type 0 where
  pub routing_key : Text
  pub body : Text

-- parseEventID; an error is `none`
unfoldable pub parse_event_id : Unmarshal → Text → Option Text
parse_event_id u body = elim (u.event_id body) [
  | none ↦ none
  | some id ↦ if is_empty id then none else some id
]

-- notificationFromURLCreated, notificationFromURLDeleted and notificationFromMilestoneReached, on the
-- user that is read from the body
unfoldable pub notification_from : Option (Text × Text) → Text → Text → Option NotificationRecord
notification_from none body event_type = none
notification_from (some (user, email)) body event_type =
    if is_empty user || is_empty email
    then none
    else some
        (record { user_id = user; user_email = email; event_type = event_type; payload = body })

-- The switch on the routing key.
unfoldable pub notification_by_key : Unmarshal → Text → Text → Option NotificationRecord
unfolding type_name
notification_by_key u key body =
    if text_eq key (type_name url_created)
    then notification_from (u.created body) body key
    else if text_eq key (type_name url_deleted)
    then notification_from (u.deleted body) body key
    else if text_eq key (type_name milestone_reached)
    then notification_from (u.milestone body) body key
    else none

-- notificationFromDelivery after parseEventID.
unfoldable pub for_event : Unmarshal → Delivery → Option Text → Option NotificationRecord
for_event u d none = none
for_event u d (some id) = notification_by_key u d.routing_key d.body

-- notificationFromDelivery; `none` where it has acknowledged and discarded the delivery
unfoldable pub notification_from_delivery : Unmarshal → Delivery → Option NotificationRecord
notification_from_delivery u d = for_event u d (parse_event_id u d.body)

pub data Acknowledgement : Type 0 where
  acked requeued : Acknowledgement

pub record Processed : Type 0 where
  pub acknowledgement : Acknowledgement
  pub emails : List Email
  pub rows : List Notification

-- The answer to the broker after InsertNotification.
unfoldable pub answered : Inserted → Processed
answered i = elim i.notification [
  | none ↦ record { acknowledgement = requeued; emails = i.emails; rows = i.rows }
  | some n ↦ record { acknowledgement = acked; emails = i.emails; rows = i.rows }
]

-- processDelivery after notificationFromDelivery.
unfoldable pub process_record : Draws → List Notification → Option NotificationRecord → Processed
process_record d rows none = record { acknowledgement = acked; emails = []; rows = rows }
process_record d rows (some rec) = answered (insert_notification d rec rows)

-- processDelivery
unfoldable pub process_delivery : Unmarshal → Draws → Delivery → List Notification → Processed
process_delivery u d delivery rows = process_record d rows (notification_from_delivery u delivery)
