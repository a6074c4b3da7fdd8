-- ===== src/Events.antt =====
-- shared/events/events.go: the events that the services exchange. An event stands for its JSON text.
-- UUIDs are numbers of 128 bits, and times are nanoseconds.
use url_shortener_microservi.Prelude.{ℕ, Text, bytes, Option}

pub data EventType : Type 0 where
  url_created url_clicked url_deleted milestone_reached : EventType

pub EventType-discrete : Discrete EventType
EventType-discrete = hlevel

-- string(eventType)
unfoldable pub type_name : EventType → Text
type_name url_created = bytes "url.created"
type_name url_clicked = bytes "url.clicked"
type_name url_deleted = bytes "url.deleted"
type_name milestone_reached = bytes "milestone.reached"

pub record BaseEvent : Type 0 where
  pub event_type : Text
  pub occurred_at : ℕ
  pub correlation_id : Text
  pub event_id : ℕ

-- NewBaseEvent; the time and the UUID are the first arguments.
unfoldable pub new_base_event : ℕ → ℕ → EventType → Text → BaseEvent
unfolding type_name
new_base_event now uuid event_type correlation_id = record {
  event_type = type_name event_type;
  occurred_at = now;
  correlation_id = correlation_id;
  event_id = uuid;
}

pub record UrlCreatedEvent : Type 0 where
  pub base : BaseEvent
  pub short_code : Text
  pub original_url : Text
  pub user_id : Text
  pub user_email : Text
  pub expires_at : Option ℕ

pub record UrlClickedEvent : Type 0 where
  pub base : BaseEvent
  pub short_code : Text
  pub user_id : Text
  pub user_email : Text
  pub ip_hash : Text
  pub user_agent : Text
  pub referer : Text
  pub clicked_at : ℕ

pub record UrlDeletedEvent : Type 0 where
  pub base : BaseEvent
  pub short_code : Text
  pub user_id : Text
  pub user_email : Text

pub record MilestoneReachedEvent : Type 0 where
  pub base : BaseEvent
  pub short_code : Text
  pub user_id : Text
  pub user_email : Text
  pub milestone_n : ℕ
  pub total_clicks : ℕ

-- The JSON text of an event of one of the four types.
pub data Payload : Type 0 where
  created : UrlCreatedEvent → Payload
  clicked : UrlClickedEvent → Payload
  deleted : UrlDeletedEvent → Payload
  milestone : MilestoneReachedEvent → Payload
