-- ===== src/Analytics.antt =====
-- analytics-service: the consumer of clicks (services/analytics-service/consumer.go), the milestones
-- (milestone.go) and the three tables they use (store.go), under the constraints of migration.sql.
-- The consumer takes one delivery at a time (Qos 1), so a transaction sees what was committed before.
pub mod Config
pub mod Transaction
pub mod Overlap
pub mod Counting
pub mod Answers
pub mod Milestones
pub mod Stats
use url_shortener_microservi.Prelude.{
  ℕ, Bool, true, false, not, ◌&&◌, ◌||◌, Text, List, [], ◌∷◌, ◌++◌, length, keep, some_of, Option,
  none, some, Result, ok, err, ◌>>=◌, text_eq, is_empty, ltb, ◌==◌, if◌then◌else◌,
}
use url_shortener_microservi.Events.{MilestoneReachedEvent, milestone_reached, new_base_event}

-- UrlClickedEvent as it is decoded from the body of a delivery: the id is a text, which may be empty.
pub record ClickEvent : Type 0 where
  pub event_id : Text
  pub correlation_id : Text
  pub short_code : Text
  pub user_id : Text
  pub user_email : Text
  pub ip_hash : Text
  pub user_agent : Text
  pub referer : Text
  pub clicked_at : ℕ

-- ClickRecord, a row of `clicks`; an empty referer is stored as NULL.
pub record ClickRecord : Type 0 where
  pub short_code : Text
  pub clicked_at : ℕ
  pub ip_hash : Text
  pub user_agent : Text
  pub referer : Option Text

pub record Store : Type 0 where
  pub clicks : List ClickRecord
  pub milestones : List (Text × ℕ)
  pub processed_events : List Text

-- nullString
null_string : Text → Option Text
null_string s = if is_empty s then none else some s

-- clickRecordFromEvent, with the NULL of the insertion
unfoldable pub click_record_from_event : ClickEvent → ClickRecord
unfolding null_string
click_record_from_event e = record {
  short_code = e.short_code;
  clicked_at = e.clicked_at;
  ip_hash = e.ip_hash;
  user_agent = e.user_agent;
  referer = null_string e.referer;
}

-- countClicksByCodeSQL
unfoldable pub count_by_code : Text → Store → ℕ
count_by_code code s = length (keep (λ c. text_eq c.short_code code) s.clicks)

-- pgxClickStore.Insert
unfoldable pub insert_click : ClickRecord → Store → Store
insert_click c s = record s { clicks = s.clicks ++ c ∷ [] }

-- pgxDeduplicationStore.Exists
unfoldable pub exists_event : Text → Store → Bool
exists_event id s = some_of (text_eq id) s.processed_events

-- pgxDeduplicationStore.Insert; a conflict does nothing
unfoldable pub insert_event : Text → Store → Store
insert_event id s =
    if some_of (text_eq id) s.processed_events
    then s
    else record s { processed_events = id ∷ s.processed_events }

-- pgxMilestoneStore.HasMilestone
unfoldable pub has_milestone : Text → ℕ → Store → Bool
has_milestone code n s = some_of (λ m. text_eq code m.0 && n == m.1) s.milestones

-- pgxMilestoneStore.Insert; a conflict does nothing
unfoldable pub insert_milestone : Text → ℕ → Store → Store
unfolding has_milestone
insert_milestone code n s =
    if has_milestone code n s then s else record s { milestones = (code, n) ∷ s.milestones }

-- The errors that the database answers while one delivery is processed, `true` for an error; those of
-- the milestones by their threshold. The publisher's error is only logged.
pub record Faults : Type 0 where
  pub begin : Bool
  pub exists : Bool
  pub dedup : Bool
  pub click : Bool
  pub count : Bool
  pub has_milestone : ℕ → Bool
  pub milestone : ℕ → Bool
  pub commit : Bool

-- The time and the UUID of the event of each threshold.
abbrev pub Draws : Type 0
Draws = ℕ → ℕ × ℕ

-- A transaction under way: what it has made of the store, and the events that it has published, which
-- no rollback takes back.
pub record Tx : Type 0 where
  pub store : Store
  pub published : List MilestoneReachedEvent

-- An error of a transaction leaves what it has published.
abbrev pub Fallible : Type 0
Fallible = Result (List MilestoneReachedEvent) Tx

-- newMilestoneReachedEvent
unfoldable pub new_milestone_reached_event : Draws → ClickEvent → ℕ → ℕ → MilestoneReachedEvent
new_milestone_reached_event draws e threshold total = record {
  base = new_base_event (draws threshold).0 (draws threshold).1 milestone_reached e.correlation_id;
  short_code = e.short_code;
  user_id = e.user_id;
  user_email = e.user_email;
  milestone_n = threshold;
  total_clicks = total;
}

module _ (f : Faults) (draws : Draws) (e : ClickEvent) (total : ℕ) where
  -- publishIfNewMilestone
  unfoldable pub publish_if_new_milestone : ℕ → Tx → Fallible
  publish_if_new_milestone threshold tx =
      if f.has_milestone threshold
      then err tx.published
      else if has_milestone e.short_code threshold tx.store
      then ok tx
      else if f.milestone threshold
      then err tx.published
      else ok (record {
        store = insert_milestone e.short_code threshold tx.store;
        published = tx.published ++ (new_milestone_reached_event draws e threshold total ∷ []);
      })

  -- The loop of CheckAndPublish.
  unfoldable pub check_thresholds : List ℕ → Tx → Fallible
  check_thresholds [] tx = ok tx
  check_thresholds (t ∷ ts) tx =
      (if ltb total t then ok tx else publish_if_new_milestone t tx) >>= check_thresholds ts

-- MilestoneThresholds
abbrev pub milestone_thresholds : List ℕ
milestone_thresholds = 10 ∷ 100 ∷ 1000 ∷ []

-- CheckAndPublish
unfoldable pub check_and_publish : Faults → Draws → ClickEvent → Tx → Fallible
check_and_publish f draws e tx =
    if f.count
    then err tx.published
    else check_thresholds f draws e (count_by_code e.short_code tx.store) milestone_thresholds tx

pub data Acknowledgement : Type 0 where
  acked requeued : Acknowledgement

-- What processDelivery leaves: the answer to the broker, the committed store and what was published.
pub record Processed : Type 0 where
  pub acknowledgement : Acknowledgement
  pub store : Store
  pub published : List MilestoneReachedEvent

-- The statements from the insertion of the event's id to the milestones.
unfoldable pub write_click : Faults → Draws → ClickEvent → Store → Fallible
write_click f draws e s =
    if f.dedup
    then err []
    else if f.click
    then err []
    else check_and_publish f draws e (record {
      store = insert_click (click_record_from_event e) (insert_event e.event_id s);
      published = [];
    })

-- The commit.
unfoldable pub finish : Faults → Store → Fallible → Processed
finish f s (err sent) = record { acknowledgement = requeued; store = s; published = sent }
finish f s (ok tx) =
    if f.commit
    then record { acknowledgement = requeued; store = s; published = tx.published }
    else record { acknowledgement = acked; store = tx.store; published = tx.published }

-- parseDelivery; the body is `none` where it is not the JSON of an event.
unfoldable pub parse_delivery : Option ClickEvent → Option ClickEvent
parse_delivery none = none
parse_delivery (some e) = if is_empty e.event_id || is_empty e.short_code then none else some e

-- processDelivery of an event that was parsed.
unfoldable pub process_event : Faults → Draws → ClickEvent → Store → Processed
process_event f draws e s =
    if f.begin || f.exists
    then record { acknowledgement = requeued; store = s; published = [] }
    else if exists_event e.event_id s
    then record { acknowledgement = acked; store = s; published = [] }
    else finish f s (write_click f draws e s)

-- processDelivery
unfoldable pub process_delivery : Faults → Draws → Option ClickEvent → Store → Processed
process_delivery f draws body s = elim (parse_delivery body) [
  | none ↦ record { acknowledgement = acked; store = s; published = [] }
  | some e ↦ process_event f draws e s
]
