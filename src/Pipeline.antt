-- ===== src/Pipeline.antt =====
-- How an event goes from the outbox of url-service to analytics-service: the coordinator and the
-- workers of services/url-service/outbox.go, the queue that services/analytics-service/rabbitmq.go
-- binds, and the consumer of services/analytics-service/consumer.go.
pub mod Copies
pub mod Kept
pub mod Rounds
pub mod Safety
use url_shortener_microservi.Prelude.{
  ℕ, ◌≡◌, refl, Bool, true, false, Text, bytes, List, [], ◌∷◌, ◌++◌, Option, none, some, Result, ok,
  err, text_eq, if◌then◌else◌,
}
use url_shortener_microservi.Events.{Payload, url_clicked, type_name}
use url_shortener_microservi.Url.Db.{OutboxRecord, Db, DbError, insert_event}
use url_shortener_microservi.Url.Outbox.{poll, publish}
use url_shortener_microservi.Analytics.{
  ClickEvent, Store, Faults, Draws, Acknowledgement, acked, requeued, Processed, process_delivery,
}

-- The database of url-service, the records that the coordinator has handed to its workers (the channel
-- of Run), the messages of the queue analytics.clicks, and the tables of analytics-service.
pub record Pipeline : Type 0 where
  pub db : Db
  pub jobs : List OutboxRecord
  pub queue : List Payload
  pub store : Store

-- The queue is bound to the routing key "url.clicked".
unfoldable pub routed : Option (Text × Payload) → List Payload
unfolding type_name
routed none = []
routed (some (key, body)) = if text_eq key (type_name url_clicked) then body ∷ [] else []

-- A message that is acknowledged leaves the queue; another one stays.
unfoldable pub queue_after : Acknowledgement → List Payload → Payload → List Payload → List Payload
queue_after acked before m after = before ++ after
queue_after requeued before m after = before ++ (m ∷ after)

-- `decode` is json.Unmarshal of the consumer on a payload. Where Publish returns nil the broker has
-- the message; it may have it although Publish returned an error (`unconfirmed`). Workers take the jobs
-- in any order, and a message comes again until it is acknowledged.
module _ (decode : Payload → Option ClickEvent) where
  pub data Step (p : Pipeline) : Pipeline → Type 0 where
    emits :
        (r : OutboxRecord) (db : Db)
        → r.published_at ≡ none
        → insert_event none r p.db ≡ ok db
        → Step p (record p { db = db })
    polls :
        (fault : Option DbError) (now : ℕ)
        → Step p
            (record p { db = (poll fault now p.db).1; jobs = p.jobs ++ (poll fault now p.db).0 })
    publishes :
        (sends : Bool) (fault : Option DbError) (now : ℕ) (before after : List OutboxRecord)
        (job : OutboxRecord)
        → p.jobs ≡ before ++ (job ∷ after)
        → Step p (record p {
          db = (publish (λ _ _. sends) fault now job p.db).1;
          jobs = before ++ after;
          queue = p.queue ++ routed (publish (λ _ _. sends) fault now job p.db).0;
        })
    unconfirmed :
        (before after : List OutboxRecord) (job : OutboxRecord)
        → p.jobs ≡ before ++ (job ∷ after)
        → Step p (record p {
          jobs = before ++ after;
          queue = p.queue ++ routed (some (job.event_type, job.payload));
        })
    restarts : Step p (record p { jobs = [] })
    delivers :
        (f : Faults) (draws : Draws) (before after : List Payload) (m : Payload)
        → p.queue ≡ before ++ (m ∷ after)
        → Step p (record p {
          queue =
              queue_after
                (process_delivery f draws (decode m) p.store).acknowledgement
                before
                m
                after;
          store = (process_delivery f draws (decode m) p.store).store;
        })

  pub data Reach (p : Pipeline) : Pipeline → Type 0 where
    here : Reach p p
    next : {q r : Pipeline} → Reach p q → Step q r → Reach p r
