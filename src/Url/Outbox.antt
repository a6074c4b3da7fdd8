-- ===== src/Url/Outbox.antt =====
-- The transactional outbox: services/url-service/outbox_store.go and outbox.go. A statement takes the
-- error that the database answers, if any. Times are nanoseconds.
pub mod Lease
use url_shortener_microservi.Prelude.{
  ℕ, ◌+◌, ◌*◌, Bool, true, false, not, ◌&&◌, ◌||◌, Text, List, [], ◌∷◌, map, take, keep, some_of,
  Option, none, some, Result, ok, err, ltb, ◌==◌, if◌then◌else◌,
}
use url_shortener_microservi.Events.{Payload}
use url_shortener_microservi.Url.Db.{OutboxRecord, Db, DbError, no_rows}

-- The lease of FetchUnpublished, 30 seconds.
abbrev pub lease : ℕ
lease = 30000000000

-- locked_until IS NULL OR locked_until < now()
abbrev pub unlocked : ℕ → Option ℕ → Bool
unlocked now none = true
unlocked now (some t) = ltb t now

-- published_at IS NULL
abbrev pub unpublished : Option ℕ → Bool
unpublished none = true
unpublished (some t) = false

-- The WHERE clause of the claim.
unfoldable pub claimable : ℕ → OutboxRecord → Bool
claimable now r = unpublished r.published_at && unlocked now r.locked_until

-- ORDER BY created_at ASC
unfoldable pub place : OutboxRecord → List OutboxRecord → List OutboxRecord
place r [] = r ∷ []
place r (x ∷ xs) =
    let rest = place r xs in if ltb x.created_at r.created_at then x ∷ rest else r ∷ x ∷ xs

unfoldable pub order_by_created_at : List OutboxRecord → List OutboxRecord
order_by_created_at [] = []
order_by_created_at (r ∷ rs) = place r (order_by_created_at rs)

-- The rows of `claimed`, as they are before the update.
unfoldable pub claimed : ℕ → ℕ → Db → List OutboxRecord
claimed limit now db = take limit (order_by_created_at (keep (claimable now) db.outbox))

-- SET locked_until = now() + interval '30 seconds'
abbrev pub lock : ℕ → OutboxRecord → OutboxRecord
lock now r = record r { locked_until = some (now + lease) }

-- Whether a list has a record of the id.
abbrev pub has_id : ℕ → List OutboxRecord → Bool
has_id id = some_of (λ x. x.id == id)

unfoldable pub lock_claimed : ℕ → List OutboxRecord → OutboxRecord → OutboxRecord
lock_claimed now rs r = if has_id r.id rs then lock now r else r

-- FetchUnpublished: the rows that it returns, in the order of the claim, and the table after it.
unfoldable pub fetch_unpublished :
    Option DbError → ℕ → ℕ → Db → Result DbError (List OutboxRecord) × Db
fetch_unpublished (some e) limit now db = (err e, db)
fetch_unpublished none limit now db =
    let rs = claimed limit now db in
    (ok (map (lock now) rs), record db { outbox = map (lock_claimed now rs) db.outbox })

-- The WHERE clause of MarkPublished.
abbrev pub marks : ℕ → OutboxRecord → Bool
marks id r = r.id == id && unpublished r.published_at

abbrev pub mark_row : ℕ → ℕ → OutboxRecord → OutboxRecord
mark_row id now r =
    if marks id r then record r { published_at = some now; locked_until = none } else r

-- MarkPublished
unfoldable pub mark_published : Option DbError → ℕ → ℕ → Db → Result DbError Db
mark_published (some e) id now db = err e
mark_published none id now db =
    if some_of (marks id) db.outbox
    then ok (record db { outbox = map (mark_row id now) db.outbox })
    else err no_rows

-- outboxBatchSize
abbrev pub outbox_batch_size : ℕ
outbox_batch_size = 50

jobs_of : Result DbError (List OutboxRecord) → List OutboxRecord
jobs_of (ok rs) = rs
jobs_of (err e) = []

-- poll: the records that it hands to the workers
unfoldable pub poll : Option DbError → ℕ → Db → List OutboxRecord × Db
unfolding jobs_of
poll fault now db =
    let (rs, db') = fetch_unpublished fault outbox_batch_size now db in (jobs_of rs, db')

db_after : Result DbError Db → Db → Db
db_after (ok db') db = db'
db_after (err e) db = db

-- publish: `publishes` is whether Publish of publisher.go returns nil for the event's type and
-- payload; what was sent, and the table after it
unfoldable pub publish :
    (Text → Payload → Bool) → Option DbError → ℕ → OutboxRecord → Db → Option (Text × Payload) × Db
unfolding db_after
publish publishes fault now r db =
    if publishes r.event_type r.payload
    then (some (r.event_type, r.payload), db_after (mark_published fault r.id now db) db)
    else (none, db)
