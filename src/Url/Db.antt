-- ===== src/Url/Db.antt =====
-- services/url-service/store.go and the insertion of outbox_store.go: the two tables of the service
-- and the statements on them. A statement takes first the error that the database answers, if any;
-- with `none` it does what its SQL text says under the constraints of migration.sql. UUIDs are
-- numbers, ordered as PostgreSQL orders them. The times of `urls` are kept in microseconds; those of
-- `outbox`, of which only the order is used, are taken to be whole microseconds.
pub mod Order
pub mod Unique
use url_shortener_microservi.Prelude.{
  ℕ, suc, ◌+◌, ◌*◌, ◌/◌, ◌≡◌, Bool, true, false, not, ◌&&◌, ◌||◌, Text, List, [], ◌∷◌, ◌++◌, map,
  take, keep, some_of, find_first, Option, none, some, Result, ok, err, text_eq, ltb, ◌==◌,
  if◌then◌else◌,
}
use url_shortener_microservi.Events.{Payload}

-- UrlRecord, a row of `urls`.
pub record UrlRecord : Type 0 where
  pub id : ℕ
  pub short_code : Text
  pub original_url : Text
  pub user_id : Text
  pub user_email : Text
  pub created_at : ℕ
  pub expires_at : Option ℕ
  pub is_active : Bool

-- OutboxRecord, a row of `outbox`.
pub record OutboxRecord : Type 0 where
  pub id : ℕ
  pub event_type : Text
  pub payload : Payload
  pub created_at : ℕ
  pub locked_until : Option ℕ
  pub published_at : Option ℕ

pub record Db : Type 0 where
  pub urls : List UrlRecord
  pub outbox : List OutboxRecord

-- The errors that the code tells apart.
pub data DbError : Type 0 where
  unique_violation no_rows other : DbError

-- UNIQUE(short_code) and PRIMARY KEY(id)
unfoldable pub taken : UrlRecord → List UrlRecord → Bool
taken r = some_of (λ x. text_eq x.short_code r.short_code || x.id == r.id)

-- A time as a TIMESTAMPTZ column keeps it, in whole microseconds.
unfoldable pub micro : ℕ → ℕ
micro t = t / 1000 * 1000

abbrev pub micro_of : Option ℕ → Option ℕ
micro_of none = none
micro_of (some t) = some (micro t)

-- The row that an INSERT of a record makes.
abbrev pub stored : UrlRecord → UrlRecord
stored r = record r { created_at = micro r.created_at; expires_at = micro_of r.expires_at }

-- pgxURLStore.Insert
unfoldable pub insert : Option DbError → UrlRecord → Db → Result DbError Db
insert (some e) r db = err e
insert none r db =
    if taken r db.urls
    then err unique_violation
    else ok (record db { urls = db.urls ++ stored r ∷ [] })

-- pgxOutboxStore.InsertEvent
unfoldable pub insert_event : Option DbError → OutboxRecord → Db → Result DbError Db
insert_event (some e) o db = err e
insert_event none o db =
    if some_of (λ x. x.id == o.id) db.outbox
    then err unique_violation
    else ok (record db { outbox = db.outbox ++ o ∷ [] })

-- QueryRow and Scan of FindByCode
query_row : Option DbError → Text → Db → Result DbError UrlRecord
query_row (some e) code db = err e
query_row none code db = elim (find_first (λ r. text_eq r.short_code code) db.urls) [
  | none ↦ err no_rows
  | some r ↦ ok r
]

-- The branches of FindByCode on the error; `ok none` is the pair of two nils.
found : Result DbError UrlRecord → Result DbError (Option UrlRecord)
found (ok r) = ok (some r)
found (err no_rows) = ok none
found (err e) = err e

-- pgxURLStore.FindByCode
unfoldable pub find_by_code : Option DbError → Text → Db → Result DbError (Option UrlRecord)
unfolding query_row found
find_by_code fault code db = found (query_row fault code db)

-- The WHERE clause of Deactivate.
unfoldable pub deactivates : Text → Text → UrlRecord → Bool
deactivates code user r = text_eq r.short_code code && (text_eq r.user_id user && r.is_active)

abbrev pub deactivate_row : Text → Text → UrlRecord → UrlRecord
deactivate_row code user r = if deactivates code user r then record r { is_active = false } else r

-- pgxURLStore.Deactivate
unfoldable pub deactivate : Option DbError → Text → Text → Db → Result DbError Db
deactivate (some e) code user db = err e
deactivate none code user db =
    if some_of (deactivates code user) db.urls
    then ok (record db { urls = map (deactivate_row code user) db.urls })
    else err no_rows

-- expires_at IS NULL OR expires_at > NOW()
abbrev pub unexpired : ℕ → Option ℕ → Bool
unexpired now none = true
unexpired now (some t) = ltb now t

-- id < $2, where there is a cursor
abbrev pub before_cursor : Option ℕ → ℕ → Bool
before_cursor none id = true
before_cursor (some after) id = ltb id after

-- The WHERE clauses of FindByUserID.
unfoldable pub listed : Text → Option ℕ → ℕ → UrlRecord → Bool
listed user after now r =
    text_eq r.user_id user
    && (before_cursor after r.id && (r.is_active && unexpired now r.expires_at))

-- ORDER BY id DESC
unfoldable pub place : UrlRecord → List UrlRecord → List UrlRecord
place r [] = r ∷ []
place r (x ∷ xs) = let rest = place r xs in if ltb r.id x.id then x ∷ rest else r ∷ x ∷ xs

unfoldable pub order_by_id_desc : List UrlRecord → List UrlRecord
order_by_id_desc [] = []
order_by_id_desc (r ∷ rs) = place r (order_by_id_desc rs)

-- pgxURLStore.FindByUserID; the empty afterID is `none`.
unfoldable pub find_by_user_id :
    Option DbError → Text → Option ℕ → ℕ → ℕ → Db → Result DbError (List UrlRecord)
find_by_user_id (some e) user after limit now db = err e
find_by_user_id none user after limit now db =
    ok (take (limit + 1) (order_by_id_desc (keep (listed user after now) db.urls)))

-- pgx.BeginFunc on a pool: runs a function in a transaction, of which it may begin several, numbered.
-- A nil error means that the function succeeded and its writes are there; an error that nothing was
-- written; and if the transaction begins, the error of the function is passed on.
pub record BeginFunc : Type 0 where
  pub run : ℕ → (Db → Result DbError Db) → Db → Option DbError × Db
  pub begins : ℕ → Bool
  pub commits :
      (n : ℕ) (f : Db → Result DbError Db) (db : Db)
      → (run n f db).0 ≡ none
      → f db ≡ ok (run n f db).1
  pub rolls_back :
      (n : ℕ) (f : Db → Result DbError Db) (db : Db) (e : DbError)
      → (run n f db).0 ≡ some e
      → (run n f db).1 ≡ db
  pub passes :
      (n : ℕ) (f : Db → Result DbError Db) (db : Db) (e : DbError)
      → begins n ≡ true
      → f db ≡ err e
      → (run n f db).0 ≡ some e
