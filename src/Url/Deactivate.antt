-- ===== src/Url/Deactivate.antt =====
-- URLService.DeactivateURL (services/url-service/service.go).
pub mod Effect
use url_shortener_microservi.Prelude.{
  ℕ, Bool, true, false, Text, List, [], ◌∷◌, Option, none, some, Result, ok, err, ◌>>=◌,
}
use url_shortener_microservi.Events.{
  UrlDeletedEvent, url_deleted, type_name, new_base_event, deleted,
}
use url_shortener_microservi.Url.Db.{
  OutboxRecord, Db, DbError, unique_violation, no_rows, other, deactivate, insert_event, BeginFunc,
}
use url_shortener_microservi.Url.Shorten.{HttpError, http_error, forbidden, database_error}

-- What the call draws: two UUIDs, the time, and the errors that the database answers.
pub record Draws : Type 0 where
  pub event_id : ℕ
  pub outbox_id : ℕ
  pub now : ℕ
  pub update_fault : Option DbError
  pub outbox_fault : Option DbError

unfoldable pub deleted_record : Text → Text → Text → Draws → OutboxRecord
deleted_record code user email d = record {
  id = d.outbox_id;
  event_type = type_name url_deleted;
  payload = deleted (record {
    base = new_base_event d.now d.event_id url_deleted [];
    short_code = code;
    user_id = user;
    user_email = email;
  });
  created_at = d.now;
  locked_until = none;
  published_at = none;
}

-- The closure of the transaction.
unfoldable pub remove : Text → Text → Text → Draws → Db → Result DbError Db
remove code user email d db = deactivate d.update_fault code user db >>= λ db'.
    insert_event d.outbox_fault (deleted_record code user email d) db'

-- The branches on the error of the transaction; with none, cache.Delete is called.
unfoldable pub after_remove : Option DbError → Option HttpError × Bool
after_remove none = (none, true)
after_remove (some no_rows) = (some (http_error 403 forbidden), false)
after_remove (some unique_violation) = (some (http_error 500 database_error), false)
after_remove (some other) = (some (http_error 500 database_error), false)

-- What the call returns, whether it calls cache.Delete for the code, and the database after it. The
-- error of cache.Delete is dropped; what the call does to the cache, or fails to do, is in Url/System.
pub record Deactivated : Type 0 where
  pub error : Option HttpError
  pub deletes_entry : Bool
  pub db : Db

unfoldable pub deactivate_url : BeginFunc → Text → Text → Text → Draws → Db → Deactivated
deactivate_url tx code user email d db =
    let (e, db') = tx.run 0 (remove code user email d) db in
    let (error, deletes) = after_remove e in
    record { error = error; deletes_entry = deletes; db = db' }
