-- ===== src/Url/Shorten.antt =====
-- URLService.ShortenURL (services/url-service/service.go), with validate.go and the cache entry of
-- cache.go. `parse` is url.Parse.
pub mod Atomic
pub mod Collisions
use url_shortener_microservi.Prelude.{
  ℕ, zero, suc, ◌+◌, ◌*◌, ℤ, pos, negsuc, Bool, true, false, not, ◌&&◌, ◌||◌, Text, bytes, List, [],
  ◌∷◌, ◌++◌, Option, none, some, Result, ok, err, ◌>>=◌, text_eq, is_empty, ltb, ◌==◌,
  if◌then◌else◌,
}
use url_shortener_microservi.Base62.{generate}
use url_shortener_microservi.Events.{
  UrlCreatedEvent, url_created, type_name, new_base_event, created,
}
use url_shortener_microservi.Url.Db.{
  UrlRecord, OutboxRecord, Db, DbError, unique_violation, no_rows, other, insert, insert_event,
  BeginFunc,
}

-- The errors of errors.go.
pub data ServiceError : Type 0 where
  not_found invalid_url already_exists forbidden expired deactivated : ServiceError
  database_error cache_error : ServiceError

unfoldable pub message : ServiceError → Text
message not_found = bytes "url not found"
message invalid_url = bytes "invalid URL"
message already_exists = bytes "short code already exists"
message forbidden = bytes "forbidden"
message expired = bytes "url has expired"
message deactivated = bytes "url has been deactivated"
message database_error = bytes "database error"
message cache_error = bytes "cache error"

pub record HttpError : Type 0 where
  pub status : ℕ
  pub error : ServiceError

abbrev pub http_error : ℕ → ServiceError → HttpError
http_error status error = record { status = status; error = error }

-- The parts of url.URL that are read.
pub record ParsedUrl : Type 0 where
  pub scheme : Text
  pub host : Text

-- ValidateURL, `true` for a nil error
unfoldable pub validate_url : (Text → Option ParsedUrl) → Text → Bool
validate_url parse raw = if is_empty raw then false else elim (parse raw) [
  | none ↦ false
  | some u ↦
      (text_eq u.scheme (bytes "http") || text_eq u.scheme (bytes "https")) && not (is_empty u.host)
]

pub record CachedUrl : Type 0 where
  pub original_url : Text
  pub user_id : Text
  pub user_email : Text
  pub expires_at : Option ℕ
  pub is_active : Bool

pub record ShortenResponse : Type 0 where
  pub short_code : Text
  pub short_url : Text
  pub original_url : Text
  pub expires_at : ℕ

-- time.Hour
abbrev pub hour : ℕ
hour = 3600000000000

-- The hours that a request for `expires_in_hours` gets.
unfoldable pub normalize_hours : ℤ → ℕ
normalize_hours (pos n) = if n == 0 || ltb (24 * 365) n then 24 else n
normalize_hours (negsuc n) = 24

-- What one attempt of the loop draws: eight random bytes, three UUIDs, the time, and the errors that
-- the database answers to its two statements.
pub record Attempt : Type 0 where
  pub random : Text
  pub url_id : ℕ
  pub event_id : ℕ
  pub outbox_id : ℕ
  pub now : ℕ
  pub insert_fault : Option DbError
  pub outbox_fault : Option DbError

-- The values that the closure of the transaction captures.
pub record Order : Type 0 where
  pub url : Text
  pub user_id : Text
  pub user_email : Text
  pub expires_at : ℕ

unfoldable pub url_record : Order → Attempt → UrlRecord
url_record o a = record {
  id = a.url_id;
  short_code = generate a.random;
  original_url = o.url;
  user_id = o.user_id;
  user_email = o.user_email;
  created_at = a.now;
  expires_at = some o.expires_at;
  is_active = true;
}

unfoldable pub created_event : Order → Attempt → UrlCreatedEvent
created_event o a = record {
  base = new_base_event a.now a.event_id url_created [];
  short_code = generate a.random;
  original_url = o.url;
  user_id = o.user_id;
  user_email = o.user_email;
  expires_at = some o.expires_at;
}

unfoldable pub created_record : Order → Attempt → OutboxRecord
created_record o a = record {
  id = a.outbox_id;
  event_type = type_name url_created;
  payload = created (created_event o a);
  created_at = a.now;
  locked_until = none;
  published_at = none;
}

-- The closure.
unfoldable pub create : Order → Attempt → Db → Result DbError Db
create o a db = insert a.insert_fault (url_record o a) db >>= λ db'.
    insert_event a.outbox_fault (created_record o a) db'

-- What the loop ends with: the code of the attempt that succeeded, the failure of all, or an error.
pub data Looped : Type 0 where
  done : Attempt → Looped
  exhausted : Looped
  broken : Looped

module _ (tx : BeginFunc) (o : Order) (attempts : ℕ → Attempt) where
  -- How one attempt ends; `again` is what the rest of the loop makes of the database.
  pub after_attempt : Attempt → (Db → Looped × Db) → Option DbError → Db → Looped × Db
  after_attempt a again none db = (done a, db)
  after_attempt a again (some unique_violation) db = again db
  after_attempt a again (some no_rows) db = (broken, db)
  after_attempt a again (some other) db = (broken, db)

  -- The loop: `left` attempts are left, and `i` is the number of the next.
  unfoldable pub shorten_loop : ℕ → ℕ → Db → Looped × Db
  unfolding after_attempt
  shorten_loop zero i db = (exhausted, db)
  shorten_loop (suc left) i db =
      let (e, db') = tx.run i (create o (attempts i)) db in
      after_attempt (attempts i) (shorten_loop left (suc i)) e db'

abbrev pub max_attempts : ℕ
max_attempts = 3

-- The entry that the goroutine at the end gives to the cache.
abbrev cached_of : Order → CachedUrl
cached_of o = record {
  original_url = o.url;
  user_id = o.user_id;
  user_email = o.user_email;
  expires_at = some o.expires_at;
  is_active = true;
}

-- A write to the cache that a goroutine makes later.
pub record Fill : Type 0 where
  pub code : Text
  pub cached : CachedUrl
  pub ttl : ℕ

-- What ShortenURL returns, with the write that it leaves to a goroutine.
pub data Shortened : Type 0 where
  created_url : ShortenResponse → Fill → Shortened
  failed : HttpError → Shortened

unfoldable pub answer : Text → ℕ → Order → Looped → Shortened
answer base hours o (done a) =
    created_url
      (record {
        short_code = generate a.random;
        short_url = base ++ (bytes "/" ++ generate a.random);
        original_url = o.url;
        expires_at = o.expires_at;
      })
      (record { code = generate a.random; cached = cached_of o; ttl = hours * hour })
answer base hours o exhausted = failed (http_error 409 already_exists)
answer base hours o broken = failed (http_error 500 database_error)

-- The request after the validation and the choice of the hours; `now` is the time of time.Now.
abbrev pub order : Text → Text → Text → ℕ → ℕ → Order
order url user_id user_email hours now = record {
  url = url;
  user_id = user_id;
  user_email = user_email;
  expires_at = now + hours * hour;
}

module _ (parse : Text → Option ParsedUrl) (tx : BeginFunc) (base : Text) where
  unfoldable pub shorten_url : Text → Text → Text → ℤ → ℕ → (ℕ → Attempt) → Db → Shortened × Db
  unfolding answer
  shorten_url url user_id user_email expires_in_hours now attempts db =
      let hours = normalize_hours expires_in_hours in
      let o = order url user_id user_email hours now in
      let (looped, db') = shorten_loop tx o attempts max_attempts 0 db in
      if validate_url parse url
      then (answer base hours o looped, db')
      else (failed (http_error 400 invalid_url), db)
