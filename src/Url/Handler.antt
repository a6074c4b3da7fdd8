-- ===== src/Url/Handler.antt =====
-- The handlers of services/url-service/handler.go. A request gives the claims that the context
-- carries, the decoded body, the path value and the query; what a goroutine does later is returned.
pub mod Bounds
pub mod Tables
pub mod Created
use url_shortener_microservi.Prelude.{
  ℕ, zero, suc, ◌+◌, ◌-◌, ◌*◌, ◌≤◌, ◌≡◌, refl, ℤ, pos, negsuc, Bool, true, false, ◌||◌, Text, bytes,
  List, [], ◌∷◌, Option, none, some, Result, ok, err, is_empty, ltb, leb, ◌==◌, if◌then◌else◌,
}
use url_shortener_microservi.Http.{Response}
use url_shortener_microservi.Auth.{Claims}
use url_shortener_microservi.Events.{url_clicked, type_name, new_base_event, clicked}
use url_shortener_microservi.Url.Db.{OutboxRecord, Db, DbError, insert_event, BeginFunc}
use url_shortener_microservi.Url.Shorten.{
  HttpError, message, ParsedUrl, CachedUrl, ShortenResponse, Attempt, Fill, Shortened, shorten_url,
}
use url_shortener_microservi.Url.Redirect.{RedirectInfo, Redirected, redirect_to_url}
use url_shortener_microservi.Url.Listing.{ListUrlsResponse, get_user_urls}
use url_shortener_microservi.Url.Deactivate.{Draws, Deactivated, deactivate_url}

pub record ShortenRequest : Type 0 where
  pub url : Text
  pub expires_in_hours : ℤ

pub data Body : Type 0 where
  shortened : ShortenResponse → Body
  listing : ListUrlsResponse → Body
  healthy : Text → Body

-- The arguments of writeAnalyticsEvent in the goroutine of a redirect.
pub record Click : Type 0 where
  pub code : Text
  pub info : RedirectInfo

-- What a handler writes, the cache write and the click that goroutines make later (after_goroutine is
-- the database after it), whether cache.Delete is called for the code, and the database at its end.
pub record Handled : Type 0 where
  pub response : Response Body
  pub fill : Option Fill
  pub click : Option Click
  pub deletes_entry : Bool
  pub db : Db

unfoldable pub refuse : ℕ → Text → Db → Handled
refuse status text db = record {
  response = Response.write_error status text;
  fill = none;
  click = none;
  deletes_entry = false;
  db = db;
}

abbrev http_failure : HttpError → Db → Handled
unfolding refuse
http_failure e db = refuse e.status (message e.error) db

answer_shortened : Shortened × Db → Handled
unfolding refuse
answer_shortened (Shortened.created_url r f, db) = record {
  response = Response.write_json 201 (shortened r);
  fill = some f;
  click = none;
  deletes_entry = false;
  db = db;
}
answer_shortened (Shortened.failed e, db) = http_failure e db

module _ (parse : Text → Option ParsedUrl) (tx : BeginFunc) (base : Text) where
  -- HandleShorten
  unfoldable pub handle_shorten :
      Option Claims → Option ShortenRequest → ℕ → (ℕ → Attempt) → Db → Handled
  unfolding refuse answer_shortened
  handle_shorten none body now attempts db = refuse 401 (bytes "user not authenticated") db
  handle_shorten (some claims) body now attempts db =
      if is_empty claims.sub then refuse 401 (bytes "invalid user token") db else elim body [
        | none ↦ refuse 400 (bytes "invalid request body") db
        | some req ↦ answer_shortened (
            shorten_url parse tx base req.url claims.sub claims.email req.expires_in_hours now
              attempts db)
      ]

  -- HandleShortenAnon; the user and the address are the texts of two fresh UUIDs.
  unfoldable pub handle_shorten_anon :
      Option ShortenRequest → Text → Text → ℕ → (ℕ → Attempt) → Db → Handled
  unfolding refuse answer_shortened
  handle_shorten_anon none user email now attempts db = refuse 400 (bytes "invalid request body") db
  handle_shorten_anon (some req) user email now attempts db =
      answer_shortened
        (shorten_url parse tx base req.url user email req.expires_in_hours now attempts db)

answer_redirected : Text → Redirected → Db → Handled
unfolding refuse
answer_redirected code (Redirected.to info fill) db = record {
  response = Response.redirect 308 info.original_url;
  fill = fill;
  click = some (record { code = code; info = info });
  deletes_entry = false;
  db = db;
}
answer_redirected code (Redirected.failed e) db = http_failure e db
answer_redirected code Redirected.nil_dereference db = record {
  response = Response.panics;
  fill = none;
  click = none;
  deletes_entry = false;
  db = db;
}

-- HandleRedirect, and HandleRedirectAnon, whose body is the same. The goroutine that they start is given
-- the click; `after_goroutine` is what it makes of the database.
unfoldable pub handle_redirect :
    (Text → Text) → ℕ → ℕ → Option CachedUrl → Option DbError → Text → Text → Db → Handled
unfolding refuse answer_redirected
handle_redirect sha256_hex now later cached fault code remote db =
    if is_empty code
    then refuse 400 (bytes "missing short code") db
    else answer_redirected code (redirect_to_url sha256_hex now later cached fault code remote db)
        db

-- What writeAnalyticsEvent draws: two UUIDs, the times of the event and of the record, and the error
-- of the database.
pub record ClickDraws : Type 0 where
  pub event_id : ℕ
  pub outbox_id : ℕ
  pub event_at : ℕ
  pub clicked_at : ℕ
  pub created_at : ℕ
  pub fault : Option DbError

unfoldable pub click_record : ClickDraws → Text → Text → Text → RedirectInfo → OutboxRecord
click_record d user_agent referer code info = record {
  id = d.outbox_id;
  event_type = type_name url_clicked;
  payload = clicked (record {
    base = new_base_event d.event_at d.event_id url_clicked [];
    short_code = code;
    user_id = info.user_id;
    user_email = info.user_email;
    ip_hash = info.ip_hash;
    user_agent = user_agent;
    referer = referer;
    clicked_at = d.clicked_at;
  });
  created_at = d.created_at;
  locked_until = none;
  published_at = none;
}

-- writeAnalyticsEvent, which drops the error of the insertion
unfoldable pub write_analytics_event : ClickDraws → Text → Text → Text → RedirectInfo → Db → Db
write_analytics_event d user_agent referer code info db =
    elim (insert_event d.fault (click_record d user_agent referer code info) db) [
      | ok db' ↦ db'
      | err e ↦ db
    ]

-- The database after the goroutine of a redirect, if there is one.
unfoldable pub after_goroutine : ClickDraws → Text → Text → Handled → Db
after_goroutine d user_agent referer h = elim h.click [
  | none ↦ h.db
  | some c ↦ write_analytics_event d user_agent referer c.code c.info h.db
]

-- The digits of strconv.Atoi, after `acc`.
digits : ℕ → Text → Option ℕ
digits acc [] = some acc
digits acc (c ∷ s) =
    let rest = digits (acc * 10 + (c - 48)) s in if ltb c 48 || ltb 57 c then none else rest

unsigned : Text → Option ℕ
unfolding digits
unsigned [] = none
unsigned (c ∷ s) = digits 0 (c ∷ s)

positive : Option ℕ → Option ℤ
positive none = none
positive (some n) = if leb n 9223372036854775807 then some (pos n) else none

negative : Option ℕ → Option ℤ
negative none = none
negative (some zero) = some (pos 0)
negative (some (suc n)) = if leb n 9223372036854775807 then some (negsuc n) else none

-- strconv.Atoi on 64 bits, with `none` for an error
unfoldable pub atoi : Text → Option ℤ
unfolding unsigned positive negative
atoi [] = none
atoi (c ∷ s) =
    if c == 45
    then negative (unsigned s)
    else if c == 43
    then positive (unsigned s)
    else positive (unsigned (c ∷ s))

-- int(math.Max(math.Min(float64(parsed), 100), 1))
unfoldable pub clamp_limit : ℤ → ℕ
clamp_limit (pos n) = if ltb 100 n then 100 else if n == 0 then 1 else n
clamp_limit (negsuc n) = 1

-- The limit for the value of the query, which is empty if it is missing.
unfoldable pub limit_of : Text → ℕ
limit_of text = elim (atoi text) [ none ↦ 20 | some n ↦ clamp_limit n ]

unfoldable pub answer_listing : Result HttpError ListUrlsResponse → Db → Handled
unfolding refuse
answer_listing (err e) db = http_failure e db
answer_listing (ok l) db = record {
  response = Response.write_json 200 (listing l);
  fill = none;
  click = none;
  deletes_entry = false;
  db = db;
}

-- HandleGetUrls; a value of `after` that is no UUID is an error of the database.
unfoldable pub handle_get_urls : Option Claims → Option ℕ → Text → Option DbError → ℕ → Db → Handled
unfolding refuse answer_listing
handle_get_urls none after limit fault now db = refuse 401 (bytes "user not authenticated") db
handle_get_urls (some claims) after limit fault now db =
    answer_listing (get_user_urls fault claims.sub after (limit_of limit) now db) db

answer_error : Option HttpError → Deactivated → Handled
unfolding refuse
answer_error (some e) d = http_failure e d.db
answer_error none d = record {
  response = Response.write_header 204;
  fill = none;
  click = none;
  deletes_entry = d.deletes_entry;
  db = d.db;
}

answer_deactivated : Deactivated → Handled
unfolding answer_error
answer_deactivated d = answer_error d.error d

-- HandleDeactivateUrl
unfoldable pub handle_deactivate_url : BeginFunc → Text → Option Claims → Draws → Db → Handled
unfolding refuse answer_deactivated
handle_deactivate_url tx code claims d db =
    if is_empty code then refuse 400 (bytes "missing short code") db else elim claims [
      | none ↦ refuse 401 (bytes "user not authenticated") db
      | some c ↦
          if is_empty c.sub
          then refuse 401 (bytes "invalid user token") db
          else answer_deactivated (deactivate_url tx code c.sub c.email d db)
    ]
