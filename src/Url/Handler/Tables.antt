-- ===== src/Url/Handler/Tables.antt =====
-- What the handlers of services/url-service/handler.go make of the tables.
use url_shortener_microservi.Prelude.{
  ℕ, ◌≡◌, refl, sym, subst, false, Text, Option, none, some, is_empty, if-both, if-cases,
}
use url_shortener_microservi.Auth.{Claims}
use url_shortener_microservi.Url.Db.{Db, DbError, BeginFunc}
use url_shortener_microservi.Url.Shorten.{
  ParsedUrl, CachedUrl, Shortened, created_url, failed, Attempt, HttpError, shorten_url,
}
use url_shortener_microservi.Url.Redirect.{RedirectInfo, Redirected, to, nil_dereference}
use url_shortener_microservi.Url.Deactivate.{Draws, Deactivated, deactivate_url}
use url_shortener_microservi.Url.Listing.{ListUrlsResponse}
use url_shortener_microservi.Prelude.{Result, ok, err}
use url_shortener_microservi.Url.Handler.{
  ShortenRequest, Handled, ClickDraws, write_analytics_event, after_goroutine, refuse,
  answer_shortened, handle_shorten, handle_shorten_anon, answer_redirected, handle_redirect,
  answer_listing, handle_get_urls, answer_error, answer_deactivated, handle_deactivate_url,
}

answer_shortened-db : (p : Shortened × Db) → (answer_shortened p).db ≡ p.1
unfolding answer_shortened refuse
answer_shortened-db (created_url r f, db) = refl
answer_shortened-db (failed e, db) = refl

-- What a redirect leaves of the tables, with what its goroutine does: the database as it was, or what
-- writeAnalyticsEvent makes of it.
answer_redirected-after {κ} :
    (P : Db → Type κ) (d : ClickDraws) (user_agent referer code : Text) (x : Redirected) (db : Db)
    → P db
    → ((info : RedirectInfo) → P (write_analytics_event d user_agent referer code info db))
    → P (after_goroutine d user_agent referer (answer_redirected code x db))
unfolding answer_redirected refuse after_goroutine
answer_redirected-after P d user_agent referer code (to info f) db h k = k info
answer_redirected-after P d user_agent referer code (Redirected.failed e) db h k = h
answer_redirected-after P d user_agent referer code nil_dereference db h k = h

-- No goroutine writes to the database after the handler, and it is as the handler left it.
abbrev pub Settled {κ} : (Db → Type κ) → Handled → Type κ
Settled P h = (h.click ≡ none) × P h.db

pub Settled-after {κ} :
    (P : Db → Type κ) (d : ClickDraws) (user_agent referer : Text) (h : Handled)
    → Settled P h
    → P (after_goroutine d user_agent referer h)
unfolding after_goroutine
Settled-after P d user_agent referer h (quiet, p) = rw (quiet, after_goroutine) p

answer_shortened-no_click : (p : Shortened × Db) → (answer_shortened p).click ≡ none
unfolding answer_shortened refuse
answer_shortened-no_click (created_url r f, db) = refl
answer_shortened-no_click (failed e, db) = refl

answer_listing-db :
    (r : Result HttpError ListUrlsResponse) (db : Db)
    → ((answer_listing r db).click ≡ none) × ((answer_listing r db).db ≡ db)
unfolding answer_listing refuse
answer_listing-db (ok l) db = (refl, refl)
answer_listing-db (err e) db = (refl, refl)

answer_error-db :
    (e : Option HttpError) (d : Deactivated)
    → ((answer_error e d).click ≡ none) × ((answer_error e d).db ≡ d.db)
unfolding answer_error refuse
answer_error-db none d = (refl, refl)
answer_error-db (some e) d = (refl, refl)

answer_deactivated-db :
    (d : Deactivated) → ((answer_deactivated d).click ≡ none) × ((answer_deactivated d).db ≡ d.db)
unfolding answer_deactivated
answer_deactivated-db d = answer_error-db d.error d

pub handle_redirect-after {κ} :
    (P : Db → Type κ) (d : ClickDraws) (user_agent referer : Text) (sha256_hex : Text → Text)
    (now later : ℕ) (cached : Option CachedUrl) (fault : Option DbError) (code remote : Text)
    (db : Db)
    → P db
    → ((info : RedirectInfo) → P (write_analytics_event d user_agent referer code info db))
    → P (
        after_goroutine d user_agent referer
          (handle_redirect sha256_hex now later cached fault code remote db))
unfolding handle_redirect refuse after_goroutine
handle_redirect-after P d user_agent referer sha256_hex now later cached fault code remote db h k =
    if-both (λ (x : Handled). P (after_goroutine d user_agent referer x)) (is_empty code) h
      (answer_redirected-after P d user_agent referer code _ db h k)

pub handle_get_urls-db :
    (claims : Option Claims) (after : Option ℕ) (limit : Text) (fault : Option DbError) (now : ℕ)
    (db : Db)
    → ((handle_get_urls claims after limit fault now db).click ≡ none)
      × ((handle_get_urls claims after limit fault now db).db ≡ db)
unfolding handle_get_urls refuse
handle_get_urls-db none after limit fault now db = (refl, refl)
handle_get_urls-db (some claims) after limit fault now db = answer_listing-db _ db

module _ (parse : Text → Option ParsedUrl) (tx : BeginFunc) (base : Text) where
  -- What holds of the tables as they were, and of what ShortenURL makes of them for the user of the
  -- claims, holds of what HandleShorten makes of them.
  pub handle_shorten-db {κ} :
      (P : Db → Type κ) (c : Claims) (body : Option ShortenRequest) (now : ℕ)
      (attempts : ℕ → Attempt) (db : Db)
      → P db
      → ((req : ShortenRequest)
          → body ≡ some req
          → is_empty c.sub ≡ false
          → P
              (shorten_url parse tx base req.url c.sub c.email req.expires_in_hours now attempts
                db).1)
      → Settled P (handle_shorten parse tx base (some c) body now attempts db)
  unfolding handle_shorten refuse
  handle_shorten-db P c none now attempts db h k =
      if-both (Settled P) (is_empty c.sub) (refl, h) (refl, h)
  handle_shorten-db P c (some req) now attempts db h k =
      if-cases (Settled P) (is_empty c.sub) (λ e. (refl, h))
        (λ given. (answer_shortened-no_click _, rw (answer_shortened-db _) (k req refl given)))

  pub handle_shorten_anon-db {κ} :
      (P : Db → Type κ) (body : Option ShortenRequest) (user email : Text) (now : ℕ)
      (attempts : ℕ → Attempt) (db : Db)
      → P db
      → ((req : ShortenRequest)
          → body ≡ some req
          → P (shorten_url parse tx base req.url user email req.expires_in_hours now attempts db).1)
      → Settled P (handle_shorten_anon parse tx base body user email now attempts db)
  unfolding handle_shorten_anon refuse
  handle_shorten_anon-db P none user email now attempts db h k = (refl, h)
  handle_shorten_anon-db P (some req) user email now attempts db h k =
      (answer_shortened-no_click _, rw (answer_shortened-db _) (k req refl))

pub handle_deactivate_url-db {κ} :
    (P : Db → Type κ) (tx : BeginFunc) (code : Text) (c : Claims) (d : Draws) (db : Db)
    → P db
    → (is_empty c.sub ≡ false → P (deactivate_url tx code c.sub c.email d db).db)
    → Settled P (handle_deactivate_url tx code (some c) d db)
unfolding handle_deactivate_url refuse
handle_deactivate_url-db P tx code c d db h k =
    if-both (Settled P) (is_empty code) (refl, h)
      (if-cases (Settled P) (is_empty c.sub) (λ e. (refl, h))
        (λ given.
          let (quiet, same) = answer_deactivated-db (deactivate_url tx code c.sub c.email d db) in
          (quiet, subst P (sym same) (k given))))
