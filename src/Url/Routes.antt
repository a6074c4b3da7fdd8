-- ===== src/Url/Routes.antt =====
-- The routes of services/url-service/main.go, with health.go: which handler of handler.go serves a
-- request, behind which middleware. `verify` is VerifyToken of shared/auth at the time of the request,
-- as its parser and that time; `metrics` is what promhttp.Handler answers.
pub mod Access
pub mod Redirects
pub mod RoundTrip
use url_shortener_microservi.Prelude.{ℕ, Text, bytes, List, [], ◌∷◌, Option, none, false}
use url_shortener_microservi.Http.{Response}
use url_shortener_microservi.Http.Mux.{Segment, literal, wildcard, Route, route, serve}
use url_shortener_microservi.Auth.{Claims, MapClaims}
use url_shortener_microservi.Auth.Middleware.{jwt_middleware}
use url_shortener_microservi.Url.Db.{Db, DbError, BeginFunc}
use url_shortener_microservi.Url.Shorten.{ParsedUrl, CachedUrl, Attempt}
use url_shortener_microservi.Url.Deactivate.{Draws}
use url_shortener_microservi.Url.Handler.{
  ShortenRequest, Body, healthy, Handled, refuse, handle_shorten, handle_shorten_anon,
  handle_redirect, handle_get_urls, handle_deactivate_url,
}

-- What the service reads of an HTTP request.
pub record Request : Type 0 where
  pub method : Text
  pub path : List Text
  pub authorization : Text
  pub body : Option ShortenRequest
  pub after : Option ℕ
  pub limit : Text
  pub remote_addr : Text

-- What the handlers draw, read of the cache, and are answered by the database.
pub record Env : Type 0 where
  pub now : ℕ
  pub later : ℕ
  pub attempts : ℕ → Attempt
  pub anon_user : Text
  pub anon_email : Text
  pub cached : Text → Option CachedUrl
  pub fault : Option DbError
  pub draws : Draws

-- NewHealthHandler, and any other answer that leaves the database alone.
unfoldable pub only : Response Body → Db → Handled
only response db = record {
  response = response;
  fill = none;
  click = none;
  deletes_entry = false;
  db = db;
}

-- PathValue of the one wildcard of a pattern
unfoldable pub path_value : List Text → Text
path_value [] = []
path_value (v ∷ vs) = v

module _ (parse_token : ℕ → Text → Option MapClaims) (parse : Text → Option ParsedUrl)
    (tx : BeginFunc) (base : Text) (sha256_hex : Text → Text) (metrics : Response Body) where
  -- authMw
  unfoldable pub auth_mw : Env → Request → Db → (Option Claims → Handled) → Handled
  auth_mw e r db next =
      jwt_middleware (λ status text. refuse status text db) parse_token e.now r.authorization next

  unfoldable pub routes : Env → Request → Db → List (Route Handled)
  unfolding only path_value auth_mw
  routes e r db =
      route (bytes "GET") (literal (bytes "health") ∷ [])
        (λ vs. only (Response.write_json 200 (healthy (bytes "url-service"))) db)
      ∷ route (bytes "GET") (literal (bytes "metrics") ∷ []) (λ vs. only metrics db)
      ∷ route (bytes "POST") (literal (bytes "shorten") ∷ []) (λ vs.
        auth_mw e r db (λ claims. handle_shorten parse tx base claims r.body e.now e.attempts db))
      ∷ route (bytes "GET") (wildcard ∷ []) (λ vs.
        handle_redirect sha256_hex e.now e.later (e.cached (path_value vs)) e.fault (path_value vs)
          r.remote_addr db)
      ∷ route (bytes "POST") (literal (bytes "shorten-anon") ∷ []) (λ vs.
        handle_shorten_anon parse tx base r.body e.anon_user e.anon_email e.now e.attempts db)
      ∷ route (bytes "GET") (literal (bytes "redirect-anon") ∷ wildcard ∷ []) (λ vs.
        handle_redirect sha256_hex e.now e.later (e.cached (path_value vs)) e.fault (path_value vs)
          r.remote_addr db)
      ∷ route (bytes "GET") (literal (bytes "urls") ∷ [])
          (λ vs. auth_mw e r db (λ claims. handle_get_urls claims r.after r.limit e.fault e.now db))
      ∷ route (bytes "DELETE") (literal (bytes "urls") ∷ wildcard ∷ []) (λ vs.
        auth_mw e r db (λ claims. handle_deactivate_url tx (path_value vs) claims e.draws db))
      ∷ []

  -- A request, by the ServeMux
  unfoldable pub serve_request : Env → Request → Db → Handled
  serve_request e r db =
      serve (λ status text. refuse status text db) (routes e r db) r.method r.path
