-- ===== src/Url/Routes/Redirects.antt =====
-- The route GET /{code} of services/url-service/main.go, and short URLs that POST /shorten has made.
use url_shortener_microservi.Prelude.{
  ℕ, ◌≡◌, refl, ap₂, ◌∙◌, false, Text, bytes, List, [], ◌∷◌, Option, text_eq, Bool-cases, All, inl,
  inr,
}
use url_shortener_microservi.Http.{Response}
use url_shortener_microservi.Http.Mux.{
  match_path, keep_value, candidate, matched, best, prefer, more_specific, find, or_else, answer_of,
  serve,
}
use url_shortener_microservi.Auth.{MapClaims}
use url_shortener_microservi.Url.Db.{Db, BeginFunc}
use url_shortener_microservi.Url.Shorten.{ParsedUrl}
use url_shortener_microservi.Url.Handler.{Body, refuse, handle_redirect}
use url_shortener_microservi.Url.Routes.{Request, Env, path_value, routes, serve_request}

-- The paths of one segment that GET /{code} does not serve.
abbrev pub reserved : List Text
reserved = bytes "health" ∷ bytes "metrics" ∷ bytes "urls" ∷ bytes "/" ∷ []

module _ (parse_token : ℕ → Text → Option MapClaims) (parse : Text → Option ParsedUrl)
    (tx : BeginFunc) (base : Text) (sha256_hex : Text → Text) (metrics : Response Body) (e : Env)
    (r : Request) (db : Db) where
  get_code :
      (code : Text)
      → All (λ t. text_eq t code ≡ false) reserved
      → serve
          (λ status text. refuse status text db)
          (routes parse_token parse tx base sha256_hex metrics e r db)
          (bytes "GET")
          (code ∷ [])
        ≡ handle_redirect sha256_hex e.now e.later (e.cached code) e.fault code r.remote_addr db
  unfolding serve find or_else answer_of best candidate matched match_path keep_value prefer
      more_specific routes path_value handle_redirect text_eq
  get_code code (health, (metrics_, (urls, (slash, _)))) =
      elim (Bool-cases (text_eq (bytes "redirect-anon") code)) [
        | inl anon ↦ rw (health, metrics_, urls, slash, anon) refl
        | inr other ↦ rw (health, metrics_, urls, slash, other) refl
      ]

  -- GET /{code} reaches HandleRedirect for every code but "health", "metrics" and "urls", which are
  -- paths of the service's own, and "/".
  pub serve_request-redirect :
      (code : Text)
      → r.method ≡ bytes "GET"
      → r.path ≡ code ∷ []
      → All (λ t. text_eq t code ≡ false) reserved
      → serve_request parse_token parse tx base sha256_hex metrics e r db
        ≡ handle_redirect sha256_hex e.now e.later (e.cached code) e.fault code r.remote_addr db
  unfolding serve_request
  serve_request-redirect code at path free =
      ap₂
        (λ m p.
          serve (λ status text. refuse status text db)
            (routes parse_token parse tx base sha256_hex metrics e r db) m p)
        at path
      ∙ get_code code free
