-- ===== src/Url/Routes/RoundTrip.antt =====
-- A short URL that a POST to services/url-service/main.go's routes has made, and the GET of its code.
use url_shortener_microservi.Prelude.{
  ℕ, ◌≤◌, ◌≡◌, ◌≢◌, refl, sym, ap, ap₂, ◌∙◌, false, Text, bytes, [], ◌∷◌, length, Option, none,
  some, text_eq, is_empty, Bool-cases, text_eq→≡, text_eq-ne, inl, inr, ◌⊎◌, suc, arith,
}
use url_shortener_microservi.Base62.{generate}
use url_shortener_microservi.Base62.RoundTrip.{length-encode}
use url_shortener_microservi.Http.{Response}
use url_shortener_microservi.Http.Mux.{serve-cases}
use url_shortener_microservi.Auth.{MapClaims}
use url_shortener_microservi.Auth.Middleware.{jwt_middleware-cases}
use url_shortener_microservi.Url.Db.{micro, Db, BeginFunc}
use url_shortener_microservi.Url.Shorten.{ParsedUrl, ShortenResponse, Fill, Shortened}
use url_shortener_microservi.Url.Shorten.Atomic
use url_shortener_microservi.Url.Redirect.{RedirectInfo, to, redirect_to_url}
use url_shortener_microservi.Url.Redirect.Races.{redirect-shorten_url}
use url_shortener_microservi.Url.Handler.{Body, shortened, Handled}
use url_shortener_microservi.Url.Handler.Created.{
  Made, Creates, handle_redirect-to, refuse-Creates, handle_shorten-Creates,
  handle_shorten_anon-Creates,
}
use url_shortener_microservi.Url.Routes.{Request, Env, auth_mw, routes, serve_request}
use url_shortener_microservi.Url.Routes.Redirects.{serve_request-redirect}

-- Texts of different lengths are different.
text_eq-length : (s t : Text) (m n : ℕ) → length s ≡ m → length t ≡ n → m ≢ n → text_eq s t ≡ false
text_eq-length s t m n h k other = elim (Bool-cases (text_eq s t)) [
  | inl same ↦ absurd (other (sym h ∙ (ap length (text_eq→≡ s t same) ∙ k)))
  | inr differs ↦ differs
]

length-not_empty : (s : Text) (n : ℕ) → length s ≡ suc n → is_empty s ≡ false
length-not_empty [] n h = cc
length-not_empty (c ∷ s) n h = refl

head-ne-post : bytes "HEAD" ≢ bytes "POST"
unfolding text_eq
head-ne-post = text_eq-ne (bytes "HEAD") (bytes "POST") refl

-- A method that is POST is not that of another route.
post-only :
    {t : Text} (m method : Text)
    → method ≡ bytes "POST"
    → t ≢ bytes "POST"
    → t ≡ m
    → (m ≡ method) ⊎ ((method ≡ bytes "HEAD") × (m ≡ bytes "GET"))
    → ⊥
post-only m method post other at (inl same) = other (at ∙ (same ∙ post))
post-only m method post other at (inr (head, get)) = head-ne-post (sym head ∙ post)

get-ne-post : bytes "GET" ≢ bytes "POST"
unfolding text_eq
get-ne-post = text_eq-ne (bytes "GET") (bytes "POST") refl

delete-ne-post : bytes "DELETE" ≢ bytes "POST"
unfolding text_eq
delete-ne-post = text_eq-ne (bytes "DELETE") (bytes "POST") refl

module _ (parse_token : ℕ → Text → Option MapClaims) (parse : Text → Option ParsedUrl)
    (tx : BeginFunc) (base : Text) (sha256_hex : Text → Text) (metrics : Response Body) where
  -- A POST that is answered 201 with a short URL has had ShortenURL make it.
  posted-Creates :
      (e : Env) (r : Request) (db : Db) (resp : ShortenResponse)
      → r.method ≡ bytes "POST"
      → Creates parse tx base e.now e.attempts db resp
          (serve_request parse_token parse tx base sha256_hex metrics e r db)
  unfolding serve_request routes auth_mw
  posted-Creates e r db resp post =
      serve-cases (Creates parse tx base e.now e.attempts db resp) _ _ r.method r.path
        (refuse-Creates parse tx base e.now e.attempts db resp)
        (λ m allowed. (
          (λ vs at found. absurd (post-only m r.method post get-ne-post at allowed)),
          (
            (λ vs at found. absurd (post-only m r.method post get-ne-post at allowed)),
            (
              (λ vs at found.
                  jwt_middleware-cases _ (Creates parse tx base e.now e.attempts db resp)
                    parse_token e.now r.authorization _
                    (refuse-Creates parse tx base e.now e.attempts db resp 401)
                    (λ token c given verified.
                      handle_shorten-Creates parse tx base e.now e.attempts db resp c r.body)),
              (
                (λ vs at found. absurd (post-only m r.method post get-ne-post at allowed)),
                (
                  (λ vs at found.
                      handle_shorten_anon-Creates parse tx base e.now e.attempts db resp r.body
                        e.anon_user e.anon_email),
                  (
                    (λ vs at found. absurd (post-only m r.method post get-ne-post at allowed)),
                    (
                      (λ vs at found. absurd (post-only m r.method post get-ne-post at allowed)),
                      (
                        (λ vs at found.
                            absurd (post-only m r.method post delete-ne-post at allowed)),
                        tt,
                      ),
                    ),
                  ),
                ),
              ),
            ),
          ),
        ))

  -- A code that ShortenURL has answered is seven characters, and of the URL that was answered.
  Made-code :
      (e : Env) (db db' : Db) (resp : ShortenResponse)
      → Made parse tx base e.now e.attempts db resp db'
      → length resp.short_code ≡ 7
  unfolding Made generate
  Made-code e db db' resp (url, user, email, hours, fill, made) =
      let (_, (i, _, _, answered)) =
        Atomic.shorten_url-Created parse tx base url user email hours e.now e.attempts db resp fill
          (ap (λ (p : Shortened × Db). p.0) made) in
      ap length answered.code ∙ length-encode _

  -- Where the redirect of that code goes.
  Made-target :
      (e : Env) (db db' : Db) (resp : ShortenResponse)
      → Made parse tx base e.now e.attempts db resp db'
      → (at later : ℕ) (remote : Text) → at ≤ micro resp.expires_at
      → (info : RedirectInfo) × (fill : Fill) × (redirect_to_url sha256_hex at later none none
            resp.short_code remote db'
          ≡ to info (some fill))
        × (info.original_url ≡ resp.original_url)
  unfolding Made
  Made-target e db db' resp (url, user, email, hours, fill, made) at later remote in_time =
      let (_, (i, _, _, answered)) =
        Atomic.shorten_url-Created parse tx base url user email hours e.now e.attempts db resp fill
          (ap (λ (p : Shortened × Db). p.0) made) in
      let (info, f, found, target) =
        redirect-shorten_url parse tx base url user email hours e.now e.attempts db db' resp fill
          sha256_hex at later remote made in_time in
      (info, f, found, target ∙ sym answered.target)

  -- A short URL that a POST has been answered, with 201, sends a GET of its code to the URL that it was
  -- made for, with 308: until the time of expiry that was answered, less what is below a microsecond (the
  -- column keeps no more), on a miss of the cache, if the
  -- database is up and is as the POST left it, and if the code is not "metrics".
  pub serve_request-round_trip :
      (e later : Env) (r visit : Request) (db : Db) (resp : ShortenResponse)
      → r.method ≡ bytes "POST"
      → (serve_request parse_token parse tx base sha256_hex metrics e r db).response
        ≡ Response.write_json 201 (shortened resp)
      → visit.method ≡ bytes "GET"
      → visit.path ≡ resp.short_code ∷ []
      → text_eq (bytes "metrics") resp.short_code ≡ false
      → later.cached resp.short_code ≡ none
      → later.fault ≡ none
      → later.now ≤ micro resp.expires_at
      → (serve_request parse_token parse tx base sha256_hex metrics later visit
          (serve_request parse_token parse tx base sha256_hex metrics e r db).db).response
        ≡ Response.redirect 308 resp.original_url
  unfolding Creates
  serve_request-round_trip e later r visit db resp post created get path free misses up in_time =
      let made = posted-Creates e r db resp post created in
      let db' = (serve_request parse_token parse tx base sha256_hex metrics e r db).db in
      let code = resp.short_code in
      let seven = Made-code e db db' resp made in
      let (info, f, found, target) =
        Made-target e db db' resp made later.now later.later visit.remote_addr in_time in
      let apart : (t : Text) (n : ℕ) → length t ≡ n → n ≢ 7 → text_eq t code ≡ false =
        λ t n h other. text_eq-length t code n 7 h seven other in
      ap (λ (h : Handled). h.response)
        (serve_request-redirect parse_token parse tx base sha256_hex metrics later visit db' code
          get path
          (
            apart (bytes "health") 6 refl (omega arith),
            (
              free,
              (
                apart (bytes "urls") 4 refl (omega arith),
                (apart (bytes "/") 1 refl (omega arith), tt),
              ),
            ),
          ))
      ∙ (handle_redirect-to sha256_hex later.now later.later (later.cached code) later.fault code
            visit.remote_addr db' info (some f) (length-not_empty code 6 seven)
            (ap₂
                (λ c x.
                  redirect_to_url sha256_hex later.now later.later c x code visit.remote_addr db')
                misses up
              ∙ found)
          ∙ ap (λ u. Response.redirect 308 u) target)
