-- ===== src/Url/Routes/Access.antt =====
-- Which requests change the tables of url-service, and for whom.
use url_shortener_microservi.Prelude.{
  ◌≡◌, refl, ap₂, false, Text, bytes, List, [], ◌∷◌, ◌++◌, Option, none, some, is_empty, text_eq,
  text_eq→≡, if-splits, inl, inr, none-ne-some, ℕ, sym, ◌∙◌, ◌⊎◌, ◌≢◌, Result, ok, err,
}
use url_shortener_microservi.Http.{Response}
use url_shortener_microservi.Http.Mux.{literal, wildcard, match_path, keep_value, serve-cases}
use url_shortener_microservi.Http.Mux.Paths.{nil-path, literal-path, method_of}
use url_shortener_microservi.Auth.{Claims, MapClaims, verify_token}
use url_shortener_microservi.Auth.Middleware.{bearer, jwt_middleware-cases}
use url_shortener_microservi.Url.Db.{Db, DbError, insert_event, BeginFunc}
use url_shortener_microservi.Url.Redirect.{RedirectInfo}
use url_shortener_microservi.Url.Shorten.Atomic.{insert_event-ok}
use url_shortener_microservi.Url.Shorten.{ParsedUrl, shorten_url}
use url_shortener_microservi.Url.Deactivate.{deactivate_url}
use url_shortener_microservi.Url.Handler.{
  ShortenRequest, Body, Handled, ClickDraws, click_record, write_analytics_event, after_goroutine,
  refuse, handle_shorten, handle_shorten_anon, handle_deactivate_url, handle_redirect,
  handle_get_urls,
}
use url_shortener_microservi.Url.Handler.Tables.{
  Settled, Settled-after, handle_redirect-after, handle_get_urls-db, handle_shorten-db,
  handle_shorten_anon-db, handle_deactivate_url-db,
}
use url_shortener_microservi.Url.Routes.{
  Request, Env, path_value, only, auth_mw, routes, serve_request,
}

keep_value-some :
    (s : Text) (o : Option (List Text)) (values : List Text)
    → keep_value s o ≡ some values
    → (vs : List Text) × (o ≡ some vs) × (s ∷ vs ≡ values)
unfolding keep_value
keep_value-some s none values h = cc
keep_value-some s (some vs) values h = (vs, refl, cc)

wildcard-path :
    (path values : List Text)
    → match_path (wildcard ∷ []) path ≡ some values
    → path ≡ path_value values ∷ []
unfolding match_path path_value
wildcard-path [] values h = cc
wildcard-path (s ∷ path) values h = elim (if-splits (text_eq (bytes "/") s) h) [
  | inl (slash, missing) ↦ absurd (none-ne-some missing)
  | inr (other, kept) ↦
      let (vs, rest, same) = keep_value-some s (match_path [] path) values kept in
      rw (sym same, nil-path path vs rest) refl
]

-- A pattern of a literal and a wildcard matches the literal and the value.
literal-wildcard_path :
    (t : Text) (path values : List Text)
    → match_path (literal t ∷ wildcard ∷ []) path ≡ some values
    → path ≡ t ∷ path_value values ∷ []
unfolding match_path path_value
literal-wildcard_path t [] values h = cc
literal-wildcard_path t (s ∷ path) values h = elim (if-splits (text_eq t s) h) [
  | inl (same, rest) ↦
      ap₂ (λ x xs. x ∷ xs) (sym (text_eq→≡ t s same)) (wildcard-path path values rest)
  | inr (other, missing) ↦ absurd (none-ne-some missing)
]

post-ne-get : bytes "POST" ≢ bytes "GET"
post-ne-get h = cc

delete-ne-get : bytes "DELETE" ≢ bytes "GET"
delete-ne-get h = cc

get_or_head :
    (m method : Text)
    → bytes "GET" ≡ m
    → (m ≡ method) ⊎ ((method ≡ bytes "HEAD") × (m ≡ bytes "GET"))
    → (method ≡ bytes "GET") ⊎ (method ≡ bytes "HEAD")
get_or_head m method at (inl same) = inl (sym (at ∙ same))
get_or_head m method at (inr (head, get)) = inr head

settled_by {κ} :
    (P : Db → Type κ) (x : Result DbError Db) (db : Db)
    → P db
    → ((db' : Db) → x ≡ ok db' → P db')
    → P (elim x [ ok db' ↦ db' | err e ↦ db ])
settled_by P (ok db') db h k = k db' refl
settled_by P (err e) db h k = h

-- writeAnalyticsEvent adds its record to the outbox, or does nothing.
write_analytics_event-outbox :
    (d : ClickDraws) (user_agent referer code : Text) (info : RedirectInfo) (db : Db)
    → ((write_analytics_event d user_agent referer code info db).urls ≡ db.urls)
      × (((write_analytics_event d user_agent referer code info db).outbox ≡ db.outbox)
          ⊎ ((write_analytics_event d user_agent referer code info db).outbox
              ≡ db.outbox ++ (click_record d user_agent referer code info ∷ [])))
unfolding write_analytics_event
write_analytics_event-outbox d user_agent referer code info db =
    let o = click_record d user_agent referer code info in
    settled_by
      (λ x. (x.urls ≡ db.urls) × ((x.outbox ≡ db.outbox) ⊎ (x.outbox ≡ db.outbox ++ (o ∷ []))))
      (insert_event d.fault o db) db (refl, inl refl)
      (λ db' done_.
        let (_, events, rows) = insert_event-ok d.fault o db db' done_ in (rows, inr events))

module _ (parse_token : ℕ → Text → Option MapClaims) (parse : Text → Option ParsedUrl)
    (tx : BeginFunc) (base : Text) (sha256_hex : Text → Text) (metrics : Response Body) (e : Env)
    (r : Request) (db : Db) (click : ClickDraws) (user_agent referer : Text) where
  -- The header has a token that VerifyToken accepts, with these claims.
  pub Holds : Claims → Type 0
  Holds c =
      (token : Text) × (r.authorization ≡ bearer ++ token)
      × (verify_token parse_token e.now token ≡ some c)

  -- How a request may change the tables.
  pub data Changes (after : Db) : Type 0 where
    unchanged : after ≡ db → Changes after
    -- POST /shorten-anon creates a URL, for a user that nobody is.
    anonymous :
        (req : ShortenRequest)
        → r.method ≡ bytes "POST"
        → r.path ≡ bytes "shorten-anon" ∷ []
        → r.body ≡ some req
        → after
          ≡ (shorten_url parse tx base req.url e.anon_user e.anon_email req.expires_in_hours e.now
              e.attempts db).1
        → Changes after
    -- POST /shorten creates a URL, for the user of the token.
    own_url :
        (c : Claims) (req : ShortenRequest)
        → Holds c
        → is_empty c.sub ≡ false
        → r.method ≡ bytes "POST"
        → r.path ≡ bytes "shorten" ∷ []
        → r.body ≡ some req
        → after
          ≡ (shorten_url parse tx base req.url c.sub c.email req.expires_in_hours e.now e.attempts
              db).1
        → Changes after
    -- DELETE /urls/{code} deactivates a URL, for the user of the token.
    own_deactivation :
        (c : Claims) (code : Text)
        → Holds c
        → is_empty c.sub ≡ false
        → r.method ≡ bytes "DELETE"
        → r.path ≡ bytes "urls" ∷ code ∷ []
        → after ≡ (deactivate_url tx code c.sub c.email e.draws db).db
        → Changes after
    -- GET or HEAD of /{code} and /redirect-anon/{code} adds a click of the code to the outbox.
    clicked :
        (code : Text) (info : RedirectInfo)
        → (r.path ≡ code ∷ []) ⊎ (r.path ≡ bytes "redirect-anon" ∷ code ∷ [])
        → (r.method ≡ bytes "GET") ⊎ (r.method ≡ bytes "HEAD")
        → after.urls ≡ db.urls
        → (after.outbox ≡ db.outbox)
          ⊎ (after.outbox ≡ db.outbox ++ (click_record click user_agent referer code info ∷ []))
        → Changes after

  -- The tables after the request and its goroutine.
  abbrev pub After : Handled → Type 0
  After h = Changes (after_goroutine click user_agent referer h)

  settled : (h : Handled) → Settled Changes h → After h
  settled h = Settled-after Changes click user_agent referer h

  -- Behind authMw, tables that the handler has changed for claims that the header holds.
  auth_mw-Changes :
      (next : Option Claims → Handled)
      → ((c : Claims) → Holds c → After (next (some c)))
      → After (auth_mw parse_token parse tx base sha256_hex metrics e r db next)
  unfolding auth_mw refuse Holds after_goroutine
  auth_mw-Changes next h =
      jwt_middleware-cases _ After parse_token e.now r.authorization next
        (λ text. Changes.unchanged refl) (λ token c given verified. h c (token, given, verified))

  posted :
      r.method ≡ bytes "POST"
      → r.path ≡ bytes "shorten" ∷ []
      → After (
          auth_mw parse_token parse tx base sha256_hex metrics e r db
            (λ claims. handle_shorten parse tx base claims r.body e.now e.attempts db))
  posted at path = auth_mw-Changes _ (λ c held. settled _ (
      handle_shorten-db parse tx base Changes c r.body e.now e.attempts db (Changes.unchanged refl)
        (λ req body present. Changes.own_url c req held present at path body refl)))

  posted_anon :
      r.method ≡ bytes "POST"
      → r.path ≡ bytes "shorten-anon" ∷ []
      → After
          (handle_shorten_anon parse tx base r.body e.anon_user e.anon_email e.now e.attempts db)
  posted_anon at path = settled _ (
      handle_shorten_anon-db parse tx base Changes r.body e.anon_user e.anon_email e.now e.attempts
        db (Changes.unchanged refl) (λ req body. Changes.anonymous req at path body refl))

  deleted :
      (code : Text)
      → r.method ≡ bytes "DELETE"
      → r.path ≡ bytes "urls" ∷ code ∷ []
      → After (
          auth_mw parse_token parse tx base sha256_hex metrics e r db
            (λ claims. handle_deactivate_url tx code claims e.draws db))
  deleted code at path = auth_mw-Changes _ (λ c held. settled _ (
      handle_deactivate_url-db Changes tx code c e.draws db (Changes.unchanged refl)
        (λ present. Changes.own_deactivation c code held present at path refl)))

  listed :
      (claims : Option Claims) (after : Option ℕ) (limit : Text) (fault : Option DbError)
      → After (handle_get_urls claims after limit fault e.now db)
  listed claims after limit fault =
      let (quiet, same) = handle_get_urls-db claims after limit fault e.now db in
      settled _ (quiet, Changes.unchanged same)

  redirected :
      (m code : Text)
      → bytes "GET" ≡ m
      → (m ≡ r.method) ⊎ ((r.method ≡ bytes "HEAD") × (m ≡ bytes "GET"))
      → (r.path ≡ code ∷ []) ⊎ (r.path ≡ bytes "redirect-anon" ∷ code ∷ [])
      → After
          (handle_redirect sha256_hex e.now e.later (e.cached code) e.fault code r.remote_addr db)
  redirected m code at allowed path =
      handle_redirect-after Changes click user_agent referer sha256_hex e.now e.later
        (e.cached code) e.fault code r.remote_addr db (Changes.unchanged refl)
        (λ info.
          let (rows, events) = write_analytics_event-outbox click user_agent referer code info db in
          Changes.clicked code info path (get_or_head m r.method at allowed) rows events)

  -- A request, with the goroutine that it starts, changes the tables of url-service in one of four ways
  -- at most: POST /shorten, with a token that VerifyToken accepts, is what ShortenURL does for the user
  -- of the token; DELETE /urls/{code}, with such a token, is what DeactivateURL does for that user; POST
  -- /shorten-anon is what ShortenURL does for a fresh user; and GET or HEAD of /{code} and of
  -- /redirect-anon/{code} adds one click of the code to the outbox at most.
  pub serve_request-Changes :
      After (serve_request parse_token parse tx base sha256_hex metrics e r db)
  unfolding serve_request routes only refuse after_goroutine
  serve_request-Changes =
      serve-cases After _ _ r.method r.path (λ status text. Changes.unchanged refl)
        (λ m allowed. (
          (λ vs at found. Changes.unchanged refl),
          (
            (λ vs at found. Changes.unchanged refl),
            (
              (λ vs at found.
                  posted (method_of m r.method post-ne-get at allowed)
                    (literal-path (bytes "shorten") r.path vs found)),
              (
                (λ vs at found.
                    redirected m (path_value vs) at allowed (inl (wildcard-path r.path vs found))),
                (
                  (λ vs at found.
                      posted_anon (method_of m r.method post-ne-get at allowed)
                        (literal-path (bytes "shorten-anon") r.path vs found)),
                  (
                    (λ vs at found.
                        redirected m (path_value vs) at allowed
                          (inr (literal-wildcard_path (bytes "redirect-anon") r.path vs found))),
                    (
                      (λ vs at found. auth_mw-Changes _ (λ c held. listed _ _ _ _)),
                      (
                        (λ vs at found.
                            deleted (path_value vs) (method_of m r.method delete-ne-get at allowed)
                              (literal-wildcard_path (bytes "urls") r.path vs found)),
                        tt,
                      ),
                    ),
                  ),
                ),
              ),
            ),
          ),
        ))
