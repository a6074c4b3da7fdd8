-- ===== src/Url/Handler/Created.antt =====
-- A 201, a 308 and a panic of the handlers of services/url-service/handler.go.
use url_shortener_microservi.Prelude.{
  ℕ, ◌≡◌, refl, ap, ◌∙◌, ℤ, false, Text, Option, none, some, is_empty, if-both,
}
use url_shortener_microservi.Http.{Response, error-ne-json}
use url_shortener_microservi.Auth.{Claims}
use url_shortener_microservi.Url.Db.{Db, DbError, BeginFunc}
use url_shortener_microservi.Url.Shorten.{
  ParsedUrl, CachedUrl, Shortened, ShortenResponse, Fill, created_url, failed, Attempt, shorten_url,
}
use url_shortener_microservi.Url.Redirect.{RedirectInfo, to, nil_dereference, redirect_to_url}
use url_shortener_microservi.Url.Handler.{
  ShortenRequest, shortened, Handled, refuse, answer_shortened, handle_shorten, handle_shorten_anon,
  answer_redirected, handle_redirect,
}

module _ (parse : Text → Option ParsedUrl) (tx : BeginFunc) (base : Text) (now : ℕ)
    (attempts : ℕ → Attempt) (db : Db) (resp : ShortenResponse) where
  -- ShortenURL has answered the short URL and left these tables.
  unfoldable pub Made : Db → Type 0
  Made db' =
      (url : Text) × (user : Text) × (email : Text) × (hours : ℤ) × (fill : Fill) × (shorten_url
          parse tx base url user email hours now attempts db
        ≡ (created_url resp fill, db'))

  -- Where a handler answers 201 with the short URL, it comes from ShortenURL.
  unfoldable pub Creates : Handled → Type 0
  Creates h = h.response ≡ Response.write_json 201 (shortened resp) → Made h.db

  pub refuse-Creates : (status : ℕ) (text : Text) → Creates (refuse status text db)
  unfolding refuse Creates
  refuse-Creates status text h = absurd (error-ne-json status text 201 (shortened resp) h)

  answer_shortened-Creates :
      (url user email : Text) (hours : ℤ) (p : Shortened × Db)
      → shorten_url parse tx base url user email hours now attempts db ≡ p
      → Creates (answer_shortened p)
  unfolding answer_shortened refuse Creates Made
  answer_shortened-Creates url user email hours (created_url r f, db') made h =
      (url, user, email, hours, f, made ∙ ap (λ x. (created_url x f, db')) cc)
  answer_shortened-Creates url user email hours (failed e, db') made h = cc

  pub handle_shorten-Creates :
      (c : Claims) (body : Option ShortenRequest)
      → Creates (handle_shorten parse tx base (some c) body now attempts db)
  unfolding handle_shorten refuse
  handle_shorten-Creates c none =
      if-both Creates (is_empty c.sub) (refuse-Creates _ _) (refuse-Creates _ _)
  handle_shorten-Creates c (some req) =
      if-both Creates (is_empty c.sub) (refuse-Creates _ _)
        (answer_shortened-Creates req.url c.sub c.email req.expires_in_hours _ refl)

  pub handle_shorten_anon-Creates :
      (body : Option ShortenRequest) (user email : Text)
      → Creates (handle_shorten_anon parse tx base body user email now attempts db)
  unfolding handle_shorten_anon refuse
  handle_shorten_anon-Creates none user email = refuse-Creates _ _
  handle_shorten_anon-Creates (some req) user email =
      answer_shortened-Creates req.url user email req.expires_in_hours _ refl

-- Where RedirectToURL has somewhere to go, HandleRedirect sends the client there with 308.
pub handle_redirect-to :
    (sha256_hex : Text → Text) (now later : ℕ) (cached : Option CachedUrl) (fault : Option DbError)
    (code remote : Text) (db : Db) (info : RedirectInfo) (fill : Option Fill)
    → is_empty code ≡ false
    → redirect_to_url sha256_hex now later cached fault code remote db ≡ to info fill
    → (handle_redirect sha256_hex now later cached fault code remote db).response
      ≡ Response.redirect 308 info.original_url
unfolding handle_redirect answer_redirected
handle_redirect-to sha256_hex now later cached fault code remote db info fill present found =
    rw (present, found) refl

-- Where RedirectToURL reads a nil pointer, HandleRedirect panics.
pub handle_redirect-panics :
    (sha256_hex : Text → Text) (now later : ℕ) (cached : Option CachedUrl) (fault : Option DbError)
    (code remote : Text) (db : Db)
    → is_empty code ≡ false
    → redirect_to_url sha256_hex now later cached fault code remote db ≡ nil_dereference
    → (handle_redirect sha256_hex now later cached fault code remote db).response ≡ Response.panics
unfolding handle_redirect answer_redirected
handle_redirect-panics sha256_hex now later cached fault code remote db present found =
    rw (present, found) refl
