-- ===== src/User/Session.antt =====
-- The route GET /me of services/user-service/main.go: Me behind the middleware of
-- shared/auth/middleware.go, with a token of Login.
use url_shortener_microservi.Prelude.{
  ℕ, ◌+◌, ◌<◌, ◌≡◌, pos, Bool, true, false, Text, bytes, List, ◌++◌, Option, some, is_empty,
}
use url_shortener_microservi.Http.{Response}
use url_shortener_microservi.Auth.{MapClaims, value_at, as_number, issued_claims}
use url_shortener_microservi.Auth.Middleware.{bearer, jwt_middleware, jwt_middleware-issued}
use url_shortener_microservi.User.{
  User, UserBody, Answer, Credentials, json_type, register, login, login_response,
  user_info_response, me,
}
use url_shortener_microservi.User.Login.{login-register, issue-signed}

-- mux.Handle("GET /me", auth.JWTMiddleware(cfg.JWTSecret)(http.HandlerFunc(handler.Me)))
unfoldable pub me_route : (ℕ → Text → Option MapClaims) → ℕ → Text → Answer
me_route parse now header = jwt_middleware Response.write_error parse now header me

-- A user who has registered logs in with the same address and password, and GET /me with the token that
-- Login answers shows, until the token expires, the id that Register drew and the address; where a
-- password verifies against its hash, the database answers the login, the token is signed and not
-- empty, and a signed token is parsed, until the second of its `exp` claim, as the claims that were
-- signed.
pub me-login :
    (hash : Text → Option Text) (verify : Text → Text → Bool)
    (verifies : (p h : Text) → hash p ≡ some h → verify p h ≡ true) (sign : MapClaims → Option Text)
    (parse : ℕ → Text → Option MapClaims)
    (parses : (m : MapClaims) (token : Text) (at exp : ℕ)
      → sign m ≡ some token
      → as_number (value_at m (bytes "exp")) ≡ some (pos exp)
      → at < exp
      → parse at token ≡ some m)
    (id : Text) (now : ℕ) (fault : Bool) (content_type : Text) (c : Credentials)
    (users users' : List User) (b : UserBody) (later ttl at : ℕ) (token : Text)
    → register id now fault hash content_type (some c) users ≡ (Response.write_json 201 b, users')
    → sign (issued_claims later ttl id c.email) ≡ some token
    → is_empty token ≡ false
    → at < later + ttl
    → (login verify sign later ttl false json_type (some c) users'
        ≡ Response.write_json 200 (login_response token (later + ttl)))
      × (me_route parse at (bearer ++ token)
          ≡ Response.write_json 200 (user_info_response id c.email))
unfolding me_route me
me-login hash verify verifies sign parse parses id now fault content_type c users users' b later ttl
      at token created signed present in_time =
    (
      login-register hash verify verifies sign id now fault content_type c users users' b later ttl
          token created signed,
      jwt_middleware-issued Response.write_error sign parse parses later ttl at id c.email token
          (later + ttl) me (issue-signed sign later ttl id c.email token signed) in_time present,
    )
