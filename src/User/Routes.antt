-- ===== src/User/Routes.antt =====
-- The routes of services/user-service/main.go. `metrics` is what promhttp.Handler answers.
use url_shortener_microservi.Prelude.{
  ℕ, ◌≡◌, refl, sym, Bool, true, false, not, Text, bytes, List, [], ◌∷◌, Option, none, some, Result,
  ok, err, text_eq, text_eq-ne, if-both, if-cases, ◌≢◌,
}
use url_shortener_microservi.Http.{Response}
use url_shortener_microservi.Http.Mux.{literal, Route, route, serve, serve-cases}
use url_shortener_microservi.Http.Mux.Paths.{literal-path, method_of}
use url_shortener_microservi.Auth.{MapClaims}
use url_shortener_microservi.User.{
  User, StoreError, duplicate_email, other_error, Answer, UserBody, Credentials, json_type,
  validate_email, validate_password, insert, answer_inserted, register_hashed, register_decoded,
  register, login,
}
use url_shortener_microservi.User.Session.{me_route}

-- What the service reads of a request; the body is `none` where it is not the JSON of one.
pub record Request : Type 0 where
  pub method : Text
  pub path : List Text
  pub authorization : Text
  pub content_type : Text
  pub body : Option Credentials

-- What the handlers draw, and whether the database answers with an error.
pub record Env : Type 0 where
  pub id : Text
  pub now : ℕ
  pub fault : Bool

post-ne-get : bytes "POST" ≢ bytes "GET"
unfolding text_eq
post-ne-get = text_eq-ne (bytes "POST") (bytes "GET") refl

module _ (hash : Text → Option Text) (verify : Text → Text → Bool) (sign : MapClaims → Option Text)
    (parse : ℕ → Text → Option MapClaims) (ttl : ℕ) (metrics : Answer) where
  unfoldable pub routes : Env → Request → List User → List (Route (Answer × List User))
  routes e r users =
      route (bytes "POST") (literal (bytes "register") ∷ [])
        (λ vs. register e.id e.now e.fault hash r.content_type r.body users)
      ∷ route (bytes "POST") (literal (bytes "login") ∷ [])
          (λ vs. (login verify sign e.now ttl e.fault r.content_type r.body users, users))
      ∷ route (bytes "GET") (literal (bytes "me") ∷ [])
          (λ vs. (me_route parse e.now r.authorization, users))
      ∷ route (bytes "GET") (literal (bytes "health") ∷ [])
          (λ vs. (Response.write_json 200 (UserBody.health_response (bytes "user-service")), users))
      ∷ route (bytes "GET") (literal (bytes "metrics") ∷ []) (λ vs. (metrics, users))
      ∷ []

  -- A request, by the ServeMux
  unfoldable pub serve_request : Env → Request → List User → Answer × List User
  serve_request e r users =
      serve (λ status text. (Response.write_error status text, users)) (routes e r users) r.method
        r.path

  module _ (e : Env) (r : Request) (users : List User) where
    -- The accounts are as before, or POST /register has added one, as Insert does.
    pub data Registers (p : Answer × List User) : Type 0 where
      unchanged : p.1 ≡ users → Registers p
      registered :
          (c : Credentials) (h : Text)
          → r.method ≡ bytes "POST"
          → r.path ≡ bytes "register" ∷ []
          → r.body ≡ some c
          → validate_email c.email ≡ true
          → validate_password c.password ≡ true
          → hash c.password ≡ some h
          → insert e.fault
              (record { id = e.id; email = c.email; password_hash = h; created_at = e.now })
              users
            ≡ ok p.1
          → p.0 ≡ Response.write_json 201 (UserBody.register_response e.id c.email)
          → Registers p

    module _ (at : r.method ≡ bytes "POST") (path : r.path ≡ bytes "register" ∷ [])
        (c : Credentials) (body : r.body ≡ some c) (email : validate_email c.email ≡ true)
        (password : validate_password c.password ≡ true) where
      inserted-Registers :
          (h : Text) (stored : Result StoreError (List User))
          → hash c.password ≡ some h
          → insert e.fault
              (record { id = e.id; email = c.email; password_hash = h; created_at = e.now })
              users
            ≡ stored
          → Registers (
              answer_inserted
                (record { id = e.id; email = c.email; password_hash = h; created_at = e.now })
                users
                stored)
      unfolding answer_inserted
      inserted-Registers h (ok users') hashed done =
          Registers.registered c h at path body email password hashed done refl
      inserted-Registers h (err duplicate_email) hashed done = Registers.unchanged refl
      inserted-Registers h (err other_error) hashed done = Registers.unchanged refl

      hashed-Registers :
          (o : Option Text)
          → hash c.password ≡ o
          → Registers (register_hashed e.id e.now e.fault c users o)
      unfolding register_hashed
      hashed-Registers none hashed = Registers.unchanged refl
      hashed-Registers (some h) hashed = inserted-Registers h _ hashed refl

    not-false : (b : Bool) → not b ≡ false → b ≡ true
    not-false true h = refl
    not-false false h = sym h

    register-Registers :
        r.method ≡ bytes "POST"
        → r.path ≡ bytes "register" ∷ []
        → (body : Option Credentials) → r.body ≡ body
        → Registers (register e.id e.now e.fault hash r.content_type body users)
    unfolding register register_decoded
    register-Registers at path none body =
        if-both Registers (not (text_eq r.content_type json_type)) (Registers.unchanged refl)
          (Registers.unchanged refl)
    register-Registers at path (some c) body =
        if-both Registers (not (text_eq r.content_type json_type)) (Registers.unchanged refl) (
          if-cases Registers (not (validate_email c.email)) (λ bad. Registers.unchanged refl)
            (λ email.
              if-cases Registers (not (validate_password c.password))
                (λ bad. Registers.unchanged refl)
                (λ password.
                  hashed-Registers at path c body (not-false _ email) (not-false _ password)
                    (hash c.password) refl)))

    -- Whatever is asked of user-service, its accounts are as before, or it was POST /register with a
    -- valid address and password, which Insert has added with their hash, and which is answered 201.
    pub serve_request-Registers : Registers (serve_request e r users)
    unfolding serve_request routes
    serve_request-Registers =
        serve-cases Registers _ _ r.method r.path (λ status text. Registers.unchanged refl)
          (λ m allowed. (
            (λ vs found_method found.
                register-Registers (method_of m r.method post-ne-get found_method allowed)
                  (literal-path (bytes "register") r.path vs found) r.body refl),
            (
              (λ vs found_method found. Registers.unchanged refl),
              (
                (λ vs found_method found. Registers.unchanged refl),
                (
                  (λ vs found_method found. Registers.unchanged refl),
                  ((λ vs found_method found. Registers.unchanged refl), tt),
                ),
              ),
            ),
          ))
