-- ===== src/User.antt =====
-- user-service: the handlers (services/user-service/handler.go), the table of users (store.go) under
-- the constraint UNIQUE(email) of migration.sql, validate.go, and the errors of errors.go. bcrypt is a
-- parameter: `hash` is Hash of password.go, with `none` for an error, and `verify` is Verify, with
-- `true` for a nil error (its two errors get one answer).
pub mod Config
pub mod Login
pub mod Session
pub mod Routes
use url_shortener_microservi.Prelude.{
  ℕ, zero, suc, ◌+◌, Bool, true, false, not, ◌&&◌, ◌||◌, Text, bytes, List, [], ◌∷◌, ◌++◌, length,
  some_of, find_first, Option, none, some, Result, ok, err, text_eq, is_empty, ltb, ◌==◌,
  if◌then◌else◌,
}
use url_shortener_microservi.Http.{Response}
use url_shortener_microservi.Auth.{Claims, MapClaims, issue}

-- A row of `users`.
pub record User : Type 0 where
  pub id : Text
  pub email : Text
  pub password_hash : Text
  pub created_at : ℕ

-- The errors of Insert that the code tells apart.
pub data StoreError : Type 0 where
  duplicate_email other_error : StoreError

-- pgxUserStore.Insert; the database draws the id and the time, which `user` has.
unfoldable pub insert : Bool → User → List User → Result StoreError (List User)
insert fault user users =
    if fault
    then err other_error
    else if some_of (λ u. text_eq u.email user.email) users
    then err duplicate_email
    else ok (users ++ user ∷ [])

-- pgxUserStore.FindByEmail, with `none` for the nil user that each of its errors comes with
unfoldable pub find_by_email : Bool → Text → List User → Option User
find_by_email fault email users =
    if fault then none else find_first (λ u. text_eq u.email email) users

-- \s of the expression: a tab, a line feed, a form feed, a carriage return or a space
is_space : ℕ → Bool
is_space c = c == 9 || (c == 10 || (c == 12 || (c == 13 || c == 32)))

-- Whether there is a `.` that is not the last character.
dot_inside : Text → Bool
dot_inside [] = false
dot_inside (c ∷ []) = false
dot_inside (c ∷ d ∷ s) = c == b'.' || dot_inside (d ∷ s)

-- [^@\s]+\.[^@\s]+ on the whole text
domain_matches : Text → Bool
unfolding is_space dot_inside
domain_matches [] = false
domain_matches (c ∷ s) = not (some_of (λ x. x == b'@' || is_space x) (c ∷ s)) && dot_inside s

-- [^@\s]*@ and the domain
local_matches : Text → Bool
unfolding is_space domain_matches
local_matches [] = false
local_matches (c ∷ s) =
    let rest = local_matches s in if c == b'@' then domain_matches s else not (is_space c) && rest

-- validateEmail, `true` for a nil error
unfoldable pub validate_email : Text → Bool
unfolding is_space local_matches
validate_email [] = false
validate_email (c ∷ s) = not (c == b'@' || is_space c) && local_matches s

-- validatePassword
unfoldable pub validate_password : Text → Bool
validate_password p = not (ltb (length p) 8)

-- registerRequest and loginRequest
pub record Credentials : Type 0 where
  pub email : Text
  pub password : Text

pub data UserBody : Type 0 where
  register_response : Text → Text → UserBody
  login_response : Text → ℕ → UserBody
  user_info_response : Text → Text → UserBody
  field_error_response : Text → Text → UserBody
  health_response : Text → UserBody

abbrev pub Answer : Type 0
Answer = Response UserBody

abbrev field_error : Text → Text → Answer
field_error message field = Response.write_json 400 (field_error_response message field)

abbrev internal_error : Answer
internal_error = Response.write_error 500 (bytes "internal server error")

abbrev pub json_type : Text
json_type = bytes "application/json"

unfoldable pub answer_inserted :
    User → List User → Result StoreError (List User) → Answer × List User
answer_inserted user users (ok users') =
    (Response.write_json 201 (register_response user.id user.email), users')
answer_inserted user users (err duplicate_email) =
    (Response.write_error 409 (bytes "email already registered"), users)
answer_inserted user users (err other_error) = (internal_error, users)

module _ (id : Text) (now : ℕ) (fault : Bool) where
  -- What follows the hash.
  unfoldable pub register_hashed : Credentials → List User → Option Text → Answer × List User
  unfolding answer_inserted
  register_hashed c users none = (internal_error, users)
  register_hashed c users (some h) =
      let user : User = record { id = id; email = c.email; password_hash = h; created_at = now } in
      answer_inserted user users (insert fault user users)

  -- The two validations.
  unfoldable pub register_decoded :
      (Text → Option Text) → Credentials → List User → Answer × List User
  register_decoded hash c users =
      if not (validate_email c.email)
      then (field_error (bytes "invalid email format") (bytes "email"), users)
      else if not (validate_password c.password)
      then (field_error (bytes "password must be at least 8 characters") (bytes "password"), users)
      else register_hashed c users (hash c.password)

  -- Register; the body is `none` where it is not the JSON of a request, or is longer than 1 MiB.
  unfoldable pub register :
      (Text → Option Text) → Text → Option Credentials → List User → Answer × List User
  register hash content_type body users =
      if not (text_eq content_type json_type)
      then (Response.write_error 415 (bytes "content-type must be application/json"), users)
      else elim body [
        | none ↦ (Response.write_error 400 (bytes "invalid request body"), users)
        | some c ↦ register_decoded hash c users
      ]

abbrev pub invalid_credentials : Answer
invalid_credentials = Response.write_error 401 (bytes "invalid credentials")

module _ (verify : Text → Text → Bool) (sign : MapClaims → Option Text) (now ttl : ℕ)
    (fault : Bool) where
  -- What follows the password.
  unfoldable pub answer_issued : Option (Text × ℕ) → Answer
  answer_issued none = internal_error
  answer_issued (some (token, expires)) = Response.write_json 200 (login_response token expires)

  -- What follows the query. For a nil user a password is verified against a constant and the result
  -- is dropped.
  unfoldable pub login_found : Credentials → Option User → Answer
  login_found c none = invalid_credentials
  login_found c (some user) =
      if verify c.password user.password_hash
      then answer_issued (issue sign now ttl user.id user.email)
      else invalid_credentials

  -- Login
  unfoldable pub login : Text → Option Credentials → List User → Answer
  login content_type body users =
      if not (text_eq content_type json_type)
      then Response.write_error 415 (bytes "content-type must be application/json")
      else elim body [
        | none ↦ Response.write_error 400 (bytes "invalid request body")
        | some c ↦ login_found c (find_by_email fault c.email users)
      ]

-- Me
unfoldable pub me : Option Claims → Answer
me none = Response.write_error 401 (bytes "unauthorized")
me (some claims) = Response.write_json 200 (user_info_response claims.sub claims.email)
