-- ===== src/User/Login.antt =====
-- Registration and login together (services/user-service/handler.go).
use url_shortener_microservi.Prelude.{
  ℕ, ◌+◌, ◌≡◌, refl, ap, subst, ◌∙◌, Bool, true, false, not, Text, List, [], ◌∷◌, ◌++◌, some_of,
  find_first, Option, none, some, Result, ok, err, text_eq, text_eq_refl, if◌then◌else◌, if-skips,
  ◌≢◌, arith,
}
use url_shortener_microservi.Http.{Response}
use url_shortener_microservi.Auth.{MapClaims, issue, issued_claims}
use url_shortener_microservi.User.{
  User, StoreError, duplicate_email, other_error, insert, find_by_email, validate_email,
  validate_password, Credentials, UserBody, login_response, json_type, answer_inserted,
  register_hashed, register_decoded, register, invalid_credentials, answer_issued, login_found,
  login,
}

-- A user that no row shares the address with is found after it is added.
find_first-added :
    (user : User) (users : List User)
    → some_of (λ u. text_eq u.email user.email) users ≡ false
    → find_first (λ u. text_eq u.email user.email) (users ++ user ∷ []) ≡ some user
unfolding find_first some_of
find_first-added user [] h = rw (text_eq_refl user.email) refl
find_first-added user (u ∷ us) h = ground (arith, find_first-added user us)

err-not-ok : {e : StoreError} {l : List User} → err e ≢ ok l
err-not-ok h = cc

ok-injective : {l m : List User} {r : Result StoreError (List User)} → r ≡ ok m → r ≡ ok l → l ≡ m
ok-injective h k = cc

insert-ok :
    (fault : Bool) (user : User) (users users' : List User)
    → insert fault user users ≡ ok users'
    → find_by_email false user.email users' ≡ some user
unfolding insert find_by_email
insert-ok true user users users' h = cc
insert-ok false user users users' h =
    let (free, same) =
      if-skips (some_of (λ u. text_eq u.email user.email) users) (λ q. err-not-ok q) h in
    subst (λ l. find_first (λ u. text_eq u.email user.email) l ≡ some user) (ok-injective same refl)
      (find_first-added user users free)

answer_inserted-created :
    (user : User) (users users' : List User) (r : Result StoreError (List User)) (b : UserBody)
    → answer_inserted user users r ≡ (Response.write_json 201 b, users')
    → r ≡ ok users'
unfolding answer_inserted
answer_inserted-created user users users' (ok l) b h = cc
answer_inserted-created user users users' (err duplicate_email) b h = cc
answer_inserted-created user users users' (err other_error) b h = cc

status_of : Response UserBody → ℕ
status_of (Response.write_error n t) = n
status_of (Response.write_json n b) = n
status_of (Response.write_header n) = n
status_of (Response.redirect n t) = n
status_of Response.panics = 0

refused-not-created :
    {status : ℕ} {text : Text} {b : UserBody}
    → Response.write_error status text ≢ Response.write_json 201 b
refused-not-created h = cc

field-not-created : {x y : UserBody} → Response.write_json 400 x ≢ Response.write_json 201 y
unfolding status_of
field-not-created h = let same : 400 ≡ 201 = ap status_of h in absurd (omega (arith, same))

module _ (id : Text) (now : ℕ) (fault : Bool) where
  -- The row that a registration adds.
  abbrev added : Credentials → Text → User
  added c h = record { id = id; email = c.email; password_hash = h; created_at = now }

  register_hashed-created :
      (c : Credentials) (users users' : List User) (b : UserBody) (o : Option Text)
      → register_hashed id now fault c users o ≡ (Response.write_json 201 b, users')
      → (h : Text) × (o ≡ some h) × (find_by_email false c.email users' ≡ some (added c h))
  unfolding register_hashed
  register_hashed-created c users users' b none h = absurd (refused-not-created (ap (λ p. p.0) h))
  register_hashed-created c users users' b (some x) h =
      let user = added c x in
      (
        x,
        refl,
        insert-ok fault user users users'
            (answer_inserted-created user users users' (insert fault user users) b h),
      )

  register-created :
      (hash : Text → Option Text) (content_type : Text) (c : Credentials) (users users' : List User)
      (b : UserBody)
      → register id now fault hash content_type (some c) users ≡ (Response.write_json 201 b, users')
      → (h : Text) × (hash c.password ≡ some h)
        × (find_by_email false c.email users' ≡ some (added c h))
  unfolding register register_decoded
  register-created hash content_type c users users' b h =
      let (_, decoded) =
        if-skips (not (text_eq content_type json_type)) (λ q. refused-not-created (ap (λ p. p.0) q))
          h in
      let (_, checked) =
        if-skips (not (validate_email c.email)) (λ q. field-not-created (ap (λ p. p.0) q))
          decoded in
      let (_, valid) =
        if-skips (not (validate_password c.password)) (λ q. field-not-created (ap (λ p. p.0) q))
          checked in
      register_hashed-created c users users' b (hash c.password) valid

pub issue-signed :
    (sign : MapClaims → Option Text) (now ttl : ℕ) (user_id email token : Text)
    → sign (issued_claims now ttl user_id email) ≡ some token
    → issue sign now ttl user_id email ≡ some (token, now + ttl)
unfolding issue
issue-signed sign now ttl user_id email token h = rw (h, issue) refl

-- A user who has registered, under any address and password that Register takes, logs in with the same
-- two and gets a token: one that was signed for the id that Register answered, and the address; where
-- a password verifies against its hash, the database answers the login, and the token is signed.
pub login-register :
    (hash : Text → Option Text) (verify : Text → Text → Bool)
    (verifies : (p h : Text) → hash p ≡ some h → verify p h ≡ true) (sign : MapClaims → Option Text)
    (id : Text) (now : ℕ) (fault : Bool) (content_type : Text) (c : Credentials)
    (users users' : List User) (b : UserBody) (later ttl : ℕ) (token : Text)
    → register id now fault hash content_type (some c) users ≡ (Response.write_json 201 b, users')
    → sign (issued_claims later ttl id c.email) ≡ some token
    → login verify sign later ttl false json_type (some c) users'
      ≡ Response.write_json 200 (login_response token (later + ttl))
unfolding login login_found answer_issued text_eq
login-register hash verify verifies sign id now fault content_type c users users' b later ttl token
      created signed =
    let (h, hashed, found) =
      register-created id now fault hash content_type c users users' b created in
    let user = added id now fault c h in
    ap (login_found verify sign later ttl false c) found
    ∙ (ap
          (λ x.
            if x
            then answer_issued verify sign later ttl false (issue sign later ttl id c.email)
            else invalid_credentials)
          (verifies c.password h hashed)
        ∙ ap (answer_issued verify sign later ttl false)
            (issue-signed sign later ttl id c.email token signed))
