-- ===== src/Auth.antt =====
-- shared/auth/auth.go and services/user-service/token.go: the claims of a token, how they are read
-- from one, and how one is issued.
pub mod Middleware
use url_shortener_microservi.Prelude.{
  arith, ℕ, ◌+◌, ◌<◌, ◌≡◌, refl, ap, ◌∙◌, ℤ, pos, Text, bytes, List, [], ◌∷◌, Option, none, some,
  text_eq, if◌then◌else◌,
}

pub record Claims : Type 0 where
  pub sub : Text
  pub email : Text
  pub iss : Text
  pub iat : ℤ
  pub exp : ℤ

-- A value of jwt.MapClaims: a string, a number (a float64, here by its integer part), or another.
pub data ClaimValue : Type 0 where
  text_value : Text → ClaimValue
  number : ℤ → ClaimValue
  other_value : ClaimValue

abbrev pub MapClaims : Type 0
MapClaims = List (Text × ClaimValue)

-- m[key]
unfoldable pub value_at : MapClaims → Text → Option ClaimValue
value_at [] key = none
value_at ((k, v) ∷ m) key = let rest = value_at m key in if text_eq k key then some v else rest

unfoldable pub as_text : Option ClaimValue → Option Text
as_text (some (text_value s)) = some s
as_text (some (number n)) = none
as_text (some other_value) = none
as_text none = none

unfoldable pub as_number : Option ClaimValue → Option ℤ
as_number (some (number n)) = some n
as_number (some (text_value s)) = none
as_number (some other_value) = none
as_number none = none

-- The five claims that are read in order, and the test of the issuer.
unfoldable pub claims_of : MapClaims → Option Claims
unfolding value_at as_text as_number
claims_of m = elim (as_text (value_at m (bytes "sub"))) [
  | none ↦ none
  | some sub ↦ elim (as_text (value_at m (bytes "email"))) [
    | none ↦ none
    | some email ↦ elim (as_text (value_at m (bytes "iss"))) [
      | none ↦ none
      | some iss ↦ elim (as_number (value_at m (bytes "iat"))) [
        | none ↦ none
        | some iat ↦ elim (as_number (value_at m (bytes "exp"))) [
          | none ↦ none
          | some exp ↦
              if text_eq iss (bytes "url-shortener")
              then some (record { sub = sub; email = email; iss = iss; iat = iat; exp = exp })
              else none
        ]
      ]
    ]
  ]
]

-- VerifyToken. `parse` is jwt.Parse with the key function of the secret at a time in seconds: it
-- answers `none` for an error and for a token that is not valid.
unfoldable pub verify_token : (ℕ → Text → Option MapClaims) → ℕ → Text → Option Claims
verify_token parse now token = elim (parse now token) [ none ↦ none | some m ↦ claims_of m ]

-- The claims that Issue signs, at a time and with a time to live in seconds.
unfoldable pub issued_claims : ℕ → ℕ → Text → Text → MapClaims
issued_claims now ttl user_id email =
    (bytes "sub", text_value user_id)
    ∷ (bytes "email", text_value email)
    ∷ (bytes "iss", text_value (bytes "url-shortener"))
    ∷ (bytes "iat", number (pos now))
    ∷ (bytes "exp", number (pos (now + ttl)))
    ∷ []

-- Issue; `sign` is SignedString with the secret.
unfoldable pub issue : (MapClaims → Option Text) → ℕ → ℕ → Text → Text → Option (Text × ℕ)
issue sign now ttl user_id email = elim (sign (issued_claims now ttl user_id email)) [
  | none ↦ none
  | some token ↦ some (token, now + ttl)
]

claims_of-issued :
    (now ttl : ℕ) (user_id email : Text)
    → claims_of (issued_claims now ttl user_id email)
      ≡ some (record {
        sub = user_id;
        email = email;
        iss = bytes "url-shortener";
        iat = pos now;
        exp = pos (now + ttl);
      })
unfolding claims_of issued_claims value_at as_text as_number text_eq
claims_of-issued now ttl user_id email = refl

exp-issued :
    (now ttl : ℕ) (user_id email : Text)
    → as_number (value_at (issued_claims now ttl user_id email) (bytes "exp"))
      ≡ some (pos (now + ttl))
unfolding issued_claims value_at as_number text_eq
exp-issued now ttl user_id email = refl

issue-sign :
    (sign : MapClaims → Option Text) (now ttl : ℕ) (user_id email : Text) {token : Text}
    {expires : ℕ}
    → issue sign now ttl user_id email ≡ some (token, expires)
    → sign (issued_claims now ttl user_id email) ≡ some token
unfolding issue
issue-sign sign now ttl user_id email h = ground arith

-- A token that Issue gives is read by VerifyToken, for as long as it has not expired, as the user and
-- the address that it was issued for, with the time of its issue and its expiry; where a signed token
-- is parsed, until the second of its `exp` claim, as the claims that were signed.
pub verify_token-issue :
    (sign : MapClaims → Option Text) (parse : ℕ → Text → Option MapClaims)
    (parses : (m : MapClaims) (token : Text) (at exp : ℕ)
      → sign m ≡ some token
      → as_number (value_at m (bytes "exp")) ≡ some (pos exp)
      → at < exp
      → parse at token ≡ some m)
    (now ttl later : ℕ) (user_id email token : Text) (expires : ℕ)
    → issue sign now ttl user_id email ≡ some (token, expires)
    → later < now + ttl
    → verify_token parse later token
      ≡ some (record {
        sub = user_id;
        email = email;
        iss = bytes "url-shortener";
        iat = pos now;
        exp = pos (now + ttl);
      })
unfolding verify_token
verify_token-issue sign parse parses now ttl later user_id email token expires issued in_time =
    let m = issued_claims now ttl user_id email in
    let signed = issue-sign sign now ttl user_id email issued in
    let parsed =
      parses m token later (now + ttl) signed (exp-issued now ttl user_id email) in_time in
    ap (λ o. elim o [ none ↦ none | some x ↦ claims_of x ]) parsed
    ∙ claims_of-issued now ttl user_id email
