-- ===== src/Auth/Middleware.antt =====
-- shared/auth/middleware.go: the check of the token in front of the services' handlers. `parse` is
-- jwt.Parse, as for VerifyToken.
use url_shortener_microservi.Prelude.{
  ℕ, ◌+◌, ◌<◌, ◌≡◌, refl, sym, pos, false, Text, bytes, ◌++◌, Option, none, some, is_empty,
  has_prefix, drop_prefix, has_prefix-append, has_prefix-append_drop, drop_prefix-append,
  if◌then◌else◌, if-both, if-cases, Option-cases, inl, inr, subst,
}
use url_shortener_microservi.Http.{Response, error-ne-json}
use url_shortener_microservi.Auth.{
  Claims, MapClaims, value_at, as_number, verify_token, issue, verify_token-issue,
}

abbrev pub bearer : Text
bearer = bytes "Bearer "

module _ {ℓ} {A : Type ℓ} (write_json_error : ℕ → Text → A) where
  -- The handler is given the claims that ClaimsFromContext finds.
  unfoldable pub with_claims : (Option Claims → A) → Option Claims → A
  with_claims next none = write_json_error 401 (bytes "unauthorized")
  with_claims next (some claims) = next (some claims)

  -- JWTMiddleware, on the value of the header Authorization
  unfoldable pub jwt_middleware : (ℕ → Text → Option MapClaims) → ℕ → Text → (Option Claims → A) → A
  unfolding with_claims
  jwt_middleware parse now header next =
      if is_empty header
      then write_json_error 401 (bytes "authorization header required")
      else if has_prefix bearer header
      then (if is_empty (drop_prefix bearer header)
          then write_json_error 401 (bytes "token is required")
          else with_claims next (verify_token parse now (drop_prefix bearer header)))
      else write_json_error 401 (bytes "invalid authorization header format")

  -- What holds of every refusal with 401, and of what the handler answers to the claims of a token
  -- that VerifyToken accepts and that stands behind "Bearer " in the header, holds of the answer.
  pub jwt_middleware-cases {κ} :
      (P : A → Type κ) (parse : ℕ → Text → Option MapClaims) (now : ℕ) (header : Text)
      (next : Option Claims → A)
      → ((text : Text) → P (write_json_error 401 text))
      → ((token : Text) (c : Claims)
          → header ≡ bearer ++ token
          → verify_token parse now token ≡ some c
          → P (next (some c)))
      → P (jwt_middleware parse now header next)
  unfolding jwt_middleware with_claims
  jwt_middleware-cases P parse now header next refused passed =
      if-both P (is_empty header) (refused _) (
        if-cases P (has_prefix bearer header)
          (λ prefixed.
            let token = drop_prefix bearer header in
            if-both P (is_empty token) (refused _)
              (elim (Option-cases (verify_token parse now token)) [
                | inl invalid ↦ subst (λ o. P (with_claims next o)) (sym invalid) (refused _)
                | inr (c, verified) ↦
                    subst (λ o. P (with_claims next o)) (sym verified)
                      (passed token c (sym (has_prefix-append_drop bearer header prefixed))
                        verified)
              ]))
          (λ other. refused _))

  -- A token that VerifyToken accepts, behind "Bearer ", reaches the handler with its claims.
  pub jwt_middleware-passes :
      (parse : ℕ → Text → Option MapClaims) (now : ℕ) (token : Text) (c : Claims)
      (next : Option Claims → A)
      → is_empty token ≡ false
      → verify_token parse now token ≡ some c
      → jwt_middleware parse now (bearer ++ token) next ≡ next (some c)
  unfolding jwt_middleware with_claims
  jwt_middleware-passes parse now token c next present verified =
      rw
        (
          has_prefix-append bearer token,
          drop_prefix-append bearer token,
          present,
          verified,
          if◌then◌else◌,
        )
        refl

  -- A token that Issue of user-service gives passes the middleware for as long as it has not expired,
  -- and the handler has the user and the address that it was issued for; where a signed token is
  -- parsed, until the second of its `exp` claim, as the claims that were signed.
  pub jwt_middleware-issued :
      (sign : MapClaims → Option Text) (parse : ℕ → Text → Option MapClaims)
      (parses : (m : MapClaims) (token : Text) (at exp : ℕ)
        → sign m ≡ some token
        → as_number (value_at m (bytes "exp")) ≡ some (pos exp)
        → at < exp
        → parse at token ≡ some m)
      (now ttl later : ℕ) (user_id email token : Text) (expires : ℕ) (next : Option Claims → A)
      → issue sign now ttl user_id email ≡ some (token, expires)
      → later < now + ttl
      → is_empty token ≡ false
      → jwt_middleware parse later (bearer ++ token) next
        ≡ next (
            some (record {
              sub = user_id;
              email = email;
              iss = bytes "url-shortener";
              iat = pos now;
              exp = pos (now + ttl);
            }))
  jwt_middleware-issued sign parse parses now ttl later user_id email token expires next issued
        in_time present =
      jwt_middleware-passes parse later token _ next present (
        verify_token-issue sign parse parses now ttl later user_id email token expires issued
          in_time)

module _ {ℓ} {Body : Type ℓ} where
  -- A JSON body behind JWTMiddleware was written by the handler, for the claims of a token that
  -- VerifyToken accepts and that stands behind "Bearer " in the header.
  pub jwt_middleware-verified :
      (parse : ℕ → Text → Option MapClaims) (now : ℕ) (header : Text)
      (next : Option Claims → Response Body) (status : ℕ) (body : Body)
      → jwt_middleware Response.write_error parse now header next ≡ Response.write_json status body
      → (token : Text) × (c : Claims) × (header ≡ bearer ++ token)
        × (verify_token parse now token ≡ some c)
        × (next (some c) ≡ Response.write_json status body)
  jwt_middleware-verified parse now header next status body =
      jwt_middleware-cases Response.write_error
        (λ answer.
          answer ≡ Response.write_json status body
          → (token : Text) × (c : Claims) × (header ≡ bearer ++ token)
            × (verify_token parse now token ≡ some c)
            × (next (some c) ≡ Response.write_json status body))
        parse now header next (λ text h. absurd (error-ne-json 401 text status body h))
        (λ token c given verified h. (token, c, given, verified, h))
