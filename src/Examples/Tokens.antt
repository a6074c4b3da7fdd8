-- ===== src/Examples/Tokens.antt =====
-- A token that is issued and checked (services/user-service/token.go, shared/auth/).
use native.Mathlib.Decide.{ℕ_discrete}
use url_shortener_microservi.Prelude.{
  some_of, ◌+◌, true, false, [], ◌∷◌, ◌++◌, ℕ, ◌<◌, ◌≡◌, refl, sym, pos, Text, bytes, Option, none,
  some, text_eq, text_eq_refl, lt→ltb, some-injective, ap, subst, ◌∙◌, ltb, if◌then◌else◌, arith,
}
use url_shortener_microservi.Http.{Response}
use url_shortener_microservi.Auth.{
  Claims, ClaimValue, MapClaims, value_at, as_number, issued_claims, issue,
}
use url_shortener_microservi.User.{
  insert, register_hashed, validate_password, validate_email, register_decoded, register, User,
  Credentials, json_type, register_response, login, login_response, user_info_response,
}
use url_shortener_microservi.User.Session.{me_route, me-login}
use url_shortener_microservi.Auth.Middleware.{bearer}

ClaimValue-discrete : Discrete ClaimValue
ClaimValue-discrete = hlevel (ℕ_discrete)

MapClaims-discrete : Discrete MapClaims
MapClaims-discrete = hlevel (ℕ_discrete)

abbrev ours : MapClaims
ours = issued_claims 10 100 (bytes "ann") (bytes "ann@a.b")

-- A signature that knows one set of claims.
sign_if : (m : MapClaims) → Dec (m ≡ ours) → Option Text
sign_if m (yes e) = some (bytes "t")
sign_if m (no n) = none

sign : MapClaims → Option Text
unfolding sign_if
sign m = sign_if m (MapClaims-discrete m ours)

parse : ℕ → Text → Option MapClaims
parse now token = if ltb now 110 then some ours else none

exp-ours : as_number (value_at ours (bytes "exp")) ≡ some (pos 110)
unfolding issued_claims value_at as_number text_eq
exp-ours = refl

pos-injective : {a b : ℕ} → pos a ≡ pos b → a ≡ b
pos-injective h = cc

parse-sign :
    (m : MapClaims) (token : Text) (at exp : ℕ) (d : Dec (m ≡ ours))
    → sign_if m d ≡ some token
    → as_number (value_at m (bytes "exp")) ≡ some (pos exp)
    → at < exp
    → parse at token ≡ some m
unfolding sign_if parse
parse-sign m token at exp (no n) signed e in_time = cc
parse-sign m token at exp (yes same) signed e in_time =
    let expiry : exp ≡ 110 =
      pos-injective (
        some-injective
          (sym e ∙ (ap (λ x. as_number (value_at x (bytes "exp"))) same ∙ exp-ours))) in
    rw (lt→ltb at 110 (subst (λ x. at < x) expiry in_time), if◌then◌else◌) (ap some (sym same))

sign-parses :
    (m : MapClaims) (token : Text) (at exp : ℕ)
    → sign m ≡ some token
    → as_number (value_at m (bytes "exp")) ≡ some (pos exp)
    → at < exp
    → parse at token ≡ some m
unfolding sign
sign-parses m token at exp signed e in_time =
    parse-sign m token at exp (MapClaims-discrete m ours) signed e in_time

sign-ours : sign ours ≡ some (bytes "t")
unfolding sign
sign-ours = go (MapClaims-discrete ours ours)
  where
    go : (d : Dec (ours ≡ ours)) → sign_if ours d ≡ some (bytes "t")
    go (yes e) = refl
    go (no n) = absurd (n refl)

issue-ours : issue sign 10 100 (bytes "ann") (bytes "ann@a.b") ≡ some (bytes "t", 110)
unfolding issue
issue-ours = ap (λ o. elim o [ none ↦ none | some token ↦ some (token, 110) ]) sign-ours

-- A handler that answers the subject of its claims.
answers_sub : Option Claims → Response Text
answers_sub none = Response.write_header 500
answers_sub (some c) = Response.write_json 200 c.sub

abbrev credentials : Credentials
credentials = record { email = bytes "ann@a.b"; password = bytes "12345678" }

abbrev hash_one : Text → Option Text
hash_one p = some p

abbrev registered : User
registered = record {
  id = bytes "ann";
  email = bytes "ann@a.b";
  password_hash = bytes "12345678";
  created_at = 1;
}

verifies : (p h : Text) → hash_one p ≡ some h → text_eq p h ≡ true
verifies p h e = subst (λ x. text_eq p x ≡ true) (some-injective e) (text_eq_refl p)

me-login_example :
    (login text_eq sign 10 100 false json_type (some credentials) (registered ∷ [])
      ≡ Response.write_json 200 (login_response (bytes "t") (10 + 100)))
    × (me_route parse 50 (bearer ++ bytes "t")
        ≡ Response.write_json 200 (user_info_response (bytes "ann") (bytes "ann@a.b")))
unfolding register text_eq register_decoded validate_email some_of validate_password register_hashed
    insert
me-login_example =
    me-login hash_one text_eq verifies sign parse sign-parses (bytes "ann") 1 false json_type
      credentials [] (registered ∷ []) (register_response (bytes "ann") (bytes "ann@a.b")) 10 100 50
      (bytes "t") refl sign-ours refl (omega arith)
