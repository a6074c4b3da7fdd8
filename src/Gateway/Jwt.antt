-- ===== src/Gateway/Jwt.antt =====
-- gateway/jwtmiddleware.go: the token check in front of the routes that require one.
use url_shortener_microservi.Prelude.{
  not, ◌||◌, Text, bytes, Option, none, some, has_prefix, drop_prefix, is_empty, if◌then◌else◌,
}
use url_shortener_microservi.Gateway.Router.{Request, match_route}

abbrev pub bearer : Text
bearer = bytes "Bearer "

-- `verify` is auth.VerifyToken with the gateway's secret, `Claims` what it returns. `next` takes the
-- claims that the context carries, if any; `unauthorized` is the error that the check writes.
module _ {ℓ κ} {Claims : Type ℓ} {Answer : Type κ} (verify : Text → Option Claims)
    (unauthorized : Answer) (next : Option Claims → Request → Answer) where
  unfoldable pub check_token : Request → Answer
  check_token r =
      if is_empty r.authorization || not (has_prefix bearer r.authorization)
      then unauthorized
      else elim (verify (drop_prefix bearer r.authorization)) [
        | none ↦ unauthorized
        | some claims ↦ next (some claims) r
      ]

  unfoldable pub jwt_middleware : Request → Answer
  unfolding check_token
  jwt_middleware r = elim (match_route r) [
    | none ↦ next none r
    | some rt ↦ if rt.requires_auth then check_token r else next none r
  ]
