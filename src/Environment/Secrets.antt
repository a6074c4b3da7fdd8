-- ===== src/Environment/Secrets.antt =====
-- The secret with which user-service signs tokens (services/user-service/config.go), and those with
-- which the gateway, url-service and notification-service check them (their config.go).
use url_shortener_microservi.Prelude.{
  ◌≡◌, refl, sym, subst, ◌∙◌, Bool, false, Text, bytes, List, ok, is_empty, some_of,
}
use url_shortener_microservi.Environment.{
  Environment, getenv, Required, missing, check-ok, some_of-cons,
}
use url_shortener_microservi.Gateway.Config as GatewayConfig
use url_shortener_microservi.Url.Config as UrlConfig
use url_shortener_microservi.User.Config as UserConfig
use url_shortener_microservi.Notification.Config as NotificationConfig

-- A secret that is the one of the environment, and is not empty.
pub IsSecret : Environment → Text → Type 0
IsSecret env secret = (secret ≡ getenv env (bytes "JWT_SECRET")) × (is_empty secret ≡ false)

gateway-IsSecret :
    (env : Environment) (order : List Required → List Required)
    (visits : (p : Required → Bool) (rs : List Required) → some_of p (order rs) ≡ some_of p rs)
    (cfg : GatewayConfig.Config)
    → GatewayConfig.load_config order env ≡ ok cfg
    → IsSecret env cfg.jwt_secret
unfolding GatewayConfig.load_config GatewayConfig.read_config IsSecret GatewayConfig.required_of
gateway-IsSecret env order visits cfg h =
    let (all, same) = check-ok (GatewayConfig.read_config env) cfg _ h in
    let (_, r1) =
      some_of-cons _ _
        (sym (visits missing (GatewayConfig.required_of (GatewayConfig.read_config env))) ∙ all) in
    let (_, r2) = some_of-cons _ _ r1 in
    let (_, r3) = some_of-cons _ _ r2 in
    let (_, r4) = some_of-cons _ _ r3 in
    let (_, r5) = some_of-cons _ _ r4 in
    let (present, _) = some_of-cons _ _ r5 in
    subst (λ (c : GatewayConfig.Config). IsSecret env c.jwt_secret) same (refl, present)

url-IsSecret :
    (env : Environment) (cfg : UrlConfig.Config)
    → UrlConfig.load_config env ≡ ok cfg
    → IsSecret env cfg.jwt_secret
unfolding UrlConfig.load_config UrlConfig.read_config IsSecret
url-IsSecret env cfg h =
    let (all, same) = check-ok (UrlConfig.read_config env) cfg _ h in
    let (_, r1) = some_of-cons _ _ all in
    let (_, r2) = some_of-cons _ _ r1 in
    let (_, r3) = some_of-cons _ _ r2 in
    let (present, _) = some_of-cons _ _ r3 in
    subst (λ (c : UrlConfig.Config). IsSecret env c.jwt_secret) same (refl, present)

user-IsSecret :
    (env : Environment) (cfg : UserConfig.Config)
    → UserConfig.load_config env ≡ ok cfg
    → IsSecret env cfg.jwt_secret
unfolding UserConfig.load_config UserConfig.read_config IsSecret
user-IsSecret env cfg h =
    let (all, same) = check-ok (UserConfig.read_config env) cfg _ h in
    let (_, r1) = some_of-cons _ _ all in
    let (present, _) = some_of-cons _ _ r1 in
    subst (λ (c : UserConfig.Config). IsSecret env c.jwt_secret) same (refl, present)

notification-IsSecret :
    (env : Environment) (cfg : NotificationConfig.Config)
    → NotificationConfig.load_config env ≡ ok cfg
    → IsSecret env cfg.jwt_secret
unfolding NotificationConfig.load_config NotificationConfig.read_config IsSecret
notification-IsSecret env cfg h =
    let (all, same) = check-ok (NotificationConfig.read_config env) cfg _ h in
    let (_, r1) = some_of-cons _ _ all in
    let (_, r2) = some_of-cons _ _ r1 in
    let (present, _) = some_of-cons _ _ r2 in
    subst (λ (c : NotificationConfig.Config). IsSecret env c.jwt_secret) same (refl, present)

-- Where LoadConfig of the gateway, url-service, user-service and notification-service succeed on one
-- environment, the JWT secret of each configuration is the value of JWT_SECRET, which is not empty; if
-- the loop over the gateway's map visits each of its entries.
pub load_config-IsSecret :
    (env : Environment) (order : List Required → List Required)
    (visits : (p : Required → Bool) (rs : List Required) → some_of p (order rs) ≡ some_of p rs)
    (gateway : GatewayConfig.Config) (url : UrlConfig.Config) (user : UserConfig.Config)
    (notification : NotificationConfig.Config)
    → GatewayConfig.load_config order env ≡ ok gateway
    → UrlConfig.load_config env ≡ ok url
    → UserConfig.load_config env ≡ ok user
    → NotificationConfig.load_config env ≡ ok notification
    → IsSecret env gateway.jwt_secret
      × IsSecret env url.jwt_secret
      × IsSecret env user.jwt_secret
      × IsSecret env notification.jwt_secret
load_config-IsSecret env order visits gateway url user notification g u s n = (
  gateway-IsSecret env order visits gateway g,
  url-IsSecret env url u,
  user-IsSecret env user s,
  notification-IsSecret env notification n,
)
