-- ===== src/User/Config.antt =====
-- services/user-service/config.go, with the hasher of password.go that it configures. A duration is
-- a signed number of nanoseconds on 64 bits.
pub mod Bounds
use url_shortener_microservi.Prelude.{
  ℕ, ◌-◌, ◌*◌, ◌%◌, ◌^◌, ℤ, pos, negsuc, Bool, true, false, ◌&&◌, Text, bytes, [], ◌∷◌, Option,
  none, some, Result, is_empty, ltb, leb, if◌then◌else◌,
}
use url_shortener_microservi.Environment.{Environment, getenv, env_or_default, required, check}
use url_shortener_microservi.Url.Shorten.{hour}
use url_shortener_microservi.Url.Handler.{atoi}

pub record Config : Type 0 where
  pub database_url : Text
  pub jwt_secret : Text
  pub bcrypt_cost : ℤ
  pub token_ttl : ℤ
  pub port : Text
  pub service_name : Text

-- The test `n >= 4 && n <= 12`
cost_or_default : Option ℤ → ℤ
cost_or_default (some (pos n)) = if leb 4 n && leb n 12 then pos n else pos 12
cost_or_default (some (negsuc n)) = pos 12
cost_or_default none = pos 12

-- The low 64 bits of a number, read as a signed one.
unfoldable pub wrap64 : ℕ → ℤ
wrap64 n = let m = n % 2 ^ 64 in if ltb m (2 ^ 63) then pos m else negsuc (2 ^ 64 - 1 - m)

-- The test `n > 0`, and time.Duration(n) * time.Hour
ttl_or_default : Option ℤ → ℤ
unfolding wrap64
ttl_or_default (some (pos n)) = if ltb 0 n then wrap64 (n * hour) else pos (24 * hour)
ttl_or_default (some (negsuc n)) = pos (24 * hour)
ttl_or_default none = pos (24 * hour)

-- atoi has no value for an empty text.
unfoldable pub read_config : Environment → Config
unfolding cost_or_default ttl_or_default
read_config env = record {
  database_url = getenv env (bytes "DATABASE_URL");
  jwt_secret = getenv env (bytes "JWT_SECRET");
  bcrypt_cost = cost_or_default (atoi (getenv env (bytes "BCRYPT_COST")));
  token_ttl = ttl_or_default (atoi (getenv env (bytes "TOKEN_TTL_HOURS")));
  port = env_or_default env (bytes "PORT") (bytes "8080");
  service_name = bytes "user-service";
}

-- loadConfig
unfoldable pub load_config : Environment → Result Text Config
load_config env =
    let cfg = read_config env in
    check cfg (
      required (bytes "DATABASE_URL") cfg.database_url
      ∷ required (bytes "JWT_SECRET") cfg.jwt_secret
      ∷ [])

-- The cost of NewPasswordHasher's hasher, between bcrypt.MinCost = 4 and bcrypt.MaxCost = 31
unfoldable pub new_password_hasher : ℤ → ℤ
new_password_hasher (negsuc n) = pos 4
new_password_hasher (pos n) = if ltb n 4 then pos 4 else if ltb 31 n then pos 31 else pos n
