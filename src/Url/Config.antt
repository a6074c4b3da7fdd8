-- ===== src/Url/Config.antt =====
-- services/url-service/config.go
use url_shortener_microservi.Prelude.{Text, bytes, [], ◌∷◌, Result}
use url_shortener_microservi.Environment.{Environment, getenv, env_or_default, required, check}

pub record Config : Type 0 where
  pub database_url : Text
  pub redis_url : Text
  pub rabbit_mq_url : Text
  pub jwt_secret : Text
  pub short_url_base : Text
  pub ip_hash_salt : Text
  pub port : Text
  pub service_name : Text

unfoldable pub read_config : Environment → Config
read_config env = record {
  database_url = getenv env (bytes "DATABASE_URL");
  redis_url = getenv env (bytes "REDIS_URL");
  rabbit_mq_url = getenv env (bytes "RABBITMQ_URL");
  jwt_secret = getenv env (bytes "JWT_SECRET");
  short_url_base = env_or_default env (bytes "SHORT_URL_BASE") (bytes "http://localhost:8080");
  ip_hash_salt = env_or_default env (bytes "IP_HASH_SALT") (bytes "default-salt");
  port = env_or_default env (bytes "PORT") (bytes "8080");
  service_name = bytes "url-service";
}

-- LoadConfig
unfoldable pub load_config : Environment → Result Text Config
load_config env =
    let cfg = read_config env in
    check cfg (
      required (bytes "DATABASE_URL") cfg.database_url
      ∷ required (bytes "RABBITMQ_URL") cfg.rabbit_mq_url
      ∷ required (bytes "REDIS_URL") cfg.redis_url
      ∷ required (bytes "JWT_SECRET") cfg.jwt_secret
      ∷ [])
