-- ===== src/Analytics/Config.antt =====
-- services/analytics-service/config.go
use url_shortener_microservi.Prelude.{ℕ, Text, bytes, [], ◌∷◌, Result}
use url_shortener_microservi.Environment.{Environment, getenv, env_or_default, required, check}

pub record Config : Type 0 where
  pub database_url : Text
  pub rabbit_mq_url : Text
  pub port : Text
  pub service_name : Text
  pub ip_hash_salt : Text
  pub amqp_prefetch_count : ℕ

unfoldable pub read_config : Environment → Config
read_config env = record {
  database_url = getenv env (bytes "DATABASE_URL");
  rabbit_mq_url = getenv env (bytes "RABBITMQ_URL");
  port = env_or_default env (bytes "PORT") (bytes "8080");
  service_name = bytes "analytics-service";
  ip_hash_salt = getenv env (bytes "IP_HASH_SALT");
  amqp_prefetch_count = 1;
}

-- LoadConfig
unfoldable pub load_config : Environment → Result Text Config
load_config env =
    let cfg = read_config env in
    check cfg (
      required (bytes "DATABASE_URL") cfg.database_url
      ∷ required (bytes "RABBITMQ_URL") cfg.rabbit_mq_url
      ∷ [])
