-- ===== src/Gateway/Config.antt =====
-- gateway/config.go, with parseInt of gateway/ratelimit.go and what gateway/main.go makes of it: the
-- addresses of the services and the circuit breaker.
use url_shortener_microservi.Prelude.{
  ℕ, ◌*◌, ℤ, pos, pos_part, Text, bytes, List, [], ◌∷◌, Option, none, some, Result,
}
use url_shortener_microservi.Environment.{Environment, getenv, Required, required, check}
use url_shortener_microservi.Breaker.{CircuitBreaker, new_circuit_breaker}
use url_shortener_microservi.Gateway.Handler.{RateLimitConfig}
use url_shortener_microservi.Url.Handler.{atoi}

pub record CircuitBreakerConfig : Type 0 where
  pub max_failures : ℤ
  pub open_timeout_secs : ℤ
  pub failure_window_secs : ℤ

pub record Config : Type 0 where
  pub url_service_url : Text
  pub analytics_service_url : Text
  pub user_service_url : Text
  pub notification_service_url : Text
  pub redis_url : Text
  pub jwt_secret : Text
  pub shorten_rate_limit : RateLimitConfig
  pub redirect_rate_limit : RateLimitConfig
  pub circuit_breaker : CircuitBreakerConfig
  pub port : Text
  pub service_name : Text

value_or : Option Text → Text → Text
value_or none fallback = fallback
value_or (some v) fallback = v

-- envOrDefault, where an empty value is one
unfoldable pub env_or_default : Environment → Text → Text → Text
unfolding value_or
env_or_default env key fallback = value_or (env key) fallback

int_or : Option ℤ → ℤ → ℤ
int_or none def = def
int_or (some n) def = n

-- parseInt
unfoldable pub parse_int : Text → ℤ → ℤ
unfolding int_or
parse_int s def = int_or (atoi s) def

unfoldable pub read_config : Environment → Config
read_config env = record {
  url_service_url = getenv env (bytes "URL_SERVICE_URL");
  analytics_service_url = getenv env (bytes "ANALYTICS_SERVICE_URL");
  user_service_url = getenv env (bytes "USER_SERVICE_URL");
  notification_service_url = getenv env (bytes "NOTIFICATION_SERVICE_URL");
  redis_url = getenv env (bytes "REDIS_URL");
  jwt_secret = getenv env (bytes "JWT_SECRET");
  shorten_rate_limit = record {
    limit = parse_int (env_or_default env (bytes "SHORTEN_RATE_LIMIT") (bytes "10")) (pos 10);
    window_secs = pos 60;
  };
  redirect_rate_limit = record {
    limit = parse_int (env_or_default env (bytes "REDIRECT_RATE_LIMIT") (bytes "300")) (pos 300);
    window_secs = pos 60;
  };
  circuit_breaker = record {
    max_failures = parse_int (env_or_default env (bytes "CB_MAX_FAILURES") (bytes "5")) (pos 5);
    open_timeout_secs =
        parse_int (env_or_default env (bytes "CB_OPEN_TIMEOUT_SECS") (bytes "30")) (pos 30);
    failure_window_secs =
        parse_int (env_or_default env (bytes "CB_FAILURE_WINDOW_SECS") (bytes "10")) (pos 10);
  };
  port = env_or_default env (bytes "PORT") (bytes "8080");
  service_name = bytes "gateway";
}

-- The variables that are required.
unfoldable pub required_of : Config → List Required
required_of cfg =
    required (bytes "URL_SERVICE_URL") cfg.url_service_url
    ∷ required (bytes "ANALYTICS_SERVICE_URL") cfg.analytics_service_url
    ∷ required (bytes "USER_SERVICE_URL") cfg.user_service_url
    ∷ required (bytes "NOTIFICATION_SERVICE_URL") cfg.notification_service_url
    ∷ required (bytes "REDIS_URL") cfg.redis_url
    ∷ required (bytes "JWT_SECRET") cfg.jwt_secret
    ∷ []

-- loadConfig; `order` is the order in which the loop visits the entries of the map.
unfoldable pub load_config : (List Required → List Required) → Environment → Result Text Config
load_config order env = let cfg = read_config env in check cfg (order (required_of cfg))

-- The upstreams of gateway/main.go.
unfoldable pub upstreams : Config → List (Text × Text)
upstreams cfg =
    (bytes "url-service", cfg.url_service_url)
    ∷ (bytes "analytics-service", cfg.analytics_service_url)
    ∷ (bytes "user-service", cfg.user_service_url)
    ∷ (bytes "notification-service", cfg.notification_service_url)
    ∷ []

-- time.Duration(secs) * time.Second, for seconds that are not negative and no more than 292 years
unfoldable pub seconds : ℤ → ℕ
seconds secs = pos_part secs * 1000000000

-- The circuit breaker that main makes.
unfoldable pub breaker_of : Config → ℕ → CircuitBreaker
breaker_of cfg now =
    new_circuit_breaker cfg.circuit_breaker.max_failures
      (seconds cfg.circuit_breaker.open_timeout_secs)
      (seconds cfg.circuit_breaker.failure_window_secs) now
