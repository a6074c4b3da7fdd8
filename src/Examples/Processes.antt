-- ===== src/Examples/Processes.antt =====
-- Configurations, a start, and requests to the gateway (config.go and main.go of the services, gateway/).
use url_shortener_microservi.Examples.Gateways.{counter, get, no_host, config, fails_always, calm}
use url_shortener_microservi.Examples.Fixtures.{parsed}
use url_shortener_microservi.Prelude.{
  has_prefix, text_eq, find_first, ℕ, ◌≡◌, ◌≢◌, refl, true, false, Text, bytes, List, [], ◌∷◌,
  Option, none, some, is_empty, ◌+◌, ◌⊎◌,
}
use url_shortener_microservi.Environment.{check, Environment, Required, getenv}
use url_shortener_microservi.Environment.Secrets.{IsSecret, load_config-IsSecret}
use url_shortener_microservi.Url.Handler.{atoi}
use url_shortener_microservi.Gateway.Config as GatewayConfig
use url_shortener_microservi.Analytics.Config as AnalyticsConfig
use url_shortener_microservi.Url.Config as UrlConfig
use url_shortener_microservi.User.Config as UserConfig
use url_shortener_microservi.Notification.Config as NotificationConfig
use url_shortener_microservi.User.Config.Bounds.{IsCost, ReadsCost, IsLifetime, load_config-IsCost}
use url_shortener_microservi.Logger.{Header, Request, Handler, delivered, new}
use url_shortener_microservi.Gateway.Middleware.{app}
use url_shortener_microservi.Gateway.Middleware.Traces.{Preflight, Traced, app-Traced}
use url_shortener_microservi.Gateway.Router.{
  route_matches, routing_table, redirect_route, match_route,
}
use url_shortener_microservi.Gateway.Proxy.{Outgoing, lookup, do_proxy, serve_http_status}
use url_shortener_microservi.Gateway.Proxy.Targets.{serve_http_status-HasBase}
use url_shortener_microservi.Gateway.Handler.{state_number}
use url_shortener_microservi.Gateway.Gauge.{Arrival, gauge, serve_all, serve_all-gauge}
use url_shortener_microservi.Startup.{
  Answers, analytics_main, notification_main, url_service_main, user_service_main,
}
use url_shortener_microservi.Startup.Order.{InOrder, main-InOrder}

-- Every variable is "5".
abbrev fives : Environment
fives key = some (bytes "5")

abbrev in_order : List Required → List Required
in_order rs = rs

load_config-IsSecret_example :
    IsSecret fives (GatewayConfig.read_config fives).jwt_secret
    × IsSecret fives (UrlConfig.read_config fives).jwt_secret
    × IsSecret fives (UserConfig.read_config fives).jwt_secret
    × IsSecret fives (NotificationConfig.read_config fives).jwt_secret
unfolding GatewayConfig.load_config GatewayConfig.required_of GatewayConfig.read_config
    UrlConfig.load_config UrlConfig.read_config UserConfig.load_config UserConfig.read_config
    NotificationConfig.load_config NotificationConfig.read_config check getenv
load_config-IsSecret_example =
    load_config-IsSecret fives in_order (λ p rs. refl) (GatewayConfig.read_config fives)
      (UrlConfig.read_config fives) (UserConfig.read_config fives)
      (NotificationConfig.read_config fives) refl refl refl refl

load_config-IsCost_example :
    IsCost (UserConfig.read_config fives).bcrypt_cost
    × ReadsCost
        (atoi (getenv fives (bytes "BCRYPT_COST")))
        (UserConfig.read_config fives).bcrypt_cost
    × IsLifetime
        (atoi (getenv fives (bytes "TOKEN_TTL_HOURS")))
        (UserConfig.read_config fives).token_ttl
unfolding UserConfig.load_config UserConfig.read_config check getenv
load_config-IsCost_example = load_config-IsCost fives (UserConfig.read_config fives) refl

abbrev incoming : Request
incoming = record {
  method = bytes "GET";
  path = bytes "/r/abc";
  correlation_id = [];
  context_id = [];
}

-- Handlers that write 404.
abbrev not_found : Handler
not_found header r = record {
  reply = record { writes = 404 ∷ []; header = header; sent = some header };
  correlation_id = r.correlation_id;
  lines = [];
}

abbrev unset : Header
unset = record { correlation_id = none; allows_origin = false }

abbrev drawn : Option Text
drawn = some (1 ∷ 2 ∷ [])

abbrev undrawn : Option Text
undrawn = some []

one-ne-empty : drawn ≢ undrawn
one-ne-empty h = cc

app-Traced_example :
    Preflight
      (new (bytes "gateway"))
      drawn
      not_found
      unset
      incoming
      (app (new (bytes "gateway")) drawn not_found unset incoming)
    ⊎ Traced
        (new (bytes "gateway"))
        drawn
        not_found
        unset
        incoming
        (app (new (bytes "gateway")) drawn not_found unset incoming)
unfolding delivered
app-Traced_example =
    app-Traced (new (bytes "gateway")) drawn not_found unset incoming one-ne-empty refl
      (λ w q. refl) (λ w q. refl)

abbrev answers_200 : Outgoing → Option ℕ
answers_200 out = some 200

serve_http_status-HasBase_example :
    (base : Text) × (is_empty base ≡ false)
    × (lookup redirect_route.upstream (GatewayConfig.upstreams (GatewayConfig.read_config fives))
        ≡ some base)
    × (serve_http_status parsed no_host answers_200
          (GatewayConfig.upstreams (GatewayConfig.read_config fives))
          redirect_route.upstream
          (bytes "/abc")
          (get (bytes "/r/abc") [])
        ≡ do_proxy parsed no_host answers_200 base (bytes "/abc") (get (bytes "/r/abc") []))
unfolding GatewayConfig.load_config GatewayConfig.required_of GatewayConfig.read_config check getenv
    match_route find_first routing_table route_matches text_eq has_prefix
serve_http_status-HasBase_example =
    serve_http_status-HasBase in_order (λ p rs. refl) fives (GatewayConfig.read_config fives) refl
      parsed no_host answers_200 (bytes "/abc") (get (bytes "/r/abc") []) redirect_route refl

abbrev all_well : Answers
all_well = record {
  parses_url = true;
  creates_pool = true;
  pings = true;
  migrates = true;
  connects = true;
  declares_queue = true;
  consumes = true;
  consumer_first = true;
  serves = true;
}

main-InOrder_example :
    InOrder true true (analytics_main fives all_well).effects
    × InOrder true true (notification_main fives all_well).effects
    × InOrder true true (url_service_main fives all_well).effects
    × InOrder false true (user_service_main fives all_well).effects
unfolding NotificationConfig.load_config NotificationConfig.read_config UrlConfig.load_config
    UrlConfig.read_config UserConfig.load_config UserConfig.read_config AnalyticsConfig.load_config
    AnalyticsConfig.read_config check getenv
main-InOrder_example = main-InOrder fives all_well

abbrev arrival : ℕ → Arrival counter true no_host config fails_always
arrival t = record {
  start = t;
  finish = t + 1;
  context_error = none;
  asked = get (bytes "/r/abc") [];
}

serve_all-gauge_example :
    gauge 0 (serve_all counter true no_host config fails_always (arrival 1 ∷ arrival 3 ∷ []) calm).1
    ≡ state_number
        (serve_all counter true no_host config fails_always
          (arrival 1 ∷ arrival 3 ∷ [])
          calm).0.breaker.state
unfolding state_number
serve_all-gauge_example =
    serve_all-gauge counter true no_host config fails_always (arrival 1 ∷ arrival 3 ∷ []) 0 calm
      refl
