-- ===== src/Gateway/Handler.antt =====
-- gateway/handler.go and gateway/proxy.go: Handler.ServeHTTP, with the parts that it calls.
use url_shortener_microservi.Prelude.{
  ℕ, ◌/◌, ℤ, Bool, true, false, not, ◌&&◌, Text, bytes, List, [], ◌∷◌, ◌++◌, Option, none, some,
  text_eq, is_empty, leb, ◌==◌, if◌then◌else◌,
}
use url_shortener_microservi.Breaker.{
  State, closed, open_state, half_open, CircuitBreaker, Transition, Upstream, context_done, fails,
  succeeds, Outcome, circuit_open, do_call, is_open,
}
use url_shortener_microservi.Gateway.Router.{
  Request, Route, url_service, match_route, upstream_path,
}
use url_shortener_microservi.Gateway.RateLimit.{
  Redis, Allowed, answer, allow, rate_limit_key, client_ip,
}
use url_shortener_microservi.Gateway.Decimal.{format_int}

-- RateLimitConfig
pub record RateLimitConfig : Type 0 where
  pub limit : ℤ
  pub window_secs : ℤ

-- The part of Config that a request reads.
pub record Config : Type 0 where
  pub shorten_rate_limit : RateLimitConfig
  pub redirect_rate_limit : RateLimitConfig

-- What the client is answered: an error of the gateway, the 429 with its Retry-After, a response of
-- a service asked for a path, or nothing.
pub data Answer : Type 0 where
  refused : ℕ → Text → Answer
  limited : Text → Answer
  forwarded : Text → Text → ℕ → Answer
  nothing : Answer

-- The counters and gauges of gateway/metrics.go that change, in order.
pub data Metric : Type 0 where
  request_class : Text → ℕ → Metric
  request_circuit_open : Metric
  breaker_rejected : Metric
  breaker_state : ℕ → Metric
  breaker_trip : Metric

-- float64(s) in recordCBState
unfoldable pub state_number : State → ℕ
state_number closed = 0
state_number open_state = 1
state_number half_open = 2

-- The callback that gateway/main.go gives to WithStateChange.
unfoldable pub on_state_change : Transition → List Metric
on_state_change t =
    breaker_state (state_number t.to_state) ∷ (if is_open t.to_state then breaker_trip ∷ [] else [])

unfoldable pub on_state_changes : List Transition → List Metric
on_state_changes [] = []
on_state_changes (t ∷ ts) = on_state_change t ++ on_state_changes ts

-- recordUpstreamMetrics
unfoldable pub upstream_metrics : Text → ℕ → Metric
upstream_metrics upstream status = request_class upstream (if status == 0 then 5 else status / 100)

-- A proxied response: its status, and whether the proxy failed.
pub record Proxied : Type 0 where
  pub status : ℕ
  pub failed : Bool

-- The state that requests share.
pub record Shared (redis : Redis) : Type 0 where
  pub breaker : CircuitBreaker
  pub counters : redis.Store

pub record Served (redis : Redis) : Type 0 where
  pub shared : Shared redis
  pub reply : Answer
  pub metrics : List Metric

-- `limiter` says whether the handler has one.
module _ (redis : Redis) (limiter : Bool) (split_host_port : Text → Option Text)
    (cfg : Config) where
  -- checkRateLimit
  unfoldable pub check_rate_limit : Text → Request → redis.Store → Allowed × redis.Store
  check_rate_limit key r s =
      let limits =
        if text_eq key (bytes "shorten") then cfg.shorten_rate_limit else cfg.redirect_rate_limit in
      let client = client_ip split_host_port r.forwarded_for r.real_ip r.remote_addr in
      let asked = allow redis (rate_limit_key key client) limits.limit limits.window_secs s in
      if limiter then asked else (answer true 0 false, s)

-- The closure that the circuit breaker calls; the first argument is the error of a context that is
-- done before the service is called.
unfoldable pub call_upstream : Option ℕ → Proxied → Upstream
call_upstream (some e) p = context_done e
call_upstream none p =
    if p.failed then fails 0 else if leb 500 p.status then fails p.status else succeeds

-- What the client gets when Do has returned.
unfoldable pub after_do : Option ℕ → Text → Proxied → Outcome → Answer × List Metric
after_do _ path p circuit_open =
    (refused 503 (bytes "url-service unavailable"), breaker_rejected ∷ request_circuit_open ∷ [])
after_do (some e) path p outcome = (nothing, [])
after_do none path p outcome =
    (forwarded url_service path p.status, upstream_metrics url_service p.status ∷ [])

-- `proxy` is what ServeHTTPStatus gets from a service for a path.
module _ (redis : Redis) (limiter : Bool) (split_host_port : Text → Option Text) (cfg : Config)
    (proxy : Text → Text → Request → Proxied) where
  -- The rest of ServeHTTP, past the rate limit.
  unfoldable pub forward : ℕ → ℕ → Option ℕ → Route → Request → Shared redis → Served redis
  unfolding call_upstream after_do on_state_changes upstream_metrics
  forward start finish done rt r s =
      let path = upstream_path rt r in
      let p = proxy rt.upstream path r in
      let (cb, outcome, changes) = do_call start finish (call_upstream done p) s.breaker in
      let (reply, metrics) = after_do done path p outcome in
      if text_eq rt.upstream url_service
      then record {
        shared = record s { breaker = cb };
        reply = reply;
        metrics = on_state_changes changes ++ metrics;
      }
      else record {
        shared = s;
        reply = forwarded rt.upstream path p.status;
        metrics = upstream_metrics rt.upstream p.status ∷ [];
      }

  -- An error of the limiter lets the request pass.
  unfoldable pub serve_route : ℕ → ℕ → Option ℕ → Route → Request → Shared redis → Served redis
  serve_route start finish done rt r s =
      let (checked, counters) =
        check_rate_limit redis limiter split_host_port cfg rt.rate_limit_key r s.counters in
      let s' = record s { counters = counters } in
      let passed = forward start finish done rt r s' in
      if is_empty rt.rate_limit_key
      then forward start finish done rt r s
      else if not checked.has_error && not checked.allowed
      then record {
        shared = s';
        reply = limited (format_int (ℤ.pos checked.retry_after));
        metrics = [];
      }
      else passed

  -- ServeHTTP
  unfoldable pub serve_http : ℕ → ℕ → Option ℕ → Request → Shared redis → Served redis
  serve_http start finish done r s = elim (match_route r) [
    | none ↦ record { shared = s; reply = refused 404 (bytes "not found"); metrics = [] }
    | some rt ↦ serve_route start finish done rt r s
  ]
