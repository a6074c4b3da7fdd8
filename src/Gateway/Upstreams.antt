-- ===== src/Gateway/Upstreams.antt =====
-- The circuit breaker and the rate limit around a request (gateway/handler.go).
use url_shortener_microservi.Prelude.{
  ℕ, ◌≤◌, ◌<◌, ◌≡◌, ◌↔◌, ◌⊎◌, pos, Bool, true, false, Text, bytes, Option, none, some, text_eq,
  is_empty, Bool-cases, inl, inr, arith,
}
use url_shortener_microservi.Breaker.{closed, rejected, enter, on_failure, on_success, do_call}
use url_shortener_microservi.Gateway.Router.{Request, Route, url_service, upstream_path}
use url_shortener_microservi.Gateway.RateLimit.{Redis, Allowed}
use url_shortener_microservi.Gateway.Decimal.{format_int, decimal_value, format_int-value}
use url_shortener_microservi.Gateway.Handler.{
  Config, Proxied, Shared, Served, refused, limited, forwarded, check_rate_limit, forward,
  serve_route,
}

module _ (redis : Redis) (limiter : Bool) (split_host_port : Text → Option Text) (cfg : Config)
    (proxy : Text → Text → Request → Proxied) where
  abbrev forwarding : ℕ → ℕ → Option ℕ → Route → Request → Shared redis → Served redis
  forwarding = forward redis limiter split_host_port cfg proxy

  abbrev serving : ℕ → ℕ → Option ℕ → Route → Request → Shared redis → Served redis
  serving = serve_route redis limiter split_host_port cfg proxy

  abbrev checking : Route → Request → Shared redis → Allowed × redis.Store
  checking rt r s =
      check_rate_limit redis limiter split_host_port cfg rt.rate_limit_key r s.counters

  -- A request for url-service is answered 503 exactly if the circuit breaker refuses it.
  pub forward-refused :
      (start finish : ℕ) (ctx : Option ℕ) (rt : Route) (r : Request) (s : Shared redis)
      → text_eq rt.upstream url_service ≡ true
      → ((enter start s.breaker).1 ≡ rejected) ↔ (
          (forwarding start finish ctx rt r s).reply
          ≡ refused 503 (bytes "url-service unavailable"))
  unfolding forward do_call
  forward-refused start finish none rt r s u = ground arith
  forward-refused start finish (some e) rt r s u = ground arith

  -- What the two kinds of responses count as.
  forward-kinds :
      (start finish : ℕ) (rt : Route) (r : Request) (s : Shared redis)
      → text_eq rt.upstream url_service ≡ true
      → s.breaker.state ≡ closed
      → let p = proxy rt.upstream (upstream_path rt r) r in
        let s' = (forwarding start finish none rt r s).shared in
        (((p.failed ≡ true) ⊎ (500 ≤ p.status)) → s'.breaker ≡ (on_failure finish s.breaker).0)
        × ((p.failed ≡ false) → p.status < 500 → s'.breaker ≡ (on_success finish s.breaker).0)
  unfolding forward do_call enter
  forward-kinds start finish rt r s u c = ground arith

  -- To a closed breaker a proxy error of url-service, or a status from 500 on, counts as a failure.
  pub forward-fails :
      (start finish : ℕ) (rt : Route) (r : Request) (s : Shared redis)
      → text_eq rt.upstream url_service ≡ true
      → s.breaker.state ≡ closed
      → ((proxy rt.upstream (upstream_path rt r) r).failed ≡ true)
        ⊎ (500 ≤ (proxy rt.upstream (upstream_path rt r) r).status)
      → (forwarding start finish none rt r s).shared.breaker ≡ (on_failure finish s.breaker).0
  forward-fails start finish rt r s u c bad = (forward-kinds start finish rt r s u c).0 bad

  -- To a closed breaker the client gets the status of url-service, or that of the proxy's error.
  pub forward-reply :
      (start finish : ℕ) (rt : Route) (r : Request) (s : Shared redis)
      → text_eq rt.upstream url_service ≡ true
      → s.breaker.state ≡ closed
      → (forwarding start finish none rt r s).reply
        ≡ forwarded url_service
            (upstream_path rt r)
            (proxy rt.upstream (upstream_path rt r) r).status
  unfolding forward do_call enter
  forward-reply start finish rt r s u c = ground arith

  -- A request that the limit allows goes on.
  pub serve_route-allowed :
      (start finish : ℕ) (ctx : Option ℕ) (rt : Route) (r : Request) (s : Shared redis)
      → is_empty rt.rate_limit_key ≡ false
      → (checking rt r s).0.allowed ≡ true
      → serving start finish ctx rt r s
        ≡ forwarding start finish ctx rt r (record s { counters = (checking rt r s).1 })
  unfolding serve_route
  serve_route-allowed start finish ctx rt r s k a =
      elim (Bool-cases (checking rt r s).0.has_error) [ inl e ↦ rw (k, e) | inr e ↦ rw (k, e, a) ]

  -- To a closed breaker every other status of url-service counts as a success, also one from 400 on.
  pub forward-succeeds :
      (start finish : ℕ) (rt : Route) (r : Request) (s : Shared redis)
      → text_eq rt.upstream url_service ≡ true
      → s.breaker.state ≡ closed
      → (proxy rt.upstream (upstream_path rt r) r).failed ≡ false
      → (proxy rt.upstream (upstream_path rt r) r).status < 500
      → (forwarding start finish none rt r s).shared.breaker ≡ (on_success finish s.breaker).0
  forward-succeeds start finish rt r s u c good below =
      (forward-kinds start finish rt r s u c).1 good below

  -- A service other than url-service is always asked, and the circuit breaker stays as it was.
  pub forward-other :
      (start finish : ℕ) (ctx : Option ℕ) (rt : Route) (r : Request) (s : Shared redis)
      → text_eq rt.upstream url_service ≡ false
      → let served = forwarding start finish ctx rt r s in
        let path = upstream_path rt r in
        (served.shared ≡ s)
        × (served.reply ≡ forwarded rt.upstream path (proxy rt.upstream path r).status)
  unfolding forward
  forward-other start finish ctx rt r s u = (rw u, rw u)

  -- A request over its limit is answered 429, with the seconds to wait in the header, and goes no
  -- further: the circuit breaker is as it was.
  pub serve_route-limited :
      (start finish : ℕ) (ctx : Option ℕ) (rt : Route) (r : Request) (s : Shared redis)
      → is_empty rt.rate_limit_key ≡ false
      → (checking rt r s).0.has_error ≡ false
      → (checking rt r s).0.allowed ≡ false
      → ((serving start finish ctx rt r s).shared.breaker ≡ s.breaker)
        × ((header : Text) × ((serving start finish ctx rt r s).reply ≡ limited header)
            × (decimal_value 0 header ≡ (checking rt r s).0.retry_after))
  unfolding serve_route
  serve_route-limited start finish ctx rt r s k e a =
      let checked =
        (check_rate_limit redis limiter split_host_port cfg rt.rate_limit_key r s.counters).0 in
      (
        rw (k, e, a),
        (
          format_int (pos checked.retry_after),
          rw (k, e, a),
          (format_int-value checked.retry_after).1,
        ),
      )

  -- An error of the rate limiter lets the request through, as if the route had no limit.
  pub serve_route-error :
      (start finish : ℕ) (ctx : Option ℕ) (rt : Route) (r : Request) (s : Shared redis)
      → is_empty rt.rate_limit_key ≡ false
      → (checking rt r s).0.has_error ≡ true
      → serving start finish ctx rt r s
        ≡ forwarding start finish ctx rt r (record s { counters = (checking rt r s).1 })
  unfolding serve_route
  serve_route-error start finish ctx rt r s k e = rw (k, e)
