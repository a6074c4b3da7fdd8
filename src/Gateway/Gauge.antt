-- ===== src/Gateway/Gauge.antt =====
-- The gauge of the circuit breaker's state (gateway/metrics.go) under requests one after another
-- (gateway/handler.go).
use url_shortener_microservi.Prelude.{
  ℕ, ◌≡◌, refl, ap, ◌∙◌, Bool, not, ◌&&◌, Text, List, [], ◌∷◌, ◌++◌, Option, none, some, text_eq,
  is_empty, if-both, Option-cases, inl, inr,
}
use url_shortener_microservi.Breaker.{
  State, Transition, Outcome, circuit_open, error, success, do_call, is_open,
}
use url_shortener_microservi.Breaker.Changes.{told, do_call-told}
use url_shortener_microservi.Gateway.Router.{
  Request, Route, url_service, match_route, upstream_path,
}
use url_shortener_microservi.Gateway.RateLimit.{Redis}
use url_shortener_microservi.Gateway.Handler.{
  Config, Metric, request_class, request_circuit_open, breaker_rejected, breaker_state,
  breaker_trip, state_number, on_state_change, on_state_changes, upstream_metrics, Proxied, Shared,
  Served, check_rate_limit, call_upstream, after_do, forward, serve_route, serve_http,
}

-- The value of the gauge after some changes of the metrics.
unfoldable pub gauge : ℕ → List Metric → ℕ
gauge g [] = g
gauge g (breaker_state n ∷ ms) = gauge n ms
gauge g (_ ∷ ms) = gauge g ms

gauge-append : (g : ℕ) (ms ns : List Metric) → gauge g (ms ++ ns) ≡ gauge (gauge g ms) ns
unfolding gauge
gauge-append g [] ns = refl
gauge-append g (breaker_state n ∷ ms) ns = gauge-append n ms ns
gauge-append g (request_class u c ∷ ms) ns = gauge-append g ms ns
gauge-append g (request_circuit_open ∷ ms) ns = gauge-append g ms ns
gauge-append g (breaker_rejected ∷ ms) ns = gauge-append g ms ns
gauge-append g (breaker_trip ∷ ms) ns = gauge-append g ms ns

gauge-change : (g : ℕ) (t : Transition) → gauge g (on_state_change t) ≡ state_number t.to_state
unfolding gauge on_state_change
gauge-change g t =
    if-both
      (λ (ms : List Metric).
        gauge g (breaker_state (state_number t.to_state) ∷ ms) ≡ state_number t.to_state)
      (is_open t.to_state) refl refl

gauge-changes :
    (s : State) (ts : List Transition)
    → gauge (state_number s) (on_state_changes ts) ≡ state_number (told s ts)
unfolding gauge on_state_changes told
gauge-changes s [] = refl
gauge-changes s (t ∷ ts) =
    gauge-append (state_number s) (on_state_change t) (on_state_changes ts)
    ∙ (ap (λ g. gauge g (on_state_changes ts)) (gauge-change (state_number s) t)
        ∙ gauge-changes t.to_state ts)

gauge-after_do :
    (g : ℕ) (ctx : Option ℕ) (path : Text) (p : Proxied) (o : Outcome)
    → gauge g (after_do ctx path p o).1 ≡ g
unfolding gauge after_do upstream_metrics
gauge-after_do g ctx path p circuit_open = refl
gauge-after_do g none path p (error e) = refl
gauge-after_do g (some x) path p (error e) = refl
gauge-after_do g none path p success = refl
gauge-after_do g (some x) path p success = refl

module _ (redis : Redis) (limiter : Bool) (split_host_port : Text → Option Text) (cfg : Config)
    (proxy : Text → Text → Request → Proxied) where
  -- From a gauge that shows the breaker's state, what was served leaves one that does.
  Shows : Shared redis → Served redis → Type 0
  Shows s served =
      gauge (state_number s.breaker.state) served.metrics ≡ state_number served.shared.breaker.state

  forward-Shows :
      (start finish : ℕ) (ctx : Option ℕ) (rt : Route) (r : Request) (s : Shared redis)
      → Shows s (forward redis limiter split_host_port cfg proxy start finish ctx rt r s)
  unfolding Shows forward gauge upstream_metrics
  forward-Shows start finish ctx rt r s =
      let path = upstream_path rt r in
      let p = proxy rt.upstream path r in
      let call = call_upstream ctx p in
      let (cb, outcome, changes) = do_call start finish call s.breaker in
      if-both (Shows s) (text_eq rt.upstream url_service)
        (gauge-append (state_number s.breaker.state) (on_state_changes changes)
            (after_do ctx path p outcome).1
          ∙ (gauge-after_do _ ctx path p outcome
              ∙ (gauge-changes s.breaker.state changes
                  ∙ ap state_number (do_call-told start finish call s.breaker))))
        refl

  serve_route-Shows :
      (start finish : ℕ) (ctx : Option ℕ) (rt : Route) (r : Request) (s : Shared redis)
      → Shows s (serve_route redis limiter split_host_port cfg proxy start finish ctx rt r s)
  unfolding serve_route Shows gauge
  serve_route-Shows start finish ctx rt r s =
      let (checked, counters) =
        check_rate_limit redis limiter split_host_port cfg rt.rate_limit_key r s.counters in
      if-both (Shows s) (is_empty rt.rate_limit_key) (forward-Shows start finish ctx rt r s) (
        if-both (Shows s) (not checked.has_error && not checked.allowed) refl
          (forward-Shows start finish ctx rt r (record s { counters = counters })))

  serve_http-Shows :
      (start finish : ℕ) (ctx : Option ℕ) (r : Request) (s : Shared redis)
      → Shows s (serve_http redis limiter split_host_port cfg proxy start finish ctx r s)
  unfolding serve_http Shows gauge
  serve_http-Shows start finish ctx r s = elim (Option-cases (match_route r)) [
    | inl missing ↦ rw (missing, serve_http) refl
    | inr (rt, found) ↦ rw (found, serve_http) (serve_route-Shows start finish ctx rt r s)
  ]

  -- A request with the times of its call and the error of its context.
  pub record Arrival : Type 0 where
    pub start : ℕ
    pub finish : ℕ
    pub context_error : Option ℕ
    pub asked : Request

  -- Requests one after another: the state that they leave, and how they change the metrics.
  unfoldable pub serve_all : List Arrival → Shared redis → Shared redis × List Metric
  serve_all [] s = (s, [])
  serve_all (a ∷ rest) s =
      let served =
        serve_http redis limiter split_host_port cfg proxy a.start a.finish a.context_error a.asked
          s in
      let (last, metrics) = serve_all rest served.shared in (last, served.metrics ++ metrics)

  -- After requests one after another the gauge shows the number that the type State of circuitbreaker.go
  -- gives to the state of the circuit breaker (0 closed, 1 open, 2 half-open), if it did before. (The
  -- gauge's help text in metrics.go has 1 and 2 the other way round.)
  pub serve_all-gauge :
      (arrivals : List Arrival) (g : ℕ) (s : Shared redis)
      → g ≡ state_number s.breaker.state
      → gauge g (serve_all arrivals s).1 ≡ state_number (serve_all arrivals s).0.breaker.state
  unfolding serve_all gauge Shows
  serve_all-gauge [] g s shown = shown
  serve_all-gauge (a ∷ rest) g s shown =
      let served =
        serve_http redis limiter split_host_port cfg proxy a.start a.finish a.context_error a.asked
          s in
      gauge-append g served.metrics (serve_all rest served.shared).1
      ∙ serve_all-gauge rest (gauge g served.metrics) served.shared (
          ap (λ n. gauge n served.metrics) shown
          ∙ serve_http-Shows a.start a.finish a.context_error a.asked s)
