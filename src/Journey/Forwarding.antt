-- ===== src/Journey/Forwarding.antt =====
-- GET /r/{code} at the gateway (gateway/handler.go), while the circuit breaker is closed and the rate
-- limit lets it pass.
use url_shortener_microservi.Prelude.{
  ℕ, ◌<◌, ◌≡◌, refl, sym, ap, ap₂, ◌∙◌, subst, Bool, true, false, Text, bytes, ◌++◌, Option, none,
  some, text_eq, text_eq_refl, find_first, has_prefix, drop_prefix, inl,
}
use url_shortener_microservi.Breaker.{closed, on_failure, on_success}
use url_shortener_microservi.Gateway.Router.{
  Request, url_service, redirect_route, routing_table, route_matches, match_route, upstream_path,
}
use url_shortener_microservi.Gateway.RateLimit.{Redis}
use url_shortener_microservi.Gateway.Handler.{
  Config, Proxied, Shared, Served, forwarded, check_rate_limit, forward, serve_http,
}
use url_shortener_microservi.Gateway.Upstreams.{
  forward-fails, forward-succeeds, forward-reply, serve_route-allowed,
}

-- GET /r/{code} has the route of the redirects, which asks for /{code}.
match-redirect :
    (r : Request) (code : Text)
    → r.method ≡ bytes "GET"
    → r.path ≡ bytes "/r/" ++ code
    → match_route r ≡ some redirect_route
unfolding match_route find_first routing_table route_matches text_eq has_prefix
match-redirect r code at path = rw (at, path) refl

redirect-path :
    (r : Request) (code : Text)
    → r.path ≡ bytes "/r/" ++ code
    → upstream_path redirect_route r ≡ bytes "/" ++ code
unfolding upstream_path has_prefix drop_prefix
redirect-path r code path = rw path refl

module _ (redis : Redis) (limiter : Bool) (split_host_port : Text → Option Text) (cfg : Config)
    (proxy : Text → Text → Request → Proxied) (code : Text) (r : Request) (start finish : ℕ)
    (s : Shared redis) (at : r.method ≡ bytes "GET") (path : r.path ≡ bytes "/r/" ++ code)
    (calm : s.breaker.state ≡ closed)
    (allowed : (check_rate_limit redis limiter split_host_port cfg
        (bytes "redirect")
        r
        s.counters).0.allowed
      ≡ true)
    (q : Proxied) (answers : proxy url_service (bytes "/" ++ code) r ≡ q) where
  abbrev counted : Shared redis
  counted = record s {
    counters =
        (check_rate_limit redis limiter split_host_port cfg (bytes "redirect") r s.counters).1;
  }

  asked : proxy url_service (upstream_path redirect_route r) r ≡ q
  asked = ap (λ x. proxy url_service x r) (redirect-path r code path) ∙ answers

  -- The request goes to url-service.
  goes :
      serve_http redis limiter split_host_port cfg proxy start finish none r s
      ≡ forward redis limiter split_host_port cfg proxy start finish none redirect_route r counted
  unfolding serve_http
  goes =
      rw (match-redirect r code at path, serve_http)
        (serve_route-allowed redis limiter split_host_port cfg proxy start finish none
          redirect_route r s refl allowed)

  -- The client gets the status of the answer.
  pub redirect-reply :
      (serve_http redis limiter split_host_port cfg proxy start finish none r s).reply
      ≡ forwarded url_service (bytes "/" ++ code) q.status
  redirect-reply =
      ap (λ (x : Served redis). x.reply) goes
      ∙ (forward-reply redis limiter split_host_port cfg proxy start finish redirect_route r counted
            (text_eq_refl url_service) calm
          ∙ ap₂ (λ x (p : Proxied). forwarded url_service x p.status) (redirect-path r code path)
              asked)

  -- An error of the proxy counts as a failure.
  pub redirect-fails :
      q.failed ≡ true
      → (serve_http redis limiter split_host_port cfg proxy start finish none r s).shared.breaker
        ≡ (on_failure finish s.breaker).0
  redirect-fails failed =
      ap (λ (x : Served redis). x.shared.breaker) goes
      ∙ forward-fails redis limiter split_host_port cfg proxy start finish redirect_route r counted
          (text_eq_refl url_service) calm (inl (ap (λ (p : Proxied). p.failed) asked ∙ failed))

  -- A status below 500 counts as a success.
  pub redirect-succeeds :
      q.failed ≡ false
      → q.status < 500
      → (serve_http redis limiter split_host_port cfg proxy start finish none r s).shared.breaker
        ≡ (on_success finish s.breaker).0
  redirect-succeeds good below =
      ap (λ (x : Served redis). x.shared.breaker) goes
      ∙ forward-succeeds redis limiter split_host_port cfg proxy start finish redirect_route r
          counted (text_eq_refl url_service) calm (ap (λ (p : Proxied). p.failed) asked ∙ good)
          (subst (λ (p : Proxied). p.status < 500) (sym asked) below)
