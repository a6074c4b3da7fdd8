-- ===== src/Gateway/Access.antt =====
-- Who reaches a service through the gateway (gateway/main.go puts the token check of
-- gateway/jwtmiddleware.go in front of the handler of gateway/handler.go).
use url_shortener_microservi.Prelude.{
  ℕ, ◌≡◌, sym, ap, ◌∙◌, Bool, true, false, not, ◌||◌, Text, bytes, [], ◌++◌, Option, none, some,
  has_prefix, drop_prefix, is_empty, text_eq_iff, ◌⊎◌, arith, Bool-cases, Option-cases, inl, inr,
  has_prefix-append_drop,
}
use url_shortener_microservi.Gateway.Router.{
  url_service, Request, Route, match_route, upstream_path,
}
use url_shortener_microservi.Gateway.Jwt.{bearer, check_token, jwt_middleware}
use url_shortener_microservi.Gateway.RateLimit.{Redis}
use url_shortener_microservi.Gateway.Handler.{
  Config, check_rate_limit, Proxied, Shared, Served, refused, forwarded, forward, serve_route,
  serve_http,
}

module _ {ℓ} {Claims : Type ℓ} (redis : Redis) (limiter : Bool)
    (split_host_port : Text → Option Text) (cfg : Config) (proxy : Text → Text → Request → Proxied)
    (verify : Text → Option Claims) where
  -- What the server's multiplexer does with a request that is for no endpoint of the gateway's own.
  unfoldable pub handle : ℕ → ℕ → Option ℕ → Request → Shared redis → Served redis
  handle start finish ctx r s =
      jwt_middleware verify
        (record { shared = s; reply = refused 401 (bytes "unauthorized"); metrics = [] })
        (λ claims r'. serve_http redis limiter split_host_port cfg proxy start finish ctx r' s) r

  -- A token that the check accepts stands in the request.
  abbrev pub HasToken : Request → Type ℓ
  HasToken r =
      (token : Text) × (claims : Claims) × (r.authorization ≡ bearer ++ token)
      × (verify token ≡ some claims)

  -- What a request that was sent to a service went through.
  pub record Admitted (r : Request) (upstream path : Text) : Type ℓ where
    pub route : Route
    pub matched : match_route r ≡ some route
    pub to_upstream : upstream ≡ route.upstream
    pub to_path : path ≡ upstream_path route r
    pub with_token : route.requires_auth ≡ true → HasToken r

  forward-forwarded :
      (start finish : ℕ) (ctx : Option ℕ) (rt : Route) (r : Request) (s : Shared redis) {u p : Text}
      {status : ℕ}
      → (forward redis limiter split_host_port cfg proxy start finish ctx rt r s).reply
        ≡ forwarded u p status
      → (u ≡ rt.upstream) × (p ≡ upstream_path rt r)
  unfolding forward
  forward-forwarded start finish none rt r s h = ground (arith, text_eq_iff rt.upstream url_service)
  forward-forwarded start finish (some e) rt r s h =
      ground (arith, text_eq_iff rt.upstream url_service)

  serve_route-forwarded :
      (start finish : ℕ) (ctx : Option ℕ) (rt : Route) (r : Request) (s : Shared redis) {u p : Text}
      {status : ℕ}
      → (serve_route redis limiter split_host_port cfg proxy start finish ctx rt r s).reply
        ≡ forwarded u p status
      → (u ≡ rt.upstream) × (p ≡ upstream_path rt r)
  unfolding serve_route
  serve_route-forwarded start finish ctx rt r s {u} {p} {status} h =
      let key = rt.rate_limit_key in
      let counters = (check_rate_limit redis limiter split_host_port cfg key r s.counters).1 in
      ground (
        arith,
        forward-forwarded start finish ctx rt r s {u = u} {p = p} {status = status},
        forward-forwarded start finish ctx rt r (record s { counters = counters }) {u = u} {p = p}
            {status = status},
      )

  bearer_split :
      (r : Request)
      → (is_empty r.authorization || not (has_prefix bearer r.authorization)) ≡ false
      → bearer ++ drop_prefix bearer r.authorization ≡ r.authorization
  bearer_split r h = has_prefix-append_drop bearer r.authorization (ground arith)

  -- A text with the prefix of a bearer token is that prefix and a token.
  check_token-cases :
      {Answer : Type 0} (no_answer : Answer) (next : Option Claims → Request → Answer) (r : Request)
      → (check_token verify no_answer next r ≡ no_answer)
        ⊎ (HasToken r
            × ((claims : Claims) × (check_token verify no_answer next r ≡ next (some claims) r)))
  unfolding check_token
  check_token-cases no_answer next r =
      elim (Bool-cases (is_empty r.authorization || not (has_prefix bearer r.authorization))) [
        | inl bad ↦ inl (rw bad)
        | inr good ↦
            let token = drop_prefix bearer r.authorization in
            elim (Option-cases (verify token)) [
              | inl refuse ↦ inl (rw (good, refuse))
              | inr (claims, accept) ↦
                  inr (
                    (token, claims, sym (bearer_split r good), accept),
                    (claims, rw (good, accept)),
                  )
            ]
      ]

  jwt_middleware-open :
      {Answer : Type 0} (no_answer : Answer) (next : Option Claims → Request → Answer) (r : Request)
      (rt : Route)
      → match_route r ≡ some rt
      → rt.requires_auth ≡ false
      → jwt_middleware verify no_answer next r ≡ next none r
  unfolding jwt_middleware
  jwt_middleware-open no_answer next r rt m f = rw (m, jwt_middleware) (rw f)

  jwt_middleware-checked :
      {Answer : Type 0} (no_answer : Answer) (next : Option Claims → Request → Answer) (r : Request)
      (rt : Route)
      → match_route r ≡ some rt
      → rt.requires_auth ≡ true
      → jwt_middleware verify no_answer next r ≡ check_token verify no_answer next r
  unfolding jwt_middleware
  jwt_middleware-checked no_answer next r rt m f = rw (m, jwt_middleware) (rw f)

  handle-unmatched :
      (start finish : ℕ) (ctx : Option ℕ) (r : Request) (s : Shared redis)
      → match_route r ≡ none
      → (handle start finish ctx r s).reply ≡ refused 404 (bytes "not found")
  unfolding handle jwt_middleware serve_http
  handle-unmatched start finish ctx r s m = rw (m, jwt_middleware) (rw (m, serve_http))

  serve_http-matched :
      (start finish : ℕ) (ctx : Option ℕ) (r : Request) (s : Shared redis) (rt : Route)
      → match_route r ≡ some rt
      → serve_http redis limiter split_host_port cfg proxy start finish ctx r s
        ≡ serve_route redis limiter split_host_port cfg proxy start finish ctx rt r s
  unfolding serve_http
  serve_http-matched start finish ctx r s rt m = rw (m, serve_http)

  -- What the handler sends to a service, given what the check found.
  served-Admitted :
      (start finish : ℕ) (ctx : Option ℕ) (r : Request) (s : Shared redis) (rt : Route)
      {upstream path : Text} {status : ℕ}
      → match_route r ≡ some rt
      → (rt.requires_auth ≡ true → HasToken r)
      → (serve_http redis limiter split_host_port cfg proxy start finish ctx r s).reply
        ≡ forwarded upstream path status
      → Admitted r upstream path
  served-Admitted start finish ctx r s rt m token h =
      let (to_upstream, to_path) = serve_route-forwarded start finish ctx rt r s (
        ap (λ (t : Served redis). t.reply) (sym (serve_http-matched start finish ctx r s rt m))
        ∙ h) in
      record {
        route = rt;
        matched = m;
        to_upstream = to_upstream;
        to_path = to_path;
        with_token = token;
      }

  abbrev pub unauthorized_served : Shared redis → Served redis
  unauthorized_served s = record {
    shared = s;
    reply = refused 401 (bytes "unauthorized");
    metrics = [];
  }

  abbrev serve_next : ℕ → ℕ → Option ℕ → Shared redis → Option Claims → Request → Served redis
  serve_next start finish ctx s claims r' =
      serve_http redis limiter split_host_port cfg proxy start finish ctx r' s

  -- Every request that the gateway sends to a service was matched by a route of the table, goes to
  -- that route's service under the path without the strip prefix, and, if the route requires it,
  -- carries a bearer token that the check has accepted.
  pub forwarded-Admitted :
      (start finish : ℕ) (ctx : Option ℕ) (r : Request) (s : Shared redis) {upstream path : Text}
      {status : ℕ}
      → (handle start finish ctx r s).reply ≡ forwarded upstream path status
      → Admitted r upstream path
  unfolding handle jwt_middleware
  forwarded-Admitted start finish ctx r s h =
      let refusal = unauthorized_served s in
      let next = serve_next start finish ctx s in
      let reply = λ (t : Served redis). t.reply in
      elim (Option-cases (match_route r)) [
        | inl m ↦ cc (handle-unmatched start finish ctx r s m)
        | inr (rt, m) ↦ elim (Bool-cases rt.requires_auth) [
          | inl f ↦ elim (check_token-cases refusal next r) [
            | inl no_entry ↦
                cc (ap reply (jwt_middleware-checked refusal next r rt m f), ap reply no_entry)
            | inr (token, (claims, goes_on)) ↦
                served-Admitted start finish ctx r s rt m (λ _. token)
                  (ap reply (sym (jwt_middleware-checked refusal next r rt m f ∙ goes_on)) ∙ h)
          ]
          | inr f ↦
              served-Admitted start finish ctx r s rt m (λ t. cc)
                (ap reply (sym (jwt_middleware-open refusal next r rt m f)) ∙ h)
        ]
      ]

  -- A request for a route that requires a token, without one that the check accepts, is answered
  -- 401, and neither the counters nor the circuit breaker nor the metrics change.
  pub handle-no_token :
      (start finish : ℕ) (ctx : Option ℕ) (r : Request) (s : Shared redis) (rt : Route)
      → match_route r ≡ some rt
      → rt.requires_auth ≡ true
      → ¬ HasToken r
      → handle start finish ctx r s
        ≡ record { shared = s; reply = refused 401 (bytes "unauthorized"); metrics = [] }
  unfolding handle
  handle-no_token start finish ctx r s rt m f no_token =
      let refusal = unauthorized_served s in
      let next = serve_next start finish ctx s in
      jwt_middleware-checked refusal next r rt m f ∙ elim (check_token-cases refusal next r) [
        | inl no_entry ↦ no_entry
        | inr (token, _) ↦ absurd (no_token token)
      ]
