-- ===== src/Journey/Unknown.antt =====
-- A redirect of a code that nobody has, asked of the gateway.
use url_shortener_microservi.Prelude.{
  ℕ, ◌≡◌, refl, ap, ap₂, ◌∙◌, Bool, true, false, Text, bytes, List, [], ◌∷◌, ◌++◌, Option, none,
  some, text_eq, is_empty, All,
}
use url_shortener_microservi.Http.{Response}
use url_shortener_microservi.Http.Mux.{segments}
use url_shortener_microservi.Auth.{MapClaims}
use url_shortener_microservi.Breaker.{closed, on_failure}
use url_shortener_microservi.Gateway.Router.{Request, url_service}
use url_shortener_microservi.Gateway.RateLimit.{Redis}
use url_shortener_microservi.Gateway.Handler.{
  Config, Proxied, Shared, forwarded, check_rate_limit, serve_http,
}
use url_shortener_microservi.Gateway.Proxy.{
  Outgoing, lookup, relayed, do_proxy, proxy_to, serve_http_status, sent, director,
}
use url_shortener_microservi.Url.Db.{Db, BeginFunc}
use url_shortener_microservi.Url.Shorten.{ParsedUrl}
use url_shortener_microservi.Url.Redirect.{redirect_to_url}
use url_shortener_microservi.Url.Redirect.Outcomes.{row_of, redirect-unknown}
use url_shortener_microservi.Url.Handler.{Body, Handled}
use url_shortener_microservi.Url.Handler.Created.{handle_redirect-panics}
use url_shortener_microservi.Url.Routes as Routes
use url_shortener_microservi.Url.Routes.Redirects.{reserved, serve_request-redirect}
use url_shortener_microservi.Journey.Forwarding.{redirect-reply, redirect-fails}
use url_shortener_microservi.Journey.{status_of, received, round_trip, proxied}

module _ (parse_token : ℕ → Text → Option MapClaims) (parse : Text → Option ParsedUrl)
    (tx : BeginFunc) (base : Text) (sha256_hex : Text → Text) (metrics : Response Body)
    (split_host_port : Text → Option Text) (upstreams : List (Text × Text))
    (others : Text → Outgoing → Option ℕ) (gateway : Text) (e : Routes.Env) (db : Db) (code : Text)
    (r : Request) where
  abbrev proxy : Text → Text → Request → Proxied
  proxy =
      proxied parse_token parse tx base sha256_hex metrics split_host_port upstreams others gateway
        e db

  -- The code is one segment of a path, and not one of those that another route has.
  pub record IsCode : Type 0 where
    pub segment : segments (bytes "/" ++ code) ≡ code ∷ []
    pub present : is_empty code ≡ false
    pub free : All (λ t. text_eq t code ≡ false) reserved

  -- The database is up and neither it nor the cache has the code.
  pub record IsUnknown : Type 0 where
    pub up : e.fault ≡ none
    pub missed : e.cached code ≡ none
    pub no_row : row_of code db ≡ none

  unknown-closed :
      (out : Outgoing)
      → IsCode
      → IsUnknown
      → r.method ≡ bytes "GET"
      → out.path ≡ bytes "/" ++ code
      → round_trip parse_token parse tx base sha256_hex metrics split_host_port upstreams others
          gateway e db url_service r out
        ≡ none
  unfolding round_trip status_of text_eq received
  unknown-closed out is unknown at path =
      ap (λ (h : Handled). status_of h.response)
        (serve_request-redirect parse_token parse tx base sha256_hex metrics e
          (received gateway r out) db code at (ap segments path ∙ is.segment) is.free)
      ∙ ap status_of (
          handle_redirect-panics sha256_hex e.now e.later (e.cached code) e.fault code gateway db
            is.present
            (ap₂ (λ c x. redirect_to_url sha256_hex e.now e.later c x code gateway db)
                unknown.missed unknown.up
              ∙ redirect-unknown sha256_hex e.now e.later code gateway db unknown.no_row))

  -- The proxy then fails with 502.
  unknown-fails :
      (target : Text)
      → lookup url_service upstreams ≡ some target
      → IsCode
      → IsUnknown
      → r.method ≡ bytes "GET"
      → proxy url_service (bytes "/" ++ code) r ≡ record { status = 502; failed = true }
  unfolding proxied serve_http_status proxy_to do_proxy relayed sent director
  unknown-fails target known is unknown at =
      ap
        (proxy_to parse split_host_port
          (round_trip parse_token parse tx base sha256_hex metrics split_host_port upstreams others
            gateway e db url_service r)
          (bytes "/" ++ code) r)
        known
      ∙ ap relayed (
          unknown-closed (sent parse split_host_port target (bytes "/" ++ code) r) is unknown at
            refl)

  module _ (redis : Redis) (limiter : Bool) (cfg : Config) where
    -- A redirect of an unknown code that misses the cache, asked of the gateway while the circuit
    -- breaker is closed and the rate limit lets it pass, is answered 502, if the database is up; and it
    -- counts as a failure of url-service on the circuit breaker.
    pub serve_http-unknown :
        (start finish : ℕ) (s : Shared redis) (target : Text)
        → lookup url_service upstreams ≡ some target
        → IsCode
        → IsUnknown
        → r.method ≡ bytes "GET"
        → r.path ≡ bytes "/r/" ++ code
        → s.breaker.state ≡ closed
        → (check_rate_limit redis limiter split_host_port cfg
            (bytes "redirect")
            r
            s.counters).0.allowed
          ≡ true
        → ((serve_http redis limiter split_host_port cfg proxy start finish none r s).reply
            ≡ forwarded url_service (bytes "/" ++ code) 502)
          × ((serve_http redis limiter split_host_port cfg proxy start finish none r
                s).shared.breaker
              ≡ (on_failure finish s.breaker).0)
    serve_http-unknown start finish s target known is unknown at path calm allowed =
        let fails = unknown-fails target known is unknown at in
        (
          redirect-reply redis limiter split_host_port cfg proxy code r start finish s at path calm
              allowed _ fails,
          redirect-fails redis limiter split_host_port cfg proxy code r start finish s at path calm
              allowed _ fails refl,
        )
