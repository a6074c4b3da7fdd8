-- ===== src/Journey/Created.antt =====
-- A short URL from its creation to its redirect through the gateway.
use url_shortener_microservi.Prelude.{
  ℕ, ◌≤◌, ◌≡◌, refl, ap, ◌∙◌, Bool, true, false, Text, bytes, List, [], ◌∷◌, ◌++◌, Option, none,
  some, text_eq, arith,
}
use url_shortener_microservi.Http.{Response}
use url_shortener_microservi.Http.Mux.{segments}
use url_shortener_microservi.Auth.{MapClaims}
use url_shortener_microservi.Breaker.{closed, on_success}
use url_shortener_microservi.Gateway.Router.{Request, url_service}
use url_shortener_microservi.Gateway.RateLimit.{Redis}
use url_shortener_microservi.Gateway.Handler.{
  Config, Proxied, Shared, forwarded, check_rate_limit, serve_http,
}
use url_shortener_microservi.Gateway.Proxy.{
  Outgoing, lookup, relayed, do_proxy, proxy_to, serve_http_status, sent, director,
}
use url_shortener_microservi.Url.Db.{micro, Db, BeginFunc}
use url_shortener_microservi.Url.Shorten.{ParsedUrl, ShortenResponse}
use url_shortener_microservi.Url.Handler.{Body, shortened}
use url_shortener_microservi.Url.Routes as Routes
use url_shortener_microservi.Url.Routes.RoundTrip.{serve_request-round_trip}
use url_shortener_microservi.Journey.Forwarding.{redirect-reply, redirect-succeeds}
use url_shortener_microservi.Journey.{status_of, received, round_trip, proxied}

module _ (parse_token : ℕ → Text → Option MapClaims) (parse : Text → Option ParsedUrl)
    (tx : BeginFunc) (base : Text) (sha256_hex : Text → Text) (metrics : Response Body)
    (split_host_port : Text → Option Text) (upstreams : List (Text × Text))
    (others : Text → Outgoing → Option ℕ) (gateway : Text) (e later : Routes.Env)
    (made : Routes.Request) (db : Db) (resp : ShortenResponse) where
  -- What the request that made the short URL has left.
  abbrev left : Db
  left = (Routes.serve_request parse_token parse tx base sha256_hex metrics e made db).db

  abbrev proxy : Text → Text → Request → Proxied
  proxy =
      proxied parse_token parse tx base sha256_hex metrics split_host_port upstreams others gateway
        later left

  -- A POST has been answered 201 with the short URL, which has not expired, and whose code is a
  -- segment of a path and not "metrics"; the cache misses it, and the database is up.
  pub record IsVisitable : Type 0 where
    pub posted : made.method ≡ bytes "POST"
    pub created :
        (Routes.serve_request parse_token parse tx base sha256_hex metrics e made db).response
        ≡ Response.write_json 201 (shortened resp)
    pub segment : segments (bytes "/" ++ resp.short_code) ≡ resp.short_code ∷ []
    pub free : text_eq (bytes "metrics") resp.short_code ≡ false
    pub missed : later.cached resp.short_code ≡ none
    pub up : later.fault ≡ none
    pub in_time : later.now ≤ micro resp.expires_at

  created-redirects :
      (r : Request) (target : Text)
      → lookup url_service upstreams ≡ some target
      → IsVisitable
      → r.method ≡ bytes "GET"
      → proxy url_service (bytes "/" ++ resp.short_code) r ≡ record { status = 308; failed = false }
  unfolding proxied serve_http_status proxy_to do_proxy relayed sent director round_trip status_of
      text_eq received
  created-redirects r target known is at =
      let path = bytes "/" ++ resp.short_code in
      ap
        (proxy_to parse split_host_port
          (round_trip parse_token parse tx base sha256_hex metrics split_host_port upstreams others
            gateway later left url_service r)
          path r)
        known
      ∙ ap (λ (x : Response Body). relayed (status_of x))
          (serve_request-round_trip parse_token parse tx base sha256_hex metrics e later made
            (received gateway r (sent parse split_host_port target path r)) db resp is.posted
            is.created at is.segment is.free is.missed is.up is.in_time)

  module _ (redis : Redis) (limiter : Bool) (cfg : Config) where
    -- A short URL that a POST to url-service has been answered with 201 is answered 308 by the gateway,
    -- until the whole microsecond of its time of expiry, on a miss of the cache, if url-service is as the POST left it, its database is
    -- up, the circuit breaker is closed, the rate limit lets the request pass, and the code is not
    -- "metrics" and one segment of a path; and this counts as a success on the circuit breaker.
    pub serve_http-created :
        (r : Request) (start finish : ℕ) (s : Shared redis) (target : Text)
        → lookup url_service upstreams ≡ some target
        → IsVisitable
        → r.method ≡ bytes "GET"
        → r.path ≡ bytes "/r/" ++ resp.short_code
        → s.breaker.state ≡ closed
        → (check_rate_limit redis limiter split_host_port cfg
            (bytes "redirect")
            r
            s.counters).0.allowed
          ≡ true
        → ((serve_http redis limiter split_host_port cfg proxy start finish none r s).reply
            ≡ forwarded url_service (bytes "/" ++ resp.short_code) 308)
          × ((serve_http redis limiter split_host_port cfg proxy start finish none r
                s).shared.breaker
              ≡ (on_success finish s.breaker).0)
    serve_http-created r start finish s target known is at path calm allowed =
        let answers = created-redirects r target known is at in
        (
          redirect-reply redis limiter split_host_port cfg proxy resp.short_code r start finish s at
              path calm allowed _ answers,
          redirect-succeeds redis limiter split_host_port cfg proxy resp.short_code r start finish s
              at path calm allowed _ answers refl (omega arith),
        )
