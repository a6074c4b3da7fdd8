-- ===== src/Journey.antt =====
-- The gateway in front of url-service: the handler of gateway/handler.go with the proxy of
-- gateway/proxy.go, whose requests the routes of services/url-service/main.go serve. A handler that panics
-- closes the connection, which the proxy takes for an error.
pub mod Forwarding
pub mod Unknown
pub mod Created
use url_shortener_microservi.Prelude.{
  ℕ, Bool, true, false, Text, bytes, List, [], ◌∷◌, Option, none, some, text_eq, if◌then◌else◌,
}
use url_shortener_microservi.Http.{Response}
use url_shortener_microservi.Http.Mux.{segments}
use url_shortener_microservi.Auth.{MapClaims}
use url_shortener_microservi.Gateway.Router.{Request, url_service}
use url_shortener_microservi.Gateway.Handler.{Proxied}
use url_shortener_microservi.Gateway.Proxy.{Outgoing, serve_http_status}
use url_shortener_microservi.Url.Db.{Db, BeginFunc}
use url_shortener_microservi.Url.Shorten.{ParsedUrl}
use url_shortener_microservi.Url.Handler.{Body, ShortenRequest}
use url_shortener_microservi.Url.Routes as Routes

-- The status that the proxy reads, or `none` where the connection is closed.
unfoldable pub status_of : Response Body → Option ℕ
status_of (Response.write_error status text) = some status
status_of (Response.write_json status body) = some status
status_of (Response.write_header status) = some status
status_of (Response.redirect status url) = some status
status_of Response.panics = none

-- The request that url-service gets, without a body and a query.
unfoldable pub received : Text → Request → Outgoing → Routes.Request
received gateway r out = record {
  method = r.method;
  path = segments out.path;
  authorization = r.authorization;
  body = none;
  after = none;
  limit = [];
  remote_addr = gateway;
}

module _ (parse_token : ℕ → Text → Option MapClaims) (parse : Text → Option ParsedUrl)
    (tx : BeginFunc) (base : Text) (sha256_hex : Text → Text) (metrics : Response Body)
    (split_host_port : Text → Option Text) (upstreams : List (Text × Text))
    (others : Text → Outgoing → Option ℕ) (gateway : Text) where
  -- What url-service answers; the other services are a parameter.
  unfoldable pub round_trip : Routes.Env → Db → Text → Request → Outgoing → Option ℕ
  round_trip e db name r out =
      let ours =
        status_of
          (Routes.serve_request parse_token parse tx base sha256_hex metrics e
            (received gateway r out) db).response in
      if text_eq name url_service then ours else others name out

  -- ServeHTTPStatus with the services behind it
  unfoldable pub proxied : Routes.Env → Db → Text → Text → Request → Proxied
  proxied e db name path r =
      serve_http_status parse split_host_port (round_trip e db name r) upstreams name path r
