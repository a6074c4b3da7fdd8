-- ===== src/Gateway/Proxy.antt =====
-- gateway/proxy.go: the reverse proxy. `parse` is url.Parse, `split_host_port` the host of
-- net.SplitHostPort, and `round_trip` what a service answers to a request: a status, or `none` where
-- it cannot be reached.
pub mod Targets
use url_shortener_microservi.Prelude.{
  ℕ, Bool, true, false, Text, bytes, List, [], ◌∷◌, ◌++◌, Option, none, some, text_eq, is_empty,
  if◌then◌else◌,
}
use url_shortener_microservi.Url.Shorten.{ParsedUrl}
use url_shortener_microservi.Gateway.Router.{Request}
use url_shortener_microservi.Gateway.Handler.{Proxied}

-- The request to a service, with the headers that the director sets.
pub record Outgoing : Type 0 where
  pub scheme : Text
  pub host : Text
  pub path : Text
  pub forwarded_for : Text
  pub forwarded_proto : Text
  pub real_ip : Text

or_none : Option Text → Text
or_none none = []
or_none (some t) = t

-- The scheme and the host of the base URL, or http and the base URL itself.
unfoldable pub target : Text → Option ParsedUrl → ParsedUrl
target base none = record { scheme = bytes "http"; host = base }
target base (some u) = if is_empty u.host then record { scheme = bytes "http"; host = base } else u

-- A list of addresses with one more.
unfoldable pub join_address : Text → Text → Text
join_address prior address = if is_empty prior then address else prior ++ (bytes ", " ++ address)

-- The value of a key of a map.
unfoldable pub lookup {ℓ} : {A : Type ℓ} → Text → List (Text × A) → Option A
lookup key [] = none
lookup key ((k, v) ∷ rest) = let later = lookup key rest in if text_eq k key then some v else later

-- The status that the recorder has, with 502 from the error handler.
unfoldable pub relayed : Option ℕ → Proxied
relayed none = record { status = 502; failed = true }
relayed (some status) = record { status = status; failed = false }

module _ (parse : Text → Option ParsedUrl) (split_host_port : Text → Option Text) where
  -- net.SplitHostPort's host, or the whole address
  unfoldable pub host_or_address : Text → Text
  unfolding or_none
  host_or_address address =
      let host = or_none (split_host_port address) in if is_empty host then address else host

  -- The director; the server leaves the scheme of a request's URL empty.
  unfoldable pub director : Text → Text → Request → Outgoing
  director base path r =
      let to = target base (parse base) in
      record {
        scheme = to.scheme;
        host = to.host;
        path = path;
        forwarded_for = join_address r.forwarded_for r.remote_addr;
        forwarded_proto = [];
        real_ip = host_or_address r.remote_addr;
      }

  append_client : Option Text → Text → Text
  append_client none prior = prior
  append_client (some host) prior = join_address prior host

  -- What httputil.ReverseProxy sends: it appends the client to X-Forwarded-For once more.
  unfoldable pub sent : Text → Text → Request → Outgoing
  unfolding append_client
  sent base path r =
      let out = director base path r in
      record out { forwarded_for = append_client (split_host_port r.remote_addr) out.forwarded_for }

  module _ (round_trip : Outgoing → Option ℕ) where
    -- doProxy
    unfoldable pub do_proxy : Text → Text → Request → Proxied
    do_proxy base path r = relayed (round_trip (sent base path r))

    unfoldable pub proxy_to : Text → Request → Option Text → Proxied
    proxy_to path r none = record { status = 502; failed = true }
    proxy_to path r (some base) = do_proxy base path r

    -- ServeHTTPStatus; `upstreams` is the map of NewProxy.
    unfoldable pub serve_http_status : List (Text × Text) → Text → Text → Request → Proxied
    unfolding proxy_to
    serve_http_status upstreams upstream_name path r =
        proxy_to path r (lookup upstream_name upstreams)
