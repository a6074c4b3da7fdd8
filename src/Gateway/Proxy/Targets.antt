-- ===== src/Gateway/Proxy/Targets.antt =====
-- Where the requests go that gateway/handler.go gives to gateway/proxy.go.
use url_shortener_microservi.Prelude.{
  ℕ, ◌≡◌, refl, sym, ap, subst, ◌∙◌, Bool, false, Text, bytes, List, Option, some, ok, text_eq,
  is_empty, some_of, find_first-All, All,
}
use url_shortener_microservi.Environment.{Environment, Required, missing, check-ok, some_of-cons}
use url_shortener_microservi.Url.Shorten.{ParsedUrl}
use url_shortener_microservi.Gateway.Router.{
  Request, Route, routing_table, route_matches, match_route,
}
use url_shortener_microservi.Gateway.Config.{
  Config, required_of, read_config, load_config, upstreams,
}
use url_shortener_microservi.Gateway.Proxy.{Outgoing, lookup, do_proxy, proxy_to, serve_http_status}

-- The map of main has a base URL for the service, which is not empty.
pub HasBase : Config → Text → Type 0
HasBase cfg name =
    (base : Text) × (lookup name (upstreams cfg) ≡ some base) × (is_empty base ≡ false)

module _ (order : List Required → List Required)
    (visits : (p : Required → Bool) (rs : List Required) → some_of p (order rs) ≡ some_of p rs)
    (env : Environment) (cfg : Config) (loaded : load_config order env ≡ ok cfg) where
  routes-HasBase : All (λ rt. HasBase cfg rt.upstream) routing_table
  unfolding load_config required_of HasBase upstreams lookup text_eq routing_table
  routes-HasBase =
      let (all, same) = check-ok (read_config env) cfg _ loaded in
      let kept =
        subst (λ (c : Config). some_of missing (required_of c) ≡ false) same
          (sym (visits missing (required_of (read_config env))) ∙ all) in
      let (url, r1) = some_of-cons _ _ kept in
      let (analytics, r2) = some_of-cons _ _ r1 in
      let (user, r3) = some_of-cons _ _ r2 in
      let (notification, _) = some_of-cons _ _ r3 in
      let to_user : HasBase cfg (bytes "user-service") = (cfg.user_service_url, refl, user) in
      let to_url : HasBase cfg (bytes "url-service") = (cfg.url_service_url, refl, url) in
      (
        to_user,
        (
          to_user,
          (
            to_user,
            (
              to_url,
              (
                to_url,
                (
                  to_url,
                  (
                    to_url,
                    (
                      (cfg.analytics_service_url, refl, analytics),
                      ((cfg.notification_service_url, refl, notification), tt),
                    ),
                  ),
                ),
              ),
            ),
          ),
        ),
      )

  -- With a configuration that loadConfig accepts, and if its loop visits each entry of the map, the
  -- proxy sends every request that has a route to a base URL which is not empty: the branch in which
  -- the service is not found is never taken.
  pub serve_http_status-HasBase :
      (parse : Text → Option ParsedUrl) (split_host_port : Text → Option Text)
      (round_trip : Outgoing → Option ℕ) (path : Text) (r : Request) (rt : Route)
      → match_route r ≡ some rt
      → (base : Text) × (is_empty base ≡ false)
        × (lookup rt.upstream (upstreams cfg) ≡ some base)
        × (serve_http_status parse split_host_port round_trip (upstreams cfg) rt.upstream path r
            ≡ do_proxy parse split_host_port round_trip base path r)
  unfolding match_route serve_http_status proxy_to HasBase
  serve_http_status-HasBase parse split_host_port round_trip path r rt found =
      let ((base, known, present), _) =
        find_first-All (λ rt. HasBase cfg rt.upstream) (route_matches r) routing_table
          routes-HasBase found in
      (base, present, known, ap (proxy_to parse split_host_port round_trip path r) known)
