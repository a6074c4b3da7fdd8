-- ===== src/Gateway/Router.antt =====
-- gateway/router.go: the routing table and its search, and what gateway/handler.go makes of a path.
use url_shortener_microservi.Prelude.{
  Bool, true, false, not, ◌&&◌, Text, bytes, List, [], ◌∷◌, Option, text_eq, has_prefix,
  drop_prefix, is_empty, find_first, if◌then◌else◌,
}

-- What the gateway reads of an HTTP request; an absent header is the empty text, as for Header.Get.
pub record Request : Type 0 where
  pub method : Text
  pub path : Text
  pub authorization : Text
  pub forwarded_for : Text
  pub real_ip : Text
  pub remote_addr : Text

pub record Route : Type 0 where
  pub method : Text
  pub path_prefix : Text
  pub upstream : Text
  pub strip_prefix : Text
  pub requires_auth : Bool
  pub rate_limit_key : Text

abbrev pub url_service : Text
url_service = bytes "url-service"

abbrev pub route : Text → Text → Text → Bool → Text → Text → Route
route method path_prefix upstream requires_auth rate_limit_key strip_prefix = record {
  method = method;
  path_prefix = path_prefix;
  upstream = upstream;
  strip_prefix = strip_prefix;
  requires_auth = requires_auth;
  rate_limit_key = rate_limit_key;
}

-- The route of the redirects.
abbrev pub redirect_route : Route
redirect_route = route (bytes "GET") (bytes "/r/") url_service false (bytes "redirect") (bytes "/r")

unfoldable pub routing_table : List Route
routing_table =
    route (bytes "POST") (bytes "/api/auth/register") (bytes "user-service") false []
      (bytes "/api/auth")
    ∷ route (bytes "POST") (bytes "/api/auth/login") (bytes "user-service") false []
        (bytes "/api/auth")
    ∷ route (bytes "GET") (bytes "/api/me") (bytes "user-service") true [] (bytes "/api")
    ∷ route (bytes "POST") (bytes "/api/shorten") url_service true (bytes "shorten") (bytes "/api")
    ∷ route (bytes "GET") (bytes "/api/urls") url_service true [] (bytes "/api")
    ∷ route (bytes "DELETE") (bytes "/api/urls/") url_service true [] (bytes "/api")
    ∷ redirect_route
    ∷ route (bytes "GET") (bytes "/api/stats/") (bytes "analytics-service") false [] (bytes "/api")
    ∷ route (bytes "GET") (bytes "/api/notifications") (bytes "notification-service") true []
        (bytes "/api")
    ∷ []

-- The two tests of the loop's body.
unfoldable pub route_matches : Request → Route → Bool
route_matches r rt =
    not (not (is_empty rt.method) && not (text_eq rt.method r.method))
    && has_prefix rt.path_prefix r.path

-- The first route of the table that fits, or `none` for nil.
unfoldable pub match_route : Request → Option Route
match_route r = find_first (route_matches r) routing_table

-- The path that the handler asks the service for.
unfoldable pub upstream_path : Route → Request → Text
upstream_path rt r =
    if not (is_empty rt.strip_prefix) && has_prefix rt.strip_prefix r.path
    then drop_prefix rt.strip_prefix r.path
    else r.path
