-- ===== src/Gateway/Paths.antt =====
-- The paths under which the gateway asks its services (gateway/router.go, gateway/handler.go).

use url_shortener_microservi.Prelude.{
  Bool, true, false, not, ◌&&◌, ◌≡◌, refl, sym, subst, Text, bytes, All, find_first-All, [], ◌∷◌,
  ◌++◌, some, text_eq, has_prefix, drop_prefix, has_prefix-append_drop, is_empty, find_first,
  text_eq_iff, arith,
}
use url_shortener_microservi.Gateway.Router.{
  Request, Route, url_service, redirect_route, routing_table, route_matches, match_route,
  upstream_path,
}

-- The strip prefix of a route begins its path prefix, and leaves a path that begins with a slash.
strips : Route → Bool
strips rt =
    let rest = drop_prefix rt.strip_prefix rt.path_prefix in
    not (is_empty rt.strip_prefix)
    && (text_eq (rt.strip_prefix ++ rest) rt.path_prefix && has_prefix (bytes "/") rest)

routing_table-strips : All (λ rt. strips rt ≡ true) routing_table
unfolding routing_table strips text_eq has_prefix drop_prefix
routing_table-strips = ground arith

record IsStripped (rt : Route) : Type 0 where
  named : is_empty rt.strip_prefix ≡ false
  begins : rt.strip_prefix ++ drop_prefix rt.strip_prefix rt.path_prefix ≡ rt.path_prefix
  rooted : has_prefix (bytes "/") (drop_prefix rt.strip_prefix rt.path_prefix) ≡ true

strips-IsStripped : (rt : Route) → strips rt ≡ true → IsStripped rt
unfolding strips
strips-IsStripped rt h =
    let rest = drop_prefix rt.strip_prefix rt.path_prefix in
    record {
      named = ground arith;
      begins = (text_eq_iff (rt.strip_prefix ++ rest) rt.path_prefix).0 (ground arith);
      rooted = ground arith;
    }

matched-IsStripped :
    (r : Request) (rt : Route)
    → match_route r ≡ some rt
    → IsStripped rt × (route_matches r rt ≡ true)
unfolding match_route
matched-IsStripped r rt h =
    let (stripped, matches) =
      find_first-All (λ x. strips x ≡ true) (route_matches r) routing_table routing_table-strips
        h in
    (strips-IsStripped rt stripped, matches)

-- A text that begins with s ++ t begins with s, and what follows s begins with t.
has_prefix-split :
    (s t u : Text)
    → has_prefix (s ++ t) u ≡ true
    → (has_prefix s u ≡ true) × (has_prefix t (drop_prefix s u) ≡ true)
unfolding has_prefix drop_prefix
has_prefix-split [] t u h = (refl, h)
has_prefix-split (a ∷ s) t [] h = cc
has_prefix-split (a ∷ s) t (b ∷ u) h = ground (arith, has_prefix-split s t u)

has_prefix_trans :
    (s t u : Text) → has_prefix s t ≡ true → has_prefix t u ≡ true → has_prefix s u ≡ true
unfolding has_prefix
has_prefix_trans [] t u h k = refl
has_prefix_trans (a ∷ s) [] u h k = cc
has_prefix_trans (a ∷ s) (b ∷ t) [] h k = cc
has_prefix_trans (a ∷ s) (b ∷ t) (c ∷ u) h k = ground (arith, has_prefix_trans s t u)

route_matches-prefix :
    (r : Request) (rt : Route) → route_matches r rt ≡ true → has_prefix rt.path_prefix r.path ≡ true
unfolding route_matches
route_matches-prefix r rt h = ground arith

upstream_path-drop :
    (r : Request) (rt : Route)
    → is_empty rt.strip_prefix ≡ false
    → has_prefix rt.strip_prefix r.path ≡ true
    → upstream_path rt r ≡ drop_prefix rt.strip_prefix r.path
unfolding upstream_path
upstream_path-drop r rt e h = rw (e, h)

-- A path that a route matches is the route's strip prefix followed by the path that the service is
-- asked for, and the latter begins with a slash.
pub upstream_path-strips :
    (r : Request) (rt : Route)
    → match_route r ≡ some rt
    → (rt.strip_prefix ++ upstream_path rt r ≡ r.path)
      × (has_prefix (bytes "/") (upstream_path rt r) ≡ true)
upstream_path-strips r rt h =
    let (stripped, matches) = matched-IsStripped r rt h in
    let rest = drop_prefix rt.strip_prefix rt.path_prefix in
    let (strips, follows) = has_prefix-split rt.strip_prefix rest r.path (
      subst (λ p. has_prefix p r.path ≡ true) (sym stripped.begins)
        (route_matches-prefix r rt matches)) in
    subst (λ p. (rt.strip_prefix ++ p ≡ r.path) × (has_prefix (bytes "/") p ≡ true))
      (sym (upstream_path-drop r rt stripped.named strips))
      (
        has_prefix-append_drop rt.strip_prefix r.path strips,
        has_prefix_trans (bytes "/") rest (drop_prefix rt.strip_prefix r.path) stripped.rooted
            follows,
      )

-- Every GET request under /r/, whatever follows, is sent to url-service without a token, and asks
-- it for what follows: this is so not only for short codes.
pub redirect-any_path :
    (r : Request) (rest : Text)
    → let r' = record r { method = bytes "GET"; path = bytes "/r/" ++ rest } in
      (rt : Route) × (match_route r' ≡ some rt)
      × (rt.requires_auth ≡ false)
      × (rt.upstream ≡ url_service)
      × (upstream_path rt r' ≡ bytes "/" ++ rest)
unfolding match_route routing_table find_first route_matches upstream_path text_eq has_prefix
    drop_prefix
redirect-any_path r rest = (redirect_route, refl, refl, refl, refl)
