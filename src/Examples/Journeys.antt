-- ===== src/Examples/Journeys.antt =====
-- Requests to the gateway in front of url-service, and to the routes of user-service.
use url_shortener_microservi.Gateway.RateLimit.{allow}
use url_shortener_microservi.Examples.Gateways.{counter, get, no_host, config, calm, fresh}
use url_shortener_microservi.Examples.Fixtures.{reliable_run, reliable, one_row, sha, parsed}
use url_shortener_microservi.Examples.Routes.{token_parser, page, env, posts, answered, code}
use url_shortener_microservi.Prelude.{
  has_prefix, drop_prefix, some_of, arith, find_first, ℕ, ◌≡◌, refl, true, false, Text, bytes, List,
  [], ◌∷◌, ◌++◌, Option, none, some, text_eq,
}
use url_shortener_microservi.Http.{Response}
use url_shortener_microservi.Http.Mux.{
  serve, find, best, prefer, candidate, matched, match_path, keep_value, more_specific, or_else,
  answer_of, segments, pieces,
}
use url_shortener_microservi.Auth.{
  issued_claims, verify_token, claims_of, value_at, as_number, as_text, MapClaims,
}
use url_shortener_microservi.Breaker.{on_failure, on_success}
use url_shortener_microservi.Gateway.Router.{url_service}
use url_shortener_microservi.Gateway.Handler.{check_rate_limit, forwarded, serve_http}
use url_shortener_microservi.Gateway.Proxy.{Outgoing, lookup}
use url_shortener_microservi.Url.Redirect.Outcomes.{row_of}
use url_shortener_microservi.Base62.{generate, encode, fill, char_of, set_bytes}
use url_shortener_microservi.Auth.Middleware.{jwt_middleware, with_claims}
use url_shortener_microservi.Url.Db.{micro, insert, insert_event, taken}
use url_shortener_microservi.Url.Shorten.{
  shorten_url, validate_url, answer, normalize_hours, shorten_loop, create, url_record,
}
use url_shortener_microservi.Url.Handler.{handle_shorten}
use url_shortener_microservi.Journey.{proxied}
use url_shortener_microservi.Journey.Created.{IsVisitable, serve_http-created}
use url_shortener_microservi.Url.Routes as Routes
use url_shortener_microservi.Journey.Unknown.{IsCode, IsUnknown, serve_http-unknown}
use url_shortener_microservi.User.{Answer, json_type}
use url_shortener_microservi.User.Routes.{Registers, serve_request, serve_request-Registers}
use url_shortener_microservi.User.Routes as UserRoutes

abbrev others : Text → Outgoing → Option ℕ
others name out = none

abbrev services : List (Text × Text)
services = (bytes "url-service", bytes "http://u") ∷ []

is_code :
    IsCode token_parser parsed reliable
      (bytes "s")
      sha
      page
      no_host
      services
      others
      (bytes "g:1")
      env
      one_row
      (bytes "0000008")
      (get (bytes "/r/0000008") [])
unfolding segments pieces text_eq
is_code = record { segment = refl; present = refl; free = (refl, (refl, (refl, (refl, tt)))) }

is_unknown :
    IsUnknown token_parser parsed reliable
      (bytes "s")
      sha
      page
      no_host
      services
      others
      (bytes "g:1")
      env
      one_row
      (bytes "0000008")
      (get (bytes "/r/0000008") [])
unfolding row_of find_first text_eq
is_unknown = record { up = refl; missed = refl; no_row = refl }

serve_http-unknown_example :
    ((serve_http counter true no_host config
        (proxied token_parser parsed reliable
          (bytes "s")
          sha
          page
          no_host
          services
          others
          (bytes "g:1")
          env
          one_row)
        1
        2
        none
        (get (bytes "/r/0000008") [])
        calm).reply
      ≡ forwarded url_service (bytes "/" ++ bytes "0000008") 502)
    × ((serve_http counter true no_host config
          (proxied token_parser parsed reliable
            (bytes "s")
            sha
            page
            no_host
            services
            others
            (bytes "g:1")
            env
            one_row)
          1
          2
          none
          (get (bytes "/r/0000008") [])
          calm).shared.breaker
        ≡ (on_failure 2 fresh).0)
unfolding lookup text_eq check_rate_limit allow
serve_http-unknown_example =
    serve_http-unknown token_parser parsed reliable (bytes "s") sha page no_host services others
      (bytes "g:1") env one_row (bytes "0000008") (get (bytes "/r/0000008") []) counter true config
      1 2 calm (bytes "http://u") refl is_code is_unknown refl refl refl refl

is_visitable :
    IsVisitable token_parser parsed reliable
      (bytes "s")
      sha
      page
      no_host
      services
      others
      (bytes "g:1")
      env
      env
      posts
      one_row
      answered
unfolding Routes.serve_request serve find best Routes.routes Routes.auth_mw prefer candidate matched
    match_path keep_value more_specific or_else answer_of text_eq jwt_middleware with_claims
    has_prefix drop_prefix verify_token claims_of issued_claims value_at as_number as_text
    handle_shorten shorten_url validate_url answer normalize_hours shorten_loop reliable_run create
    insert insert_event taken some_of url_record generate encode fill char_of set_bytes micro pieces
    segments
is_visitable = record {
  posted = refl;
  created = refl;
  segment = refl;
  free = refl;
  missed = refl;
  up = refl;
  in_time = omega arith;
}

serve_http-created_example :
    ((serve_http counter true no_host config
        (proxied token_parser parsed reliable
          (bytes "s")
          sha
          page
          no_host
          services
          others
          (bytes "g:1")
          env
          (Routes.serve_request token_parser parsed reliable
            (bytes "s")
            sha
            page
            env
            posts
            one_row).db)
        1
        2
        none
        (get (bytes "/r/" ++ code) [])
        calm).reply
      ≡ forwarded url_service (bytes "/" ++ code) 308)
    × ((serve_http counter true no_host config
          (proxied token_parser parsed reliable
            (bytes "s")
            sha
            page
            no_host
            services
            others
            (bytes "g:1")
            env
            (Routes.serve_request token_parser parsed reliable
              (bytes "s")
              sha
              page
              env
              posts
              one_row).db)
          1
          2
          none
          (get (bytes "/r/" ++ code) [])
          calm).shared.breaker
        ≡ (on_success 2 fresh).0)
unfolding lookup text_eq check_rate_limit allow
serve_http-created_example =
    serve_http-created token_parser parsed reliable (bytes "s") sha page no_host services others
      (bytes "g:1") env env posts one_row answered counter true config
      (get (bytes "/r/" ++ code) []) 1 2 calm (bytes "http://u") refl is_visitable refl refl refl
      refl

abbrev hashes : Text → Option Text
hashes p = some p

abbrev unsigned : MapClaims → Option Text
unsigned m = none

abbrev no_page : Answer
no_page = Response.write_header 200

abbrev registers : UserRoutes.Request
registers = record {
  method = bytes "POST";
  path = bytes "register" ∷ [];
  authorization = [];
  content_type = json_type;
  body = some (record { email = bytes "ann@a.b"; password = bytes "12345678" });
}

abbrev user_env : UserRoutes.Env
user_env = record { id = bytes "ann"; now = 1; fault = false }

serve_request-Registers_example :
    Registers hashes text_eq unsigned token_parser 10 no_page user_env registers []
      (serve_request hashes text_eq unsigned token_parser 10 no_page user_env registers [])
serve_request-Registers_example =
    serve_request-Registers hashes text_eq unsigned token_parser 10 no_page user_env registers []
