-- ===== src/Examples/Routes.antt =====
-- Requests to the routes of services/url-service/main.go.
use url_shortener_microservi.Examples.Fixtures.{
  reliable_run, reliable, one_row, draws, sha, parsed, attempt,
}
use url_shortener_microservi.Prelude.{
  ℕ, ◌+◌, ◌*◌, ◌≡◌, refl, pos, bytes, [], ◌∷◌, ◌++◌, none, some, text_eq, has_prefix, drop_prefix,
  some_of, Text, Option, arith,
}
use url_shortener_microservi.Base62.{generate, encode, fill, char_of, set_bytes}
use url_shortener_microservi.Http.Mux.{
  serve, find, best, prefer, candidate, matched, match_path, keep_value, more_specific, or_else,
  answer_of,
}
use url_shortener_microservi.Auth.Middleware.{jwt_middleware, with_claims}
use url_shortener_microservi.Url.Db.{micro, insert, insert_event, taken}
use url_shortener_microservi.Http.{Response}
use url_shortener_microservi.Auth.{
  MapClaims, issued_claims, verify_token, claims_of, value_at, as_number, as_text,
}
use url_shortener_microservi.Url.Shorten.{
  ShortenResponse, hour, shorten_url, validate_url, answer, normalize_hours, shorten_loop, create,
  url_record,
}
use url_shortener_microservi.Url.Handler.{Body, ClickDraws, after_goroutine, handle_shorten}
use url_shortener_microservi.Url.Routes.{Request, Env, serve_request, routes, auth_mw}
use url_shortener_microservi.Url.Routes.Access.{Changes, serve_request-Changes}
use url_shortener_microservi.Url.Routes.RoundTrip.{serve_request-round_trip}

abbrev pub token_parser : ℕ → Text → Option MapClaims
token_parser now token = some (issued_claims 1 1000 (bytes "ann") (bytes "ann@a.b"))

abbrev pub page : Response Body
page = Response.write_header 200

abbrev pub env : Env
env = record {
  now = 100;
  later = 100;
  attempts = attempt;
  anon_user = bytes "u";
  anon_email = bytes "e";
  cached = λ code. none;
  fault = none;
  draws = draws;
}

abbrev pub posts : Request
posts = record {
  method = bytes "POST";
  path = bytes "shorten" ∷ [];
  authorization = bytes "Bearer t";
  body = some (record { url = bytes "http://a.b"; expires_in_hours = pos 0 });
  after = none;
  limit = [];
  remote_addr = bytes "h:1";
}

abbrev pub code : Text
code = generate (attempt 0).random

abbrev visits : Request
visits = record posts { method = bytes "GET"; path = code ∷ []; authorization = [] }

abbrev pub answered : ShortenResponse
answered = record {
  short_code = code;
  short_url = bytes "s" ++ (bytes "/" ++ code);
  original_url = bytes "http://a.b";
  expires_at = 100 + 24 * hour;
}

serve_request-round_trip_example :
    (serve_request token_parser parsed reliable
      (bytes "s")
      sha
      page
      env
      visits
      (serve_request token_parser parsed reliable
        (bytes "s")
        sha
        page
        env
        posts
        one_row).db).response
    ≡ Response.redirect 308 (bytes "http://a.b")
unfolding serve_request serve find best routes auth_mw prefer candidate matched match_path
    keep_value more_specific or_else answer_of text_eq jwt_middleware with_claims has_prefix
    drop_prefix verify_token claims_of issued_claims value_at as_number as_text handle_shorten
    shorten_url validate_url answer normalize_hours shorten_loop reliable_run create insert
    insert_event taken some_of url_record generate encode fill char_of set_bytes micro
serve_request-round_trip_example =
    serve_request-round_trip token_parser parsed reliable (bytes "s") sha page env env posts visits
      one_row answered refl refl refl refl refl refl refl (omega arith)

abbrev deletes : Request
deletes = record posts { method = bytes "DELETE"; path = bytes "urls" ∷ bytes "0000007" ∷ [] }

abbrev click_draws : ClickDraws
click_draws = record {
  event_id = 1;
  outbox_id = 2;
  event_at = 3;
  clicked_at = 4;
  created_at = 5;
  fault = none;
}

serve_request-Changes_example :
    Changes token_parser parsed reliable
      (bytes "s")
      sha
      page
      env
      deletes
      one_row
      click_draws
      (bytes "curl")
      []
      (after_goroutine click_draws
        (bytes "curl")
        []
        (serve_request token_parser parsed reliable (bytes "s") sha page env deletes one_row))
serve_request-Changes_example =
    serve_request-Changes token_parser parsed reliable (bytes "s") sha page env deletes one_row
      click_draws (bytes "curl") []
