-- ===== src/Notification/Access.antt =====
-- The route GET /notifications of services/notification-service/main.go: the handler behind the
-- middleware of shared/auth/middleware.go.
use url_shortener_microservi.Prelude.{ℕ, ◌≡◌, Bool, Text, List, ◌++◌, Option, some}
use url_shortener_microservi.Http.{Response}
use url_shortener_microservi.Auth.{Claims, MapClaims, verify_token}
use url_shortener_microservi.Auth.Middleware.{bearer, jwt_middleware, jwt_middleware-verified}
use url_shortener_microservi.Notification.{Notification}
use url_shortener_microservi.Notification.Handler.{NotificationListResponse, list, Own, list-Own}

-- mux.Handle("GET /notifications", authMw(http.HandlerFunc(handler.List)))
unfoldable pub notifications_route :
    (ℕ → Text → Option MapClaims)
    → (Text → Option ℕ)
    → ℕ
    → Text
    → Text
    → Text
    → Bool
    → List Notification
    → Response NotificationListResponse
notifications_route parse parse_uuid now header limit after fails rows =
    jwt_middleware Response.write_error parse now header
      (λ claims. list parse_uuid claims limit after fails rows)

-- A JSON body of GET /notifications is only answered to a request whose header has a token that
-- VerifyToken accepts; its status is 200, and it holds at most 100 notifications, all of the subject of
-- that token.
pub notifications_route-Own :
    (parse : ℕ → Text → Option MapClaims) (parse_uuid : Text → Option ℕ) (now : ℕ)
    (header limit after : Text) (fails : Bool) (rows : List Notification) (status : ℕ)
    (resp : NotificationListResponse)
    → notifications_route parse parse_uuid now header limit after fails rows
      ≡ Response.write_json status resp
    → (token : Text) × (c : Claims) × (header ≡ bearer ++ token)
      × (verify_token parse now token ≡ some c)
      × (status ≡ 200)
      × Own c.sub resp
unfolding notifications_route
notifications_route-Own parse parse_uuid now header limit after fails rows status resp h =
    let (token, c, given, verified, written) =
      jwt_middleware-verified parse now header
        (λ claims. list parse_uuid claims limit after fails rows) status resp h in
    let (ok_, own) = list-Own parse_uuid c limit after fails rows status resp written in
    (token, c, given, verified, ok_, own)
