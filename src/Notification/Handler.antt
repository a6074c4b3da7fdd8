-- ===== src/Notification/Handler.antt =====
-- The handler of services/notification-service/handler.go. `parse_uuid` is uuid.Parse: the UUID of a
-- text that is one.
use url_shortener_microservi.Prelude.{
  ℕ, ◌≡◌, ◌≤◌, refl, sym, subst, if-skips, All-map, ℤ, pos, negsuc, Bool, Text, bytes, List, [],
  ◌∷◌, length, arith, All, Option, none, some, is_empty, ltb, ◌==◌, if◌then◌else◌,
}
use url_shortener_microservi.Http.{Response, json-injective, error-ne-json}
use url_shortener_microservi.Auth.{Claims}
use url_shortener_microservi.Url.Handler.{atoi}
use url_shortener_microservi.Notification.{Notification, effective_limit, list_by_user}
use url_shortener_microservi.Notification.Pages.{list_by_user-Listed}

pub record NotificationListResponse : Type 0 where
  pub notifications : List Notification
  pub next_cursor : Option ℕ

-- The tests on what strconv.Atoi answers; `none` is an error.
unfoldable pub bounded_limit : Option ℤ → Option ℕ
bounded_limit none = none
bounded_limit (some (pos n)) = if n == 0 then none else if ltb 100 n then some 100 else some n
bounded_limit (some (negsuc n)) = none

-- parseNotificationLimit; errInvalidLimit is `none`
unfoldable pub parse_notification_limit : Text → Option ℕ
unfolding bounded_limit
parse_notification_limit raw = if is_empty raw then some 20 else bounded_limit (atoi raw)

-- parseNotificationCursor: errInvalidCursor is `none`, and the empty cursor `some none`
unfoldable pub parse_notification_cursor : (Text → Option ℕ) → Text → Option (Option ℕ)
parse_notification_cursor parse_uuid raw =
    if is_empty raw
    then some none
    else elim (parse_uuid raw) [ none ↦ none | some id ↦ some (some id) ]

unfoldable pub answer_list :
    Option (List Notification × Option ℕ) → Response NotificationListResponse
answer_list none = Response.write_error 500 (bytes "failed to list notifications")
answer_list (some (rows, cursor)) =
    Response.write_json 200 (record { notifications = rows; next_cursor = cursor })

-- What List does with the subject of the claims, the limit and the cursor.
unfoldable pub list_for :
    Text
    → Option ℕ
    → Option (Option ℕ)
    → Bool
    → List Notification
    → Response NotificationListResponse
unfolding answer_list
list_for user none cursor fails rows =
    Response.write_error 400 (bytes "limit must be a positive integer")
list_for user (some limit) none fails rows =
    Response.write_error 400 (bytes "after must be a valid uuid")
list_for user (some limit) (some cursor) fails rows =
    answer_list (list_by_user fails user cursor (pos limit) rows)

-- NotificationHandler.List
unfoldable pub list :
    (Text → Option ℕ)
    → Option Claims
    → Text
    → Text
    → Bool
    → List Notification
    → Response NotificationListResponse
unfolding list_for
list parse_uuid none limit after fails rows = Response.write_error 401 (bytes "unauthorized")
list parse_uuid (some claims) limit after fails rows =
    if is_empty claims.sub
    then Response.write_error 401 (bytes "unauthorized")
    else list_for claims.sub (parse_notification_limit limit)
        (parse_notification_cursor parse_uuid after) fails rows

bounded_limit-bounds :
    (n : Option ℤ) (limit : ℕ) → bounded_limit n ≡ some limit → 1 ≤ limit × limit ≤ 100
unfolding bounded_limit
bounded_limit-bounds none limit h = cc
bounded_limit-bounds (some (pos n)) limit h = ground arith
bounded_limit-bounds (some (negsuc n)) limit h = cc

-- The limit that is passed to ListByUser is from 1 to 100.
parse_notification_limit-bounds :
    (raw : Text) (limit : ℕ) → parse_notification_limit raw ≡ some limit → 1 ≤ limit × limit ≤ 100
unfolding parse_notification_limit
parse_notification_limit-bounds [] limit h = ground arith
parse_notification_limit-bounds (c ∷ s) limit h = bounded_limit-bounds (atoi (c ∷ s)) limit h

-- What a 200 of List holds.
abbrev pub Own : Text → NotificationListResponse → Type 0
Own user resp = All (λ n. n.user_id ≡ user) resp.notifications × length resp.notifications ≤ 100

answer_list-Own :
    (user : Text) (o : Option (List Notification × Option ℕ)) (status : ℕ)
    (resp : NotificationListResponse)
    → ((found : List Notification) (next : Option ℕ)
        → o ≡ some (found, next)
        → All (λ n. n.user_id ≡ user) found × length found ≤ 100)
    → answer_list o ≡ Response.write_json status resp
    → (status ≡ 200) × Own user resp
unfolding answer_list
answer_list-Own user none status resp f h = cc
answer_list-Own user (some (found, next)) status resp f h =
    let (ok_, same) = json-injective h in (sym ok_, subst (Own user) same (f found next refl))

own_rows :
    (user : Text) (c : Option ℕ) (fails : Bool) (rows : List Notification) (limit : ℕ)
    → 1 ≤ limit × limit ≤ 100
    → (found : List Notification) (next : Option ℕ)
    → list_by_user fails user c (pos limit) rows ≡ some (found, next)
    → All (λ n. n.user_id ≡ user) found × length found ≤ 100
unfolding effective_limit
own_rows user c fails rows limit bound found next e =
    let (listed, short) = list_by_user-Listed user c (pos limit) fails rows found next e in
    (All-map (λ r l. l.0) found listed, ground (arith, short, bound))

list_for-Own :
    (user : Text) (limit : Option ℕ) (cursor : Option (Option ℕ)) (fails : Bool)
    (rows : List Notification) (status : ℕ) (resp : NotificationListResponse)
    → ((n : ℕ) → limit ≡ some n → 1 ≤ n × n ≤ 100)
    → list_for user limit cursor fails rows ≡ Response.write_json status resp
    → (status ≡ 200) × Own user resp
unfolding list_for
list_for-Own user none cursor fails rows status resp bound h = cc
list_for-Own user (some n) none fails rows status resp bound h = cc
list_for-Own user (some n) (some c) fails rows status resp bound h =
    answer_list-Own user (list_by_user fails user c (pos n) rows) status resp
      (own_rows user c fails rows n (bound n refl)) h

-- Whatever the query and the table, when List answers a JSON body, its status is 200, all notifications
-- in it belong to the subject of the claims, and there are at most 100.
pub list-Own :
    (parse_uuid : Text → Option ℕ) (claims : Claims) (limit after : Text) (fails : Bool)
    (rows : List Notification) (status : ℕ) (resp : NotificationListResponse)
    → list parse_uuid (some claims) limit after fails rows ≡ Response.write_json status resp
    → (status ≡ 200) × Own claims.sub resp
unfolding list
list-Own parse_uuid claims limit after fails rows status resp h =
    let (_, answered) = if-skips (is_empty claims.sub) (error-ne-json 401 _ status resp) h in
    list_for-Own claims.sub (parse_notification_limit limit)
      (parse_notification_cursor parse_uuid after) fails rows status resp
      (parse_notification_limit-bounds limit) answered
