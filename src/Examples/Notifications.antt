-- ===== src/Examples/Notifications.antt =====
-- Runs of notification-service (services/notification-service/).
use url_shortener_microservi.Prelude.{
  has_prefix, drop_prefix, keep, some_of, text_eq, ℕ, ◌+◌, ◌≡◌, refl, pos, true, false, Text, bytes,
  List, [], ◌∷◌, ◌++◌, Option, none, some, arith,
}
use url_shortener_microservi.Auth.{
  as_number, as_text, value_at, Claims, MapClaims, verify_token, issued_claims, claims_of,
}
use url_shortener_microservi.Auth.Middleware.{bearer, with_claims, jwt_middleware}
use url_shortener_microservi.Notification.{
  list_by_user, query_notifications, page, effective_limit, order_desc, after_cursor, last_id,
  place, NotificationRecord, Draws,
}
use url_shortener_microservi.Notification.Written.{sent_row}
use url_shortener_microservi.Notification.Consumer.{
  notification_from, notification_by_key, parse_event_id, for_event, Unmarshal, Delivery,
  notification_from_delivery, process_delivery,
}
use url_shortener_microservi.Notification.Handler.{
  NotificationListResponse, list, parse_notification_limit, parse_notification_cursor, answer_list,
  bounded_limit, list_for, Own,
}
use url_shortener_microservi.Notification.Access.{notifications_route, notifications_route-Own}
use url_shortener_microservi.Notification.Invariant.{
  Mailbox, Received, consume, IsDelivered, consume-IsDelivered,
}
use url_shortener_microservi.Notification.Redelivery.{
  IsHealthy, notified, process_delivery-duplicates,
}

abbrev reads : Unmarshal
reads = record {
  event_id = λ body. some (bytes "e1");
  created = λ body. some (bytes "ann", bytes "ann@a.b");
  deleted = λ body. none;
  milestone = λ body. none;
}

abbrev message : Delivery
message = record { routing_key = bytes "url.created"; body = bytes "{}" }

abbrev made : NotificationRecord
made = record {
  user_id = bytes "ann";
  user_email = bytes "ann@a.b";
  event_type = bytes "url.created";
  payload = bytes "{}";
}

abbrev draws : ℕ → Draws
draws id = record {
  begin_fails = false;
  insert_fails = false;
  mark_fails = false;
  commit_fails = false;
  id = id;
  now = 100 + id;
  later = 200 + id;
}

abbrev commit_error : Draws
commit_error = record (draws 1) { commit_fails = true }

abbrev empty : Mailbox
empty = record { rows = []; emails = [] }

-- One message that fails to commit, is committed, and comes again.
abbrev received : List Received
received =
    record { draws = commit_error; delivery = message }
    ∷ record { draws = draws 1; delivery = message }
    ∷ record { draws = draws 2; delivery = message }
    ∷ []

empty-IsDelivered : IsDelivered empty
empty-IsDelivered = record { sent = tt; emailed = omega arith }

consume-IsDelivered_example : IsDelivered (consume reads empty received)
consume-IsDelivered_example = consume-IsDelivered reads empty received empty-IsDelivered

once-IsHealthy : IsHealthy (draws 1) []
unfolding some_of
once-IsHealthy = record {
  begins = refl;
  inserts = refl;
  marks = refl;
  commits = refl;
  fresh = refl;
}

twice-IsHealthy : IsHealthy (draws 2) (sent_row (draws 1) made ∷ [])
unfolding some_of
twice-IsHealthy = record {
  begins = refl;
  inserts = refl;
  marks = refl;
  commits = refl;
  fresh = refl;
}

process_delivery-duplicates_example :
    process_delivery reads (draws 2) message (process_delivery reads (draws 1) message []).rows
    ≡ notified (draws 2) made (sent_row (draws 1) made ∷ [])
unfolding notification_from_delivery for_event parse_event_id notification_by_key text_eq
    notification_from
process_delivery-duplicates_example =
    process_delivery-duplicates reads (draws 1) (draws 2) message made [] refl once-IsHealthy
      twice-IsHealthy

abbrev parses : ℕ → Text → Option MapClaims
parses now token = some (issued_claims 1 100 (bytes "ann") (bytes "ann@a.b"))

abbrev no_uuid : Text → Option ℕ
no_uuid t = none

abbrev answer : NotificationListResponse
answer = record { notifications = sent_row (draws 1) made ∷ []; next_cursor = none }

abbrev claims : Claims
claims = record {
  sub = bytes "ann";
  email = bytes "ann@a.b";
  iss = bytes "url-shortener";
  iat = pos 1;
  exp = pos 101;
}

notifications_route-Own_example :
    (token : Text) × (c : Claims) × (bytes "Bearer t" ≡ bearer ++ token)
    × (verify_token parses 5 token ≡ some c)
    × (◌≡◌ {A = ℕ} 200 200)
    × Own c.sub answer
unfolding notifications_route jwt_middleware has_prefix drop_prefix verify_token claims_of
    issued_claims text_eq list parse_notification_limit parse_notification_cursor list_by_user
    query_notifications page effective_limit order_desc keep with_claims as_number as_text value_at
    answer_list bounded_limit list_for after_cursor last_id place
notifications_route-Own_example =
    notifications_route-Own parses no_uuid 5 (bytes "Bearer t") [] [] false
      (sent_row (draws 1) made ∷ []) 200 answer refl
