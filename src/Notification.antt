-- ===== src/Notification.antt =====
-- services/notification-service/: the table of notifications and the statements on it (store.go), under
-- the constraints of migration.sql. UUIDs and times are numbers.
pub mod Config
pub mod Written
pub mod Pages
pub mod Consumer
pub mod Handler
pub mod Access
pub mod Invariant
pub mod Redelivery
use url_shortener_microservi.Prelude.{
  ℕ, suc, ◌+◌, ℤ, pos, negsuc, Bool, true, false, ◌&&◌, ◌||◌, Text, List, [], ◌∷◌, ◌++◌, length,
  map, take, keep, some_of, find_first, Option, none, some, Result, ok, err, text_eq, ltb, ◌==◌,
  if◌then◌else◌,
}

-- The values of the column `status`.
pub data Status : Type 0 where
  pending sent : Status

-- Notification, a row of `notifications`.
pub record Notification : Type 0 where
  pub id : ℕ
  pub user_id : Text
  pub event_type : Text
  pub payload : Text
  pub status : Status
  pub created_at : ℕ
  pub sent_at : Option ℕ

pub record NotificationRecord : Type 0 where
  pub user_id : Text
  pub user_email : Text
  pub event_type : Text
  pub payload : Text

-- What one InsertNotification meets: the errors of the database, the UUID that the database draws, the
-- time of the transaction, and the time of the service after the commit.
pub record Draws : Type 0 where
  pub begin_fails : Bool
  pub insert_fails : Bool
  pub mark_fails : Bool
  pub commit_fails : Bool
  pub id : ℕ
  pub now : ℕ
  pub later : ℕ

-- insertNotificationSQL; PRIMARY KEY(id)
unfoldable pub insert : Draws → NotificationRecord → List Notification → Option (List Notification)
insert d rec rows =
    if d.insert_fails || some_of (λ x. x.id == d.id) rows
    then none
    else some (
        rows
        ++ (record {
          id = d.id;
          user_id = rec.user_id;
          event_type = rec.event_type;
          payload = rec.payload;
          status = pending;
          created_at = d.now;
          sent_at = none;
        }
            ∷ []))

abbrev pub mark_row : ℕ → ℕ → Notification → Notification
mark_row id now r = if r.id == id then record r { status = sent; sent_at = some now } else r

-- markNotificationSentSQL
unfoldable pub mark_sent : Draws → List Notification → Option (List Notification)
mark_sent d rows = if d.mark_fails then none else some (map (mark_row d.id d.now) rows)

-- The addressee and the type of "mock email sent".
abbrev pub Email : Type 0
Email = Text × Text

-- What InsertNotification leaves: the notification that it returns, `none` for an error, the emails it
-- has sent, which no rollback takes back, and the committed table.
pub record Inserted : Type 0 where
  pub notification : Option Notification
  pub emails : List Email
  pub rows : List Notification

-- From the mark to the commit; `before` is the committed table.
unfoldable pub finish :
    Draws → NotificationRecord → List Notification → List Notification → Inserted
finish d rec before rows = elim (mark_sent d rows) [
  | none ↦ record {
    notification = none;
    emails = (rec.user_email, rec.event_type) ∷ [];
    rows = before;
  }
  | some marked ↦
      if d.commit_fails
      then record {
        notification = none;
        emails = (rec.user_email, rec.event_type) ∷ [];
        rows = before;
      }
      else record {
        notification = some (record {
          id = d.id;
          user_id = rec.user_id;
          event_type = rec.event_type;
          payload = rec.payload;
          status = sent;
          created_at = d.now;
          sent_at = some d.later;
        });
        emails = (rec.user_email, rec.event_type) ∷ [];
        rows = marked;
      }
]

-- InsertNotification
unfoldable pub insert_notification : Draws → NotificationRecord → List Notification → Inserted
insert_notification d rec before =
    if d.begin_fails
    then record { notification = none; emails = []; rows = before }
    else elim (insert d rec before) [
      | none ↦ record { notification = none; emails = []; rows = before }
      | some rows ↦ finish d rec before rows
    ]

-- (x.created_at, x.id) < (y.created_at, y.id)
abbrev pub earlier : Notification → Notification → Bool
earlier x y = ltb x.created_at y.created_at || x.created_at == y.created_at && ltb x.id y.id

-- ORDER BY created_at DESC, id DESC
unfoldable pub place : Notification → List Notification → List Notification
place r [] = r ∷ []
place r (x ∷ xs) = let rest = place r xs in if earlier r x then x ∷ rest else r ∷ x ∷ xs

unfoldable pub order_desc : List Notification → List Notification
order_desc [] = []
order_desc (r ∷ rs) = place r (order_desc rs)

-- (created_at, id) < (SELECT created_at, id ... WHERE id = $2 AND user_id = $1): NULL, and so no row,
-- where the subquery has none.
unfoldable pub after_cursor : Text → Option ℕ → List Notification → Notification → Bool
after_cursor user none rows r = true
after_cursor user (some after) rows r =
    elim (find_first (λ x. x.id == after && text_eq x.user_id user) rows) [
      | none ↦ false
      | some c ↦ earlier r c
    ]

-- listNotificationsSQL, and listNotificationsAfterSQL where there is a cursor; `fails` is whether the
-- query or the reading of its rows fails
unfoldable pub query_notifications :
    Bool → Text → Option ℕ → ℕ → List Notification → Option (List Notification)
query_notifications fails user after limit rows =
    if fails
    then none
    else some (
        take limit
          (order_desc (keep (λ r. text_eq r.user_id user && after_cursor user after rows r) rows)))

-- notifications[len(notifications)-1].ID, with the empty cursor `none`
unfoldable pub last_id : List Notification → Option ℕ
last_id [] = none
last_id (r ∷ []) = some r.id
last_id (r ∷ s ∷ rs) = last_id (s ∷ rs)

-- if limit <= 0 { limit = 20 }
unfoldable pub effective_limit : ℤ → ℕ
effective_limit (pos n) = if n == 0 then 20 else n
effective_limit (negsuc n) = 20

unfoldable pub page : ℕ → List Notification → List Notification × Option ℕ
page limit rows =
    if ltb limit (length rows) then (take limit rows, last_id (take limit rows)) else (rows, none)

-- ListByUser; an error is `none`
unfoldable pub list_by_user :
    Bool → Text → Option ℕ → ℤ → List Notification → Option (List Notification × Option ℕ)
list_by_user fails user after limit rows =
    elim (query_notifications fails user after (effective_limit limit + 1) rows) [
      | none ↦ none
      | some found ↦ some (page (effective_limit limit) found)
    ]
