-- ===== src/Notification/Written.antt =====
-- What InsertNotification leaves in the table (services/notification-service/store.go).
use url_shortener_microservi.Prelude.{
  ℕ, ◌≡◌, inl, inr, refl, Bool-cases, false, ◌||◌, List, [], ◌∷◌, ◌++◌, map, some_of, none, some,
  ◌==◌, if◌then◌else◌, if-both, arith,
}
use url_shortener_microservi.Notification.{
  Notification, NotificationRecord, Draws, Inserted, pending, sent, insert, mark_row, mark_sent,
  finish, insert_notification,
}

-- The row of a record, as it is committed.
abbrev pub sent_row : Draws → NotificationRecord → Notification
sent_row d rec = record {
  id = d.id;
  user_id = rec.user_id;
  event_type = rec.event_type;
  payload = rec.payload;
  status = sent;
  created_at = d.now;
  sent_at = some d.now;
}

abbrev pub pending_row : Draws → NotificationRecord → Notification
pending_row d rec = record (sent_row d rec) { status = pending; sent_at = none }

-- The mark changes only the row of its id.
pub mark_row-append :
    (id now : ℕ) (rows : List Notification) (r : Notification)
    → some_of (λ x. x.id == id) rows ≡ false
    → r.id ≡ id
    → map (mark_row id now) (rows ++ (r ∷ []))
      ≡ rows ++ (record r { status = sent; sent_at = some now } ∷ [])
unfolding some_of
mark_row-append id now [] r h e = ground arith
mark_row-append id now (x ∷ xs) r h e = ground (arith, mark_row-append id now xs r (ground arith) e)

-- The two outcomes of InsertNotification.
pub data Outcome (d : Draws) (rec : NotificationRecord) (before : List Notification) (i : Inserted)
    : Type 0 where
  fails : i.notification ≡ none → i.rows ≡ before → Outcome d rec before i
  commits :
      (n : Notification)
      → i.notification ≡ some n
      → some_of (λ x. x.id == d.id) before ≡ false
      → i.rows ≡ before ++ (sent_row d rec ∷ [])
      → i.emails ≡ (rec.user_email, rec.event_type) ∷ []
      → Outcome d rec before i

finish-Outcome :
    (d : Draws) (rec : NotificationRecord) (before : List Notification)
    → some_of (λ x. x.id == d.id) before ≡ false
    → Outcome d rec before (finish d rec before (before ++ (pending_row d rec ∷ [])))
unfolding finish mark_sent
finish-Outcome d rec before fresh = elim (Bool-cases d.mark_fails) [
  | inl t ↦ rw (t, if◌then◌else◌) (fails refl refl)
  | inr f ↦ elim (Bool-cases d.commit_fails) [
    | inl t ↦ rw (f, t, if◌then◌else◌) (fails refl refl)
    | inr g ↦
        rw (f, g, if◌then◌else◌)
          (commits _ refl fresh (mark_row-append d.id d.now before (pending_row d rec) fresh refl)
            refl)
  ]
]

pub insert_notification-Outcome :
    (d : Draws) (rec : NotificationRecord) (before : List Notification)
    → Outcome d rec before (insert_notification d rec before)
unfolding insert_notification insert
insert_notification-Outcome d rec before =
    if-both (Outcome d rec before) d.begin_fails (fails refl refl)
      (elim (Bool-cases (d.insert_fails || some_of (λ x. x.id == d.id) before)) [
        | inl t ↦ rw (t, if◌then◌else◌) (fails refl refl)
        | inr f ↦ rw (f, if◌then◌else◌) (finish-Outcome d rec before (ground arith))
      ])
