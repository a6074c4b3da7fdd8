-- ===== src/Notification/Pages.antt =====
-- The pages of ListByUser (services/notification-service/store.go).
use url_shortener_microservi.Prelude.{
  ℕ, zero, suc, ◌+◌, ◌≤◌, ◌≡◌, inl, inr, ap, subst, ℤ, Bool, Bool-cases, true, false, ◌&&◌, Text,
  List, [], ◌∷◌, length, length-take, take, keep, keep-passes, All, All-map, Option, some, text_eq,
  text_eq→≡, ltb, if◌then◌else◌, if-both, some-injective, arith,
}
use url_shortener_microservi.Notification.{
  Notification, earlier, place, order_desc, after_cursor, query_notifications, effective_limit,
  page, list_by_user,
}

module _ (P : Notification → Type 0) where
  take-All : (n : ℕ) (rs : List Notification) → All P rs → All P (take n rs)
  take-All zero rs h = tt
  take-All (suc n) [] h = tt
  take-All (suc n) (r ∷ rs) h = (h.0, take-All n rs h.1)

  place-All : (r : Notification) (rs : List Notification) → P r → All P rs → All P (place r rs)
  unfolding place
  place-All r [] p h = (p, tt)
  place-All r (x ∷ xs) p h = if-both (All P) (earlier r x) (h.0, place-All r xs p h.1) (p, h)

  order-All : (rs : List Notification) → All P rs → All P (order_desc rs)
  unfolding order_desc
  order-All [] h = tt
  order-All (r ∷ rs) h = place-All r (order_desc rs) h.0 (order-All rs h.1)

  page-All : (n : ℕ) (rows : List Notification) → All P rows → All P (page n rows).0
  unfolding page
  page-All n rows h = elim (Bool-cases (ltb n (length rows))) [
    | inl more ↦ rw (more, if◌then◌else◌) (take-All n rows h)
    | inr all ↦ rw (all, if◌then◌else◌) h
  ]

page-length : (n : ℕ) (rows : List Notification) → length (page n rows).0 ≤ n
unfolding page
page-length n rows = ground (arith, length-take n rows)

-- A row that the query may return: the user's, and behind the cursor.
abbrev pub Listed : Text → Option ℕ → List Notification → Notification → Type 0
Listed user after rows r = (r.user_id ≡ user) × (after_cursor user after rows r ≡ true)

wanted :
    (user : Text) (after : Option ℕ) (rows : List Notification) (r : Notification)
    → (text_eq r.user_id user && after_cursor user after rows r) ≡ true
    → Listed user after rows r
wanted user after rows r h = (text_eq→≡ r.user_id user (ground arith), ground arith)

-- A page of ListByUser has at most `limit` rows (20 for a limit that is not positive), each of the user
-- and behind the cursor.
pub list_by_user-Listed :
    (user : Text) (after : Option ℕ) (limit : ℤ) (fails : Bool) (rows found : List Notification)
    (cursor : Option ℕ)
    → list_by_user fails user after limit rows ≡ some (found, cursor)
    → All (Listed user after rows) found × length found ≤ effective_limit limit
unfolding list_by_user query_notifications
list_by_user-Listed user after limit true rows found cursor h = cc
list_by_user-Listed user after limit false rows found cursor h =
    let test = λ (r : Notification). text_eq r.user_id user && after_cursor user after rows r in
    let n = effective_limit limit in
    let kept = take (n + 1) (order_desc (keep test rows)) in
    let these = All-map (wanted user after rows) (keep test rows) (keep-passes test rows) in
    let same : (page n kept).0 ≡ found = ap (λ p. p.0) (some-injective h) in
    (
      subst (All (Listed user after rows)) same (
          page-All (Listed user after rows) n kept (
            take-All (Listed user after rows) (n + 1) (order_desc (keep test rows))
              (order-All (Listed user after rows) (keep test rows) these))),
      subst (λ l. length l ≤ n) same (page-length n kept),
    )
