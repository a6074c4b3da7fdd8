-- ===== src/Url/Listing.antt =====
-- URLService.GetUserUrls (services/url-service/service.go).
pub mod Pages
use url_shortener_microservi.Prelude.{
  ℕ, suc, ◌+◌, Bool, true, false, Text, List, [], ◌∷◌, length, take, Option, none, some, Result, ok,
  err, ltb, if◌then◌else◌,
}
use url_shortener_microservi.Url.Db.{UrlRecord, Db, DbError, no_rows, find_by_user_id}
use url_shortener_microservi.Url.Shorten.{HttpError, http_error, not_found, database_error}

-- ListUrlsResponse; the empty cursor is `none`.
pub record ListUrlsResponse : Type 0 where
  pub urls : List UrlRecord
  pub next_cursor : Option ℕ
  pub has_more : Bool

-- urls[len(urls)-1].ID
unfoldable pub last_id : List UrlRecord → Option ℕ
last_id [] = none
last_id (r ∷ []) = some r.id
last_id (r ∷ s ∷ rs) = last_id (s ∷ rs)

-- What is made of the rows.
unfoldable pub page : ℕ → List UrlRecord → ListUrlsResponse
page limit rows =
    if ltb limit (length rows)
    then record { urls = take limit rows; next_cursor = last_id (take limit rows); has_more = true }
    else record { urls = rows; next_cursor = none; has_more = false }

unfoldable pub answer_rows : ℕ → Result DbError (List UrlRecord) → Result HttpError ListUrlsResponse
answer_rows limit (ok rows) = ok (page limit rows)
answer_rows limit (err no_rows) = err (http_error 200 not_found)
answer_rows limit (err e) = err (http_error 500 database_error)

unfoldable pub get_user_urls :
    Option DbError → Text → Option ℕ → ℕ → ℕ → Db → Result HttpError ListUrlsResponse
unfolding answer_rows
get_user_urls fault user after limit now db =
    answer_rows limit (find_by_user_id fault user after limit now db)
