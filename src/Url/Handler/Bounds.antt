-- ===== src/Url/Handler/Bounds.antt =====
-- How many rows HandleGetUrls (services/url-service/handler.go) answers.
use url_shortener_microservi.Prelude.{
  ℕ, ◌≤◌, ◌≡◌, subst, ℤ, pos, negsuc, Text, List, length, length-take, Option, none, some, Result,
  ok, err, arith,
}
use url_shortener_microservi.Http.{Response}
use url_shortener_microservi.Auth.{Claims}
use url_shortener_microservi.Url.Db.{
  UrlRecord, Db, DbError, no_rows, unique_violation, other, find_by_user_id,
}
use url_shortener_microservi.Url.Shorten.{HttpError}
use url_shortener_microservi.Url.Listing.{ListUrlsResponse, page, get_user_urls, answer_rows}
use url_shortener_microservi.Url.Handler.{
  listing, atoi, clamp_limit, limit_of, handle_get_urls, refuse, answer_listing,
}

length-page : (limit : ℕ) (rows : List UrlRecord) → length (page limit rows).urls ≤ limit
unfolding page
length-page limit rows = ground (arith, length-take limit rows)

clamp_limit-range : (n : ℤ) → (1 ≤ clamp_limit n) × (clamp_limit n ≤ 100)
unfolding clamp_limit
clamp_limit-range (pos n) = ground arith
clamp_limit-range (negsuc n) = (omega arith, omega arith)

of_option-range :
    (o : Option ℤ)
    → (1 ≤ elim o [ none ↦ 20 | some n ↦ clamp_limit n ])
      × (elim o [ none ↦ 20 | some n ↦ clamp_limit n ] ≤ 100)
of_option-range none = (omega arith, omega arith)
of_option-range (some n) = clamp_limit-range n

-- Whatever text the query gives as the limit, also none and one that is not a number, the limit is
-- from 1 to 100.
pub limit_of-range : (text : Text) → (1 ≤ limit_of text) × (limit_of text ≤ 100)
unfolding limit_of
limit_of-range text = of_option-range (atoi text)

answer_rows-page :
    (limit : ℕ) (rows : Result DbError (List UrlRecord)) (l : ListUrlsResponse)
    → answer_rows limit rows ≡ ok l
    → length l.urls ≤ limit
unfolding answer_rows
answer_rows-page limit (ok rows) l h =
    let same : page limit rows ≡ l = cc in
    subst (λ x. length x.urls ≤ limit) same (length-page limit rows)
answer_rows-page limit (err no_rows) l h = cc
answer_rows-page limit (err unique_violation) l h = cc
answer_rows-page limit (err other) l h = cc

answer_listing-ok :
    (r : Result HttpError ListUrlsResponse) (db : Db) (l : ListUrlsResponse)
    → (answer_listing r db).response ≡ Response.write_json 200 (listing l)
    → r ≡ ok l
unfolding answer_listing refuse
answer_listing-ok (ok x) db l h = cc
answer_listing-ok (err e) db l h = cc

-- A list that HandleGetUrls answers has at most 100 rows, whatever limit and cursor the query gives.
pub handle_get_urls-length :
    (claims : Option Claims) (after : Option ℕ) (limit : Text) (fault : Option DbError) (now : ℕ)
    (db : Db) (l : ListUrlsResponse)
    → (handle_get_urls claims after limit fault now db).response
      ≡ Response.write_json 200 (listing l)
    → length l.urls ≤ 100
unfolding handle_get_urls get_user_urls refuse
handle_get_urls-length none after limit fault now db l h = cc
handle_get_urls-length (some claims) after limit fault now db l h =
    let rows = find_by_user_id fault claims.sub after (limit_of limit) now db in
    let (_, most) = limit_of-range limit in
    let fits = answer_rows-page (limit_of limit) rows l (answer_listing-ok _ db l h) in
    omega (arith, fits, most)
