-- ===== src/Examples/Urls.antt =====
-- Runs of url-service (services/url-service/).
use url_shortener_microservi.Examples.Fixtures.{
  reliable_run, reliable, one_row, draws, sha, parsed, attempt,
}
use url_shortener_microservi.Prelude.{
  keep, ℕ, zero, suc, ◌+◌, ◌*◌, ◌<◌, ◌≡◌, refl, pos, true, false, bytes, [], ◌∷◌, ◌++◌, some_of,
  text_eq, none, some, arith,
}
use url_shortener_microservi.Base62.{set_bytes, char_of, fill, encode, generate}
use url_shortener_microservi.Url.Db.{
  place, UrlRecord, taken, insert, insert_event, deactivates, deactivate, listed, order_by_id_desc,
}
use url_shortener_microservi.Url.Db.Unique.{find_code}
use url_shortener_microservi.Url.Shorten.{
  http_error, already_exists, deactivated, validate_url, CachedUrl, ShortenResponse, hour,
  normalize_hours, Attempt, Order, order, url_record, create, answer, done, shorten_loop, Fill,
  Shortened, shorten_url,
}
use url_shortener_microservi.Url.Shorten.Atomic
use url_shortener_microservi.Url.Shorten.Collisions
use url_shortener_microservi.Url.Redirect.{RedirectInfo, Redirected, redirect_to_url}
use url_shortener_microservi.Url.Redirect.Races.{redirect-deactivate_url}
use url_shortener_microservi.Url.Deactivate.{deleted_record, remove, after_remove, deactivate_url}
use url_shortener_microservi.Url.Deactivate.Effect.{deactivate_url-success}
use url_shortener_microservi.Url.Listing.Pages.{all_listed, follow, follow-all_listed}

deactivate_url-success_example :
    ((r : UrlRecord) × (find_code (bytes "0000007") one_row.urls ≡ some r)
      × (deactivates (bytes "0000007") (bytes "ann") r ≡ true)
      × (find_code
            (bytes "0000007")
            (deactivate_url reliable
              (bytes "0000007")
              (bytes "ann")
              (bytes "ann@a.b")
              draws
              one_row).db.urls
          ≡ some (record r { is_active = false })))
    × ((deactivate_url reliable
          (bytes "0000007")
          (bytes "ann")
          (bytes "ann@a.b")
          draws
          one_row).db.outbox
        ≡ [] ++ (deleted_record (bytes "0000007") (bytes "ann") (bytes "ann@a.b") draws ∷ []))
    × ((deactivate_url reliable
          (bytes "0000007")
          (bytes "ann")
          (bytes "ann@a.b")
          draws
          one_row).deletes_entry
        ≡ true)
unfolding taken some_of deactivate_url after_remove reliable_run remove deactivate deactivates
    text_eq insert_event
deactivate_url-success_example =
    deactivate_url-success reliable (bytes "0000007") (bytes "ann") (bytes "ann@a.b") draws one_row
      (refl, tt) refl

redirect-deactivate_url_example :
    redirect_to_url sha 30 30 none none
      (bytes "0000007")
      (bytes "h:1")
      (deactivate_url reliable (bytes "0000007") (bytes "ann") (bytes "ann@a.b") draws one_row).db
    ≡ Redirected.failed (http_error 410 deactivated)
unfolding taken some_of deactivate_url after_remove reliable_run remove deactivate deactivates
    text_eq insert_event
redirect-deactivate_url_example =
    redirect-deactivate_url reliable (bytes "0000007") (bytes "ann") (bytes "ann@a.b") draws one_row
      sha 30 30 (bytes "h:1") (refl, tt) refl

abbrev went : RedirectInfo
went = record {
  original_url = bytes "http://a.b";
  user_id = bytes "ann";
  user_email = bytes "ann@a.b";
  ip_hash = bytes "h";
}

abbrev entry : CachedUrl
entry = record {
  original_url = bytes "http://a.b";
  user_id = bytes "ann";
  user_email = bytes "ann@a.b";
  expires_at = some 50;
  is_active = true;
}

abbrev filled : Fill
filled = record { code = bytes "0000007"; cached = entry; ttl = 30 }

-- Every attempt draws the id that a row has.
abbrev same_id : ℕ → Attempt
same_id i = record (attempt 0) { url_id = 7 }

abbrev asked : Order
asked = order (bytes "http://a.b") (bytes "ann") (bytes "ann@a.b") 24 100

abbrev expiry : ℕ
expiry = 100 + 24 * hour

abbrev shortened : ℕ → ShortenResponse
shortened i = record {
  short_code = generate (attempt i).random;
  short_url = bytes "s" ++ (bytes "/" ++ generate (attempt i).random);
  original_url = bytes "http://a.b";
  expires_at = expiry;
}

abbrev shortened_fill : ℕ → Fill
shortened_fill i = record {
  code = generate (attempt i).random;
  cached = record entry { expires_at = some expiry };
  ttl = 24 * hour;
}

shorten_url-Created_example :
    (validate_url parsed (bytes "http://a.b") ≡ true)
    × ((i : ℕ) × (i < 3)
        × Atomic.Inserted asked
            (attempt i)
            one_row
            (shorten_url parsed reliable
              (bytes "s")
              (bytes "http://a.b")
              (bytes "ann")
              (bytes "ann@a.b")
              (pos 0)
              100
              attempt
              one_row).1
        × Atomic.Created asked (attempt i) (shortened 0) (shortened_fill 0))
unfolding shorten_url validate_url text_eq shorten_loop reliable_run create insert taken some_of
    url_record generate encode fill char_of set_bytes insert_event normalize_hours
shorten_url-Created_example =
    Atomic.shorten_url-Created parsed reliable (bytes "s") (bytes "http://a.b") (bytes "ann")
      (bytes "ann@a.b") (pos 0) 100 attempt one_row (shortened 0) (shortened_fill 0) refl

Collides-same_id : (j : ℕ) → Collisions.Collides reliable asked same_id one_row j
unfolding taken some_of text_eq url_record generate encode fill char_of set_bytes
Collides-same_id j = record { in_use = refl; answers = refl; begun = refl }

shorten_url-exhausted_example :
    shorten_url parsed reliable
      (bytes "s")
      (bytes "http://a.b")
      (bytes "ann")
      (bytes "ann@a.b")
      (pos 24)
      100
      same_id
      one_row
    ≡ (Shortened.failed (http_error 409 already_exists), one_row)
unfolding validate_url text_eq normalize_hours
shorten_url-exhausted_example =
    Collisions.shorten_url-exhausted parsed reliable (bytes "s") (bytes "http://a.b") (bytes "ann")
      (bytes "ann@a.b") (pos 24) 100 same_id one_row refl (λ j lt. Collides-same_id j)

-- The first attempt alone draws the id that a row has.
abbrev then_free : ℕ → Attempt
then_free zero = same_id 0
then_free (suc i) = attempt (suc i)

Collides-first_only : (j : ℕ) → j < 1 → Collisions.Collides reliable asked then_free one_row j
unfolding taken some_of text_eq url_record generate encode fill char_of set_bytes
Collides-first_only zero lt = record { in_use = refl; answers = refl; begun = refl }
Collides-first_only (suc j) lt = absurd (omega arith)

shorten_url-retries_example :
    shorten_url parsed reliable
      (bytes "s")
      (bytes "http://a.b")
      (bytes "ann")
      (bytes "ann@a.b")
      (pos 24)
      100
      then_free
      one_row
    ≡ (
      answer (bytes "s") (normalize_hours (pos 24)) asked (done (then_free 1)),
      (reliable.run 1 (create asked (then_free 1)) one_row).1,
    )
unfolding validate_url text_eq normalize_hours reliable_run create insert taken some_of url_record
    generate encode fill char_of set_bytes insert_event
shorten_url-retries_example =
    Collisions.shorten_url-retries parsed reliable (bytes "s") (bytes "http://a.b") (bytes "ann")
      (bytes "ann@a.b") (pos 24) 100 then_free one_row refl 1 Collides-first_only (omega arith) refl

follow-all_listed_example :
    follow 3 none 1 (bytes "ann") 20 one_row ≡ all_listed (bytes "ann") 20 one_row
unfolding all_listed order_by_id_desc keep listed text_eq place
follow-all_listed_example = follow-all_listed 0 (bytes "ann") 20 one_row (tt, tt) 3 (omega arith)
