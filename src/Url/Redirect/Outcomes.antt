-- ===== src/Url/Redirect/Outcomes.antt =====
-- What a redirect (services/url-service/service.go) answers, by the database and by the cache.
use url_shortener_microservi.Prelude.{
  ℕ, ◌≡◌, ◌≢◌, ◌⊎◌, refl, sym, ap, ◌∙◌, Bool, true, false, Text, Option, none, some, Result, ok,
  err, find_first, text_eq, arith, Option-cases, inl, inr,
}
use url_shortener_microservi.Url.Db.{
  UrlRecord, Db, DbError, unique_violation, no_rows, other, find_by_code,
}
use url_shortener_microservi.Url.Shorten.{
  CachedUrl, http_error, Fill, not_found, expired, deactivated,
}
use url_shortener_microservi.Url.Redirect.{
  RedirectInfo, Redirected, to, failed, nil_dereference, is_past, cached_of, fill_ttl, from_cache,
  hash_ip, from_db, redirect_to_url,
}

-- The row of a code.
unfoldable pub row_of : Text → Db → Option UrlRecord
row_of code db = find_first (λ r. text_eq r.short_code code) db.urls

-- A row or an entry that may be served at a time.
abbrev pub IsLive : ℕ → Bool → Option ℕ → Type 0
IsLive now active expires = (active ≡ true) × (is_past now expires ≡ false)

find_by_code-row : (code : Text) (db : Db) → find_by_code none code db ≡ ok (row_of code db)
unfolding find_by_code row_of
find_by_code-row code db = ground arith

-- FindByCode never returns the error of no rows.
find_by_code-cases :
    (fault : Option DbError) (code : Text) (db : Db)
    → (find_by_code fault code db ≡ ok (row_of code db))
      ⊎ ((find_by_code fault code db ≡ ok none)
          ⊎ ((e : DbError) × (find_by_code fault code db ≡ err e) × (e ≢ no_rows)))
unfolding find_by_code row_of
find_by_code-cases none code db = inl (find_by_code-row code db)
find_by_code-cases (some no_rows) code db = inr (inl refl)
find_by_code-cases (some unique_violation) code db = inr (inr (unique_violation, refl, λ e. cc))
find_by_code-cases (some other) code db = inr (inr (other, refl, λ e. cc))

find_by_code-ne-no_rows :
    (fault : Option DbError) (code : Text) (db : Db) → find_by_code fault code db ≢ err no_rows
find_by_code-ne-no_rows fault code db h = elim (find_by_code-cases fault code db) [
  | inl e ↦ cc e
  | inr (inl e) ↦ cc e
  | inr (inr (x, e, n)) ↦ absurd (n (same_error (sym e ∙ h)))
]
  where
    same_error :
        {x y : DbError} → ◌≡◌ {A = Result DbError (Option UrlRecord)} (err x) (err y) → x ≡ y
    same_error p = cc p

module _ (sha256_hex : Text → Text) (now later : ℕ) (code remote : Text) (db : Db) where
  abbrev redirect_with : Option CachedUrl → Option DbError → Redirected
  redirect_with cached fault = redirect_to_url sha256_hex now later cached fault code remote db

  from_db-result :
      (fault : Option DbError) {q : Result DbError (Option UrlRecord)}
      → find_by_code fault code db ≡ q
      → redirect_with none fault ≡ from_db sha256_hex now later code remote q
  unfolding redirect_to_url
  from_db-result fault e = ap (from_db sha256_hex now later code remote) e

  from_db-error :
      (e : DbError) {info : RedirectInfo} {fill : Option Fill}
      → from_db sha256_hex now later code remote (err e) ≢ to info fill
  unfolding from_db
  from_db-error e h = ground arith

  from_db-none :
      {info : RedirectInfo} {fill : Option Fill}
      → from_db sha256_hex now later code remote (ok none) ≢ to info fill
  unfolding from_db
  from_db-none h = ground arith

  from_cache-to :
      (c : CachedUrl) (fault : Option DbError) (info : RedirectInfo) (fill : Option Fill)
      → redirect_with (some c) fault ≡ to info fill
      → IsLive now c.is_active c.expires_at × (info.original_url ≡ c.original_url) × (fill ≡ none)
  unfolding redirect_to_url from_cache
  from_cache-to c fault info fill h = ground arith

  from_db-to :
      (r : UrlRecord) (info : RedirectInfo) (fill : Option Fill)
      → from_db sha256_hex now later code remote (ok (some r)) ≡ to info fill
      → IsLive now r.is_active r.expires_at
        × (info.original_url ≡ r.original_url)
        × (fill
            ≡ some
                (record { code = code; cached = cached_of r; ttl = fill_ttl later r.expires_at }))
  unfolding from_db
  from_db-to r info fill h = ground arith

  -- Where a redirect that is served leads: to the URL of the cache's entry, which then is active and
  -- not past its expiry, or, on a miss, to the URL of the row of the code, which then is active and
  -- not past its expiry, and the goroutine will put that row into the cache.
  pub redirect-served :
      (cached : Option CachedUrl) (fault : Option DbError) (info : RedirectInfo)
      (fill : Option Fill)
      → redirect_with cached fault ≡ to info fill
      → ((c : CachedUrl) × (cached ≡ some c)
          × IsLive now c.is_active c.expires_at
          × (info.original_url ≡ c.original_url)
          × (fill ≡ none))
        ⊎ ((r : UrlRecord) × (cached ≡ none)
            × (row_of code db ≡ some r)
            × IsLive now r.is_active r.expires_at
            × (info.original_url ≡ r.original_url)
            × (fill
                ≡ some (record {
                  code = code;
                  cached = cached_of r;
                  ttl = fill_ttl later r.expires_at;
                })))
  redirect-served (some c) fault info fill h =
      let (live, url, no_fill) = from_cache-to c fault info fill h in
      inl (c, refl, live, url, no_fill)
  redirect-served none fault info fill h = elim (find_by_code-cases fault code db) [
    | inl row ↦ elim (Option-cases (row_of code db)) [
      | inl no_row ↦ absurd (from_db-none (sym (from_db-result fault (row ∙ ap ok no_row)) ∙ h))
      | inr (r, is_row) ↦
          let (live, url, filled) =
            from_db-to r info fill (sym (from_db-result fault (row ∙ ap ok is_row)) ∙ h) in
          inr (r, refl, is_row, live, url, filled)
    ]
    | inr (inl no_row) ↦ absurd (from_db-none (sym (from_db-result fault no_row) ∙ h))
    | inr (inr (e, failure, _)) ↦ absurd (from_db-error e (sym (from_db-result fault failure) ∙ h))
  ]

  -- On a miss, with the database up, a code that no row has makes the handler panic: the nil record
  -- that FindByCode returns is read.
  pub redirect-unknown : row_of code db ≡ none → redirect_with none none ≡ nil_dereference
  unfolding redirect_to_url from_db
  redirect-unknown e = from_db-result none (find_by_code-row code db ∙ ap ok e)

  -- On a miss, with the database up, a row that is not active is answered 410.
  pub redirect-inactive :
      (r : UrlRecord)
      → row_of code db ≡ some r
      → r.is_active ≡ false
      → redirect_with none none ≡ failed (http_error 410 deactivated)
  unfolding redirect_to_url from_db
  redirect-inactive r e off =
      let row = from_db-result none (find_by_code-row code db ∙ ap ok e) in row ∙ rw off

  -- On a miss, with the database up, an active row that is past its expiry is answered 410.
  pub redirect-past :
      (r : UrlRecord)
      → row_of code db ≡ some r
      → r.is_active ≡ true
      → is_past now r.expires_at ≡ true
      → redirect_with none none ≡ failed (http_error 410 expired)
  unfolding redirect_to_url from_db
  redirect-past r e on past =
      let row = from_db-result none (find_by_code-row code db ∙ ap ok e) in row ∙ rw (on, past)

  -- On a miss, with the database up, a live row is served: its URL is answered, and the goroutine will
  -- put it into the cache.
  pub redirect-live :
      (r : UrlRecord)
      → row_of code db ≡ some r
      → IsLive now r.is_active r.expires_at
      → redirect_with none none
        ≡ to
            (record {
              original_url = r.original_url;
              user_id = r.user_id;
              user_email = r.user_email;
              ip_hash = hash_ip sha256_hex remote;
            })
            (some (record { code = code; cached = cached_of r; ttl = fill_ttl later r.expires_at }))
  unfolding redirect_to_url from_db
  redirect-live r e live =
      let row = from_db-result none (find_by_code-row code db ∙ ap ok e) in
      row ∙ rw (live.0, live.1)

  not_404 :
      (r : Result DbError (Option UrlRecord))
      → r ≢ err no_rows
      → from_db sha256_hex now later code remote r ≢ failed (http_error 404 not_found)
  unfolding from_db
  not_404 r n h = ground arith

  -- No redirect answers 404, whatever the cache and the database hold or answer.
  pub redirect-ne-404 :
      (cached : Option CachedUrl) (fault : Option DbError)
      → redirect_with cached fault ≢ failed (http_error 404 not_found)
  unfolding redirect_to_url from_cache
  redirect-ne-404 (some c) fault h = ground arith
  redirect-ne-404 none fault h =
      not_404 (find_by_code fault code db) (find_by_code-ne-no_rows fault code db) h
