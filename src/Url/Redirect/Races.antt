-- ===== src/Url/Redirect/Races.antt =====
-- Redirects after a code was created or deactivated (services/url-service/service.go), and the write
-- of the goroutine of RedirectToURL that comes after a deactivation.
use url_shortener_microservi.Prelude.{
  ℕ, ◌+◌, ◌*◌, ◌≤◌, ◌≡◌, refl, sym, ap, ◌∙◌, subst, ℤ, true, false, Text, Option, none, some, arith,
  inl, inr, ◌≢◌,
}
use url_shortener_microservi.Url.Db.{UrlRecord, micro, stored, Db, DbError, BeginFunc}
use url_shortener_microservi.Url.Db.Unique.{Unique, find_code, find_code-append}
use url_shortener_microservi.Url.Shorten.{
  ParsedUrl, CachedUrl, Shortened, Attempt, hour, normalize_hours, url_record, created_url,
  ShortenResponse, Fill, http_error, deactivated, shorten_url,
}
use url_shortener_microservi.Url.Shorten.Atomic
use url_shortener_microservi.Url.Redirect.{
  RedirectInfo, to, failed, is_past, cached_of, hash_ip, redirect_to_url, from_cache,
}
use url_shortener_microservi.Url.Redirect.Outcomes.{
  row_of, redirect-live, redirect-inactive, redirect-served,
}
use url_shortener_microservi.Url.Cache.{
  RedisClient, Json, get, set, delete, get-set, get-delete_self,
}
use url_shortener_microservi.Url.Deactivate.{Draws, deactivate_url}
use url_shortener_microservi.Url.Deactivate.Effect.{deactivate_url-success}

not_past : (at expires : ℕ) → at ≤ expires → is_past at (some expires) ≡ false
not_past at expires h = ground arith

-- A short URL that ShortenURL has answered redirects on a miss of the cache to the URL that was given,
-- until the time of expiry that was answered, less what is below a microsecond, if the database is up and is as ShortenURL left it.
pub redirect-shorten_url :
    (parse : Text → Option ParsedUrl) (tx : BeginFunc) (base url user_id user_email : Text)
    (hours : ℤ) (now : ℕ) (attempts : ℕ → Attempt) (db db' : Db) (resp : ShortenResponse)
    (fill : Fill) (sha256_hex : Text → Text) (at later : ℕ) (remote : Text)
    → shorten_url parse tx base url user_id user_email hours now attempts db
      ≡ (created_url resp fill, db')
    → at ≤ micro resp.expires_at
    → (info : RedirectInfo) × (fill' : Fill) × (redirect_to_url sha256_hex at later none none
          resp.short_code remote db'
        ≡ to info (some fill'))
      × (info.original_url ≡ url)
unfolding row_of url_record
redirect-shorten_url parse tx base url user_id user_email hours now attempts db db' resp fill
      sha256_hex at later remote made in_time =
    let (_, (i, _, inserted, answered)) =
      Atomic.shorten_url-Created parse tx base url user_id user_email hours now attempts db resp
        fill (ap (λ (p : Shortened × Db). p.0) made) in
    let r : UrlRecord = stored (
      url_record (Atomic.request parse tx base url user_id user_email hours now attempts db)
        (attempts i)) in
    let rows = ap (λ (p : Shortened × Db). p.1.urls) (sym made) ∙ inserted.rows in
    let row : row_of resp.short_code db' ≡ some r =
      ap (λ c. find_code c db'.urls) answered.code
      ∙ (ap (find_code r.short_code) rows
          ∙ find_code-append r db.urls (Atomic.taken-stored _ db.urls ∙ inserted.fresh)) in
    let live =
      not_past at (micro (now + normalize_hours hours * hour))
        (subst (λ t. at ≤ micro t) answered.expiry in_time) in
    (_, _, redirect-live sha256_hex at later resp.short_code remote db' r row (refl, live), refl)

none-ne-some : {c : CachedUrl} → none ≢ some c
none-ne-some h = cc

to-injective : {i j : RedirectInfo} {f g : Fill} → to i (some f) ≡ to j (some g) → (i ≡ j) × (f ≡ g)
to-injective h = (cc, cc)

from_cache-live :
    (sha256_hex : Text → Text) (at : ℕ) (remote : Text) (r : UrlRecord)
    → r.is_active ≡ true
    → is_past at r.expires_at ≡ false
    → from_cache sha256_hex at remote (cached_of r)
      ≡ to
          (record {
            original_url = r.original_url;
            user_id = r.user_id;
            user_email = r.user_email;
            ip_hash = hash_ip sha256_hex remote;
          })
          none
unfolding from_cache cached_of
from_cache-live sha256_hex at remote r on open_ = rw (on, open_) refl

module _ (tx : BeginFunc) (code user email : Text) (d : Draws) (db : Db)
    (sha256_hex : Text → Text) where
  -- After a deactivation that succeeded, of unique rows, a redirect of the code that misses the cache is
  -- answered 410.
  pub redirect-deactivate_url :
      (at later : ℕ) (remote : Text)
      → Unique db.urls
      → (deactivate_url tx code user email d db).error ≡ none
      → redirect_to_url sha256_hex at later none none code remote
          (deactivate_url tx code user email d db).db
        ≡ failed (http_error 410 deactivated)
  unfolding row_of
  redirect-deactivate_url at later remote u h =
      let ((r, _, _, changed), _, _) = deactivate_url-success tx code user email d db u h in
      redirect-inactive sha256_hex at later code remote _ (record r { is_active = false }) changed
        refl

  -- A hit of the entry that a redirect has left for its goroutine goes where that redirect went.
  hit-redirects :
      (before later at later' : ℕ) (remote : Text) (info : RedirectInfo) (fill : Fill)
      (fault : Option DbError)
      → redirect_to_url sha256_hex before later none none code remote db ≡ to info (some fill)
      → is_past at fill.cached.expires_at ≡ false
      → redirect_to_url sha256_hex at later'
          (some fill.cached)
          fault
          code
          remote
          (deactivate_url tx code user email d db).db
        ≡ to info none
  unfolding redirect_to_url cached_of
  hit-redirects before later at later' remote info fill fault served live =
      elim (redirect-served sha256_hex before later code remote db none none info (some fill)
        served) [
          | inl (c, missed, _, _, _) ↦ absurd (none-ne-some missed)
          | inr (r, _, row, was_live, _, _) ↦
              let again = redirect-live sha256_hex before later code remote db r row was_live in
              let (same_info, same_fill) = to-injective (sym again ∙ served) in
              let open_ : is_past at r.expires_at ≡ false =
                subst (λ (f : Fill). is_past at f.cached.expires_at ≡ false) (sym same_fill) live in
              ap (λ (f : Fill). from_cache sha256_hex at remote f.cached) (sym same_fill)
              ∙ (from_cache-live sha256_hex at remote r was_live.0 open_
                  ∙ ap (λ i. to i none) same_info)
        ]

  module _ (client : RedisClient) (json : Json) where
    -- What the cache holds when the deletion of the entry comes before the write of the goroutine.
    abbrev pub overtaken : ℕ → Fill → client.Store → client.Store
    overtaken now fill s =
        (set client json now fill.code fill.cached fill.ttl (delete client json code s).1).1

    overtaken-held :
        (now at : ℕ) (fill : Fill) (s : client.Store) (x : CachedUrl)
        → (delete client json code s).0 ≡ true
        → get client json at code (overtaken now fill s) ≡ some x
        → x ≡ fill.cached
    overtaken-held now at fill s x gone hit =
        elim (get-set client json at now fill.ttl code fill.code x fill.cached _ hit) [
          | inl (_, same) ↦ same
          | inr old ↦ absurd (none-ne-some (sym (get-delete_self client json at code s gone) ∙ old))
        ]

    -- A redirect misses the cache; the URL is deactivated, and its entry deleted, both without an error;
    -- and only then the goroutine of the redirect writes to the cache. A redirect that hits what is in
    -- the cache then goes where the first went, if that has not expired, although one that misses is
    -- answered 410, if the rows were unique.
    pub stale_fill-redirects :
        (before later now at later' : ℕ) (remote : Text) (info : RedirectInfo) (fill : Fill)
        (s : client.Store) (x : CachedUrl)
        → Unique db.urls
        → redirect_to_url sha256_hex before later none none code remote db ≡ to info (some fill)
        → (deactivate_url tx code user email d db).error ≡ none
        → (delete client json code s).0 ≡ true
        → get client json at code (overtaken now fill s) ≡ some x
        → is_past at x.expires_at ≡ false
        → (redirect_to_url sha256_hex at later'
              (get client json at code (overtaken now fill s))
              none
              code
              remote
              (deactivate_url tx code user email d db).db
            ≡ to info none)
          × (redirect_to_url sha256_hex at later' none none code remote
                (deactivate_url tx code user email d db).db
              ≡ failed (http_error 410 deactivated))
    stale_fill-redirects before later now at later' remote info fill s x unique served done_ gone
          hit live =
        let same = overtaken-held now at fill s x gone hit in
        let after = (deactivate_url tx code user email d db).db in
        (
          ap (λ c. redirect_to_url sha256_hex at later' c none code remote after)
                (hit ∙ ap some_entry same)
              ∙ hit-redirects before later at later' remote info fill none served
                  (subst (λ (c : CachedUrl). is_past at c.expires_at ≡ false) same live),
          redirect-deactivate_url at later' remote unique done_,
        )
      where
        some_entry : CachedUrl → Option CachedUrl
        some_entry c = some c
