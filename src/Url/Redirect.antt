-- ===== src/Url/Redirect.antt =====
-- URLService.RedirectToURL (services/url-service/service.go), with utils.go. `sha256_hex` is the
-- hexadecimal SHA-256 of a text.
pub mod Outcomes
pub mod Races
use url_shortener_microservi.Prelude.{
  ℕ, zero, suc, ◌+◌, ◌-◌, Bool, true, false, not, ◌&&◌, Text, List, [], ◌∷◌, take, Option, none,
  some, Result, ok, err, ltb, ◌==◌, if◌then◌else◌,
}
use url_shortener_microservi.Url.Db.{UrlRecord, Db, DbError, find_by_code}
use url_shortener_microservi.Url.Shorten.{
  CachedUrl, HttpError, http_error, Fill, hour, not_found, expired, deactivated, database_error,
}

-- strings.LastIndex(s, ":"), with `none` for -1
last_colon : Text → Option ℕ
last_colon [] = none
last_colon (c ∷ s) = elim (last_colon s) [
  | some i ↦ some (suc i)
  | none ↦ if c == b':' then some 0 else none
]

-- The host that hashIP hashes.
unfoldable pub host_of : Text → Text
unfolding last_colon
host_of address = elim (last_colon address) [
  | none ↦ address
  | some zero ↦ address
  | some (suc i) ↦ take (suc i) address
]

pub record RedirectInfo : Type 0 where
  pub original_url : Text
  pub user_id : Text
  pub user_email : Text
  pub ip_hash : Text

-- What RedirectToURL does: it returns where to go and what a goroutine will write to the cache, or an
-- error, or it panics on a nil pointer.
pub data Redirected : Type 0 where
  to : RedirectInfo → Option Fill → Redirected
  failed : HttpError → Redirected
  nil_dereference : Redirected

-- ExpiresAt != nil && time.Now().After(*ExpiresAt)
abbrev pub is_past : ℕ → Option ℕ → Bool
is_past now none = false
is_past now (some t) = ltb t now

-- The time to live of the entry that a database row fills, at the time of the write.
unfoldable pub fill_ttl : ℕ → Option ℕ → ℕ
fill_ttl now none = hour
fill_ttl now (some t) = t - now

unfoldable pub cached_of : UrlRecord → CachedUrl
cached_of r = record {
  original_url = r.original_url;
  user_id = r.user_id;
  user_email = r.user_email;
  expires_at = r.expires_at;
  is_active = r.is_active;
}

module _ (sha256_hex : Text → Text) where
  -- hashIP
  pub hash_ip : Text → Text
  hash_ip address = sha256_hex (host_of address)

  -- The branch of a cache hit.
  unfoldable pub from_cache : ℕ → Text → CachedUrl → Redirected
  unfolding hash_ip
  from_cache now remote c =
      if not c.is_active
      then failed (http_error 410 deactivated)
      else if is_past now c.expires_at
      then failed (http_error 410 expired)
      else to
          (record {
            original_url = c.original_url;
            user_id = c.user_id;
            user_email = c.user_email;
            ip_hash = hash_ip remote;
          })
          none

  -- What follows the query. With no row FindByCode returns two nils, and `urlRecord.IsActive` is read.
  unfoldable pub from_db : ℕ → ℕ → Text → Text → Result DbError (Option UrlRecord) → Redirected
  unfolding hash_ip
  from_db now later code remote (err DbError.no_rows) = failed (http_error 404 not_found)
  from_db now later code remote (err e) = failed (http_error 500 database_error)
  from_db now later code remote (ok none) = nil_dereference
  from_db now later code remote (ok (some r)) =
      if not r.is_active
      then failed (http_error 410 deactivated)
      else if is_past now r.expires_at
      then failed (http_error 410 expired)
      else to
          (record {
            original_url = r.original_url;
            user_id = r.user_id;
            user_email = r.user_email;
            ip_hash = hash_ip remote;
          })
          (some (record { code = code; cached = cached_of r; ttl = fill_ttl later r.expires_at }))

  -- `now` is the time of the expiry test, `later` that of the goroutine.
  -- The cache's answer is `none` for a miss and for any error, as Get of cache.go returns it.
  unfoldable pub redirect_to_url :
      ℕ → ℕ → Option CachedUrl → Option DbError → Text → Text → Db → Redirected
  redirect_to_url now later (some c) fault code remote db = from_cache now remote c
  redirect_to_url now later none fault code remote db =
      from_db now later code remote (find_by_code fault code db)
