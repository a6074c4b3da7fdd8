-- ===== src/Url/System.antt =====
-- url-service as a whole: its database, its cache and the writes to the cache that goroutines of
-- services/url-service/service.go have still to make. The operations of service.go and the goroutines
-- follow one another in any order; a deactivation is two steps, its transaction and the deletion of the
-- cache's entry.
pub mod Entries
pub mod Coherence
pub mod Refinement
use url_shortener_microservi.Prelude.{
  ℕ, ◌≡◌, ◌≢◌, ℤ, true, Text, List, ◌∷◌, ◌++◌, Option, none, some, All,
}
use url_shortener_microservi.Url.Db.{Db, DbError, BeginFunc}
use url_shortener_microservi.Url.Shorten.{
  ParsedUrl, CachedUrl, HttpError, ShortenResponse, Attempt, Fill, Shortened, created_url, failed,
  shorten_url,
}
use url_shortener_microservi.Url.Redirect.{RedirectInfo, Redirected, to, redirect_to_url}
use url_shortener_microservi.Url.Deactivate.{Draws, deactivate_url}
use url_shortener_microservi.Url.Cache.{RedisClient, Json, get, set, delete}

-- `stale` are the codes whose URL a transaction has deactivated, until their entry is deleted without an
-- error while no write for them is still to be made.
pub record System (client : RedisClient) : Type 0 where
  pub db : Db
  pub cache : client.Store
  pub fills : List Fill
  pub stale : List Text

module _ (client : RedisClient) (json : Json) (parse : Text → Option ParsedUrl) (tx : BeginFunc)
    (base : Text) (sha256_hex : Text → Text) where
  -- One operation, one write of a goroutine, the transaction of a deactivation, its cache.Delete, which
  -- may come late or fail, or a change that is not the service's own.
  pub data Step (s : System client) : System client → Type 0 where
    shorten :
        (url user_id user_email : Text) (hours : ℤ) (now : ℕ) (attempts : ℕ → Attempt)
        (resp : ShortenResponse) (fill : Fill)
        → (shorten_url parse tx base url user_id user_email hours now attempts s.db).0
          ≡ created_url resp fill
        → Step s (record s {
          db = (shorten_url parse tx base url user_id user_email hours now attempts s.db).1;
          fills = fill ∷ s.fills;
        })
    shorten_fails :
        (url user_id user_email : Text) (hours : ℤ) (now : ℕ) (attempts : ℕ → Attempt)
        (e : HttpError)
        → (shorten_url parse tx base url user_id user_email hours now attempts s.db).0 ≡ failed e
        → Step s (record s {
          db = (shorten_url parse tx base url user_id user_email hours now attempts s.db).1;
        })
    redirect :
        (now later : ℕ) (fault : Option DbError) (code remote : Text) (info : RedirectInfo)
        (fill : Fill)
        → redirect_to_url sha256_hex now later
            (get client json now code s.cache)
            fault
            code
            remote
            s.db
          ≡ to info (some fill)
        → Step s (record s { fills = fill ∷ s.fills })
    write :
        (now : ℕ) (before after : List Fill) (fill : Fill)
        → s.fills ≡ before ++ (fill ∷ after)
        → Step s (record s {
          cache = (set client json now fill.code fill.cached fill.ttl s.cache).1;
          fills = before ++ after;
        })
    deactivate :
        (code user email : Text) (d : Draws)
        → (deactivate_url tx code user email d s.db).error ≡ none
        → Step s (record s {
          db = (deactivate_url tx code user email d s.db).db;
          stale = code ∷ s.stale;
        })
    delete_entry :
        (code : Text) (before after : List Text)
        → s.stale ≡ before ++ (code ∷ after)
        → (delete client json code s.cache).0 ≡ true
        → All (λ f. f.code ≢ code) s.fills
        → Step s (record s { cache = (delete client json code s.cache).1; stale = before ++ after })
    delete_leaves :
        (code : Text) → Step s (record s { cache = (delete client json code s.cache).1 })
    deactivate_fails :
        (code user email : Text) (d : Draws) (e : HttpError)
        → (deactivate_url tx code user email d s.db).error ≡ some e
        → Step s (record s { db = (deactivate_url tx code user email d s.db).db })
    forget :
        (cache : client.Store)
        → ((at : ℕ) (k : Text) (x : CachedUrl)
            → get client json at k cache ≡ some x
            → get client json at k s.cache ≡ some x)
        → Step s (record s { cache = cache })
    other_tables : (db : Db) → db.urls ≡ s.db.urls → Step s (record s { db = db })

  pub data Reach (s : System client) : System client → Type 0 where
    here : Reach s s
    next : {t u : System client} → Reach s t → Step t u → Reach s u
