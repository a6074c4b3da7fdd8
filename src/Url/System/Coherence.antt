-- ===== src/Url/System/Coherence.antt =====
-- The cache agrees with the rows: what an entry holds, or a goroutine will write, is its row's, but for
-- a deactivation whose deletion of the entry is still to come.
use url_shortener_microservi.Prelude.{
  ℕ, ◌≡◌, ◌≢◌, inl, inr, sym, ap, ◌∙◌, subst, true, Text, List, [], ◌∷◌, ◌++◌, map, Option, none,
  some, All, All-map, All-split,
}
use url_shortener_microservi.Url.Db.{Db, DbError, BeginFunc, stored, deactivate_row}
use url_shortener_microservi.Url.Db.Unique.{Unique, Unique-append, Unique-map, find_code}
use url_shortener_microservi.Url.Shorten.{
  ParsedUrl, CachedUrl, Order, Attempt, url_record, ShortenResponse, Fill,
}
use url_shortener_microservi.Url.Shorten.Atomic
use url_shortener_microservi.Url.Redirect.{RedirectInfo, to, redirect_to_url}
use url_shortener_microservi.Url.Redirect.Outcomes.{redirect-served, row_of}
use url_shortener_microservi.Url.Deactivate.{Draws}
use url_shortener_microservi.Url.Deactivate.Effect.{
  Removed, deactivate_url-Removed, deactivate_url-failed,
}
use url_shortener_microservi.Url.System.Entries.{
  Agrees, Matches, Matches-append, Matches-map, Matches-fresh, Agrees-cached_of, Matches-Created,
}
use url_shortener_microservi.Url.Cache.{
  RedisClient, Json, get, set, delete, get-set, get-delete, get-delete_self,
}
use url_shortener_microservi.Url.System.{
  System, Step, shorten, shorten_fails, redirect, write, deactivate, delete_entry, delete_leaves,
  deactivate_fails, forget, other_tables, Reach, here, next,
}

module _ (client : RedisClient) (json : Json) where
  pub record IsCoherent (s : System client) : Type 0 where
    pub unique : Unique s.db.urls
    pub entries :
        (at : ℕ) (k : Text) (x : CachedUrl)
        → get client json at k s.cache ≡ some x
        → Matches s.stale k x s.db.urls
    pub pending : All (λ f. Matches s.stale f.code f.cached s.db.urls) s.fills

  redirect-Matches :
      (stale : List Text) (sha256_hex : Text → Text) (now later : ℕ) (cached : Option CachedUrl)
      (fault : Option DbError) (code remote : Text) (db : Db) (info : RedirectInfo) (fill : Fill)
      → redirect_to_url sha256_hex now later cached fault code remote db ≡ to info (some fill)
      → Matches stale fill.code fill.cached db.urls
  unfolding row_of
  redirect-Matches stale sha256_hex now later cached fault code remote db info fill h =
      elim (redirect-served sha256_hex now later code remote db cached fault info (some fill) h) [
        | inl (c, hit, live, url, no_fill) ↦ absurd (some-ne-none no_fill)
        | inr (r, missed, row, live, url, filled) ↦
            let same = some-injective filled in
            record {
              row = r;
              found = ap (λ (f : Fill). find_code f.code db.urls) same ∙ row;
              active = inl live.0;
              same = subst (λ (f : Fill). Agrees f.cached r) (sym same) (Agrees-cached_of r live.0);
            }
      ]
    where
      some-ne-none : {f : Fill} → some f ≡ none → ⊥
      some-ne-none q = cc

      some-injective : {f g : Fill} → some f ≡ some g → f ≡ g
      some-injective q = cc

  -- Rows that are as they were.
  IsCoherent-rows :
      (s : System client) (db : Db)
      → db.urls ≡ s.db.urls
      → IsCoherent s
      → IsCoherent (record s { db = db })
  IsCoherent-rows s db same c = record {
    unique = subst Unique (sym same) c.unique;
    entries = λ at k x q. subst (λ l. Matches s.stale k x l) (sym same) (c.entries at k x q);
    pending =
        subst (λ l. All (λ (f : Fill). Matches s.stale f.code f.cached l) s.fills) (sym same)
          c.pending;
  }

  -- A row that is added, with the write for it.
  IsCoherent-Created :
      (s : System client) (db : Db) (o : Order) (a : Attempt) (resp : ShortenResponse) (fill : Fill)
      → Atomic.Inserted o a s.db db
      → Atomic.Created o a resp fill
      → IsCoherent s
      → IsCoherent (record s { db = db; fills = fill ∷ s.fills })
  IsCoherent-Created s db o a resp fill inserted made c =
      let r = stored (url_record o a) in
      let free = Atomic.taken-stored (url_record o a) s.db.urls ∙ inserted.fresh in
      let rows = s.db.urls ++ (r ∷ []) in
      IsCoherent-rows (record s { db = record s.db { urls = rows }; fills = fill ∷ s.fills }) db
        inserted.rows
        (record {
          unique = Unique-append r s.db.urls c.unique free;
          entries = λ at k x q. Matches-append s.stale k x r s.db.urls free (c.entries at k x q);
          pending = (
            Matches-Created s.stale o a resp fill s.db.urls free made,
            All-map (λ (f : Fill) m. Matches-append s.stale f.code f.cached r s.db.urls free m)
                s.fills c.pending,
          );
        })

  IsCoherent-written :
      (s : System client) (now : ℕ) (before after : List Fill) (fill : Fill)
      → s.fills ≡ before ++ (fill ∷ after)
      → IsCoherent s
      → IsCoherent (record s {
        cache = (set client json now fill.code fill.cached fill.ttl s.cache).1;
        fills = before ++ after;
      })
  IsCoherent-written s now before after fill e c =
      let P : Fill → Type 0 = λ f. Matches s.stale f.code f.cached s.db.urls in
      let (its, rest) = All-split P before after fill (subst (All P) e c.pending) in
      record {
        unique = c.unique;
        entries = λ at k x q.
            elim (get-set client json at now fill.ttl k fill.code x fill.cached s.cache q) [
              | inl (same_code, same) ↦
                  subst (λ y. Matches s.stale k y s.db.urls) (sym same)
                    (subst (λ y. Matches s.stale y fill.cached s.db.urls) (sym same_code) its)
              | inr old ↦ c.entries at k x old
            ];
        pending = rest;
      }

  -- The transaction of a deactivation.
  IsCoherent-deactivated :
      (s : System client) (db : Db) (code user email : Text) (d : Draws)
      → Removed code user email d s.db db
      → IsCoherent s
      → IsCoherent (record s { db = db; stale = code ∷ s.stale })
  IsCoherent-deactivated s db code user email d removed c =
      let rows = map (deactivate_row code user) s.db.urls in
      IsCoherent-rows (record s { db = record s.db { urls = rows }; stale = code ∷ s.stale }) db
        removed.rows
        (record {
          unique = Unique-map code user s.db.urls c.unique;
          entries = λ at k x q.
              Matches-map s.stale k code user x s.db.urls c.unique removed.owned
                (c.entries at k x q);
          pending =
              All-map
                (λ (f : Fill) m.
                  Matches-map s.stale f.code code user f.cached s.db.urls c.unique removed.owned m)
                s.fills c.pending;
        })

  -- The deletion of the entry, when nothing else is to be written for the code.
  IsCoherent-deleted :
      (s : System client) (code : Text) (before after : List Text)
      → s.stale ≡ before ++ (code ∷ after)
      → (delete client json code s.cache).0 ≡ true
      → All (λ f. f.code ≢ code) s.fills
      → IsCoherent s
      → IsCoherent
          (record s { cache = (delete client json code s.cache).1; stale = before ++ after })
  IsCoherent-deleted s code before after e gone idle c = record {
    unique = c.unique;
    entries = λ at k x q. Matches-fresh k code before after x s.db.urls (still_other at k x q) (
        subst (λ l. Matches l k x s.db.urls) e
          (c.entries at k x (get-delete client json at k code x s.cache q)));
    pending =
        All-both s.fills idle (
          subst (λ l. All (λ (f : Fill). Matches l f.code f.cached s.db.urls) s.fills) e c.pending);
  }
    where
      none-ne-some : {x : CachedUrl} → none ≡ some x → ⊥
      none-ne-some q = cc

      still_other :
          (at : ℕ) (k : Text) (x : CachedUrl)
          → get client json at k (delete client json code s.cache).1 ≡ some x
          → k ≢ code
      still_other at k x q same = none-ne-some (
          sym (get-delete_self client json at code s.cache gone)
          ∙ (ap (λ y. get client json at y (delete client json code s.cache).1) (sym same) ∙ q))

      All-both :
          (fs : List Fill)
          → All (λ f. f.code ≢ code) fs
          → All (λ f. Matches (before ++ (code ∷ after)) f.code f.cached s.db.urls) fs
          → All (λ f. Matches (before ++ after) f.code f.cached s.db.urls) fs
      All-both [] h k = tt
      All-both (f ∷ fs) h k =
          (Matches-fresh f.code code before after f.cached s.db.urls h.0 k.0, All-both fs h.1 k.1)

  module _ (parse : Text → Option ParsedUrl) (tx : BeginFunc) (base : Text)
      (sha256_hex : Text → Text) where
    pub Step-IsCoherent :
        {s t : System client}
        → Step client json parse tx base sha256_hex s t
        → IsCoherent s
        → IsCoherent t
    Step-IsCoherent {s} (shorten url user_id user_email hours now attempts resp fill made) c =
        let (_, (i, _, inserted, answered)) =
          Atomic.shorten_url-Created parse tx base url user_id user_email hours now attempts s.db
            resp fill made in
        IsCoherent-Created s _ _ (attempts i) resp fill inserted answered c
    Step-IsCoherent {s} (shorten_fails url user_id user_email hours now attempts e h) c =
        IsCoherent-rows s _
          (ap (λ (d : Db). d.urls)
            (Atomic.shorten_url-failed parse tx base url user_id user_email hours now attempts s.db
              e h))
          c
    Step-IsCoherent {s} (redirect now later fault code remote info fill h) c = record {
      unique = c.unique;
      entries = c.entries;
      pending = (
        redirect-Matches s.stale sha256_hex now later (get client json now code s.cache) fault code
            remote s.db info fill h,
        c.pending,
      );
    }
    Step-IsCoherent {s} (write now before after fill e) c =
        IsCoherent-written s now before after fill e c
    Step-IsCoherent {s} (deactivate code user email d h) c =
        IsCoherent-deactivated s _ code user email d
          (deactivate_url-Removed tx code user email d s.db h) c
    Step-IsCoherent {s} (delete_entry code before after e gone idle) c =
        IsCoherent-deleted s code before after e gone idle c
    Step-IsCoherent {s} (delete_leaves code) c = record {
      unique = c.unique;
      entries = λ at k x q. c.entries at k x (get-delete client json at k code x s.cache q);
      pending = c.pending;
    }
    Step-IsCoherent {s} (deactivate_fails code user email d e h) c =
        IsCoherent-rows s _
          (ap (λ (x : Db). x.urls) (deactivate_url-failed tx code user email d s.db e h).0) c
    Step-IsCoherent {s} (forget cache h) c = record {
      unique = c.unique;
      entries = λ at k x q. c.entries at k x (h at k x q);
      pending = c.pending;
    }
    Step-IsCoherent {s} (other_tables db h) c = IsCoherent-rows s db h c

    -- Whatever the service and its goroutines do, in whatever order, the cache agrees with the rows, if
    -- it did at the start: each entry, and each write still to be made, says what the row of its code
    -- says, its time of expiry up to what is below a microsecond; that row is active, unless its
    -- deactivation has not yet deleted the entry without an error while no write for the code was still
    -- to be made; and no two rows have one code or one id.
    pub Reach-IsCoherent :
        {s t : System client}
        → Reach client json parse tx base sha256_hex s t
        → IsCoherent s
        → IsCoherent t
    Reach-IsCoherent here c = c
    Reach-IsCoherent (next r st) c = Step-IsCoherent st (Reach-IsCoherent r c)
