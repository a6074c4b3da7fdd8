-- ===== src/Url/System/Refinement.antt =====
-- url-service as a map from short codes to rows, which forgets the cache, the goroutines and the
-- order of the rows, and the redirects that the map answers.
use mathlib.Core.Path.{fun_ext}
use url_shortener_microservi.Prelude.{
  ℕ, ◌+◌, ◌*◌, ◌/◌, ◌≤◌, ◌<◌, ◌⊎◌, ◌&&◌, ltb, leb, ◌≡◌, ◌≢◌, refl, sym, ap, ◌∙◌, subst, Bool-cases,
  inl, inr, true, false, not, Text, List, [], ◌∷◌, ◌++◌, Option, Option-cases, none, some, text_eq,
  text_eq_iff, text_eq_refl, if◌then◌else◌, arith,
}
use url_shortener_microservi.Url.Db.{
  UrlRecord, micro, micro_of, stored, Db, BeginFunc, taken, deactivates,
}
use url_shortener_microservi.Url.Db.Unique.{
  Unique, find_code, find_code-append, find_code-append_other, find_code_free, find_code-map,
  find_code-map_other,
}
use url_shortener_microservi.Url.Shorten.{
  ParsedUrl, CachedUrl, HttpError, http_error, url_record, deactivated, expired,
}
use url_shortener_microservi.Url.Shorten.Atomic
use url_shortener_microservi.Url.Redirect.{
  RedirectInfo, Redirected, to, failed, nil_dereference, is_past, hash_ip, from_cache,
  redirect_to_url,
}
use url_shortener_microservi.Url.Redirect.Outcomes.{
  row_of, redirect-unknown, redirect-inactive, redirect-past, redirect-live,
}
use url_shortener_microservi.Url.Deactivate.{Draws}
use url_shortener_microservi.Url.Deactivate.Effect.{
  Removed, deactivate_url-Removed, deactivate_url-failed,
}
use url_shortener_microservi.Url.Cache.{RedisClient, Json, get}
use url_shortener_microservi.Url.System.{
  System, Step, shorten, shorten_fails, redirect, write, deactivate, delete_entry, delete_leaves,
  deactivate_fails, forget, other_tables, Reach,
}
use url_shortener_microservi.Url.System.Entries.{Agrees, Matches, listed_in}
use url_shortener_microservi.Url.System.Coherence.{IsCoherent, Reach-IsCoherent}

-- The abstract state.
abbrev pub Codes : Type 0
Codes = Text → Option UrlRecord

abbrev pub update : Codes → Text → UrlRecord → Codes
update m code r k = if text_eq k code then some r else m k

-- What may happen to a code: it is created once, for good, and its creator may deactivate it.
pub data Change (m : Codes) : Codes → Type 0 where
  unchanged : Change m m
  created :
      (r : UrlRecord)
      → m r.short_code ≡ none
      → r.is_active ≡ true
      → Change m (update m r.short_code r)
  switched_off :
      (code : Text) (r : UrlRecord)
      → m code ≡ some r
      → deactivates code r.user_id r ≡ true
      → Change m (update m code (record r { is_active = false }))

abbrev pub codes_of : Db → Codes
codes_of db code = find_code code db.urls

-- What a client sees of a redirect.
pub data Visible : Type 0 where
  goes : RedirectInfo → Visible
  refuses : HttpError → Visible
  crashes : Visible

abbrev pub seen : Redirected → Visible
seen (to info fill) = goes info
seen (failed e) = refuses e
seen nil_dereference = crashes

-- The redirect that a row is answered with.
unfoldable pub serve : (Text → Text) → ℕ → Text → Option UrlRecord → Visible
serve sha256_hex now remote none = crashes
serve sha256_hex now remote (some r) =
    if not r.is_active
    then refuses (http_error 410 deactivated)
    else if is_past now r.expires_at
    then refuses (http_error 410 expired)
    else goes (record {
      original_url = r.original_url;
      user_id = r.user_id;
      user_email = r.user_email;
      ip_hash = hash_ip sha256_hex remote;
    })

-- A row as it was before it was switched off.
abbrev pub switched_on : UrlRecord → UrlRecord
switched_on r = record r { is_active = true }

-- A time that differs from `now` by less than a microsecond.
abbrev pub Close : ℕ → ℕ → Type 0
Close now at = (at ≤ now) × (now < at + 1000)

is_past-cut : (n t : ℕ) → (at : ℕ) × Close n at × (is_past at (some (micro t)) ≡ is_past n (some t))
unfolding micro
is_past-cut n t = elim (Bool-cases (ltb (t / 1000 * 1000) n && leb n t)) [
  | inl between ↦ (t / 1000 * 1000, (ground arith, ground arith), ground arith)
  | inr apart ↦ (n, (omega arith, omega arith), ground arith)
]

-- The test of expiry on a time and on what the column keeps of it.
is_past-micro :
    (now : ℕ) (c r : Option ℕ)
    → (c ≡ r) ⊎ (micro_of c ≡ r)
    → (at : ℕ) × Close now at × (is_past at r ≡ is_past now c)
is_past-micro now c r (inl same) = (now, (omega arith, omega arith), ap (is_past now) (sym same))
is_past-micro now none r (inr same) = (now, (omega arith, omega arith), ap (is_past now) (sym same))
is_past-micro now (some t) r (inr same) =
    let (at, close, tested) = is_past-cut now t in (at, close, ap (is_past at) (sym same) ∙ tested)

from_cache-serve :
    (sha256_hex : Text → Text) (now : ℕ) (remote : Text) (c : CachedUrl) (r : UrlRecord)
    → Agrees c r
    → (at : ℕ) × Close now at
      × (seen (from_cache sha256_hex now remote c)
          ≡ serve sha256_hex at remote (some (switched_on r)))
unfolding from_cache serve
from_cache-serve sha256_hex now remote c r a =
    let (at, close, same) = is_past-micro now c.expires_at r.expires_at a.expires_at in
    (at, close, rw (a.is_active, same, a.original_url, a.user_id, a.user_email, not) (shown at))
  where
    shown :
        (at : ℕ)
        → seen (
            if is_past now c.expires_at
            then failed (http_error 410 expired)
            else to
                (record {
                  original_url = r.original_url;
                  user_id = r.user_id;
                  user_email = r.user_email;
                  ip_hash = hash_ip sha256_hex remote;
                })
                none)
          ≡ (if is_past now c.expires_at
              then refuses (http_error 410 expired)
              else goes (record {
                original_url = r.original_url;
                user_id = r.user_id;
                user_email = r.user_email;
                ip_hash = hash_ip sha256_hex remote;
              }))
    shown at = ground arith

serve-switched_on :
    (sha256_hex : Text → Text) (at : ℕ) (remote : Text) (r : UrlRecord)
    → r.is_active ≡ true
    → serve sha256_hex at remote (some (switched_on r)) ≡ serve sha256_hex at remote (some r)
unfolding serve
serve-switched_on sha256_hex at remote r on = rw on refl

module _ (sha256_hex : Text → Text) (now later : ℕ) (code remote : Text) (db : Db) where
  miss-serve :
      (o : Option UrlRecord)
      → row_of code db ≡ o
      → seen (redirect_to_url sha256_hex now later none none code remote db)
        ≡ serve sha256_hex now remote o
  unfolding serve
  miss-serve none e = ap seen (redirect-unknown sha256_hex now later code remote db e)
  miss-serve (some r) e = elim (Bool-cases r.is_active) [
    | inr off ↦
        ap seen (redirect-inactive sha256_hex now later code remote db r e off) ∙ rw off refl
    | inl on ↦ elim (Bool-cases (is_past now r.expires_at)) [
      | inl past ↦
          ap seen (redirect-past sha256_hex now later code remote db r e on past)
          ∙ rw (on, past) refl
      | inr live ↦
          ap seen (redirect-live sha256_hex now later code remote db r e (on, live))
          ∙ rw (on, live) refl
    ]
  ]

  -- What a client sees, for a map of codes of which some are stale: what the map answers for the code;
  -- or for a stale one what it answered while the row was active.
  pub Shows : List Text → Visible → Type 0
  Shows stale v =
      (at : ℕ) × Close now at
      × ((v ≡ serve sha256_hex at remote (codes_of db code))
          ⊎ ((listed_in code stale ≡ true)
              × ((r : UrlRecord) × (codes_of db code ≡ some r)
                  × (v ≡ serve sha256_hex at remote (some (switched_on r))))))

  hit-serve :
      (stale : List Text) (x : CachedUrl)
      → Matches stale code x db.urls
      → Shows stale (seen (redirect_to_url sha256_hex now later (some x) none code remote db))
  unfolding redirect_to_url Shows
  hit-serve stale x m =
      let (at, close, same) = from_cache-serve sha256_hex now remote x m.row m.same in
      (
        at,
        close,
        elim m.active [
          | inl on ↦ inl (
              same
              ∙ (serve-switched_on sha256_hex at remote m.row on
                  ∙ ap (serve sha256_hex at remote) (sym m.found)))
          | inr off ↦ inr (off, (m.row, m.found, same))
        ],
      )

same_codes :
    (rows rows' : List UrlRecord)
    → rows' ≡ rows
    → Change (λ k. find_code k rows) (λ k. find_code k rows')
same_codes rows rows' h =
    subst (λ l. Change (λ k. find_code k rows) (λ k. find_code k l)) (sym h) unchanged

-- An update of the map, from its values.
update-ext :
    (m m' : Codes) (code : Text) (r : UrlRecord)
    → m' code ≡ some r
    → ((k : Text) → k ≢ code → m' k ≡ m k)
    → m' ≡ update m code r
update-ext m m' code r at_code elsewhere = fun_ext λ k. elim (Bool-cases (text_eq k code)) [
  | inl same ↦ rw (same, if◌then◌else◌) (ap m' ((text_eq_iff k code).0 same) ∙ at_code)
  | inr away ↦ rw (away, if◌then◌else◌) (elsewhere k (other k away))
]
  where
    other : (k : Text) → text_eq k code ≡ false → k ≢ code
    other k away same = true-ne-false (sym ((text_eq_iff k code).1 same) ∙ away)
      where
        true-ne-false : true ≡ false → ⊥
        true-ne-false q = cc

created_codes :
    (rows rows' : List UrlRecord) (r : UrlRecord)
    → taken r rows ≡ false
    → r.is_active ≡ true
    → rows' ≡ rows ++ (r ∷ [])
    → Change (λ k. find_code k rows) (λ k. find_code k rows')
created_codes rows rows' r free active added =
    subst (Change (λ k. find_code k rows))
      (sym (
        update-ext (λ k. find_code k rows) (λ k. find_code k rows') r.short_code r
          (ap (find_code r.short_code) added ∙ find_code-append r rows free)
          (λ k n. ap (find_code k) added ∙ find_code-append_other r rows k (ne k n))))
      (created r (find_code_free r rows free) active)
  where
    ne : (k : Text) → k ≢ r.short_code → text_eq k r.short_code ≡ false
    ne k n = ground (arith, text_eq_iff k r.short_code)

deactivates_own :
    (code user : Text) (r : UrlRecord)
    → deactivates code user r ≡ true
    → deactivates code r.user_id r ≡ true
unfolding deactivates
deactivates_own code user r h = ground (arith, text_eq_refl r.user_id)

switched_codes :
    (db db' : Db) (code user email : Text) (d : Draws)
    → Unique db.urls
    → Removed code user email d db db'
    → Change (codes_of db) (codes_of db')
switched_codes db db' code user email d unique removed =
    let (r, found, its, changed) = find_code-map code user db.urls unique removed.owned in
    subst (Change (codes_of db))
      (sym (
        update-ext (codes_of db) (codes_of db') code (record r { is_active = false })
          (ap (find_code code) removed.rows ∙ changed)
          (λ k n. ap (find_code k) removed.rows ∙ find_code-map_other code user k db.urls n)))
      (switched_off code r found (deactivates_own code user r its))

module _ (client : RedisClient) (json : Json) (parse : Text → Option ParsedUrl) (tx : BeginFunc)
    (base : Text) (sha256_hex : Text → Text) where
  -- In every state that the service reaches from a coherent one, a redirect shows the client what the
  -- map of codes answers at that time, or less than a microsecond before, whether the cache hits or
  -- misses, if the database answers; but for a code whose deactivation has not yet deleted the entry
  -- without an error while no write for it was still to be made, it may show what the map answered
  -- while the row was active.
  pub Reach-serve :
      {s t : System client} (now later : ℕ) (code remote : Text)
      → IsCoherent client json s
      → Reach client json parse tx base sha256_hex s t
      → Shows sha256_hex now later code remote t.db t.stale (
          seen (
            redirect_to_url sha256_hex now later
              (get client json now code t.cache)
              none
              code
              remote
              t.db))
  unfolding row_of Shows
  Reach-serve {t = t} now later code remote c r =
      let coherent = Reach-IsCoherent client json parse tx base sha256_hex r c in
      elim (Option-cases (get client json now code t.cache)) [
        | inl missed ↦ (
          now,
          (omega arith, omega arith),
          inl (
              ap (λ o. seen (redirect_to_url sha256_hex now later o none code remote t.db)) missed
              ∙ miss-serve sha256_hex now later code remote t.db (codes_of t.db code) refl),
        )
        | inr (x, hit) ↦
            subst
              (λ o.
                Shows sha256_hex now later code remote t.db t.stale
                  (seen (redirect_to_url sha256_hex now later o none code remote t.db)))
              (sym hit)
              (hit-serve sha256_hex now later code remote t.db t.stale x
                (coherent.entries now code x hit))
      ]

  -- Each step of the service is a change of the map of codes: it creates a code that was free, with an
  -- active row, or switches off the active row of a code, or leaves the map alone.
  pub Step-Change :
      {s t : System client}
      → Step client json parse tx base sha256_hex s t
      → IsCoherent client json s
      → Change (codes_of s.db) (codes_of t.db)
  unfolding url_record
  Step-Change {s} (shorten url user_id user_email hours now attempts resp fill made) c =
      let (_, (i, _, inserted, _)) =
        Atomic.shorten_url-Created parse tx base url user_id user_email hours now attempts s.db resp
          fill made in
      let r =
        url_record (Atomic.request parse tx base url user_id user_email hours now attempts s.db)
          (attempts i) in
      created_codes s.db.urls _ (stored r) (Atomic.taken-stored r s.db.urls ∙ inserted.fresh) refl
        inserted.rows
  Step-Change {s} (shorten_fails url user_id user_email hours now attempts e h) c =
      same_codes s.db.urls _ (
        ap (λ (d : Db). d.urls)
          (Atomic.shorten_url-failed parse tx base url user_id user_email hours now attempts s.db e
            h))
  Step-Change {s} (redirect now later fault code remote info fill h) c = unchanged
  Step-Change {s} (write now before after fill e) c = unchanged
  Step-Change {s} (deactivate code user email d h) c =
      switched_codes s.db _ code user email d c.unique
        (deactivate_url-Removed tx code user email d s.db h)
  Step-Change {s} (delete_entry code before after e gone idle) c = unchanged
  Step-Change {s} (delete_leaves code) c = unchanged
  Step-Change {s} (deactivate_fails code user email d e h) c =
      same_codes s.db.urls _
        (ap (λ (x : Db). x.urls) (deactivate_url-failed tx code user email d s.db e h).0)
  Step-Change {s} (forget cache h) c = unchanged
  Step-Change {s} (other_tables db h) c = same_codes s.db.urls db.urls h
