-- ===== src/Examples/Systems.antt =====
-- Runs of url-service with its cache (services/url-service/): the Redis client keeps one key, and an
-- entry is a text of numbers.
use url_shortener_microservi.Prelude.{
  find_first, some_of, ℕ, zero, suc, ◌≡◌, ◌⊎◌, inl, inr, refl, ap, Bool, Bool-cases, true, false,
  Text, bytes, [], ◌∷◌, Option, none, some, text_eq, text_eq→≡, if◌then◌else◌, arith,
}
use url_shortener_microservi.Examples.Fixtures.{reliable_run, reliable, one_row, draws, sha, parsed}
use url_shortener_microservi.Url.Db.{insert_event, deactivates, deactivate, find_by_code, taken}
use url_shortener_microservi.Url.Shorten.{
  CachedUrl, Fill, http_error, deactivated as deactivated_message,
}
use url_shortener_microservi.Url.Redirect.{
  fill_ttl, cached_of, host_of, from_db, RedirectInfo, redirect_to_url, to, failed,
}
use url_shortener_microservi.Url.Redirect.Races.{stale_fill-redirects}
use url_shortener_microservi.Url.Deactivate.{remove, after_remove, deactivate_url}
use url_shortener_microservi.Url.System.{
  System, Step, redirect, write, deactivate as switch_off, delete_entry, Reach, here, next,
}
use url_shortener_microservi.Url.System.Coherence.{IsCoherent, Reach-IsCoherent}
use url_shortener_microservi.Url.System.Refinement.{Shows, seen, Reach-serve}
use url_shortener_microservi.Url.Cache.{RedisClient, Json, get, set, delete}

abbrev Slot : Type 0
Slot = Option (Text × Text)

look_up : ℕ → Text → Slot → Option Text
look_up at k none = none
look_up at k (some (k', v)) = if text_eq k k' then some v else none

put : ℕ → Text → Text → ℕ → Slot → Bool × Slot
put now k v ttl s = (true, some (k, v))

drop_key : Text → Slot → Bool × Slot
drop_key k none = (true, none)
drop_key k (some (k', v)) = if text_eq k k' then (true, none) else (true, some (k', v))

look_up-put :
    (at now ttl : ℕ) (k k' v w : Text) (s : Slot)
    → look_up at k (put now k' w ttl s).1 ≡ some v
    → ((k ≡ k') × (v ≡ w)) ⊎ (look_up at k s ≡ some v)
unfolding look_up put
look_up-put at now ttl k k' v w s h = elim (Bool-cases (text_eq k k')) [
  | inl t ↦ inl (text_eq→≡ k k' t, ground arith)
  | inr f ↦ absurd (ground arith)
]

look_up-drop_key :
    (at : ℕ) (k k' v : Text) (s : Slot)
    → look_up at k (drop_key k' s).1 ≡ some v
    → look_up at k s ≡ some v
unfolding look_up drop_key
look_up-drop_key at k k' v none h = h
look_up-drop_key at k k' v (some (key, w)) h = ground arith

look_up-drop_key_self :
    (at : ℕ) (k : Text) (s : Slot) → (drop_key k s).0 ≡ true → look_up at k (drop_key k s).1 ≡ none
unfolding look_up drop_key
look_up-drop_key_self at k none h = refl
look_up-drop_key_self at k (some (key, w)) h = ground arith

abbrev one_key : RedisClient
one_key = record {
  Store = Slot;
  get = look_up;
  set = put;
  del = drop_key;
  get-set = look_up-put;
  get-del = look_up-drop_key;
  get-del_self = look_up-drop_key_self;
}

-- A text, ended by a zero, before the rest.
write_text : Text → Text → Text
write_text [] rest = 0 ∷ rest
write_text (c ∷ t) rest = suc c ∷ write_text t rest

read_text : Text → Text × Text
read_text [] = ([], [])
read_text (zero ∷ rest) = ([], rest)
read_text (suc c ∷ s) = let (t, rest) = read_text s in (c ∷ t, rest)

read_text-write : (t rest : Text) → read_text (write_text t rest) ≡ (t, rest)
unfolding read_text write_text
read_text-write [] rest = refl
read_text-write (c ∷ t) rest = ap (λ p. (c ∷ p.0, p.1)) (read_text-write t rest)

write_flags : Option ℕ → Bool → Text
write_flags none true = 0 ∷ 1 ∷ []
write_flags none false = 0 ∷ 0 ∷ []
write_flags (some t) true = suc t ∷ 1 ∷ []
write_flags (some t) false = suc t ∷ 0 ∷ []

read_expiry : Text → Option ℕ
read_expiry (suc t ∷ s) = some t
read_expiry s = none

read_active : Text → Bool
read_active (e ∷ suc n ∷ s) = true
read_active s = false

marshal : CachedUrl → Text
unfolding write_text write_flags
marshal c =
    write_text c.original_url
      (write_text c.user_id (write_text c.user_email (write_flags c.expires_at c.is_active)))

unmarshal : Text → Option CachedUrl
unfolding read_text read_expiry read_active
unmarshal s =
    let url = read_text s in
    let user = read_text url.1 in
    let email = read_text user.1 in
    some (record {
      original_url = url.0;
      user_id = user.0;
      user_email = email.0;
      expires_at = read_expiry email.1;
      is_active = read_active email.1;
    })

read_expiry-write : (e : Option ℕ) (a : Bool) → read_expiry (write_flags e a) ≡ e
unfolding read_expiry write_flags
read_expiry-write none true = refl
read_expiry-write none false = refl
read_expiry-write (some t) true = refl
read_expiry-write (some t) false = refl

read_active-write : (e : Option ℕ) (a : Bool) → read_active (write_flags e a) ≡ a
unfolding read_active write_flags
read_active-write none true = refl
read_active-write none false = refl
read_active-write (some t) true = refl
read_active-write (some t) false = refl

unmarshal-marshal : (c : CachedUrl) → unmarshal (marshal c) ≡ some c
unfolding unmarshal marshal
unmarshal-marshal c = simp (read_text-write, read_expiry-write, read_active-write)

abbrev flat : Json
flat = record { marshal = marshal; unmarshal = unmarshal; unmarshal-marshal = unmarshal-marshal }

abbrev start : System one_key
start = record { db = one_row; cache = none; fills = []; stale = [] }

start-IsCoherent : IsCoherent one_key flat start
unfolding look_up taken some_of get
start-IsCoherent = record {
  unique = (refl, tt);
  entries = λ at k x h. absurd (none_held x h);
  pending = tt;
}
  where
    none_held : (x : CachedUrl) → none ≡ some x → ⊥
    none_held x h = cc

abbrev went : RedirectInfo
went = record {
  original_url = bytes "http://a.b";
  user_id = bytes "ann";
  user_email = bytes "ann@a.b";
  ip_hash = bytes "h";
}

abbrev filled : Fill
filled = record {
  code = bytes "0000007";
  cached = record {
    original_url = bytes "http://a.b";
    user_id = bytes "ann";
    user_email = bytes "ann@a.b";
    expires_at = some 50;
    is_active = true;
  };
  ttl = 30;
}

abbrev redirected : System one_key
redirected = record start { fills = filled ∷ [] }

abbrev written : System one_key
written = record redirected {
  cache = (set one_key flat 21 filled.code filled.cached filled.ttl redirected.cache).1;
  fills = [];
}

abbrev deactivated : System one_key
deactivated = record written {
  db =
      (deactivate_url reliable (bytes "0000007") (bytes "ann") (bytes "ann@a.b") draws
        written.db).db;
  stale = bytes "0000007" ∷ [];
}

abbrev deleted : System one_key
deleted = record deactivated {
  cache = (delete one_key flat (bytes "0000007") deactivated.cache).1;
  stale = [];
}

redirects : Step one_key flat parsed reliable (bytes "s") sha start redirected
unfolding redirect_to_url get look_up from_db find_by_code find_first text_eq host_of cached_of
    fill_ttl
redirects = redirect 20 20 none (bytes "0000007") (bytes "h:1") went filled refl

writes : Step one_key flat parsed reliable (bytes "s") sha redirected written
writes = write 21 [] [] filled refl

deactivates_url : Step one_key flat parsed reliable (bytes "s") sha written deactivated
unfolding deactivate_url after_remove reliable_run remove deactivate some_of deactivates text_eq
    insert_event
deactivates_url = switch_off (bytes "0000007") (bytes "ann") (bytes "ann@a.b") draws refl

deletes : Step one_key flat parsed reliable (bytes "s") sha deactivated deleted
unfolding delete drop_key set put text_eq
deletes = delete_entry (bytes "0000007") [] [] refl refl tt

run : Reach one_key flat parsed reliable (bytes "s") sha start deleted
run = next (next (next (next here redirects) writes) deactivates_url) deletes

Reach-IsCoherent_example : IsCoherent one_key flat deleted
Reach-IsCoherent_example =
    Reach-IsCoherent one_key flat parsed reliable (bytes "s") sha run start-IsCoherent

Reach-serve_example : Shows sha 30 30 (bytes "0000007") (bytes "h:1") deleted.db [] (
    seen (
      redirect_to_url sha 30 30
        (get one_key flat 30 (bytes "0000007") deleted.cache)
        none
        (bytes "0000007")
        (bytes "h:1")
        deleted.db))
Reach-serve_example =
    Reach-serve one_key flat parsed reliable (bytes "s") sha 30 30 (bytes "0000007") (bytes "h:1")
      start-IsCoherent run

abbrev refilled : Slot
refilled = (set one_key flat 35 filled.code filled.cached filled.ttl none).1

stale_fill-redirects_example :
    (redirect_to_url sha 40 40
        (get one_key flat 40 (bytes "0000007") refilled)
        none
        (bytes "0000007")
        (bytes "h:1")
        deactivated.db
      ≡ to went none)
    × (redirect_to_url sha 40 40 none none (bytes "0000007") (bytes "h:1") deactivated.db
        ≡ failed (http_error 410 deactivated_message))
unfolding redirect_to_url get look_up from_db find_by_code find_first text_eq host_of cached_of
    fill_ttl deactivate_url after_remove reliable_run remove deactivate some_of deactivates
    insert_event delete drop_key set put unmarshal marshal read_text write_text read_expiry
    read_active write_flags taken
stale_fill-redirects_example =
    stale_fill-redirects reliable (bytes "0000007") (bytes "ann") (bytes "ann@a.b") draws one_row
      sha one_key flat 20 20 35 40 40 (bytes "h:1") went filled none filled.cached (refl, tt) refl
      refl refl refl refl
