-- ===== src/Url/Cache.antt =====
-- services/url-service/cache.go: the cache of short codes on a Redis client. `Json` is encoding/json
-- on an entry.
use url_shortener_microservi.Prelude.{
  ℕ, ◌≡◌, ◌⊎◌, inl, inr, sym, ap, ◌∙◌, Bool, true, Text, Option, none, some, Option-cases,
}
use url_shortener_microservi.Url.Shorten.{CachedUrl}

-- The commands of go-redis that the cache sends; `none` and `false` are errors, and a missing key is
-- one. A key holds what was last set, or nothing: it may expire or be evicted, and after a DEL without
-- an error it holds nothing.
pub record RedisClient : Type 1 where
  pub Store : Type 0
  pub get : ℕ → Text → Store → Option Text
  pub set : ℕ → Text → Text → ℕ → Store → Bool × Store
  pub del : Text → Store → Bool × Store
  pub get-set :
      (at now ttl : ℕ) (k k' v w : Text) (s : Store)
      → get at k (set now k' w ttl s).1 ≡ some v
      → ((k ≡ k') × (v ≡ w)) ⊎ (get at k s ≡ some v)
  pub get-del :
      (at : ℕ) (k k' v : Text) (s : Store) → get at k (del k' s).1 ≡ some v → get at k s ≡ some v
  pub get-del_self :
      (at : ℕ) (k : Text) (s : Store) → (del k s).0 ≡ true → get at k (del k s).1 ≡ none

pub record Json : Type 0 where
  pub marshal : CachedUrl → Text
  pub unmarshal : Text → Option CachedUrl
  pub unmarshal-marshal : (c : CachedUrl) → unmarshal (marshal c) ≡ some c

module _ (client : RedisClient) (json : Json) where
  -- Get: an error and an entry that is not JSON are misses.
  decoded : Option Text → Option CachedUrl
  decoded none = none
  decoded (some text) = json.unmarshal text

  unfoldable pub get : ℕ → Text → client.Store → Option CachedUrl
  unfolding decoded
  get now code s = decoded (client.get now code s)

  -- Set
  unfoldable pub set : ℕ → Text → CachedUrl → ℕ → client.Store → Bool × client.Store
  set now code cached ttl s = client.set now code (json.marshal cached) ttl s

  -- Delete
  unfoldable pub delete : Text → client.Store → Bool × client.Store
  delete code s = client.del code s

  get-text :
      (at : ℕ) (k : Text) (x : CachedUrl) (s : client.Store)
      → get at k s ≡ some x
      → (v : Text) × (client.get at k s ≡ some v) × (json.unmarshal v ≡ some x)
  unfolding get decoded
  get-text at k x s h = elim (Option-cases (client.get at k s)) [
    | inl missing ↦ absurd (none-ne-some (sym (ap decoded missing) ∙ h))
    | inr (v, held) ↦ (v, held, sym (ap decoded held) ∙ h)
  ]
    where
      none-ne-some : {c : CachedUrl} → none ≡ some c → ⊥
      none-ne-some q = cc

  get-of_text :
      (at : ℕ) (k v : Text) (x : CachedUrl) (s : client.Store)
      → client.get at k s ≡ some v
      → json.unmarshal v ≡ some x
      → get at k s ≡ some x
  unfolding get decoded
  get-of_text at k v x s held read = ap decoded held ∙ read

  -- What is read after a write was written by it, or was there before.
  pub get-set :
      (at now ttl : ℕ) (k k' : Text) (x c : CachedUrl) (s : client.Store)
      → get at k (set now k' c ttl s).1 ≡ some x
      → ((k ≡ k') × (x ≡ c)) ⊎ (get at k s ≡ some x)
  unfolding set
  get-set at now ttl k k' x c s h =
      let (v, held, read) = get-text at k x (set now k' c ttl s).1 h in
      elim (client.get-set at now ttl k k' v (json.marshal c) s held) [
        | inl (same, written) ↦ inl (
          same,
          some-injective (sym read ∙ (ap json.unmarshal written ∙ json.unmarshal-marshal c)),
        )
        | inr old ↦ inr (get-of_text at k v x s old read)
      ]
    where
      some-injective : {a b : CachedUrl} → some a ≡ some b → a ≡ b
      some-injective q = cc

  pub get-delete :
      (at : ℕ) (k k' : Text) (x : CachedUrl) (s : client.Store)
      → get at k (delete k' s).1 ≡ some x
      → get at k s ≡ some x
  unfolding delete
  get-delete at k k' x s h =
      let (v, held, read) = get-text at k x (delete k' s).1 h in
      get-of_text at k v x s (client.get-del at k k' v s held) read

  pub get-delete_self :
      (at : ℕ) (k : Text) (s : client.Store)
      → (delete k s).0 ≡ true
      → get at k (delete k s).1 ≡ none
  unfolding get delete decoded
  get-delete_self at k s h = ap decoded (client.get-del_self at k s h)
