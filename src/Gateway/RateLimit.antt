-- ===== src/Gateway/RateLimit.antt =====
-- gateway/ratelimit.go: a counter for each client and route in Redis, and the client's address.
use mathlib.Core.Option
use url_shortener_microservi.Prelude.{
  ℕ, suc, ◌+◌, ◌≤◌, ◌<◌, ◌≡◌, ℤ, pos, negsuc, Bool, true, false, not, ◌&&◌, ◌||◌, Text, bytes, [],
  ◌∷◌, ◌++◌, Option, none, some, is_empty, ltb, ◌==◌, if◌then◌else◌,
}

-- The commands of Redis that the limiter sends. `none` and `false` are errors; `value` is what a key
-- holds, 0 if it is absent, `remaining` the seconds until it expires, if it does, and `pass` lets seconds
-- pass. INCR answers the new value, and keeps the time of expiry of a key that is there; EXPIRE sets it,
-- for a positive time;
-- TTL changes nothing; and a key is there until its time of expiry, and no longer.
pub record Redis : Type 1 where
  pub Store : Type 0
  pub incr : Text → Store → Option ℕ × Store
  pub expire : Text → ℤ → Store → Bool × Store
  pub ttl : Text → Store → Option ℕ × Store
  pub value : Text → Store → ℕ
  pub incr_value : (k : Text) (s : Store) (n : ℕ) → (incr k s).0 ≡ some n → n ≡ value k s + 1
  pub incr_stored :
      (k : Text) (s : Store) (n : ℕ) → (incr k s).0 ≡ some n → value k (incr k s).1 ≡ n
  pub remaining : Text → Store → Option ℕ
  pub pass : ℕ → Store → Store
  pub incr_remaining :
      (k : Text) (s : Store) (n l : ℕ)
      → (incr k s).0 ≡ some n
      → remaining k s ≡ some l
      → remaining k (incr k s).1 ≡ some l
  pub expire_remaining :
      (k : Text) (d : ℕ) (s : Store)
      → 0 < d
      → (expire k (pos d) s).0 ≡ true
      → remaining k (expire k (pos d) s).1 ≡ some d
  pub ttl_remaining : (k : Text) (s : Store) → remaining k (ttl k s).1 ≡ remaining k s
  pub pass_kept :
      (k : Text) (d l : ℕ) (s : Store)
      → remaining k s ≡ some (d + suc l)
      → (value k (pass d s) ≡ value k s) × (remaining k (pass d s) ≡ some (suc l))
  pub pass_ended :
      (k : Text) (d l : ℕ) (s : Store) → remaining k s ≡ some l → l ≤ d → value k (pass d s) ≡ 0
  pub expire_value :
      (k : Text) (d : ℕ) (s : Store) → 0 < d → value k (expire k (pos d) s).1 ≡ value k s
  pub ttl_value : (k : Text) (s : Store) → value k (ttl k s).1 ≡ value k s

-- What Allow returns: whether the request may pass, the seconds to wait, and whether there was an
-- error.
pub record Allowed : Type 0 where
  pub allowed : Bool
  pub retry_after : ℕ
  pub has_error : Bool

abbrev pub answer : Bool → ℕ → Bool → Allowed
answer allowed retry_after has_error = record {
  allowed = allowed;
  retry_after = retry_after;
  has_error = has_error;
}

-- count > int64(limit)
abbrev pub exceeds : ℕ → ℤ → Bool
exceeds n (pos limit) = ltb limit n
exceeds n (negsuc limit) = true

abbrev pub redis_key : Text → Text
redis_key key = bytes "rl:" ++ key

module _ (redis : Redis) where
  open redis use {Store, incr, expire, ttl}

  -- The test of the count against the limit. TTL is in seconds here, and an error of it gives 0.
  compare_count : Text → ℤ → ℕ → Store → Allowed × Store
  compare_count key limit count s =
      let (left, s') = ttl key s in
      if exceeds count limit
      then (answer false (Option.get_or left 0) false, s')
      else (answer true 0 false, s)

  after_expire : Bool → Text → ℤ → ℕ → Store → Allowed × Store
  after_expire true key limit count s = compare_count key limit count s
  after_expire false key limit count s = (answer true 0 true, s)

  after_incr : Option ℕ → Text → ℤ → ℤ → Store → Allowed × Store
  after_incr none key limit window_secs s = (answer true 0 true, s)
  after_incr (some count) key limit window_secs s =
      let (set, s') = expire key window_secs s in
      if count == 1 then after_expire set key limit count s' else compare_count key limit count s

  unfoldable pub allow : Text → ℤ → ℤ → Store → Allowed × Store
  unfolding after_incr after_expire compare_count
  allow key limit window_secs s =
      let (count, s') = incr (redis_key key) s in
      after_incr count (redis_key key) limit window_secs s'

-- fmt.Sprintf("%s:%s", routeKey, ip)
unfoldable pub rate_limit_key : Text → Text → Text
rate_limit_key route_key ip = route_key ++ (bytes ":" ++ ip)

-- strings.Split(s, ",")[0]
before_comma : Text → Text
before_comma [] = []
before_comma (c ∷ s) = let rest = before_comma s in if c == b',' then [] else c ∷ rest

-- The white space that strings.TrimSpace removes, of one byte.
is_space : ℕ → Bool
is_space c = c == 9 || (c == 10 || (c == 11 || (c == 12 || (c == 13 || c == 32))))

trim_left : Text → Text
trim_left [] = []
trim_left (c ∷ s) = let rest = trim_left s in if is_space c then rest else c ∷ s

trim_right : Text → Text
trim_right [] = []
trim_right (c ∷ s) = drop_space c (trim_right s)
  where
    drop_space : ℕ → Text → Text
    drop_space c [] = if is_space c then [] else c ∷ []
    drop_space c (d ∷ t) = c ∷ d ∷ t

unfoldable pub trim_space : Text → Text
unfolding is_space trim_left trim_right
trim_space s = trim_right (trim_left s)

-- clientIP, of the two headers and the remote address. `split_host_port` is the host of
-- net.SplitHostPort, or `none` for an error.
module _ (split_host_port : Text → Option Text) where
  unfoldable pub client_ip : Text → Text → Text → Text
  unfolding before_comma trim_space
  client_ip forwarded_for real_ip remote_addr =
      let first = trim_space (before_comma forwarded_for) in
      let real = trim_space real_ip in
      if not (is_empty forwarded_for) && not (is_empty first)
      then first
      else if not (is_empty real)
      then real
      else elim (split_host_port remote_addr) [
        | none ↦ remote_addr
        | some host ↦ if is_empty host then remote_addr else host
      ]
