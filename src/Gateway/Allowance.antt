-- ===== src/Gateway/Allowance.antt =====
-- How many requests the rate limiter (gateway/ratelimit.go) lets pass in a window.
use url_shortener_microservi.Prelude.{
  ℕ, suc, ◌+◌, ◌-◌, ◌≤◌, ◌<◌, ◌≡◌, ap, ◌∙◌, ℤ, pos, All, false, Text, List, [], ◌∷◌, length, min,
  not, if◌then◌else◌, arith, Option-cases, inl, inr, Option, some,
}
use url_shortener_microservi.Gateway.RateLimit.{Redis, Allowed, exceeds, redis_key, allow}

-- How many of some answers let the request pass.
pub passed : List Allowed → ℕ
passed [] = 0
passed (a ∷ rest) = (if a.allowed then 1 else 0) + passed rest

-- No answer comes with an error.
abbrev pub NoErrors : List Allowed → Type 0
NoErrors = All (λ a. a.has_error ≡ false)

-- The seconds of some waits.
abbrev pub seconds : List ℕ → ℕ
seconds [] = 0
seconds (d ∷ ds) = d + seconds ds

module _ (redis : Redis) where
  open redis use {
    Store, value, remaining, pass, incr_value, incr_stored, incr_remaining, expire_value,
    expire_remaining, ttl_value, ttl_remaining, pass_kept, pass_ended,
  }

  -- The answers to requests for one key, each after a wait, and the store after them.
  unfoldable pub allow_run : Text → ℤ → ℤ → List ℕ → Store → List Allowed × Store
  allow_run key limit window_secs [] s = ([], s)
  allow_run key limit window_secs (d ∷ ds) s =
      let (first, s') = allow redis key limit window_secs (pass d s) in
      let (rest, last) = allow_run key limit window_secs ds s' in (first ∷ rest, last)

  module _ (key : Text) (limit window_secs : ℕ) where
    abbrev k : Text
    k = redis_key key

    abbrev asked : Store → Allowed × Store
    asked s = allow redis key (pos limit) (pos window_secs) s

    -- An answer with no error to the first request of a window is decided by the limit, and opens the
    -- window.
    allow-opens :
        (s : Store)
        → 0 < window_secs
        → value k s ≡ 0
        → (asked s).0.has_error ≡ false
        → ((asked s).0.allowed ≡ not (exceeds 1 (pos limit)))
          × (value k (asked s).1 ≡ 1)
          × (remaining k (asked s).1 ≡ some window_secs)
    unfolding allow
    allow-opens s some_time absent h =
        let s' = (redis.incr k s).1 in
        let s'' = (redis.expire k (pos window_secs) s').1 in
        elim (Option-cases (redis.incr k s).0) [
          | inl failed ↦ ground arith
          | inr (m, counted) ↦ ground (
            arith,
            incr_value k s m counted,
            incr_stored k s m counted,
            expire_value k window_secs s' some_time,
            expire_remaining k window_secs s' some_time,
            ttl_value k s'',
            ttl_remaining k s'',
          )
        ]

    -- An answer with no error within the window is decided by the count, which goes up by one.
    allow-counts :
        (s : Store) (c l : ℕ)
        → value k s ≡ suc c
        → remaining k s ≡ some l
        → (asked s).0.has_error ≡ false
        → ((asked s).0.allowed ≡ not (exceeds (suc c + 1) (pos limit)))
          × (value k (asked s).1 ≡ suc (suc c))
          × (remaining k (asked s).1 ≡ some l)
    unfolding allow
    allow-counts s c l held left h =
        let s' = (redis.incr k s).1 in
        elim (Option-cases (redis.incr k s).0) [
          | inl failed ↦ ground arith
          | inr (m, counted) ↦ ground (
            arith,
            incr_value k s m counted,
            incr_stored k s m counted,
            incr_remaining k s m l counted left,
            ttl_value k s',
            ttl_remaining k s',
          )
        ]

    -- Requests within the window: those pass that fit in what the count leaves of the limit.
    run-counts :
        (ds : List ℕ) (s : Store) (c l : ℕ)
        → value k s ≡ suc c
        → remaining k s ≡ some l
        → seconds ds < l
        → NoErrors (allow_run key (pos limit) (pos window_secs) ds s).0
        → (passed (allow_run key (pos limit) (pos window_secs) ds s).0
            ≡ min (length ds) (limit - suc c))
          × ((r : ℕ) × (r + seconds ds ≡ l)
              × (remaining k (allow_run key (pos limit) (pos window_secs) ds s).1 ≡ some r))
    unfolding allow_run passed
    run-counts [] s c l held left within h = (omega arith, (l, omega arith, left))
    run-counts (d ∷ ds) s c l held left within h =
        let m = l - d - 1 in
        let still = pass_kept k d m s (left ∙ ap kept_as (omega arith)) in
        let (decided, counted, open_) =
          allow-counts (pass d s) c (suc m) (still.0 ∙ held) still.1 h.0 in
        let (rest, (r, sum, last)) =
          run-counts ds (asked (pass d s)).1 (suc c) (suc m) counted open_ (omega arith) h.1 in
        (ground (arith, decided, rest), (r, omega arith, last))
      where
        kept_as : ℕ → Option ℕ
        kept_as n = some n

    -- A request for a key that is absent opens a window. If Redis answers without an error, then of that
    -- request and those that follow before windowSecs have passed, one after another, as many pass as
    -- the limit says, or all if they are fewer; and when windowSecs have passed the key is absent again.
    pub allow_run-window :
        (ds : List ℕ) (d : ℕ) (s : Store)
        → value k s ≡ 0
        → seconds ds < window_secs
        → window_secs ≤ seconds ds + d
        → (asked s).0.has_error ≡ false
        → NoErrors (allow_run key (pos limit) (pos window_secs) ds (asked s).1).0
        → (passed ((asked s).0 ∷ (allow_run key (pos limit) (pos window_secs) ds (asked s).1).0)
            ≡ min (suc (length ds)) limit)
          × (value k (pass d (allow_run key (pos limit) (pos window_secs) ds (asked s).1).1) ≡ 0)
    unfolding passed
    allow_run-window ds d s absent within over first h =
        let (decided, counted, open_) = allow-opens s (omega arith) absent first in
        let (rest, (r, sum, last)) =
          run-counts ds (asked s).1 0 window_secs counted open_ within h in
        (ground (arith, decided, rest), pass_ended k d r _ last (omega arith))
