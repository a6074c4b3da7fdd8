-- ===== src/Examples/Gateways.antt =====
-- Runs of the gateway (gateway/).
use url_shortener_microservi.Prelude.{
  ℕ, suc, ◌+◌, ◌-◌, ◌≤◌, ◌≡◌, refl, ℤ, pos, negsuc, ◌∷◌, leb, if◌then◌else◌, arith, true, false,
  Text, bytes, [], Option, none, some, min,
}
use url_shortener_microservi.Breaker.{closed, CircuitBreaker}
use url_shortener_microservi.Gateway.Router.{Request}
use url_shortener_microservi.Gateway.RateLimit.{allow, Allowed, Redis, redis_key}
use url_shortener_microservi.Gateway.Allowance.{allow_run, passed, allow_run-window}
use url_shortener_microservi.Gateway.Handler.{Config, Proxied, Shared}

-- A Redis with one counter, for whatever key, and the seconds until it expires.
abbrev pub Timed : Type 0
Timed = ℕ × Option ℕ

pub expire_in : ℤ → Timed → Timed
expire_in (pos d) s = (s.0, some d)
expire_in (negsuc d) s = (0, none)

pub let_pass : ℕ → Timed → Timed
let_pass d (n, none) = (n, none)
let_pass d (n, some l) = if leb l d then (0, none) else (n, some (l - d))

pub let_pass-kept :
    (d l : ℕ) (s : Timed)
    → s.1 ≡ some (d + suc l)
    → ((let_pass d s).0 ≡ s.0) × ((let_pass d s).1 ≡ some (suc l))
unfolding let_pass
let_pass-kept d l (n, none) h = cc
let_pass-kept d l (n, some r) h = ground arith

pub let_pass-ended : (d l : ℕ) (s : Timed) → s.1 ≡ some l → l ≤ d → (let_pass d s).0 ≡ 0
unfolding let_pass
let_pass-ended d l (n, none) h over = cc
let_pass-ended d l (n, some r) h over = ground arith

pub expire_in-value : (d : ℕ) (s : Timed) → (expire_in (pos d) s).0 ≡ s.0
unfolding expire_in
expire_in-value d s = refl

pub expire_in-remaining : (d : ℕ) (s : Timed) → (expire_in (pos d) s).1 ≡ some d
unfolding expire_in
expire_in-remaining d s = refl

abbrev pub counter : Redis
counter = record {
  Store = Timed;
  incr = λ k s. (some (s.0 + 1), (s.0 + 1, s.1));
  expire = λ k d s. (true, expire_in d s);
  ttl = λ k s. (s.1, s);
  value = λ k s. s.0;
  remaining = λ k s. s.1;
  pass = λ d s. let_pass d s;
  incr_value = λ k s n h. cc;
  incr_stored = λ k s n h. cc;
  incr_remaining = λ k s n l h kept. kept;
  expire_remaining = λ k d s some_time h. expire_in-remaining d s;
  expire_value = λ k d s some_time. expire_in-value d s;
  ttl_remaining = λ k s. refl;
  ttl_value = λ k s. refl;
  pass_kept = λ k d l s h. let_pass-kept d l s h;
  pass_ended = λ k d l s h over. let_pass-ended d l s h over;
}

abbrev pub get : Text → Text → Request
get path token = record {
  method = bytes "GET";
  path = path;
  authorization = token;
  forwarded_for = [];
  real_ip = [];
  remote_addr = bytes "h:1";
}

-- A limit of two in ten seconds: a request, another after three seconds and a third at once.
abbrev opened : Allowed × Timed
opened = allow counter (bytes "k") (pos 2) (pos 10) (0, none)

allow_run-window_example :
    (passed (opened.0 ∷ (allow_run counter (bytes "k") (pos 2) (pos 10) (3 ∷ 0 ∷ []) opened.1).0)
      ≡ min 3 2)
    × (counter.value
          (redis_key (bytes "k"))
          (let_pass 7 (allow_run counter (bytes "k") (pos 2) (pos 10) (3 ∷ 0 ∷ []) opened.1).1)
        ≡ 0)
unfolding allow_run allow let_pass expire_in
allow_run-window_example =
    allow_run-window counter (bytes "k") 2 10 (3 ∷ 0 ∷ []) 7 (0, none) refl (omega arith)
      (omega arith) refl (refl, (refl, tt))

abbrev pub config : Config
config = record {
  shorten_rate_limit = record { limit = pos 10; window_secs = pos 60 };
  redirect_rate_limit = record { limit = pos 100; window_secs = pos 60 };
}

abbrev pub no_host : Text → Option Text
no_host a = none

abbrev pub fails_always : Text → Text → Request → Proxied
fails_always u p r = record { status = 502; failed = true }

abbrev pub fresh : CircuitBreaker
fresh = record {
  state = closed;
  failures = 0;
  last_failure_time = 0;
  max_failures = pos 2;
  open_timeout = 10;
  failure_window = 100;
  window_start = 0;
  half_open_probe = false;
}

abbrev pub calm : Shared counter
calm = record { breaker = fresh; counters = (0, none) }
