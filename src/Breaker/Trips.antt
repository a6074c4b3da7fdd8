-- ===== src/Breaker/Trips.antt =====
-- When the circuit breaker (gateway/circuitbreaker.go) opens, how long it stays open, and how it
-- recovers.
use url_shortener_microservi.Prelude.{
  ℕ, ◌+◌, ◌-◌, ◌<◌, ◌≤◌, pos, ◌≡◌, ◌≢◌, ◌↔◌, ◌∙◌, false, List, [], ◌∷◌, length, arith,
}
use url_shortener_microservi.Breaker.{
  closed, open_state, half_open, CircuitBreaker, on_failure, on_success, cancel, enter, Upstream,
  fails, succeeds, context_done, circuit_open, do_call,
}

-- Calls one after another that all fail, each at the time given.
pub fail_all : List ℕ → CircuitBreaker → CircuitBreaker
fail_all [] cb = cb
fail_all (now ∷ ts) cb = fail_all ts (do_call now now (fails 0) cb).0

-- The times lie in the failure window of the breaker.
abbrev pub InWindow : List ℕ → CircuitBreaker → Type 0
InWindow [] cb = Unit {0}
InWindow (now ∷ ts) cb = (now - cb.window_start ≤ cb.failure_window) × InWindow ts cb

-- One failure in the window that does not reach the maximum.
record Counted (cb cb' : CircuitBreaker) : Type 0 where
  still_closed : cb'.state ≡ closed
  one_more : cb'.failures ≡ cb.failures + 1
  same_maximum : cb'.max_failures ≡ cb.max_failures
  same_start : cb'.window_start ≡ cb.window_start
  same_window : cb'.failure_window ≡ cb.failure_window

fail_once :
    (now m : ℕ) (cb : CircuitBreaker)
    → cb.max_failures ≡ pos m
    → cb.state ≡ closed
    → cb.failures + 1 < m
    → now - cb.window_start ≤ cb.failure_window
    → Counted cb (do_call now now (fails 0) cb).0
unfolding do_call enter on_failure
fail_once now m cb e c f w = ground arith

-- The failure in the window that reaches the maximum.
fail_last :
    (now m : ℕ) (cb : CircuitBreaker)
    → cb.max_failures ≡ pos m
    → cb.state ≡ closed
    → cb.failures + 1 ≡ m
    → now - cb.window_start ≤ cb.failure_window
    → (do_call now now (fails 0) cb).0.state ≡ open_state
unfolding do_call enter on_failure
fail_last now m cb e c f w = ground arith

InWindow-Counted :
    (ts : List ℕ) (cb cb' : CircuitBreaker) → Counted cb cb' → InWindow ts cb → InWindow ts cb'
InWindow-Counted [] cb cb' c h = tt
InWindow-Counted (now ∷ ts) cb cb' c h =
    (rw (c.same_start, c.same_window) h.0, InWindow-Counted ts cb cb' c h.1)

-- Both cases of a run of failing calls.
fail_all-state :
    (ts : List ℕ) (m : ℕ) (cb : CircuitBreaker)
    → cb.max_failures ≡ pos m
    → cb.state ≡ closed
    → cb.failures < m
    → InWindow ts cb
    → (cb.failures + length ts < m → (fail_all ts cb).state ≡ closed)
      × (cb.failures + length ts ≡ m → (fail_all ts cb).state ≡ open_state)
unfolding fail_all
fail_all-state [] m cb e c f w = (λ _. c, λ full. absurd (omega arith))
fail_all-state (now ∷ []) m cb e c f w = (
  λ room. (fail_once now m cb e c (omega arith) w.0).still_closed,
  λ full. fail_last now m cb e c (omega arith) w.0,
)
fail_all-state (now ∷ now' ∷ ts) m cb e c f w =
    let next = (do_call now now (fails 0) cb).0 in
    let once = λ (g : cb.failures + 1 < m). fail_once now m cb e c g w.0 in
    let rest = λ (g : cb.failures + 1 < m).
      fail_all-state (now' ∷ ts) m next ((once g).same_maximum ∙ e) (once g).still_closed
        (omega (arith, (once g).one_more)) (InWindow-Counted (now' ∷ ts) cb next (once g) w.1) in
    (
      λ room. (rest (omega arith)).0 (omega (arith, (once (omega arith)).one_more)),
      λ full. (rest (omega arith)).1 (omega (arith, (once (omega arith)).one_more)),
    )

-- From a closed breaker with room for more failures, failing calls in one window leave it closed
-- while they do not reach the maximum.
pub fail_all-stays :
    (ts : List ℕ) (m : ℕ) (cb : CircuitBreaker)
    → cb.max_failures ≡ pos m
    → cb.state ≡ closed
    → InWindow ts cb
    → cb.failures + length ts < m
    → (fail_all ts cb).state ≡ closed
fail_all-stays ts m cb e c w room = (fail_all-state ts m cb e c (omega arith) w).0 room

-- From a closed breaker with room for more failures, of failing calls in one window the one that
-- reaches the maximum opens it.
pub fail_all-trips :
    (ts : List ℕ) (m : ℕ) (cb : CircuitBreaker)
    → cb.max_failures ≡ pos m
    → cb.state ≡ closed
    → cb.failures < m
    → InWindow ts cb
    → cb.failures + length ts ≡ m
    → (fail_all ts cb).state ≡ open_state
fail_all-trips ts m cb e c f w full = (fail_all-state ts m cb e c f w).1 full

-- What a call leaves that has opened the breaker.
tripped_at :
    (start finish : ℕ) (up : Upstream) (cb : CircuitBreaker)
    → cb.state ≢ open_state
    → (do_call start finish up cb).0.state ≡ open_state
    → let cb' = (do_call start finish up cb).0 in
      (cb'.last_failure_time ≡ finish) × (cb'.open_timeout ≡ cb.open_timeout)
unfolding do_call enter on_failure on_success cancel
tripped_at start finish (context_done e) cb h t = ground arith
tripped_at start finish (fails e) cb h t = ground arith
tripped_at start finish succeeds cb h t = ground arith

open_refuses :
    (start finish : ℕ) (up : Upstream) (cb : CircuitBreaker)
    → cb.state ≡ open_state
    → (start - cb.last_failure_time ≤ cb.open_timeout)
      ↔ (do_call start finish up cb ≡ (cb, circuit_open, []))
unfolding do_call enter on_failure on_success cancel
open_refuses start finish (context_done e) cb o = ground arith
open_refuses start finish (fails e) cb o = ground arith
open_refuses start finish succeeds cb o = ground arith

-- A breaker that a call has opened refuses, up to its timeout after the end of that call and no
-- longer, every call, whatever the upstream would answer.
pub do_call-after_trip :
    (start finish later end : ℕ) (up up' : Upstream) (cb : CircuitBreaker)
    → cb.state ≢ open_state
    → (do_call start finish up cb).0.state ≡ open_state
    → let tripped = (do_call start finish up cb).0 in
      (later - finish ≤ cb.open_timeout)
      ↔ (do_call later end up' tripped ≡ (tripped, circuit_open, []))
do_call-after_trip start finish later end up up' cb h t =
    let (last, same) = tripped_at start finish up cb h t in
    let (refuses, only) = open_refuses later end up' (do_call start finish up cb).0 t in
    (λ early. refuses (omega arith), λ refused. omega (arith, only refused))

-- The first call after the timeout goes through as a probe: its success closes the breaker with no
-- failure counted, its failure opens it for another timeout, and a context that is done before the
-- upstream is called leaves it half-open with room for another probe.
pub probe_decides :
    (start finish e : ℕ) (cb : CircuitBreaker)
    → cb.state ≡ open_state
    → cb.open_timeout < start - cb.last_failure_time
    → let closed_again = (do_call start finish succeeds cb).0 in
      let opened_again = (do_call start finish (fails e) cb).0 in
      let waiting = (do_call start finish (context_done e) cb).0 in
      (closed_again.state ≡ closed)
      × (closed_again.failures ≡ 0)
      × (opened_again.state ≡ open_state)
      × (opened_again.last_failure_time ≡ finish)
      × (waiting.state ≡ half_open)
      × (waiting.half_open_probe ≡ false)
unfolding do_call enter on_failure on_success cancel
probe_decides start finish e cb o late = ground arith
