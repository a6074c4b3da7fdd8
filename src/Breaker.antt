-- ===== src/Breaker.antt =====
-- gateway/circuitbreaker.go: the circuit breaker in front of url-service. `Do` holds the lock in two
-- sections, before and after the upstream call; each section is a function here, and `do_call` is
-- the whole call. Times are nanoseconds, and configured durations are not negative.
pub mod Safety
pub mod Changes
pub mod Trips
pub mod InFlight
pub mod Probes
use url_shortener_microservi.Prelude.{
  ℕ, ◌+◌, ◌-◌, ℤ, pos, negsuc, Bool, true, false, not, ◌&&◌, List, [], ◌∷◌, ◌++◌, Option, none,
  some, leb, ltb, if◌then◌else◌,
}

pub data State : Type 0 where
  closed open_state half_open : State

pub record CircuitBreaker : Type 0 where
  pub state : State
  pub failures : ℕ
  pub last_failure_time : ℕ
  pub max_failures : ℤ
  pub open_timeout : ℕ
  pub failure_window : ℕ
  pub window_start : ℕ
  pub half_open_probe : Bool

-- The fields that are not given have Go's zero values.
unfoldable pub new_circuit_breaker : ℤ → ℕ → ℕ → ℕ → CircuitBreaker
new_circuit_breaker max_failures open_timeout failure_window now = record {
  state = closed;
  failures = 0;
  last_failure_time = 0;
  max_failures = max_failures;
  open_timeout = open_timeout;
  failure_window = failure_window;
  window_start = now;
  half_open_probe = false;
}

-- A call of onStateChange, `from` and `to`.
pub record Transition : Type 0 where
  pub from_state : State
  pub to_state : State

abbrev pub transition : State → State → Option Transition
transition from to = some (record { from_state = from; to_state = to })

-- What the first section decides, with the call of onStateChange that follows it.
pub data Entry : Type 0 where
  rejected : Entry
  admitted : Option Transition → Entry

-- The `switch` on the state, to the first unlock.
enter_as : State → ℕ → CircuitBreaker → CircuitBreaker × Entry
enter_as open_state now cb =
    if leb (now - cb.last_failure_time) cb.open_timeout then (cb, rejected) else (
      record cb { state = half_open; half_open_probe = true },
      admitted (transition open_state half_open),
    )
enter_as half_open now cb =
    if cb.half_open_probe
    then (cb, rejected)
    else (record cb { half_open_probe = true }, admitted none)
enter_as closed now cb = (cb, admitted none)

unfoldable pub enter : ℕ → CircuitBreaker → CircuitBreaker × Entry
unfolding enter_as
enter now cb = enter_as cb.state now cb

abbrev pub is_half_open : State → Bool
is_half_open half_open = true
is_half_open _ = false

abbrev pub is_open : State → Bool
is_open open_state = true
is_open _ = false

-- The branch of a context that is done before the upstream is called.
unfoldable pub cancel : CircuitBreaker → CircuitBreaker
cancel cb = if is_half_open cb.state then record cb { half_open_probe = false } else cb

-- failures >= maxFailures
abbrev at_least : ℕ → ℤ → Bool
at_least n (pos m) = leb m n
at_least n (negsuc m) = true

-- The reset of the failure window.
slide_window : ℕ → CircuitBreaker → CircuitBreaker
slide_window now cb =
    if ltb cb.failure_window (now - cb.window_start)
    then record cb { failures = 0; window_start = now }
    else cb

-- The section after an upstream call that failed.
unfoldable pub on_failure : ℕ → CircuitBreaker → CircuitBreaker × Option Transition
unfolding slide_window
on_failure now cb =
    if is_half_open cb.state
    then (
      record cb { half_open_probe = false; state = open_state; last_failure_time = now },
      transition cb.state open_state,
    )
    else let w = slide_window now (record cb { half_open_probe = false }) in
      let counted = record w { failures = w.failures + 1; last_failure_time = now } in
      if at_least counted.failures counted.max_failures && not (is_open counted.state)
      then (record counted { state = open_state }, transition counted.state open_state)
      else (counted, none)

-- The section after an upstream call that succeeded.
unfoldable pub on_success : ℕ → CircuitBreaker → CircuitBreaker × Option Transition
on_success now cb =
    if is_half_open cb.state
    then (
      record cb { state = closed; half_open_probe = false; failures = 0; window_start = now },
      transition cb.state closed,
    )
    else (record cb { half_open_probe = false; failures = 0; window_start = now }, none)

-- What the upstream call, or the context before it, answers; an error is a number here.
pub data Upstream : Type 0 where
  context_done : ℕ → Upstream
  fails : ℕ → Upstream
  succeeds : Upstream

-- What Do returns.
pub data Outcome : Type 0 where
  circuit_open : Outcome
  error : ℕ → Outcome
  success : Outcome

abbrev transitions : Option Transition → List Transition
transitions none = []
transitions (some t) = t ∷ []

leave : Upstream → ℕ → CircuitBreaker → CircuitBreaker × Outcome × List Transition
leave (context_done e) now cb = (cancel cb, error e, [])
leave (fails e) now cb = let (cb', t) = on_failure now cb in (cb', error e, transitions t)
leave succeeds now cb = let (cb', t) = on_success now cb in (cb', success, transitions t)

after_entry : Entry → Upstream → ℕ → CircuitBreaker → CircuitBreaker × Outcome × List Transition
after_entry rejected up now cb = (cb, circuit_open, [])
after_entry (admitted t) up now cb =
    let (cb', outcome, ts) = leave up now cb in (cb', outcome, transitions t ++ ts)

-- A whole call with nothing between its two sections: it begins at `start` and ends at `finish`.
unfoldable pub do_call :
    ℕ → ℕ → Upstream → CircuitBreaker → CircuitBreaker × Outcome × List Transition
unfolding after_entry leave
do_call start finish up cb = let (cb', entry) = enter start cb in after_entry entry up finish cb'
