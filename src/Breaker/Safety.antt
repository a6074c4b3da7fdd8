-- ===== src/Breaker/Safety.antt =====
-- What holds of the circuit breaker (gateway/circuitbreaker.go) after every locked section, and which
-- calls of onStateChange the sections ask for.
use url_shortener_microservi.Prelude.{ℕ, ◌<◌, pos, ◌≡◌, ◌≢◌, true, List, [], ◌∷◌, arith}
use url_shortener_microservi.Breaker.{
  State, closed, half_open, CircuitBreaker, new_circuit_breaker, Transition, enter, cancel,
  on_failure, on_success, Upstream, context_done, fails, succeeds, do_call,
}

-- Only a half-open breaker has a probe, and a closed one has fewer failures than its maximum `m`.
pub record IsValid (m : ℕ) (cb : CircuitBreaker) : Type 0 where
  pub maximum : cb.max_failures ≡ pos m
  pub probe_half_open : cb.half_open_probe ≡ true → cb.state ≡ half_open
  pub below_maximum : cb.state ≡ closed → cb.failures < m

module _ (m : ℕ) (positive : 0 < m) where
  pub new-IsValid :
      (open_timeout failure_window now : ℕ)
      → IsValid m (new_circuit_breaker (pos m) open_timeout failure_window now)
  unfolding new_circuit_breaker
  new-IsValid open_timeout failure_window now = ground arith

  pub enter-IsValid : (now : ℕ) (cb : CircuitBreaker) → IsValid m cb → IsValid m (enter now cb).0
  unfolding enter
  enter-IsValid now cb v = ground arith

  pub cancel-IsValid : (cb : CircuitBreaker) → IsValid m cb → IsValid m (cancel cb)
  unfolding cancel
  cancel-IsValid cb v = ground arith

  pub on_failure-IsValid :
      (now : ℕ) (cb : CircuitBreaker) → IsValid m cb → IsValid m (on_failure now cb).0
  unfolding on_failure
  on_failure-IsValid now cb v = ground arith

  pub on_success-IsValid :
      (now : ℕ) (cb : CircuitBreaker) → IsValid m cb → IsValid m (on_success now cb).0
  unfolding on_success
  on_success-IsValid now cb v = ground arith

-- The transitions lead from one state to another, and each changes the state.
abbrev pub Leads : State → List Transition → State → Type 0
Leads s [] t = s ≡ t
Leads s (step ∷ ts) t =
    (step.from_state ≡ s) × (step.to_state ≢ step.from_state) × Leads step.to_state ts t

-- Every change of state in a call is announced to onStateChange, in order, and nothing else is.
pub do_call-Leads :
    (start finish : ℕ) (up : Upstream) (cb : CircuitBreaker)
    → let (cb', _, ts) = do_call start finish up cb in Leads cb.state ts cb'.state
unfolding do_call enter cancel on_failure on_success
do_call-Leads start finish (context_done e) cb = ground arith
do_call-Leads start finish (fails e) cb = ground arith
do_call-Leads start finish succeeds cb = ground arith
