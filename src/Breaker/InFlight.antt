-- ===== src/Breaker/InFlight.antt =====
-- Calls of `Do` (gateway/circuitbreaker.go) that run at the same time: the locked sections of the
-- calls in flight follow one another in any order.
use url_shortener_microservi.Prelude.{ℕ, suc, ◌-◌, ◌<◌, ◌≡◌}
use url_shortener_microservi.Breaker.{
  closed, open_state, half_open, CircuitBreaker, rejected, enter, cancel, on_failure, on_success,
}
use url_shortener_microservi.Breaker.Safety.{
  IsValid, enter-IsValid, cancel-IsValid, on_failure-IsValid, on_success-IsValid,
}

-- The breaker, with how many calls are in flight that it admitted as probes and how many that it
-- admitted while it was closed.
pub record System : Type 0 where
  pub breaker : CircuitBreaker
  pub probes : ℕ
  pub plain : ℕ

-- A section that ends a call.
pub data Leave (cb : CircuitBreaker) : CircuitBreaker → Type 0 where
  cancelled : Leave cb (cancel cb)
  failed : (now : ℕ) → Leave cb (on_failure now cb).0
  succeeded : (now : ℕ) → Leave cb (on_success now cb).0

-- Calls that were admitted while the breaker was closed have ended before it becomes half-open.
abbrev pub Drained : System → Type 0
Drained s = s.breaker.state ≡ open_state → (s.probes ≡ 0) × (s.plain ≡ 0)

-- One section of some call. `Guard` restricts the admission of probes.
pub data Step (Guard : System → Type 0) : System → System → Type 0 where
  refuse :
      (s : System) (now : ℕ)
      → (enter now s.breaker).1 ≡ rejected
      → Step Guard s (record s { breaker = (enter now s.breaker).0 })
  admit_plain :
      (s : System) (now : ℕ)
      → s.breaker.state ≡ closed
      → Step Guard s (record s { breaker = (enter now s.breaker).0; plain = suc s.plain })
  admit_probe :
      (s : System) (now : ℕ)
      → Guard s
      → (enter now s.breaker).0.state ≡ half_open
      → ((enter now s.breaker).1 ≡ rejected → ⊥)
      → Step Guard s (record s { breaker = (enter now s.breaker).0; probes = suc s.probes })
  end_plain :
      (s : System) (cb : CircuitBreaker)
      → 0 < s.plain
      → Leave s.breaker cb
      → Step Guard s (record s { breaker = cb; plain = s.plain - 1 })
  end_probe :
      (s : System) (cb : CircuitBreaker)
      → 0 < s.probes
      → Leave s.breaker cb
      → Step Guard s (record s { breaker = cb; probes = s.probes - 1 })

pub data Reach (Guard : System → Type 0) (s : System) : System → Type 0 where
  here : Reach Guard s s
  next : {t u : System} → Reach Guard s t → Step Guard t u → Reach Guard s u

-- No call in flight: where the program starts.
pub record IsIdle (s : System) : Type 0 where
  pub no_probe : s.probes ≡ 0
  pub no_plain : s.plain ≡ 0
  pub is_closed : s.breaker.state ≡ closed

Leave-IsValid :
    (m : ℕ) → 0 < m → {cb cb' : CircuitBreaker} → Leave cb cb' → IsValid m cb → IsValid m cb'
Leave-IsValid m p {cb} cancelled v = cancel-IsValid m p cb v
Leave-IsValid m p {cb} (failed now) v = on_failure-IsValid m p now cb v
Leave-IsValid m p {cb} (succeeded now) v = on_success-IsValid m p now cb v

Step-IsValid :
    (m : ℕ)
    → 0 < m
    → {Guard : System → Type 0} {s t : System} → Step Guard s t
    → IsValid m s.breaker
    → IsValid m t.breaker
Step-IsValid m p (refuse s now r) v = enter-IsValid m p now s.breaker v
Step-IsValid m p (admit_plain s now c) v = enter-IsValid m p now s.breaker v
Step-IsValid m p (admit_probe s now g h r) v = enter-IsValid m p now s.breaker v
Step-IsValid m p (end_plain s cb n l) v = Leave-IsValid m p l v
Step-IsValid m p (end_probe s cb n l) v = Leave-IsValid m p l v

-- Whatever sections the calls in flight run, in whatever order, a half-open breaker alone has a
-- probe, and a closed breaker has fewer failures than its maximum m, which is positive.
pub Reach-IsValid :
    (m : ℕ)
    → 0 < m
    → {Guard : System → Type 0} {s t : System} → IsValid m s.breaker
    → Reach Guard s t
    → IsValid m t.breaker
Reach-IsValid m p v here = v
Reach-IsValid m p v (next r st) = Step-IsValid m p st (Reach-IsValid m p v r)
