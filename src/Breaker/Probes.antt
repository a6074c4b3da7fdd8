-- ===== src/Breaker/Probes.antt =====
-- How many calls test a recovering upstream at once (gateway/circuitbreaker.go, halfOpenProbe).
use url_shortener_microservi.Prelude.{
  ℕ, suc, ◌+◌, ◌-◌, ◌<◌, ◌≤◌, ◌≡◌, refl, Bool, true, false, arith,
}
use url_shortener_microservi.Breaker.{
  closed, open_state, half_open, CircuitBreaker, rejected, enter, cancel, on_failure, on_success,
}
use url_shortener_microservi.Breaker.InFlight.{
  System, Leave, cancelled, failed, succeeded, Drained, Step, refuse, admit_plain, admit_probe,
  end_plain, end_probe, Reach, here, next, IsIdle,
}

abbrev probe_count : Bool → ℕ
probe_count true = 1
probe_count false = 0

record IsQuiet (s : System) : Type 0 where
  alone : s.breaker.state ≡ half_open → s.plain ≡ 0
  counted : s.breaker.state ≡ half_open → s.probes ≡ probe_count s.breaker.half_open_probe
  closed_none : s.breaker.state ≡ closed → s.probes ≡ 0
  open_none : s.breaker.state ≡ open_state → s.probes ≡ 0

end_plain-IsQuiet :
    (s : System) {cb : CircuitBreaker}
    → 0 < s.plain
    → Leave s.breaker cb
    → IsQuiet s
    → IsQuiet (record s { breaker = cb; plain = s.plain - 1 })
unfolding cancel on_failure on_success
end_plain-IsQuiet s n cancelled q = ground arith
end_plain-IsQuiet s n (failed now) q = ground arith
end_plain-IsQuiet s n (succeeded now) q = ground arith

end_probe-IsQuiet :
    (s : System) {cb : CircuitBreaker}
    → 0 < s.probes
    → Leave s.breaker cb
    → IsQuiet s
    → IsQuiet (record s { breaker = cb; probes = s.probes - 1 })
unfolding cancel on_failure on_success
end_probe-IsQuiet s n cancelled q = ground arith
end_probe-IsQuiet s n (failed now) q = ground arith
end_probe-IsQuiet s n (succeeded now) q = ground arith

Step-IsQuiet : {s t : System} → Step Drained s t → IsQuiet s → IsQuiet t
unfolding enter
Step-IsQuiet (refuse s now r) q = ground arith
Step-IsQuiet (admit_plain s now c) q = ground arith
Step-IsQuiet (admit_probe s now g h r) q = ground arith
Step-IsQuiet (end_plain s cb n l) q = end_plain-IsQuiet s n l q
Step-IsQuiet (end_probe s cb n l) q = end_probe-IsQuiet s n l q

Reach-IsQuiet : {s t : System} → IsQuiet s → Reach Drained s t → IsQuiet t
Reach-IsQuiet q here = q
Reach-IsQuiet q (next r st) = Step-IsQuiet st (Reach-IsQuiet q r)

IsIdle-IsQuiet : {s : System} → IsIdle s → IsQuiet s
IsIdle-IsQuiet i = ground arith

probe_count-le-one : (b : Bool) → probe_count b ≤ 1
probe_count-le-one b = ground arith

-- From an idle closed breaker, and if a probe is admitted to an open breaker only when no older call
-- is in flight, at most one call is in flight while the breaker is half-open.
pub one_probe :
    {s t : System}
    → IsIdle s
    → Reach Drained s t
    → t.breaker.state ≡ half_open
    → t.probes + t.plain ≤ 1
one_probe {t = t} i r h =
    let q = Reach-IsQuiet (IsIdle-IsQuiet i) r in
    omega (arith, q.alone h, q.counted h, probe_count-le-one t.breaker.half_open_probe)

abbrev pub Unguarded : System → Type 0
Unguarded s = Unit {0}

-- A half-open breaker that a failure opens admits a call after its timeout.
reopened :
    (cb : CircuitBreaker) (now : ℕ)
    → cb.state ≡ half_open
    → let (cb', entry) = enter (now + cb.open_timeout + 1) (on_failure now cb).0 in
      (cb'.state ≡ half_open) × (entry ≡ rejected → ⊥)
unfolding on_failure enter
reopened cb now h = ground arith

-- Without that restriction a second probe gets in: a call that was admitted before the breaker
-- opened may fail while the probe runs, which opens the breaker again, and after the timeout the
-- next call is admitted beside the first probe.
pub second_probe :
    (s : System) (now : ℕ)
    → s.breaker.state ≡ half_open
    → 0 < s.plain
    → (t : System) × Reach Unguarded s t × (t.breaker.state ≡ half_open) × (t.probes ≡ s.probes + 1)
second_probe s now h n =
    let failed_once : System = record s {
      breaker = (on_failure now s.breaker).0;
      plain = s.plain - 1;
    } in
    let later = now + s.breaker.open_timeout + 1 in
    let (half, in_time) = reopened s.breaker now h in
    (
      record failed_once {
        breaker = (enter later failed_once.breaker).0;
        probes = suc failed_once.probes;
      },
      next (next here (end_plain s _ n (failed now)))
          (admit_probe failed_once later tt half in_time),
      half,
      omega arith,
    )

-- So too may a call that was admitted before the breaker opened close it by its success, with the
-- probe still in flight.
pub stale_success_closes :
    (s : System) (now : ℕ)
    → s.breaker.state ≡ half_open
    → 0 < s.plain
    → (t : System) × Step Unguarded s t × (t.breaker.state ≡ closed) × (t.probes ≡ s.probes)
unfolding on_success
stale_success_closes s now h n = (
  record s { breaker = (on_success now s.breaker).0; plain = s.plain - 1 },
  end_plain s _ n (succeeded now),
  ground arith,
  refl,
)
