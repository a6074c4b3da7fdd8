-- ===== src/Examples/Breakers.antt =====
-- Runs of the circuit breaker (gateway/circuitbreaker.go).
use url_shortener_microservi.Prelude.{
  ◌+◌, ◌-◌, ◌≤◌, ◌≡◌, ◌↔◌, ◌≢◌, refl, pos, true, false, [], arith,
}
use url_shortener_microservi.Breaker.{
  closed, open_state, half_open, CircuitBreaker, new_circuit_breaker, enter, on_failure, do_call,
  fails, succeeds, context_done, circuit_open,
}
use url_shortener_microservi.Breaker.Safety.{IsValid, new-IsValid}
use url_shortener_microservi.Breaker.Trips.{do_call-after_trip, probe_decides}
use url_shortener_microservi.Breaker.InFlight.{
  System, Drained, Step, admit_plain, admit_probe, end_plain, failed, Reach, here, next,
  Reach-IsValid,
}
use url_shortener_microservi.Breaker.Probes.{
  Unguarded, one_probe, second_probe, stale_success_closes,
}

abbrev fresh : CircuitBreaker
fresh = record {
  state = closed;
  failures = 0;
  last_failure_time = 0;
  max_failures = pos 2;
  open_timeout = 10;
  failure_window = 100;
  window_start = 0;
  half_open_probe = false;
}

-- Opened at 5.
abbrev tripped : CircuitBreaker
tripped = record fresh { state = open_state; failures = 2; last_failure_time = 5 }

abbrev probing : CircuitBreaker
probing = record tripped { state = half_open; half_open_probe = true }

abbrev idle : System
idle = record { breaker = fresh; probes = 0; plain = 0 }

-- A call that was admitted before the breaker opened runs beside the probe.
abbrev mixed : System
mixed = record { breaker = probing; probes = 1; plain = 1 }

abbrev one_left : CircuitBreaker
one_left = record fresh { failures = 1 }

closed-ne-open : closed ≢ open_state
closed-ne-open h = cc

do_call-after_trip_example : (15 - 6 ≤ 10) ↔ (
    do_call 15 16 succeeds (do_call 5 6 (fails 1) one_left).0
    ≡ ((do_call 5 6 (fails 1) one_left).0, circuit_open, []))
unfolding do_call enter on_failure
do_call-after_trip_example =
    do_call-after_trip 5 6 15 16 (fails 1) succeeds one_left (λ e. closed-ne-open e) refl

probe_decides_example :
    ((do_call 20 21 succeeds tripped).0.state ≡ closed)
    × ((do_call 20 21 succeeds tripped).0.failures ≡ 0)
    × ((do_call 20 21 (fails 1) tripped).0.state ≡ open_state)
    × ((do_call 20 21 (fails 1) tripped).0.last_failure_time ≡ 21)
    × ((do_call 20 21 (context_done 1) tripped).0.state ≡ half_open)
    × ((do_call 20 21 (context_done 1) tripped).0.half_open_probe ≡ false)
probe_decides_example = probe_decides 20 21 1 tripped refl (omega arith)

abbrev one_running : System
one_running = record { breaker = (enter 1 fresh).0; probes = 0; plain = 1 }

running : Reach Unguarded idle one_running
unfolding enter
running = next here (admit_plain idle 1 refl)

Reach-IsValid_example : IsValid 2 (enter 1 fresh).0
unfolding new_circuit_breaker
Reach-IsValid_example =
    Reach-IsValid 2 (omega arith) {s = idle} {t = one_running}
      (new-IsValid 2 (omega arith) 10 100 0) running

-- One failure opens this one.
abbrev fragile : CircuitBreaker
fragile = record fresh { max_failures = pos 1 }

abbrev idle_fragile : System
idle_fragile = record { breaker = fragile; probes = 0; plain = 0 }

abbrev with_call : System
with_call = record { breaker = (enter 1 fragile).0; probes = 0; plain = 1 }

abbrev opened : System
opened = record { breaker = (on_failure 2 (enter 1 fragile).0).0; probes = 0; plain = 0 }

abbrev one_probing : System
one_probing = record {
  breaker = (enter 20 (on_failure 2 (enter 1 fragile).0).0).0;
  probes = 1;
  plain = 0;
}

probes_alone : Reach Drained idle_fragile one_probing
unfolding enter on_failure
probes_alone =
    next
      (next (next here (admit_plain idle_fragile 1 refl))
        (end_plain with_call (on_failure 2 (enter 1 fragile).0).0 (omega arith) (failed 2)))
      (admit_probe opened 20 (λ _. (refl, refl)) refl (λ e. cc))

one_probe_example : 1 + 0 ≤ 1
unfolding enter on_failure
one_probe_example =
    one_probe {s = idle_fragile} {t = one_probing}
      (record { no_probe = refl; no_plain = refl; is_closed = refl }) probes_alone refl

second_probe_example :
    (t : System) × Reach Unguarded mixed t × (t.breaker.state ≡ half_open) × (t.probes ≡ 1 + 1)
second_probe_example = second_probe mixed 30 refl (omega arith)

stale_success_closes_example :
    (t : System) × Step Unguarded mixed t × (t.breaker.state ≡ closed) × (t.probes ≡ 1)
stale_success_closes_example = stale_success_closes mixed 30 refl (omega arith)
