-- ===== src/Breaker/Changes.antt =====
-- The calls of onStateChange (gateway/circuitbreaker.go) and the state of the breaker.
use url_shortener_microservi.Prelude.{
  ℕ, ◌-◌, ◌≡◌, refl, sym, ap, ◌∙◌, List, [], ◌∷◌, ◌++◌, Option, leb, if-both, arith,
}
use url_shortener_microservi.Breaker.{
  State, closed, open_state, half_open, CircuitBreaker, Transition, Entry, rejected, admitted,
  enter_as, enter, is_half_open, cancel, slide_window, on_failure, on_success, Upstream,
  context_done, fails, succeeds, transitions, leave, after_entry, do_call,
}

-- The state that the last call tells.
unfoldable pub told : State → List Transition → State
told s [] = s
told s (t ∷ ts) = told t.to_state ts

told-append : (s : State) (ts us : List Transition) → told s (ts ++ us) ≡ told (told s ts) us
unfolding told
told-append s [] us = refl
told-append s (t ∷ ts) us = told-append t.to_state ts us

Tells : State → CircuitBreaker × Option Transition → Type 0
Tells s p = told s (transitions p.1) ≡ p.0.state

on_failure-Tells : (now : ℕ) (cb : CircuitBreaker) → Tells cb.state (on_failure now cb)
unfolding Tells on_failure slide_window told
on_failure-Tells now cb = ground arith

on_success-Tells : (now : ℕ) (cb : CircuitBreaker) → Tells cb.state (on_success now cb)
unfolding Tells on_success told
on_success-Tells now cb = ground arith

cancel-state : (cb : CircuitBreaker) → cb.state ≡ (cancel cb).state
unfolding cancel
cancel-state cb =
    if-both (λ (c : CircuitBreaker). cb.state ≡ c.state) (is_half_open cb.state) refl refl

leave-told :
    (up : Upstream) (now : ℕ) (cb : CircuitBreaker)
    → let (cb', _, ts) = leave up now cb in told cb.state ts ≡ cb'.state
unfolding leave told Tells
leave-told (context_done e) now cb = cancel-state cb
leave-told (fails e) now cb = on_failure-Tells now cb
leave-told succeeds now cb = on_success-Tells now cb

-- What the first section tells, and the state that it leaves.
Enters : State → CircuitBreaker × Entry → Type 0
Enters s (cb, rejected) = cb.state ≡ s
Enters s (cb, admitted t) = told s (transitions t) ≡ cb.state

enter_as-Enters :
    (s : State) (now : ℕ) (cb : CircuitBreaker) → cb.state ≡ s → Enters s (enter_as s now cb)
unfolding enter_as Enters told
enter_as-Enters closed now cb same = sym same
enter_as-Enters open_state now cb same =
    if-both (Enters open_state) (leb (now - cb.last_failure_time) cb.open_timeout) same refl
enter_as-Enters half_open now cb same =
    if-both (Enters half_open) cb.half_open_probe same (sym same)

after_entry-told :
    (s : State) (cb : CircuitBreaker) (entry : Entry) (up : Upstream) (now : ℕ)
    → Enters s (cb, entry)
    → let (cb', _, ts) = after_entry entry up now cb in told s ts ≡ cb'.state
unfolding Enters after_entry told
after_entry-told s cb rejected up now h = sym h
after_entry-told s cb (admitted t) up now h =
    let (_, _, ts) = leave up now cb in
    told-append s (transitions t) ts ∙ (ap (λ x. told x ts) h ∙ leave-told up now cb)

-- After a call with nothing between its sections the state is the one that the last call of
-- onStateChange told, or the old one if there was none.
pub do_call-told :
    (start finish : ℕ) (up : Upstream) (cb : CircuitBreaker)
    → let (cb', _, ts) = do_call start finish up cb in told cb.state ts ≡ cb'.state
unfolding do_call enter
do_call-told start finish up cb =
    let (cb', entry) = enter start cb in
    after_entry-told cb.state cb' entry up finish (enter_as-Enters cb.state start cb refl)
