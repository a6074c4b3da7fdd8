-- ===== src/Rabbit/Waits.antt =====
-- The waits between the attempts to connect (services/*/rabbitmq.go).
use url_shortener_microservi.Prelude.{
  ℕ, zero, suc, ◌*◌, ◌^◌, ◌≤◌, min, ◌≡◌, refl, sym, subst, Bool, true, Text, List, [], ◌∷◌, length,
  is_empty, if-both, arith,
}
use url_shortener_microservi.Rabbit.{
  initial_backoff, max_backoff, Broker, Outcome, no_url, cancelled, unreachable, no_channel,
  nil_connection, Connected, end_with, waited, next_backoff, declare_exchange, dial_rabbit_mq,
  connect_loop, new_rabbit_mq_conn,
}
use url_shortener_microservi.Rabbit.UrlService.{open_channel, dial_loop}

-- The wait after `i` others: 1 s, 2 s, 4 s and so on, at most 30 s.
unfoldable pub wait_at : ℕ → ℕ
wait_at i = min (2 ^ i * initial_backoff) max_backoff

-- Waits that are those of the schedule from the i-th on.
abbrev pub Follows : ℕ → List ℕ → Type 0
Follows i [] = Unit
Follows i (w ∷ ws) = (w ≡ wait_at i) × Follows (suc i) ws

first_wait : wait_at 0 ≡ initial_backoff
unfolding wait_at
first_wait = omega arith

next_backoff-wait_at : (i : ℕ) → next_backoff (wait_at i) ≡ wait_at (suc i)
unfolding next_backoff wait_at
next_backoff-wait_at i = ground arith

doubled-wait_at : (i : ℕ) → min (wait_at i * 2) max_backoff ≡ wait_at (suc i)
unfolding wait_at
doubled-wait_at i = omega arith

-- The waits of a connection follow the schedule from the i-th on, and are at most `left`.
abbrev Scheduled : ℕ → ℕ → Connected → Type 0
Scheduled i left c = Follows i c.waits × length c.waits ≤ left

declare_exchange-Scheduled :
    (b : Broker) (attempt i left : ℕ) → Scheduled i left (declare_exchange b attempt)
unfolding declare_exchange end_with
declare_exchange-Scheduled b attempt i left =
    if-both (Scheduled i left) b.declares (tt, omega arith) (tt, omega arith)

end_with-Scheduled : (o : Outcome) (i left : ℕ) → Scheduled i left (end_with o)
unfolding end_with
end_with-Scheduled o i left = (tt, omega arith)

waited-Scheduled :
    (i left : ℕ) (c : Connected)
    → Scheduled (suc i) left c
    → Scheduled i (suc left) (waited (wait_at i) c)
waited-Scheduled i left c h = ((refl, h.0), omega (arith, h.1))

module _ (b : Broker) where
  connect_loop-Scheduled :
      (left attempt i : ℕ) → Scheduled i left (connect_loop b left attempt (wait_at i))
  unfolding connect_loop
  connect_loop-Scheduled zero attempt i = end_with-Scheduled unreachable i 0
  connect_loop-Scheduled (suc left) attempt i =
      let rest =
        subst (λ w. Scheduled (suc i) left (connect_loop b left (suc attempt) w))
          (sym (next_backoff-wait_at i)) (connect_loop-Scheduled left (suc attempt) (suc i)) in
      if-both (Scheduled i (suc left)) (dial_rabbit_mq b attempt).has_channel
        (declare_exchange-Scheduled b attempt i (suc left))
        (if-both (Scheduled i (suc left)) (b.cancelled attempt)
          (end_with-Scheduled cancelled i (suc left))
          (waited-Scheduled i left (connect_loop b left (suc attempt) (next_backoff (wait_at i)))
            rest))

  -- NewRabbitMQConn waits at most maxAttempts times, and the times are 1 s, 2 s, 4 s, 8 s, 16 s and then
  -- 30 s each.
  pub new_rabbit_mq_conn-Follows :
      (url : Text) (max_attempts : ℕ)
      → Follows 0 (new_rabbit_mq_conn b url max_attempts).waits
        × length (new_rabbit_mq_conn b url max_attempts).waits ≤ max_attempts
  unfolding new_rabbit_mq_conn
  new_rabbit_mq_conn-Follows url max_attempts =
      if-both (Scheduled 0 max_attempts) (is_empty url) (end_with-Scheduled no_url 0 max_attempts) (
        subst (λ w. Scheduled 0 max_attempts (connect_loop b max_attempts 1 w)) first_wait
          (connect_loop-Scheduled max_attempts 1 0))

  open_channel-Scheduled : (attempt i left : ℕ) → Scheduled i left (open_channel b attempt)
  unfolding open_channel
  open_channel-Scheduled attempt i left =
      if-both (Scheduled i left) (b.opens_channel attempt)
        (declare_exchange-Scheduled b attempt i left) (end_with-Scheduled no_channel i left)

  -- The loop of url-service waits the same times as that of the other services.
  pub dial_loop-Scheduled :
      (left attempt i : ℕ) (tried : Bool)
      → Follows i (dial_loop b left attempt (wait_at i) tried).waits
        × length (dial_loop b left attempt (wait_at i) tried).waits ≤ left
  unfolding dial_loop
  dial_loop-Scheduled zero attempt i tried =
      if-both (Scheduled i 0) tried (end_with-Scheduled unreachable i 0)
        (end_with-Scheduled nil_connection i 0)
  dial_loop-Scheduled (suc left) attempt i tried =
      let rest =
        subst (λ w. Scheduled (suc i) left (dial_loop b left (suc attempt) w true))
          (sym (doubled-wait_at i)) (dial_loop-Scheduled left (suc attempt) (suc i) true) in
      if-both (Scheduled i (suc left)) (b.dials attempt)
        (open_channel-Scheduled attempt i (suc left))
        (if-both (Scheduled i (suc left)) (b.cancelled attempt)
          (end_with-Scheduled cancelled i (suc left))
          (waited-Scheduled i left
            (dial_loop b left (suc attempt) (min (wait_at i * 2) max_backoff) true) rest))
