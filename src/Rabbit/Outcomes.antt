-- ===== src/Rabbit/Outcomes.antt =====
-- How the attempts to connect end (services/*/rabbitmq.go).
use url_shortener_microservi.Prelude.{
  ℕ, zero, suc, ◌+◌, ◌≤◌, ◌<◌, ◌≡◌, inl, inr, refl, subst, Bool-cases, true, false, Text, is_empty,
  if◌then◌else◌, if-cases, ◌==◌, arith,
}
use url_shortener_microservi.Rabbit.{
  initial_backoff, Broker, connected, cancelled, unreachable, no_exchange, Connected, end_with,
  waited, after_dial, next_backoff, declare_exchange, dial_rabbit_mq, connect_loop,
  new_rabbit_mq_conn,
}

module _ (b : Broker) where
  -- No attempt from `first` to before `last` dials or is cancelled.
  abbrev pub Quiet : ℕ → ℕ → Type 0
  Quiet first last =
      (k : ℕ)
      → first ≤ k
      → k < last
      → ((dial_rabbit_mq b k).has_channel ≡ false) × (b.cancelled k ≡ false)

  -- How a loop that begins with `attempt` and has `left` attempts ends.
  pub data Ends (attempt left : ℕ) (c : Connected) : Type 0 where
    connects :
        (k : ℕ)
        → attempt ≤ k
        → k < attempt + left
        → Quiet attempt k
        → (dial_rabbit_mq b k).has_channel ≡ true
        → c.outcome ≡ (if b.declares then connected k else no_exchange)
        → c.opened ≡ c.closed + (if b.declares then 1 else 0)
        → Ends attempt left c
    gives_up :
        (k : ℕ)
        → attempt ≤ k
        → k < attempt + left
        → Quiet attempt k
        → (dial_rabbit_mq b k).has_channel ≡ false
        → b.cancelled k ≡ true
        → c.outcome ≡ cancelled
        → c.opened ≡ c.closed
        → Ends attempt left c
    exhausts :
        Quiet attempt (attempt + left)
        → c.outcome ≡ unreachable
        → c.opened ≡ c.closed
        → Ends attempt left c

  Quiet-extend :
      (attempt last : ℕ)
      → (dial_rabbit_mq b attempt).has_channel ≡ false
      → b.cancelled attempt ≡ false
      → Quiet (suc attempt) last
      → Quiet attempt last
  Quiet-extend attempt last d c q k lo hi = elim (Bool-cases (k == attempt)) [
    | inl is ↦
        let same : attempt ≡ k = ground arith in
        subst (λ j. ((dial_rabbit_mq b j).has_channel ≡ false) × (b.cancelled j ≡ false)) same
          (d, c)
    | inr is_not ↦ q k (ground arith) hi
  ]

  -- An attempt without a channel has closed the connection that it has dialled, if any.
  dial_rabbit_mq-closes :
      (attempt : ℕ)
      → (dial_rabbit_mq b attempt).has_channel ≡ false
      → (dial_rabbit_mq b attempt).opened ≡ (dial_rabbit_mq b attempt).closed
  unfolding dial_rabbit_mq
  dial_rabbit_mq-closes attempt h = ground arith

  -- An attempt with a channel has dialled one connection, and closed none.
  dial_rabbit_mq-opens :
      (attempt : ℕ)
      → (dial_rabbit_mq b attempt).has_channel ≡ true
      → ((dial_rabbit_mq b attempt).opened ≡ 1) × ((dial_rabbit_mq b attempt).closed ≡ 0)
  unfolding dial_rabbit_mq
  dial_rabbit_mq-opens attempt h = (ground arith, ground arith)

  Ends-waited :
      (attempt left w : ℕ) (c : Connected)
      → (dial_rabbit_mq b attempt).has_channel ≡ false
      → b.cancelled attempt ≡ false
      → Ends (suc attempt) left c
      → Ends attempt (suc left) (after_dial (dial_rabbit_mq b attempt) (waited w c))
  Ends-waited attempt left w c d n (connects k lo hi q t o p) =
      let even = dial_rabbit_mq-closes attempt d in
      connects k (omega arith) (omega arith) (Quiet-extend attempt k d n q) t o (omega arith)
  Ends-waited attempt left w c d n (gives_up k lo hi q f t o p) =
      let even = dial_rabbit_mq-closes attempt d in
      gives_up k (omega arith) (omega arith) (Quiet-extend attempt k d n q) f t o (omega arith)
  Ends-waited attempt left w c d n (exhausts q o p) =
      let even = dial_rabbit_mq-closes attempt d in
      exhausts (λ k lo hi. Quiet-extend attempt (suc attempt + left) d n q k lo (omega arith)) o
        (omega arith)

  nothing_before : (attempt : ℕ) → Quiet attempt attempt
  nothing_before attempt k lo hi = absurd (omega arith)

  Ends-declared :
      (attempt left : ℕ)
      → (dial_rabbit_mq b attempt).has_channel ≡ true
      → Ends attempt (suc left) (after_dial (dial_rabbit_mq b attempt) (declare_exchange b attempt))
  unfolding declare_exchange end_with
  Ends-declared attempt left t =
      let (opened, closed) = dial_rabbit_mq-opens attempt t in
      connects attempt (omega arith) (omega arith) (nothing_before attempt) t (ground arith)
        (ground arith)

  connect_loop-Ends :
      (left attempt backoff : ℕ) → Ends attempt left (connect_loop b left attempt backoff)
  unfolding connect_loop end_with
  connect_loop-Ends zero attempt backoff = exhausts (λ k lo hi. absurd (omega arith)) refl refl
  connect_loop-Ends (suc left) attempt backoff =
      let Then : Connected → Type 0 =
        λ c. Ends attempt (suc left) (after_dial (dial_rabbit_mq b attempt) c) in
      if-cases Then (dial_rabbit_mq b attempt).has_channel (Ends-declared attempt left) (λ d.
        if-cases Then (b.cancelled attempt)
          (λ c.
            let even = dial_rabbit_mq-closes attempt d in
            gives_up attempt (omega arith) (omega arith) (nothing_before attempt) d c refl
              (omega arith))
          (λ n.
            Ends-waited attempt left backoff _ d n
              (connect_loop-Ends left (suc attempt) (next_backoff backoff))))

  -- With a URL, NewRabbitMQConn of analytics-service and notification-service ends after at most
  -- maxAttempts attempts in one of three ways: at the first attempt that dials and opens a channel, with
  -- a connection if the exchange is declared and an error otherwise; at the first attempt that fails and
  -- whose wait is cancelled, with an error; or with the error that the broker is unreachable, if no
  -- attempt dials and none is cancelled. Every connection that an attempt has dialled is closed, but the one
  -- that is returned.
  pub new_rabbit_mq_conn-Ends :
      (url : Text) (max_attempts : ℕ)
      → is_empty url ≡ false
      → Ends 1 max_attempts (new_rabbit_mq_conn b url max_attempts)
  unfolding new_rabbit_mq_conn
  new_rabbit_mq_conn-Ends url max_attempts given =
      if-cases (Ends 1 max_attempts) (is_empty url) (λ t. absurd (ground arith))
        (λ f. connect_loop-Ends max_attempts 1 initial_backoff)
