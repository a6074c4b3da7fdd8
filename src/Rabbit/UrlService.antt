-- ===== src/Rabbit/UrlService.antt =====
-- NewRabbitMQConn of services/url-service/rabbitmq.go.
use url_shortener_microservi.Prelude.{ℕ, zero, suc, ◌*◌, min, Bool, true, false, if◌then◌else◌}
use url_shortener_microservi.Rabbit.{
  initial_backoff, max_backoff, Broker, cancelled, unreachable, no_channel, nil_connection,
  Connected, end_with, waited, declare_exchange, after_dial,
}

module _ (b : Broker) where
  -- After the loop: the channel and the exchange; an error closes the connection.
  unfoldable pub open_channel : ℕ → Connected
  unfolding end_with declare_exchange
  open_channel attempt =
      if b.opens_channel attempt
      then declare_exchange b attempt
      else record (end_with no_channel) { closed = 1 }

  -- The loop and what follows it; `tried` is whether there was an attempt, whose error is then not nil.
  unfoldable pub dial_loop : ℕ → ℕ → ℕ → Bool → Connected
  unfolding end_with open_channel
  dial_loop zero attempt backoff tried =
      if tried then end_with unreachable else end_with nil_connection
  dial_loop (suc left) attempt backoff tried =
      let rest = dial_loop left (suc attempt) (min (backoff * 2) max_backoff) true in
      if b.dials attempt
      then after_dial (record { has_channel = true; opened = 1; closed = 0 }) (open_channel attempt)
      else if b.cancelled attempt
      then end_with cancelled
      else waited backoff rest

  -- NewRabbitMQConn
  unfoldable pub new_rabbit_mq_conn : ℕ → Connected
  unfolding dial_loop
  new_rabbit_mq_conn max_attempts = dial_loop max_attempts 1 initial_backoff false
