-- ===== src/Rabbit.antt =====
-- How the services connect to RabbitMQ when they start: services/url-service/rabbitmq.go, and
-- services/analytics-service/rabbitmq.go and services/notification-service/rabbitmq.go, which share one
-- text. Times are nanoseconds; maxAttempts is not negative.
pub mod UrlService
pub mod Waits
pub mod Outcomes
use url_shortener_microservi.Prelude.{
  ℕ, zero, suc, ◌+◌, ◌*◌, Bool, true, false, Text, List, [], ◌∷◌, ltb, if◌then◌else◌, is_empty,
}

-- rabbitMQInitialBackoff, and the first backoff of url-service
abbrev pub initial_backoff : ℕ
initial_backoff = 1000000000

-- rabbitMQMaxBackoff, and the bound of url-service
abbrev pub max_backoff : ℕ
max_backoff = 30000000000

-- What the broker and the context answer: whether an attempt's dial succeeds, whether its wait ends
-- because the context is done, and whether a channel opens and the exchange is declared.
pub record Broker : Type 0 where
  pub dials : ℕ → Bool
  pub cancelled : ℕ → Bool
  pub opens_channel : ℕ → Bool
  pub declares : Bool

-- How NewRabbitMQConn ends.
pub data Outcome : Type 0 where
  connected : ℕ → Outcome
  no_url cancelled unreachable no_channel no_exchange nil_connection : Outcome

-- What NewRabbitMQConn has done: its end, the waits that ran out, and how many connections it has
-- dialled and how many of them closed.
pub record Connected : Type 0 where
  pub outcome : Outcome
  pub waits : List ℕ
  pub opened : ℕ
  pub closed : ℕ

-- An end at which nothing has been dialled, waited for or closed.
unfoldable pub end_with : Outcome → Connected
end_with o = record { outcome = o; waits = []; opened = 0; closed = 0 }

-- What dialRabbitMQ has done: whether it returns a connection with a channel, and the counts.
pub record Dialled : Type 0 where
  pub has_channel : Bool
  pub opened : ℕ
  pub closed : ℕ

-- What was done after a dial, counted with the dial.
abbrev pub after_dial : Dialled → Connected → Connected
after_dial d c = record c { opened = d.opened + c.opened; closed = d.closed + c.closed }

abbrev pub waited : ℕ → Connected → Connected
waited backoff c = record c { waits = backoff ∷ c.waits }

-- backoff *= 2; if backoff > rabbitMQMaxBackoff { ... }
unfoldable pub next_backoff : ℕ → ℕ
next_backoff backoff = if ltb max_backoff (backoff * 2) then max_backoff else backoff * 2

module _ (b : Broker) where
  -- declareNotificationExchange, declareAnalyticsExchange, and what follows them: an error closes the
  -- connection.
  unfoldable pub declare_exchange : ℕ → Connected
  unfolding end_with
  declare_exchange attempt =
      if b.declares
      then end_with (connected attempt)
      else record (end_with no_exchange) { closed = 1 }

  -- dialRabbitMQ: it dials and opens a channel, on whose error it closes the connection.
  unfoldable pub dial_rabbit_mq : ℕ → Dialled
  dial_rabbit_mq attempt =
      if b.dials attempt
      then (if b.opens_channel attempt
          then record { has_channel = true; opened = 1; closed = 0 }
          else record { has_channel = false; opened = 1; closed = 1 })
      else record { has_channel = false; opened = 0; closed = 0 }

  -- The loop of NewRabbitMQConn, with the attempts that are left.
  unfoldable pub connect_loop : ℕ → ℕ → ℕ → Connected
  unfolding end_with declare_exchange dial_rabbit_mq next_backoff
  connect_loop zero attempt backoff = end_with unreachable
  connect_loop (suc left) attempt backoff =
      let rest = connect_loop left (suc attempt) (next_backoff backoff) in
      let d = dial_rabbit_mq attempt in
      after_dial d (
        if d.has_channel
        then declare_exchange attempt
        else if b.cancelled attempt
        then end_with cancelled
        else waited backoff rest)

  -- NewRabbitMQConn of analytics-service and notification-service
  unfoldable pub new_rabbit_mq_conn : Text → ℕ → Connected
  unfolding end_with connect_loop
  new_rabbit_mq_conn url max_attempts =
      if is_empty url then end_with no_url else connect_loop max_attempts 1 initial_backoff
