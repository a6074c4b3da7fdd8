-- ===== src/Examples/Connections.antt =====
-- Runs of the connection to RabbitMQ and of the check of tokens (services/, shared/auth/).
use url_shortener_microservi.Prelude.{refl, true, false, bytes, leb}
use url_shortener_microservi.Rabbit.{Broker, new_rabbit_mq_conn}
use url_shortener_microservi.Rabbit.Outcomes.{Ends, new_rabbit_mq_conn-Ends}

-- The third attempt dials.
abbrev slow : Broker
slow = record {
  dials = λ attempt. leb 3 attempt;
  cancelled = λ attempt. false;
  opens_channel = λ attempt. true;
  declares = true;
}

new_rabbit_mq_conn-Ends_example : Ends slow 1 10 (new_rabbit_mq_conn slow (bytes "amqp://q") 10)
new_rabbit_mq_conn-Ends_example = new_rabbit_mq_conn-Ends slow (bytes "amqp://q") 10 refl
