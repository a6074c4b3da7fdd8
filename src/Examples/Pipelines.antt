-- ===== src/Examples/Pipelines.antt =====
-- A run of the outbox and of analytics-service (services/url-service/outbox.go,
-- services/analytics-service/).
use url_shortener_microservi.Prelude.{
  ◌≡◌, ◌&&◌, not, arith, text_eq, keep, some_of, ℕ, refl, Bool, true, false, bytes, [], ◌∷◌, ◌++◌,
  none, some, Option,
}
use url_shortener_microservi.Events.{Payload, clicked}
use url_shortener_microservi.Url.Db.{OutboxRecord, insert_event}
use url_shortener_microservi.Url.Outbox.{
  place, claimable, order_by_created_at, claimed, fetch_unpublished, poll, publish,
}
use url_shortener_microservi.Analytics.{ClickEvent, Faults, Draws, process_delivery}
use url_shortener_microservi.Pipeline.{
  Pipeline, routed, queue_after, Step, emits, polls, publishes, delivers, Reach, here, next,
}
use url_shortener_microservi.Pipeline.Rounds.{waiting, round, round-drains}
use url_shortener_microservi.Pipeline.Safety.{IsSafe, Reach-IsSafe}

abbrev never : ℕ → Bool
never n = false

abbrev sound : Faults
sound = record {
  begin = false;
  exists = false;
  dedup = false;
  click = false;
  count = false;
  has_milestone = never;
  milestone = never;
  commit = false;
}

abbrev draws : Draws
draws n = (n, n)

abbrev click : ClickEvent
click = record {
  event_id = bytes "e1";
  correlation_id = [];
  short_code = bytes "0000007";
  user_id = bytes "ann";
  user_email = bytes "ann@a.b";
  ip_hash = bytes "h";
  user_agent = [];
  referer = [];
  clicked_at = 5;
}

abbrev decodes : Payload → Option ClickEvent
decodes p = some click

abbrev message : Payload
message = clicked (record {
  base = record {
    event_type = bytes "url.clicked";
    occurred_at = 5;
    correlation_id = [];
    event_id = 1;
  };
  short_code = bytes "0000007";
  user_id = bytes "ann";
  user_email = bytes "ann@a.b";
  ip_hash = bytes "h";
  user_agent = [];
  referer = [];
  clicked_at = 5;
})

abbrev row : OutboxRecord
row = record {
  id = 1;
  event_type = bytes "url.clicked";
  payload = message;
  created_at = 5;
  locked_until = none;
  published_at = none;
}

abbrev job : OutboxRecord
job = record row { locked_until = some 30000000006 }

abbrev start : Pipeline
start = record {
  db = record { urls = []; outbox = [] };
  jobs = [];
  queue = [];
  store = record { clicks = []; milestones = []; processed_events = [] };
}

abbrev emitted : Pipeline
emitted = record start { db = record { urls = []; outbox = row ∷ [] } }

abbrev polled : Pipeline
polled = record emitted {
  db = (poll none 6 emitted.db).1;
  jobs = emitted.jobs ++ (poll none 6 emitted.db).0;
}

abbrev published : Pipeline
published = record polled {
  db = (publish (λ _ _. true) none 7 job polled.db).1;
  jobs = [];
  queue = polled.queue ++ routed (publish (λ _ _. true) none 7 job polled.db).0;
}

abbrev delivered : Pipeline
delivered = record published {
  queue =
      queue_after (process_delivery sound draws (decodes message) published.store).acknowledgement
        [] message [];
  store = (process_delivery sound draws (decodes message) published.store).store;
}

emits_row : Step decodes start emitted
unfolding insert_event some_of
emits_row = emits row emitted.db refl refl

publishes_row : Step decodes polled published
unfolding poll fetch_unpublished claimed order_by_created_at keep claimable place
publishes_row = publishes true none 7 [] [] job refl

delivers_row : Step decodes published delivered
unfolding routed publish text_eq
delivers_row = delivers sound draws [] [] message refl

run : Reach decodes start delivered
run = next (next (next (next here emits_row) (polls none 6)) publishes_row) delivers_row

Reach-IsSafe_example : IsSafe decodes delivered
Reach-IsSafe_example = Reach-IsSafe decodes start delivered refl refl run

round-drains_example :
    keep waiting (round 6 7 emitted.db).outbox
    ≡ keep (λ r. waiting r && not (claimable 6 r)) emitted.db.outbox
unfolding some_of keep claimable
round-drains_example = round-drains 6 7 emitted.db (refl, tt) (omega arith)
