-- ===== src/Startup/Order.antt =====
-- In which order the services' main.go acquire, use and release their resources.
use url_shortener_microservi.Prelude.{
  ◌≡◌, refl, Bool, true, false, not, ◌&&◌, ◌||◌, Text, List, [], ◌∷◌, Result, ok, err,
}
use url_shortener_microservi.Startup.{
  pool, redis_client, connection, Effect, opened, closed, migrated, listening, cancelled, drained,
  exited, ◌>>◌, Answers, new_db_pool, configured, open_pool, connect_database, connect_rabbit_mq,
  start_server, run_consumer, start_goroutines, shut_down, worker_main, url_main, user_main,
  analytics_main, notification_main, url_service_main, user_service_main,
}
use url_shortener_microservi.Environment.{Environment}
use url_shortener_microservi.Analytics.Config as AnalyticsConfig
use url_shortener_microservi.Notification.Config as NotificationConfig
use url_shortener_microservi.Url.Config as UrlConfig
use url_shortener_microservi.User.Config as UserConfig

-- What a process has at a moment.
record Held : Type 0 where
  has_pool : Bool
  has_redis : Bool
  has_connection : Bool
  has_schema : Bool
  is_listening : Bool
  is_cancelled : Bool

abbrev nothing : Held
nothing = record {
  has_pool = false;
  has_redis = false;
  has_connection = false;
  has_schema = false;
  is_listening = false;
  is_cancelled = false;
}

-- A resource is released only after the goroutines that use it were told to stop.
abbrev idle : Held → Bool
idle h = not h.is_listening || h.is_cancelled

-- Whether the effects are in order: a resource is opened when it is not there, and closed when it is
-- and is no longer in use; the schema is migrated on a pool; the server listens when pool, schema and,
-- if it is needed, connection are there; it is cancelled before it is drained. A process that ends
-- without os.Exit has closed all.
unfoldable walk : Bool → List Effect → Held → Bool
walk needs [] h = not h.has_pool && not h.has_redis && not h.has_connection
walk needs (opened pool ∷ es) h = not h.has_pool && walk needs es (record h { has_pool = true })
walk needs (opened redis_client ∷ es) h =
    not h.has_redis && walk needs es (record h { has_redis = true })
walk needs (opened connection ∷ es) h =
    not h.has_connection && walk needs es (record h { has_connection = true })
walk needs (closed pool ∷ es) h =
    h.has_pool && not h.has_connection && idle h && walk needs es (record h { has_pool = false })
walk needs (closed redis_client ∷ es) h =
    h.has_redis && idle h && walk needs es (record h { has_redis = false })
walk needs (closed connection ∷ es) h =
    h.has_connection && idle h && walk needs es (record h { has_connection = false })
walk needs (migrated ∷ es) h = h.has_pool && walk needs es (record h { has_schema = true })
walk needs (listening ∷ es) h =
    h.has_pool
    && h.has_schema
    && (not needs || h.has_connection)
    && walk needs es (record h { is_listening = true })
walk needs (cancelled ∷ es) h = h.is_listening && walk needs es (record h { is_cancelled = true })
walk needs (drained ∷ es) h = h.is_cancelled && walk needs es h
walk needs (exited ∷ []) h = true
walk needs (exited ∷ e ∷ es) h = false

unfoldable pub orderly : Bool → List Effect → Bool
unfolding walk
orderly needs es = walk needs es nothing

-- Whether the server has listened.
unfoldable pub listens : List Effect → Bool
listens [] = false
listens (listening ∷ es) = true
listens (_ ∷ es) = listens es

abbrev pub is_ok {ℓ} : {A : Type ℓ} → Result Text A → Bool
is_ok (ok cfg) = true
is_ok (err key) = false

-- The effects are in order, and the server listens in one case.
unfoldable pub InOrder : Bool → Bool → List Effect → Type 0
InOrder needs ready es = (orderly needs es ≡ true) × (listens es ≡ ready)

module _ {ℓ} {A : Type ℓ} where
  worker-order :
      (cfg : Result Text A)
      (parses creates pings migrates connects declares consumes first serves : Bool)
      → let a : Answers = record {
        parses_url = parses;
        creates_pool = creates;
        pings = pings;
        migrates = migrates;
        connects = connects;
        declares_queue = declares;
        consumes = consumes;
        consumer_first = first;
        serves = serves;
      } in
        InOrder true
          (is_ok cfg
            && parses
            && creates
            && pings
            && migrates
            && connects
            && declares
            && serves
            && (not first || consumes))
          (worker_main cfg a).effects
  unfolding orderly listens worker_main connect_database connect_rabbit_mq shut_down open_pool
      new_db_pool start_server run_consumer start_goroutines configured ◌>>◌ InOrder
  worker-order (err key) p c g m n d j i s = (refl, refl)
  worker-order (ok cfg) false c g m n d j i s = (refl, refl)
  worker-order (ok cfg) true false g m n d j i s = (refl, refl)
  worker-order (ok cfg) true true false m n d j i s = (refl, refl)
  worker-order (ok cfg) true true true false n d j i s = (refl, refl)
  worker-order (ok cfg) true true true true false d j i s = (refl, refl)
  worker-order (ok cfg) true true true true true false j i s = (refl, refl)
  worker-order (ok cfg) true true true true true true true true true = (refl, refl)
  worker-order (ok cfg) true true true true true true true true false = (refl, refl)
  worker-order (ok cfg) true true true true true true false true true = (refl, refl)
  worker-order (ok cfg) true true true true true true false true false = (refl, refl)
  worker-order (ok cfg) true true true true true true true false true = (refl, refl)
  worker-order (ok cfg) true true true true true true true false false = (refl, refl)
  worker-order (ok cfg) true true true true true true false false true = (refl, refl)
  worker-order (ok cfg) true true true true true true false false false = (refl, refl)

  url-order :
      (cfg : Result Text A)
      (parses creates pings migrates connects declares consumes first serves : Bool)
      → let a : Answers = record {
        parses_url = parses;
        creates_pool = creates;
        pings = pings;
        migrates = migrates;
        connects = connects;
        declares_queue = declares;
        consumes = consumes;
        consumer_first = first;
        serves = serves;
      } in
        InOrder true
          (is_ok cfg && parses && creates && pings && migrates && connects && serves)
          (url_main cfg a).effects
  unfolding orderly listens url_main shut_down open_pool new_db_pool start_server configured ◌>>◌
      InOrder
  url-order (err key) p c g m n d j i s = (refl, refl)
  url-order (ok cfg) false c g m n d j i s = (refl, refl)
  url-order (ok cfg) true false g m n d j i s = (refl, refl)
  url-order (ok cfg) true true false m n d j i s = (refl, refl)
  url-order (ok cfg) true true true false n d j i s = (refl, refl)
  url-order (ok cfg) true true true true false d j i s = (refl, refl)
  url-order (ok cfg) true true true true true d j i false = (refl, refl)
  url-order (ok cfg) true true true true true d j i true = (refl, refl)

  user-order :
      (cfg : Result Text A)
      (parses creates pings migrates connects declares consumes first serves : Bool)
      → let a : Answers = record {
        parses_url = parses;
        creates_pool = creates;
        pings = pings;
        migrates = migrates;
        connects = connects;
        declares_queue = declares;
        consumes = consumes;
        consumer_first = first;
        serves = serves;
      } in
        InOrder false
          (is_ok cfg && parses && creates && pings && migrates && serves)
          (user_main cfg a).effects
  unfolding orderly listens user_main open_pool new_db_pool start_server configured ◌>>◌ InOrder
  user-order (err key) p c g m n d j i s = (refl, refl)
  user-order (ok cfg) false c g m n d j i s = (refl, refl)
  user-order (ok cfg) true false g m n d j i s = (refl, refl)
  user-order (ok cfg) true true false m n d j i s = (refl, refl)
  user-order (ok cfg) true true true false n d j i s = (refl, refl)
  user-order (ok cfg) true true true true n d j i false = (refl, refl)
  user-order (ok cfg) true true true true n d j i true = (refl, refl)

-- Whatever the environment says and the libraries answer, the mains of the services use their resources
-- in order, on every path: none is opened while it is open; the schema is migrated on an open pool
-- before the server listens; only what is open is closed, and once the server listens only after the
-- context of the goroutines was cancelled; and a main that ends without os.Exit has closed all of them,
-- the connection before the pool. A server listens exactly if the configuration, the database, the
-- migrations, RabbitMQ and its queue where the service has them, and ListenAndServe are all without an
-- error, and no error of Qos or Consume has ended a worker before; Redis is not asked.
pub main-InOrder :
    (env : Environment) (a : Answers)
    → InOrder true
        (is_ok (AnalyticsConfig.load_config env)
          && a.parses_url
          && a.creates_pool
          && a.pings
          && a.migrates
          && a.connects
          && a.declares_queue
          && a.serves
          && (not a.consumer_first || a.consumes))
        (analytics_main env a).effects
      × InOrder true
          (is_ok (NotificationConfig.load_config env)
            && a.parses_url
            && a.creates_pool
            && a.pings
            && a.migrates
            && a.connects
            && a.declares_queue
            && a.serves
            && (not a.consumer_first || a.consumes))
          (notification_main env a).effects
      × InOrder true
          (is_ok (UrlConfig.load_config env)
            && a.parses_url
            && a.creates_pool
            && a.pings
            && a.migrates
            && a.connects
            && a.serves)
          (url_service_main env a).effects
      × InOrder false
          (is_ok (UserConfig.load_config env)
            && a.parses_url
            && a.creates_pool
            && a.pings
            && a.migrates
            && a.serves)
          (user_service_main env a).effects
unfolding analytics_main notification_main url_service_main user_service_main
main-InOrder env a = (
  worker-order (AnalyticsConfig.load_config env) a.parses_url a.creates_pool a.pings a.migrates
      a.connects a.declares_queue a.consumes a.consumer_first a.serves,
  worker-order (NotificationConfig.load_config env) a.parses_url a.creates_pool a.pings a.migrates
      a.connects a.declares_queue a.consumes a.consumer_first a.serves,
  url-order (UrlConfig.load_config env) a.parses_url a.creates_pool a.pings a.migrates a.connects
      a.declares_queue a.consumes a.consumer_first a.serves,
  user-order (UserConfig.load_config env) a.parses_url a.creates_pool a.pings a.migrates a.connects
      a.declares_queue a.consumes a.consumer_first a.serves,
)
