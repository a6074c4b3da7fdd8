-- ===== src/Startup.antt =====
-- How the services start and stop: main.go, db.go, redis.go and migrations.go of each. What the
-- libraries answer is an argument; what a main does with the resources is the list of its effects, to
-- its end. os.Exit runs no deferred call.
pub mod Order
use url_shortener_microservi.Prelude.{
  ℕ, Bool, true, false, List, [], ◌∷◌, ◌++◌, Option, none, some, if◌then◌else◌, Text, Result, ok,
  err,
}
use url_shortener_microservi.Environment.{Environment}
use url_shortener_microservi.Analytics.Config as AnalyticsConfig
use url_shortener_microservi.Notification.Config as NotificationConfig
use url_shortener_microservi.Url.Config as UrlConfig
use url_shortener_microservi.User.Config as UserConfig

pub data Resource : Type 0 where
  pool redis_client connection : Resource

pub data Effect : Type 0 where
  opened closed : Resource → Effect
  migrated : Effect
  listening : Effect
  cancelled : Effect
  drained : Effect
  exited : Effect

-- A part of main: its effects, and whether it goes on.
pub record Run : Type 0 where
  pub effects : List Effect
  pub goes_on : Bool

abbrev pub goes : List Effect → Run
goes effects = record { effects = effects; goes_on = true }

abbrev pub exits : List Effect → Run
exits effects = record { effects = effects ++ (exited ∷ []); goes_on = false }

infixl 5 ◌>>◌
unfoldable pub ◌>>◌ : Run → Run → Run
r >> next =
    if r.goes_on then record { effects = r.effects ++ next.effects; goes_on = next.goes_on } else r

-- What the libraries answer, `true` for no error; `connects` is whether NewRabbitMQConn returns a
-- connection, `consumes` whether Qos and Consume of its channel succeed, `serves` whether ListenAndServe
-- listens; and the scheduler runs the goroutine of the consumer before that of the server, or after it.
pub record Answers : Type 0 where
  pub parses_url : Bool
  pub creates_pool : Bool
  pub pings : Bool
  pub migrates : Bool
  pub connects : Bool
  pub declares_queue : Bool
  pub consumes : Bool
  pub consumer_first : Bool
  pub serves : Bool

-- NewDBPool: the effects, and whether there is a pool
unfoldable pub new_db_pool : Answers → List Effect × Bool
new_db_pool a =
    if a.parses_url
    then (if a.creates_pool
        then (if a.pings then (opened pool ∷ [], true) else (opened pool ∷ closed pool ∷ [], false))
        else ([], false))
    else ([], false)

-- LoadConfig at the start of main
unfoldable pub configured {ℓ} : {A : Type ℓ} → Result Text A → Run
configured (ok cfg) = goes []
configured (err key) = exits []

-- The call of NewDBPool in main; what follows an error is os.Exit.
unfoldable pub open_pool : Answers → Run
open_pool a = let (effects, there) = new_db_pool a in if there then goes effects else exits effects

-- connectDatabase of analytics-service and notification-service
unfoldable pub connect_database : Answers → Run
connect_database a =
    open_pool a >> (if a.migrates then goes (migrated ∷ []) else exits (closed pool ∷ []))

-- connectRabbitMQ of analytics-service and notification-service
unfoldable pub connect_rabbit_mq : Answers → Run
connect_rabbit_mq a =
    if a.connects
    then (if a.declares_queue
        then goes (opened connection ∷ [])
        else exits (opened connection ∷ closed connection ∷ []))
    else exits []

-- startServer in its goroutine; an error ends the process.
unfoldable pub start_server : Answers → Run
start_server a = if a.serves then goes (listening ∷ []) else exits []

-- consumer.Run in its goroutine: an error of Qos or Consume ends the process.
unfoldable pub run_consumer : Answers → Run
run_consumer a = if a.consumes then goes [] else exits []

-- go consumer.Run(ctx) and go startServer(...), in either order
unfoldable pub start_goroutines : Answers → Run
start_goroutines a =
    if a.consumer_first then run_consumer a >> start_server a else start_server a >> run_consumer a

-- waitForShutdown and shutdownServer, and then the deferred calls
unfoldable pub shut_down : List Effect → Run
shut_down deferred = goes (cancelled ∷ drained ∷ deferred)

-- main of analytics-service and notification-service
unfoldable pub worker_main {ℓ} : {A : Type ℓ} → Result Text A → Answers → Run
worker_main cfg a =
    configured cfg
    >> connect_database a
    >> connect_rabbit_mq a
    >> start_goroutines a
    >> shut_down (closed connection ∷ closed pool ∷ [])

-- main of url-service: the Redis client is there whether or not it answers.
unfoldable pub url_main {ℓ} : {A : Type ℓ} → Result Text A → Answers → Run
url_main cfg a =
    configured cfg
    >> open_pool a
    >> (if a.migrates then goes (migrated ∷ []) else exits [])
    >> goes (opened redis_client ∷ [])
    >> (if a.connects then goes (opened connection ∷ []) else exits [])
    >> start_server a
    >> shut_down (closed connection ∷ closed redis_client ∷ closed pool ∷ [])

-- main of user-service: its Shutdown has a context that is already cancelled, and drains nothing.
unfoldable pub user_main {ℓ} : {A : Type ℓ} → Result Text A → Answers → Run
user_main cfg a =
    configured cfg
    >> open_pool a
    >> (if a.migrates then goes (migrated ∷ []) else exits [])
    >> start_server a
    >> goes (cancelled ∷ closed pool ∷ [])

-- The mains on an environment; that of the two workers is one.
unfoldable pub analytics_main : Environment → Answers → Run
analytics_main env a = worker_main (AnalyticsConfig.load_config env) a

unfoldable pub notification_main : Environment → Answers → Run
notification_main env a = worker_main (NotificationConfig.load_config env) a

unfoldable pub url_service_main : Environment → Answers → Run
url_service_main env a = url_main (UrlConfig.load_config env) a

unfoldable pub user_service_main : Environment → Answers → Run
user_service_main env a = user_main (UserConfig.load_config env) a
