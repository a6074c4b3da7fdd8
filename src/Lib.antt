-- ===== src/Lib.antt =====
-- A model of the services behind a URL shortener: a gateway in front of four services that share a
-- bus of events. The gateway checks tokens and rates and forwards requests, those for url-service
-- through a circuit breaker. url-service keeps the short codes in PostgreSQL, with a cache, and writes
-- events to an outbox in the same transactions; a coordinator publishes them. analytics-service counts
-- the clicks and finds milestones; notification-service keeps a notification, and sends an email, for
-- each of the other events; user-service keeps the accounts and issues the tokens.
--
-- Which file models which part:
--   Breaker           gateway/circuitbreaker.go: `do_call` is Do; its two locked sections are `enter`
--                     and `cancel`, `on_failure`, `on_success`; Breaker/InFlight interleaves the
--                     sections of calls in flight as steps.
--   Gateway           gateway/router.go, jwtmiddleware.go, ratelimit.go, handler.go, proxy.go, middleware.go,
--                     config.go, a child for each; Gateway/Gauge has the gauge of metrics.go.
--   Base62            services/url-service/base62.go, codegen.go.
--   Events, Http      shared/events/events.go; what handlers write. Http/Mux is http.ServeMux, with its
--                     patterns.
--   Logger            shared/logger/logger.go.
--   Environment       what the config.go of the services have in common; the configurations are
--                     Url/Config, User/Config (with password.go), Analytics/Config, Notification/Config.
--   Startup           main.go, db.go, redis.go and migrations.go of the services: what they acquire and
--                     release, as a list of effects.
--   Auth              shared/auth/auth.go and services/user-service/token.go; Auth/Middleware is
--                     shared/auth/middleware.go.
--   Url               services/url-service/: Url/Db is store.go, Url/Shorten, Url/Redirect, Url/Listing
--                     and Url/Deactivate are the operations of service.go, Url/Handler is handler.go,
--                     Url/Outbox is outbox_store.go and outbox.go, Url/Cache is cache.go. Url/Routes has
--                     the routes of main.go. Url/System has the operations and the goroutines of service.go,
--                     which write to the cache later, as steps on database, cache and writes still to
--                     be made; a deactivation is two steps, its transaction and its deletion of the entry.
--   Analytics         services/analytics-service/consumer.go, milestone.go, store.go; Analytics/Stats has
--                     the queries of store.go and handler.go, Analytics/Overlap two consumers at once.
--   Pipeline          from the outbox through the workers of outbox.go and the queue to the tables of
--                     analytics-service, as steps.
--   Notification      services/notification-service/: store.go, with the children Consumer, Handler and
--                     Access for consumer.go, handler.go and the route of main.go.
--   Rabbit            NewRabbitMQConn of services/*/rabbitmq.go.
--   User              services/user-service/handler.go, store.go, validate.go, errors.go;
--                     User/Session is the route GET /me of main.go, User/Routes all its routes.
--   Journey           the gateway's handler and proxy with url-service's routes behind them.
--   Examples          runs on concrete inputs.
--   Prelude           shared helpers.
--
-- Where the documents under dev_docs and the code disagree, the code is modelled: a redirect answers
-- 308 (the documents say 301), the third collision of a short code 409 (503 after the fifth), a list is
-- ordered by id (by time), BCRYPT_COST is 4 to 12 (10 to 14).
--
-- State is passed explicitly: an operation takes the tables and returns them. What an operation draws
-- (times, UUIDs, random bytes) and the errors that a database answers are arguments. A time is a
-- number of nanoseconds, of which a column of `urls` keeps the microseconds; a UUID a number or a text. A JSON text stands for the value it encodes.
-- Code of others is a parameter with its documented behaviour as hypotheses: pgx.BeginFunc (BeginFunc
-- of Url/Db), Redis (Redis of Gateway/RateLimit, RedisClient of Url/Cache), encoding/json, jwt, bcrypt,
-- SHA-256, url.Parse, uuid.Parse, the AMQP client, the transport of the reverse proxy and
-- promhttp. Loops are structural, those of Rabbit on the attempts that are left; `follow` of
-- Url/Listing/Pages has fuel, one more than the rows listed.
--
-- Not modelled: the routes of analytics-service and notification-service as a whole, deadlines, the
-- recovery from a panic in the consumer of analytics-service (no operation of the model panics), the
-- text and the time of log lines, the registration of metrics with Prometheus, the channel of jobs
-- being full, the frontend and the deployment: calls of libraries, or languages other than Go. The publishers are
-- one call of the AMQP client, which is a step of Pipeline.
pub mod Prelude
pub mod Analytics
pub mod Auth
pub mod Examples
pub mod Base62
pub mod Breaker
pub mod Http
pub mod Events
pub mod Gateway
pub mod Notification
pub mod Environment
pub mod Logger
pub mod Startup
pub mod Journey
pub mod Pipeline
pub mod Rabbit
pub mod Url
pub mod User
