-- ===== src/Gateway.antt =====
-- The API gateway (gateway/): its routing table, the token check in front of it, the rate limiter,
-- and the handler that sends a request through the circuit breaker to a service.
pub mod Gauge
pub mod Proxy
pub mod Middleware
pub mod Config
pub mod Router
pub mod RateLimit
pub mod Jwt
pub mod Handler
pub mod Paths
pub mod Allowance
pub mod Decimal
pub mod Access
pub mod Upstreams
