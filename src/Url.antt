-- ===== src/Url.antt =====
-- url-service (services/url-service/): its tables, its operations and its HTTP handlers.
pub mod Config
pub mod Db
pub mod Shorten
pub mod Redirect
pub mod Listing
pub mod Deactivate
pub mod Handler
pub mod Outbox
pub mod Cache
pub mod System
pub mod Routes
