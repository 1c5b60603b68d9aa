-- ===== src/Service.antt =====
-- internal/service: the business logic over the stores.
pub mod World
pub mod Redirect
pub mod Auth
pub mod Links
pub mod Webhooks
pub mod Stats
pub mod Janitor
