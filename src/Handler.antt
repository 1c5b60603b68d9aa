-- ===== src/Handler.antt =====
-- internal/handler: requests to the services, and their answers.
pub mod Redirect
pub mod Fields
pub mod Request
pub mod Privacy
pub mod Links
pub mod Stats
pub mod Webhooks
pub mod Health
