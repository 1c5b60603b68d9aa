-- ===== src/Domain.antt =====
-- internal/domain: the entities that handlers, services and repositories share.
pub mod Errors
pub mod Link
pub mod ApiKey
pub mod Tenant
pub mod Stats
pub mod Webhook
