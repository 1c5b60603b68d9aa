-- ===== src/Store.antt =====
-- internal/repository: the stores behind the services, over tables as lists of rows.
pub mod Stats
pub mod Db
pub mod Links
pub mod Webhooks
pub mod ApiKeys
pub mod Tenants
pub mod RateLimit
pub mod Clicks
pub mod Cache
pub mod Integrity
pub mod Counting
pub mod History
pub mod Isolation
pub mod Privacy
