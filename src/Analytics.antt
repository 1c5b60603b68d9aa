-- ===== src/Analytics.antt =====
-- internal/analytics: the click pipeline and the enrichment of clicks.
pub mod Flush
pub mod UserAgent
pub mod Enrich
pub mod Pipeline
