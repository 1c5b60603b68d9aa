-- ===== src/Middleware.antt =====
-- internal/middleware: what stands before the handlers of /api/v1.
pub mod Auth
pub mod RateLimit
pub mod Gate
pub mod Context
pub mod Observability
