-- ===== src/Webhook.antt =====
-- internal/webhook: the dispatcher, the notifier and the signer.
pub mod Backoff
pub mod Dispatcher
pub mod Loops
pub mod Notifier
pub mod Post
pub mod Signer
