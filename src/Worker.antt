-- ===== src/Worker.antt =====
-- The background worker (panel/worker/app).
pub mod Queue
pub mod NodeClient
pub mod Handlers
pub mod Dispatch
pub mod Recovery
pub mod TelegramProxy
pub mod Reconcile
