-- ===== src/Panel/NodeResults.antt =====
-- panel/backend/app/routers/internal_worker_parts/nodes.py: the results that the worker reports.
pub mod Replies
pub mod Handlers
pub mod Heartbeat
pub mod Kept
