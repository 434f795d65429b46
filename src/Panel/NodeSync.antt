-- ===== src/Panel/NodeSync.antt =====
-- panel/backend/app/services/node_sync.py: what a node's result writes. `now` is the time at which
-- the result is applied.
pub mod Counters
pub mod PeerResult
pub mod Totals
