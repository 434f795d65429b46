-- ===== src/Node.antt =====
-- The agent on a node (node/agent).
pub mod Config
pub mod Agent
pub mod Interface
