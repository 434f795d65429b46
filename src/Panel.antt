-- ===== src/Panel.antt =====
-- The panel backend (panel/backend/app).
pub mod Accounts
pub mod Models
pub mod Errors
pub mod Crypto
pub mod Limits
pub mod Addresses
pub mod Provisioning
pub mod Lifecycle
pub mod Policy
pub mod Creation
pub mod Deletion
pub mod Readiness
pub mod NodeSync
pub mod Operations
pub mod Remnawave
pub mod NodeResults
pub mod NodeSnapshot
pub mod Retention
pub mod TelegramProxy
pub mod Ownership
pub mod History
pub mod Tests
