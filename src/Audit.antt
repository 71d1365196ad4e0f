-- ===== src/Audit.antt =====
-- internal/audit: connection events, their sliding window and their store.
pub mod Events
pub mod Window
pub mod Summary
pub mod Quota
pub mod Limits
mod QuotaTests
mod Tests
