-- ===== src/Sync.antt =====
-- internal/sync: what a cycle reconciles.
pub mod Limit
pub mod Examples
