-- ===== src/Collection.antt =====
-- The artwork collection (internal/collection).
pub mod Types
