-- ===== src/Samsung.antt =====
-- The Samsung adapter (internal/samsung).
pub mod Types
pub mod Errors
pub mod Device
pub mod Adapter
pub mod Examples
