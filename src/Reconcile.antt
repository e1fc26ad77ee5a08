-- ===== src/Reconcile.antt =====
-- Reconciliation: recoverable convergence of one TV (internal/reconcile).
pub mod Types
pub mod Validate
pub mod Inputs
pub mod Errors
pub mod Rotation
pub mod Planner
pub mod Plan
pub mod Recovery
pub mod Execution
pub mod Probe
pub mod Wake
pub mod Loop
pub mod Service
pub mod Capabilities
pub mod Migration
pub mod Protocol
pub mod Examples
