-- ===== src/Reconciliation.antt =====
-- arcanium/api/src/reconciliation: what should be, what is, and what is done about it.
pub mod Json
pub mod Observe
pub mod Diff
pub mod Engine
pub mod Intent
pub mod Declaring
pub mod Governing
