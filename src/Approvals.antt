-- ===== src/Approvals.antt =====
-- arcanium/api/src: approval requests that destroy keys.
pub mod Execution
pub mod Requests
