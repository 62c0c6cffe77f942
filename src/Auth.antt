-- ===== src/Auth.antt =====
-- arcanium/api/src/auth: who may do what.
pub mod Authorize
pub mod Groups
pub mod Session
pub mod Accounts
pub mod Scope
