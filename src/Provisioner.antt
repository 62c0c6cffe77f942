-- ===== src/Provisioner.antt =====
-- arcanium/api/src/provisioner: jobs that change Vault in steps.
pub mod Steps
pub mod Dispatch
