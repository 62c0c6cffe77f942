-- ===== src/Tests.antt =====
-- The theorems at concrete inputs, a module for each part.
mod Accounts
mod Authorization
mod Delivering
mod Departing
mod Destroying
mod Draining
mod Identities
mod Machines
mod Maturing
mod Provisioning
mod Reconciling
mod Remembering
mod Requesting
mod Tenants
pub mod Declaring
pub mod Governing
