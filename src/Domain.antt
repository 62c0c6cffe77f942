-- ===== src/Domain.antt =====
-- arcanium/api/src/domain: the state machines that the other parts write by.
pub mod StateMachines
