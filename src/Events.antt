-- ===== src/Events.antt =====
-- arcanium/api/src/events: emit.js and deliver.js, from an event to the rows of its deliveries.
pub mod Delivery
