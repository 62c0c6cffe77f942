-- ===== src/Events/Delivery/Fanout.antt =====
-- arcanium/api/src/events/emit.js: one delivery row for each enabled endpoint that subscribes to the
-- event, before any attempt.
use arcanium.Prelude.{
  ℕ, suc, String, Bool, ◌&&◌, Option, none, some, List, [], ◌∷◌, if◌then◌else◌, select, includes,
}
use arcanium.Events.Delivery.{Delivery}

pub record Endpoint : Type 0 where
  pub id : ℕ
  pub enabled : Bool
  pub events : List String

abbrev pub known_events : List String
known_events = "reconciliation.drifted" ∷ "reconciliation.compliant" ∷ "key.expiry_approaching" ∷ []

abbrev pub subscribes : String → Endpoint → Bool
subscribes event e = e.enabled && includes e.events event

-- The table with the newest row first, and the id of its next row.
pub record Deliveries : Type 0 where
  pub rows : List Delivery
  pub next_id : ℕ

abbrev pub new_delivery : ℕ → String → String → Endpoint → Delivery
new_delivery id event hash e = record {
  id = id;
  endpoint_id = e.id;
  event = event;
  payload_hash = hash;
  attempt_count = 0;
  http_status = none;
  delivered_at = none;
  failed_at = none;
}

abbrev pub insert_delivery : String → String → Endpoint → Deliveries → Deliveries
insert_delivery event hash e t = record {
  rows = new_delivery t.next_id event hash e ∷ t.rows;
  next_id = suc t.next_id;
}

-- `records` is whether the INSERT for an endpoint goes through; an error is caught, and the next one
-- is tried. The ids of the rows whose delivery is started come first.
module _ (records : Endpoint → Bool) (event hash : String) where
  unfoldable pub record_each : List Endpoint → Deliveries → List ℕ × Deliveries
  record_each [] t = ([], t)
  record_each (e ∷ endpoints) t =
      let skipped = record_each endpoints t in
      let (ids, t') = record_each endpoints (insert_delivery event hash e t) in
      if records e then (t.next_id ∷ ids, t') else skipped

  -- `none` stands for a lookup that throws.
  unfoldable pub emit_event : Option (List Endpoint) → Deliveries → List ℕ × Deliveries
  emit_event none t = ([], t)
  emit_event (some endpoints) t =
      let fanned = record_each (select (subscribes event) endpoints) t in
      if includes known_events event then fanned else ([], t)
