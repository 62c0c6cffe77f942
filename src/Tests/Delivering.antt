-- ===== src/Tests/Delivering.antt =====
-- A delivery whose first attempt is refused, and whose second is accepted.
use arcanium.Prelude.{ℕ, ◌≡◌, refl, true, false, none, eqb, if◌then◌else◌}
use arcanium.Events.Delivery.{attempt_from, try_once, Delivery, response, Round, attempt_delivery}
use arcanium.Events.Delivery.Attempts.{IsEnd, delivery_ends}

abbrev fresh : Delivery
fresh = record {
  id = 1;
  endpoint_id = 2;
  event = "reconciliation.drifted";
  payload_hash = "hash";
  attempt_count = 0;
  http_status = none;
  delivered_at = none;
  failed_at = none;
}

abbrev second_succeeds : ℕ → Round
second_succeeds attempt = record {
  reply = if eqb attempt 2 then response true 200 else response false 503;
  marks = true;
  counts = true;
}

delivered_second : (attempt_delivery second_succeeds 900 true fresh).row.attempt_count ≡ 2
unfolding attempt_delivery attempt_from try_once
delivered_second = refl

delivery_ends_example :
    IsEnd second_succeeds 900 true 0 3 fresh (attempt_delivery second_succeeds 900 true fresh)
delivery_ends_example = delivery_ends second_succeeds 900 true fresh refl
