-- ===== src/Tests/Departing.antt =====
-- An application that leaves.
use arcanium.Prelude.{refl, ◌↔◌, false, none, some, [], ◌∷◌, AllOf}
use arcanium.Reconciliation.Observe.{key_error}
use arcanium.Offboarding.{
  find_member, Member, Desired, DestroyRequest, Books, Reads, check_offboarding_completion,
}
use arcanium.Offboarding.Closing.{IsSettledRow, IsArchivedRow, IsOffboarded, completion_exact}
use arcanium.Offboarding.Closed.{
  AreClosed, Operation, initiate, check, sweep, Moment, perform_all, closed_stays_closed,
}

abbrev leaving : Member
leaving = record {
  id = 1;
  supplier_id = none;
  offboarding_initiated_at = some 100;
  offboarded_at = none;
}

abbrev card : Desired
card = record { id = 10; application_id = 1; key_name = "card"; archived_at = none }

abbrev executed_request : DestroyRequest
executed_request = record {
  id = 5;
  app_id = 1;
  key_name = "card";
  action = "revoke";
  requester = "ann";
  supplier_id = none;
  pinned_key_version = some 3;
  status = "approved";
  executed_at = some 150;
}

abbrev books : Books
books = record {
  applications = leaving ∷ [];
  desired = card ∷ [];
  profiles = [];
  suppliers = [];
  requests = executed_request ∷ [];
  next_request = 6;
}

completion_exact_example :
    (IsOffboarded 1 (check_offboarding_completion 1 200 books).1.applications
      ↔ AllOf (IsSettledRow 1 (executed_request ∷ [])) (card ∷ []))
    × (IsOffboarded 1 (check_offboarding_completion 1 200 books).1.applications
        → AllOf (IsArchivedRow 1) (check_offboarding_completion 1 200 books).1.desired)
unfolding find_member
completion_exact_example = completion_exact 1 200 books leaving refl refl

abbrev reads : Reads
reads = record {
  get_key = λ ns path. key_error (some 404) "gone";
  latest_version = λ ns name. none;
  ends_in = λ path name. false;
}

abbrev moment : Operation → Moment
moment o = record { reads = reads; today = "2026-01-01"; now = 200; operation = o }

closed_stays_closed_example :
    AreClosed (perform_all (moment (initiate 1 none) ∷ moment sweep ∷ moment (check 1) ∷ []) books)
closed_stays_closed_example =
    closed_stays_closed (moment (initiate 1 none) ∷ moment sweep ∷ moment (check 1) ∷ []) books
      ((λ h. absurd (cc)), tt)
