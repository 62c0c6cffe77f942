-- ===== src/Reconciliation/Engine/Actions.antt =====
-- arcanium/api/src/reconciliation/engine.js: `reconcileRun`, `reconcileExpiryDate` and
-- `acceptException`, with the errors that they throw as values.
use arcanium.Prelude.{
  ℕ, String, not, ◌||◌, Option, none, some, List, [], ◌∷◌, ◌==◌, eqb, if◌then◌else◌, is_some,
  truthy,
}
use arcanium.Domain.StateMachines.{
  Checked, legal, illegal_transition, disposition_states, assert_transition,
}
use arcanium.Reconciliation.Diff.{Comparison}
use arcanium.Reconciliation.Engine.{
  Row, RunRow, ActionRow, Db, Outcome, returns, throws, Outside, record_run, compare_for, observe,
  get_disposition_for,
}

pub data Answer (A : Type 0) : Type 0 where
  answered : A → Answer A
  bad_request : Answer A
  not_found : Answer A
  -- the run has another status than DRIFTED
  conflict : String → Answer A
  failed : String → Answer A

abbrev pub find_run : ℕ → List RunRow → Option RunRow
find_run id [] = none
find_run id (r ∷ runs) = if eqb r.id id then some r else find_run id runs

abbrev pub find_row : ℕ → List Row → Option Row
find_row id [] = none
find_row id (r ∷ rows) = if eqb r.id id then some r else find_row id rows

-- A check that only a disposition that changes needs.
abbrev pub check_disposition : String → String → Checked
check_disposition current next =
    if current == next then legal else assert_transition disposition_states (some current) next

abbrev pub insert_action : ActionRow → Db → Db
insert_action a db = record db { actions = a ∷ db.actions }

pub record Reconciled (W : Type 0) : Type 0 where
  pub action : ActionRow
  pub confirmation_run : Option RunRow
  pub db : Db
  pub world : W

-- What the `try` block leaves: the result, the detail, the confirmation run.
pub record Tried (W : Type 0) : Type 0 where
  pub result : String
  pub detail : Option String
  pub confirmation : Option RunRow
  pub db : Db
  pub world : W

module _ (parse_date : String → Option ℕ) {W : Type 0} (outside : Outside W) where
  abbrev pub failing : String → Db → W → Tried W
  failing message db w = record {
    result = "failed";
    detail = some message;
    confirmation = none;
    db = db;
    world = w;
  }

  -- `compared.status !== "COMPLIANT"`
  abbrev pub confirm : Comparison → W → Outcome (RunRow × Db) → Db → Tried W
  confirm compared w (throws message) db = failing message db w
  confirm compared w (returns (run, db)) _ =
      if compared.status == "COMPLIANT"
      then record { result = "applied"; detail = none; confirmation = some run; db = db; world = w }
      else record {
        result = "failed";
        detail = some "re-observed after writing desired value";
        confirmation = some run;
        db = db;
        world = w;
      }

  abbrev pub reobserve : Row → ℕ → Db → W × Outcome Unit → Tried W
  reobserve row now db (w, throws message) = failing message db w
  reobserve row now db (w, returns _) =
      let observed = observe parse_date outside row w in
      let compared = compare_for parse_date outside now row observed in
      confirm compared w (record_run row observed compared now db) db

  abbrev pub apply_checked : Row → ℕ → Db → W → Checked → Tried W
  apply_checked row now db w (illegal_transition from to) = failing "illegal transition" db w
  apply_checked row now db w legal = reobserve row now db (outside.apply_rotation_period row w)

  -- `APPLIERS` has one entry.
  unfoldable pub try_apply : Row → RunRow → ℕ → Db → W → Tried W
  try_apply row run now db w =
      if row.requirement == "rotation_period"
      then apply_checked row now db w (
          check_disposition (get_disposition_for run.desired_state_id run.status now db)
            "RECONCILED")
      else failing "no applier registered for requirement" db w

  abbrev pub note_request : Db → W × Outcome ℕ → Tried W
  note_request db (w, throws message) = failing message db w
  note_request db (w, returns approval) = record {
    result = "applied";
    detail = some "destroy_request approval submitted";
    confirmation = none;
    db = db;
    world = w;
  }

  abbrev pub conclude : ℕ → String → Tried W → Reconciled W
  conclude run_id actor tried =
      let action : ActionRow = record {
        run_id = run_id;
        action = "reconcile";
        actor = actor;
        result = tried.result;
        reason = tried.detail;
        expires_at = none;
      } in
      record {
        action = action;
        confirmation_run = tried.confirmation;
        db = insert_action action tried.db;
        world = tried.world;
      }

  unfoldable pub reconcile_expiry_date : ℕ → Row → String → Db → W → Reconciled W
  reconcile_expiry_date run_id row actor db w =
      conclude run_id actor (note_request db (outside.request_key_destroy row actor w))

  abbrev reconcile_drifted : RunRow → Row → String → ℕ → Db → W → Reconciled W
  reconcile_drifted run row actor now db w =
      if row.requirement == "expiry_date"
      then reconcile_expiry_date run.id row actor db w
      else conclude run.id actor (try_apply row run now db w)

  abbrev reconcile_owned : RunRow → Option Row → String → ℕ → Db → W → Answer (Reconciled W)
  reconcile_owned run none actor now db w = not_found
  reconcile_owned run (some row) actor now db w =
      if run.status == "DRIFTED"
      then answered (reconcile_drifted run row actor now db w)
      else conflict run.status

  abbrev reconcile_found : Option RunRow → List Row → String → ℕ → Db → W → Answer (Reconciled W)
  reconcile_found none rows actor now db w = not_found
  reconcile_found (some run) rows actor now db w =
      reconcile_owned run (find_row run.desired_state_id rows) actor now db w

  unfoldable pub reconcile_run : ℕ → List Row → String → ℕ → Db → W → Answer (Reconciled W)
  reconcile_run run_id rows actor now db w =
      reconcile_found (find_run run_id db.runs) rows actor now db w

abbrev pub exception_action : ℕ → String → Option String → Option ℕ → ActionRow
exception_action run_id actor reason expires_at = record {
  run_id = run_id;
  action = "accept_exception";
  actor = actor;
  result = "applied";
  reason = reason;
  expires_at = expires_at;
}

abbrev accept_checked :
    RunRow → String → Option String → Option ℕ → Db → Checked → Answer (ActionRow × Db)
accept_checked run actor reason expires_at db (illegal_transition from to) =
    failed "illegal transition"
accept_checked run actor reason expires_at db legal =
    let action = exception_action run.id actor reason expires_at in
    answered (action, insert_action action db)

abbrev accept_found :
    Option RunRow → String → Option String → Option ℕ → ℕ → Db → Answer (ActionRow × Db)
accept_found none actor reason expires_at now db = not_found
accept_found (some run) actor reason expires_at now db =
    if run.status == "DRIFTED"
    then accept_checked run actor reason expires_at db (
        check_disposition (get_disposition_for run.desired_state_id run.status now db)
          "EXCEPTION_ACCEPTED")
    else conflict run.status

unfoldable pub accept_exception :
    ℕ → String → Option String → Option ℕ → ℕ → Db → Answer (ActionRow × Db)
accept_exception run_id actor reason expires_at now db =
    if not (truthy reason) || not (is_some expires_at)
    then bad_request
    else accept_found (find_run run_id db.runs) actor reason expires_at now db
