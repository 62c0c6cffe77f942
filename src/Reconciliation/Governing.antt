-- ===== src/Reconciliation/Governing.antt =====
-- arcanium/api/src/routes/reconciliation.js: POST /run, POST /:run_id/reconcile and POST
-- /:run_id/accept-exception, with runTenant of reconciliation/engine.js. A malformed id is `none`; the
-- test of a body against the schema of the API is an argument.
pub mod Permitted
pub mod Swept
use arcanium.Prelude.{
  ℕ, zero, suc, ◌+◌, ◌-◌, ◌*◌, ◌/◌, ◌≤◌, ◌<◌, String, ◌≡◌, refl, sym, ap, ◌∙◌, ◌≢◌, ◌↔◌, ◌⊎◌, inl,
  inr, Bool, true, false, not, ◌&&◌, ◌||◌, Option, none, some, List, [], ◌∷◌, ◌++◌, map, arith,
  ◌==◌, eq_iff, eq_refl, ltb, leb, eqb, if◌then◌else◌, Bool-cases, Option-cases, is_some,
  or_default, truthy, length, select, any, all, first?, last?, length-append, length-select-le,
  includes, AnyOf, AllOf, agree, all-includes, includes-AnyOf, AnyOf-includes, AnyOf-map,
  AnyOf-map_all, AnyOf-elim, AllOf-select, AnyOf-select, AnyOf-selected, all-AllOf, AllOf-map,
  any-AnyOf, AllOf-iff, ◌<|>◌, first_match, first_match-AnyOf, AnyOf-first_match,
  first_match-result,
}
use arcanium.Auth.Authorize.{Identity, Decision, Request, deny, authorize}
use arcanium.Auth.Scope.{Supplier, tenant_scope}
use arcanium.Reconciliation.Engine.{
  Row, RunRow, ActionRow, Db, Outcome, returns, throws, Outside, run_sweep, Selection, one_row,
  of_suppliers, whole_estate, desired_state_rows_for,
}
use arcanium.Reconciliation.Engine.Actions.{
  Answer, answered, bad_request, not_found, failed, find_run, find_row, Reconciled, reconcile_run,
  accept_exception,
}
use arcanium.Reconciliation.Declaring.{
  OwnedApp, Caller, find_owned, environment_of, is_outside, user_of,
}

-- The tables that the routes read: the intents, each with its tenant, the applications, the suppliers.
pub record Estate : Type 0 where
  pub rows : List Row
  pub apps : List OwnedApp
  pub suppliers : List Supplier

-- A 403 with the decision, or what comes after the checks.
pub data Governed (A : Type 0) : Type 0 where
  refused_by : Decision → Governed A
  passed : Answer A → Governed A

abbrev row_of_run : Option RunRow → List Row → Option Row
row_of_run none rows = none
row_of_run (some run) rows = find_row run.desired_state_id rows

-- `runTenant`
unfoldable pub run_tenant : ℕ → Estate → Db → Option Row
run_tenant run_id e db = row_of_run (find_run run_id db.runs) e.rows

abbrev pub act_at : String → Row → Estate → Request
act_at action row e = record {
  action = action;
  tenant = row.namespace;
  env = environment_of (find_owned row.application_id e.apps);
  team = none;
}

abbrev pub if_allowed : {A : Type 0} → Decision → Answer A → Governed A
if_allowed (deny why) next = refused_by (deny why)
if_allowed _ next = passed next

-- The checks that the three routes make of a run's or an intent's tenant.
abbrev pub if_owned : {A : Type 0} → Caller → String → Option Row → Estate → Answer A → Governed A
if_owned caller action none e next = passed not_found
if_owned caller action (some row) e next =
    if is_outside (tenant_scope e.suppliers caller.identity) row.supplier_id
    then passed not_found
    else if_allowed (authorize caller.identity (act_at action row e)) next

-- What `runSweep` throws is an error of the server.
abbrev pub swept : Outcome (List RunRow × Db) → Answer (List RunRow × Db)
swept (returns x) = answered x
swept (throws message) = failed message

-- `scope.scoped ? { supplierIds: scope.supplierIds } : {}`
abbrev pub scope_selection : Option (List String) → Selection
scope_selection none = whole_estate
scope_selection (some ids) = of_suppliers ids

-- The intent that the body of POST /run names.
pub data Target : Type 0 where
  all_intents : Target
  malformed_id : Target
  intent_id : ℕ → Target

abbrev pub read_anywhere : Request
read_anywhere = record { action = "read"; tenant = none; env = none; team = none }

module _ (parse_date : String → Option ℕ) {W : Type 0} (outside : Outside W) where
  abbrev pub sweep_chosen : Selection → Estate → W → ℕ → Db → Answer (List RunRow × Db)
  sweep_chosen selection e w now db =
      swept (run_sweep parse_date outside (desired_state_rows_for selection e.rows) w now db)

  -- POST /run
  unfoldable pub run_route : Caller → Target → Estate → W → ℕ → Db → Governed (List RunRow × Db)
  run_route caller malformed_id e w now db = passed bad_request
  run_route caller (intent_id id) e w now db =
      if_owned caller "read" (find_row id e.rows) e (sweep_chosen (one_row id) e w now db)
  run_route caller all_intents e w now db =
      if_allowed (authorize caller.identity read_anywhere)
        (sweep_chosen (scope_selection (tenant_scope e.suppliers caller.identity)) e w now db)

  -- POST /:run_id/reconcile
  unfoldable pub reconcile_route : Caller → Option ℕ → Estate → W → ℕ → Db → Governed (Reconciled W)
  reconcile_route caller none e w now db = passed bad_request
  reconcile_route caller (some run_id) e w now db =
      if_owned caller "reconcile" (run_tenant run_id e db) e
        (reconcile_run parse_date outside run_id e.rows (user_of caller.identity) now db w)

module _ (fits_schema : Option String → Option ℕ → Bool) where
  abbrev pub accept_for :
      Caller → Option ℕ → Option String → Option ℕ → Estate → ℕ → Db → Governed (ActionRow × Db)
  accept_for caller none reason expires_at e now db = passed bad_request
  accept_for caller (some run_id) reason expires_at e now db =
      if_owned caller "approve" (run_tenant run_id e db) e
        (accept_exception run_id (user_of caller.identity) reason expires_at now db)

  -- POST /:run_id/accept-exception
  unfoldable pub accept_route :
      Caller → Option ℕ → Option String → Option ℕ → Estate → ℕ → Db → Governed (ActionRow × Db)
  accept_route caller run_id reason expires_at e now db =
      if fits_schema reason expires_at
      then accept_for caller run_id reason expires_at e now db
      else passed bad_request
