-- ===== src/Tests/Governing.antt =====
-- A sweep that a supplier's admin asks for, and a reconciliation through its route.
use arcanium.Prelude.{ℕ, ◌≡◌, refl, ◌↔◌, true, some, List, [], ◌∷◌, AllOf}
use arcanium.Auth.Authorize.{
  deny, no_matching_rule, Identity, authorize, effective_roles, estate_round, cell, decide_identity,
}
use arcanium.Auth.Authorize.Duties.{HoldsCiso}
use arcanium.Auth.Scope.{tenant_scope}
use arcanium.Domain.StateMachines.{assert_transition, successors}
use arcanium.Reconciliation.Diff.{compare_rotation_period}
use arcanium.Reconciliation.Engine.{
  Row, RunRow, record_run, compare_for, run_sweep, desired_state_rows_for,
}
use arcanium.Reconciliation.Engine.Actions.{
  not_found, answered, reconcile_run, accept_exception, exception_action,
}
use arcanium.Reconciliation.Declaring.{Caller}
use arcanium.Reconciliation.Governing.{
  all_intents, refused_by, act_at, run_tenant, accept_route, reconcile_route, passed, intent_id,
  run_route, Estate,
}
use arcanium.Reconciliation.Governing.Permitted.{IsPermitted, governed_exact}
use arcanium.Reconciliation.Governing.Permitted.{whole_sweep_refused}
use arcanium.Reconciliation.Governing.Swept.{IsInScope, sweeps_stay-IsInScope}
use arcanium.Tests.Reconciling.{
  parse_day, vault_of_days, rotation_row, one_drift, recorded, after_run, confirmed,
}

abbrev sam : Identity
sam = record {
  user = "sam";
  persona = some "supplier-admin";
  roles = "supplier-admin" ∷ [];
  namespaces = "acme" ∷ [];
  tenant_scopes = "acme" ∷ [];
  scopes = [];
}

abbrev admin : Caller
admin = record { identity = some sam; groups = [] }

-- The intent of another tenant stands beside the one of acme.
abbrev other_row : Row
other_row = record rotation_row { id = 5; supplier_id = some "s9"; namespace = some "other" }

abbrev estate : Estate
estate = record {
  rows = other_row ∷ rotation_row ∷ [];
  apps = record { id = 1; supplier_id = some "s2"; environment = some "prod" } ∷ [];
  suppliers =
      record { id = "s2"; vault_namespace = "acme" }
      ∷ record { id = "s9"; vault_namespace = "other" }
      ∷ [];
}

admin_scope : tenant_scope estate.suppliers admin.identity ≡ some ("s2" ∷ [])
unfolding tenant_scope
admin_scope = refl

abbrev swept_runs : List RunRow
swept_runs = recorded 12 200 one_drift ∷ []

run_answers :
    run_route parse_day vault_of_days admin (intent_id 4) estate 90 200 one_drift
    ≡ passed (answered (swept_runs, after_run 200 one_drift))
unfolding run_route tenant_scope authorize decide_identity effective_roles estate_round cell
    run_sweep desired_state_rows_for record_run compare_for compare_rotation_period
    assert_transition successors
run_answers = refl

sweeps_stay-IsInScope_example : AllOf (IsInScope ("s2" ∷ []) estate.rows) swept_runs
sweeps_stay-IsInScope_example =
    sweeps_stay-IsInScope parse_day vault_of_days admin (intent_id 4) estate 90 200 one_drift
      (after_run 200 one_drift) ("s2" ∷ []) swept_runs admin_scope run_answers

-- The other tenant's intent is not found.
run_hides :
    run_route parse_day vault_of_days admin (intent_id 5) estate 90 200 one_drift ≡ passed not_found
unfolding run_route tenant_scope
run_hides = refl

abbrev app_expires : ℕ
app_expires = 900

governed_exact_example :
    ((reconcile_route parse_day vault_of_days admin (some 11) estate 90 200 one_drift
        ≡ passed (answered confirmed))
      ↔ (((row : Row) × (run_tenant 11 estate one_drift ≡ some row)
            × IsPermitted admin "reconcile" row estate)
          × (reconcile_run parse_day vault_of_days 11 estate.rows "sam" 200 one_drift 90
              ≡ answered confirmed)))
    × ((accept_route
            (λ reason at_. true)
            admin
            (some 11)
            (some "migration")
            (some app_expires)
            estate
            200
            one_drift
          ≡ passed (
              answered
                (exception_action 11 "sam" (some "migration") (some app_expires), one_drift)))
        ↔ ((true ≡ true)
            × ((row : Row) × (run_tenant 11 estate one_drift ≡ some row)
                × IsPermitted admin "approve" row estate)
            × (accept_exception 11 "sam" (some "migration") (some app_expires) 200 one_drift
                ≡ answered
                    (exception_action 11 "sam" (some "migration") (some app_expires), one_drift))))
    × (accept_route
            (λ reason at_. true)
            admin
            (some 11)
            (some "migration")
            (some app_expires)
            estate
            200
            one_drift
          ≡ passed (
              answered (exception_action 11 "sam" (some "migration") (some app_expires), one_drift))
        → (who : Identity) × (some sam ≡ some who) × HoldsCiso who)
governed_exact_example =
    governed_exact parse_day vault_of_days (λ reason at_. true) admin 11 (some "migration")
      (some app_expires) estate 90 200 one_drift confirmed
      (exception_action 11 "sam" (some "migration") (some app_expires), one_drift)

-- An admin of a supplier may not accept an exception.
accept_refused :
    accept_route
      (λ reason at_. true)
      admin
      (some 11)
      (some "migration")
      (some 900)
      estate
      200
      one_drift
    ≡ refused_by (authorize (some sam) (act_at "approve" rotation_row estate))
unfolding accept_route run_tenant tenant_scope authorize decide_identity effective_roles
    estate_round cell
accept_refused = refl

whole_sweep_refused_example :
    run_route parse_day vault_of_days admin all_intents estate 90 200 one_drift
    ≡ refused_by (deny (no_matching_rule ("supplier-admin" ∷ [])))
whole_sweep_refused_example =
    whole_sweep_refused parse_day vault_of_days sam [] estate 90 200 one_drift refl refl
