-- ===== src/Tests/Maturing.antt =====
-- A maturity report of a small estate, and of one with a single tenant.
use arcanium.Prelude.{
  ◌≤◌, ◌≡◌, refl, ◌↔◌, Bool, true, false, none, some, List, [], ◌∷◌, arith, AllOf,
}
use arcanium.Reconciliation.Json.{num}
use arcanium.Suppliers.Isolation.{no_note}
use arcanium.Maturity.Controls.{
  pass, not_applicable, Assessment, assessment, value, IntentRow, detail_of, assess_rotation_policy,
  assess_key_expiry, assess_offboarding, freshness_seconds, judge_intent, judge_leaving,
  status_of_run,
}
use arcanium.Maturity.Controls.Estate.{
  ApprovalRow, ScenarioRun, assess_key_inventory, assess_tenant_isolation, assess_audit_trail,
  assess_workload_identity, find_missing, add_workload, assess_automation, assess_governance,
  assess_negative_authz, by_namespace, isolation_status, missing_roles, scenario_status,
  sentinel_egp_names,
}
use arcanium.Maturity.Controls.Runs.{Evidence, run_control_assessment, batches, caught, append_log}
use arcanium.Maturity.Levels.{
  mandatory_controls, rollup_by_control, gated_level, compute_coverage, status_of, gated_from,
  passes, by_control, add_row, worst_case,
}
use arcanium.Maturity.Rounding.{round_percent, to_nearest_even, quotient_scale, product_unit}
use arcanium.Maturity.Levels.Rollups.{IsEvidenced}
use arcanium.Maturity.Levels.Report.{compute_maturity}
use arcanium.Maturity.Levels.Bounds.{IsShare, applicable_count, evidenced_count, coverage_bounds}
use arcanium.Maturity.Levels.Standing.{maturity_exact, inapplicable_caps}

abbrev accept_all : Assessment → Bool
accept_all a = true

abbrev intent : IntentRow
intent = record {
  id = 1;
  app_name = "payments";
  vault_namespace = none;
  key_name = "card";
  desired_value = num 30;
  latest = some (record {
    run_id = 7;
    verdict = "COMPLIANT";
    observed_value = num 30;
    observed_at = 10000000;
  });
}

abbrev scenario : ScenarioRun
scenario = record { passed = 12; failed_count = 0; unknown_count = 0; ran_at = 9000000 }

abbrev approval : ApprovalRow
approval = record {
  source = some "ui";
  requester = some "ann";
  status = "approved";
  accessor = some "acc";
}

abbrev estate : Evidence
estate = record {
  transit_keys = value ("card" ∷ []);
  isolation = value (record {
    verified = true;
    checked_at = 10000000;
    tenants = "Acme" ∷ "Zenith" ∷ [];
    directions = [];
    own_controls_ok = some true;
    note = no_note;
  });
  rotation_intents = value (intent ∷ []);
  expiry_intents = value [];
  leaving = value [];
  approvals = value (approval ∷ []);
  workloads = value (record { name = "payments"; vault_namespace = none } ∷ []);
  list_roles = λ ns. value ("payments-workload" ∷ []);
  scenarios = value (scenario ∷ []);
  features = record {
    features = "Sentinel" ∷ [];
    sentinel = true;
    managed_keys = false;
    control_groups = false;
    namespaces = false;
    source = "vault:sys/license/status";
  };
  egp = value ("rotation-from-automation" ∷ []);
}

-- The expiry of keys is unknown, so the level is 4.
estate_level : (compute_maturity accept_all 10001000 estate [] [] []).0.level ≡ 4
unfolding compute_maturity gated_level status_of rollup_by_control run_control_assessment gated_from
    passes by_control batches assess_key_inventory caught assess_tenant_isolation
    assess_rotation_policy assess_key_expiry assess_offboarding assess_audit_trail
    assess_workload_identity find_missing add_workload assess_automation assess_governance
    assess_negative_authz by_namespace isolation_status missing_roles scenario_status
    sentinel_egp_names append_log freshness_seconds judge_intent judge_leaving status_of_run add_row
    worst_case
estate_level = refl

maturity_exact_example :
    (4 ≤ (compute_maturity accept_all 10001000 estate [] [] []).0.level)
    ↔ AllOf
        (IsEvidenced (run_control_assessment accept_all 10001000 estate []).0)
        (mandatory_controls 4)
maturity_exact_example =
    maturity_exact accept_all 10001000 estate [] [] [] 4 (omega arith) (omega arith)

estate_reaches : 3 ≤ (compute_maturity accept_all 10001000 estate [] [] []).0.level
estate_reaches = omega (arith, estate_level)

abbrev single : List Assessment
single =
    assessment "KEY-INV-01" "estate" pass (detail_of "listed")
    ∷ assessment "TEN-ISO-01" "estate" not_applicable (detail_of "one tenant")
    ∷ []

inapplicable_caps_example : gated_level (rollup_by_control single) ≤ 1
inapplicable_caps_example =
    inapplicable_caps single ((λ h. absurd (ground arith)), ((λ h. refl), tt))

coverage_bounds_example :
    IsShare (evidenced_count single) (applicable_count single) (compute_coverage single)
coverage_bounds_example = coverage_bounds single (omega arith)

-- In doubles, 29 / 200 * 100 is a little less than 14.5.
rounded_down : round_percent 29 200 ≡ 14
unfolding round_percent to_nearest_even quotient_scale product_unit
rounded_down = refl

rounded_up : round_percent 1 8 ≡ 13
unfolding round_percent to_nearest_even quotient_scale product_unit
rounded_up = refl

two_thirds : round_percent 2 3 ≡ 67
unfolding round_percent to_nearest_even quotient_scale product_unit
two_thirds = refl
