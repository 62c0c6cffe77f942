-- ===== src/Maturity/Controls/Runs.antt =====
-- arcanium/api/src/maturity/controls.js: ASSESSORS and runControlAssessment, which asks every assessor
-- and appends what each one says to the log of evidence.
use arcanium.Prelude.{
  ℕ, String, Bool, true, false, not, Option, none, some, List, [], ◌∷◌, ◌++◌, ◌==◌, ltb,
  if◌then◌else◌,
}
use arcanium.Reconciliation.Json.{Json, null, bool, num, text, arr, obj, end, field}
use arcanium.Suppliers.Isolation.{Report}
use arcanium.Maturity.Controls.{
  Read, value, failed, unknown, Assessment, assessment, IntentRow, Leaving, assess_rotation_policy,
  assess_key_expiry, assess_offboarding,
}
use arcanium.Maturity.Controls.Estate.{
  assess_key_inventory, assess_tenant_isolation, ApprovalRow, assess_audit_trail, assess_governance,
  Workload, assess_workload_identity, ScenarioRun, assess_negative_authz, Features,
  assess_automation,
}

-- What the queries and the requests of one run give.
pub record Evidence : Type 0 where
  pub transit_keys : Read (List String)
  pub isolation : Read Report
  pub rotation_intents : Read (List IntentRow)
  pub expiry_intents : Read (List IntentRow)
  pub leaving : Read (List Leaving)
  pub approvals : Read (List ApprovalRow)
  pub workloads : Read (List Workload)
  pub list_roles : Option String → Read (List String)
  pub scenarios : Read (List ScenarioRun)
  pub features : Features
  pub egp : Read (List String)

-- `fn().catch((err) => [assessment({ control_id: "UNKNOWN-ERROR", ... })])`
unfoldable pub caught : String → Read (List Assessment) → List Assessment
caught assessor (value batch) = batch
caught assessor (failed message code) =
    assessment "UNKNOWN-ERROR" "estate" unknown
      (obj (field "error" (text message) (field "assessor" (text assessor) end)))
    ∷ []

-- The batches of ASSESSORS, in its order.
unfoldable pub batches : ℕ → Evidence → List (List Assessment)
batches now e =
    assess_key_inventory e.transit_keys
    ∷ caught "assessTenantIsolation" (assess_tenant_isolation now e.isolation)
    ∷ caught "assessRotationPolicy" (assess_rotation_policy now e.rotation_intents)
    ∷ caught "assessKeyExpiry" (assess_key_expiry now e.expiry_intents)
    ∷ caught "assessOffboarding" (assess_offboarding now e.leaving)
    ∷ caught "assessAuditTrail" (assess_audit_trail e.approvals)
    ∷ caught "assessWorkloadIdentity" (assess_workload_identity e.list_roles e.workloads)
    ∷ caught "assessNegativeAuthz" (assess_negative_authz now e.scenarios)
    ∷ assess_automation e.features e.egp
    ∷ caught "assessGovernance" (assess_governance e.approvals)
    ∷ []

-- `batches.flat()`
abbrev pub flat {ℓ} : {A : Type ℓ} → List (List A) → List A
flat [] = []
flat (xs ∷ xss) = xs ++ flat xss

-- `a.desired_value ? JSON.stringify(a.desired_value) : null`
abbrev is_truthy : Json → Bool
is_truthy null = false
is_truthy (bool b) = b
is_truthy (num n) = ltb 0 n
is_truthy (text s) = not (s == "")
is_truthy (arr _) = true
is_truthy (obj _) = true

abbrev kept : Option Json → Option Json
kept none = none
kept (some v) = if is_truthy v then some v else none

abbrev pub stored : Assessment → Assessment
stored a = record a { desired_value = kept a.desired_value; observed_value = kept a.observed_value }

-- The INSERTs, in order, with the newest row first; `accepts` says which of them succeed, and one
-- that fails is passed over.
module _ (accepts : Assessment → Bool) where
  unfoldable pub append_log : List Assessment → List Assessment → List Assessment
  append_log [] log = log
  append_log (a ∷ flat) log =
      let skipped = append_log flat log in
      let inserted = append_log flat (stored a ∷ log) in
      if a.control_id == "UNKNOWN-ERROR" then skipped else if accepts a then inserted else skipped

  unfoldable pub run_control_assessment :
      ℕ → Evidence → List Assessment → List Assessment × List Assessment
  run_control_assessment now e log =
      let all_of = flat (batches now e) in (all_of, append_log all_of log)
