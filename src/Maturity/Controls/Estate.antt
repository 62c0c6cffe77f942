-- ===== src/Maturity/Controls/Estate.antt =====
-- arcanium/api/src/maturity/controls.js: the assessors that give one assessment of the whole estate,
-- and readFeatures of arcanium/api/src/routes/platform.js, which one of them reads.
use Prim.Native.String
use arcanium.Prelude.{
  ℕ, ◌-◌, String, Bool, true, false, not, ◌&&◌, Option, none, some, List, [], ◌∷◌, ◌++◌, ◌==◌, ltb,
  eqb, if◌then◌else◌, or_default, truthy, length, select, includes,
}
use arcanium.Reconciliation.Json.{
  Json, null, bool, num, text, arr, obj, nil, cons, Items, end, field,
}
use arcanium.Suppliers.Isolation.{
  Report, Note, no_note, too_few, not_denied, own_policy, could_not_run,
}
use arcanium.Maturity.Controls.{
  Read, value, failed, Status, pass, fail, unknown, not_applicable, Assessment, assessment,
  detail_of, when_read, freshness_seconds, reused, flagged, neg_authz_ttl_ms,
}

abbrev estate : String → Status → Json → Assessment
estate control status evidence = assessment control "estate" status evidence

abbrev error_of : String → Json
error_of message = obj (field "error" (text message) end)

abbrev method_of : String → Json
method_of m = obj (field "method" (text m) end)

abbrev texts : List String → Items
texts [] = nil
texts (x ∷ xs) = cons (text x) (texts xs)

-- A verdict that is either way a judgement.
abbrev pub holds : Bool → Status
holds true = pass
holds false = fail

-- KEY-INV-01. The error of the listing is caught here.
unfoldable pub assess_key_inventory : Read (List String) → List Assessment
assess_key_inventory (value names) =
    record (estate "KEY-INV-01" (holds (ltb 0 (length names)))
      (method_of "vault LIST transit/keys")) {
        observed_value = some (obj (field "key_count" (num (length names)) end));
      }
    ∷ []
assess_key_inventory (failed message code) = estate "KEY-INV-01" unknown (error_of message) ∷ []

-- `iso.note && /Could not run/.test(iso.note)`
abbrev says_could_not_run : Note → Bool
says_could_not_run could_not_run = true
says_could_not_run _ = false

unfoldable pub isolation_status : Report → Status
isolation_status iso =
    if ltb (length iso.tenants) 2
    then not_applicable
    else if says_could_not_run iso.note
    then unknown
    else holds iso.verified

abbrev note_text : Note → Json
note_text no_note = null
note_text too_few = text "Need at least two tenants to demonstrate a cross-tenant boundary."
note_text not_denied =
    text "A cross-tenant read was NOT denied — the boundary check failed. See directions."
note_text own_policy =
    text
      "Boundary holds. One tenant's own policy does not grant list transit/keys — a policy choice, not a breach."
note_text could_not_run = text "Could not run the live check"

-- TEN-ISO-01. The text of a note is told by its kind, the error's message at its end apart.
unfoldable pub assess_tenant_isolation : ℕ → Read Report → Read (List Assessment)
assess_tenant_isolation now = when_read (λ iso.
    record (estate "TEN-ISO-01" (isolation_status iso) (
      obj (
        field "method" (text "live cross-tenant AppRole boundary check")
          (field "checked_at" (num iso.checked_at) (field "note" (note_text iso.note) end))))) {
            observed_value = some (
                obj (
                  field "verified" (bool iso.verified)
                    (field "tenants" (arr (texts iso.tenants)) end)));
            freshness_seconds = freshness_seconds now iso.checked_at;
          }
    ∷ [])

-- A row of approval_requests, as the two assessors select it.
pub record ApprovalRow : Type 0 where
  pub source : Option String
  pub requester : Option String
  pub status : String
  pub accessor : Option String

abbrev pub is_attributed : ApprovalRow → Bool
is_attributed r = truthy r.source && truthy r.requester

abbrev judge_audit : List ApprovalRow → List Assessment
judge_audit [] = estate "AUD-01" unknown (detail_of "no approval_requests recorded yet") ∷ []
judge_audit (r ∷ rest) =
    let rows = r ∷ rest in
    let attributed = length (select is_attributed rows) in
    record (estate "AUD-01" (holds (eqb attributed (length rows)))
      (method_of "approval_requests.source/requester non-null")) {
        observed_value =
            some
              (obj (field "attributed" (num attributed) (field "total" (num (length rows)) end)));
      }
    ∷ []

-- AUD-01
unfoldable pub assess_audit_trail : Read (List ApprovalRow) → Read (List Assessment)
assess_audit_trail = when_read judge_audit

-- `r.status !== "pending" && !!r.accessor`
abbrev pub is_resolved_with_accessor : ApprovalRow → Bool
is_resolved_with_accessor r = not (r.status == "pending") && truthy r.accessor

abbrev judge_governance : List ApprovalRow → List Assessment
judge_governance [] = estate "GOV-01" unknown (detail_of "no approval_requests recorded yet") ∷ []
judge_governance (r ∷ rest) =
    let rows = r ∷ rest in
    let resolved = length (select is_resolved_with_accessor rows) in
    record (estate "GOV-01" (holds (ltb 0 resolved))
      (method_of "approval_requests.status/accessor")) {
        observed_value = some (
            obj (
              field "resolved_with_accessor" (num resolved)
                (field "total" (num (length rows)) end)));
      }
    ∷ []

-- GOV-01
unfoldable pub assess_governance : Read (List ApprovalRow) → Read (List Assessment)
assess_governance = when_read judge_governance

-- A provisioned application, and the names of one namespace's applications.
pub record Workload : Type 0 where
  pub name : String
  pub vault_namespace : Option String

abbrev same_namespace : Option String → Option String → Bool
same_namespace none none = true
same_namespace (some a) (some b) = a == b
same_namespace _ _ = false

-- `byNamespace.get(ns).push(a.name)`, with the namespaces in the order of their first application
unfoldable pub add_workload :
    Workload → List (Option String × List String) → List (Option String × List String)
add_workload a [] = (a.vault_namespace, a.name ∷ []) ∷ []
add_workload a ((ns, names) ∷ groups) =
    let rest = add_workload a groups in
    if same_namespace ns a.vault_namespace
    then (ns, names ++ a.name ∷ []) ∷ groups
    else (ns, names) ∷ rest

unfoldable pub by_namespace :
    List Workload → List (Option String × List String) → List (Option String × List String)
by_namespace [] groups = groups
by_namespace (a ∷ apps) groups = by_namespace apps (add_workload a groups)

-- `${name} (ns=${ns ?? "root"})`
abbrev missing_label : Option String → String → String
missing_label ns name =
    String.◌++◌ name (String.◌++◌ " (ns=" (String.◌++◌ (or_default ns "root") ")"))

unfoldable pub missing_roles : Option String → List String → List String → List String
missing_roles ns roles [] = []
missing_roles ns roles (name ∷ names) =
    let rest = missing_roles ns roles names in
    if includes roles (String.◌++◌ name "-workload") then rest else missing_label ns name ∷ rest

-- What the loop has found: the names without a role, and the last error that is not a 404.
pub record Found : Type 0 where
  pub missing : List String
  pub read_error : Option String

abbrev is_404 : Option ℕ → Bool
is_404 none = false
is_404 (some code) = eqb code 404

abbrev found_in : Option String → List String → Read (List String) → Found → Found
found_in ns names (value roles) found = record found {
  missing = found.missing ++ missing_roles ns roles names;
}
found_in ns names (failed message code) found =
    if is_404 code
    then record found { missing = found.missing ++ missing_roles ns [] names }
    else record found { read_error = some message }

-- `ns ? vaultRequestNs(...) : vaultRequest(...)`
abbrev listed_at : Option String → Option String
listed_at ns = if truthy ns then ns else none

module _ (list_roles : Option String → Read (List String)) where
  unfoldable pub find_missing : List (Option String × List String) → Found → Found
  find_missing [] found = found
  find_missing ((ns, names) ∷ groups) found =
      find_missing groups (found_in ns names (list_roles (listed_at ns)) found)

  abbrev judge_found : ℕ → Found → List Assessment
  judge_found provisioned found = elim found.read_error [
    | some message ↦ estate "WLI-01" unknown (error_of message) ∷ []
    | none ↦
        record (estate "WLI-01" (holds (eqb (length found.missing) 0))
          (method_of "vault LIST auth/approle/role, per Vault namespace")) {
            observed_value = some (
                obj (
                  field "provisioned" (num provisioned)
                    (field "missing_approle" (arr (texts found.missing)) end)));
          }
        ∷ []
  ]

  abbrev judge_workloads : List Workload → List Assessment
  judge_workloads [] = estate "WLI-01" unknown (detail_of "no provisioned applications yet") ∷ []
  judge_workloads (a ∷ rest) =
      judge_found (length (a ∷ rest))
        (find_missing (by_namespace (a ∷ rest) []) (record { missing = []; read_error = none }))

  -- WLI-01
  unfoldable pub assess_workload_identity : Read (List Workload) → Read (List Assessment)
  assess_workload_identity = when_read judge_workloads

-- The last recorded run of the hostile scenario.
pub record ScenarioRun : Type 0 where
  pub passed : ℕ
  pub failed_count : ℕ
  pub unknown_count : ℕ
  pub ran_at : ℕ

unfoldable pub scenario_status : ℕ → ScenarioRun → Status
scenario_status now last =
    if ltb neg_authz_ttl_ms (now - last.ran_at) then unknown else holds (eqb last.failed_count 0)

abbrev with_ran_at : ScenarioRun → Json → Json
with_ran_at last (obj fs) =
    obj (field "scenario" (text "11_security_foundation") (field "ran_at" (num last.ran_at) fs))
with_ran_at last other = other

abbrev pub judge_scenario : ℕ → List ScenarioRun → List Assessment
judge_scenario now [] =
    estate "NEG-AUTHZ-01" unknown
      (detail_of "scenarios/11_security_foundation has never recorded a run")
    ∷ []
judge_scenario now (last ∷ _) =
    let status = scenario_status now last in
    record (estate "NEG-AUTHZ-01" status
      (with_ran_at last (flagged "stale" (ltb neg_authz_ttl_ms (now - last.ran_at))))) {
        observed_value = some (
            obj (
              field "passed" (num last.passed) (
                field "failed" (num last.failed_count)
                  (field "unknown" (num last.unknown_count) end))));
        freshness_seconds = freshness_seconds now last.ran_at;
        confidence = reused status;
      }
    ∷ []

-- NEG-AUTHZ-01
unfoldable pub assess_negative_authz : ℕ → Read (List ScenarioRun) → Read (List Assessment)
assess_negative_authz now = when_read (judge_scenario now)

-- `res?.data?.autoloaded` of the license, with the features where either field has them
pub record Features : Type 0 where
  pub features : List String
  pub sentinel : Bool
  pub managed_keys : Bool
  pub control_groups : Bool
  pub namespaces : Bool
  pub source : String

abbrev features_of : Read (List String) → Features
features_of (value fs) = record {
  features = fs;
  sentinel = includes fs "Sentinel";
  managed_keys = includes fs "HSM";
  control_groups = includes fs "Control Groups";
  namespaces = includes fs "Namespaces";
  source = "vault:sys/license/status";
}
features_of (failed message code) = record {
  features = [];
  sentinel = false;
  managed_keys = false;
  control_groups = false;
  namespaces = false;
  source = "unavailable";
}

-- `let cache = null; let cacheAt = 0`
pub record FeatureCache : Type 0 where
  pub cache : Option Features
  pub cache_at : ℕ

abbrev keep_features : Features → ℕ → Features × FeatureCache
keep_features f now = (f, record { cache = some f; cache_at = now })

unfoldable pub read_features : ℕ → Read (List String) → FeatureCache → Features × FeatureCache
read_features now license c = elim c.cache [
  | none ↦ keep_features (features_of license) now
  | some f ↦
      if ltb (now - c.cache_at) 60000 then (f, c) else keep_features (features_of license) now
]

-- The error of the listing is caught, and there are no names then.
unfoldable pub sentinel_egp_names : Read (List String) → List String
sentinel_egp_names (value names) = names
sentinel_egp_names (failed message code) = []

abbrev judge_egp : List String → Assessment
judge_egp names =
    record (estate "AUTO-01" (holds (includes names "rotation-from-automation"))
      (method_of "vault LIST sys/policies/egp")) {
        observed_value = some (
            obj (
              field "egp_present" (bool (includes names "rotation-from-automation"))
                (field "egp_names" (arr (texts names)) end)));
      }

-- AUTO-01
unfoldable pub assess_automation : Features → Read (List String) → List Assessment
assess_automation features egp =
    if features.sentinel
    then judge_egp (sentinel_egp_names egp) ∷ []
    else estate "AUTO-01" not_applicable (
        obj (
          field "detail" (text "Sentinel not present in this Vault license")
            (field "source" (text features.source) end)))
      ∷ []
