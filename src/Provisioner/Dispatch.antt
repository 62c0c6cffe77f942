-- ===== src/Provisioner/Dispatch.antt =====
-- arcanium/api/src/provisioner/dispatch.js: which provisioner a job calls; rotateKey of
-- arcanium/api/src/provisioner/key.js; and the jobs that the routes create, with what each calls itself
-- where it does not leave the job to the worker.
pub mod Modes
use Prim.Native.String
use arcanium.Prelude.{
  ℕ, zero, suc, ◌+◌, ◌-◌, ◌*◌, ◌/◌, ◌≤◌, ◌<◌, String, ◌≡◌, refl, sym, ap, ◌∙◌, ◌≢◌, ◌↔◌, ◌⊎◌, inl,
  inr, Bool, true, false, not, ◌&&◌, ◌||◌, Option, none, some, List, [], ◌∷◌, ◌++◌, map, arith,
  ◌==◌, eq_iff, eq_refl, ltb, leb, eqb, if◌then◌else◌, Bool-cases, Option-cases, is_some,
  or_default, truthy, length, select, any, all, first?, last?, length-append, length-select-le,
  includes, AnyOf, AllOf, agree, all-includes, includes-AnyOf, AnyOf-includes, AnyOf-map,
  AnyOf-map_all, AnyOf-elim, AllOf-select, AnyOf-select, AnyOf-selected, all-AllOf, AllOf-map,
  any-AnyOf, AllOf-iff, ◌<|>◌, first_match, first_match-AnyOf, AnyOf-first_match,
  first_match-result,
}
use arcanium.Reconciliation.Json.{Json, null, bool, text, obj, end, field, get_field}
use arcanium.Provisioner.Steps.{Job, StepRecord, Step, Attempt, done, thrown}

pub record SupplierRow : Type 0 where
  pub id : String
  pub name : String
  pub vault_namespace : Option String
  pub sla_tier : Option String

pub record ApplicationRow : Type 0 where
  pub id : String
  pub name : String
  pub supplier_id : Option String

-- A row of provisioning_jobs: what runSteps changes, and the rest.
pub record JobRow : Type 0 where
  pub job : Job
  pub target_name : String
  pub params : Json

-- A call of a provisioner with its arguments.
pub data Work : Type 0 where
  provision_supplier : SupplierRow → Work
  deprovision_supplier : SupplierRow → Bool → Work
  provision_application : ApplicationRow → Json → Work
  -- the key's name and the namespace
  rotate_key : String → Option String → Work

-- What dispatchJob does: it calls, or returns the job with the status `failed`, or throws.
pub data Dispatch : Type 0 where
  calls : Work → Dispatch
  returns_failed : String → Dispatch
  throws : String → Dispatch

pub data Queried (A : Type 0) : Type 0 where
  rows : List A → Queried A
  query_error : String → Queried A

pub record Registry : Type 0 where
  pub supplier : String → Queried SupplierRow
  pub application : String → Queried ApplicationRow

abbrev text_of : Option Json → Option String
text_of (some (text s)) = some s
text_of _ = none

-- `params.force === true`
abbrev is_forced : Option Json → Bool
is_forced (some (bool b)) = b
is_forced _ = false

-- `rows[0] ?? { ... }`
abbrev supplier_or_params : JobRow → List SupplierRow → SupplierRow
supplier_or_params r (s ∷ _) = s
supplier_or_params r [] = record {
  id = r.job.target_id;
  name = r.target_name;
  vault_namespace = text_of (get_field r.params "vault_namespace");
  sla_tier = text_of (get_field r.params "sla_tier");
}

abbrev dispatch_supplier : JobRow → Queried SupplierRow → Dispatch
dispatch_supplier r (query_error message) = throws message
dispatch_supplier r (rows found) =
    if eqb (length found) 0 && r.job.action == "provision"
    then returns_failed "supplier row disappeared before the job ran"
    else if r.job.action == "deprovision"
    then calls
        (deprovision_supplier (supplier_or_params r found) (is_forced (get_field r.params "force")))
    else calls (provision_supplier (supplier_or_params r found))

abbrev dispatch_application : JobRow → Queried ApplicationRow → Dispatch
dispatch_application r (query_error message) = throws message
dispatch_application r (rows []) = returns_failed "application row not found"
dispatch_application r (rows (a ∷ _)) = calls (provision_application a r.params)

abbrev no_dispatcher : Job → String
no_dispatcher job =
    String.◌++◌ "no dispatcher for " (String.◌++◌ job.target_type (String.◌++◌ "/" job.action))

unfoldable pub dispatch_job : Registry → JobRow → Dispatch
dispatch_job registry r =
    if r.job.target_type == "supplier"
    then dispatch_supplier r (registry.supplier r.job.target_id)
    else if r.job.target_type == "application"
    then dispatch_application r (registry.application r.job.target_id)
    else if r.job.target_type == "key" && r.job.action == "rotate"
    then calls (rotate_key r.job.target_id none)
    else returns_failed (no_dispatcher r.job)

-- A request to Vault: the method, the path and the namespace, which is none for the root.
pub record VaultRequest : Type 0 where
  pub method : String
  pub path : String
  pub namespace : Option String

-- The two requests of rotateKey. An empty namespace is the root.
abbrev pub key_path : String → String
key_path name = String.◌++◌ "transit/keys/" name

unfoldable pub rotation_requests : String → Option String → List VaultRequest
rotation_requests name namespace =
    let ns = if truthy namespace then namespace else none in
    record { method = "POST"; path = String.◌++◌ (key_path name) "/rotate"; namespace = ns }
    ∷ record { method = "GET"; path = key_path name; namespace = ns }
    ∷ []

-- `createJob`: a pending row. `requested_by` and `request_id` are left out.
abbrev pub create_job : String → String → String → String → Json → JobRow
create_job target_type target_id target_name action params = record {
  job = record {
    target_type = target_type;
    target_id = target_id;
    action = action;
    status = "pending";
    steps = [];
    error = none;
  };
  target_name = target_name;
  params = params;
}

-- What a route asks for: POST /suppliers, POST /applications, POST /keys/:name/rotate and
-- POST /suppliers/:id/keys/:name/rotate.
pub data Order : Type 0 where
  new_supplier : SupplierRow → Order
  new_application : ApplicationRow → Json → Order
  root_rotation : String → Order
  -- the supplier's namespace and the key's name
  tenant_rotation : String → String → Order

abbrev text_or_null : Option String → Json
text_or_null none = null
text_or_null (some s) = text s

-- What each route hands to createJob, and its second argument of runOrQueue.
abbrev supplier_order : SupplierRow → JobRow × Work
supplier_order s = (
  create_job "supplier" s.id s.name "provision" (
      obj (
        field "vault_namespace" (text_or_null s.vault_namespace)
          (field "sla_tier" (text_or_null s.sla_tier) end))),
  provision_supplier s,
)

abbrev application_order : ApplicationRow → Json → JobRow × Work
application_order a params =
    (create_job "application" a.id a.name "provision" params, provision_application a params)

abbrev root_rotation_order : String → JobRow × Work
root_rotation_order name = (create_job "key" name name "rotate" (obj end), rotate_key name none)

abbrev tenant_rotation_order : String → String → JobRow × Work
tenant_rotation_order namespace name = (
  create_job "key" (String.◌++◌ namespace (String.◌++◌ "/" name)) name "rotate"
      (obj (field "namespace" (text namespace) end)),
  rotate_key name (some namespace),
)

abbrev handed_over : Order → JobRow × Work
handed_over (new_supplier s) = supplier_order s
handed_over (new_application a params) = application_order a params
handed_over (root_rotation name) = root_rotation_order name
handed_over (tenant_rotation namespace name) = tenant_rotation_order namespace name

unfoldable pub job_of : Order → JobRow
job_of order = (handed_over order).0

unfoldable pub direct_work : Order → Work
direct_work order = (handed_over order).1

-- runOrQueue: in the mode `queue` the job is left pending, else the provisioner is called.
pub data Started : Type 0 where
  queued : JobRow → Started
  called : Work → Started

unfoldable pub run_or_queue : String → Order → Started
run_or_queue mode order =
    if mode == "queue" then queued (job_of order) else called (direct_work order)
