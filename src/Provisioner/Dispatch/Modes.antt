-- ===== src/Provisioner/Dispatch/Modes.antt =====
-- arcanium/api/src/provisioner/dispatch.js: whether the worker does what a route would have done.
use Prim.Native.String
use arcanium.Prelude.{
  String, ◌≡◌, refl, ◌≢◌, inl, inr, Option, none, some, List, [], ◌∷◌, ◌==◌, eq_iff, if◌then◌else◌,
  Bool-cases, truthy, first?, AllOf,
}
use arcanium.Provisioner.Dispatch.{
  Work, rotate_key, Dispatch, calls, rows, Registry, dispatch_job, VaultRequest, rotation_requests,
  key_path, Order, new_supplier, new_application, root_rotation, tenant_rotation, job_of,
  direct_work, run_or_queue, queued, called,
}

-- The registry still has the row of the order's target.
abbrev pub IsRegistered : Registry → Order → Type 0
IsRegistered registry (new_supplier s) = registry.supplier s.id ≡ rows (s ∷ [])
IsRegistered registry (new_application a params) = registry.application a.id ≡ rows (a ∷ [])
IsRegistered registry (root_rotation name) = Unit
IsRegistered registry (tenant_rotation namespace name) = ⊥

-- For suppliers, applications and keys of the root namespace, the worker calls what the route would
-- have called, where the registry still has the row.
pub queue_matches_direct :
    (registry : Registry) (order : Order)
    → IsRegistered registry order
    → (run_or_queue "queue" order ≡ queued (job_of order))
      × (dispatch_job registry (job_of order) ≡ calls (direct_work order))
      × (run_or_queue "sync" order ≡ called (direct_work order))
unfolding dispatch_job job_of direct_work run_or_queue
queue_matches_direct registry (new_supplier s) h = (refl, rw h refl, refl)
queue_matches_direct registry (new_application a params) h = (refl, rw h refl, refl)
queue_matches_direct registry (root_rotation name) h = (refl, refl, refl)
queue_matches_direct registry (tenant_rotation namespace name) h = absurd h

-- The requests of a work, where it is a rotation.
abbrev pub requests_of : Dispatch → List VaultRequest
requests_of (calls (rotate_key name namespace)) = rotation_requests name namespace
requests_of _ = []

abbrev pub direct_requests : Work → List VaultRequest
direct_requests (rotate_key name namespace) = rotation_requests name namespace
direct_requests _ = []

abbrev pub GoesTo : Option String → VaultRequest → Type 0
GoesTo namespace r = r.namespace ≡ namespace

named_namespace :
    (namespace : String)
    → ◌≢◌ {A = String} namespace ""
    → (if truthy (some namespace) then some namespace else none) ≡ some namespace
named_namespace namespace h = elim (Bool-cases (namespace == "")) [
  | inl e ↦ absurd (h ((eq_iff namespace "").0 e))
  | inr e ↦ rw e refl
]

-- A rotation of a tenant's key goes to the tenant's namespace where the route calls it itself, and to
-- the root namespace where it is left to the worker, with the namespace as a part of the key's name.
pub queued_rotation_leaves_tenant :
    (registry : Registry) (namespace name : String)
    → ◌≢◌ {A = String} namespace ""
    → AllOf
        (GoesTo (some namespace))
        (direct_requests (direct_work (tenant_rotation namespace name)))
      × AllOf
          (GoesTo none)
          (requests_of (dispatch_job registry (job_of (tenant_rotation namespace name))))
      × (first? (requests_of (dispatch_job registry (job_of (tenant_rotation namespace name))))
          ≡ some (record {
            method = "POST";
            path = String.◌++◌ (key_path (String.◌++◌ namespace (String.◌++◌ "/" name))) "/rotate";
            namespace = none;
          }))
unfolding dispatch_job job_of direct_work rotation_requests
queued_rotation_leaves_tenant registry namespace name h =
    let own = named_namespace namespace h in ((own, (own, tt)), (refl, (refl, tt)), refl)
