-- ===== src/Tests/Draining.antt =====
-- The worker's rounds over a job that no provisioner takes, and a tenant's rotation in both modes.
use arcanium.Prelude.{
  ◌≢◌, ℕ, String, ◌≡◌, refl, Bool, true, none, some, List, [], ◌∷◌, arith, eq_iff, eqb,
  if◌then◌else◌, first?, AllOf,
}
use arcanium.Reconciliation.Json.{obj, end}
use arcanium.Provisioner.Steps.{Job, Step}
use arcanium.Provisioner.Dispatch.{
  SupplierRow, JobRow, Work, Registry, rows, new_supplier, tenant_rotation, dispatch_job, job_of,
  direct_work, create_job, returns_failed, queued, called, calls, run_or_queue,
}
use arcanium.Provisioner.Dispatch.Modes.{
  GoesTo, requests_of, direct_requests, queue_matches_direct, queued_rotation_leaves_tenant,
}
use arcanium.Worker.{Jobs, first_pending, with_status, drain_one, drain_all}
use arcanium.Worker.Lifecycle.{Follows, drain_refines}
use arcanium.Worker.Standing.{undispatched_runs_forever, unqueued_job_stands}

abbrev acme : SupplierRow
acme = record {
  id = "s1";
  name = "Acme";
  vault_namespace = some "acme";
  sla_tier = some "standard";
}

abbrev registry : Registry
registry = record { supplier = λ id. rows (acme ∷ []); application = λ id. rows [] }

queue_matches_direct_example :
    (run_or_queue "queue" (new_supplier acme) ≡ queued (job_of (new_supplier acme)))
    × (dispatch_job registry (job_of (new_supplier acme)) ≡ calls (direct_work (new_supplier acme)))
    × (run_or_queue "sync" (new_supplier acme) ≡ called (direct_work (new_supplier acme)))
queue_matches_direct_example = queue_matches_direct registry (new_supplier acme) refl

queued_rotation_leaves_tenant_example :
    AllOf (GoesTo (some "acme")) (direct_requests (direct_work (tenant_rotation "acme" "card")))
    × AllOf
        (GoesTo none)
        (requests_of (dispatch_job registry (job_of (tenant_rotation "acme" "card"))))
    × (first? (requests_of (dispatch_job registry (job_of (tenant_rotation "acme" "card"))))
        ≡ some
            (record { method = "POST"; path = "transit/keys/acme/card/rotate"; namespace = none }))
queued_rotation_leaves_tenant_example =
    queued_rotation_leaves_tenant registry "acme" "card"
      (λ e. absurd (ground (arith, eq_iff "acme" "")))

-- A job whose target is no supplier, application or key.
abbrev odd_job : JobRow
odd_job = create_job "pki" "role" "role" "issue" (obj end)

abbrev one_job : Jobs
one_job = record { order = 7 ∷ []; row = λ id. if eqb id 7 then some odd_job else none }

abbrev no_steps : Work → List (Step ℕ)
no_steps work = []

abbrev same : String → String
same message = message

abbrev all_saved : Job → Bool
all_saved job = true

abbrev no_change : Jobs → Jobs
no_change jobs = jobs

claimed : first_pending one_job.order one_job.row ≡ some (7, odd_job)
unfolding first_pending
claimed = refl

refused :
    dispatch_job registry (with_status "running" odd_job)
    ≡ returns_failed "no dispatcher for pki/issue"
unfolding dispatch_job
refused = refl

undispatched_runs_forever_example :
    (drain_all registry no_steps same same all_saved
        (no_change ∷ no_change ∷ [])
        (drain_one registry no_steps same same all_saved 0 one_job).0
        (drain_one registry no_steps same same all_saved 0 one_job).1).1.row
      7
    ≡ some (with_status "running" odd_job)
undispatched_runs_forever_example =
    undispatched_runs_forever registry no_steps same same all_saved 0 one_job 7 odd_job
      "no dispatcher for pki/issue" (no_change ∷ no_change ∷ []) claimed refused
      ((λ jobs id r h. h), ((λ jobs id r h. h), tt))

abbrev ended_job : JobRow
ended_job = with_status "succeeded" odd_job

abbrev ended_jobs : Jobs
ended_jobs = record { order = 7 ∷ []; row = λ id. if eqb id 7 then some ended_job else none }

ended_not_pending : ended_job.job.status ≢ "pending"
ended_not_pending e = absurd (cc)

unqueued_job_stands_example :
    (drain_all registry no_steps same same all_saved (no_change ∷ []) 0 ended_jobs).1.row 7
    ≡ some ended_job
unqueued_job_stands_example =
    unqueued_job_stands registry no_steps same same all_saved (no_change ∷ []) 0 ended_jobs 7
      ended_job ((λ jobs id r h. h), tt) refl ended_not_pending

drain_refines_example :
    Follows (one_job.row 7) ((drain_one registry no_steps same same all_saved 0 one_job).1.row 7)
drain_refines_example = drain_refines registry no_steps same same all_saved 0 one_job 7
