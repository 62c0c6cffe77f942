-- ===== src/Worker.antt =====
-- arcanium/api/src/worker.js: the loop of the worker. provisioning_jobs is the list of ids in the order
-- of created_at, and the row of each id.
pub mod Standing
pub mod Lifecycle
use Prim.Native.Nat.{◌%◌}
use arcanium.Prelude.{
  ℕ, zero, suc, ◌+◌, ◌-◌, ◌*◌, ◌/◌, ◌≤◌, ◌<◌, String, ◌≡◌, refl, sym, ap, ◌∙◌, ◌≢◌, ◌↔◌, ◌⊎◌, inl,
  inr, Bool, true, false, not, ◌&&◌, ◌||◌, Option, none, some, List, [], ◌∷◌, ◌++◌, map, arith,
  ◌==◌, eq_iff, eq_refl, ltb, leb, eqb, if◌then◌else◌, Bool-cases, Option-cases, is_some,
  or_default, truthy, length, select, any, all, first?, last?, length-append, length-select-le,
  includes, AnyOf, AllOf, agree, all-includes, includes-AnyOf, AnyOf-includes, AnyOf-map,
  AnyOf-map_all, AnyOf-elim, AllOf-select, AnyOf-select, AnyOf-selected, all-AllOf, AllOf-map,
  any-AnyOf, AllOf-iff, ◌<|>◌, first_match, first_match-AnyOf, AnyOf-first_match,
  first_match-result,
}
use arcanium.Provisioner.Steps.{
  Job, Step, Attempt, done, thrown, Store, Run, returned, raised, run_steps,
}
use arcanium.Provisioner.Dispatch.{
  JobRow, Work, Dispatch, calls, returns_failed, throws, Registry, dispatch_job,
}

pub record Jobs : Type 0 where
  pub order : List ℕ
  pub row : ℕ → Option JobRow

abbrev pub put : ℕ → JobRow → Jobs → Jobs
put id r jobs = record jobs { row = λ x. if eqb x id then some r else jobs.row x }

abbrev pub is_pending : Option JobRow → Bool
is_pending none = false
is_pending (some r) = r.job.status == "pending"

abbrev pub pick : ℕ → Option (ℕ × JobRow) → Option JobRow → Option (ℕ × JobRow)
pick id rest none = rest
pick id rest (some r) = if r.job.status == "pending" then some (id, r) else rest

-- `WHERE status = 'pending' ORDER BY created_at LIMIT 1`, on the rows that no one else has locked
unfoldable pub first_pending : List ℕ → (ℕ → Option JobRow) → Option (ℕ × JobRow)
first_pending [] row = none
first_pending (id ∷ ids) row = pick id (first_pending ids row) (row id)

abbrev pub with_status : String → JobRow → JobRow
with_status status r = record r { job = record r.job { status = status } }

-- `SET status='failed', error=$2`, with the message cut to 500 characters.
abbrev pub with_failure : String → JobRow → JobRow
with_failure message r = record r { job = record r.job { status = "failed"; error = some message } }

-- `persist`: the status, the steps and the error of the row.
abbrev pub with_job : Job → JobRow → JobRow
with_job job r = record r {
  job = record r.job { status = job.status; steps = job.steps; error = job.error };
}

abbrev put_job : ℕ → Job → Option JobRow → Jobs → Jobs
put_job id job none jobs = jobs
put_job id job (some r) jobs = put id (with_job job r) jobs

-- `saves` says of each UPDATE of a job whether it goes through; an event changes no job.
abbrev save_job : ℕ → (Job → Bool) → Job → Jobs → Jobs × Attempt
save_job id saves job jobs =
    if saves job
    then (put_job id job (jobs.row id) jobs, done none)
    else (jobs, thrown "could not save the job")

abbrev pub store_of : ℕ → (Job → Bool) → Store Jobs
store_of id saves = record {
  save = λ job jobs. save_job id saves job jobs;
  emit = λ job ev jobs. jobs;
}

-- The steps of each provisioner are an argument, as functions of the state of Vault, and so are
-- `sanitise` and the cut of a message.
module _ {V : Type 0} (registry : Registry) (steps_of : Work → List (Step V))
    (sanitise cut : String → String) (saves : Job → Bool) where
  -- The UPDATE in the `catch` block; its own error is caught.
  abbrev mark_failed : ℕ → String → Option JobRow → Jobs → Jobs
  mark_failed id message none jobs = jobs
  mark_failed id message (some r) jobs = put id (with_failure (cut message) r) jobs

  -- The job that the dispatch returns is logged only.
  abbrev settle_run : ℕ → Run V Jobs → V × Jobs
  settle_run id (returned job v jobs) = (v, jobs)
  settle_run id (raised job v jobs) = (v, mark_failed id "the run threw" (jobs.row id) jobs)

  abbrev execute : ℕ → JobRow → V → Jobs → Dispatch → V × Jobs
  execute id r v jobs (calls work) =
      settle_run id (run_steps (store_of id saves) sanitise r.job (steps_of work) v jobs)
  execute id r v jobs (returns_failed message) = (v, jobs)
  execute id r v jobs (throws message) = (v, mark_failed id message (jobs.row id) jobs)

  abbrev run_claimed : Option (ℕ × JobRow) → V → Jobs → V × Jobs
  run_claimed none v jobs = (v, jobs)
  run_claimed (some (id, r)) v jobs =
      let running = with_status "running" r in
      execute id running v (put id running jobs) (dispatch_job registry running)

  -- A round of the loop, as far as the jobs go: the claim, then the dispatch of the claimed job.
  unfoldable pub drain_one : V → Jobs → V × Jobs
  drain_one v jobs = run_claimed (first_pending jobs.order jobs.row) v jobs

  -- Rounds of the loop, between which the routes may add jobs.
  unfoldable pub drain_all : List (Jobs → Jobs) → V → Jobs → V × Jobs
  drain_all [] v jobs = (v, jobs)
  drain_all (change ∷ changes) v jobs =
      let (v', jobs') = drain_one v jobs in drain_all changes v' (change jobs')

-- The other work of a round: which of the ticks are due, by the counters behind the increments.
pub record Counters : Type 0 where
  pub ingest_tick : ℕ
  pub reconcile_tick : ℕ

pub data Duty : Type 0 where
  ingest_audit_log : Duty
  sweep_reconciliation : Duty
  sweep_offboardings : Duty
  execute_destroys : Duty

-- `Math.max(1, Math.round(WORKER_RECONCILE_MS / POLL_MS))`
abbrev pub reconcile_every_ticks : ℕ → ℕ → ℕ
reconcile_every_ticks reconcile_ms poll_ms =
    let rounded = (2 * reconcile_ms + poll_ms) / (2 * poll_ms) in
    if ltb rounded 1 then 1 else rounded

-- `++ingestTick`, `++reconcileTick`
abbrev pub count_round : Counters → Counters
count_round c = record { ingest_tick = suc c.ingest_tick; reconcile_tick = suc c.reconcile_tick }

-- The error of a duty is caught, so each that is due is done, in this order, behind the claim.
unfoldable pub next_duties : ℕ → Counters → List Duty × Counters
next_duties every c =
    let next = count_round c in
    let ingest = if eqb (next.ingest_tick % 5) 0 then ingest_audit_log ∷ [] else [] in
    let sweep =
      if eqb (next.reconcile_tick % every) 0
      then sweep_reconciliation ∷ sweep_offboardings ∷ execute_destroys ∷ []
      else [] in
    (ingest ++ sweep, next)
