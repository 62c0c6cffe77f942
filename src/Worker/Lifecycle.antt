-- ===== src/Worker/Lifecycle.antt =====
-- arcanium/api/src/worker.js: the worker writes the status of a job by SQL of its own, beside
-- assertTransition; its rounds refine the machine of jobs all the same.
use arcanium.Prelude.{
  ℕ, String, ◌≡◌, refl, sym, ◌∙◌, ◌⊎◌, inl, inr, Bool, Option, none, some, List, eqb, Bool-cases,
}
use mathlib.Core.Path.{subst}
use arcanium.Domain.StateMachines.{job_states, assert_transition, successors}
use arcanium.Domain.StateMachines.Paths.{Writes, unwritten, write, Legal}
use arcanium.Provisioner.Steps.{Job, Step, Run, returned, raised, run_steps}
use arcanium.Provisioner.Steps.Refines.{Saves, EndsIn, run_steps-EndsIn}
use arcanium.Provisioner.Dispatch.{
  JobRow, Work, Dispatch, calls, returns_failed, throws, Registry, dispatch_job,
}
use arcanium.Worker.{
  Jobs, put, first_pending, with_status, with_failure, with_job, store_of, put_job, save_job,
  mark_failed, settle_run, execute, run_claimed, drain_one,
}
use arcanium.Worker.Standing.{
  same_number, put_same, put_other, execute-other, first_pending-IsClaimOf, IsClaimOf,
}

-- The machine of jobs, as what it allows of a status over time.
abbrev pub Moves : String → String → Type 0
Moves s t = (n : ℕ) × Writes job_states s t n

-- A row stays, or its status moves as the machine allows.
abbrev pub Follows : Option JobRow → Option JobRow → Type 0
Follows before after =
    (after ≡ before)
    ⊎ ((r : JobRow) × (q : JobRow) × (before ≡ some r)
        × (after ≡ some q)
        × Moves r.job.status q.job.status)

to_running : (s : String) → s ≡ "pending" → Legal job_states s "running"
unfolding assert_transition successors
to_running s e = rw e refl

from_running :
    (t : String)
    → (t ≡ "succeeded") ⊎ ((t ≡ "failed") ⊎ (t ≡ "rolled_back"))
    → Legal job_states "running" t
unfolding assert_transition successors
from_running t (inl e) = rw e refl
from_running t (inr (inl e)) = rw e refl
from_running t (inr (inr e)) = rw e refl

stops : (s t : String) → s ≡ t → Writes job_states s t 0
stops s t e = subst (λ x. Writes job_states s x 0) e unwritten

Moves-once : (s t : String) → s ≡ "pending" → t ≡ "running" → Moves s t
Moves-once s t e f = (1, write (to_running s e) (stops "running" t (sym f)))

Moves-twice :
    (s t : String)
    → s ≡ "pending"
    → (t ≡ "succeeded") ⊎ ((t ≡ "failed") ⊎ (t ≡ "rolled_back"))
    → Moves s t
Moves-twice s t e f = (2, write (to_running s e) (write (from_running t f) unwritten))

-- The row of the job is there, with such a status.
abbrev HasStatus : (String → Type 0) → ℕ → Jobs → Type 0
HasStatus F id jobs = (r : JobRow) × (jobs.row id ≡ some r) × F r.job.status

abbrev Running : String → Type 0
Running s = s ≡ "running"

abbrev Final : String → Type 0
Final s = (s ≡ "succeeded") ⊎ ((s ≡ "failed") ⊎ (s ≡ "rolled_back"))

put_job-HasStatus :
    (F : String → Type 0) (id : ℕ) (job : Job) (o : Option JobRow) (r : JobRow) (jobs : Jobs)
    → o ≡ some r
    → F job.status
    → HasStatus F id (put_job id job o jobs)
put_job-HasStatus F id job none r jobs e f = absurd (cc)
put_job-HasStatus F id job (some q) r jobs e f =
    (with_job job q, put_same id (with_job job q) jobs, f)

-- A save gives the row the status of the job, or throws and changes nothing.
save_job-HasStatus :
    (F G : String → Type 0) (id : ℕ) (saves : Job → Bool) (job : Job) (jobs : Jobs)
    → G job.status
    → HasStatus F id jobs
    → Saves (HasStatus F id) (HasStatus Final id) (HasStatus G id) (save_job id saves job jobs)
save_job-HasStatus F G id saves job jobs g (r, here, f) = elim (Bool-cases (saves job)) [
  | inl saved ↦ rw saved (put_job-HasStatus G id job (jobs.row id) r jobs here g)
  | inr lost ↦ rw lost (r, here, f)
]

module _ {V : Type 0} (registry : Registry) (steps_of : Work → List (Step V))
    (sanitise cut : String → String) (saves : Job → Bool) where
  mark_failed-Final :
      (id : ℕ) (message : String) (o : Option JobRow) (r : JobRow) (jobs : Jobs)
      → o ≡ some r
      → HasStatus Final id (mark_failed registry steps_of sanitise cut saves id message o jobs)
  mark_failed-Final id message none r jobs e = absurd (cc)
  mark_failed-Final id message (some q) r jobs e = (
    with_failure (cut message) q,
    put_same id (with_failure (cut message) q) jobs,
    inr (inl refl),
  )

  settle_run-Final :
      (id : ℕ) (run : Run V Jobs)
      → EndsIn (HasStatus Running id) (HasStatus Final id) run
      → HasStatus Final id (settle_run registry steps_of sanitise cut saves id run).1
  settle_run-Final id (returned job v jobs) h = h
  settle_run-Final id (raised job v jobs) (r, here, running) =
      mark_failed-Final id "the run threw" (jobs.row id) r jobs here

  -- The claimed job: behind the round its row says running, where dispatchJob returned it as failed,
  -- or has a final status.
  abbrev Settled : ℕ → Jobs → Type 0
  Settled id jobs = HasStatus Running id jobs ⊎ HasStatus Final id jobs

  execute-Settled :
      (id : ℕ) (r : JobRow) (v : V) (jobs : Jobs) (d : Dispatch)
      → r.job.status ≡ "running"
      → HasStatus Running id jobs
      → Settled id (execute registry steps_of sanitise cut saves id r v jobs d).1
  execute-Settled id r v jobs (calls work) running h = inr (
      settle_run-Final id (run_steps (store_of id saves) sanitise r.job (steps_of work) v jobs) (
        run_steps-EndsIn (store_of id saves) sanitise (HasStatus Running id) (HasStatus Final id)
          (λ job later busy kept. save_job-HasStatus Running Running id saves job later busy kept)
          (λ job later ended kept. save_job-HasStatus Running Final id saves job later ended kept)
          (λ job ev later kept. kept) r.job (steps_of work) v jobs (inr running) h))
  execute-Settled id r v jobs (returns_failed message) running h = inl h
  execute-Settled id r v jobs (throws message) running (q, here, busy) =
      inr (mark_failed-Final id message (jobs.row id) q jobs here)

  Follows-of :
      (id : ℕ) (r : JobRow) (before : Option JobRow) (jobs : Jobs)
      → before ≡ some r
      → r.job.status ≡ "pending"
      → Settled id jobs
      → Follows before (jobs.row id)
  Follows-of id r before jobs here waits (inl (q, there, running)) =
      inr (r, q, here, there, Moves-once r.job.status q.job.status waits running)
  Follows-of id r before jobs here waits (inr (q, there, ended)) =
      inr (r, q, here, there, Moves-twice r.job.status q.job.status waits ended)

  claim-Follows :
      (claim : Option (ℕ × JobRow)) (v : V) (jobs : Jobs) (id : ℕ)
      → ((x : ℕ) (q : JobRow) → claim ≡ some (x, q) → IsClaimOf jobs.row x q)
      → Follows
          (jobs.row id)
          ((run_claimed registry steps_of sanitise cut saves claim v jobs).1.row id)
  claim-Follows none v jobs id claims = inl refl
  claim-Follows (some (x, q)) v jobs id claims =
      let (here, waits) = claims x q refl in
      let running = with_status "running" q in
      let begun = put x running jobs in
      elim (Bool-cases (eqb id x)) [
        | inl same ↦
            subst
              (λ i. Follows (jobs.row i) (
                (execute registry steps_of sanitise cut saves x running v begun
                    (dispatch_job registry running)).1.row
                  i))
              (sym (same_number id x same))
              (Follows-of x q (jobs.row x)
                (execute registry steps_of sanitise cut saves x running v begun
                  (dispatch_job registry running)).1
                here waits
                (execute-Settled x running v begun (dispatch_job registry running) refl
                  (running, put_same x running jobs, refl)))
        | inr other ↦ inl (
            execute-other registry steps_of sanitise cut saves x id running v begun
              (dispatch_job registry running) other
            ∙ put_other x id running jobs other)
      ]

  -- A round of the worker refines the machine of jobs, although its SQL and the saves of runSteps do not
  -- ask assertTransition: behind it each row of provisioning_jobs is as it was, or its status has moved
  -- by legal writes of JOB_STATES, whatever Vault does and whichever saves fail.
  pub drain_refines :
      (v : V) (jobs : Jobs) (id : ℕ)
      → Follows (jobs.row id) ((drain_one registry steps_of sanitise cut saves v jobs).1.row id)
  unfolding drain_one
  drain_refines v jobs id =
      claim-Follows (first_pending jobs.order jobs.row) v jobs id
        (first_pending-IsClaimOf jobs.order jobs.row)
