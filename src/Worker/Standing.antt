-- ===== src/Worker/Standing.antt =====
-- arcanium/api/src/worker.js: what the rounds of the loop leave as it is.
use arcanium.Prelude.{
  ℕ, String, ◌≡◌, refl, sym, ap, ◌∙◌, ◌≢◌, inl, inr, Bool, true, false, Option, none, some, List,
  [], ◌∷◌, arith, ◌==◌, eq_iff, eqb, Bool-cases, AllOf,
}
use mathlib.Core.Path.{subst}
use arcanium.Provisioner.Steps.{Job, Step, Run, returned, raised, run_steps}
use arcanium.Provisioner.Steps.Keeps.{database_of, run_steps-keeps}
use arcanium.Provisioner.Dispatch.{
  JobRow, Work, Dispatch, calls, returns_failed, throws, Registry, dispatch_job,
}
use arcanium.Worker.{
  pick, Jobs, put, first_pending, with_status, store_of, put_job, save_job, mark_failed, settle_run,
  execute, run_claimed, drain_one, drain_all,
}

pub put_other :
    (id other : ℕ) (r : JobRow) (jobs : Jobs)
    → eqb other id ≡ false
    → (put id r jobs).row other ≡ jobs.row other
put_other id other r jobs e = rw e refl

eqb_refl : (n : ℕ) → eqb n n ≡ true
eqb_refl n = ground arith

pub put_same : (id : ℕ) (r : JobRow) (jobs : Jobs) → (put id r jobs).row id ≡ some r
put_same id r jobs = rw (eqb_refl id) refl

put_job-other :
    (id other : ℕ) (job : Job) (o : Option JobRow) (jobs : Jobs)
    → eqb other id ≡ false
    → (put_job id job o jobs).row other ≡ jobs.row other
put_job-other id other job none jobs e = refl
put_job-other id other job (some r) jobs e = rw e refl

-- A save of one job leaves the other rows.
save_job-other :
    (id other : ℕ) (saves : Job → Bool) (job : Job) (jobs : Jobs)
    → eqb other id ≡ false
    → (save_job id saves job jobs).0.row other ≡ jobs.row other
save_job-other id other saves job jobs e = elim (Bool-cases (saves job)) [
  | inl yes_saved ↦ rw yes_saved (put_job-other id other job (jobs.row id) jobs e)
  | inr not_saved ↦ rw not_saved refl
]

-- The claimed row is pending.
abbrev pub IsClaimOf : (ℕ → Option JobRow) → ℕ → JobRow → Type 0
IsClaimOf row id r = (row id ≡ some r) × (r.job.status ≡ "pending")

abbrev IsClaimed : (ℕ → Option JobRow) → Option (ℕ × JobRow) → Type 0
IsClaimed row none = ⊥
IsClaimed row (some (id, r)) = IsClaimOf row id r

same_claim :
    (row : ℕ → Option JobRow) (x id : ℕ) (q r : JobRow)
    → IsClaimOf row x q
    → ◌≡◌ {A = Option (ℕ × JobRow)} (some (x, q)) (some (id, r))
    → IsClaimOf row id r
same_claim row x id q r h e = subst (IsClaimed row) e h

picked :
    (row : ℕ → Option JobRow) (x id : ℕ) (r : JobRow) (rest : Option (ℕ × JobRow))
    (o : Option JobRow)
    → row x ≡ o
    → (rest ≡ some (id, r) → IsClaimOf row id r)
    → pick x rest o ≡ some (id, r)
    → IsClaimOf row id r
picked row x id r rest none e below = below
picked row x id r rest (some q) e below = elim (Bool-cases (q.job.status == "pending")) [
  | inl waits ↦
      rw waits (λ h. same_claim row x id q r (e, (eq_iff q.job.status "pending").0 waits) h)
  | inr other ↦ rw other below
]

pub first_pending-IsClaimOf :
    (ids : List ℕ) (row : ℕ → Option JobRow) (id : ℕ) (r : JobRow)
    → first_pending ids row ≡ some (id, r)
    → IsClaimOf row id r
unfolding first_pending
first_pending-IsClaimOf [] row id r h = absurd (cc)
first_pending-IsClaimOf (x ∷ ids) row id r h =
    picked row x id r (first_pending ids row) (row x) refl (first_pending-IsClaimOf ids row id r) h

pub same_number : (a b : ℕ) → eqb a b ≡ true → a ≡ b
same_number a b h = ground arith

contradicts : {b : Bool} → b ≡ false → b ≡ true → ⊥
contradicts e f = absurd (cc)

busy_clash :
    (q r : JobRow) → q ≡ r → r.job.status == "pending" ≡ false → q.job.status ≡ "pending" → ⊥
busy_clash q r e busy waits =
    contradicts busy ((eq_iff r.job.status "pending").1 (ap (λ x. x.job.status) (sym e) ∙ waits))

waiting_clash :
    (q r : JobRow)
    → some q ≡ some r
    → r.job.status == "pending" ≡ false
    → q.job.status ≡ "pending"
    → ⊥
waiting_clash q r e busy waits = absurd (busy_clash q r (cc) busy waits)

clash :
    (row : ℕ → Option JobRow) (id other : ℕ) (q r : JobRow)
    → other ≡ id
    → row other ≡ some r
    → row id ≡ some q
    → r.job.status == "pending" ≡ false
    → q.job.status ≡ "pending"
    → ⊥
clash row id other q r e here there busy waits =
    waiting_clash q r (sym there ∙ (ap row (sym e) ∙ here)) busy waits

not_pending : (s : String) → s ≢ "pending" → s == "pending" ≡ false
not_pending s h = elim (Bool-cases (s == "pending")) [
  | inl e ↦ absurd (h ((eq_iff s "pending").0 e))
  | inr e ↦ e
]

-- A row that is not pending is not the one that is claimed.
other_id :
    (row : ℕ → Option JobRow) (id other : ℕ) (q r : JobRow)
    → row other ≡ some r
    → r.job.status == "pending" ≡ false
    → IsClaimOf row id q
    → eqb other id ≡ false
other_id row id other q r here busy (there, waits) = elim (Bool-cases (eqb other id)) [
  | inl same ↦ absurd (clash row id other q r (same_number other id same) here there busy waits)
  | inr e ↦ e
]

module _ {V : Type 0} (registry : Registry) (steps_of : Work → List (Step V))
    (sanitise cut : String → String) (saves : Job → Bool) where
  mark_failed-other :
      (id other : ℕ) (message : String) (o : Option JobRow) (jobs : Jobs)
      → eqb other id ≡ false
      → (mark_failed registry steps_of sanitise cut saves id message o jobs).row other
        ≡ jobs.row other
  mark_failed-other id other message none jobs e = refl
  mark_failed-other id other message (some r) jobs e = rw e refl

  settle_run-other :
      (id other : ℕ) (run : Run V Jobs)
      → eqb other id ≡ false
      → (settle_run registry steps_of sanitise cut saves id run).1.row other
        ≡ (database_of run).row other
  settle_run-other id other (returned job v jobs) e = refl
  settle_run-other id other (raised job v jobs) e =
      mark_failed-other id other "the run threw" (jobs.row id) jobs e

  pub execute-other :
      (id other : ℕ) (r : JobRow) (v : V) (jobs : Jobs) (d : Dispatch)
      → eqb other id ≡ false
      → (execute registry steps_of sanitise cut saves id r v jobs d).1.row other ≡ jobs.row other
  execute-other id other r v jobs (calls work) e =
      settle_run-other id other
        (run_steps (store_of id saves) sanitise r.job (steps_of work) v jobs) e
      ∙ run_steps-keeps (store_of id saves) sanitise (λ later. later.row other ≡ jobs.row other)
          (λ job later kept. save_job-other id other saves job later e ∙ kept)
          (λ job ev later kept. kept) r.job (steps_of work) v jobs refl
  execute-other id other r v jobs (returns_failed message) e = refl
  execute-other id other r v jobs (throws message) e =
      mark_failed-other id other message (jobs.row id) jobs e

  pub claimed_other :
      (claim : Option (ℕ × JobRow)) (other : ℕ) (v : V) (jobs : Jobs)
      → ((id : ℕ) (q : JobRow) → claim ≡ some (id, q) → eqb other id ≡ false)
      → (run_claimed registry steps_of sanitise cut saves claim v jobs).1.row other ≡ jobs.row other
  claimed_other none other v jobs apart = refl
  claimed_other (some (id, q)) other v jobs apart =
      let running = with_status "running" q in
      let e = apart id q refl in
      execute-other id other running v (put id running jobs) (dispatch_job registry running) e
      ∙ put_other id other running jobs e

  -- A round leaves each row as it is that is not pending.
  drain_one-keeps :
      (v : V) (jobs : Jobs) (id : ℕ) (r : JobRow)
      → jobs.row id ≡ some r
      → r.job.status == "pending" ≡ false
      → (drain_one registry steps_of sanitise cut saves v jobs).1.row id ≡ some r
  unfolding drain_one
  drain_one-keeps v jobs id r here busy =
      claimed_other (first_pending jobs.order jobs.row) id v jobs (λ x q e.
        other_id jobs.row x id q r here busy (first_pending-IsClaimOf jobs.order jobs.row x q e))
      ∙ here

  -- A change between two rounds that leaves the rows there are, like the creation of a job.
  abbrev pub IsAddition : (Jobs → Jobs) → Type 0
  IsAddition change =
      (jobs : Jobs) (id : ℕ) (r : JobRow) → jobs.row id ≡ some r → (change jobs).row id ≡ some r

  drain_all-keeps :
      (changes : List (Jobs → Jobs)) (v : V) (jobs : Jobs) (id : ℕ) (r : JobRow)
      → AllOf IsAddition changes
      → jobs.row id ≡ some r
      → r.job.status == "pending" ≡ false
      → (drain_all registry steps_of sanitise cut saves changes v jobs).1.row id ≡ some r
  unfolding drain_all
  drain_all-keeps [] v jobs id r adds here busy = here
  drain_all-keeps (change ∷ changes) v jobs id r (add, adds) here busy =
      let (v', jobs') = drain_one registry steps_of sanitise cut saves v jobs in
      drain_all-keeps changes v' (change jobs') id r adds
        (add jobs' id r (drain_one-keeps v jobs id r here busy)) busy

  -- A pending job that is claimed and has no dispatcher, or whose target is gone, is left running: its
  -- row says so behind that round and behind all the rounds that follow, while the job that dispatchJob
  -- returned as failed is not saved. The routes may add jobs between the rounds.
  pub undispatched_runs_forever :
      (v : V) (jobs : Jobs) (id : ℕ) (r : JobRow) (message : String) (changes : List (Jobs → Jobs))
      → first_pending jobs.order jobs.row ≡ some (id, r)
      → dispatch_job registry (with_status "running" r) ≡ returns_failed message
      → AllOf IsAddition changes
      → (drain_all registry steps_of sanitise cut saves changes
            (drain_one registry steps_of sanitise cut saves v jobs).0
            (drain_one registry steps_of sanitise cut saves v jobs).1).1.row
          id
        ≡ some (with_status "running" r)
  unfolding drain_one
  undispatched_runs_forever v jobs id r message changes claimed refused adds =
      drain_all-keeps changes (drain_one registry steps_of sanitise cut saves v jobs).0
        (drain_one registry steps_of sanitise cut saves v jobs).1 id (with_status "running" r) adds
        (rw (claimed, refused) (put_same id (with_status "running" r) jobs)) refl

  -- No rounds change a job that is not pending when they begin, be it running or ended, whatever Vault,
  -- the database and the other jobs do. The routes may add jobs between the rounds.
  pub unqueued_job_stands :
      (changes : List (Jobs → Jobs)) (v : V) (jobs : Jobs) (id : ℕ) (r : JobRow)
      → AllOf IsAddition changes
      → jobs.row id ≡ some r
      → r.job.status ≢ "pending"
      → (drain_all registry steps_of sanitise cut saves changes v jobs).1.row id ≡ some r
  unqueued_job_stands changes v jobs id r adds here busy =
      drain_all-keeps changes v jobs id r adds here (not_pending r.job.status busy)
