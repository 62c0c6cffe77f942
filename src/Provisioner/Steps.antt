-- ===== src/Provisioner/Steps.antt =====
-- arcanium/api/src/provisioner/steps.js: `setStatus` and `runSteps`. A step changes the state `V` of
-- Vault; saving a job and writing an event change the database `D`. Each may throw, with a message.
-- `sanitise` is an argument here, and timestamps and metrics are left out.
pub mod Outcomes
pub mod Rollback
pub mod Success
pub mod Keeps
pub mod Refines
use Prim.Native.String
use arcanium.Prelude.{
  ℕ, zero, suc, ◌+◌, ◌-◌, ◌*◌, ◌/◌, ◌≤◌, ◌<◌, String, ◌≡◌, refl, sym, ap, ◌∙◌, ◌≢◌, ◌↔◌, ◌⊎◌, inl,
  inr, Bool, true, false, not, ◌&&◌, ◌||◌, Option, none, some, List, [], ◌∷◌, ◌++◌, map, arith,
  ◌==◌, eq_iff, eq_refl, ltb, leb, eqb, if◌then◌else◌, Bool-cases, Option-cases, is_some,
  or_default, truthy, length, select, any, all, first?, last?, length-append, length-select-le,
  includes, AnyOf, AllOf, agree, all-includes, includes-AnyOf, AnyOf-includes, AnyOf-map,
  AnyOf-map_all, AnyOf-elim, ◌<|>◌, first_match, first_match-AnyOf, AnyOf-first_match,
  first_match-result,
}
use arcanium.Domain.StateMachines.{
  Checked, legal, illegal_transition, job_states, assert_transition,
}

pub record StepRecord : Type 0 where
  pub step : String
  pub status : String
  pub detail : Option String

pub record Job : Type 0 where
  pub target_type : String
  pub target_id : String
  pub action : String
  pub status : String
  pub steps : List StepRecord
  pub error : Option String

-- What a call that may throw gives.
pub data Attempt : Type 0 where
  done : Option String → Attempt
  thrown : String → Attempt

-- `{ name, run, undo? }`
pub record Step (V : Type 0) : Type 0 where
  pub name : String
  pub run : V → V × Attempt
  pub undo : Option (V → V × Attempt)

pub data Settled : Type 0 where
  settled : Job → Settled
  refused : Job → Settled

abbrev settle : Job → String → Checked → Settled
settle job next legal = settled (record job { status = next })
settle job next (illegal_transition _ _) = refused job

-- `setStatus`: a write of the same status is no transition.
unfoldable pub set_status : Job → String → Settled
set_status job next =
    if job.status == next
    then settled (record job { status = next })
    else settle job next (assert_transition job_states (some job.status) next)

-- `steps[i] = x`; JavaScript would fill a gap, and none arises.
unfoldable pub set_at {ℓ} : {A : Type ℓ} → List A → ℕ → A → List A
set_at [] i x = []
set_at (y ∷ ys) zero x = x ∷ ys
set_at (y ∷ ys) (suc i) x = y ∷ set_at ys i x

abbrev record_of : String → String → Option String → StepRecord
record_of name status detail = record { step = name; status = status; detail = detail }

abbrev pending_records : {V : Type 0} → List (Step V) → List StepRecord
pending_records [] = []
pending_records (s ∷ steps) = record_of s.name "pending" none ∷ pending_records steps

abbrev note_step : Job → ℕ → StepRecord → Job
note_step job i r = record job { steps = set_at job.steps i r }

abbrev pub has_undo : {V : Type 0} → Step V → Bool
has_undo s = is_some s.undo

-- The outside: the database's own operations.
pub record Store (D : Type 0) : Type 0 where
  pub save : Job → D → D × Attempt
  pub emit : Job → String → D → D

pub data Run (V D : Type 0) : Type 0 where
  returned : Job → V → D → Run V D
  -- an exception leaves `runSteps`
  raised : Job → V → D → Run V D

pub data Progress (V D : Type 0) : Type 0 where
  onward : Job → V → D → Progress V D
  stopped : Run V D → Progress V D

module _ {V D : Type 0} (store : Store D) (sanitise : String → String) where
  abbrev undo_record : Step V → Attempt → StepRecord
  undo_record s (done _) = record_of (String.◌++◌ "rollback: " s.name) "succeeded" none
  undo_record s (thrown msg) =
      record_of (String.◌++◌ "rollback: " s.name) "failed" (some (sanitise msg))

  abbrev undo_step : Step V → Option (V → V × Attempt) → Job → V → Job × V
  undo_step s none job v = (job, v)
  undo_step s (some undo) job v =
      let (v', result) = undo v in
      (record job { steps = job.steps ++ undo_record s result ∷ [] }, v')

  -- The steps that succeeded, the newest first; a failing `undo` does not stop the loop.
  unfoldable pub rollback : List (Step V) → Job → V → Job × V
  rollback [] job v = (job, v)
  rollback (s ∷ undoable) job v =
      let (job', v') = undo_step s s.undo job v in rollback undoable job' v'

  abbrev save_end : Job → String → V → D × Attempt → Run V D
  save_end job ev v (d, done _) = returned job v (store.emit job ev d)
  save_end job ev v (d, thrown _) = raised job v d

  abbrev finish : String → V → D → Settled → Run V D
  finish ev v d (settled job) = save_end job ev v (store.save job d)
  finish ev v d (refused job) = raised job v d

  abbrev note_failure : Step V → ℕ → String → Job → Job
  note_failure s i msg job =
      record (note_step job i (record_of s.name "failed" (some (sanitise msg)))) {
        error = some (sanitise msg);
      }

  -- The `catch` block.
  unfoldable pub fail_step : List (Step V) → Step V → ℕ → String → Job → V → D → Run V D
  fail_step undoable s i msg job v d =
      let noted = note_failure s i msg job in
      let (job', v') = rollback undoable noted v in
      finish ".failed" v' d
        (set_status job' (if any has_undo undoable then "rolled_back" else "failed"))

  -- A save that throws behind a successful step is caught too, with the step among the done ones.
  abbrev settle_pass : List (Step V) → Step V → ℕ → Job → V → D × Attempt → Progress V D
  settle_pass undoable s i job v (d, done _) = onward job v d
  settle_pass undoable s i job v (d, thrown msg) =
      stopped (fail_step (s ∷ undoable) s i msg job v d)

  abbrev settle_run : List (Step V) → Step V → ℕ → Job → D → V × Attempt → Progress V D
  settle_run undoable s i job d (v, thrown msg) = stopped (fail_step undoable s i msg job v d)
  settle_run undoable s i job d (v, done detail) =
      let passed = note_step job i (record_of s.name "succeeded" detail) in
      settle_pass undoable s i passed v (store.save passed d)

  abbrev settle_save : List (Step V) → Step V → ℕ → Job → V → D × Attempt → Progress V D
  settle_save undoable s i job v (d, thrown msg) = stopped (raised job v d)
  settle_save undoable s i job v (d, done _) = settle_run undoable s i job d (s.run v)

  -- A round of the loop.
  unfoldable pub run_step : List (Step V) → Step V → ℕ → Job → V → D → Progress V D
  run_step undoable s i job v d =
      let running = note_step job i (record_of s.name "running" none) in
      settle_save undoable s i running v (store.save running d)

  unfoldable pub run_from : List (Step V) → List (Step V) → ℕ → Job → V → D → Run V D
  run_from [] undoable i job v d = finish ".succeeded" v d (set_status job "succeeded")
  run_from (s ∷ steps) undoable i job v d =
      let round = run_step undoable s i job v d in
      elim round [
        | onward job' v' d' ↦ run_from steps (s ∷ undoable) (suc i) job' v' d'
        | stopped result ↦ result
      ]

  abbrev start : List (Step V) → Job → V → D × Attempt → Run V D
  start steps job v (d, thrown _) = raised job v d
  start steps job v (d, done _) = run_from steps [] 0 job v d

  abbrev begin : List (Step V) → V → D → Settled → Run V D
  begin steps v d (refused job) = raised job v d
  begin steps v d (settled job) =
      let listed = record job { steps = pending_records steps } in
      start steps listed v (store.save listed d)

  unfoldable pub run_steps : Job → List (Step V) → V → D → Run V D
  run_steps job steps v d = begin steps v d (set_status job "running")
