-- ===== src/Provisioner/Steps/Outcomes.antt =====
-- arcanium/api/src/provisioner/steps.js: in which status a job ends, and with which records.
use arcanium.Prelude.{
  ℕ, suc, String, ◌≡◌, refl, ◌∙◌, ◌⊎◌, inl, inr, Bool, true, false, Option, none, some, List, [],
  ◌∷◌, arith, eq_iff, if◌then◌else◌, any, AnyOf,
}
use arcanium.Domain.StateMachines.{job_states, legal, assert_transition, successors}
use arcanium.Provisioner.Steps.{
  Job, Step, Attempt, done, thrown, Store, Run, returned, raised, Progress, onward, stopped,
  set_status, Settled, settled, refused, has_undo, rollback, undo_step, save_end, finish, fail_step,
  run_step, run_from, run_steps, settle_save, settle_run, settle_pass, start, begin,
  pending_records, note_step, record_of, note_failure,
}

abbrev pub final_statuses : List String
final_statuses = "succeeded" ∷ "failed" ∷ "rolled_back" ∷ []

pub set_status-settled :
    (job : Job) (next : String) (j : Job) → set_status job next ≡ settled j → j.status ≡ next
unfolding set_status
set_status-settled job next j h = ground arith

abbrev pub is_done : Attempt → Bool
is_done (done _) = true
is_done (thrown _) = false

abbrev pub is_returned : {V D : Type 0} → Run V D → Bool
is_returned (returned _ _ _) = true
is_returned (raised _ _ _) = false

end_legal :
    (s next : String)
    → s ≡ "running"
    → AnyOf (λ x. x ≡ next) final_statuses
    → assert_transition job_states (some s) next ≡ legal
unfolding assert_transition successors
end_legal s next h (inl e) = rw (h, ← e) refl
end_legal s next h (inr (inl e)) = rw (h, ← e) refl
end_legal s next h (inr (inr (inl e))) = rw (h, ← e) refl
end_legal s next h (inr (inr (inr e))) = absurd e

pub set_status_end :
    (job : Job) (next : String)
    → job.status ≡ "running"
    → AnyOf (λ x. x ≡ next) final_statuses
    → set_status job next ≡ settled (record job { status = next })
unfolding set_status
set_status_end job next h m = ground (arith, end_legal job.status next h m)

from_pending :
    (s : String) → s ≡ "pending" → assert_transition job_states (some s) "running" ≡ legal
unfolding assert_transition successors
from_pending s h = rw h refl

pub start_legal :
    (job : Job)
    → (job.status ≡ "pending") ⊎ (job.status ≡ "running")
    → set_status job "running" ≡ settled (record job { status = "running" })
unfolding set_status
start_legal job (inr h) = ground (arith, eq_iff job.status "running")
start_legal job (inl h) = ground (arith, from_pending job.status h)

abbrev pub Failed : Job → Type 0
Failed j = (j.status ≡ "failed") ⊎ (j.status ≡ "rolled_back")

abbrev pub IsFinal : Job → Type 0
IsFinal j = (j.status ≡ "succeeded") ⊎ Failed j

pub Progress-cases :
    {V D : Type 0} (p : Progress V D)
    → ((job : Job) × (v : V) × (d : D) × (p ≡ onward job v d)) ⊎ ((r : Run V D) × (p ≡ stopped r))
Progress-cases (onward job v d) = inl (job, v, d, refl)
Progress-cases (stopped r) = inr (r, refl)

module _ {V D : Type 0} (store : Store D) (sanitise : String → String) where
  status-undo_step :
      (s : Step V) (o : Option (V → V × Attempt)) (job : Job) (v : V)
      → (undo_step store sanitise s o job v).0.status ≡ job.status
  status-undo_step s none job v = refl
  status-undo_step s (some undo) job v = refl

  pub status-rollback :
      (undoable : List (Step V)) (job : Job) (v : V)
      → (rollback store sanitise undoable job v).0.status ≡ job.status
  unfolding rollback
  status-rollback [] job v = refl
  status-rollback (s ∷ undoable) job v =
      let (job', v') = undo_step store sanitise s s.undo job v in
      status-rollback undoable job' v' ∙ status-undo_step s s.undo job v

  pub save_end-returned :
      (job : Job) (ev : String) (v : V) (p : D × Attempt) (j : Job) (v' : V) (d' : D)
      → save_end store sanitise job ev v p ≡ returned j v' d'
      → (j ≡ job) × (v' ≡ v)
  save_end-returned job ev v (d, done x) j v' d' h = ground arith
  save_end-returned job ev v (d, thrown x) j v' d' h = absurd (cc)

  pub finish-returned :
      (ev : String) (v : V) (d : D) (s : Settled) (j : Job) (v' : V) (d' : D)
      → finish store sanitise ev v d s ≡ returned j v' d'
      → (s ≡ settled j) × (v' ≡ v)
  finish-returned ev v d (settled job) j v' d' h =
      let (e, f) = save_end-returned job ev v (store.save job d) j v' d' h in (cc (e), f)
  finish-returned ev v d (refused job) j v' d' h = absurd (cc)

  pub fail_step-returned :
      (undoable : List (Step V)) (s : Step V) (i : ℕ) (msg : String) (job : Job) (v : V) (d : D)
      (j : Job) (v' : V) (d' : D)
      → fail_step store sanitise undoable s i msg job v d ≡ returned j v' d'
      → j.status ≡ (if any has_undo undoable then "rolled_back" else "failed")
  unfolding fail_step
  fail_step-returned undoable s i msg job v d j v' d' h =
      let (job', after) =
        rollback store sanitise undoable (note_failure store sanitise s i msg job) v in
      let (e, _) =
        finish-returned ".failed" after d
          (set_status job' (if any has_undo undoable then "rolled_back" else "failed")) j v' d' h in
      set_status-settled job' (if any has_undo undoable then "rolled_back" else "failed") j e

  fail_step-Failed :
      (undoable : List (Step V)) (s : Step V) (i : ℕ) (msg : String) (job : Job) (v : V) (d : D)
      (j : Job) (v' : V) (d' : D)
      → fail_step store sanitise undoable s i msg job v d ≡ returned j v' d'
      → Failed j
  fail_step-Failed undoable s i msg job v d j v' d' h =
      ground (arith, fail_step-returned undoable s i msg job v d j v' d' h)

  module _ (undoable : List (Step V)) (s : Step V) (i : ℕ) (j : Job) (v' : V) (d' : D) where
    settle_pass-Failed :
        (job : Job) (v : V) (p : D × Attempt)
        → settle_pass store sanitise undoable s i job v p ≡ stopped (returned j v' d')
        → Failed j
    settle_pass-Failed job v (d, done x) h = absurd (cc)
    settle_pass-Failed job v (d, thrown msg) h =
        fail_step-Failed (s ∷ undoable) s i msg job v d j v' d' (cc)

    settle_run-Failed :
        (job : Job) (d : D) (p : V × Attempt)
        → settle_run store sanitise undoable s i job d p ≡ stopped (returned j v' d')
        → Failed j
    settle_run-Failed job d (v, thrown msg) h =
        fail_step-Failed undoable s i msg job v d j v' d' (cc)
    settle_run-Failed job d (v, done detail) h =
        let passed = note_step job i (record_of s.name "succeeded" detail) in
        settle_pass-Failed passed v (store.save passed d) h

    settle_save-Failed :
        (job : Job) (v : V) (p : D × Attempt)
        → settle_save store sanitise undoable s i job v p ≡ stopped (returned j v' d')
        → Failed j
    settle_save-Failed job v (d, thrown msg) h = absurd (cc)
    settle_save-Failed job v (d, done x) h = settle_run-Failed job d (s.run v) h

    pub run_step-Failed :
        (job : Job) (v : V) (d : D)
        → run_step store sanitise undoable s i job v d ≡ stopped (returned j v' d')
        → Failed j
    unfolding run_step
    run_step-Failed job v d h =
        let running = note_step job i (record_of s.name "running" none) in
        settle_save-Failed running v (store.save running d) h

  run_from-IsFinal :
      (steps undoable : List (Step V)) (i : ℕ) (job : Job) (v : V) (d : D) (j : Job) (v' : V)
      (d' : D)
      → run_from store sanitise steps undoable i job v d ≡ returned j v' d'
      → IsFinal j
  unfolding run_from
  run_from-IsFinal [] undoable i job v d j v' d' h =
      let (e, _) = finish-returned ".succeeded" v d (set_status job "succeeded") j v' d' h in
      inl (set_status-settled job "succeeded" j e)
  run_from-IsFinal (s ∷ steps) undoable i job v d j v' d' h =
      elim (Progress-cases (run_step store sanitise undoable s i job v d)) [
        | inl (job₁, v₁, d₁, e) ↦
            run_from-IsFinal steps (s ∷ undoable) (suc i) job₁ v₁ d₁ j v' d' (ground arith)
        | inr (r, e) ↦ inr (run_step-Failed undoable s i j v' d' job v d (ground arith))
      ]

  pub begin-returned :
      (steps : List (Step V)) (v : V) (d : D) (x : Settled) (j : Job) (v' : V) (d' : D)
      → begin store sanitise steps v d x ≡ returned j v' d'
      → (job : Job) × (d₁ : D) × (run_from store sanitise steps [] 0 job v d₁ ≡ returned j v' d')
        × (job.steps ≡ pending_records steps)
  begin-returned steps v d (refused job) j v' d' h = absurd (cc)
  begin-returned steps v d (settled job) j v' d' h =
      let listed : Job = record job { steps = pending_records steps } in
      start-returned listed (store.save listed d) h
    where
      start-returned :
          (job : Job) (p : D × Attempt)
          → start store sanitise steps job v p ≡ returned j v' d'
          → (job' : Job) × (d₁ : D) × (run_from store sanitise steps [] 0 job' v d₁
              ≡ returned j v' d')
            × (job'.steps ≡ job.steps)
      start-returned job (d₁, thrown msg) h = absurd (cc)
      start-returned job (d₁, done x) h = (job, d₁, h, refl)

  pub run_steps-returned :
      (job : Job) (steps : List (Step V)) (v : V) (d : D) (j : Job) (v' : V) (d' : D)
      → run_steps store sanitise job steps v d ≡ returned j v' d'
      → (job' : Job) × (d₁ : D) × (run_from store sanitise steps [] 0 job' v d₁ ≡ returned j v' d')
        × (job'.steps ≡ pending_records steps)
  unfolding run_steps
  run_steps-returned job steps v d j v' d' h =
      begin-returned steps v d (set_status job "running") j v' d' h

  -- A job that `runSteps` returns has succeeded, failed or been rolled back: it is never left
  -- pending or running.
  pub run_steps-IsFinal :
      (job : Job) (steps : List (Step V)) (v : V) (d : D) (j : Job) (v' : V) (d' : D)
      → run_steps store sanitise job steps v d ≡ returned j v' d'
      → IsFinal j
  run_steps-IsFinal job steps v d j v' d' h =
      let (job', d₁, e, _) = run_steps-returned job steps v d j v' d' h in
      run_from-IsFinal steps [] 0 job' v d₁ j v' d' e
