-- ===== src/Provisioner/Steps/Rollback.antt =====
-- arcanium/api/src/provisioner/steps.js: what a failed job leaves behind in Vault.
use arcanium.Prelude.{
  ap, ℕ, suc, String, ◌≡◌, refl, ◌∙◌, ◌≢◌, ◌⊎◌, inl, inr, Option, none, some, List, [], ◌∷◌, arith,
  if◌then◌else◌, any,
}
use arcanium.Provisioner.Steps.{
  Job, Step, Attempt, done, thrown, Store, returned, onward, stopped, set_status, has_undo,
  rollback, undo_step, fail_step, run_step, run_from, run_steps, settle_save, settle_run,
  settle_pass, note_step, record_of, note_failure,
}
use arcanium.Provisioner.Steps.Outcomes.{
  finish-returned, Progress-cases, run_steps-returned, set_status-settled,
}

-- What the undo of a step makes of Vault, or nothing where it has none. An undo that throws has done
-- what it did.
abbrev pub undone_by : {V : Type 0} → Option (V → V × Attempt) → V → V
undone_by none v = v
undone_by (some undo) v = (undo v).0

-- The undos of steps, one after the other.
abbrev pub undone : {V : Type 0} → List (Step V) → V → V
undone [] v = v
undone (s ∷ steps) v = undone steps (undone_by s.undo v)

-- The ways in which the steps that are left, behind the ones done, end in a failure. The run of the
-- next step throws, and the done ones are undone, the newest first; or it succeeds and the save behind
-- it throws, and it is undone too; or it succeeds and the failure comes later.
abbrev pub IsUndone : {V : Type 0} → List (Step V) → List (Step V) → V → V → Type 0
IsUndone [] before v v' = ⊥
IsUndone {V} (s ∷ steps) before v v' =
    ((msg : String) × (v₁ : V) × (s.run v ≡ (v₁, thrown msg)) × (v' ≡ undone before v₁))
    ⊎ ((detail : Option String) × (v₁ : V) × (s.run v ≡ (v₁, done detail))
        × ((v' ≡ undone (s ∷ before) v₁) ⊎ IsUndone steps (s ∷ before) v₁ v'))

module _ {V D : Type 0} (store : Store D) (sanitise : String → String) where
  undo_step-by :
      (s : Step V) (undo : Option (V → V × Attempt)) (job : Job) (v : V)
      → (undo_step store sanitise s undo job v).1 ≡ undone_by undo v
  undo_step-by s none job v = refl
  undo_step-by s (some undo) job v = refl

  rollback-undone :
      (undoable : List (Step V)) (job : Job) (v : V)
      → (rollback store sanitise undoable job v).1 ≡ undone undoable v
  unfolding rollback
  rollback-undone [] job v = refl
  rollback-undone (s ∷ undoable) job v =
      let (job', v') = undo_step store sanitise s s.undo job v in
      rollback-undone undoable job' v' ∙ ap (undone undoable) (undo_step-by s s.undo job v)

  fail_step-undone :
      (undoable : List (Step V)) (s : Step V) (i : ℕ) (msg : String) (job : Job) (v : V) (d : D)
      (j : Job) (v' : V) (d' : D)
      → fail_step store sanitise undoable s i msg job v d ≡ returned j v' d'
      → v' ≡ undone undoable v
  unfolding fail_step
  fail_step-undone undoable s i msg job v d j v' d' h =
      let noted = note_failure store sanitise s i msg job in
      let (job', after) = rollback store sanitise undoable noted v in
      let (_, e) =
        finish-returned store sanitise ".failed" after d
          (set_status job' (if any has_undo undoable then "rolled_back" else "failed")) j v' d' h in
      e ∙ rollback-undone undoable noted v

  module _ (before : List (Step V)) (s : Step V) (i : ℕ) (v : V) (j : Job) (v' : V) (d' : D) where
    -- The step ends in a failure.
    abbrev IsStopped : Type 0
    IsStopped =
        ((msg : String) × (v₁ : V) × (s.run v ≡ (v₁, thrown msg)) × (v' ≡ undone before v₁))
        ⊎ ((detail : Option String) × (v₁ : V) × (s.run v ≡ (v₁, done detail))
            × (v' ≡ undone (s ∷ before) v₁))

    settle_pass-stopped :
        (job : Job) (v₁ : V) (detail : Option String) (p : D × Attempt)
        → s.run v ≡ (v₁, done detail)
        → settle_pass store sanitise before s i job v₁ p ≡ stopped (returned j v' d')
        → IsStopped
    settle_pass-stopped job v₁ detail (d, done x) e h = absurd (cc)
    settle_pass-stopped job v₁ detail (d, thrown msg) e h =
        inr (detail, v₁, e, fail_step-undone (s ∷ before) s i msg job v₁ d j v' d' (cc))

    settle_run-stopped :
        (job : Job) (d : D) (p : V × Attempt)
        → s.run v ≡ p
        → settle_run store sanitise before s i job d p ≡ stopped (returned j v' d')
        → IsStopped
    settle_run-stopped job d (v₁, thrown msg) e h =
        inl (msg, v₁, e, fail_step-undone before s i msg job v₁ d j v' d' (cc))
    settle_run-stopped job d (v₁, done detail) e h =
        let passed = note_step job i (record_of s.name "succeeded" detail) in
        settle_pass-stopped passed v₁ detail (store.save passed d) e h

    settle_save-stopped :
        (job : Job) (p : D × Attempt)
        → settle_save store sanitise before s i job v p ≡ stopped (returned j v' d')
        → IsStopped
    settle_save-stopped job (d, thrown msg) h = absurd (cc)
    settle_save-stopped job (d, done x) h = settle_run-stopped job d (s.run v) refl h

  module _ (before : List (Step V)) (s : Step V) (i : ℕ) (v : V) (job' : Job) (v' : V)
      (d' : D) where
    settle_pass-onward :
        (job : Job) (v₁ : V) (p : D × Attempt)
        → settle_pass store sanitise before s i job v₁ p ≡ onward job' v' d'
        → v₁ ≡ v'
    settle_pass-onward job v₁ (d, done x) h = cc
    settle_pass-onward job v₁ (d, thrown msg) h = absurd (cc)

    settle_run-onward :
        (job : Job) (d : D) (p : V × Attempt)
        → s.run v ≡ p
        → settle_run store sanitise before s i job d p ≡ onward job' v' d'
        → (detail : Option String) × (s.run v ≡ (v', done detail))
    settle_run-onward job d (v₁, thrown msg) e h = absurd (cc)
    settle_run-onward job d (v₁, done detail) e h =
        let passed = note_step job i (record_of s.name "succeeded" detail) in
        let same = settle_pass-onward passed v₁ (store.save passed d) h in
        (detail, e ∙ ap (λ x. (x, done detail)) same)

    settle_save-onward :
        (job : Job) (p : D × Attempt)
        → settle_save store sanitise before s i job v p ≡ onward job' v' d'
        → (detail : Option String) × (s.run v ≡ (v', done detail))
    settle_save-onward job (d, thrown msg) h = absurd (cc)
    settle_save-onward job (d, done x) h = settle_run-onward job d (s.run v) refl h

  stopped-IsUndone :
      (before : List (Step V)) (s : Step V) (steps : List (Step V)) (i : ℕ) (v : V) (j : Job)
      (v' : V) (d' : D)
      → IsStopped before s i v j v' d'
      → IsUndone (s ∷ steps) before v v'
  stopped-IsUndone before s steps i v j v' d' (inl x) = inl x
  stopped-IsUndone before s steps i v j v' d' (inr (detail, v₁, e, u)) = inr (detail, v₁, e, inl u)

  run_from-IsUndone :
      (steps before : List (Step V)) (i : ℕ) (job : Job) (v : V) (d : D) (j : Job) (v' : V) (d' : D)
      → run_from store sanitise steps before i job v d ≡ returned j v' d'
      → (j.status ≡ "succeeded") ⊎ IsUndone steps before v v'
  unfolding run_from run_step
  run_from-IsUndone [] before i job v d j v' d' h =
      let (e, _) =
        finish-returned store sanitise ".succeeded" v d (set_status job "succeeded") j v' d' h in
      inl (set_status-settled job "succeeded" j e)
  run_from-IsUndone (s ∷ steps) before i job v d j v' d' h =
      let running = note_step job i (record_of s.name "running" none) in
      elim (Progress-cases (run_step store sanitise before s i job v d)) [
        | inl (job₁, v₁, d₁, e) ↦
            let (detail, ran) =
              settle_save-onward before s i v job₁ v₁ d₁ running (store.save running d) e in
            elim (run_from-IsUndone steps (s ∷ before) (suc i) job₁ v₁ d₁ j v' d' (ground arith)) [
              | inl well ↦ inl well
              | inr later ↦ inr (inr (detail, v₁, ran, inr later))
            ]
        | inr (r, e) ↦
            let how =
              settle_save-stopped before s i v j v' d' running (store.save running d)
                (ground arith) in
            inr (stopped-IsUndone before s steps i v j v' d' how)
      ]

-- Whatever the steps are, with undos or without, and whatever saves throw: a job that is returned
-- without success leaves Vault as follows. Its steps ran in order up to one whose run threw, and then
-- the undos of the steps before it ran, the newest first; or up to one behind which the save threw, and
-- then its own undo ran, and the undos of the steps before it. A step without an undo stays done, and
-- so does what a run did before it threw.
pub rollback_exact :
    {V D : Type 0} (store : Store D) (sanitise : String → String) (job : Job)
    (steps : List (Step V)) (v : V) (d : D) (j : Job) (v' : V) (d' : D)
    → run_steps store sanitise job steps v d ≡ returned j v' d'
    → j.status ≢ "succeeded"
    → IsUndone steps [] v v'
rollback_exact store sanitise job steps v d j v' d' h n =
    let (job', d₁, e, _) = run_steps-returned store sanitise job steps v d j v' d' h in
    elim (run_from-IsUndone store sanitise steps [] 0 job' v d₁ j v' d' e) [
      | inl s ↦ absurd (n s)
      | inr q ↦ q
    ]
