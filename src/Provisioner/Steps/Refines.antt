-- ===== src/Provisioner/Steps/Refines.antt =====
-- arcanium/api/src/provisioner/steps.js: how a run changes what the database says of its job. While it
-- runs one predicate holds, and another behind the save of its final status.
use arcanium.Prelude.{
  ℕ, suc, String, ◌≡◌, refl, ◌∙◌, ◌⊎◌, inl, inr, Bool, true, false, none, List, [], ◌∷◌,
  if◌then◌else◌, any, AnyOf,
}
use arcanium.Provisioner.Steps.{
  Job, Step, Attempt, done, thrown, Store, Run, returned, raised, Progress, onward, stopped,
  set_status, has_undo, rollback, save_end, finish, fail_step, run_step, run_from, run_steps,
  settle_save, settle_run, settle_pass, start, pending_records, note_step, record_of, note_failure,
}
use arcanium.Provisioner.Steps.Outcomes.{
  final_statuses, set_status_end, start_legal, status-rollback, IsFinal,
}
use arcanium.Provisioner.Steps.Keeps.{then_rest}

abbrev pub IsRunning : Job → Type 0
IsRunning job = job.status ≡ "running"

module _ {D : Type 0} (During Behind : D → Type 0) where
  -- What a save gives: the new database, or the old one where it throws.
  abbrev pub Saves : (D → Type 0) → D × Attempt → Type 0
  Saves After (d, done x) = After d
  Saves After (d, thrown x) = During d

module _ {V D : Type 0} (During Behind : D → Type 0) where
  -- A run that returns has saved a final status; one that throws has not.
  abbrev pub EndsIn : Run V D → Type 0
  EndsIn (returned job v d) = Behind d
  EndsIn (raised job v d) = During d

module _ {V D : Type 0} (store : Store D) (sanitise : String → String) (During Behind : D → Type 0)
    (save_running : (job : Job) (d : D)
      → IsRunning job
      → During d
      → Saves During Behind During (store.save job d))
    (save_final : (job : Job) (d : D)
      → IsFinal job
      → During d
      → Saves During Behind Behind (store.save job d))
    (emit_keeps : (job : Job) (ev : String) (d : D) → Behind d → Behind (store.emit job ev d)) where
  abbrev GoesIn : Progress V D → Type 0
  GoesIn (onward job v d) = IsRunning job × During d
  GoesIn (stopped r) = EndsIn During Behind r

  to_save_end :
      (job : Job) (ev : String) (v : V) (p : D × Attempt)
      → Saves During Behind Behind p
      → EndsIn During Behind (save_end store sanitise job ev v p)
  to_save_end job ev v (d, done x) h = emit_keeps job ev d h
  to_save_end job ev v (d, thrown x) h = h

  to_finish :
      (ev next : String) (v : V) (d : D) (job : Job)
      → IsRunning job
      → AnyOf (λ x. x ≡ next) final_statuses
      → IsFinal (record job { status = next })
      → During d
      → EndsIn During Behind (finish store sanitise ev v d (set_status job next))
  to_finish ev next v d job running legal_end final h =
      rw (set_status_end job next running legal_end) (
        to_save_end (record job { status = next }) ev v
          (store.save (record job { status = next }) d)
          (save_final (record job { status = next }) d final h))

  to_failure :
      (ev : String) (v : V) (d : D) (job : Job) (undone : Bool)
      → IsRunning job
      → During d
      → EndsIn During Behind (
          finish store sanitise ev v d
            (set_status job (if undone then "rolled_back" else "failed")))
  to_failure ev v d job true running h =
      to_finish ev "rolled_back" v d job running (inr (inr (inl refl))) (inr (inr refl)) h
  to_failure ev v d job false running h =
      to_finish ev "failed" v d job running (inr (inl refl)) (inr (inl refl)) h

  to_fail_step :
      (undoable : List (Step V)) (s : Step V) (i : ℕ) (msg : String) (job : Job) (v : V) (d : D)
      → IsRunning job
      → During d
      → EndsIn During Behind (fail_step store sanitise undoable s i msg job v d)
  unfolding fail_step
  to_fail_step undoable s i msg job v d running h =
      let noted = note_failure store sanitise s i msg job in
      let back = rollback store sanitise undoable noted v in
      to_failure ".failed" back.1 d back.0 (any has_undo undoable)
        (status-rollback store sanitise undoable noted v ∙ running) h

  to_pass :
      (undoable : List (Step V)) (s : Step V) (i : ℕ) (job : Job) (v : V) (p : D × Attempt)
      → IsRunning job
      → Saves During Behind During p
      → GoesIn (settle_pass store sanitise undoable s i job v p)
  to_pass undoable s i job v (d, done x) running h = (running, h)
  to_pass undoable s i job v (d, thrown msg) running h =
      to_fail_step (s ∷ undoable) s i msg job v d running h

  to_run :
      (undoable : List (Step V)) (s : Step V) (i : ℕ) (job : Job) (d : D) (p : V × Attempt)
      → IsRunning job
      → During d
      → GoesIn (settle_run store sanitise undoable s i job d p)
  to_run undoable s i job d (v, thrown msg) running h =
      to_fail_step undoable s i msg job v d running h
  to_run undoable s i job d (v, done detail) running h =
      let passed = note_step job i (record_of s.name "succeeded" detail) in
      to_pass undoable s i passed v (store.save passed d) running (save_running passed d running h)

  to_step_save :
      (undoable : List (Step V)) (s : Step V) (i : ℕ) (job : Job) (v : V) (p : D × Attempt)
      → IsRunning job
      → Saves During Behind During p
      → GoesIn (settle_save store sanitise undoable s i job v p)
  to_step_save undoable s i job v (d, thrown msg) running h = h
  to_step_save undoable s i job v (d, done x) running h =
      to_run undoable s i job d (s.run v) running h

  to_step :
      (undoable : List (Step V)) (s : Step V) (i : ℕ) (job : Job) (v : V) (d : D)
      → IsRunning job
      → During d
      → GoesIn (run_step store sanitise undoable s i job v d)
  unfolding run_step
  to_step undoable s i job v d running h =
      let noted = note_step job i (record_of s.name "running" none) in
      to_step_save undoable s i noted v (store.save noted d) running
        (save_running noted d running h)

  to_rest :
      (rest : Job → V → D → Run V D)
      → ((job : Job) (v : V) (d : D)
          → IsRunning job
          → During d
          → EndsIn During Behind (rest job v d))
      → (p : Progress V D) → GoesIn p
      → EndsIn During Behind (then_rest rest p)
  to_rest rest each (onward job v d) h = each job v d h.0 h.1
  to_rest rest each (stopped r) h = h

  to_loop :
      (steps undoable : List (Step V)) (i : ℕ) (job : Job) (v : V) (d : D)
      → IsRunning job
      → During d
      → EndsIn During Behind (run_from store sanitise steps undoable i job v d)
  unfolding run_from
  to_loop [] undoable i job v d running h =
      to_finish ".succeeded" "succeeded" v d job running (inl refl) (inl refl) h
  to_loop (s ∷ steps) undoable i job v d running h =
      to_rest (run_from store sanitise steps (s ∷ undoable) (suc i))
        (to_loop steps (s ∷ undoable) (suc i)) (run_step store sanitise undoable s i job v d)
        (to_step undoable s i job v d running h)

  to_start :
      (steps : List (Step V)) (job : Job) (v : V) (p : D × Attempt)
      → IsRunning job
      → Saves During Behind During p
      → EndsIn During Behind (start store sanitise steps job v p)
  to_start steps job v (d, thrown x) running h = h
  to_start steps job v (d, done x) running h = to_loop steps [] 0 job v d running h

  pub run_steps-EndsIn :
      (job : Job) (steps : List (Step V)) (v : V) (d : D)
      → (job.status ≡ "pending") ⊎ (job.status ≡ "running")
      → During d
      → EndsIn During Behind (run_steps store sanitise job steps v d)
  unfolding run_steps
  run_steps-EndsIn job steps v d from h =
      let listed = record job { status = "running"; steps = pending_records steps } in
      rw (start_legal job from)
        (to_start steps listed v (store.save listed d) refl (save_running listed d refl h))
