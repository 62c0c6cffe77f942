-- ===== src/Provisioner/Steps/Keeps.antt =====
-- arcanium/api/src/provisioner/steps.js: what holds of the database, whatever is saved and emitted,
-- holds behind a run.
use arcanium.Prelude.{ℕ, suc, String, none, List, [], ◌∷◌, if◌then◌else◌, any}
use arcanium.Provisioner.Steps.{
  Job, Step, Attempt, done, thrown, Store, Run, returned, raised, Progress, onward, stopped,
  set_status, Settled, settled, refused, has_undo, rollback, save_end, finish, fail_step, run_step,
  run_from, run_steps, settle_save, settle_run, settle_pass, start, begin, pending_records,
  note_step, record_of, note_failure,
}

-- The database behind a run.
abbrev pub database_of : {V D : Type 0} → Run V D → D
database_of (returned job v d) = d
database_of (raised job v d) = d

-- A round, then the rest of the loop.
abbrev pub then_rest : {V D : Type 0} → (Job → V → D → Run V D) → Progress V D → Run V D
then_rest rest (onward job v d) = rest job v d
then_rest rest (stopped r) = r

module _ {V D : Type 0} (store : Store D) (sanitise : String → String) (P : D → Type 0)
    (save_keeps : (job : Job) (d : D) → P d → P (store.save job d).0)
    (emit_keeps : (job : Job) (ev : String) (d : D) → P d → P (store.emit job ev d)) where
  -- So far a run that goes on, or its end.
  abbrev HoldsIn : Progress V D → Type 0
  HoldsIn (onward job v d) = P d
  HoldsIn (stopped r) = P (database_of r)

  at_save_end :
      (job : Job) (ev : String) (v : V) (p : D × Attempt)
      → P p.0
      → P (database_of (save_end store sanitise job ev v p))
  at_save_end job ev v (d, done x) h = emit_keeps job ev d h
  at_save_end job ev v (d, thrown x) h = h

  at_finish :
      (ev : String) (v : V) (d : D) (s : Settled)
      → P d
      → P (database_of (finish store sanitise ev v d s))
  at_finish ev v d (settled job) h = at_save_end job ev v (store.save job d) (save_keeps job d h)
  at_finish ev v d (refused job) h = h

  at_fail_step :
      (undoable : List (Step V)) (s : Step V) (i : ℕ) (msg : String) (job : Job) (v : V) (d : D)
      → P d
      → P (database_of (fail_step store sanitise undoable s i msg job v d))
  unfolding fail_step
  at_fail_step undoable s i msg job v d h =
      let (job', v') =
        rollback store sanitise undoable (note_failure store sanitise s i msg job) v in
      at_finish ".failed" v' d
        (set_status job' (if any has_undo undoable then "rolled_back" else "failed")) h

  at_pass :
      (undoable : List (Step V)) (s : Step V) (i : ℕ) (job : Job) (v : V) (p : D × Attempt)
      → P p.0
      → HoldsIn (settle_pass store sanitise undoable s i job v p)
  at_pass undoable s i job v (d, done x) h = h
  at_pass undoable s i job v (d, thrown msg) h = at_fail_step (s ∷ undoable) s i msg job v d h

  at_run :
      (undoable : List (Step V)) (s : Step V) (i : ℕ) (job : Job) (d : D) (p : V × Attempt)
      → P d
      → HoldsIn (settle_run store sanitise undoable s i job d p)
  at_run undoable s i job d (v, thrown msg) h = at_fail_step undoable s i msg job v d h
  at_run undoable s i job d (v, done detail) h =
      let passed = note_step job i (record_of s.name "succeeded" detail) in
      at_pass undoable s i passed v (store.save passed d) (save_keeps passed d h)

  at_step_save :
      (undoable : List (Step V)) (s : Step V) (i : ℕ) (job : Job) (v : V) (p : D × Attempt)
      → P p.0
      → HoldsIn (settle_save store sanitise undoable s i job v p)
  at_step_save undoable s i job v (d, thrown msg) h = h
  at_step_save undoable s i job v (d, done x) h = at_run undoable s i job d (s.run v) h

  at_step :
      (undoable : List (Step V)) (s : Step V) (i : ℕ) (job : Job) (v : V) (d : D)
      → P d
      → HoldsIn (run_step store sanitise undoable s i job v d)
  unfolding run_step
  at_step undoable s i job v d h =
      let running = note_step job i (record_of s.name "running" none) in
      at_step_save undoable s i running v (store.save running d) (save_keeps running d h)

  at_rest :
      (rest : Job → V → D → Run V D)
      → ((job : Job) (v : V) (d : D) → P d → P (database_of (rest job v d)))
      → (p : Progress V D) → HoldsIn p
      → P (database_of (then_rest rest p))
  at_rest rest each (onward job v d) h = each job v d h
  at_rest rest each (stopped r) h = h

  at_loop :
      (steps undoable : List (Step V)) (i : ℕ) (job : Job) (v : V) (d : D)
      → P d
      → P (database_of (run_from store sanitise steps undoable i job v d))
  unfolding run_from
  at_loop [] undoable i job v d h = at_finish ".succeeded" v d (set_status job "succeeded") h
  at_loop (s ∷ steps) undoable i job v d h =
      at_rest (run_from store sanitise steps (s ∷ undoable) (suc i))
        (at_loop steps (s ∷ undoable) (suc i)) (run_step store sanitise undoable s i job v d)
        (at_step undoable s i job v d h)

  at_start :
      (steps : List (Step V)) (job : Job) (v : V) (p : D × Attempt)
      → P p.0
      → P (database_of (start store sanitise steps job v p))
  at_start steps job v (d, thrown x) h = h
  at_start steps job v (d, done x) h = at_loop steps [] 0 job v d h

  at_begin :
      (steps : List (Step V)) (v : V) (d : D) (s : Settled)
      → P d
      → P (database_of (begin store sanitise steps v d s))
  at_begin steps v d (refused job) h = h
  at_begin steps v d (settled job) h =
      let listed = record job { steps = pending_records steps } in
      at_start steps listed v (store.save listed d) (save_keeps listed d h)

  pub run_steps-keeps :
      (job : Job) (steps : List (Step V)) (v : V) (d : D)
      → P d
      → P (database_of (run_steps store sanitise job steps v d))
  unfolding run_steps
  run_steps-keeps job steps v d h = at_begin steps v d (set_status job "running") h
