-- ===== src/Provisioner/Steps/Success.antt =====
-- arcanium/api/src/provisioner/steps.js: a job whose every step runs through.
use mathlib.Core.Path.{subst}
use mathlib.Core.List.{append-nil}
use arcanium.Prelude.{
  ℕ, suc, ◌+◌, String, ◌≡◌, refl, sym, ap, ◌∙◌, ◌⊎◌, inl, true, Option, none, List, [], ◌∷◌, ◌++◌,
  arith, length, all, length-append, AllOf,
}
use arcanium.Provisioner.Steps.{
  StepRecord, Job, Step, done, Store, returned, onward, settled, finish, run_step, run_from,
  run_steps, note_step, record_of, set_at, pending_records,
}
use arcanium.Provisioner.Steps.Outcomes.{is_done, set_status_end, start_legal}

-- The runs of the steps, one after another, lead from one state of Vault to another.
abbrev pub Passes : {V : Type 0} → List (Step V) → V → V → Type 0
Passes [] v end = v ≡ end
Passes {V} (s ∷ steps) v end =
    (v₁ : V) × (detail : Option String) × (s.run v ≡ (v₁, done detail)) × Passes steps v₁ end

abbrev pub HasSucceeded : StepRecord → Type 0
HasSucceeded r = r.status ≡ "succeeded"

set_at-append :
    (before : List StepRecord) (x y : StepRecord) (after : List StepRecord)
    → set_at (before ++ x ∷ after) (length before) y ≡ before ++ y ∷ after
unfolding set_at
set_at-append [] x y after = refl
set_at-append (z ∷ before) x y after = rw (set_at-append before x y after)

append-snoc :
    (before : List StepRecord) (y : StepRecord) (after : List StepRecord)
    → (before ++ y ∷ []) ++ after ≡ before ++ y ∷ after
append-snoc [] y after = refl
append-snoc (z ∷ before) y after = rw (append-snoc before y after)

AllOf-snoc :
    (before : List StepRecord) (y : StepRecord)
    → AllOf HasSucceeded before
    → HasSucceeded y
    → AllOf HasSucceeded (before ++ y ∷ [])
AllOf-snoc [] y h e = (e, tt)
AllOf-snoc (z ∷ before) y h e = (h.0, AllOf-snoc before y h.1 e)

passed-steps :
    {V : Type 0} (s : Step V) (steps : List (Step V)) (before : List StepRecord) (job : Job)
    (detail : Option String)
    → job.steps ≡ before ++ pending_records (s ∷ steps)
    → (note_step
        (note_step job (length before) (record_of s.name "running" none))
        (length before)
        (record_of s.name "succeeded" detail)).steps
      ≡ (before ++ record_of s.name "succeeded" detail ∷ []) ++ pending_records steps
passed-steps s steps before job detail e =
    let x = record_of s.name "pending" none in
    let y = record_of s.name "running" none in
    let z = record_of s.name "succeeded" detail in
    rw e (
      rw (set_at-append before x y (pending_records steps)) (
        rw (set_at-append before y z (pending_records steps))
          (sym (append-snoc before z (pending_records steps)))))

module _ {V D : Type 0} (store : Store D) (sanitise : String → String)
    (saves : (job : Job) (d : D) → is_done (store.save job d).1 ≡ true) where
  run_step-passes :
      (undoable : List (Step V)) (s : Step V) (i : ℕ) (job : Job) (v : V) (d : D) (v₁ : V)
      (detail : Option String)
      → s.run v ≡ (v₁, done detail)
      → let running = note_step job i (record_of s.name "running" none) in
        let passed = note_step running i (record_of s.name "succeeded" detail) in
        run_step store sanitise undoable s i job v d
        ≡ onward passed v₁ (store.save passed (store.save running d).0).0
  unfolding run_step
  run_step-passes undoable s i job v d v₁ detail e =
      let running = note_step job i (record_of s.name "running" none) in
      let passed = note_step running i (record_of s.name "succeeded" detail) in
      ground (arith, e, saves running d, saves passed (store.save running d).0)

  finish-saved :
      (ev : String) (v : V) (d : D) (job : Job)
      → finish store sanitise ev v d (settled job)
        ≡ returned job v (store.emit job ev (store.save job d).0)
  finish-saved ev v d job = ground (arith, saves job d)

  run_from-onward :
      (s : Step V) (steps undoable : List (Step V)) (i : ℕ) (job : Job) (v : V) (d : D) (job' : Job)
      (v' : V) (d' : D)
      → run_step store sanitise undoable s i job v d ≡ onward job' v' d'
      → run_from store sanitise (s ∷ steps) undoable i job v d
        ≡ run_from store sanitise steps (s ∷ undoable) (suc i) job' v' d'
  unfolding run_from
  run_from-onward s steps undoable i job v d job' v' d' e = ground (arith, e)

  run_from-Passes :
      (steps undoable : List (Step V)) (before : List StepRecord) (job : Job) (v end : V) (d : D)
      → Passes steps v end
      → job.status ≡ "running"
      → AllOf HasSucceeded before
      → job.steps ≡ before ++ pending_records steps
      → (j : Job) × (d' : D) × (run_from store sanitise steps undoable (length before) job v d
          ≡ returned j end d')
        × (j.status ≡ "succeeded")
        × AllOf HasSucceeded j.steps
        × (length j.steps ≡ length before + length steps)
  unfolding run_from
  run_from-Passes [] undoable before job v end d p running h e =
      let ended : Job = record job { status = "succeeded" } in
      (
        ended,
        store.emit ended ".succeeded" (store.save ended d).0,
        rw (set_status_end job "succeeded" running (inl refl)) (
            finish-saved ".succeeded" v d ended
            ∙ ap (λ x. returned ended x (store.emit ended ".succeeded" (store.save ended d).0)) p),
        refl,
        rw (e, append-nil) h,
        rw (e, append-nil) (omega arith),
      )
  run_from-Passes (s ∷ steps) undoable before job v end d (v₁, detail, ran, p) running h e =
      let r = record_of s.name "succeeded" detail in
      let at_work = note_step job (length before) (record_of s.name "running" none) in
      let passed = note_step at_work (length before) r in
      let d₂ = (store.save passed (store.save at_work d).0).0 in
      let (j, d', ran_on, ok, all, len) =
        run_from-Passes steps (s ∷ undoable) (before ++ r ∷ []) passed v₁ end d₂ p running
          (AllOf-snoc before r h refl) (passed-steps s steps before job detail e) in
      (
        j,
        d',
        run_from-onward s steps undoable (length before) job v d passed v₁ d₂
              (run_step-passes undoable s (length before) job v d v₁ detail ran)
            ∙ (subst
                (λ i.
                  run_from store sanitise steps (s ∷ undoable) i passed v₁ d₂ ≡ returned j end d')
                (omega (arith, length-append before (r ∷ []))) ran_on),
        ok,
        all,
        omega (arith, len, length-append before (r ∷ [])),
      )

  -- Where no save throws, a job that is pending or running and whose every run goes through is returned
  -- as succeeded, with one succeeded record for each step, and Vault is as the runs left it.
  pub run_steps_succeeds :
      (job : Job) (steps : List (Step V)) (v end : V) (d : D)
      → (job.status ≡ "pending") ⊎ (job.status ≡ "running")
      → Passes steps v end
      → (j : Job) × (d' : D) × (run_steps store sanitise job steps v d ≡ returned j end d')
        × (j.status ≡ "succeeded")
        × AllOf HasSucceeded j.steps
        × (length j.steps ≡ length steps)
  unfolding run_steps
  run_steps_succeeds job steps v end d ready p =
      let listed : Job = record job { status = "running"; steps = pending_records steps } in
      let (j, d', ran, ok, all, len) =
        run_from-Passes steps [] [] listed v end (store.save listed d).0 p refl tt refl in
      (
        j,
        d',
        rw (start_legal job ready) (ground (arith, ran, saves listed d)),
        ok,
        all,
        omega (arith, len),
      )
