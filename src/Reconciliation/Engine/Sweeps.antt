-- ===== src/Reconciliation/Engine/Sweeps.antt =====
-- arcanium/api/src/reconciliation/engine.js: what a sweep records and announces.
use arcanium.Prelude.{
  ℕ, String, ◌≡◌, refl, inl, inr, Option, none, some, List, [], ◌∷◌, map, arith, ◌==◌, eq_iff, eqb,
  Bool-cases, AllOf,
}
use arcanium.Domain.StateMachines.{legal}
use arcanium.Domain.StateMachines.Paths.{observation_transitions}
use arcanium.Reconciliation.Diff.{Observed, Comparison}
use arcanium.Reconciliation.Diff.Sound.{
  IsKnown, IsSound, compare-IsSound, rotation-IsSound, expiry-IsSound,
}
use arcanium.Reconciliation.Engine.{
  Row, RunRow, Db, returns, prior_of, check_prior, new_run, insert_run, record_run, Outside,
  compare_for, observe, run_sweep,
}

abbrev pub HasKnownStatus : RunRow → Type 0
HasKnownStatus run = IsKnown run.status

prior_of-IsKnown :
    (id : ℕ) (runs : List RunRow) (prior : String)
    → AllOf HasKnownStatus runs
    → prior_of id runs ≡ some prior
    → IsKnown prior
prior_of-IsKnown id [] prior h e = absurd (cc)
prior_of-IsKnown id (r ∷ runs) prior (h, hs) e = elim (Bool-cases (eqb r.desired_state_id id)) [
  | inl same ↦ ground (arith, h, same)
  | inr other ↦ prior_of-IsKnown id runs prior hs (ground (arith, other))
]

check_prior-legal :
    (prior : Option String) (status : String)
    → ((p : String) → prior ≡ some p → IsKnown p)
    → IsKnown status
    → check_prior prior status ≡ legal
check_prior-legal none status h k = refl
check_prior-legal (some p) status h k =
    let change = observation_transitions p status (h p refl) k in
    ground (arith, change, eq_iff p status)

-- A verdict of a known status is recorded, whatever known statuses came before it.
record_run-accepts :
    (row : Row) (observed : Observed) (result : Comparison) (now : ℕ) (db : Db)
    → AllOf HasKnownStatus db.runs
    → IsKnown result.status
    → record_run row observed result now db
      ≡ returns (
        new_run row observed result db.next_run now,
        insert_run row observed result (prior_of row.id db.runs) now db,
      )
unfolding record_run
record_run-accepts row observed result now db h k =
    rw
      (check_prior-legal (prior_of row.id db.runs) result.status
        (λ p e. prior_of-IsKnown row.id db.runs p h e) k)
      refl

-- The runs in front of the older ones, the newest first.
abbrev pub onto : List RunRow → List RunRow → List RunRow
onto [] old = old
onto (run ∷ runs) old = onto runs (run ∷ old)

abbrev pub desired_state_of : RunRow → ℕ
desired_state_of run = run.desired_state_id

module _ (parse_date : String → Option ℕ) {W : Type 0} (outside : Outside W) where
  pub compare_for-IsSound :
      (now : ℕ) (row : Row) (observed : Observed)
      → IsSound (compare_for parse_date outside now row observed)
  unfolding compare_for
  compare_for-IsSound now row observed = elim (Bool-cases (row.requirement == "expiry_date")) [
    | inl e ↦ rw e (expiry-IsSound parse_date now row.desired_value observed)
    | inr e ↦ rw e (elim (Bool-cases (row.requirement == "rotation_period")) [
      | inl r ↦ rw r (rotation-IsSound parse_date now row.desired_value observed)
      | inr r ↦ rw r (compare-IsSound row.desired_value observed)
    ])
  ]

  -- A sweep never throws where the recorded statuses are known ones: it records one run for each row,
  -- in order. The runs it answers are those it adds to the table, where the newest stands first, in
  -- front of all that was recorded, which stays as it is. All have known statuses again, and the actions
  -- are left alone.
  pub run_sweep_total :
      (rows : List Row) (w : W) (now : ℕ) (db : Db)
      → AllOf HasKnownStatus db.runs
      → (runs : List RunRow) × (db' : Db) × (run_sweep parse_date outside rows w now db
          ≡ returns (runs, db'))
        × (map desired_state_of runs ≡ map (λ row. row.id) rows)
        × AllOf HasKnownStatus db'.runs
        × (db'.runs ≡ onto runs db.runs)
        × (db'.actions ≡ db.actions)
  unfolding run_sweep
  run_sweep_total [] w now db h = ([], db, refl, refl, h, refl, refl)
  run_sweep_total (row ∷ rows) w now db h =
      let observed = observe parse_date outside row w in
      let result = compare_for parse_date outside now row observed in
      let known = (compare_for-IsSound now row observed).0 in
      let run = new_run row observed result db.next_run now in
      let db₁ = insert_run row observed result (prior_of row.id db.runs) now db in
      let (runs, db₂, ran, ids, all_known, count, kept) =
        run_sweep_total rows w now db₁ (known, h) in
      let recorded = record_run-accepts row observed result now db h known in
      (run ∷ runs, db₂, ground (arith, recorded, ran), rw ids refl, all_known, count, kept)
