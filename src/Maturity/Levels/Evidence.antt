-- ===== src/Maturity/Levels/Evidence.antt =====
-- arcanium/api/src/maturity/controls.js: the evidence behind a level, back to the rows that the
-- assessors read.
use arcanium.Prelude.{
  ℕ, ◌-◌, ◌≤◌, String, ◌≡◌, refl, ◌⊎◌, Bool, true, Option, none, some, List, [], ◌∷◌, ◌++◌, map,
  arith, eq_iff, eq_refl, first?, AllOf,
}
use mathlib.Core.Path.{subst}
use arcanium.Maturity.Controls.{
  judge_latest, pass, not_applicable, Assessment, value, Run, IntentRow, status_of_run,
  judge_intent, rot_pol_ttl_ms, neg_authz_ttl_ms, assess_rotation_policy,
}
use arcanium.Maturity.Controls.Estate.{ScenarioRun, assess_negative_authz, scenario_status}
use arcanium.Maturity.Controls.Runs.{Evidence, run_control_assessment, batches, flat, caught}
use arcanium.Maturity.Levels.Rollups.{IsClean, is_of}
use arcanium.Maturity.Levels.Report.{Dimension, Control, compute_maturity}
use arcanium.Maturity.Levels.Standing.{maturity_exact}

AllOf-append {ℓ} :
    {A : Type ℓ} (P : A → Type 0) (xs ys : List A) → AllOf P (xs ++ ys) → AllOf P xs × AllOf P ys
AllOf-append P [] ys h = (tt, h)
AllOf-append P (x ∷ xs) ys (a, h) = let (p, q) = AllOf-append P xs ys h in ((a, p), q)

AllOf-flat {ℓ} :
    {A : Type ℓ} (P : A → Type 0) (xss : List (List A)) → AllOf P (flat xss) → AllOf (AllOf P) xss
AllOf-flat P [] h = tt
AllOf-flat P (xs ∷ xss) h = let (p, q) = AllOf-append P xs (flat xss) h in (p, AllOf-flat P xss q)

-- The intent was found COMPLIANT at most an hour before.
abbrev pub IsReconciled : ℕ → IntentRow → Type 0
IsReconciled now r =
    (run : Run) × (r.latest ≡ some run)
    × (run.verdict ≡ "COMPLIANT")
    × (now - run.observed_at ≤ rot_pol_ttl_ms)

-- A status that stands in no one's way comes of a fresh run that found compliance.
clean_run :
    (now : ℕ) (run : Run)
    → (status_of_run now run ≡ pass) ⊎ (status_of_run now run ≡ not_applicable)
    → (run.verdict ≡ "COMPLIANT") × (now - run.observed_at ≤ rot_pol_ttl_ms)
unfolding status_of_run
clean_run now run h =
    (ground (arith, eq_iff run.verdict "COMPLIANT"), ground (arith, eq_iff run.verdict "COMPLIANT"))

latest_control :
    (control : String) (now : ℕ) (r : IntentRow) (o : Option Run)
    → (judge_latest control now r o).control_id ≡ control
latest_control control now r none = refl
latest_control control now r (some run) = refl

clean_latest :
    (control : String) (now : ℕ) (r : IntentRow) (o : Option Run)
    → IsClean (judge_latest control now r o)
    → (run : Run) × (o ≡ some run)
      × (run.verdict ≡ "COMPLIANT")
      × (now - run.observed_at ≤ rot_pol_ttl_ms)
clean_latest control now r none h = absurd (ground arith)
clean_latest control now r (some run) h =
    let (verdict, fresh) = clean_run now run h in (run, refl, verdict, fresh)

intents_clean :
    (control : String) (now : ℕ) (rows : List IntentRow)
    → AllOf (λ a. is_of control a ≡ true → IsClean a) (map (judge_intent control now) rows)
    → AllOf (IsReconciled now) rows
unfolding judge_intent
intents_clean control now [] h = tt
intents_clean control now (r ∷ rows) (h, hs) =
    let same = latest_control control now r r.latest in
    (
      clean_latest control now r r.latest (h (rw same (eq_refl control))),
      intents_clean control now rows hs,
    )

rotation_batch :
    (now : ℕ) (rows : List IntentRow)
    → AllOf
        (λ a. is_of "ROT-POL-01" a ≡ true → IsClean a)
        (caught "assessRotationPolicy" (assess_rotation_policy now (value rows)))
    → AllOf (IsReconciled now) rows
unfolding caught assess_rotation_policy
rotation_batch now [] h = tt
rotation_batch now (r ∷ rows) h = intents_clean "ROT-POL-01" now (r ∷ rows) h

-- The last run of the hostile scenario is at most a week old, and nothing failed in it.
abbrev pub IsRecentlyClean : ℕ → ScenarioRun → Type 0
IsRecentlyClean now run = (run.failed_count ≡ 0) × (now - run.ran_at ≤ neg_authz_ttl_ms)

clean_scenario :
    (now : ℕ) (run : ScenarioRun)
    → (scenario_status now run ≡ pass) ⊎ (scenario_status now run ≡ not_applicable)
    → IsRecentlyClean now run
unfolding scenario_status
clean_scenario now run h = (ground arith, ground arith)

scenario_batch :
    (now : ℕ) (runs : List ScenarioRun)
    → AllOf
        (λ a. is_of "NEG-AUTHZ-01" a ≡ true → IsClean a)
        (caught "assessNegativeAuthz" (assess_negative_authz now (value runs)))
    → (run : ScenarioRun) × (first? runs ≡ some run) × IsRecentlyClean now run
unfolding caught assess_negative_authz
scenario_batch now [] (h, _) = absurd (ground arith)
scenario_batch now (run ∷ runs) (h, _) = (run, refl, clean_scenario now run (h refl))

-- The latest run is such a one.
abbrev pub HasCleanRun : ℕ → List ScenarioRun → Type 0
HasCleanRun now runs = (run : ScenarioRun) × (first? runs ≡ some run) × IsRecentlyClean now run

-- What each assessment of one control satisfies, in its own batch.
abbrev CleanFor : String → List Assessment → Type 0
CleanFor id assessments = AllOf (λ a. is_of id a ≡ true → IsClean a) assessments

rotation_of_batches :
    (now : ℕ) (e : Evidence) (rows : List IntentRow)
    → e.rotation_intents ≡ value rows
    → CleanFor "ROT-POL-01" (flat (batches now e))
    → AllOf (IsReconciled now) rows
unfolding batches
rotation_of_batches now e rows read h =
    let split = AllOf-flat (λ a. is_of "ROT-POL-01" a ≡ true → IsClean a) (batches now e) h in
    rotation_batch now rows (
      subst
        (λ intents.
          CleanFor "ROT-POL-01"
            (caught "assessRotationPolicy" (assess_rotation_policy now intents)))
        read split.1.1.0)

scenario_of_batches :
    (now : ℕ) (e : Evidence) (runs : List ScenarioRun)
    → e.scenarios ≡ value runs
    → CleanFor "NEG-AUTHZ-01" (flat (batches now e))
    → HasCleanRun now runs
unfolding batches
scenario_of_batches now e runs read h =
    let split = AllOf-flat (λ a. is_of "NEG-AUTHZ-01" a ≡ true → IsClean a) (batches now e) h in
    scenario_batch now runs (
      subst
        (λ found.
          CleanFor "NEG-AUTHZ-01" (caught "assessNegativeAuthz" (assess_negative_authz now found)))
        read split.1.1.1.1.1.1.1.0)

module _ (accepts : Assessment → Bool) where
  -- At level 3 and above, where the intents of rotation and the runs of the hostile scenario can be
  -- read, each of these intents was found COMPLIANT within the hour, and the latest of these runs is
  -- at most a week old, without a failure.
  pub level_3_is_evidenced :
      (now : ℕ) (e : Evidence) (dims : List Dimension) (catalogue : List Control)
      (log : List Assessment) (rows : List IntentRow) (runs : List ScenarioRun)
      → e.rotation_intents ≡ value rows
      → e.scenarios ≡ value runs
      → 3 ≤ (compute_maturity accepts now e dims catalogue log).0.level
      → AllOf (IsReconciled now) rows × HasCleanRun now runs
  unfolding run_control_assessment
  level_3_is_evidenced now e dims catalogue log rows runs read found h =
      let each =
        (maturity_exact accepts now e dims catalogue log 3 (omega arith) (omega arith)).0 h in
      let clean = scenario_of_batches now e runs found each.1.1.1.1.1.0.1 in
      (rotation_of_batches now e rows read each.1.1.0.1, clean)
