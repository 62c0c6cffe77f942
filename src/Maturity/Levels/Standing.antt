-- ===== src/Maturity/Levels/Standing.antt =====
-- arcanium/api/src/maturity/scorer.js: what the level of the report says of the evidence.
use arcanium.Prelude.{
  ℕ, ◌≤◌, ◌≡◌, ◌↔◌, inl, inr, Bool, true, List, arith, leb, Bool-cases, AnyOf, AllOf, AnyOf-elim,
  all-AllOf, AllOf-iff,
}
use arcanium.Maturity.Controls.{Status, pass, not_applicable, Assessment}
use arcanium.Maturity.Controls.Runs.{Evidence, run_control_assessment}
use arcanium.Maturity.Levels.{rollup_by_control, passes, gated_level, mandatory_controls}
use arcanium.Maturity.Levels.Gates.{gated_level_exact}
use arcanium.Maturity.Levels.Rollups.{IsEvidenced, passes_exact, is_of, IsPassing}
use arcanium.Maturity.Levels.Report.{Dimension, Control, compute_maturity}

pub level_of_run :
    (n : ℕ) (assessments : List Assessment)
    → 1 ≤ n
    → n ≤ 5
    → (n ≤ gated_level (rollup_by_control assessments))
      ↔ AllOf (IsEvidenced assessments) (mandatory_controls n)
level_of_run n assessments l u =
    let r = rollup_by_control assessments in
    let gate = gated_level_exact r n l u in
    let each = all-AllOf (passes r) (mandatory_controls n) in
    let said =
      AllOf-iff (λ id. passes r id ≡ true) (IsEvidenced assessments) (mandatory_controls n)
        (passes_exact assessments) in
    (λ h. said.0 (each.0 (gate.0 h)), λ h. gate.1 (each.1 (said.1 h)))

module _ (accepts : Assessment → Bool) where
  -- The level of the report is at least n, for n from 1 to 5, exactly if for each mandatory control of
  -- level n some assessment of the run passes and every one passes or is not applicable.
  pub maturity_exact :
      (now : ℕ) (evidence : Evidence) (dims : List Dimension) (catalogue : List Control)
      (log : List Assessment) (n : ℕ)
      → 1 ≤ n
      → n ≤ 5
      → (n ≤ (compute_maturity accepts now evidence dims catalogue log).0.level)
        ↔ AllOf
            (IsEvidenced (run_control_assessment accepts now evidence log).0)
            (mandatory_controls n)
  unfolding compute_maturity
  maturity_exact now evidence dims catalogue log n l u =
      level_of_run n (run_control_assessment accepts now evidence log).0 l u

clash : (s : Status) → s ≡ not_applicable → s ≡ pass → ⊥
clash s e f = absurd (cc)

estate_blocks :
    (assessments : List Assessment)
    → AllOf (λ a. is_of "TEN-ISO-01" a ≡ true → a.status ≡ not_applicable) assessments
    → AnyOf (λ a. (is_of "TEN-ISO-01" a ≡ true) × IsPassing a) assessments
    → ⊥
estate_blocks assessments none_pass some_pass =
    AnyOf-elim (λ a. (is_of "TEN-ISO-01" a ≡ true) × IsPassing a)
      (λ a. is_of "TEN-ISO-01" a ≡ true → a.status ≡ not_applicable) ⊥
      (λ a not_app (is_it, passing). clash a.status (not_app is_it) passing) assessments none_pass
      some_pass

-- Where the tenant boundary is not applicable, the level is at most 1, although every other control
-- may pass.
pub inapplicable_caps :
    (assessments : List Assessment)
    → AllOf (λ a. is_of "TEN-ISO-01" a ≡ true → a.status ≡ not_applicable) assessments
    → gated_level (rollup_by_control assessments) ≤ 1
inapplicable_caps assessments h =
    elim (Bool-cases (leb (gated_level (rollup_by_control assessments)) 1)) [
      | inl le ↦ ground arith
      | inr more ↦
          let evidenced =
            (level_of_run 2 assessments (omega arith) (omega arith)).0 (ground arith) in
          absurd (estate_blocks assessments h evidenced.1.0.0)
    ]
