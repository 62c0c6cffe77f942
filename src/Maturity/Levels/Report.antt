-- ===== src/Maturity/Levels/Report.antt =====
-- arcanium/api/src/maturity/scorer.js: the report that computeMaturity builds. The scores of the
-- dimensions, which do not decide the level, are given.
use arcanium.Prelude.{
  ℕ, String, Bool, Option, none, some, List, [], ◌∷◌, map, ltb, eqb, if◌then◌else◌, or_default,
  length, select, includes,
}
use arcanium.Maturity.Controls.{Status, unknown, Confidence, Assessment}
use arcanium.Maturity.Controls.Runs.{Evidence, run_control_assessment}
use arcanium.Maturity.Levels.{
  is_pass, Rollup, rollup_by_control, status_of, gated_level, level_cap_reason, compute_coverage,
  compute_confidence, mandatory_controls_per_level,
}

-- A row of the table `controls`, and the same with its status.
pub record Control : Type 0 where
  pub id : String
  pub requirement : String
  pub mandatory : Bool
  pub dimension : String

pub record Scored : Type 0 where
  pub control : Control
  pub status : Status

pub record Check : Type 0 where
  pub id : String
  pub name : String
  pub level : Option ℕ
  pub passed : Bool

pub data Class : Type 0 where
  no_score : Class
  low_score : Class
  mid_score : Class
  high_score : Class

unfoldable pub cls : ℕ → Class
cls score =
    if eqb score 0
    then no_score
    else if ltb score 45
    then low_score
    else if ltb score 75
    then mid_score
    else high_score

pub record Dimension : Type 0 where
  pub id : String
  pub score : ℕ

pub record MaturityReport : Type 0 where
  pub level : ℕ
  pub level_name : String
  pub cap_reason : Option (List (String × Status))
  pub coverage : ℕ
  pub confidence : Confidence
  pub controls : List Scored
  pub dimensions : List (Dimension × Class)
  pub checks : List Check
  pub score : ℕ
  pub max_score : ℕ

unfoldable pub level_name : ℕ → String
level_name level =
    if eqb level 0
    then "Unaware"
    else if eqb level 1
    then "Reactive"
    else if eqb level 2
    then "Defined"
    else if eqb level 3
    then "Managed"
    else if eqb level 4
    then "Optimised"
    else "Governed"

abbrev level_within : List (ℕ × List String) → String → Option ℕ
level_within [] id = none
level_within ((l, ids) ∷ entries) id = if includes ids id then some l else level_within entries id

-- The first level that asks for the control.
unfoldable pub level_of : String → Option ℕ
level_of id = level_within mandatory_controls_per_level id

abbrev pub scored_by : Rollup → Control → Scored
scored_by rollup c = record { control = c; status = or_default (status_of rollup c.id) unknown }

abbrev pub is_passed : Scored → Bool
is_passed c = is_pass c.status

abbrev pub check_of : Scored → Check
check_of c = record {
  id = c.control.id;
  name = c.control.requirement;
  level = level_of c.control.id;
  passed = is_passed c;
}

abbrev pub classed : Dimension → Dimension × Class
classed d = (d, cls d.score)

module _ (accepts : Assessment → Bool) where
  abbrev pub report_of : List Dimension → List Control → List Assessment → MaturityReport
  report_of dims catalogue assessments =
      let rollup = rollup_by_control assessments in
      let level = gated_level rollup in
      let controls = map (scored_by rollup) catalogue in
      record {
        level = level;
        level_name = level_name level;
        cap_reason = level_cap_reason rollup level;
        coverage = compute_coverage assessments;
        confidence = compute_confidence assessments;
        controls = controls;
        dimensions = map classed dims;
        checks = map check_of controls;
        score = length (select is_passed controls);
        max_score = length controls;
      }

  -- The report, and the log of evidence after the run that it is made from.
  unfoldable pub compute_maturity :
      ℕ
      → Evidence
      → List Dimension
      → List Control
      → List Assessment
      → MaturityReport × List Assessment
  compute_maturity now evidence dims catalogue log =
      let run = run_control_assessment accepts now evidence log in
      (report_of dims catalogue run.0, run.1)
