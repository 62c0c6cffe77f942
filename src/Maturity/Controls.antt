-- ===== src/Maturity/Controls.antt =====
-- arcanium/api/src/maturity/controls.js: the assessment record, and the assessors that judge from
-- intents, from offboarded applications and from approvals. Times are milliseconds.

pub mod Estate
pub mod Runs
use Prim.Native.String
use arcanium.Prelude.{
  ℕ, zero, suc, ◌+◌, ◌-◌, ◌*◌, ◌/◌, ◌≤◌, ◌<◌, String, ◌≡◌, refl, sym, ap, ◌∙◌, ◌≢◌, ◌↔◌, ◌⊎◌, inl,
  inr, Bool, true, false, not, ◌&&◌, ◌||◌, Option, none, some, List, [], ◌∷◌, ◌++◌, map, arith,
  ◌==◌, eq_iff, eq_refl, ltb, leb, eqb, if◌then◌else◌, Bool-cases, Option-cases, is_some,
  or_default, truthy, length, select, any, all, first?, last?, length-append, length-select-le,
  includes, AnyOf, AllOf, agree, all-includes, includes-AnyOf, AnyOf-includes, AnyOf-map,
  AnyOf-map_all, AnyOf-elim, ◌<|>◌, first_match, first_match-AnyOf, AnyOf-first_match,
  first_match-result,
}
use arcanium.Reconciliation.Json.{Json, null, bool, num, text, obj, end, field}

pub data Status : Type 0 where
  pass : Status
  fail : Status
  unknown : Status
  not_applicable : Status

pub data Confidence : Type 0 where
  high : Confidence
  medium : Confidence
  low : Confidence

pub record Assessment : Type 0 where
  pub control_id : String
  pub scope : String
  pub status : Status
  pub desired_value : Option Json
  pub observed_value : Option Json
  pub evidence_refs : Json
  pub freshness_seconds : ℕ
  pub confidence : Confidence

-- What a query or a request gives; an error has its message and, from Vault, its `vaultStatus`.
pub data Read (A : Type 0) : Type 0 where
  value : A → Read A
  failed : String → Option ℕ → Read A

abbrev pub rot_pol_ttl_ms : ℕ
rot_pol_ttl_ms = 60 * 60 * 1000

abbrev pub neg_authz_ttl_ms : ℕ
neg_authz_ttl_ms = 7 * 24 * 60 * 60 * 1000

abbrev pub offboard_window_ms : ℕ
offboard_window_ms = 30 * 24 * 60 * 60 * 1000

-- `Math.max(0, Math.round(ms / 1000))`: a time that is still to come gives 0.
unfoldable pub freshness_seconds : ℕ → ℕ → ℕ
freshness_seconds now observed_at = (now - observed_at + 500) / 1000

abbrev pub detail_of : String → Json
detail_of d = obj (field "detail" (text d) end)

-- `assessment({...})` with its defaults, for a status without a value
abbrev pub assessment : String → String → Status → Json → Assessment
assessment control_id scope status evidence = record {
  control_id = control_id;
  scope = scope;
  status = status;
  desired_value = none;
  observed_value = none;
  evidence_refs = evidence;
  freshness_seconds = 0;
  confidence = high;
}

-- `key: flag || undefined`, which JSON.stringify leaves out
abbrev pub flagged : String → Bool → Json
flagged key false = obj end
flagged key true = obj (field key (bool true) end)

abbrev add_field : String → Json → Json → Json
add_field key v (obj fs) = obj (field key v fs)
add_field key v other = other

-- The latest reconciliation run of an intent, and the intent with its application.
pub record Run : Type 0 where
  pub run_id : ℕ
  pub verdict : String
  pub observed_value : Json
  pub observed_at : ℕ

pub record IntentRow : Type 0 where
  pub id : ℕ
  pub app_name : String
  pub vault_namespace : Option String
  pub key_name : String
  pub desired_value : Json
  pub latest : Option Run

abbrev path_of : IntentRow → String
path_of r =
    let ns = or_default r.vault_namespace "root" in
    String.◌++◌ ns (String.◌++◌ "/" (String.◌++◌ r.app_name (String.◌++◌ "/" r.key_name)))

abbrev pub is_stale : ℕ → Run → Bool
is_stale now run = ltb rot_pol_ttl_ms (now - run.observed_at)

abbrev verdict_of : String → Status
verdict_of v = if v == "COMPLIANT" then pass else if v == "DRIFTED" then fail else unknown

unfoldable pub status_of_run : ℕ → Run → Status
status_of_run now run = if is_stale now run then unknown else verdict_of run.verdict

-- `status === "UNKNOWN" ? "HIGH" : "MEDIUM"`
abbrev pub reused : Status → Confidence
reused unknown = high
reused _ = medium

abbrev run_evidence : ℕ → IntentRow → Run → Json
run_evidence now r run =
    add_field "reconciliation_run_id" (num run.run_id)
      (add_field "desired_state_id" (num r.id) (flagged "stale" (is_stale now run)))

abbrev pub judge_latest : String → ℕ → IntentRow → Option Run → Assessment
judge_latest control now r none =
    record (assessment control (path_of r) unknown
      (obj (field "desired_state_id" (num r.id) (field "detail" (text "never reconciled") end)))) {
        desired_value = some r.desired_value;
      }
judge_latest control now r (some run) =
    let status = status_of_run now run in
    record (assessment control (path_of r) status (run_evidence now r run)) {
      desired_value = some r.desired_value;
      observed_value = some run.observed_value;
      freshness_seconds = freshness_seconds now run.observed_at;
      confidence = reused status;
    }

unfoldable pub judge_intent : String → ℕ → IntentRow → Assessment
judge_intent control now r = judge_latest control now r r.latest

-- One assessment of the estate where there is nothing to judge, else one for each row.
abbrev pub each_or {ℓ} : {A : Type ℓ} → Assessment → (A → Assessment) → List A → List Assessment
each_or blank f [] = blank ∷ []
each_or blank f (x ∷ xs) = map f (x ∷ xs)

-- A query that throws makes the assessor throw.
abbrev pub when_read : {A : Type 0} → (A → List Assessment) → Read A → Read (List Assessment)
when_read f (value a) = value (f a)
when_read f (failed message code) = failed message code

unfoldable pub assess_rotation_policy : ℕ → Read (List IntentRow) → Read (List Assessment)
assess_rotation_policy now = when_read (
    each_or
      (assessment "ROT-POL-01" "estate" unknown
        (detail_of "no rotation-period desired state configured yet"))
      (judge_intent "ROT-POL-01" now))

unfoldable pub assess_key_expiry : ℕ → Read (List IntentRow) → Read (List Assessment)
assess_key_expiry now = when_read (
    each_or
      (assessment "KML-DESTR-01" "estate" unknown
        (detail_of "no expiry-date desired state configured yet"))
      (judge_intent "KML-DESTR-01" now))

-- An application whose offboarding has begun.
pub record Leaving : Type 0 where
  pub id : ℕ
  pub name : String
  pub offboarding_initiated_at : ℕ
  pub offboarded_at : Option ℕ

abbrev leaving_evidence : Leaving → Json → Json
leaving_evidence r rest =
    add_field "application_id" (num r.id)
      (add_field "offboarding_initiated_at" (num r.offboarding_initiated_at) rest)

abbrev pub overruns : ℕ → ℕ → Bool
overruns from until = ltb offboard_window_ms (until - from)

abbrev judge_leaving_at : ℕ → Leaving → Option ℕ → Assessment
judge_leaving_at now r none =
    assessment "KML-OFFBOARD-01" (String.◌++◌ "applications/" r.name)
      (if overruns r.offboarding_initiated_at now then fail else unknown)
      (leaving_evidence r (detail_of "offboarding still in progress"))
judge_leaving_at now r (some at) =
    record (assessment "KML-OFFBOARD-01" (String.◌++◌ "applications/" r.name)
      (if overruns r.offboarding_initiated_at at then fail else pass)
      (leaving_evidence r (
        obj (
          field "offboarded_at" (num at) (
            field "elapsed_days" (num ((at - r.offboarding_initiated_at + 43200000) / 86400000))
              end))))) { freshness_seconds = freshness_seconds now at }

unfoldable pub judge_leaving : ℕ → Leaving → Assessment
judge_leaving now r = judge_leaving_at now r r.offboarded_at

unfoldable pub assess_offboarding : ℕ → Read (List Leaving) → Read (List Assessment)
assess_offboarding now = when_read (
    each_or
      (assessment "KML-OFFBOARD-01" "estate" unknown
        (detail_of "no application has been offboarded yet"))
      (judge_leaving now))
