-- ===== src/Reconciliation/Engine.antt =====
-- arcanium/api/src/reconciliation/engine.js: runs, their events, and the disposition of a drift.
-- Rows are as the joins give them. Tables are lists with the newest row first; `now` is in
-- milliseconds, and so is an `expires_at`.
pub mod Actions
pub mod Sweeps
pub mod Events
pub mod Dispositions
pub mod Governance
pub mod Confirmation
use arcanium.Prelude.{
  ℕ, zero, suc, ◌+◌, ◌-◌, ◌*◌, ◌/◌, ◌≤◌, ◌<◌, String, ◌≡◌, refl, sym, ap, ◌∙◌, ◌≢◌, ◌↔◌, ◌⊎◌, inl,
  inr, Bool, true, false, not, ◌&&◌, ◌||◌, Option, none, some, List, [], ◌∷◌, ◌++◌, map, arith,
  ◌==◌, eq_iff, eq_refl, ltb, leb, eqb, if◌then◌else◌, Bool-cases, Option-cases, is_some,
  or_default, truthy, length, select, any, all, first?, last?, length-append, length-select-le,
  includes, AnyOf, AllOf, agree, all-includes, includes-AnyOf, AnyOf-includes, AnyOf-map,
  AnyOf-map_all, AnyOf-elim, ◌<|>◌, first_match, first_match-AnyOf, AnyOf-first_match,
  first_match-result,
}
use arcanium.Domain.StateMachines.{
  Checked, legal, illegal_transition, observation_status_states, assert_transition,
}
use arcanium.Reconciliation.Json.{Json, null}
use arcanium.Reconciliation.Diff.{
  Observed, Detail, Comparison, no_detail, compare, compare_rotation_period, compare_expiry_date,
}

-- A row of desired_state with its application, its tenant and its profile.
pub record Row : Type 0 where
  pub id : ℕ
  pub application_id : ℕ
  pub supplier_id : Option String
  pub namespace : Option String
  pub vault_path : Option String
  pub key_name : String
  pub requirement : String
  pub desired_value : Json
  pub version : ℕ

-- A row of reconciliation_runs.
pub record RunRow : Type 0 where
  pub id : ℕ
  pub desired_state_id : ℕ
  pub desired_state_version : ℕ
  pub observed_value : Json
  pub status : String
  pub observed_at : ℕ
  pub detail : Detail
  -- whether the text of the detail says that the expiry approaches
  pub noted_expiry : Bool

-- A row of reconciliation_actions.
pub record ActionRow : Type 0 where
  pub run_id : ℕ
  pub action : String
  pub actor : String
  pub result : String
  pub reason : Option String
  pub expires_at : Option ℕ

pub record Event : Type 0 where
  pub name : String
  pub desired_state_id : ℕ
  pub run_id : ℕ

pub record Db : Type 0 where
  pub runs : List RunRow
  pub actions : List ActionRow
  pub next_run : ℕ
  -- what `emitEvent` was called with, the newest first
  pub emitted : List Event

pub data Outcome (A : Type 0) : Type 0 where
  returns : A → Outcome A
  throws : String → Outcome A

abbrev pub prior_of : ℕ → List RunRow → Option String
prior_of id [] = none
prior_of id (r ∷ runs) = if eqb r.desired_state_id id then some r.status else prior_of id runs

-- `priorStatus && priorStatus !== result.status`
abbrev check_prior : Option String → String → Checked
check_prior none status = legal
check_prior (some prior) status =
    if not (truthy (some prior)) || prior == status
    then legal
    else assert_transition observation_status_states (some prior) status

abbrev pub changed : Option String → String → Bool
changed none status = true
changed (some prior) status = not (prior == status)

abbrev pub event_name : String → Option String
event_name status =
    if status == "DRIFTED"
    then some "reconciliation.drifted"
    else if status == "COMPLIANT"
    then some "reconciliation.compliant"
    else none

abbrev pub events_of : Option String → ℕ → ℕ → List Event
events_of none id run_id = []
events_of (some name) id run_id =
    record { name = name; desired_state_id = id; run_id = run_id } ∷ []

abbrev pub status_event : Option String → Comparison → ℕ → ℕ → List Event
status_event prior result id run_id =
    if changed prior result.status then events_of (event_name result.status) id run_id else []

abbrev pub expiry_event : Option String → Comparison → ℕ → ℕ → List Event
expiry_event prior result id run_id =
    if result.approaching_expiry && changed prior "COMPLIANT"
    then record { name = "key.expiry_approaching"; desired_state_id = id; run_id = run_id } ∷ []
    else []

abbrev pub new_run : Row → Observed → Comparison → ℕ → ℕ → RunRow
new_run row observed result run_id now = record {
  id = run_id;
  desired_state_id = row.id;
  desired_state_version = row.version;
  observed_value = observed.value;
  status = result.status;
  observed_at = now;
  detail = result.detail;
  noted_expiry = result.approaching_expiry;
}

abbrev pub insert_run : Row → Observed → Comparison → Option String → ℕ → Db → Db
insert_run row observed result prior now db = record db {
  runs = new_run row observed result db.next_run now ∷ db.runs;
  next_run = suc db.next_run;
  emitted =
      expiry_event prior result row.id db.next_run
      ++ (status_event prior result row.id db.next_run ++ db.emitted);
}

abbrev pub if_legal : {A : Type 0} → Checked → A → Outcome A
if_legal legal x = returns x
if_legal (illegal_transition from to) x = throws "illegal transition"

unfoldable pub record_run : Row → Observed → Comparison → ℕ → Db → Outcome (RunRow × Db)
record_run row observed result now db =
    let prior = prior_of row.id db.runs in
    if_legal (check_prior prior result.status)
      (new_run row observed result db.next_run now, insert_run row observed result prior now db)

-- `latestAction`: the newest action on any run of the desired state.
abbrev pub is_run_of : ℕ → ℕ → List RunRow → Bool
is_run_of id run_id [] = false
is_run_of id run_id (r ∷ runs) =
    eqb r.id run_id && eqb r.desired_state_id id || is_run_of id run_id runs

abbrev pub latest_action : ℕ → List RunRow → List ActionRow → Option ActionRow
latest_action id runs [] = none
latest_action id runs (a ∷ actions) =
    if is_run_of id a.run_id runs then some a else latest_action id runs actions

-- `!action.expires_at || new Date(action.expires_at) > new Date()`
abbrev pub still_valid : Option ℕ → ℕ → Bool
still_valid none now = true
still_valid (some expires_at) now = ltb now expires_at

unfoldable pub compute_disposition : Option ActionRow → String → ℕ → String
compute_disposition none status now = "OPEN"
compute_disposition (some a) status now =
    if not (a.result == "applied")
    then "OPEN"
    else if a.action == "accept_exception"
    then if still_valid a.expires_at now then "EXCEPTION_ACCEPTED" else "OPEN"
    else if a.action == "reconcile" && status == "COMPLIANT"
    then "RECONCILED"
    else "OPEN"

abbrev pub get_disposition_for : ℕ → String → ℕ → Db → String
get_disposition_for id status now db =
    compute_disposition (latest_action id db.runs db.actions) status now

-- `OBSERVERS` and the calls of Vault and of the approvals that the engine makes.
pub record Outside (W : Type 0) : Type 0 where
  pub observe_rotation_period : Row → W → Observed
  pub observe_expiry_date : Row → W → Observed
  pub apply_rotation_period : Row → W → W × Outcome Unit
  pub request_key_destroy : Row → String → W → W × Outcome ℕ

abbrev pub unregistered : Observed
unregistered = record {
  value = null;
  status = "UNKNOWN";
  detail = some "no observer registered for requirement";
}

module _ (parse_date : String → Option ℕ) {W : Type 0} (outside : Outside W) where
  unfoldable pub compare_for : ℕ → Row → Observed → Comparison
  compare_for now row observed =
      if row.requirement == "expiry_date"
      then compare_expiry_date parse_date now row.desired_value observed
      else if row.requirement == "rotation_period"
      then compare_rotation_period parse_date now row.desired_value observed
      else compare row.desired_value observed

  abbrev pub observe : Row → W → Observed
  observe row w =
      if row.requirement == "rotation_period"
      then outside.observe_rotation_period row w
      else if row.requirement == "expiry_date"
      then outside.observe_expiry_date row w
      else unregistered

  abbrev pub sweep_row : Row → W → ℕ → Db → Outcome (RunRow × Db)
  sweep_row row w now db =
      let observed = observe row w in record_run row observed (compare_for now row observed) now db

  -- The rows in turn; an exception leaves the loop.
  unfoldable pub run_sweep : List Row → W → ℕ → Db → Outcome (List RunRow × Db)
  run_sweep [] w now db = returns ([], db)
  run_sweep (row ∷ rows) w now db = elim (sweep_row row w now db) [
    | throws message ↦ throws message
    | returns (run, db₁) ↦ elim (run_sweep rows w now db₁) [
      | throws message ↦ throws message
      | returns (runs, db₂) ↦ returns (run ∷ runs, db₂)
    ]
  ]

-- `WHERE ds.id = ?`, `WHERE a.supplier_id = ANY(?)`, or no condition.
pub data Selection : Type 0 where
  one_row : ℕ → Selection
  of_suppliers : List String → Selection
  whole_estate : Selection

abbrev pub is_among : Option String → List String → Bool
is_among none ids = false
is_among (some id) ids = includes ids id

abbrev pub is_chosen : Selection → Row → Bool
is_chosen (one_row id) row = eqb row.id id
is_chosen (of_suppliers ids) row = is_among row.supplier_id ids
is_chosen whole_estate row = true

unfoldable pub desired_state_rows_for : Selection → List Row → List Row
desired_state_rows_for selection rows = select (is_chosen selection) rows
