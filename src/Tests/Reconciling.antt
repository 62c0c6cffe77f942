-- ===== src/Tests/Reconciling.antt =====
-- Reconciliation on one key, with a rotation period and with a date of expiry.
use arcanium.Prelude.{
  ◌+◌, ℕ, ◌-◌, ◌*◌, ◌/◌, ◌≤◌, ◌<◌, String, ◌≡◌, refl, ◌≢◌, ◌↔◌, ◌⊎◌, true, false, Option, none,
  some, List, [], ◌∷◌, map, ◌==◌, if◌then◌else◌, AllOf,
}
use arcanium.Domain.StateMachines.{assert_transition, successors}
use arcanium.Reconciliation.Json.{Json, bool, num, text, obj, field, end, get_field}
use arcanium.Reconciliation.Diff.{
  Observed, Comparison, no_detail, compare_rotation_period, compare_expiry_date, is_false, instant,
  truthy_text, finite, ms_per_day, approaching_expiry_days,
}
use arcanium.Reconciliation.Diff.Verdicts.{rotation_exact, expiry_exact}
use arcanium.Reconciliation.Engine.{
  Row, RunRow, ActionRow, Db, returns, throws, Outside, record_run, run_sweep, compare_for,
  get_disposition_for, compute_disposition, prior_of, new_run, insert_run,
}
use arcanium.Reconciliation.Engine.Sweeps.{HasKnownStatus, onto, run_sweep_total, desired_state_of}
use arcanium.Reconciliation.Engine.Actions.{
  answered, Reconciled, reconcile_run, accept_exception, try_apply, conclude,
}
use arcanium.Reconciliation.Engine.Governance.{accept_exception_holds, reconcile_reopens}
use arcanium.Reconciliation.Engine.Confirmation.{reconcile_confirms}

-- Days of the year 2026, as milliseconds.
abbrev pub parse_day : String → Option ℕ
parse_day s =
    if s == "2026-01-10T00:00:00Z"
    then some (10 * ms_per_day)
    else if s == "2026-01-05"
    then some (5 * ms_per_day)
    else none

abbrev days : ℕ → Json
days n = obj (field "days" (num n) end)

abbrev seen : Json → Observed
seen value = record { value = value; status = "OK"; detail = none }

abbrev expiring : Json
expiring = obj (field "not_after" (text "2026-01-10") end)

abbrev alive : Json
alive = obj (field "active" (bool true) (field "observed_date" (text "2026-01-05") end))

known_ok : ◌≢◌ {A = String} "OK" "UNKNOWN"
known_ok e = absurd (cc)

-- A key of the right period, whose version is of 10 January.
abbrev aged : Json
aged =
    obj (
      field "days" (num 30)
        (field "latest_version_creation_time" (text "2026-01-10T00:00:00Z") end))

rotation_exact_example :
    let now = 50 * ms_per_day in
    let status = (compare_rotation_period parse_day now (days 30) (seen aged)).status in
    ((status ≡ "DRIFTED") ↔ (
      (is_false (get_field aged "active") ≡ false)
      × ((finite (get_field aged "days") ≢ some 30)
          ⊎ ((created : ℕ) × (instant parse_day now
                  (truthy_text (get_field aged "latest_version_creation_time"))
                ≡ some created)
              × ((30 + 1) * 86400000 + created < now)))))
    × ((status ≢ "DRIFTED") ↔ (status ≡ "COMPLIANT"))
rotation_exact_example =
    rotation_exact parse_day (50 * ms_per_day) (days 30) (seen aged) 30 known_ok refl

expiry_exact_example :
    let verdict = compare_expiry_date parse_day 0 expiring (seen alive) in
    let gone = is_false (get_field alive "active") in
    ((verdict.status ≡ "DRIFTED") ↔ ((gone ≡ false) × (10 * ms_per_day < 5 * ms_per_day)))
    × ((verdict.status ≢ "DRIFTED") ↔ (verdict.status ≡ "COMPLIANT"))
    × ((verdict.approaching_expiry ≡ true) ↔ (
        (gone ≡ false)
        × (5 * ms_per_day ≤ 10 * ms_per_day)
        × ((10 * ms_per_day - 5 * ms_per_day) / ms_per_day ≤ approaching_expiry_days)))
expiry_exact_example =
    expiry_exact parse_day 0 expiring (seen alive) "2026-01-10" (5 * ms_per_day) (10 * ms_per_day)
      known_ok refl refl refl

-- Vault holds the period of the one key, in days.
abbrev pub vault_of_days : Outside ℕ
vault_of_days = record {
  observe_rotation_period = λ row w. seen (days w);
  observe_expiry_date = λ row w. seen alive;
  apply_rotation_period = λ row w. (30, returns tt);
  request_key_destroy = λ row actor w. (w, throws "no registered application owns this key");
}

abbrev pub rotation_row : Row
rotation_row = record {
  id = 4;
  application_id = 1;
  supplier_id = some "s2";
  namespace = some "acme";
  vault_path = some "transit/keys/payments";
  key_name = "payments";
  requirement = "rotation_period";
  desired_value = days 30;
  version = 1;
}

abbrev expiry_row : Row
expiry_row = record rotation_row { requirement = "expiry_date"; desired_value = expiring }

abbrev drifted_run : RunRow
drifted_run = record {
  id = 11;
  desired_state_id = 4;
  desired_state_version = 1;
  observed_value = days 90;
  status = "DRIFTED";
  observed_at = 100;
  detail = no_detail;
  noted_expiry = false;
}

abbrev pub one_drift : Db
one_drift = record { runs = drifted_run ∷ []; actions = []; next_run = 12; emitted = [] }

run_sweep_total_example :
    (runs : List RunRow) × (db' : Db) × (run_sweep parse_day vault_of_days
        (rotation_row ∷ [])
        90
        200
        one_drift
      ≡ returns (runs, db'))
    × (map desired_state_of runs ≡ 4 ∷ [])
    × AllOf HasKnownStatus db'.runs
    × (db'.runs ≡ onto runs (drifted_run ∷ []))
    × (db'.actions ≡ [])
run_sweep_total_example =
    run_sweep_total parse_day vault_of_days (rotation_row ∷ []) 90 200 one_drift (refl, tt)

abbrev drift : Comparison
drift = record {
  status = "DRIFTED";
  detail = no_detail;
  drift = some (days 30, days 90);
  approaching_expiry = false;
}

abbrev pub recorded : ℕ → ℕ → Db → RunRow
recorded id now db = new_run rotation_row (seen (days 90)) drift id now

abbrev pub after_run : ℕ → Db → Db
after_run now db = insert_run rotation_row (seen (days 90)) drift (prior_of 4 db.runs) now db

abbrev fresh : Db
fresh = record one_drift { runs = [] }

first_record :
    record_run rotation_row (seen (days 90)) drift 100 fresh
    ≡ returns (recorded 12 100 fresh, after_run 100 fresh)
unfolding record_run assert_transition successors
first_record = refl

second_record :
    record_run rotation_row (seen (days 90)) drift 200 (after_run 100 fresh)
    ≡ returns (recorded 13 200 fresh, after_run 200 (after_run 100 fresh))
unfolding record_run assert_transition successors
second_record = refl

accept_exception_holds_example :
    (a : ActionRow) × (db' : Db) × (accept_exception 11 "carol"
        (some "migration")
        (some 900)
        200
        one_drift
      ≡ answered (a, db'))
    × (db'.runs ≡ one_drift.runs)
    × ((later : ℕ)
        → (later < 900 → get_disposition_for 4 "DRIFTED" later db' ≡ "EXCEPTION_ACCEPTED")
          × (900 ≤ later → get_disposition_for 4 "DRIFTED" later db' ≡ "OPEN"))
accept_exception_holds_example =
    accept_exception_holds 11 drifted_run "carol" "migration" 900 200 one_drift refl refl refl

-- The run has an accepted exception, and the request of the destruction is refused.
abbrev excepted : Db
excepted = record one_drift {
  actions =
      record {
        run_id = 11;
        action = "accept_exception";
        actor = "carol";
        result = "applied";
        reason = some "migration";
        expires_at = some 900;
      }
      ∷ [];
}

reconcile_reopens_example :
    (r : Reconciled ℕ) × (reconcile_run parse_day vault_of_days 11
        (expiry_row ∷ [])
        "olga"
        200
        excepted
        90
      ≡ answered r)
    × ((later : ℕ) → get_disposition_for 4 "DRIFTED" later r.db ≡ "OPEN")
reconcile_reopens_example =
    reconcile_reopens parse_day vault_of_days 11 drifted_run expiry_row (expiry_row ∷ []) "olga" 200
      excepted 90 refl refl refl

abbrev compliance : Comparison
compliance = record {
  status = "COMPLIANT";
  detail = no_detail;
  drift = none;
  approaching_expiry = false;
}

abbrev pub confirmed : Reconciled ℕ
confirmed = conclude parse_day vault_of_days 11 "olga" (record {
  result = "applied";
  detail = none;
  confirmation = some (new_run rotation_row (seen (days 30)) compliance 12 200);
  db = insert_run rotation_row (seen (days 30)) compliance (some "DRIFTED") 200 one_drift;
  world = 30;
})

pub confirmed-answered :
    reconcile_run parse_day vault_of_days 11 (rotation_row ∷ []) "olga" 200 one_drift 90
    ≡ answered confirmed
unfolding reconcile_run try_apply record_run compare_for compare_rotation_period compute_disposition
    assert_transition successors
confirmed-answered = refl

reconcile_confirms_example :
    (rotation_row.requirement ≡ "rotation_period")
    × (confirmed.world ≡ 30)
    × (prior_of 4 confirmed.db.runs ≡ some "COMPLIANT")
    × ((later : ℕ) → get_disposition_for 4 "COMPLIANT" later confirmed.db ≡ "RECONCILED")
reconcile_confirms_example =
    reconcile_confirms parse_day vault_of_days 11 drifted_run rotation_row (rotation_row ∷ [])
      "olga" 200 one_drift 90 confirmed refl refl (λ e. absurd (cc)) confirmed-answered refl
