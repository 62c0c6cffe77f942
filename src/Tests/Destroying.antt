-- ===== src/Tests/Destroying.antt =====
-- The execution of approved destructions on one key.
use arcanium.Prelude.{
  ℕ, ◌≤◌, ◌≡◌, refl, ◌⊎◌, Bool, true, false, Option, none, some, [], ◌∷◌, arith, if◌then◌else◌,
  last?, AllOf,
}
use arcanium.Reconciliation.Engine.{RunRow, ActionRow, Db, compute_disposition}
use arcanium.Reconciliation.Engine.Actions.{answered, accept_exception}
use arcanium.Reconciliation.Diff.{no_detail}
use arcanium.Reconciliation.Json.{null}
use arcanium.Approvals.Execution.{
  Approval, Policy, Application, Tables, KeyMeta, vault_404, vault_error, replied, refused,
  set_deletion_allowed, delete_key, Vault, skipped, Tick, claim, process, destroy_transit_key,
  execute_approved_destroys, run_rounds, next_tick, claim_and_process_one, mark_executed,
  has_live_destroy_intent, resolve_key_location,
}
use arcanium.Approvals.Execution.Calls.{OnKey, destroy_restores}
use arcanium.Approvals.Execution.Rounds.{IsBalanced, executes_all}
use arcanium.Approvals.Execution.Safety.{IsJustified, execute_approved_destroys-IsJustified}
use arcanium.Approvals.Execution.Exceptions.{excepted_key_is_skipped}

-- Vault holds one key, which may be protected, and refuses to delete it while it is.
abbrev one_key : Vault (Option KeyMeta)
one_key = record {
  read_key = λ ns key_name v. elim v [ none ↦ refused vault_404 | some live ↦ replied live ];
  configure = λ ns key_name allowed v. elim v [
    | none ↦ (none, refused vault_404)
    | some live ↦ (some (record live { deletion_allowed = allowed }), replied tt)
  ];
  delete = λ ns key_name v. elim v [
    | none ↦ (none, refused vault_404)
    | some live ↦
        if live.deletion_allowed
        then (none, replied tt)
        else (some live, refused (vault_error "deletion is not allowed"))
  ];
}

abbrev protected_key : KeyMeta
protected_key = record { latest_version = 3; deletion_allowed = false }

abbrev request : Approval
request = record {
  id = 21;
  key_name = "payments";
  app_id = some 1;
  action = "revoke";
  status = "approved";
  pinned_key_version = some 3;
  executed_at = none;
  updated_at = 50;
}

abbrev later_request : Approval
later_request = record request { id = 22; updated_at = 60 }

abbrev drifted_run : RunRow
drifted_run = record {
  id = 11;
  desired_state_id = 4;
  desired_state_version = 1;
  observed_value = null;
  status = "DRIFTED";
  observed_at = 100;
  detail = no_detail;
  noted_expiry = false;
}

abbrev expired_policy : Policy
expired_policy = record {
  id = 4;
  application_id = 1;
  key_name = "payments";
  requirement = "expiry_date";
  archived = false;
}

abbrev payments : Application
payments = record {
  id = 1;
  offboarding_initiated = false;
  offboarded = false;
  namespace = some "acme";
}

abbrev tables : Tables
tables = record {
  approvals = later_request ∷ request ∷ [];
  policies = expired_policy ∷ [];
  applications = payments ∷ [];
  reconciliation = record { runs = drifted_run ∷ []; actions = []; next_run = 12; emitted = [] };
}

destroy_restores_example :
    let d =
      destroy_transit_key one_key (some "acme") "payments" protected_key (some protected_key) in
    AllOf (OnKey one_key (some "acme") "payments") d.calls
    × (d.thrown ≡ false → last? d.calls ≡ some (delete_key (some "acme") "payments"))
    × (d.thrown ≡ true
        → protected_key.deletion_allowed ≡ false
        → (d.calls ≡ set_deletion_allowed (some "acme") "payments" true ∷ [])
          ⊎ (last? d.calls ≡ some (set_deletion_allowed (some "acme") "payments" false)))
destroy_restores_example =
    destroy_restores one_key (some "acme") "payments" protected_key (some protected_key)

abbrev always : ℕ → Bool
always n = true

abbrev never : ℕ → Bool
never n = false

executes_all_example :
    (end : Tick (Option KeyMeta)) × (execute_approved_destroys one_key always 200 tables
        (some protected_key)
      ≡ some end)
    × IsBalanced end
    × (claim end.exclude end.tables.approvals ≡ none)
    × (end.totals.checked ≤ 2)
executes_all_example = executes_all one_key always 200 tables (some protected_key) (λ n. refl)

-- The first request destroys the key; the second finds it gone.
abbrev last_tick : Tick (Option KeyMeta)
last_tick = record {
  totals = record { checked = 2; executed = 2; failed = 0; skipped = 0 };
  exclude = 22 ∷ 21 ∷ [];
  calls =
      set_deletion_allowed (some "acme") "payments" true ∷ delete_key (some "acme") "payments" ∷ [];
  tables = record tables {
    approvals =
        record later_request { executed_at = some 200 }
        ∷ record request { executed_at = some 200 }
        ∷ [];
  };
  vault = none;
}

whole_tick :
    execute_approved_destroys one_key always 200 tables (some protected_key) ≡ some last_tick
unfolding execute_approved_destroys run_rounds next_tick claim_and_process_one claim process
    has_live_destroy_intent resolve_key_location destroy_transit_key mark_executed
    compute_disposition
whole_tick = refl

execute_approved_destroys-IsJustified_example :
    AllOf (IsJustified one_key 200 tables) last_tick.calls
execute_approved_destroys-IsJustified_example =
    execute_approved_destroys-IsJustified one_key 200 always tables (some protected_key) last_tick
      whole_tick

excepted_key_is_skipped_example :
    (a : ActionRow) × (db : Db) × (accept_exception 11 "carol"
        (some "migration")
        (some 900)
        150
        tables.reconciliation
      ≡ answered (a, db))
    × (let t' = record tables { reconciliation = db } in
        process one_key request 200 t' (some protected_key)
        ≡ record { ending = skipped; calls = []; tables = t'; vault = some protected_key })
excepted_key_is_skipped_example =
    excepted_key_is_skipped one_key 11 drifted_run "carol" "migration" 900 150 200 tables request
      (some protected_key) refl refl refl (λ e. refl, tt) refl (omega arith)
