-- ===== src/Approvals/Execution/Exceptions.antt =====
-- arcanium/api/src/approval-execution.js with reconciliation/engine.js: an accepted exception holds
-- back a destruction that was approved.
use arcanium.Prelude.{
  ℕ, ◌<◌, String, ◌≡◌, refl, ap, ◌∙◌, inl, inr, true, false, Option, none, some, List, [], ◌∷◌,
  ◌==◌, eq_iff, Bool-cases, truthy, select, any, AllOf,
}
use arcanium.Reconciliation.Engine.{RunRow, ActionRow, Db, prior_of, get_disposition_for}
use arcanium.Reconciliation.Engine.Actions.{answered, find_run, accept_exception}
use arcanium.Reconciliation.Engine.Governance.{accept_exception_holds}
use arcanium.Approvals.Execution.{
  Approval, Policy, Tables, skipped, Vault, process, has_live_destroy_intent, is_policy_of,
  is_open_drift, drifts_openly, is_leaving,
}

-- Every policy on the key is that of one desired state.
abbrev pub IsOnly : Option ℕ → String → ℕ → Policy → Type 0
IsOnly app key_name id p = is_policy_of app key_name p ≡ true → p.id ≡ id

open_drift-closed :
    (prior : Option String) (id now : ℕ) (db : Db)
    → get_disposition_for id "DRIFTED" now db ≡ "EXCEPTION_ACCEPTED"
    → is_open_drift prior id now db ≡ false
open_drift-closed none id now db h = refl
open_drift-closed (some status) id now db h = elim (Bool-cases (status == "DRIFTED")) [
  | inr other ↦ rw other refl
  | inl same ↦ rw ((eq_iff status "DRIFTED").0 same, h) refl
]

no_open_drift :
    (app : Option ℕ) (key_name : String) (id now : ℕ) (db : Db) (policies : List Policy)
    → AllOf (IsOnly app key_name id) policies
    → get_disposition_for id "DRIFTED" now db ≡ "EXCEPTION_ACCEPTED"
    → any (drifts_openly now db) (select (is_policy_of app key_name) policies) ≡ false
no_open_drift app key_name id now db [] h e = refl
no_open_drift app key_name id now db (p ∷ policies) (h, hs) e =
    let rest = no_open_drift app key_name id now db policies hs e in
    elim (Bool-cases (is_policy_of app key_name p)) [
      | inr other ↦ rw other rest
      | inl mine ↦
          let shut : drifts_openly now db p ≡ false =
            open_drift-closed (prior_of p.id db.runs) p.id now db
              (ap (λ i. get_disposition_for i "DRIFTED" now db) (h mine) ∙ e) in
          rw (mine, shut) rest
    ]

module _ {V : Type 0} (vault : Vault V) where
  -- An exception is accepted on a drifted run, and on the tables that this leaves, before the exception
  -- expires, an approved request for a key whose only policy is the run's desired state, in an
  -- application that is not leaving, is processed: the request is skipped, and neither Vault nor a table
  -- is touched. Nothing is said of tables that another action, like a reconciliation, has changed since.
  pub excepted_key_is_skipped :
      (run_id : ℕ) (run : RunRow) (actor reason : String) (expires_at now later : ℕ) (t : Tables)
      (req : Approval) (v : V)
      → truthy (some reason) ≡ true
      → find_run run_id t.reconciliation.runs ≡ some run
      → run.status ≡ "DRIFTED"
      → AllOf (IsOnly req.app_id req.key_name run.desired_state_id) t.policies
      → any (is_leaving req.app_id) t.applications ≡ false
      → later < expires_at
      → (a : ActionRow) × (db : Db) × (accept_exception run_id actor
            (some reason)
            (some expires_at)
            now
            t.reconciliation
          ≡ answered (a, db))
        × (let t' = record t { reconciliation = db } in
            process vault req later t' v
            ≡ record { ending = skipped; calls = []; tables = t'; vault = v })
  unfolding process has_live_destroy_intent
  excepted_key_is_skipped run_id run actor reason expires_at now later t req v given found drifted
        only staying h =
      let (a, db, done, _, holds) =
        accept_exception_holds run_id run actor reason expires_at now t.reconciliation given found
          drifted in
      let quiet =
        no_open_drift req.app_id req.key_name run.desired_state_id later db t.policies only
          ((holds later).0 h) in
      (a, db, done, rw (quiet, staying) refl)
