-- ===== src/Approvals/Execution.antt =====
-- arcanium/api/src/approval-execution.js: approved destroy requests take effect in Vault. The tables
-- and the calls of Vault are explicit, and each attempt yields the calls it made, in order.
pub mod Claims
pub mod Calls
pub mod Rounds
pub mod Safety
pub mod Exceptions
use arcanium.Prelude.{
  ℕ, zero, suc, ◌+◌, ◌-◌, ◌*◌, ◌/◌, ◌≤◌, ◌<◌, String, ◌≡◌, refl, sym, ap, ◌∙◌, ◌≢◌, ◌↔◌, ◌⊎◌, inl,
  inr, Bool, true, false, not, ◌&&◌, ◌||◌, Option, none, some, List, [], ◌∷◌, ◌++◌, map, arith,
  ◌==◌, eq_iff, eq_refl, ltb, leb, eqb, if◌then◌else◌, Bool-cases, Option-cases, is_some,
  or_default, truthy, length, select, any, all, first?, last?, length-append, length-select-le,
  includes, AnyOf, AllOf, agree, all-includes, includes-AnyOf, AnyOf-includes, AnyOf-map,
  AnyOf-map_all, AnyOf-elim, ◌<|>◌, first_match, first_match-AnyOf, AnyOf-first_match,
  first_match-result,
}
use arcanium.Reconciliation.Engine.{Db, prior_of, get_disposition_for}

-- A row of approval_requests.
pub record Approval : Type 0 where
  pub id : ℕ
  pub key_name : String
  pub app_id : Option ℕ
  pub action : String
  pub status : String
  pub pinned_key_version : Option ℕ
  pub executed_at : Option ℕ
  pub updated_at : ℕ

-- What the intent check reads of desired_state.
pub record Policy : Type 0 where
  pub id : ℕ
  pub application_id : ℕ
  pub key_name : String
  pub requirement : String
  pub archived : Bool

-- What it reads of applications.
pub record Application : Type 0 where
  pub id : ℕ
  pub offboarding_initiated : Bool
  pub offboarded : Bool
  pub namespace : Option String

pub record Tables : Type 0 where
  pub approvals : List Approval
  pub policies : List Policy
  pub applications : List Application
  pub reconciliation : Db

pub record KeyMeta : Type 0 where
  pub latest_version : ℕ
  pub deletion_allowed : Bool

pub data VaultError : Type 0 where
  vault_404 : VaultError
  vault_error : String → VaultError

-- An answer of Vault.
pub data Reply (A : Type 0) : Type 0 where
  replied : A → Reply A
  refused : VaultError → Reply A

pub data Call : Type 0 where
  set_deletion_allowed : Option String → String → Bool → Call
  delete_key : Option String → String → Call

-- Vault: its state is `V`.
pub record Vault (V : Type 0) : Type 0 where
  pub read_key : Option String → String → V → Reply KeyMeta
  pub configure : Option String → String → Bool → V → V × Reply Unit
  pub delete : Option String → String → V → V × Reply Unit

abbrev pub same_app : Option ℕ → ℕ → Bool
same_app none id = false
same_app (some app) id = eqb app id

abbrev pub is_policy_of : Option ℕ → String → Policy → Bool
is_policy_of app key_name p =
    same_app app p.application_id
    && (p.key_name == key_name && (p.requirement == "expiry_date" && not p.archived))

-- A row whose latest run is DRIFTED, and whose drift is open.
abbrev pub is_open_drift : Option String → ℕ → ℕ → Db → Bool
is_open_drift none id now db = false
is_open_drift (some status) id now db =
    status == "DRIFTED" && get_disposition_for id status now db == "OPEN"

abbrev pub drifts_openly : ℕ → Db → Policy → Bool
drifts_openly now db p = is_open_drift (prior_of p.id db.runs) p.id now db

abbrev pub is_leaving : Option ℕ → Application → Bool
is_leaving app a = same_app app a.id && (a.offboarding_initiated && not a.offboarded)

unfoldable pub has_live_destroy_intent : String → Option ℕ → ℕ → Tables → Bool
has_live_destroy_intent key_name app now t =
    any (drifts_openly now t.reconciliation) (select (is_policy_of app key_name) t.policies)
    || any (is_leaving app) t.applications

-- The tenant's namespace of a key, that of the application.
unfoldable pub resolve_key_location : Option ℕ → List Application → Option String
resolve_key_location app [] = none
resolve_key_location app (a ∷ applications) =
    if same_app app a.id then a.namespace else resolve_key_location app applications

abbrev pub is_listed : List ℕ → ℕ → Bool
is_listed ids id = any (λ x. eqb x id) ids

-- `WHERE status = 'approved' AND action = 'revoke' AND executed_at IS NULL AND NOT (id = ANY(?))`
abbrev pub is_claimable : List ℕ → Approval → Bool
is_claimable exclude a =
    a.status == "approved"
    && (a.action == "revoke" && (not (is_some a.executed_at) && not (is_listed exclude a.id)))

abbrev earlier : Approval → Option Approval → Approval
earlier a none = a
earlier a (some b) = if leb a.updated_at b.updated_at then a else b

abbrev claim_among : List ℕ → Approval → Option Approval → Option Approval
claim_among exclude a best = if is_claimable exclude a then some (earlier a best) else best

-- `ORDER BY updated_at ASC LIMIT 1`, on the rows that no other transaction has locked.
unfoldable pub claim : List ℕ → List Approval → Option Approval
claim exclude [] = none
claim exclude (a ∷ approvals) = claim_among exclude a (claim exclude approvals)

-- `UPDATE approval_requests SET executed_at = now() WHERE id = ?`
unfoldable pub mark_executed : ℕ → ℕ → List Approval → List Approval
mark_executed id now [] = []
mark_executed id now (a ∷ approvals) =
    let rest = mark_executed id now approvals in
    if eqb a.id id then record a { executed_at = some now } ∷ rest else a ∷ rest

pub data Ending : Type 0 where
  executed : Ending
  already_gone : Ending
  skipped : Ending
  version_mismatch : Ending
  -- the error is logged
  error : Ending

pub record Attempted (V : Type 0) : Type 0 where
  pub ending : Ending
  pub calls : List Call
  pub tables : Tables
  pub vault : V

-- What `destroyTransitKey` does: it returns or throws, after some calls.
pub record Destroyed (V : Type 0) : Type 0 where
  pub thrown : Bool
  pub calls : List Call
  pub vault : V

pub data Claimed (V : Type 0) : Type 0 where
  nothing_left : Claimed V
  attempted : Approval → Attempted V → Claimed V
  -- an error before a row was claimed, `{ id: null, outcome: "error" }`
  unclaimed : Claimed V

abbrev pub pins : Option ℕ → ℕ → Bool
pins none live = false
pins (some pinned) live = eqb live pinned

module _ {V : Type 0} (vault : Vault V) where
  abbrev restore : Option String → String → List Call → V → Destroyed V
  restore ns key_name calls v = record {
    thrown = true;
    calls = calls ++ set_deletion_allowed ns key_name false ∷ [];
    vault = (vault.configure ns key_name false v).0;
  }

  -- The `catch` block around the DELETE.
  abbrev settle_delete : Option String → String → Bool → List Call → V × Reply Unit → Destroyed V
  settle_delete ns key_name deletable calls (v, replied _) = record {
    thrown = false;
    calls = calls;
    vault = v;
  }
  settle_delete ns key_name deletable calls (v, refused vault_404) = record {
    thrown = false;
    calls = calls;
    vault = v;
  }
  settle_delete ns key_name deletable calls (v, refused (vault_error _)) =
      if deletable
      then record { thrown = true; calls = calls; vault = v }
      else restore ns key_name calls v

  abbrev send_delete : Option String → String → Bool → List Call → V → Destroyed V
  send_delete ns key_name deletable calls v =
      settle_delete ns key_name deletable (calls ++ delete_key ns key_name ∷ [])
        (vault.delete ns key_name v)

  abbrev settle_configure : Option String → String → V × Reply Unit → Destroyed V
  settle_configure ns key_name (v, refused _) = record {
    thrown = true;
    calls = set_deletion_allowed ns key_name true ∷ [];
    vault = v;
  }
  settle_configure ns key_name (v, replied _) =
      send_delete ns key_name false (set_deletion_allowed ns key_name true ∷ []) v

  unfoldable pub destroy_transit_key : Option String → String → KeyMeta → V → Destroyed V
  destroy_transit_key ns key_name live v =
      if live.deletion_allowed
      then send_delete ns key_name true [] v
      else settle_configure ns key_name (vault.configure ns key_name true v)

  abbrev ending_with : Ending → Tables → V → Attempted V
  ending_with ending t v = record { ending = ending; calls = []; tables = t; vault = v }

  abbrev pub executed_in : Approval → ℕ → Tables → Tables
  executed_in req now t = record t { approvals = mark_executed req.id now t.approvals }

  -- A throw rolls the transaction back.
  abbrev settle_destroy : Approval → ℕ → Tables → Destroyed V → Attempted V
  settle_destroy req now t d =
      if d.thrown
      then record { ending = error; calls = d.calls; tables = t; vault = d.vault }
      else record {
        ending = executed;
        calls = d.calls;
        tables = executed_in req now t;
        vault = d.vault;
      }

  abbrev settle_read : Approval → Option String → ℕ → Tables → V → Reply KeyMeta → Attempted V
  settle_read req ns now t v (refused vault_404) =
      ending_with already_gone (executed_in req now t) v
  settle_read req ns now t v (refused (vault_error _)) = ending_with error t v
  settle_read req ns now t v (replied live) =
      if pins req.pinned_key_version live.latest_version
      then settle_destroy req now t (destroy_transit_key ns req.key_name live v)
      else ending_with version_mismatch t v

  unfoldable pub process : Approval → ℕ → Tables → V → Attempted V
  process req now t v =
      let ns = resolve_key_location req.app_id t.applications in
      if has_live_destroy_intent req.key_name req.app_id now t
      then settle_read req ns now t v (vault.read_key ns req.key_name v)
      else ending_with skipped t v

  abbrev process_claimed : Option Approval → ℕ → Tables → V → Claimed V
  process_claimed none now t v = nothing_left
  process_claimed (some req) now t v = attempted req (process req now t v)

  -- `connects` is whether the transaction begins and the claim is answered.
  unfoldable pub claim_and_process_one : Bool → List ℕ → ℕ → Tables → V → Claimed V
  claim_and_process_one connects exclude now t v =
      if connects then process_claimed (claim exclude t.approvals) now t v else unclaimed

pub record Totals : Type 0 where
  pub checked : ℕ
  pub executed : ℕ
  pub failed : ℕ
  pub skipped : ℕ

abbrev pub count_ending : Ending → Totals → Totals
count_ending executed n = record n { checked = suc n.checked; executed = suc n.executed }
count_ending already_gone n = record n { checked = suc n.checked; executed = suc n.executed }
count_ending error n = record n { checked = suc n.checked; failed = suc n.failed }
count_ending skipped n = record n { checked = suc n.checked; skipped = suc n.skipped }
count_ending version_mismatch n = record n { checked = suc n.checked; skipped = suc n.skipped }

pub record Tick (V : Type 0) : Type 0 where
  pub totals : Totals
  pub exclude : List ℕ
  pub calls : List Call
  pub tables : Tables
  pub vault : V

-- `connects` answers for each round, by the number of rounds before it.
module _ {V : Type 0} (vault : Vault V) (connects : ℕ → Bool) (now : ℕ) where
  -- `if (result.id) excludeIds.push(result.id)`
  abbrev pub after_attempt : Approval → Attempted V → Tick V → Tick V
  after_attempt req a tick = record {
    totals = count_ending a.ending tick.totals;
    exclude = req.id ∷ tick.exclude;
    calls = tick.calls ++ a.calls;
    tables = a.tables;
    vault = a.vault;
  }

  abbrev pub after_unclaimed : Tick V → Tick V
  after_unclaimed tick = record tick { totals = count_ending error tick.totals }

  abbrev settle_round : Claimed V → Tick V → Option (Tick V)
  settle_round nothing_left tick = none
  settle_round (attempted req a) tick = some (after_attempt req a tick)
  settle_round unclaimed tick = some (after_unclaimed tick)

  -- A round of the loop `for (;;)`; `none` is `break`.
  unfoldable pub next_tick : Tick V → Option (Tick V)
  next_tick tick =
      settle_round
        (claim_and_process_one vault (connects tick.totals.checked) tick.exclude now tick.tables
          tick.vault)
        tick

  abbrev go_on : Option (Tick V) → Tick V → (Tick V → Option (Tick V)) → Option (Tick V)
  go_on none tick again = some tick
  go_on (some next) tick again = again next

  -- The loop on fuel; `none` is the end of the fuel.
  unfoldable pub run_rounds : ℕ → Tick V → Option (Tick V)
  run_rounds zero tick = none
  run_rounds (suc fuel) tick = go_on (next_tick tick) tick (run_rounds fuel)

  abbrev pub first_tick : Tables → V → Tick V
  first_tick t v = record {
    totals = record { checked = 0; executed = 0; failed = 0; skipped = 0 };
    exclude = [];
    calls = [];
    tables = t;
    vault = v;
  }

  -- Fuel for one round for each request, and the last.
  unfoldable pub execute_approved_destroys : Tables → V → Option (Tick V)
  execute_approved_destroys t v = run_rounds (suc (length t.approvals)) (first_tick t v)
