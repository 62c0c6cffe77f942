-- ===== src/Approvals/Requests.antt =====
-- arcanium/api/src/routes/approvals.js: the handlers that create, approve and deny requests. A
-- malformed id is `none`; the answers of Vault are an argument, and the tables are explicit.
pub mod Decisions
pub mod Standing
pub mod Decided
pub mod Tenancy
use arcanium.Prelude.{
  ℕ, zero, suc, ◌+◌, ◌-◌, ◌*◌, ◌/◌, ◌≤◌, ◌<◌, String, ◌≡◌, refl, sym, ap, ◌∙◌, ◌≢◌, ◌↔◌, ◌⊎◌, inl,
  inr, Bool, true, false, not, ◌&&◌, ◌||◌, Option, none, some, List, [], ◌∷◌, ◌++◌, map, arith,
  ◌==◌, eq_iff, eq_refl, ltb, leb, eqb, if◌then◌else◌, Bool-cases, Option-cases, is_some,
  or_default, truthy, length, select, any, all, first?, last?, length-append, length-select-le,
  includes, AnyOf, AllOf, agree, all-includes, includes-AnyOf, AnyOf-includes, AnyOf-map,
  AnyOf-map_all, AnyOf-elim, ◌<|>◌, first_match, first_match-AnyOf, AnyOf-first_match,
  first_match-result,
}
use arcanium.Auth.Authorize.{Identity, Decision, Denial, allow, deny, authorize}
use arcanium.Auth.Scope.{Supplier, tenant_scope}
use arcanium.Approvals.Execution.{
  KeyMeta, VaultError, vault_404, vault_error, Reply, replied, refused,
}

-- A row of approval_requests.
pub record Asked : Type 0 where
  pub id : ℕ
  pub app_id : Option String
  pub key_name : String
  pub action : String
  pub status : String
  pub requester : String
  pub approver : Option String
  pub reason : Option String
  pub accessor : Option String
  pub supplier_id : Option String
  pub pinned_key_version : Option ℕ

-- A row of applications.
pub record App : Type 0 where
  pub id : String
  pub supplier_id : Option String
  pub environment : Option String

pub record Register : Type 0 where
  pub requests : List Asked
  pub apps : List App
  pub suppliers : List Supplier
  pub next_id : ℕ

-- What `checkControlGroupRequest` answers.
pub record ControlGroup : Type 0 where
  pub approved : Bool
  pub entity : Option String

pub record Oracle : Type 0 where
  pub control_group : String → ControlGroup
  pub live_key : Option String → String → Reply KeyMeta

-- Why the gate of an approval refuses, or that Vault failed.
pub data Refusal : Type 0 where
  group_not_authorized : Refusal
  key_changed : Refusal
  server_error : Refusal

pub data Response : Type 0 where
  created : Asked → Response
  decided : Asked → Response
  bad_request : String → Response
  forbidden : Decision → Response
  not_found : Response
  not_pending : String → Response
  gate_refused : Refusal → Response
  accessor_taken : Response
  -- a CHECK of the table, as an error of the server
  table_refused : Response

abbrev pub find_app : String → List App → Option App
find_app id [] = none
find_app id (a ∷ apps) = if a.id == id then some a else find_app id apps

abbrev pub find_supplier : String → List Supplier → Option Supplier
find_supplier id [] = none
find_supplier id (s ∷ suppliers) = if s.id == id then some s else find_supplier id suppliers

abbrev pub find_asked : ℕ → List Asked → Option Asked
find_asked id [] = none
find_asked id (r ∷ requests) = if eqb r.id id then some r else find_asked id requests

abbrev is_accessor : String → Option String → Bool
is_accessor accessor none = false
is_accessor accessor (some a) = a == accessor

abbrev pub find_accessor : String → List Asked → Option Asked
find_accessor accessor [] = none
find_accessor accessor (r ∷ requests) =
    if is_accessor accessor r.accessor then some r else find_accessor accessor requests

abbrev pub supplier_of_app : Option App → Option String
supplier_of_app none = none
supplier_of_app (some a) = a.supplier_id

abbrev pub environment_of_app : Option App → Option String
environment_of_app none = none
environment_of_app (some a) = a.environment

abbrev pub look_up : {A : Type 0} → (String → List A → Option A) → Option String → List A → Option A
look_up find none rows = none
look_up find (some id) rows = find id rows

abbrev pub namespace_of : Option Supplier → Option String
namespace_of none = none
namespace_of (some s) = some s.vault_namespace

pub record Context : Type 0 where
  pub supplier_id : Option String
  pub vault_namespace : Option String
  pub environment : Option String

abbrev no_context : Context
no_context = record { supplier_id = none; vault_namespace = none; environment = none }

abbrev context_of_supplier : Option Supplier → Context
context_of_supplier none = no_context
context_of_supplier (some s) = record {
  supplier_id = some s.id;
  vault_namespace = some s.vault_namespace;
  environment = none;
}

-- The inner join: an application without a supplier gives no row.
abbrev context_of_app : Option App → Option Supplier → Context
context_of_app (some a) (some s) = record {
  supplier_id = some s.id;
  vault_namespace = some s.vault_namespace;
  environment = a.environment;
}
context_of_app _ _ = no_context

-- A supplier that the body names goes before the application's.
unfoldable pub approval_tenant : Option String → Option String → Register → Context
approval_tenant (some supplier) app reg = context_of_supplier (find_supplier supplier reg.suppliers)
approval_tenant none app reg =
    let found = look_up find_app app reg.apps in
    context_of_app found (look_up find_supplier (supplier_of_app found) reg.suppliers)

-- `COALESCE(s.vault_namespace, s2.vault_namespace)`, and the environment of the application.
unfoldable pub approval_context : Asked → Register → Context
approval_context r reg =
    let app = look_up find_app r.app_id reg.apps in
    let named = look_up find_supplier r.supplier_id reg.suppliers in
    let owner = look_up find_supplier (supplier_of_app app) reg.suppliers in
    record {
      supplier_id = r.supplier_id;
      vault_namespace = namespace_of named <|> namespace_of owner;
      environment = environment_of_app app;
    }

-- `KNOWN_ACTION_MAP[String(bodyAction ?? "").toLowerCase()]`; `lower` is the runtime's.
unfoldable pub resolve_approval_action : (String → String) → Option String → String
resolve_approval_action lower action =
    let name = lower (or_default action "") in
    if includes ("rotate" ∷ "rewrap" ∷ "read" ∷ []) name then name else "destroy_request"

-- The join that the route by accessor makes.
unfoldable pub accessor_context : Asked → Register → Context
accessor_context r reg =
    let app = look_up find_app r.app_id reg.apps in
    let supplier = look_up find_supplier (r.supplier_id <|> supplier_of_app app) reg.suppliers in
    record {
      supplier_id = r.supplier_id;
      vault_namespace = namespace_of supplier;
      environment = environment_of_app app;
    }

-- What `verifyApprovalGate` answers: the approver, or a response; an error of Vault is thrown.
pub data Gate : Type 0 where
  passed : String → Gate
  stopped : Refusal → Gate

abbrev pub live_matches : Option ℕ → KeyMeta → Bool
live_matches none live = true
live_matches (some pinned) live = eqb live.latest_version pinned

abbrev pub pin_gate : Asked → String → Reply KeyMeta → Gate
pin_gate r approver (refused vault_404) = passed approver
pin_gate r approver (refused (vault_error _)) = stopped server_error
pin_gate r approver (replied live) =
    if live_matches r.pinned_key_version live then passed approver else stopped key_changed

abbrev pub owner_namespace : Option String → Register → Option String
owner_namespace app reg =
    namespace_of
      (look_up find_supplier (supplier_of_app (look_up find_app app reg.apps)) reg.suppliers)

abbrev pub is_destroy : Asked → Bool
is_destroy r = r.action == "revoke" && (is_some r.app_id && not (r.key_name == ""))

module _ (oracle : Oracle) where
  abbrev pub destroy_gate : Asked → String → Register → Gate
  destroy_gate r approver reg =
      if is_destroy r
      then pin_gate r approver (oracle.live_key (owner_namespace r.app_id reg) r.key_name)
      else passed approver

  abbrev pub group_gate : Asked → ControlGroup → Register → Gate
  group_gate r cg reg =
      if cg.approved
      then destroy_gate r (or_default cg.entity "arcanium-api") reg
      else stopped group_not_authorized

  abbrev pub accessor_gate : Asked → Option String → Register → Gate
  accessor_gate r none reg = destroy_gate r "arcanium-api" reg
  accessor_gate r (some accessor) reg =
      if accessor == ""
      then destroy_gate r "arcanium-api" reg
      else group_gate r (oracle.control_group accessor) reg

  unfoldable pub verify_approval_gate : Asked → Register → Gate
  verify_approval_gate r reg = accessor_gate r r.accessor reg

-- `UPDATE approval_requests SET ... WHERE id = ?`
unfoldable pub decide_request : ℕ → String → Option String → Option String → List Asked → List Asked
decide_request id status approver reason [] = []
decide_request id status approver reason (r ∷ requests) =
    let rest = decide_request id status approver reason requests in
    if eqb r.id id
    then record r { status = status; approver = approver; reason = reason } ∷ rest
    else r ∷ rest

abbrev pub settle : Asked → String → String → Option String → Register → Response × Register
settle r status approver reason reg = (
  decided (record r { status = status; approver = some approver; reason = reason }),
  record reg { requests = decide_request r.id status (some approver) reason reg.requests },
)

abbrev pub may_approve : Option Identity → Context → Decision
may_approve identity ctx = authorize identity (record {
  action = "approve";
  tenant = ctx.vault_namespace;
  env = ctx.environment;
  team = none;
})

abbrev pub if_allowed : Decision → Register → Response × Register → Response × Register
if_allowed (deny why) reg next = (forbidden (deny why), reg)
if_allowed _ reg next = next

abbrev pub if_pending : Asked → Register → Response × Register → Response × Register
if_pending r reg next = if r.status == "pending" then next else (not_pending r.status, reg)

-- `scope.scoped && supplierId && !scope.supplierIds.includes(supplierId)`
abbrev pub outside_scope : Option (List String) → Option String → Bool
outside_scope none supplier = false
outside_scope (some ids) none = false
outside_scope (some ids) (some supplier) = not (includes ids supplier)

abbrev pub context_of : Option Asked → Register → Context
context_of none reg = no_context
context_of (some r) reg = approval_context r reg

module _ (oracle : Oracle) where
  abbrev pub approve_gated : Asked → Gate → Register → Response × Register
  approve_gated r (stopped why) reg = (gate_refused why, reg)
  approve_gated r (passed approver) reg = settle r "approved" approver r.reason reg

  abbrev pub approve_found : Option Asked → Register → Response × Register
  approve_found none reg = (not_found, reg)
  approve_found (some r) reg =
      if_pending r reg (approve_gated r (verify_approval_gate oracle r reg) reg)

  -- POST /:id/approve
  unfoldable pub approve : ℕ → Option Identity → Register → Response × Register
  approve id identity reg =
      let found = find_asked id reg.requests in
      if_allowed (may_approve identity (context_of found reg)) reg (approve_found found reg)

  -- `gate.approver`, or a guess of who approved
  abbrev pub approver_label : String → Option String → String
  approver_label approver source =
      if not (approver == "arcanium-api")
      then approver
      else if or_default source "" == "manual"
      then "cli-operator"
      else "arcanium-api"

  abbrev pub authorize_gated : Asked → Option String → Gate → Register → Response × Register
  authorize_gated r source (stopped why) reg = (gate_refused why, reg)
  authorize_gated r source (passed approver) reg =
      settle r "approved" (approver_label approver source) r.reason reg

  abbrev pub authorize_found :
      Option Asked → Option Identity → Option String → Register → Response × Register
  authorize_found none identity source reg = (not_found, reg)
  authorize_found (some r) identity source reg =
      if outside_scope (tenant_scope reg.suppliers identity) r.supplier_id
      then (not_found, reg)
      else if_allowed (may_approve identity (accessor_context r reg)) reg
          (if_pending r reg (authorize_gated r source (verify_approval_gate oracle r reg) reg))

  -- POST /:accessor/authorize
  unfoldable pub authorize_accessor :
      String → Option Identity → Option String → Register → Response × Register
  authorize_accessor accessor identity source reg =
      authorize_found (find_accessor accessor reg.requests) identity source reg

abbrev pub deny_found : Option Asked → Option String → Register → Response × Register
deny_found none reason reg = (not_found, reg)
deny_found (some r) reason reg = if_pending r reg (settle r "rejected" "arcanium-api" reason reg)

-- POST /:id/deny
unfoldable pub deny_request : ℕ → Option Identity → Option String → Register → Response × Register
deny_request id identity reason reg =
    let found = find_asked id reg.requests in
    if_allowed (may_approve identity (context_of found reg)) reg (deny_found found reason reg)

-- The body of POST /; an id that is not a UUID is none.
pub record Body : Type 0 where
  pub app_id : Option String
  pub key_name : Option String
  pub action : Option String
  pub requester : Option String
  pub accessor : Option String
  pub reason : Option String
  pub source : Option String
  pub supplier_id : Option String

abbrev pub has_accessor : Option String → List Asked → Bool
has_accessor none requests = false
has_accessor (some a) requests = is_some (find_accessor a requests)

abbrev pub new_request : String → Body → ℕ → Asked
new_request app body id = record {
  id = id;
  app_id = some app;
  key_name = or_default body.key_name "";
  action = or_default body.action "";
  status = "pending";
  requester = or_default body.requester "";
  approver = none;
  reason = body.reason;
  accessor = body.accessor;
  supplier_id = body.supplier_id;
  pinned_key_version = none;
}

-- The CHECKs of migrations/004_control_group_accessor.sql and 003_supplier_isolation.sql.
abbrev pub stored_actions : List String
stored_actions = "rotate" ∷ "revoke" ∷ "export" ∷ "encrypt" ∷ []

abbrev pub stored_sources : List String
stored_sources = "manual" ∷ "local" ∷ "external" ∷ []

abbrev pub knows_supplier : Option String → List Supplier → Bool
knows_supplier none suppliers = true
knows_supplier (some id) suppliers = is_some (find_supplier id suppliers)

-- The table's CHECKs, its unique accessor and its two foreign keys, in the order of the database.
abbrev pub insert_request : String → Body → Register → Response × Register
insert_request app body reg =
    let r = new_request app body reg.next_id in
    if not (includes stored_actions r.action)
    then (table_refused, reg)
    else if not (includes stored_sources (or_default body.source "external"))
    then (table_refused, reg)
    else if has_accessor body.accessor reg.requests
    then (accessor_taken, reg)
    else if not (is_some (find_app app reg.apps))
    then (not_found, reg)
    else if not (knows_supplier body.supplier_id reg.suppliers)
    then (not_found, reg)
    else (created r, record reg { requests = r ∷ reg.requests; next_id = suc reg.next_id })

abbrev pub check_body : String → Body → Register → Response × Register
check_body app body reg =
    if not (truthy body.key_name)
    then (bad_request "key_name", reg)
    else if not (truthy body.action)
    then (bad_request "action", reg)
    else if not (truthy body.requester)
    then (bad_request "requester", reg)
    else insert_request app body reg

module _ (lower : String → String) where
  abbrev pub may_create : Option Identity → Body → Context → Decision
  may_create identity body ctx = authorize identity (record {
    action = resolve_approval_action lower body.action;
    tenant = ctx.vault_namespace;
    env = ctx.environment;
    team = none;
  })

  abbrev pub create_for : Option String → Option Identity → Body → Register → Response × Register
  create_for none identity body reg = (bad_request "app_id", reg)
  create_for (some app) identity body reg =
      let ctx = approval_tenant body.supplier_id (some app) reg in
      if outside_scope (tenant_scope reg.suppliers identity) ctx.supplier_id
      then (not_found, reg)
      else if_allowed (may_create identity body ctx) reg (check_body app body reg)

  -- POST /
  unfoldable pub create : Option Identity → Body → Register → Response × Register
  create identity body reg = create_for body.app_id identity body reg
