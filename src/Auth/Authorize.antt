-- ===== src/Auth/Authorize.antt =====
-- arcanium/api/src/auth/authorize.js: the matrix of roles and actions, and the one decision that
-- every mutating route asks for. An absent argument of a request is `none`.
pub mod Permits
pub mod Duties
use arcanium.Prelude.{
  String, Bool, true, false, not, ◌&&◌, ◌||◌, Option, none, some, List, [], ◌∷◌, ◌==◌, ◌<|>◌,
  if◌then◌else◌, or_default, includes, first_match,
}

-- A cell of the matrix: `true`, `false` or `"limited"`.
pub data Verdict : Type 0 where
  always never limited : Verdict

abbrev pub Rule : Type 0
Rule = List (String × Verdict)

abbrev ciso_rule : Rule
ciso_rule =
    ("read", always)
    ∷ ("provision", never)
    ∷ ("rotate", never)
    ∷ ("rewrap", never)
    ∷ ("destroy_request", always)
    ∷ ("approve", always)
    ∷ ("reconcile", never)
    ∷ []

abbrev architect_rule : Rule
architect_rule =
    ("read", always)
    ∷ ("provision", always)
    ∷ ("rotate", always)
    ∷ ("rewrap", never)
    ∷ ("destroy_request", always)
    ∷ ("approve", never)
    ∷ ("reconcile", always)
    ∷ []

abbrev operator_rule : Rule
operator_rule =
    ("read", always)
    ∷ ("provision", always)
    ∷ ("rotate", always)
    ∷ ("rewrap", always)
    ∷ ("destroy_request", always)
    ∷ ("approve", never)
    ∷ ("reconcile", always)
    ∷ []

abbrev auditor_rule : Rule
auditor_rule =
    ("read", always)
    ∷ ("provision", never)
    ∷ ("rotate", never)
    ∷ ("rewrap", never)
    ∷ ("destroy_request", never)
    ∷ ("approve", never)
    ∷ ("reconcile", never)
    ∷ []

abbrev supplier_admin_rule : Rule
supplier_admin_rule =
    ("read", limited)
    ∷ ("provision", limited)
    ∷ ("rotate", limited)
    ∷ ("rewrap", never)
    ∷ ("destroy_request", limited)
    ∷ ("approve", never)
    ∷ ("reconcile", limited)
    ∷ []

abbrev pub matrix : List (String × Rule)
matrix =
    ("ciso", ciso_rule)
    ∷ ("architect", architect_rule)
    ∷ ("operator", operator_rule)
    ∷ ("auditor", auditor_rule)
    ∷ ("supplier-admin", supplier_admin_rule)
    ∷ []

-- `object[key]`
unfoldable pub property {ℓ} : {V : Type ℓ} → List (String × V) → String → Option V
property [] key = none
property ((k, v) ∷ object) key = if k == key then some v else property object key

abbrev rule_verdict : Option Rule → String → Option Verdict
rule_verdict none action = none
rule_verdict (some rule) action = property rule action

-- `MATRIX[role]?.[action]`
unfoldable pub cell : String → String → Option Verdict
unfolding property
cell role action = rule_verdict (property matrix role) action

unfoldable pub role_verdict : String → String → Verdict
role_verdict role action = or_default (cell role action) never

abbrev pub actions : List String
actions =
    "read" ∷ "provision" ∷ "rotate" ∷ "rewrap" ∷ "destroy_request" ∷ "approve" ∷ "reconcile" ∷ []

-- One entry of `identity.scopes`. An empty list of scopes means all.
pub record Grant : Type 0 where
  pub role : String
  pub env_scopes : List String
  pub team_scopes : List String

-- `req.identity`, as far as authorization reads it.
pub record Identity : Type 0 where
  pub user : String
  pub persona : Option String
  pub roles : List String
  pub namespaces : List String
  pub tenant_scopes : List String
  pub scopes : List Grant

pub record Request : Type 0 where
  pub action : String
  pub tenant : Option String
  pub env : Option String
  pub team : Option String

pub data Denial : Type 0 where
  unknown_action : String → Denial
  no_identity : Denial
  no_matching_rule : List String → Denial

pub data Decision : Type 0 where
  -- an estate-wide role
  allow : String → Decision
  -- a limited role, within the tenant
  allow_tenant : String → String → Decision
  -- a scoped grant, with the environment and the team
  allow_scoped : String → Option String → Option String → Decision
  deny : Denial → Decision

-- `x && list.includes(x)`
abbrev pub listed : Option String → List String → Bool
listed none list = false
listed (some x) list = not (x == "") && includes list x

abbrev pub is_empty {ℓ} : {A : Type ℓ} → List A → Bool
is_empty [] = true
is_empty (_ ∷ _) = false

abbrev persona_roles : Option String → List String
persona_roles none = []
persona_roles (some p) = if p == "" then [] else p ∷ []

-- `identity.roles?.length ? identity.roles : [identity.persona].filter(Boolean)`
unfoldable pub effective_roles : Identity → List String
effective_roles identity =
    if is_empty identity.roles then persona_roles identity.persona else identity.roles

-- `tenant && scopes.includes(tenant)` hands the tenant on.
abbrev tenant_within : String → List String → Option String → Option Decision
tenant_within role scopes none = none
tenant_within role scopes (some t) =
    if listed (some t) scopes then some (allow_tenant role t) else none

abbrev estate_decision : String → List String → Option String → Option Verdict → Option Decision
estate_decision role scopes tenant none = none
estate_decision role scopes tenant (some never) = none
estate_decision role scopes tenant (some always) = some (allow role)
estate_decision role scopes tenant (some limited) = tenant_within role scopes tenant

-- A round of the first loop of `authorize`; `none` is `continue`.
unfoldable pub estate_round : Identity → Request → String → Option Decision
estate_round identity req role =
    estate_decision role identity.tenant_scopes req.tenant (cell role req.action)

-- `scopes.length && (!x || !scopes.includes(x))`, negated
abbrev pub covers : List String → Option String → Bool
covers scopes x = is_empty scopes || listed x scopes

abbrev grant_applies : Identity → Request → Grant → Option Verdict → Bool
grant_applies identity req grant none = false
grant_applies identity req grant (some never) = false
grant_applies identity req grant (some always) =
    covers grant.env_scopes req.env && covers grant.team_scopes req.team
grant_applies identity req grant (some limited) =
    covers grant.env_scopes req.env
    && covers grant.team_scopes req.team
    && covers identity.tenant_scopes req.tenant

-- A round of the second loop.
unfoldable pub grant_round : Identity → Request → Grant → Option Decision
grant_round identity req grant =
    if grant_applies identity req grant (cell grant.role req.action)
    then some (allow_scoped grant.role req.env req.team)
    else none

unfoldable pub decide_identity : Identity → Request → Decision
decide_identity identity req =
    or_default
      (first_match (estate_round identity req) (effective_roles identity)
        <|> first_match (grant_round identity req) identity.scopes)
      (deny (no_matching_rule (effective_roles identity)))

unfoldable pub authorize : Option Identity → Request → Decision
unfolding decide_identity
authorize none req =
    if includes actions req.action then deny no_identity else deny (unknown_action req.action)
authorize (some identity) req =
    if includes actions req.action
    then decide_identity identity req
    else deny (unknown_action req.action)

abbrev pub is_allowed : Decision → Bool
is_allowed (deny _) = false
is_allowed _ = true
