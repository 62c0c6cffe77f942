-- ===== src/Auth/Scope.antt =====
-- arcanium/api/src/auth/scope.js, `tenantScope` of auth/index.js and teams/registry.js: which
-- resources a scoped caller can read. The tables `teams` and `suppliers` are lists of rows.
pub mod Reads
use arcanium.Prelude.{
  ℕ, zero, suc, ◌+◌, ◌-◌, ◌*◌, ◌/◌, ◌≤◌, ◌<◌, String, ◌≡◌, refl, sym, ap, ◌∙◌, ◌≢◌, ◌↔◌, ◌⊎◌, inl,
  inr, Bool, true, false, not, ◌&&◌, ◌||◌, Option, none, some, List, [], ◌∷◌, ◌++◌, map, arith,
  ◌==◌, eq_iff, eq_refl, ltb, leb, eqb, if◌then◌else◌, Bool-cases, Option-cases, is_some,
  or_default, truthy, length, select, any, all, first?, last?, length-append, length-select-le,
  includes, AnyOf, AllOf, agree, all-includes, includes-AnyOf, AnyOf-includes, AnyOf-map,
  AnyOf-map_all, AnyOf-elim, ◌<|>◌, first_match, first_match-AnyOf, AnyOf-first_match,
  first_match-result,
}
use arcanium.Auth.Authorize.{
  Verdict, always, never, limited, role_verdict, Grant, Identity, listed, is_empty,
}
use arcanium.Auth.Groups.{set_add}

pub record Team : Type 0 where
  pub name : String
  -- `none` is NULL: the team covers every supplier.
  pub supplier_ids : Option (List String)

pub record Supplier : Type 0 where
  pub id : String
  pub vault_namespace : String

-- `resolveSupplierIdsForTeam`: the outer `none` is `undefined`, for an unknown team.
unfoldable pub resolve_supplier_ids_for_team : List Team → String → Option (Option (List String))
resolve_supplier_ids_for_team [] name = none
resolve_supplier_ids_for_team (team ∷ teams) name =
    if team.name == name then some team.supplier_ids else resolve_supplier_ids_for_team teams name

abbrev covers_supplier : Option (List String) → String → Bool
covers_supplier none id = false
covers_supplier (some ids) id = includes ids id

-- `resolveTeamForSupplier`: `supplier_ids @> ARRAY[$1]` is not true for NULL.
team_of : List Team → String → Option String
team_of [] id = none
team_of (team ∷ teams) id =
    if covers_supplier team.supplier_ids id then some team.name else team_of teams id

unfoldable pub resolve_team_for_supplier : List Team → Option String → Option String
unfolding team_of
resolve_team_for_supplier teams none = none
resolve_team_for_supplier teams (some id) = if id == "" then none else team_of teams id

-- `verdict === true || verdict === "limited"`
abbrev pub may : Verdict → Bool
may never = false
may always = true
may limited = true

unfoldable pub set_union : List String → List String → List String
set_union xs [] = xs
set_union xs (y ∷ ys) = set_union (set_add y xs) ys

unfoldable pub team_names : List Grant → List String → List String
team_names [] names = names
team_names (grant ∷ grants) names =
    team_names grants
      (if may (role_verdict grant.role "read") then set_union names grant.team_scopes else names)

pub data ReadScope : Type 0 where
  unscoped : ReadScope
  every_supplier : ReadScope
  suppliers : List String → ReadScope

-- The loop over the team names: an unknown team adds nothing, one that covers all ends it.
unfoldable pub resolve_teams : List Team → List String → List String → ReadScope
resolve_teams teams [] ids = suppliers ids
resolve_teams teams (name ∷ names) ids =
    let found = resolve_supplier_ids_for_team teams name in
    elim found [
      | none ↦ resolve_teams teams names ids
      | some none ↦ every_supplier
      | some (some more) ↦ resolve_teams teams names (set_union ids more)
    ]

unfoldable pub team_read_scope : List Team → List Grant → ReadScope
team_read_scope teams grants =
    let names = team_names grants [] in
    if is_empty names then unscoped else resolve_teams teams names []

abbrev allows_supplier : ReadScope → Option String → Bool
allows_supplier unscoped id = true
allows_supplier every_supplier id = true
allows_supplier (suppliers ids) id = not (truthy id) || listed id ids

-- The three flags of `scopedReadDenied`.
pub record Flags : Type 0 where
  pub any_grant : Bool
  pub env_restricted : Bool
  pub env_satisfied : Bool

abbrev flag_grant : Option String → Grant → Flags → Flags
flag_grant env grant flags =
    if is_empty grant.env_scopes
    then record flags { any_grant = true; env_satisfied = true }
    else record flags {
      any_grant = true;
      env_restricted = true;
      env_satisfied = flags.env_satisfied || listed env grant.env_scopes;
    }

unfoldable pub flag_round : Option String → Grant → Flags → Flags
flag_round env grant flags =
    if may (role_verdict grant.role "read") then flag_grant env grant flags else flags

unfoldable pub read_flags : Option String → List Grant → Flags → Flags
read_flags env [] flags = flags
read_flags env (grant ∷ grants) flags = read_flags env grants (flag_round env grant flags)

abbrev pub is_always : Verdict → Bool
is_always always = true
is_always _ = false

abbrev pub no_flags : Flags
no_flags = record { any_grant = false; env_restricted = false; env_satisfied = false }

unfoldable pub scoped_read_denied :
    List Team → Option Identity → (supplier_id env : Option String) → Bool
scoped_read_denied teams none supplier_id env = false
scoped_read_denied teams (some identity) supplier_id env =
    let flags = read_flags env identity.scopes no_flags in
    let env_ok = not flags.env_restricted || flags.env_satisfied in
    let team_ok = allows_supplier (team_read_scope teams identity.scopes) supplier_id in
    if any (λ role. is_always (role_verdict role "read")) identity.roles
    then false
    else if not flags.any_grant
    then false
    else not (env_ok && team_ok)

-- `tenantScope`: `none` is an unscoped caller, who sees everything.
abbrev ids_within : List Supplier → List String → List String
ids_within [] namespaces = []
ids_within (supplier ∷ rest) namespaces =
    let ids = ids_within rest namespaces in
    if includes namespaces supplier.vault_namespace then supplier.id ∷ ids else ids

unfoldable pub tenant_scope : List Supplier → Option Identity → Option (List String)
tenant_scope rows none = none
tenant_scope rows (some identity) =
    if not (or_default identity.persona "" == "supplier-admin") || is_empty identity.namespaces
    then none
    else some (ids_within rows identity.namespaces)
