-- ===== src/Auth/Groups.antt =====
-- arcanium/api/src/auth/authorize.js: `groupsToIdentity`, from the groups of a sign-in to roles,
-- tenants and scoped grants. The pattern of a scoped group is matched on its characters, and a key
-- of `ROLE_GROUPS` is one of its own, not one that every object inherits.
pub mod Roles
pub mod Scopes
use Prim.Native.Char.{Char, code}
use Prim.Native.String
use mathlib.Core.Option
use arcanium.Prelude.{
  ℕ, zero, suc, ◌+◌, ◌-◌, ◌*◌, ◌/◌, ◌≤◌, ◌<◌, String, ◌≡◌, refl, sym, ap, ◌∙◌, ◌≢◌, ◌↔◌, ◌⊎◌, inl,
  inr, Bool, true, false, not, ◌&&◌, ◌||◌, Option, none, some, List, [], ◌∷◌, ◌++◌, map, arith,
  ◌==◌, eq_iff, eq_refl, ltb, leb, eqb, if◌then◌else◌, Bool-cases, Option-cases, is_some,
  or_default, truthy, length, select, any, all, first?, last?, length-append, length-select-le,
  includes, AnyOf, AllOf, agree, all-includes, includes-AnyOf, AnyOf-includes, AnyOf-map,
  AnyOf-map_all, AnyOf-elim, ◌<|>◌, first_match, first_match-AnyOf, AnyOf-first_match,
  first_match-result,
}
use arcanium.Auth.Authorize.{property, Grant}

abbrev pub role_groups : List (String × String)
role_groups =
    ("arcanium-ciso", "ciso")
    ∷ ("arcanium-architect", "architect")
    ∷ ("arcanium-operator", "operator")
    ∷ ("arcanium-auditor", "auditor")
    ∷ ("arcanium-supplier-admin", "supplier-admin")
    ∷ []

abbrev pub scopable_roles : List String
scopable_roles = "ciso" ∷ "architect" ∷ "operator" ∷ "auditor" ∷ []

abbrev pub role_precedence : List String
role_precedence = "ciso" ∷ "architect" ∷ "operator" ∷ "auditor" ∷ "supplier-admin" ∷ []

-- `set.add(x)` on a set that keeps the order of the first occurrences.
unfoldable pub set_add : String → List String → List String
set_add x xs = if includes xs x then xs else xs ++ x ∷ []

-- The rest of `s` behind a prefix: `s.startsWith(p)` with `s.slice(p.length)`.
unfoldable pub strip_prefix : String → String → Option String
strip_prefix String.[] s = some s
strip_prefix (String.◌∷◌ p ps) String.[] = none
strip_prefix (String.◌∷◌ p ps) (String.◌∷◌ c s) =
    let rest = strip_prefix ps s in if eqb (code p) (code c) then rest else none

-- `[a-z-]`
abbrev role_char : Char → Bool
role_char c = (leb b'a' (code c) && leb (code c) b'z') || eqb (code c) b'-'

-- `([a-z-]+):` and what follows; the class has no colon, so the first colon ends the role.
role_span : String → Option (String × String)
role_span String.[] = none
role_span (String.◌∷◌ c s) =
    let more = Option.map (λ (p : String × String). (String.◌∷◌ c p.0, p.1)) (role_span s) in
    if eqb (code c) b':' then some ("", s) else if role_char c then more else none

-- `(.+)$`: at least one character, and no line terminator.
abbrev line_terminator : Char → Bool
line_terminator c = eqb (code c) 10 || eqb (code c) 13 || eqb (code c) 0x2028 || eqb (code c) 0x2029

one_line : String → Bool
one_line String.[] = true
one_line (String.◌∷◌ c s) = not (line_terminator c) && one_line s

pub data Dimension : Type 0 where
  env team : Dimension

pub record ScopedTag : Type 0 where
  pub role : String
  pub dimension : Dimension
  pub value : String

abbrev tag_of : String → Dimension → String → Option ScopedTag
tag_of role dimension value =
    if role == "" || value == "" || not (one_line value)
    then none
    else some (record { role = role; dimension = dimension; value = value })

abbrev with_value : String → Option String → Option String → Option ScopedTag
with_value role (some value) team_rest = tag_of role env value
with_value role none (some value) = tag_of role team value
with_value role none none = none

abbrev with_dimension : Option (String × String) → Option ScopedTag
with_dimension none = none
with_dimension (some (role, rest)) =
    with_value role (strip_prefix "env:" rest) (strip_prefix "team:" rest)

abbrev after_arcanium : Option String → Option ScopedTag
after_arcanium none = none
after_arcanium (some s) = with_dimension (role_span s)

-- `SCOPED_GROUP_RE.exec(g)`
unfoldable pub scoped_tag : String → Option ScopedTag
unfolding strip_prefix role_span one_line
scoped_tag group = after_arcanium (strip_prefix "arcanium-" group)

abbrev pub tenants : List String → List String
tenants [] = []
tenants (group ∷ groups) =
    let rest = tenants groups in
    elim (strip_prefix "arcanium-tenant-" group) [
      | none ↦ rest
      | some tenant ↦ (String.◌++◌ "suppliers/" tenant) ∷ rest
    ]

-- `[...new Set(groups.map(g => ROLE_GROUPS[g]).filter(Boolean))]`
abbrev add_role : Option String → List String → List String
add_role none roles = roles
add_role (some role) roles = set_add role roles

unfoldable pub collect_roles : List String → List String → List String
collect_roles [] roles = roles
collect_roles (group ∷ groups) roles =
    collect_roles groups (add_role (property role_groups group) roles)

abbrev extend_grant : Dimension → String → Grant → Grant
extend_grant env value grant = record grant { env_scopes = set_add value grant.env_scopes }
extend_grant team value grant = record grant { team_scopes = set_add value grant.team_scopes }

abbrev new_grant : String → Grant
new_grant role = record { role = role; env_scopes = []; team_scopes = [] }

-- The entry of the role in the map is made on first use, and extended by the value.
unfoldable pub add_scope : String → Dimension → String → List Grant → List Grant
add_scope role dimension value [] = extend_grant dimension value (new_grant role) ∷ []
add_scope role dimension value (grant ∷ grants) =
    if grant.role == role
    then extend_grant dimension value grant ∷ grants
    else grant ∷ add_scope role dimension value grants

-- A tag whose role is not scopable is ignored.
abbrev pub add_tag : Option ScopedTag → List Grant → List Grant
add_tag none grants = grants
add_tag (some tag) grants =
    if includes scopable_roles tag.role
    then add_scope tag.role tag.dimension tag.value grants
    else grants

unfoldable pub collect_scopes : List String → List Grant → List Grant
collect_scopes [] grants = grants
collect_scopes (group ∷ groups) grants = collect_scopes groups (add_tag (scoped_tag group) grants)

pub record GroupIdentity : Type 0 where
  pub roles : List String
  pub tenant_scopes : List String
  pub primary_role : Option String
  pub scopes : List Grant

abbrev held : List String → String → Option String
held roles role = if includes roles role then some role else none

unfoldable pub groups_to_identity : List String → GroupIdentity
groups_to_identity groups =
    let roles = collect_roles groups [] in
    record {
      roles = roles;
      tenant_scopes = tenants groups;
      primary_role = first_match (held roles) role_precedence <|> first? roles;
      scopes = collect_scopes groups [];
    }

two_environments :
    (groups_to_identity (
      "arcanium-operator:env:staging" ∷ "arcanium-operator:env:production"
      ∷ "arcanium-supplier-admin:env:x" ∷ "arcanium-tenant-pepsi" ∷ [])).scopes
    ≡ record { role = "operator"; env_scopes = "staging" ∷ "production" ∷ []; team_scopes = [] }
      ∷ []
unfolding groups_to_identity collect_scopes scoped_tag add_scope set_add
two_environments = refl
