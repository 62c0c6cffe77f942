-- ===== src/Auth/Groups/Scopes.antt =====
-- arcanium/api/src/auth/authorize.js: the scoped grants that `groupsToIdentity` gives.
use arcanium.Prelude.{
  String, ◌≡◌, inl, inr, Bool, true, false, ◌&&◌, ◌||◌, Option, none, some, List, [], ◌∷◌, arith,
  ◌==◌, eq_iff, if◌then◌else◌, Bool-cases, any, includes,
}
use arcanium.Auth.Authorize.{Grant}
use arcanium.Auth.Groups.{
  Dimension, env, team, ScopedTag, scopable_roles, scoped_tag, add_scope, add_tag, collect_scopes,
  groups_to_identity,
}
use arcanium.Auth.Groups.Roles.{includes-set_add}

abbrev pub scopes_in : Dimension → Grant → List String
scopes_in env grant = grant.env_scopes
scopes_in team grant = grant.team_scopes

-- The tags that the grant of the role holds in the dimension.
unfoldable pub granted : Dimension → String → List Grant → List String
granted dimension role [] = []
granted dimension role (grant ∷ grants) =
    if grant.role == role then scopes_in dimension grant else granted dimension role grants

abbrev same_dimension : Dimension → Dimension → Bool
same_dimension env env = true
same_dimension team team = true
same_dimension _ _ = false

module _ (dimension : Dimension) (role value : String) where
  includes-add_scope :
      (r : String) (d : Dimension) (v : String) (grants : List Grant)
      → includes (granted dimension role (add_scope r d v grants)) value ≡ (
          includes (granted dimension role grants) value
          || (r == role && same_dimension d dimension && v == value))
  unfolding granted add_scope
  includes-add_scope r env v [] = ground (arith, includes-set_add v value [])
  includes-add_scope r team v [] = ground (arith, includes-set_add v value [])
  includes-add_scope r env v (grant ∷ grants) = ground (
    arith,
    includes-add_scope r env v grants,
    includes-set_add v value grant.env_scopes,
    eq_iff grant.role r,
    eq_iff grant.role role,
    eq_iff r role,
  )
  includes-add_scope r team v (grant ∷ grants) = ground (
    arith,
    includes-add_scope r team v grants,
    includes-set_add v value grant.team_scopes,
    eq_iff grant.role r,
    eq_iff grant.role role,
    eq_iff r role,
  )

  abbrev is_tag : Option ScopedTag → Bool
  is_tag none = false
  is_tag (some tag) =
      tag.role == role && same_dimension tag.dimension dimension && tag.value == value

  -- The group is a scoped group that carries the tag for the role.
  unfoldable pub tags : String → Bool
  tags group = is_tag (scoped_tag group)

  includes-add_tag :
      (o : Option ScopedTag) (grants : List Grant)
      → includes scopable_roles role ≡ true
      → includes (granted dimension role (add_tag o grants)) value
        ≡ (includes (granted dimension role grants) value || is_tag o)
  includes-add_tag none grants s = ground arith
  includes-add_tag (some tag) grants s = elim (Bool-cases (includes scopable_roles tag.role)) [
    | inl yes_ ↦ rw yes_ (includes-add_scope tag.role tag.dimension tag.value grants)
    | inr no_ ↦ rw no_ (elim (Bool-cases (tag.role == role)) [
      | inl e ↦ absurd (cc (no_, s, (eq_iff tag.role role).0 e))
      | inr n ↦ rw n (ground arith)
    ])
  ]

  collect_scopes-includes :
      (groups : List String) (grants : List Grant)
      → includes scopable_roles role ≡ true
      → includes (granted dimension role (collect_scopes groups grants)) value
        ≡ (includes (granted dimension role grants) value || any tags groups)
  unfolding collect_scopes tags
  collect_scopes-includes [] grants s = ground arith
  collect_scopes-includes (group ∷ groups) grants s = ground (
    arith,
    collect_scopes-includes groups (add_tag (scoped_tag group) grants) s,
    includes-add_tag (scoped_tag group) grants s,
  )

  -- The grant of a scopable role holds a tag exactly when some group carries it for that role: the
  -- groups of one role are merged into one grant, and nothing else gets into it.
  pub scopes_exact :
      (groups : List String)
      → includes scopable_roles role ≡ true
      → includes (granted dimension role (groups_to_identity groups).scopes) value ≡ any tags groups
  unfolding groups_to_identity granted
  scopes_exact groups s = collect_scopes-includes groups [] s
