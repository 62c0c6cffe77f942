-- ===== src/Auth/Groups/Roles.antt =====
-- arcanium/api/src/auth/authorize.js: the estate-wide roles that `groupsToIdentity` gives.
use arcanium.Prelude.{
  String, ◌≡◌, refl, Bool, true, false, ◌||◌, Option, none, some, List, [], ◌∷◌, ◌++◌, arith, ◌==◌,
  eq_iff, any, first?, includes, AllOf, first_match, first_match-result,
}
use arcanium.Auth.Authorize.{property}
use arcanium.Auth.Groups.{
  role_groups, set_add, collect_roles, groups_to_identity, add_role, held, role_precedence,
}

includes-append :
    (xs ys : List String) (x : String) → includes (xs ++ ys) x ≡ (includes xs x || includes ys x)
includes-append [] ys x = refl
includes-append (z ∷ zs) ys x = ground (arith, includes-append zs ys x)

pub includes-set_add :
    (x y : String) (xs : List String) → includes (set_add x xs) y ≡ (x == y || includes xs y)
unfolding set_add
includes-set_add x y xs = ground (arith, includes-append xs (x ∷ []) y, eq_iff x y)

abbrev is_role : Option String → String → Bool
is_role none role = false
is_role (some r) role = r == role

-- The group is the one that gives the role.
unfoldable pub gives_role : String → String → Bool
gives_role role group = is_role (property role_groups group) role

includes-add_role :
    (o : Option String) (roles : List String) (role : String)
    → includes (add_role o roles) role ≡ (includes roles role || is_role o role)
includes-add_role none roles role = ground arith
includes-add_role (some r) roles role = ground (arith, includes-set_add r role roles)

collect_roles-includes :
    (groups roles : List String) (role : String)
    → includes (collect_roles groups roles) role
      ≡ (includes roles role || any (gives_role role) groups)
unfolding collect_roles gives_role
collect_roles-includes [] roles role = ground arith
collect_roles-includes (group ∷ groups) roles role =
    let found = property role_groups group in
    ground (
      arith,
      collect_roles-includes groups (add_role found roles) role,
      includes-add_role found roles role,
    )

-- A sign-in has an estate-wide role exactly when one of its groups is the group of that role.
pub roles_exact :
    (groups : List String) (role : String)
    → includes (groups_to_identity groups).roles role ≡ any (gives_role role) groups
unfolding groups_to_identity
roles_exact groups role = collect_roles-includes groups [] role

collect_roles-none :
    (groups : List String)
    → AllOf (λ group. property role_groups group ≡ none) groups
    → collect_roles groups [] ≡ []
unfolding collect_roles
collect_roles-none [] h = refl
collect_roles-none (group ∷ groups) h = rw (h.0) (collect_roles-none groups h.1)

-- Groups that name no estate-wide role, scoped ones among them, give no role at all and no primary
-- role: a scoped grant is never promoted to an estate-wide one.
pub no_promotion :
    (groups : List String)
    → AllOf (λ group. property role_groups group ≡ none) groups
    → ((groups_to_identity groups).roles ≡ []) × ((groups_to_identity groups).primary_role ≡ none)
unfolding groups_to_identity
no_promotion groups h = let e = collect_roles-none groups h in (e, rw e refl)

held-result :
    (roles : List String) (r role : String) → held roles r ≡ some role → includes roles role ≡ true
held-result roles r role h = ground arith

held_lem :
    (role : String) (roles : List String)
    → first_match (held roles) role_precedence ≡ some role
    → includes roles role ≡ true
held_lem role roles =
    first_match-result (held roles) (λ r. includes roles r ≡ true) (held-result roles)
      role_precedence role

first-includes :
    (role : String) (roles : List String) → first? roles ≡ some role → includes roles role ≡ true
first-includes role [] h = absurd (cc)
first-includes role (r ∷ roles) h = ground (arith, eq_iff r role)

-- The primary role is one of the roles.
pub primary_role-held :
    (groups : List String) (role : String)
    → (groups_to_identity groups).primary_role ≡ some role
    → includes (groups_to_identity groups).roles role ≡ true
unfolding groups_to_identity
primary_role-held groups role h =
    ground (
      arith,
      held_lem role (collect_roles groups []),
      first-includes role (collect_roles groups []),
    )
