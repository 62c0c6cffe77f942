-- ===== src/Auth/Scope/Reads.antt =====
-- arcanium/api/src/auth/scope.js: exactly when a read by id is denied, and where that differs from
-- what `authorize` decides.
use arcanium.Prelude.{
  String, ◌≡◌, refl, ◌≢◌, inl, inr, Bool, true, false, not, ◌&&◌, ◌||◌, Option, none, some, List,
  [], ◌∷◌, ◌++◌, arith, eq_iff, Option-cases, any, includes,
}
use arcanium.Auth.Authorize.Permits.{Permits, authorize_denies}
use arcanium.Auth.Authorize.{
  effective_roles, cell, property, never, role_verdict, Grant, Identity, Request, listed, is_empty,
  authorize, is_allowed,
}
use arcanium.Auth.Groups.{set_add}
use arcanium.Auth.Groups.Roles.{includes-set_add}
use arcanium.Auth.Scope.{
  Team, resolve_supplier_ids_for_team, may, set_union, team_names, resolve_teams, team_read_scope,
  allows_supplier, Flags, read_flags, flag_round, is_always, no_flags, scoped_read_denied,
}

-- A grant counts if its role may read.
unfoldable pub reads : Grant → Bool
reads grant = may (role_verdict grant.role "read")

includes-set_union :
    (xs ys : List String) (x : String)
    → includes (set_union xs ys) x ≡ (includes xs x || includes ys x)
unfolding set_union
includes-set_union xs [] x = ground arith
includes-set_union xs (y ∷ ys) x =
    ground (arith, includes-set_union (set_add y xs) ys x, includes-set_add y x xs)

module _ (p : String → Bool) where
  any-append : (xs ys : List String) → any p (xs ++ ys) ≡ (any p xs || any p ys)
  any-append [] ys = refl
  any-append (x ∷ xs) ys = ground (arith, any-append xs ys)

  any_of_includes :
      (xs : List String) (x : String) → includes xs x ≡ true → p x ≡ true → any p xs ≡ true
  any_of_includes [] x m h = absurd (cc)
  any_of_includes (y ∷ ys) x m h = ground (arith, any_of_includes ys x, eq_iff y x)

  any-set_add : (x : String) (xs : List String) → any p (set_add x xs) ≡ (any p xs || p x)
  unfolding set_add
  any-set_add x xs = ground (arith, any-append xs (x ∷ []), any_of_includes xs x)

  any-set_union : (xs ys : List String) → any p (set_union xs ys) ≡ (any p xs || any p ys)
  unfolding set_union
  any-set_union xs [] = ground arith
  any-set_union xs (y ∷ ys) = ground (arith, any-set_union (set_add y xs) ys, any-set_add y xs)

  any-team_names :
      (grants : List Grant) (names : List String)
      → any p (team_names grants names)
        ≡ (any p names || any (λ grant. reads grant && any p grant.team_scopes) grants)
  unfolding team_names reads
  any-team_names [] names = ground arith
  any-team_names (grant ∷ grants) names = ground (
    arith,
    any-team_names grants names,
    any-team_names grants (set_union names grant.team_scopes),
    any-set_union names grant.team_scopes,
  )

is_empty-any : (xs : List String) → is_empty xs ≡ not (any (λ _. true) xs)
is_empty-any [] = refl
is_empty-any (x ∷ xs) = refl

-- The team of that name exists and covers the supplier.
abbrev covers_id : Option (Option (List String)) → String → Bool
covers_id none id = false
covers_id (some none) id = true
covers_id (some (some ids)) id = includes ids id

unfoldable pub team_covers : List Team → String → String → Bool
team_covers teams id name = covers_id (resolve_supplier_ids_for_team teams name) id

resolve_teams-covers :
    (teams : List Team) (id : String) (names ids : List String)
    → id ≢ ""
    → allows_supplier (resolve_teams teams names ids) (some id)
      ≡ (includes ids id || any (team_covers teams id) names)
unfolding resolve_teams team_covers
resolve_teams-covers teams id [] ids n = ground (arith, eq_iff id "")
resolve_teams-covers teams id (name ∷ names) ids n =
    elim (Option-cases (resolve_supplier_ids_for_team teams name)) [
      | inl e ↦ rw (e, resolve_teams) (resolve_teams-covers teams id names ids n)
      | inr (none, e) ↦ ground (arith, eq_iff id "")
      | inr (some more, e) ↦ ground (
        arith,
        eq_iff id "",
        resolve_teams-covers teams id names (set_union ids more) n,
        includes-set_union ids more id,
      )
    ]

module _ (env : Option String) where
  pub env_covers : Grant → Bool
  env_covers grant = is_empty grant.env_scopes || listed env grant.env_scopes

  module _ (grant : Grant) (flags : Flags) where
    flag_round-any : (flag_round env grant flags).any_grant ≡ (flags.any_grant || reads grant)
    unfolding flag_round reads
    flag_round-any = ground arith

    flag_round-restricted :
        (flag_round env grant flags).env_restricted
        ≡ (flags.env_restricted || (reads grant && not (is_empty grant.env_scopes)))
    unfolding flag_round reads
    flag_round-restricted = ground arith

    flag_round-satisfied :
        (flag_round env grant flags).env_satisfied
        ≡ (flags.env_satisfied || (reads grant && env_covers grant))
    unfolding flag_round reads env_covers
    flag_round-satisfied = ground arith

  read_flags-any :
      (grants : List Grant) (flags : Flags)
      → (read_flags env grants flags).any_grant ≡ (flags.any_grant || any reads grants)
  unfolding read_flags
  read_flags-any [] flags = ground arith
  read_flags-any (g ∷ grants) flags =
      ground (arith, read_flags-any grants (flag_round env g flags), flag_round-any g flags)

  read_flags-restricted :
      (grants : List Grant) (flags : Flags)
      → (read_flags env grants flags).env_restricted
        ≡ (flags.env_restricted || any (λ g. reads g && not (is_empty g.env_scopes)) grants)
  unfolding read_flags
  read_flags-restricted [] flags = ground arith
  read_flags-restricted (g ∷ grants) flags =
      ground (
        arith,
        read_flags-restricted grants (flag_round env g flags),
        flag_round-restricted g flags,
      )

  read_flags-satisfied :
      (grants : List Grant) (flags : Flags)
      → (read_flags env grants flags).env_satisfied
        ≡ (flags.env_satisfied || any (λ g. reads g && env_covers g) grants)
  unfolding read_flags
  read_flags-satisfied [] flags = ground arith
  read_flags-satisfied (g ∷ grants) flags =
      ground
        (arith, read_flags-satisfied grants (flag_round env g flags), flag_round-satisfied g flags)

  -- With some grant that reads, the environment passes just when one of them covers it.
  env_ok_lem :
      (grants : List Grant)
      → any reads grants ≡ true
      → (not (any (λ g. reads g && not (is_empty g.env_scopes)) grants)
          || any (λ g. reads g && env_covers g) grants)
        ≡ any (λ g. reads g && env_covers g) grants
  unfolding env_covers
  env_ok_lem [] h = cc
  env_ok_lem (g ∷ grants) h = ground (arith, env_ok_lem grants)

-- Some grant that reads names teams, and one of the named teams covers the supplier.
pub team_restricted : List Grant → Bool
team_restricted = any (λ g. reads g && any (λ _. true) g.team_scopes)

pub team_passes : List Team → String → List Grant → Bool
team_passes teams id = any (λ g. reads g && any (team_covers teams id) g.team_scopes)

team_ok_lem :
    (teams : List Team) (id : String) (grants : List Grant)
    → id ≢ ""
    → allows_supplier (team_read_scope teams grants) (some id)
      ≡ (not (team_restricted grants) || team_passes teams id grants)
unfolding team_read_scope team_restricted team_passes
team_ok_lem teams id grants n = ground (
  arith,
  is_empty-any (team_names grants []),
  any-team_names (λ _. true) grants [],
  any-team_names (team_covers teams id) grants [],
  resolve_teams-covers teams id (team_names grants []) [] n,
)

-- A read of a supplier's resource is denied to a caller with no estate-wide read role exactly when
-- it holds a grant that reads, and either no such grant covers the environment, or such grants name
-- teams and none of the named teams covers the supplier.
pub read_denied_exact :
    (teams : List Team) (identity : Identity) (id : String) (env : Option String)
    → id ≢ ""
    → any (λ role. is_always (role_verdict role "read")) identity.roles ≡ false
    → scoped_read_denied teams (some identity) (some id) env ≡ (
        any reads identity.scopes
        && not (
            any (λ g. reads g && env_covers env g) identity.scopes
            && (not (team_restricted identity.scopes) || team_passes teams id identity.scopes)))
unfolding scoped_read_denied
read_denied_exact teams identity id env n e = ground (
  arith,
  team_ok_lem teams id identity.scopes n,
  env_ok_lem env identity.scopes,
  read_flags-any env identity.scopes no_flags,
  read_flags-restricted env identity.scopes no_flags,
  read_flags-satisfied env identity.scopes no_flags,
)

-- Two grants of a caller that has no estate-wide role, each for one environment and one team.
abbrev pub two_grants : (r₁ e₁ t₁ r₂ e₂ t₂ : String) → Identity
two_grants r₁ e₁ t₁ r₂ e₂ t₂ = record {
  user = "caller";
  persona = some "scoped";
  roles = "scoped" ∷ [];
  namespaces = [];
  tenant_scopes = [];
  scopes =
      record { role = r₁; env_scopes = e₁ ∷ []; team_scopes = t₁ ∷ [] }
      ∷ record { role = r₂; env_scopes = e₂ ∷ []; team_scopes = t₂ ∷ [] }
      ∷ [];
}

no_scoped_role : (action : String) → role_verdict "scoped" action ≡ never
unfolding role_verdict cell property
no_scoped_role action = refl

neither-Permits :
    (r₁ e₁ t₁ r₂ e₂ t₂ : String)
    → e₁ ≢ e₂
    → t₁ ≢ t₂
    → ¬ Permits
        (two_grants r₁ e₁ t₁ r₂ e₂ t₂)
        (record { action = "read"; tenant = none; env = some e₁; team = some t₂ })
unfolding effective_roles
neither-Permits r₁ e₁ t₁ r₂ e₂ t₂ de dt (inl (inl p)) = ground (arith, no_scoped_role "read")
neither-Permits r₁ e₁ t₁ r₂ e₂ t₂ de dt (inl (inr p)) = absurd p
neither-Permits r₁ e₁ t₁ r₂ e₂ t₂ de dt (inr (inl p)) = ground (arith, p.2, eq_iff t₁ t₂)
neither-Permits r₁ e₁ t₁ r₂ e₂ t₂ de dt (inr (inr (inl p))) = ground (arith, p.1, eq_iff e₂ e₁)
neither-Permits r₁ e₁ t₁ r₂ e₂ t₂ de dt (inr (inr (inr p))) = absurd p

-- The two checks of a read disagree. A caller with a grant for one environment and one team, and a
-- second grant for another environment and another team, is not denied a resource in the first
-- environment of a supplier of the second team, though `authorize` denies the same read, since
-- neither grant covers it.
pub grants_mix :
    (teams : List Team) (id r₁ e₁ t₁ r₂ e₂ t₂ : String)
    → role_verdict r₁ "read" ≢ never
    → role_verdict r₂ "read" ≢ never
    → id ≢ ""
    → e₁ ≢ ""
    → e₁ ≢ e₂
    → t₁ ≢ t₂
    → team_covers teams id t₂ ≡ true
    → let identity = two_grants r₁ e₁ t₁ r₂ e₂ t₂ in
      let req : Request = record {
        action = "read";
        tenant = none;
        env = some e₁;
        team = some t₂;
      } in
      (scoped_read_denied teams (some identity) (some id) (some e₁) ≡ false)
      × (is_allowed (authorize (some identity) req) ≡ false)
unfolding reads env_covers team_restricted team_passes
grants_mix teams id r₁ e₁ t₁ r₂ e₂ t₂ m₁ m₂ n ne de dt c =
    let identity = two_grants r₁ e₁ t₁ r₂ e₂ t₂ in
    let req : Request = record { action = "read"; tenant = none; env = some e₁; team = some t₂ } in
    (
      rw (read_denied_exact teams identity id (some e₁) n (rw no_scoped_role refl))
          (ground (arith, eq_iff e₁ "", eq_iff e₁ e₁)),
      authorize_denies identity req (neither-Permits r₁ e₁ t₁ r₂ e₂ t₂ de dt),
    )
