-- ===== src/Tests/Authorization.antt =====
-- Decisions of `authorize` at concrete identities.
use arcanium.Prelude.{
  String, ◌≡◌, refl, ◌↔◌, true, false, not, ◌&&◌, ◌||◌, none, some, List, [], ◌∷◌, arith, eq_iff,
  any, includes,
}
use arcanium.Auth.Authorize.{
  cell, property, role_verdict, actions, Grant, Identity, Request, authorize, is_allowed,
}
use arcanium.Auth.Authorize.Permits.{Permits, authorize_iff}
use arcanium.Auth.Scope.{Team, resolve_supplier_ids_for_team, scoped_read_denied}
use arcanium.Auth.Scope.Reads.{
  reads, env_covers, team_restricted, team_passes, team_covers, two_grants, read_denied_exact,
  grants_mix,
}

abbrev operator_in : String → Grant
operator_in env = record { role = "operator"; env_scopes = env ∷ []; team_scopes = [] }

abbrev caller : List String → List String → List Grant → Identity
caller roles tenant_scopes scopes = record {
  user = "u";
  persona = none;
  roles = roles;
  namespaces = tenant_scopes;
  tenant_scopes = tenant_scopes;
  scopes = scopes;
}

abbrev rotate_in : String → String → Request
rotate_in tenant env = record {
  action = "rotate";
  tenant = some tenant;
  env = some env;
  team = none;
}

abbrev approve_request : Request
approve_request = record { action = "approve"; tenant = none; env = none; team = none }

authorize_iff_example :
    (is_allowed
        (authorize (some (caller ("operator" ∷ []) [] [])) (rotate_in "suppliers/a" "staging"))
      ≡ true)
    ↔ ((includes actions "rotate" ≡ true)
        × Permits (caller ("operator" ∷ []) [] []) (rotate_in "suppliers/a" "staging"))
authorize_iff_example =
    authorize_iff (caller ("operator" ∷ []) [] []) (rotate_in "suppliers/a" "staging")

abbrev teams : List Team
teams = record { name = "beta"; supplier_ids = some ("s2" ∷ []) } ∷ []

abbrev mixed : Identity
mixed = two_grants "operator" "staging" "alpha" "auditor" "production" "beta"

read_denied_exact_example : scoped_read_denied teams (some mixed) (some "s2") (some "dev") ≡ (
    any reads mixed.scopes
    && not (
        any (λ g. reads g && env_covers (some "dev") g) mixed.scopes
        && (not (team_restricted mixed.scopes) || team_passes teams "s2" mixed.scopes)))
unfolding role_verdict cell property
read_denied_exact_example =
    read_denied_exact teams mixed "s2" (some "dev") (ground (arith, eq_iff "s2" "")) refl

grants_mix_example :
    (scoped_read_denied teams (some mixed) (some "s2") (some "staging") ≡ false)
    × (is_allowed (
          authorize
            (some mixed)
            (record { action = "read"; tenant = none; env = some "staging"; team = some "beta" }))
        ≡ false)
unfolding role_verdict cell property team_covers resolve_supplier_ids_for_team
grants_mix_example =
    grants_mix teams "s2" "operator" "staging" "alpha" "auditor" "production" "beta" (λ h. cc)
      (λ h. cc) (ground (arith, eq_iff "s2" "")) (ground (arith, eq_iff "staging" ""))
      (ground (arith, eq_iff "staging" "production")) (ground (arith, eq_iff "alpha" "beta")) refl
