-- ===== src/Auth/Authorize/Duties.antt =====
-- arcanium/api/src/auth/authorize.js: which duties the matrix keeps apart, and how far a limited
-- role and a scoped grant reach.
use arcanium.Prelude.{
  AnyOf-map_all, AnyOf-elim, Option-cases, includes-AnyOf, AnyOf-map, String, ◌≡◌, refl, ◌≢◌, ◌⊎◌,
  inl, inr, true, some, List, [], ◌∷◌, arith, eq_iff, includes, AnyOf, AllOf,
}
use arcanium.Auth.Authorize.{
  first_match, estate_round, always, never, cell, property, role_verdict, Grant, Identity, Request,
  listed, effective_roles, decide_identity, authorize, is_allowed,
}
use arcanium.Auth.Authorize.Permits.{EstatePermits, GrantPermits, Permits, authorize_iff}

-- The four actions that change a key or a tenant at once.
abbrev pub operations : List String
operations = "provision" ∷ "rotate" ∷ "rewrap" ∷ "reconcile" ∷ []

approve-ciso : (role : String) → role_verdict role "approve" ≢ never → role ≡ "ciso"
unfolding role_verdict cell property
approve-ciso role h = ground (arith, eq_iff "ciso" role)

ciso_operates_never :
    (action : String) → AnyOf (λ x. x ≡ action) operations → role_verdict "ciso" action ≡ never
unfolding role_verdict cell property
ciso_operates_never action (inl e) = rw (← e) refl
ciso_operates_never action (inr (inl e)) = rw (← e) refl
ciso_operates_never action (inr (inr (inl e))) = rw (← e) refl
ciso_operates_never action (inr (inr (inr (inl e)))) = rw (← e) refl
ciso_operates_never action (inr (inr (inr (inr h)))) = absurd h

-- Four eyes: a role that may approve can do none of the operations, whatever its scope.
pub approve_excludes_operations :
    (role action : String)
    → role_verdict role "approve" ≢ never
    → includes operations action ≡ true
    → role_verdict role action ≡ never
approve_excludes_operations role action h o =
    rw (approve-ciso role h) (ciso_operates_never action (includes-AnyOf operations action o))

abbrev pub IsCisoGrant : Grant → Type 0
IsCisoGrant grant = grant.role ≡ "ciso"

abbrev pub HoldsCiso : Identity → Type 0
HoldsCiso identity =
    AnyOf (λ role. role ≡ "ciso") (effective_roles identity) ⊎ AnyOf IsCisoGrant identity.scopes

Permits-approve :
    (identity : Identity) (req : Request)
    → req.action ≡ "approve"
    → Permits identity req
    → HoldsCiso identity
Permits-approve identity req a (inl p) = inl (
    AnyOf-map (EstatePermits identity req) (λ role. role ≡ "ciso")
      (λ role q. approve-ciso role (rw (← a) (ground arith))) (effective_roles identity) p)
Permits-approve identity req a (inr p) = inr (
    AnyOf-map (GrantPermits identity req) IsCisoGrant
      (λ grant q. approve-ciso grant.role (rw (← a) q.0)) identity.scopes p)

-- An approval is allowed only to a caller that holds the role `ciso`, estate-wide or by a grant.
pub approve_needs_ciso :
    (identity : Identity) (req : Request)
    → req.action ≡ "approve"
    → is_allowed (authorize (some identity) req) ≡ true
    → HoldsCiso identity
approve_needs_ciso identity req a h =
    Permits-approve identity req a ((authorize_iff identity req).0 h).1

-- A caller whose every role is limited for the action, and who holds no grants, is confined to its
-- own tenants: what it is allowed names one of them.
pub limited_stays_in_tenant :
    (identity : Identity) (req : Request)
    → AllOf (λ role. role_verdict role req.action ≢ always) (effective_roles identity)
    → identity.scopes ≡ []
    → is_allowed (authorize (some identity) req) ≡ true
    → listed req.tenant identity.tenant_scopes ≡ true
limited_stays_in_tenant identity req l g h = elim ((authorize_iff identity req).0 h).1 [
  | inl p ↦
      AnyOf-elim (EstatePermits identity req) (λ role. role_verdict role req.action ≢ always)
        (listed req.tenant identity.tenant_scopes ≡ true) (λ role not_always q. ground arith)
        (effective_roles identity) l p
  | inr p ↦ absurd (rw g at p)
]

-- A caller whose estate-wide roles cannot do the action, and whose every grant names environments,
-- is confined to them: what it is allowed lies in an environment that one of the grants lists.
pub scoped_stays_in_env :
    (identity : Identity) (req : Request)
    → AllOf (λ role. role_verdict role req.action ≡ never) (effective_roles identity)
    → AllOf (λ grant. grant.env_scopes ≢ []) identity.scopes
    → is_allowed (authorize (some identity) req) ≡ true
    → AnyOf (λ grant. listed req.env grant.env_scopes ≡ true) identity.scopes
scoped_stays_in_env identity req r g h = elim ((authorize_iff identity req).0 h).1 [
  | inl p ↦ absurd (
      AnyOf-elim (EstatePermits identity req) (λ role. role_verdict role req.action ≡ never) ⊥
        (λ role is_never q. ground arith) (effective_roles identity) r p)
  | inr p ↦
      AnyOf-map_all (GrantPermits identity req) (λ grant. grant.env_scopes ≢ [])
        (λ grant. listed req.env grant.env_scopes ≡ true) (λ grant tagged q. ground arith)
        identity.scopes g p
]

-- Grants never widen what the estate-wide roles allow: where the roles alone allow a request, the
-- decision is the same with any grants.
pub grants_never_override :
    (identity : Identity) (grants : List Grant) (req : Request)
    → let bare = record identity { scopes = [] } in
      is_allowed (authorize (some bare) req) ≡ true
      → authorize (some (record identity { scopes = grants })) req ≡ authorize (some bare) req
unfolding authorize decide_identity effective_roles estate_round
grants_never_override identity grants req h =
    let bare : Identity = record identity { scopes = [] } in
    elim (Option-cases (first_match (estate_round bare req) (effective_roles bare))) [
      | inl e ↦ absurd (ground arith)
      | inr (d, e) ↦ ground arith
    ]
