-- ===== src/Auth/Authorize/Permits.antt =====
-- arcanium/api/src/auth/authorize.js: what a caller is permitted, described apart from the loops of
-- `authorize`, and the equivalence of the two.
use arcanium.Prelude.{
  String, ◌≡◌, ◌≢◌, ◌↔◌, ◌⊎◌, inl, inr, true, false, Option, none, some, List, [], arith,
  Bool-cases, Option-cases, is_some, includes, AnyOf, first_match, first_match-AnyOf,
  AnyOf-first_match, first_match-result,
}
use arcanium.Auth.Authorize.{
  always, never, limited, role_verdict, actions, Grant, Identity, Request, Decision, listed,
  effective_roles, estate_round, grant_round, decide_identity, authorize, is_allowed,
}

-- An estate-wide role permits the action everywhere, or within the caller's own tenants.
abbrev pub EstatePermits : Identity → Request → String → Type 0
EstatePermits identity req role =
    (role_verdict role req.action ≡ always)
    ⊎ ((role_verdict role req.action ≡ limited) × (listed req.tenant identity.tenant_scopes ≡ true))

-- An empty list of scopes restricts nothing; any other must name the resource's own tag.
abbrev pub Covers : List String → Option String → Type 0
Covers scopes x = (scopes ≡ []) ⊎ (listed x scopes ≡ true)

abbrev pub GrantPermits : Identity → Request → Grant → Type 0
GrantPermits identity req grant =
    (role_verdict grant.role req.action ≢ never)
    × Covers grant.env_scopes req.env
    × Covers grant.team_scopes req.team
    × (role_verdict grant.role req.action ≡ limited → Covers identity.tenant_scopes req.tenant)

abbrev pub Permits : Identity → Request → Type 0
Permits identity req =
    AnyOf (EstatePermits identity req) (effective_roles identity)
    ⊎ AnyOf (GrantPermits identity req) identity.scopes

module _ (identity : Identity) (req : Request) where
  estate_round_sound :
      (role : String)
      → is_some (estate_round identity req role) ≡ true
      → EstatePermits identity req role
  unfolding estate_round role_verdict
  estate_round_sound role h = ground arith

  estate_round_complete :
      (role : String)
      → EstatePermits identity req role
      → is_some (estate_round identity req role) ≡ true
  unfolding estate_round role_verdict
  estate_round_complete role h = ground arith

  grant_round_sound :
      (grant : Grant)
      → is_some (grant_round identity req grant) ≡ true
      → GrantPermits identity req grant
  unfolding grant_round role_verdict
  grant_round_sound grant h = ground arith

  grant_round_complete :
      (grant : Grant)
      → GrantPermits identity req grant
      → is_some (grant_round identity req grant) ≡ true
  unfolding grant_round role_verdict
  grant_round_complete grant h = ground arith

  estate_round-allows :
      (role : String) (d : Decision) → estate_round identity req role ≡ some d → is_allowed d ≡ true
  unfolding estate_round
  estate_round-allows role d h = ground arith

  grant_round-allows :
      (grant : Grant) (d : Decision) → grant_round identity req grant ≡ some d → is_allowed d ≡ true
  unfolding grant_round
  grant_round-allows grant d h = ground arith

  estate_loop-allows :
      (roles : List String) (d : Decision)
      → first_match (estate_round identity req) roles ≡ some d
      → is_allowed d ≡ true
  estate_loop-allows =
      first_match-result (estate_round identity req) (λ d. is_allowed d ≡ true) estate_round-allows

  grant_loop-allows :
      (grants : List Grant) (d : Decision)
      → first_match (grant_round identity req) grants ≡ some d
      → is_allowed d ≡ true
  grant_loop-allows =
      first_match-result (grant_round identity req) (λ d. is_allowed d ≡ true) grant_round-allows

  decide_identity_sound : is_allowed (decide_identity identity req) ≡ true → Permits identity req
  unfolding decide_identity
  decide_identity_sound h =
      elim (Option-cases (first_match (estate_round identity req) (effective_roles identity))) [
        | inr (d, e) ↦ inl (
            first_match-AnyOf (estate_round identity req) (EstatePermits identity req)
              estate_round_sound (effective_roles identity) (ground arith))
        | inl e ↦ inr (
            first_match-AnyOf (grant_round identity req) (GrantPermits identity req)
              grant_round_sound identity.scopes (ground arith))
      ]

  decide_identity_complete : Permits identity req → is_allowed (decide_identity identity req) ≡ true
  unfolding decide_identity
  decide_identity_complete (inl p) =
      let e =
        AnyOf-first_match (estate_round identity req) (EstatePermits identity req)
          estate_round_complete (effective_roles identity) p in
      elim (Option-cases (first_match (estate_round identity req) (effective_roles identity))) [
        | inl n ↦ absurd (ground arith)
        | inr (d, e) ↦ rw e (estate_loop-allows (effective_roles identity) d e)
      ]
  decide_identity_complete (inr p) =
      let g =
        AnyOf-first_match (grant_round identity req) (GrantPermits identity req)
          grant_round_complete identity.scopes p in
      elim (Option-cases (first_match (estate_round identity req) (effective_roles identity))) [
        | inl n ↦ elim (Option-cases (first_match (grant_round identity req) identity.scopes)) [
          | inl m ↦ absurd (ground arith)
          | inr (d, e) ↦ rw (n, e) (grant_loop-allows identity.scopes d e)
        ]
        | inr (d, e) ↦ rw e (estate_loop-allows (effective_roles identity) d e)
      ]

  -- A caller with an identity is allowed exactly when the action is one of the seven and some
  -- estate-wide role or scoped grant of the caller permits it on the resource.
  pub authorize_iff :
      (is_allowed (authorize (some identity) req) ≡ true)
      ↔ ((includes actions req.action ≡ true) × Permits identity req)
  unfolding authorize
  authorize_iff = (
    λ h. (ground arith, decide_identity_sound (ground arith)),
    λ (known, p). rw known (decide_identity_complete p),
  )

-- With no identity, every request is denied.
pub authorize-none : (req : Request) → is_allowed (authorize none req) ≡ false
unfolding authorize
authorize-none req = ground arith

-- What nothing permits is denied.
pub authorize_denies :
    (identity : Identity) (req : Request)
    → ¬ Permits identity req
    → is_allowed (authorize (some identity) req) ≡ false
authorize_denies identity req h = elim (Bool-cases (is_allowed (authorize (some identity) req))) [
  | inl e ↦ absurd (h ((authorize_iff identity req).0 e).1)
  | inr e ↦ e
]
