-- ===== src/Suppliers/Isolation.antt =====
-- arcanium/api/src/suppliers/isolation.js: the live check of the boundary between tenants. A namespace
-- is the list of its path's segments; Vault's answers are an argument.
pub mod Boundary
use Prim.Native.String
use arcanium.Prelude.{
  ℕ, zero, suc, ◌+◌, ◌-◌, ◌*◌, ◌/◌, ◌≤◌, ◌<◌, String, ◌≡◌, refl, sym, ap, ◌∙◌, ◌≢◌, ◌↔◌, ◌⊎◌, inl,
  inr, Bool, true, false, not, ◌&&◌, ◌||◌, Option, none, some, List, [], ◌∷◌, ◌++◌, map, arith,
  ◌==◌, eq_iff, eq_refl, ltb, leb, eqb, if◌then◌else◌, Bool-cases, Option-cases, is_some,
  or_default, truthy, length, select, any, all, first?, last?, length-append, length-select-le,
  includes, AnyOf, AllOf, agree, all-includes, includes-AnyOf, AnyOf-includes, AnyOf-map,
  AnyOf-map_all, AnyOf-elim, ◌<|>◌, first_match, first_match-AnyOf, AnyOf-first_match,
  first_match-result,
}

pub record Tenant : Type 0 where
  pub name : String
  pub namespace : List String

-- `err.vaultStatus`, where a request throws.
pub data Answer (A : Type 0) : Type 0 where
  answer : A → Answer A
  status : ℕ → Answer A

-- The requests that the check makes; a field that an answer lacks is `none`.
pub record Vault (T : Type 0) : Type 0 where
  pub role_id : List String → String → Answer (Option String)
  pub secret_id : List String → String → Answer (Option String)
  pub login : List String → String → String → Answer (Option T)
  pub list_keys : Option T → List String → Answer Unit

-- The last segment, trailing slashes apart.
unfoldable pub leaf_of : List String → String
leaf_of [] = ""
leaf_of (s ∷ segments) = let rest = leaf_of segments in if rest == "" then s else rest

pub data Direction : Type 0 where
  own_tenant : String → Bool → Direction
  -- from, to, and whether the listing was denied
  cross_tenant : String → String → Bool → Direction

pub data Note : Type 0 where
  no_note : Note
  too_few : Note
  not_denied : Note
  own_policy : Note
  could_not_run : Note

pub record Report : Type 0 where
  pub verified : Bool
  pub checked_at : ℕ
  pub tenants : List String
  pub directions : List Direction
  pub own_controls_ok : Option Bool
  pub note : Note

-- `let cache = { at, result }`
pub record Cache : Type 0 where
  pub at : ℕ
  pub result : Option Report

abbrev pub ttl_ms : ℕ
ttl_ms = 60000

-- The value or, where a request throws, none.
abbrev pub value_of : {A : Type 0} → Answer (Option A) → Option A
value_of (answer v) = v
value_of (status _) = none

abbrev pub is_listing : Answer Unit → Bool
is_listing (answer _) = true
is_listing (status code) = eqb code 404

abbrev pub is_403 : Answer Unit → Bool
is_403 (answer _) = false
is_403 (status code) = eqb code 403

module _ {T : Type 0} (vault : Vault T) where
  -- `if (rid) return role`
  abbrev has_role : List String → String → Bool
  has_role ns role = truthy (value_of (vault.role_id ns role))

  -- `<leaf>-app`, then `<leaf>-app-role`; none is thrown.
  unfoldable pub resolve_tenant_role : List String → Option String
  resolve_tenant_role ns =
      let app = String.◌++◌ (leaf_of ns) "-app" in
      let app_role = String.◌++◌ (leaf_of ns) "-app-role" in
      if has_role ns app then some app else if has_role ns app_role then some app_role else none

  -- The inner option is the token of the answer; the outer is none where something throws.
  abbrev settle_login : Answer (Option T) → Option (Option T)
  settle_login (answer token) = some token
  settle_login (status _) = none

  abbrev log_in : List String → Option String → Option String → Option (Option T)
  log_in ns (some role_id) (some secret_id) =
      if role_id == "" || secret_id == ""
      then none
      else settle_login (vault.login ns role_id secret_id)
  log_in ns _ _ = none

  abbrev mint_for : List String → Option String → Option (Option T)
  mint_for ns none = none
  mint_for ns (some role) =
      log_in ns (value_of (vault.role_id ns role)) (value_of (vault.secret_id ns role))

  unfoldable pub mint_tenant_token : List String → Option (Option T)
  mint_tenant_token ns = mint_for ns (resolve_tenant_role ns)

  unfoldable pub can_list : Option T → List String → Bool
  can_list token ns = is_listing (vault.list_keys token ns)

  unfoldable pub is_denied : Option T → List String → Bool
  is_denied token ns = is_403 (vault.list_keys token ns)

  -- `tokens[t.name] = await mintTenantToken(...)`, for each; a name's last token counts.
  abbrev pub add_token :
      String
      → Option (Option T)
      → Option (List (String × Option T))
      → Option (List (String × Option T))
  add_token name (some token) (some tokens) = some (tokens ++ (name, token) ∷ [])
  add_token name _ _ = none

  unfoldable pub mint_all : List Tenant → Option (List (String × Option T))
  mint_all [] = some []
  mint_all (t ∷ tenants) = add_token t.name (mint_tenant_token t.namespace) (mint_all tenants)

  -- `tokens[name]`
  unfoldable pub token_of : List (String × Option T) → String → Option T
  token_of [] name = none
  token_of ((n, token) ∷ tokens) name = if n == name then token else token_of tokens name

  -- The inner loop: the tenant `a` against every other.
  unfoldable pub cross_directions : Option T → Tenant → List Tenant → List Direction
  cross_directions token a [] = []
  cross_directions token a (b ∷ tenants) =
      let rest = cross_directions token a tenants in
      if a.name == b.name
      then rest
      else cross_tenant a.name b.name (is_denied token b.namespace) ∷ rest

  -- The outer loop.
  unfoldable pub all_directions :
      List (String × Option T) → List Tenant → List Tenant → List Direction
  all_directions tokens every [] = []
  all_directions tokens every (a ∷ tenants) =
      let token = token_of tokens a.name in
      own_tenant a.name (can_list token a.namespace)
      ∷ (cross_directions token a every ++ all_directions tokens every tenants)

-- `boundaryHolds` and `ownControlsOk` are cleared by a direction that fails.
abbrev pub keeps_boundary : Direction → Bool
keeps_boundary (own_tenant _ _) = true
keeps_boundary (cross_tenant _ _ denied) = denied

abbrev pub keeps_own : Direction → Bool
keeps_own (own_tenant _ ok) = ok
keeps_own (cross_tenant _ _ _) = true

abbrev note_for : Bool → Bool → Note
note_for false own = not_denied
note_for true false = own_policy
note_for true true = no_note

abbrev tenant_name : Tenant → String
tenant_name t = t.name

abbrev blank : ℕ → List Tenant → Note → Report
blank now tenants note = record {
  verified = false;
  checked_at = now;
  tenants = map tenant_name tenants;
  directions = [];
  own_controls_ok = none;
  note = note;
}

abbrev judge : ℕ → List Tenant → List Direction → Report
judge now tenants directions =
    let boundary = all keeps_boundary directions in
    let own = all keeps_own directions in
    record (blank now tenants (note_for boundary own)) {
      verified = boundary;
      directions = directions;
      own_controls_ok = some own;
    }

module _ {T : Type 0} (vault : Vault T) where
  abbrev try_check : ℕ → List Tenant → Option (List (String × Option T)) → Report
  try_check now tenants none = blank now tenants could_not_run
  try_check now tenants (some tokens) =
      judge now tenants (all_directions vault tokens tenants tenants)

  unfoldable pub run_check : ℕ → List Tenant → Report
  run_check now tenants =
      if ltb (length tenants) 2
      then blank now tenants too_few
      else try_check now tenants (mint_all vault tenants)

  abbrev is_fresh : ℕ → Cache → Bool
  is_fresh now cache = ltb (now - cache.at) ttl_ms && is_some cache.result

  unfoldable pub check_isolation : ℕ → List Tenant → Cache → Report × Cache
  check_isolation now tenants cache =
      let report = run_check now tenants in
      if is_fresh now cache
      then (or_default cache.result report, cache)
      else (report, record { at = now; result = some report })
