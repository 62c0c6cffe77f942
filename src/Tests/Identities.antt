-- ===== src/Tests/Identities.antt =====
-- Groups, sessions and tokens at concrete values.
use arcanium.Prelude.{
  String, ◌≡◌, refl, ◌⊎◌, true, false, none, some, List, [], ◌∷◌, any, includes, AnyOf,
}
use arcanium.Auth.Authorize.{Request, property}
use arcanium.Auth.Groups.{
  env, groups_to_identity, collect_roles, collect_scopes, scoped_tag, add_scope, set_add,
}
use arcanium.Auth.Groups.Scopes.{granted, tags, scopes_exact}
use arcanium.Auth.Session.{
  has_session, update_session, authenticate_service_account, Config, Session, Db, callback,
  find_session, require_session, session_identity, new_session, bearer_token,
}
use arcanium.Auth.Session.Lifetime.{
  step, Event, signed_in, requested, state, SignedInWithin, SeenWithin, session_lifetime,
}
use arcanium.Auth.Session.Access.{identity_is_backed, FromSession, FromToken}

abbrev scoped_groups : List String
scoped_groups = "arcanium-operator:env:staging" ∷ "arcanium-operator:team:platform" ∷ []

scopes_exact_example :
    includes (granted env "operator" (groups_to_identity scoped_groups).scopes) "staging"
    ≡ any (tags env "operator" "staging") scoped_groups
scopes_exact_example = scopes_exact env "operator" "staging" scoped_groups refl

abbrev config : Config
config = record { enabled = true; demo_switch = false }

abbrev history : List Event
history =
    requested 1000 "/api/v1/keys" "" (some "k")
    ∷ signed_in 100 "k" "ann" ("arcanium-auditor" ∷ [])
    ∷ []

abbrev tables : Db
tables = state config (λ s. s) [] [] history

abbrev ann : Session
ann = record {
  id = "k";
  username = "ann";
  persona = "auditor";
  namespaces = [];
  groups = "arcanium-auditor" ∷ [];
  expires_at = 3700;
  last_seen_at = 1000;
}

found_later : find_session "k" 2700 tables.sessions ≡ some ann
unfolding state step callback require_session groups_to_identity collect_roles collect_scopes
    set_add property has_session find_session update_session bearer_token scoped_tag add_scope
    authenticate_service_account session_identity
found_later = refl

session_lifetime_example :
    AnyOf (SignedInWithin "k" 2700) history × AnyOf (SeenWithin "k" 2700) history
session_lifetime_example = session_lifetime config (λ s. s) [] [] history "k" 2700 ann found_later

abbrev after_logout : List Event
after_logout =
    requested 2600 "/api/v1/keys" "" (some "k")
    ∷ signed_in 2500 "m" "bob" ("arcanium-operator" ∷ [])
    ∷ []

abbrev rotate_staging : Request
rotate_staging = record {
  action = "rotate";
  tenant = none;
  env = some "staging";
  team = some "platform";
}

abbrev scoped_session : Session
scoped_session = new_session 0 "k" "ann" scoped_groups (groups_to_identity scoped_groups)

identity_is_backed_example :
    ((bearer_token "" ≡ none) × FromSession 2700 (some "k") tables (session_identity ann))
    ⊎ FromToken (λ s. s) 2700 "" tables (session_identity ann)
unfolding state step callback require_session groups_to_identity collect_roles collect_scopes
    set_add property has_session find_session update_session bearer_token scoped_tag add_scope
    authenticate_service_account session_identity
identity_is_backed_example =
    identity_is_backed config (λ s. s) 2700 "/api/v1/keys" "" (some "k") tables
      (session_identity ann) refl refl refl
