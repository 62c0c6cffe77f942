-- ===== src/Tests/Declaring.antt =====
-- An expiry date that is declared for a key, and edits of it.
use mathlib.Core.Path.{subst}
use arcanium.Prelude.{false, ℕ, String, ◌≡◌, refl, true, Option, none, some, [], ◌∷◌}
use arcanium.Auth.Authorize.{Identity, authorize, effective_roles, estate_round, cell}
use arcanium.Auth.Scope.{tenant_scope}
use arcanium.Reconciliation.Json.{Json, text, num, obj, field, end, deep_equal}
use arcanium.Reconciliation.Intent.{Intent, find_intent, upsert_desired_state, get_desired_state}
use arcanium.Reconciliation.Declaring.{
  is_key_name, path_ends_in, updated, Edit, unknown_requirement, value_required, days_not_positive,
  created, not_after_no_date, matches, shape_desired_value, Caller, KeyProfile,
  declare_desired_state, edit_desired_state, validate_desired_value, OwnedApp, Declaration, Desk,
}
use arcanium.Reconciliation.Declaring.Checks.{IsDeclared, created_after_checks}
use arcanium.Reconciliation.Declaring.Kept.{HasSound, routes_keep_judged}

abbrev architect : Identity
architect = record {
  user = "ann";
  persona = some "architect";
  roles = "architect" ∷ [];
  namespaces = [];
  tenant_scopes = [];
  scopes = [];
}

abbrev ann : Caller
ann = record { identity = some architect; groups = "architects" ∷ [] }

abbrev app : OwnedApp
app = record { id = 7; supplier_id = some "s1"; environment = some "prod" }

abbrev profile : KeyProfile
profile = record { application_id = 7; vault_path = "transit/keys/k1" }

abbrev desk : Desk
desk = record {
  apps = app ∷ [];
  suppliers = record { id = "s1"; vault_namespace = "acme" } ∷ [];
  profiles = profile ∷ [];
  intents = record { rows = []; history = []; next_id = 1 };
}

abbrev expires : String → Json
expires date = obj (field "not_after" (text date) (field "days" (num 3) end))

abbrev body : Declaration
body = record {
  application_id = some 7;
  key_name = "k1";
  requirement = "expiry_date";
  desired_value = some (expires "2031-01-31");
  reason = none;
}

abbrev no_dates : String → Option ℕ
no_dates s = none

abbrev declared : Intent
declared = record {
  id = 1;
  application_id = 7;
  key_name = "k1";
  requirement = "expiry_date";
  desired_value = obj (field "not_after" (text "2031-01-31") end);
  source = "operator";
  version = 1;
  author = record { by = "ann"; groups = "architects" ∷ []; reason = none };
}

declare_answers : (declare_desired_state ann body desk).0 ≡ created declared
unfolding is_key_name path_ends_in declare_desired_state validate_desired_value shape_desired_value
    matches tenant_scope authorize effective_roles estate_round cell upsert_desired_state
    find_intent
declare_answers = refl

-- A date in another form is refused, and so are days for a date.
refuses_other_dates :
    (validate_desired_value "expiry_date" (some (expires "31-01-2031")) ≡ some not_after_no_date)
    × (validate_desired_value "expiry_date" (some (obj (field "days" (num 3) end)))
        ≡ some not_after_no_date)
    × (validate_desired_value "rotation_period" (some (obj (field "days" (num 0) end)))
        ≡ some days_not_positive)
    × (validate_desired_value "rotation_period" none ≡ some value_required)
    × (validate_desired_value "key_type" (some (expires "2031-01-31")) ≡ some unknown_requirement)
unfolding validate_desired_value matches
refuses_other_dates = (refl, refl, refl, refl, refl)

created_after_checks_example :
    (id : ℕ) × (some 7 ≡ some id)
    × (is_key_name "k1" ≡ true)
    × (validate_desired_value "expiry_date" (some (expires "2031-01-31")) ≡ none)
    × IsDeclared ann body desk id declared
created_after_checks_example = created_after_checks ann body desk declared declare_answers

desk-HasSound : HasSound no_dates 0 desk
desk-HasSound = ((tt, tt, tt, tt), tt)

abbrev later : Edit
later = record { desired_value = some (expires "2031-02-28"); reason = some "later" }

-- The desk on which the declaration above was answered.
abbrev next_desk : Desk
next_desk = record desk { intents = record { rows = declared ∷ []; history = []; next_id = 2 } }

declare_gives : (declare_desired_state ann body desk).1 ≡ next_desk
unfolding is_key_name path_ends_in declare_desired_state validate_desired_value shape_desired_value
    matches tenant_scope authorize effective_roles estate_round cell upsert_desired_state
    find_intent
declare_gives = refl

edit_answers :
    (edit_desired_state ann (some 1) later next_desk).0
    ≡ updated (record declared {
      desired_value = obj (field "not_after" (text "2031-02-28") end);
      version = 2;
      author = record { by = "ann"; groups = "architects" ∷ []; reason = some "later" };
    })
unfolding edit_desired_state get_desired_state validate_desired_value shape_desired_value matches
    tenant_scope authorize effective_roles estate_round cell upsert_desired_state find_intent
    deep_equal
edit_answers = refl

next_desk-HasSound : HasSound no_dates 0 next_desk
next_desk-HasSound =
    subst (λ d. HasSound no_dates 0 d) declare_gives
      (routes_keep_judged no_dates 0 ann desk none later body desk-HasSound).1

routes_keep_judged_example :
    HasSound no_dates 0 (edit_desired_state ann (some 1) later next_desk).1
    × HasSound no_dates 0 (declare_desired_state ann body next_desk).1
routes_keep_judged_example =
    routes_keep_judged no_dates 0 ann next_desk (some 1) later body next_desk-HasSound

-- The suffix of a path is compared as it is, whatever characters the key has, and so is a whole name.
names_and_paths :
    (path_ends_in "transit/keys/k_1" "k_1" ≡ true)
    × (path_ends_in "transit/keys/kx1" "k_1" ≡ false)
    × (path_ends_in "k1" "k1" ≡ false)
    × (is_key_name "pay-ments_1" ≡ true)
    × (is_key_name "a/b" ≡ false)
    × (is_key_name "" ≡ false)
unfolding path_ends_in is_key_name
names_and_paths = (refl, refl, refl, refl, refl, refl)
