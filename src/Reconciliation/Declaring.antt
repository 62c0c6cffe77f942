-- ===== src/Reconciliation/Declaring.antt =====
-- arcanium/api/src/routes/reconciliation.js: the two routes that write an intent, PATCH and POST
-- /desired-state, with the validation they share. An id that is not a UUID is `none`, and a
-- conflict with another transaction (409) is left out.
pub mod Checks
pub mod Sound
pub mod Kept
use Prim.Native.String
use Prim.Native.String.{count, [] as no_chars, ◌∷◌ as char_then}
use Prim.Native.Char.{Char, code}
use arcanium.Prelude.{
  ℕ, zero, suc, ◌+◌, ◌-◌, ◌*◌, ◌/◌, ◌≤◌, ◌<◌, String, ◌≡◌, refl, sym, ap, ◌∙◌, ◌≢◌, ◌↔◌, ◌⊎◌, inl,
  inr, Bool, true, false, not, ◌&&◌, ◌||◌, Option, none, some, List, [], ◌∷◌, ◌++◌, map, arith,
  ◌==◌, eq_iff, eq_refl, ltb, leb, eqb, if◌then◌else◌, Bool-cases, Option-cases, is_some,
  or_default, truthy, length, select, any, all, first?, last?, length-append, length-select-le,
  includes, AnyOf, AllOf, agree, all-includes, includes-AnyOf, AnyOf-includes, AnyOf-map,
  AnyOf-map_all, AnyOf-elim, AllOf-select, AnyOf-select, AnyOf-selected, all-AllOf, AllOf-map,
  any-AnyOf, AllOf-iff, ◌<|>◌, first_match, first_match-AnyOf, AnyOf-first_match,
  first_match-result,
}
use arcanium.Auth.Authorize.{Identity, Decision, Request, deny, authorize}
use arcanium.Auth.Scope.{Supplier, tenant_scope}
use arcanium.Approvals.Requests.{find_supplier, look_up, namespace_of}
use arcanium.Reconciliation.Json.{Json, num, text, arr, obj, field, end, get_field}
use arcanium.Reconciliation.Diff.{finite}
use arcanium.Reconciliation.Intent.{
  Author, Intent, Intents, Change, upsert_desired_state, get_desired_state,
}

-- A row of applications.
pub record OwnedApp : Type 0 where
  pub id : ℕ
  pub supplier_id : Option String
  pub environment : Option String

-- A row of crypto_profiles.
pub record KeyProfile : Type 0 where
  pub application_id : ℕ
  pub vault_path : String

pub record Desk : Type 0 where
  pub apps : List OwnedApp
  pub suppliers : List Supplier
  pub profiles : List KeyProfile
  pub intents : Intents

-- Who calls: `req.identity`, and the groups of it.
pub record Caller : Type 0 where
  pub identity : Option Identity
  pub groups : List String

-- The bodies; a member that is missing is `none`, and `""` where the code tests it as a text.
pub record Edit : Type 0 where
  pub desired_value : Option Json
  pub reason : Option String

pub record Declaration : Type 0 where
  pub application_id : Option ℕ
  pub key_name : String
  pub requirement : String
  pub desired_value : Option Json
  pub reason : Option String

pub data Invalid : Type 0 where
  unknown_requirement : Invalid
  value_required : Invalid
  days_not_positive : Invalid
  not_after_no_date : Invalid

pub data Written : Type 0 where
  invalid_id : Written
  invalid_key_name : Written
  invalid_value : Invalid → Written
  not_found : Written
  no_profile : Written
  forbidden : Decision → Written
  updated : Intent → Written
  created : Intent → Written

abbrev pub requirements : List String
requirements = "rotation_period" ∷ "expiry_date" ∷ []

-- `/^\d{4}-\d{2}-\d{2}$/`
pub data Sign : Type 0 where
  digit : Sign
  hyphen : Sign

abbrev pub not_after_re : List Sign
not_after_re = digit ∷ digit ∷ digit ∷ digit ∷ hyphen ∷ digit ∷ digit ∷ hyphen ∷ digit ∷ digit ∷ []

abbrev pub is_sign : Sign → Char → Bool
is_sign digit c = leb 48 (code c) && leb (code c) 57
is_sign hyphen c = eqb (code c) 45

unfoldable pub matches : List Sign → String → Bool
matches [] no_chars = true
matches (sign ∷ signs) (char_then c s) = is_sign sign c && matches signs s
matches _ _ = false

-- `typeof x === "object"`, for a value that is not null
abbrev pub is_object : Option Json → Bool
is_object (some (arr _)) = true
is_object (some (obj _)) = true
is_object _ = false

abbrev pub is_positive : Option ℕ → Bool
is_positive none = false
is_positive (some n) = ltb 0 n

abbrev pub is_date : Option Json → Bool
is_date (some (text s)) = matches not_after_re s
is_date _ = false

abbrev pub member : Option Json → String → Option Json
member none key = none
member (some v) key = get_field v key

unfoldable pub validate_desired_value : String → Option Json → Option Invalid
validate_desired_value requirement value =
    if not (includes requirements requirement)
    then some unknown_requirement
    else if not (is_object value)
    then some value_required
    else if requirement == "rotation_period"
    then (if is_positive (finite (member value "days")) then none else some days_not_positive)
    else if is_date (member value "not_after")
    then none
    else some not_after_no_date

-- `{ key: value }`; a member that is undefined is not stored.
abbrev pub only : String → Option Json → Json
only key none = obj end
only key (some v) = obj (field key v end)

unfoldable pub shape_desired_value : String → Option Json → Json
shape_desired_value requirement value =
    if requirement == "rotation_period"
    then only "days" (member value "days")
    else only "not_after" (member value "not_after")

abbrev pub find_owned : ℕ → List OwnedApp → Option OwnedApp
find_owned id [] = none
find_owned id (a ∷ apps) = if eqb a.id id then some a else find_owned id apps

abbrev pub supplier_of : Option OwnedApp → Option String
supplier_of none = none
supplier_of (some a) = a.supplier_id

abbrev pub environment_of : Option OwnedApp → Option String
environment_of none = none
environment_of (some a) = a.environment

-- `scope.scoped && !scope.supplierIds.includes(supplierId)`
abbrev pub is_outside : Option (List String) → Option String → Bool
is_outside none supplier = false
is_outside (some ids) none = true
is_outside (some ids) (some supplier) = not (includes ids supplier)

abbrev pub provision_at : Option OwnedApp → Desk → Request
provision_at app d = record {
  action = "provision";
  tenant = namespace_of (look_up find_supplier (supplier_of app) d.suppliers);
  env = environment_of app;
  team = none;
}

abbrev pub user_of : Option Identity → String
user_of none = "arcanium"
user_of (some who) = who.user

abbrev author_of : Caller → Option String → Author
author_of caller reason = record {
  by = user_of caller.identity;
  groups = caller.groups;
  reason = reason;
}

abbrev pub store : (Intent → Written) → Change → Desk → Written × Desk
store reply c d =
    let (i, intents) = upsert_desired_state c d.intents in (reply i, record d { intents = intents })

-- The two checks of the application that both routes make, one after the other.
abbrev pub if_permitted : Decision → Desk → Written × Desk → Written × Desk
if_permitted (deny why) d next = (forbidden (deny why), d)
if_permitted _ d next = next

abbrev pub if_governed : Caller → Option OwnedApp → Desk → Written × Desk → Written × Desk
if_governed caller app d next =
    if is_outside (tenant_scope d.suppliers caller.identity) (supplier_of app)
    then (not_found, d)
    else if_permitted (authorize caller.identity (provision_at app d)) d next

abbrev pub if_valid : Option Invalid → Desk → Written × Desk → Written × Desk
if_valid none d next = next
if_valid (some why) d next = (invalid_value why, d)

abbrev pub edit_of : Caller → Edit → Intent → Change
edit_of caller body existing = record {
  application_id = existing.application_id;
  key_name = existing.key_name;
  requirement = existing.requirement;
  desired_value = shape_desired_value existing.requirement body.desired_value;
  source = "operator";
  author = author_of caller body.reason;
}

abbrev pub edit_found : Caller → Edit → Option Intent → Desk → Written × Desk
edit_found caller body none d = (not_found, d)
edit_found caller body (some existing) d =
    if_governed caller (find_owned existing.application_id d.apps) d (
      if_valid (validate_desired_value existing.requirement body.desired_value) d
        (store updated (edit_of caller body existing) d))

-- PATCH /desired-state/:id
unfoldable pub edit_desired_state : Caller → Option ℕ → Edit → Desk → Written × Desk
edit_desired_state caller none body d = (invalid_id, d)
edit_desired_state caller (some id) body d =
    edit_found caller body (get_desired_state id d.intents.rows) d

abbrev pub declaration_of : Caller → Declaration → ℕ → Change
declaration_of caller body id = record {
  application_id = id;
  key_name = body.key_name;
  requirement = body.requirement;
  desired_value = shape_desired_value body.requirement body.desired_value;
  source = "operator";
  author = author_of caller body.reason;
}

-- `/^[a-z0-9_-]{1,128}$/i`
abbrev is_key_char : Char → Bool
is_key_char c =
    (leb 97 (code c) && leb (code c) 122)
    || ((leb 65 (code c) && leb (code c) 90)
        || ((leb 48 (code c) && leb (code c) 57) || (eqb (code c) 95 || eqb (code c) 45)))

abbrev all_key_chars : String → Bool
all_key_chars no_chars = true
all_key_chars (char_then c s) = is_key_char c && all_key_chars s

unfoldable pub is_key_name : String → Bool
is_key_name s = leb 1 (count s) && (leb (count s) 128 && all_key_chars s)

-- `right(s, n)`, for a positive n: the last n characters, or all.
abbrev drop_chars : ℕ → String → String
drop_chars zero s = s
drop_chars (suc n) no_chars = no_chars
drop_chars (suc n) (char_then c s) = drop_chars n s

abbrev right : String → ℕ → String
right s n = drop_chars (count s - n) s

-- `right(vault_path, length(key) + 1) = '/' || key`
unfoldable pub path_ends_in : String → String → Bool
path_ends_in path key = right path (count key + 1) == String.◌++◌ "/" key

abbrev pub is_profile_of : ℕ → String → KeyProfile → Bool
is_profile_of id key_name p = eqb p.application_id id && path_ends_in p.vault_path key_name

abbrev pub declare_known : Caller → Declaration → ℕ → Desk → Written × Desk
declare_known caller body id d =
    if any (is_profile_of id body.key_name) d.profiles
    then store created (declaration_of caller body id) d
    else (no_profile, d)

abbrev pub declare_at : Caller → Declaration → ℕ → Option OwnedApp → Desk → Written × Desk
declare_at caller body id none d = (not_found, d)
declare_at caller body id (some app) d =
    if_governed caller (some app) d (declare_known caller body id d)

abbrev pub declare_for : Caller → Declaration → Option ℕ → Desk → Written × Desk
declare_for caller body none d = (invalid_id, d)
declare_for caller body (some id) d =
    if body.key_name == "" || not (is_key_name body.key_name)
    then (invalid_key_name, d)
    else if_valid (validate_desired_value body.requirement body.desired_value) d
        (declare_at caller body id (find_owned id d.apps) d)

-- POST /desired-state
unfoldable pub declare_desired_state : Caller → Declaration → Desk → Written × Desk
declare_desired_state caller body d = declare_for caller body body.application_id d
