-- ===== src/Auth/Accounts.antt =====
-- arcanium/api/src/routes/service-accounts.js: the handlers that issue and revoke service accounts and
-- their tokens, over the tables of Auth/Session. Times are seconds; new rows come first. The
-- tests of names and ids by regular expressions, and sha256, are arguments.
pub mod Tokens
pub mod Revoked
use Prim.Native.String
use Prim.Native.Char.{Char}
use arcanium.Prelude.{
  ℕ, zero, suc, ◌+◌, ◌-◌, ◌*◌, ◌/◌, ◌≤◌, ◌<◌, String, ◌≡◌, refl, sym, ap, ◌∙◌, ◌≢◌, ◌↔◌, ◌⊎◌, inl,
  inr, Bool, true, false, not, ◌&&◌, ◌||◌, Option, none, some, List, [], ◌∷◌, ◌++◌, map, arith,
  ◌==◌, eq_iff, eq_refl, ltb, leb, eqb, if◌then◌else◌, Bool-cases, Option-cases, is_some,
  or_default, truthy, length, select, any, all, first?, last?, length-append, length-select-le,
  includes, AnyOf, AllOf, agree, all-includes, includes-AnyOf, AnyOf-includes, AnyOf-map,
  AnyOf-map_all, AnyOf-elim, AllOf-select, AnyOf-select, AnyOf-selected, all-AllOf, AllOf-map,
  any-AnyOf, AllOf-iff, ◌<|>◌, first_match, first_match-AnyOf, AnyOf-first_match,
  first_match-result,
}
use arcanium.Auth.Authorize.{Identity, Request, Decision, deny, authorize}
use arcanium.Auth.Session.{Account, Token, Db, find_account}

abbrev pub valid_roles : List String
valid_roles = "ciso" ∷ "architect" ∷ "operator" ∷ "auditor" ∷ "supplier-admin" ∷ []

abbrev pub default_token_ttl_days : ℕ
default_token_ttl_days = 90

abbrev pub max_token_ttl_days : ℕ
max_token_ttl_days = 365

-- The response of a handler.
pub data Reply : Type 0 where
  -- an error with its HTTP status
  refused : ℕ → Reply
  account_is : Account → Reply
  -- the token's id, the token in plaintext and its expiry
  issued : String → String → ℕ → Reply
  no_content : Reply

-- `tenant_scopes` of the body
pub data Scopes : Type 0 where
  no_scopes : Scopes
  listed : List String → Scopes
  malformed : Scopes

-- The body of POST /; `roles` is missing where it is no array.
pub record Body : Type 0 where
  pub name : Option String
  pub roles : Option (List String)
  pub tenant_scopes : Scopes

abbrev pub asks : Option Identity → String → Decision
asks identity action =
    authorize identity (record { action = action; tenant = none; env = none; team = none })

abbrev pub if_allowed : Decision → Db → Db × Reply → Db × Reply
if_allowed (deny why) db next = (db, refused 403)
if_allowed _ db next = next

abbrev pub is_malformed : Scopes → Bool
is_malformed malformed = true
is_malformed _ = false

abbrev pub has_valid_roles : Option (List String) → Bool
has_valid_roles none = false
has_valid_roles (some []) = false
has_valid_roles (some (r ∷ roles)) = all (includes valid_roles) (r ∷ roles)

-- `tenant_scopes ?? null`, read as `?? []` later
abbrev scopes_of : Scopes → List String
scopes_of (listed scopes) = scopes
scopes_of _ = []

abbrev pub new_account : String → Body → Account
new_account id body = record {
  id = id;
  name = or_default body.name "";
  roles = or_default body.roles [];
  tenant_scopes = scopes_of body.tenant_scopes;
  revoked = false;
  last_used_at = none;
}

abbrev pub has_name : String → Account → Bool
has_name name a = a.name == name

abbrev pub insert_account : (String → Bool) → String → Body → Db → Db × Reply
insert_account is_name id body db =
    let account = new_account id body in
    if not (truthy body.name && is_name (or_default body.name ""))
    then (db, refused 400)
    else if not (has_valid_roles body.roles)
    then (db, refused 400)
    else if is_malformed body.tenant_scopes
    then (db, refused 400)
    else if any (has_name account.name) db.accounts
    then (db, refused 409)
    else (record db { accounts = account ∷ db.accounts }, account_is account)

-- POST /, with the id that the database gives the row
unfoldable pub create_account : (String → Bool) → String → Option Identity → Body → Db → Db × Reply
create_account is_name id identity body db =
    if_allowed (asks identity "provision") db (insert_account is_name id body db)

abbrev pub revoke : Account → Account
revoke a = record a { revoked = true }

-- `UPDATE service_accounts SET revoked_at = now() WHERE id = $1`
unfoldable pub revoke_in : String → List Account → List Account
revoke_in id [] = []
revoke_in id (a ∷ accounts) =
    let rest = revoke_in id accounts in if a.id == id then revoke a ∷ rest else a ∷ rest

abbrev settle_revocation : String → Option Account → Db → Db × Reply
settle_revocation id none db = (db, refused 404)
settle_revocation id (some a) db =
    if a.revoked
    then (db, refused 409)
    else (record db { accounts = revoke_in id db.accounts }, account_is (revoke a))

-- DELETE /:id; an id that is not a UUID is none.
unfoldable pub revoke_account : Option Identity → Option String → Db → Db × Reply
revoke_account identity none db = (db, refused 400)
revoke_account identity (some id) db =
    if_allowed (asks identity "provision") db
      (settle_revocation id (find_account id db.accounts) db)

-- `Math.min(Math.max(1, n), 365)`, or 90 where the body has no finite number. A negative number is
-- clamped like 0.
unfoldable pub ttl_days : Option ℕ → ℕ
ttl_days none = default_token_ttl_days
ttl_days (some n) =
    let low = if ltb n 1 then 1 else n in
    if ltb max_token_ttl_days low then max_token_ttl_days else low

abbrev pub new_token : String → String → String → ℕ → ℕ → Token
new_token id account hash days now = record {
  id = id;
  account_id = account;
  token_hash = hash;
  revoked = false;
  expires_at = now + days * 86400;
  last_used_at = none;
}

module _ (sha256 : String → String) where
  -- `token_id` is what the database gives the row, and `token` the random one.
  abbrev pub issue_for : String → String → String → Option ℕ → ℕ → Option Account → Db → Db × Reply
  issue_for token_id token id days now none db = (db, refused 404)
  issue_for token_id token id days now (some a) db =
      let row = new_token token_id id (sha256 token) (ttl_days days) now in
      if a.revoked
      then (db, refused 409)
      else (record db { tokens = row ∷ db.tokens }, issued token_id token row.expires_at)

  -- POST /:id/tokens
  unfoldable pub issue_token :
      String → String → Option Identity → Option String → Option ℕ → ℕ → Db → Db × Reply
  issue_token token_id token identity none days now db = (db, refused 400)
  issue_token token_id token identity (some id) days now db =
      if_allowed (asks identity "provision") db
        (issue_for token_id token id days now (find_account id db.accounts) db)

abbrev pub is_live_token_of : String → String → Token → Bool
is_live_token_of token_id id t = t.id == token_id && (t.account_id == id && not t.revoked)

unfoldable pub revoke_token_in : String → String → List Token → List Token
revoke_token_in token_id id [] = []
revoke_token_in token_id id (t ∷ tokens) =
    let rest = revoke_token_in token_id id tokens in
    if is_live_token_of token_id id t then record t { revoked = true } ∷ rest else t ∷ rest

abbrev pub revoke_token_for : String → String → Db → Db × Reply
revoke_token_for id token_id db =
    if any (is_live_token_of token_id id) db.tokens
    then (record db { tokens = revoke_token_in token_id id db.tokens }, no_content)
    else (db, refused 404)

-- DELETE /:id/tokens/:token_id
unfoldable pub revoke_token : Option Identity → Option (String × String) → Db → Db × Reply
revoke_token identity none db = (db, refused 400)
revoke_token identity (some (id, token_id)) db =
    if_allowed (asks identity "provision") db (revoke_token_for id token_id db)
