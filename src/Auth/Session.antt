-- ===== src/Auth/Session.antt =====
-- arcanium/api/src/auth/index.js: sessions and service-account tokens. The three tables are lists of
-- rows, times are in seconds, and the cookie is the value that `readCookie` finds. The random session
-- id and the hash of a token come from outside and are arguments.
pub mod Lifetime
pub mod Access
use Prim.Native.Char.{Char, code}
use Prim.Native.String
use text.Mathlib.Text.{starts_with}
use arcanium.Prelude.{
  ℕ, zero, suc, ◌+◌, ◌-◌, ◌*◌, ◌/◌, ◌≤◌, ◌<◌, String, ◌≡◌, refl, sym, ap, ◌∙◌, ◌≢◌, ◌↔◌, ◌⊎◌, inl,
  inr, Bool, true, false, not, ◌&&◌, ◌||◌, Option, none, some, List, [], ◌∷◌, ◌++◌, map, arith,
  ◌==◌, eq_iff, eq_refl, ltb, leb, eqb, if◌then◌else◌, Bool-cases, Option-cases, is_some,
  or_default, truthy, length, select, any, all, first?, last?, length-append, length-select-le,
  includes, AnyOf, AllOf, agree, all-includes, includes-AnyOf, AnyOf-includes, AnyOf-map,
  AnyOf-map_all, AnyOf-elim, ◌<|>◌, first_match, first_match-AnyOf, AnyOf-first_match,
  first_match-result,
}
use arcanium.Auth.Authorize.{Grant, Identity}
use arcanium.Auth.Groups.{GroupIdentity, groups_to_identity}

abbrev pub ttl : ℕ
ttl = 3600

abbrev pub idle_timeout : ℕ
idle_timeout = 1800

pub record Config : Type 0 where
  pub enabled : Bool
  pub demo_switch : Bool

pub record Session : Type 0 where
  pub id : String
  pub username : String
  pub persona : String
  pub namespaces : List String
  pub groups : List String
  pub expires_at : ℕ
  pub last_seen_at : ℕ

pub record Account : Type 0 where
  pub id : String
  pub name : String
  pub roles : List String
  pub tenant_scopes : List String
  pub revoked : Bool
  pub last_used_at : Option ℕ

pub record Token : Type 0 where
  pub id : String
  pub account_id : String
  pub token_hash : String
  pub revoked : Bool
  pub expires_at : ℕ
  pub last_used_at : Option ℕ

pub record Db : Type 0 where
  pub sessions : List Session
  pub tokens : List Token
  pub accounts : List Account

-- `expires_at > now() AND last_seen_at > now() - interval '1800 seconds'`
abbrev pub is_live : ℕ → Session → Bool
is_live now session = ltb now session.expires_at && ltb now (session.last_seen_at + idle_timeout)

-- The `SELECT` of `/auth/me` and of `requireSession`.
unfoldable pub find_session : String → ℕ → List Session → Option Session
find_session id now [] = none
find_session id now (session ∷ sessions) =
    if session.id == id && is_live now session then some session else find_session id now sessions

-- `UPDATE sessions SET … WHERE id = $1` and `DELETE FROM sessions WHERE id = $1`
unfoldable pub update_session : String → (Session → Session) → List Session → List Session
update_session id change [] = []
update_session id change (session ∷ sessions) =
    (if session.id == id then change session else session) ∷ update_session id change sessions

unfoldable pub delete_session : String → List Session → List Session
delete_session id [] = []
delete_session id (session ∷ sessions) =
    let rest = delete_session id sessions in if session.id == id then rest else session ∷ rest

pub data Response : Type 0 where
  -- the request goes on, with the identity if it has one
  proceed : Option Identity → Response
  redirect : Response
  answer : Response
  -- an error with its HTTP status
  refuse : ℕ → Response

-- The primary key of the table.
unfoldable pub has_session : String → List Session → Bool
has_session id sessions = any (λ session. session.id == id) sessions

abbrev pub new_session : ℕ → String → String → List String → GroupIdentity → Session
new_session now id username groups who = record {
  id = id;
  username = username;
  persona = or_default who.primary_role "scoped";
  namespaces = who.tenant_scopes;
  groups = groups;
  expires_at = now + ttl;
  last_seen_at = now;
}

abbrev pub touch : ℕ → Session → Session
touch now session = record session { last_seen_at = now }

-- GET /auth/callback, from the claims of a validated sign-in on.
unfoldable pub callback : Config → ℕ → String → String → List String → Db → Db × Response
callback config now id username groups db =
    let who = groups_to_identity groups in
    if not config.enabled
    then (db, refuse 400)
    else if not (truthy who.primary_role) && eqb (length who.scopes) 0
    then (db, refuse 403)
    else if has_session id db.sessions
    then (db, refuse 401)
    else (record db { sessions = new_session now id username groups who ∷ db.sessions }, redirect)

-- POST /auth/logout
unfoldable pub logout : Option String → Db → Db × Response
logout none db = (db, answer)
logout (some id) db =
    if id == ""
    then (db, answer)
    else (record db { sessions = delete_session id db.sessions }, answer)

abbrev demo_personas : List String
demo_personas = "ciso" ∷ "architect" ∷ "operator" ∷ "auditor" ∷ []

abbrev pub switch : String → Session → Session
switch persona session = record session { persona = persona }

abbrev set_persona : Option String → String → Db → Db × Response
set_persona none persona db = (db, refuse 401)
set_persona (some id) persona db =
    if id == ""
    then (db, refuse 401)
    else (record db { sessions = update_session id (switch persona) db.sessions }, answer)

-- POST /auth/demo-persona
unfoldable pub demo_persona : Config → Option String → String → Db → Db × Response
demo_persona config cookie persona db =
    if not config.enabled || not config.demo_switch
    then (db, refuse 403)
    else if not (includes demo_personas persona)
    then (db, refuse 400)
    else set_persona cookie persona db

-- The identity that a live session stands for.
unfoldable pub session_identity : Session → Identity
session_identity session = record {
  user = session.username;
  persona = some session.persona;
  roles = session.persona ∷ [];
  namespaces = session.namespaces;
  tenant_scopes = session.namespaces;
  scopes = (groups_to_identity session.groups).scopes;
}

-- The join of a token with its account.
unfoldable pub find_account : String → List Account → Option Account
find_account id [] = none
find_account id (account ∷ accounts) =
    if account.id == id then some account else find_account id accounts

abbrev pub joined : Token → Option Account → Option (Token × Account)
joined token none = none
joined token (some account) = some (token, account)

unfoldable pub find_token : String → ℕ → List Token → List Account → Option (Token × Account)
unfolding find_account
find_token hash now [] accounts = none
find_token hash now (token ∷ tokens) accounts =
    (if token.token_hash == hash && not token.revoked && ltb now token.expires_at
      then joined token (find_account token.account_id accounts)
      else none)
    <|> find_token hash now tokens accounts

unfoldable pub account_identity : Account → Identity
account_identity account = record {
  user = String.◌++◌ "service-account:" account.name;
  persona = some (or_default (first? account.roles) "service-account");
  roles = account.roles;
  namespaces = account.tenant_scopes;
  tenant_scopes = account.tenant_scopes;
  scopes = [];
}

abbrev use_token : String → ℕ → List Token → List Token
use_token id now =
    map λ token. if token.id == id then record token { last_used_at = some now } else token

abbrev pub use_account : String → ℕ → List Account → List Account
use_account id now =
    map λ account. if account.id == id then record account { last_used_at = some now } else account

abbrev pub admit_account : ℕ → Db → Option (Token × Account) → Db × Response
admit_account now db none = (db, refuse 401)
admit_account now db (some (token, account)) = if account.revoked then (db, refuse 401) else (
  record db {
    tokens = use_token token.id now db.tokens;
    accounts = use_account account.id now db.accounts;
  },
  proceed (some (account_identity account)),
)

unfoldable pub authenticate_service_account : (String → String) → ℕ → String → Db → Db × Response
unfolding find_token account_identity
authenticate_service_account sha256 now token db =
    admit_account now db (find_token (sha256 token) now db.tokens db.accounts)

-- `/^Bearer\s+(\S+)$/i` on the header
abbrev lower : ℕ → ℕ
lower c = if leb b'A' c && leb c b'Z' then c + 32 else c

abbrev is_space : Char → Bool
is_space c = eqb (code c) 32 || (leb 9 (code c) && leb (code c) 13) || eqb (code c) 160

strip_word : String → String → Option String
strip_word String.[] s = some s
strip_word (String.◌∷◌ p ps) String.[] = none
strip_word (String.◌∷◌ p ps) (String.◌∷◌ c s) =
    let rest = strip_word ps s in if eqb (lower (code p)) (lower (code c)) then rest else none

skip_spaces : String → String
skip_spaces String.[] = ""
skip_spaces (String.◌∷◌ c s) =
    let rest = skip_spaces s in if is_space c then rest else String.◌∷◌ c s

no_space : String → Bool
no_space String.[] = true
no_space (String.◌∷◌ c s) = not (is_space c) && no_space s

abbrev bearer_rest : Option String → Option String
bearer_rest none = none
bearer_rest (some String.[]) = none
bearer_rest (some (String.◌∷◌ c s)) =
    let token = skip_spaces s in
    if is_space c && not (token == "") && no_space token then some token else none

unfoldable pub bearer_token : String → Option String
unfolding strip_word skip_spaces no_space
bearer_token header = bearer_rest (strip_word "bearer" header)

abbrev demo_identity : Identity
demo_identity = record {
  user = "demo";
  persona = some "operator";
  roles = "operator" ∷ [];
  namespaces = [];
  tenant_scopes = [];
  scopes = [];
}

abbrev pub is_open_path : String → Bool
is_open_path path = starts_with path "/health" || starts_with path "/api/v1/auth/"

abbrev admit_session : ℕ → Db → String → Option Session → Db × Response
admit_session now db id none = (db, refuse 401)
admit_session now db id (some session) = (
  record db { sessions = update_session id (touch now) db.sessions },
  proceed (some (session_identity session)),
)

abbrev admit_cookie : ℕ → Option String → Db → Db × Response
admit_cookie now none db = (db, refuse 401)
admit_cookie now (some id) db =
    if id == "" then (db, refuse 401) else admit_session now db id (find_session id now db.sessions)

abbrev pub admit_credentials :
    (String → String) → ℕ → Option String → Option String → Db → Db × Response
admit_credentials sha256 now (some token) cookie db =
    authenticate_service_account sha256 now token db
admit_credentials sha256 now none cookie db = admit_cookie now cookie db

-- A bearer token is tried first and, where there is one, alone.
unfoldable pub require_session :
    Config
    → (String → String)
    → ℕ
    → (path header : String) (cookie : Option String) → Db
    → Db × Response
require_session config sha256 now path header cookie db =
    if not config.enabled
    then (db, proceed (some demo_identity))
    else if is_open_path path
    then (db, proceed none)
    else admit_credentials sha256 now (bearer_token header) cookie db

bearer_example : bearer_token "bearer  abc" ≡ some "abc"
unfolding bearer_token
bearer_example = refl
