-- ===== src/Tests/Accounts.antt =====
-- A service account whose token is issued and used, and that is revoked.
use arcanium.Prelude.{
  ◌+◌, ◌*◌, ◌≤◌, String, ◌≡◌, refl, ◌≢◌, true, false, none, some, List, [], ◌∷◌, arith,
}
use arcanium.Auth.Authorize.{authorize, effective_roles, estate_round, cell, Identity}
use arcanium.Auth.Session.{
  Config, Account, Token, Db, proceed, find_account, find_token, account_identity,
  authenticate_service_account, bearer_token, require_session,
}
use arcanium.Auth.Accounts.{
  ttl_days, revoke_in, account_is, issued, issue_token, revoke, revoke_account,
}
use arcanium.Auth.Accounts.Tokens.{issued_token_authenticates}
use arcanium.Auth.Accounts.Revoked.{Act, issues, requests, perform_all, revoked_account_locked_out}

abbrev config : Config
config = record { enabled = true; demo_switch = false }

abbrev architect : Identity
architect = record {
  user = "ann";
  persona = some "architect";
  roles = "architect" ∷ [];
  namespaces = [];
  tenant_scopes = [];
  scopes = [];
}

abbrev pipeline : Account
pipeline = record {
  id = "a1";
  name = "pipeline";
  roles = "operator" ∷ [];
  tenant_scopes = [];
  revoked = false;
  last_used_at = none;
}

abbrev other_account : Account
other_account = record pipeline { id = "a2"; name = "other" }

abbrev db : Db
db = record { sessions = []; tokens = []; accounts = pipeline ∷ other_account ∷ [] }

abbrev same : String → String
same s = s

issue_replies :
    (issue_token same "t1" "abc" (some architect) (some "a1") (some 30) 1000 db).1
    ≡ issued "t1" "abc" 2593000
unfolding issue_token ttl_days authorize effective_roles estate_round cell find_account
issue_replies = refl

issued_token_authenticates_example :
    (a : Account) × (find_account "a1" db.accounts ≡ some a)
    × (1000 + 86400 ≤ 2593000)
    × (2593000 ≤ 1000 + 365 * 86400)
    × ((require_session config same 2000 "/api/v1/keys" "Bearer abc" none
          (issue_token same "t1" "abc" (some architect) (some "a1") (some 30) 1000 db).0).1
        ≡ proceed (some (account_identity a)))
unfolding bearer_token
issued_token_authenticates_example =
    issued_token_authenticates config same "t1" "abc" (some architect) "a1" (some 30) 1000 db
      2593000 2000 "/api/v1/keys" "Bearer abc" none issue_replies (omega arith) refl refl refl

abbrev other_token : Token
other_token = record {
  id = "t2";
  account_id = "a2";
  token_hash = "xyz";
  revoked = false;
  expires_at = 9000;
  last_used_at = none;
}

abbrev db₂ : Db
db₂ = record db { tokens = other_token ∷ [] }

revocation_replies :
    (revoke_account (some architect) (some "a1") db₂).1 ≡ account_is (revoke pipeline)
unfolding revoke_account authorize effective_roles estate_round cell find_account
revocation_replies = refl

-- Another token is issued, which is refused, and the token of the other account is used.
abbrev later_acts : List Act
later_acts = issues "t9" "new" (some architect) (some "a1") none 1500 ∷ requests 1600 "xyz" ∷ []

abbrev later_db : Db
later_db = perform_all same later_acts (revoke_account (some architect) (some "a1") db₂).0

other_let_in :
    (authenticate_service_account same 2000 "xyz" later_db).1
    ≡ proceed (some (account_identity other_account))
unfolding revoke_account authenticate_service_account account_identity find_token revoke_in
    authorize effective_roles estate_round cell find_account issue_token ttl_days
other_let_in = refl

revoked_account_locked_out_example :
    (t : Token) × (b : Account) × (find_token "xyz" 2000 later_db.tokens later_db.accounts
      ≡ some (t, b))
    × (b.id ≢ "a1")
    × (b.revoked ≡ false)
    × (account_identity other_account ≡ account_identity b)
revoked_account_locked_out_example =
    revoked_account_locked_out (some architect) "a1" db₂ (revoke pipeline) same later_acts 2000
      "xyz" (account_identity other_account) revocation_replies (tt, (tt, tt)) other_let_in
