-- ===== src/Auth/Accounts/Tokens.antt =====
-- arcanium/api/src/routes/service-accounts.js with authenticateServiceAccount of auth/index.js: what an
-- issued token opens, and what a revocation closes.
use arcanium.Prelude.{
  ℕ, ◌+◌, ◌*◌, ◌≤◌, ◌<◌, String, ◌≡◌, refl, ◌∙◌, inl, inr, true, false, Option, none, some, List,
  ◌∷◌, arith, eq_refl, Bool-cases,
}
use arcanium.Auth.Authorize.{Identity, Decision, allow, allow_tenant, allow_scoped, deny}
use arcanium.Auth.Session.{
  Config, Account, Token, Db, proceed, find_account, find_token, account_identity,
  authenticate_service_account, is_open_path, bearer_token, require_session,
}
use arcanium.Auth.Accounts.{
  Reply, issued, asks, if_allowed, ttl_days, new_token, issue_for, issue_token,
}

-- A reply that is no refusal comes from the part behind the check.
allowed_issue :
    (d : Decision) (db : Db) (next : Db × Reply) (token_id token : String) (expires : ℕ)
    → (if_allowed d db next).1 ≡ issued token_id token expires
    → if_allowed d db next ≡ next
allowed_issue (allow role) db next token_id token expires h = refl
allowed_issue (allow_tenant role tenant) db next token_id token expires h = refl
allowed_issue (allow_scoped role env team) db next token_id token expires h = refl
allowed_issue (deny why) db next token_id token expires h = absurd (cc)

-- The token in the table, of an account that is not revoked.
abbrev IsIssued : (String → String) → String → String → String → Option ℕ → ℕ → Db → ℕ → Db → Type 0
IsIssued sha256 token_id token id days now db expires db' =
    (a : Account) × (find_account id db.accounts ≡ some a)
    × (a.revoked ≡ false)
    × (now + ttl_days days * 86400 ≡ expires)
    × (db' ≡ record db {
      tokens = new_token token_id id (sha256 token) (ttl_days days) now ∷ db.tokens;
    })

issue_for-IsIssued :
    (sha256 : String → String) (token_id token id : String) (days : Option ℕ) (now : ℕ)
    (found : Option Account) (db : Db) (expires : ℕ)
    → find_account id db.accounts ≡ found
    → (issue_for sha256 token_id token id days now found db).1 ≡ issued token_id token expires
    → IsIssued sha256 token_id token id days now db expires
        (issue_for sha256 token_id token id days now found db).0
issue_for-IsIssued sha256 token_id token id days now none db expires e = λ h. absurd (cc)
issue_for-IsIssued sha256 token_id token id days now (some a) db expires e =
    elim (Bool-cases a.revoked) [
      | inl gone ↦ rw gone (λ h. absurd (cc))
      | inr here ↦ rw here (λ h. (a, e, here, cc, refl))
    ]

issue_token-IsIssued :
    (sha256 : String → String) (token_id token : String) (identity : Option Identity) (id : String)
    (days : Option ℕ) (now : ℕ) (db : Db) (expires : ℕ)
    → (issue_token sha256 token_id token identity (some id) days now db).1
      ≡ issued token_id token expires
    → IsIssued sha256 token_id token id days now db expires
        (issue_token sha256 token_id token identity (some id) days now db).0
unfolding issue_token
issue_token-IsIssued sha256 token_id token identity id days now db expires h =
    let next = issue_for sha256 token_id token id days now (find_account id db.accounts) db in
    let same = allowed_issue (asks identity "provision") db next token_id token expires h in
    rw same (
      issue_for-IsIssued sha256 token_id token id days now (find_account id db.accounts) db expires
        refl (rw (← same) h))

ttl_days-bounds : (days : Option ℕ) → (1 ≤ ttl_days days) × (ttl_days days ≤ 365)
unfolding ttl_days
ttl_days-bounds none = (omega arith, omega arith)
ttl_days-bounds (some n) = (ground arith, ground arith)

-- A token at the head of the table is found until it expires.
found_at_head :
    (t : Token) (hash : String) (now : ℕ) (tokens : List Token) (accounts : List Account)
    (a : Account)
    → t.token_hash ≡ hash
    → t.revoked ≡ false
    → now < t.expires_at
    → find_account t.account_id accounts ≡ some a
    → find_token hash now (t ∷ tokens) accounts ≡ some (t, a)
unfolding find_token
found_at_head t hash now tokens accounts a e live early here =
    let same = eq_refl hash in rw (e, live, here) (ground arith)

authenticates :
    (sha256 : String → String) (now : ℕ) (token : String) (db : Db) (t : Token) (a : Account)
    → find_token (sha256 token) now db.tokens db.accounts ≡ some (t, a)
    → a.revoked ≡ false
    → (authenticate_service_account sha256 now token db).1 ≡ proceed (some (account_identity a))
unfolding authenticate_service_account
authenticates sha256 now token db t a found live = rw found (rw live refl)

requires :
    (config : Config) (sha256 : String → String) (now : ℕ) (path header token : String)
    (cookie : Option String) (db : Db)
    → config.enabled ≡ true
    → is_open_path path ≡ false
    → bearer_token header ≡ some token
    → (require_session config sha256 now path header cookie db).1
      ≡ (authenticate_service_account sha256 now token db).1
unfolding require_session
requires config sha256 now path header token cookie db on closed bears = rw (on, closed, bears) refl

-- A token that the handler issues is good for its account: until the expiry in the response, which is 1
-- to 365 days away, a request with it as the bearer token is let in with the identity of the account,
-- whatever its cookie, while the account and the token are as they were when it was issued.
pub issued_token_authenticates :
    (config : Config) (sha256 : String → String) (token_id token : String)
    (identity : Option Identity) (id : String) (days : Option ℕ) (now : ℕ) (db : Db)
    (expires later : ℕ) (path header : String) (cookie : Option String)
    → (issue_token sha256 token_id token identity (some id) days now db).1
      ≡ issued token_id token expires
    → later < expires
    → config.enabled ≡ true
    → is_open_path path ≡ false
    → bearer_token header ≡ some token
    → (a : Account) × (find_account id db.accounts ≡ some a)
      × (now + 86400 ≤ expires)
      × (expires ≤ now + 365 * 86400)
      × ((require_session config sha256 later path header cookie
            (issue_token sha256 token_id token identity (some id) days now db).0).1
          ≡ proceed (some (account_identity a)))
issued_token_authenticates config sha256 token_id token identity id days now db expires later path
      header cookie reply early on closed bears =
    let (a, here, live, sum, table) =
      issue_token-IsIssued sha256 token_id token identity id days now db expires reply in
    let (low, high) = ttl_days-bounds days in
    let t = new_token token_id id (sha256 token) (ttl_days days) now in
    (
      a,
      here,
      omega (arith, sum, low),
      omega (arith, sum, high),
      requires config sha256 later path header token cookie
            (issue_token sha256 token_id token identity (some id) days now db).0 on closed bears
          ∙ rw table (
              authenticates sha256 later token (record db { tokens = t ∷ db.tokens }) t a
                (found_at_head t (sha256 token) later db.tokens db.accounts a refl refl
                  (omega (arith, sum)) here)
                live),
    )
