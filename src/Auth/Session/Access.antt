-- ===== src/Auth/Session/Access.antt =====
-- arcanium/api/src/auth/index.js: the identity that a request is given.
use mathlib.Core.Path.{subst}
use arcanium.Prelude.{
  ℕ, ◌+◌, ◌<◌, String, ◌≡◌, refl, sym, ap, ◌∙◌, ◌⊎◌, inl, inr, true, false, not, ◌&&◌, Option, none,
  some, List, [], ◌∷◌, arith, ◌==◌, eq_iff, ltb, Bool-cases, Option-cases, AnyOf, AllOf, ◌<|>◌,
  first_match, first_match-result,
}
use arcanium.Auth.Authorize.{
  Grant, Identity, Request, allow_scoped, Decision, effective_roles, authorize, is_allowed, cell,
  property, decide_identity, estate_round, grant_round,
}
use arcanium.Auth.Groups.{role_groups, groups_to_identity}
use arcanium.Auth.Groups.Roles.{no_promotion}
use arcanium.Auth.Session.{
  is_live, find_account, joined, idle_timeout, admit_credentials, Token, Account, Config, Session,
  Db, new_session, session_identity, account_identity, require_session, find_session, find_token,
  authenticate_service_account, proceed, bearer_token, is_open_path,
}

abbrev pub IsScoped : Decision → Type 0
IsScoped d = (role : String) × (env team : Option String) × (d ≡ allow_scoped role env team)

-- No role is called `scoped`.
scoped_never : (action : String) → cell "scoped" action ≡ none
unfolding cell property
scoped_never action = refl

grant_round-IsScoped :
    (identity : Identity) (req : Request) (grant : Grant) (d : Decision)
    → grant_round identity req grant ≡ some d
    → IsScoped d
unfolding grant_round
grant_round-IsScoped identity req grant d h = (grant.role, req.env, req.team, ground arith)

persona-IsScoped :
    (identity : Identity) (req : Request)
    → effective_roles identity ≡ "scoped" ∷ []
    → is_allowed (authorize (some identity) req) ≡ true
    → IsScoped (authorize (some identity) req)
unfolding authorize decide_identity estate_round
persona-IsScoped identity req r h =
    elim (Option-cases (first_match (grant_round identity req) identity.scopes)) [
      | inl e ↦ absurd (ground (arith, scoped_never req.action))
      | inr (d, e) ↦
          let decided : authorize (some identity) req ≡ d =
            ground (arith, scoped_never req.action) in
          rw decided (
            first_match-result (grant_round identity req) IsScoped
              (grant_round-IsScoped identity req) identity.scopes d e)
    ]

-- A sign-in whose groups name no estate-wide role gets a session that is allowed what a scoped grant
-- allows, and nothing by an estate-wide role.
pub session-IsScoped :
    (now : ℕ) (id username : String) (groups : List String) (req : Request)
    → AllOf (λ group. property role_groups group ≡ none) groups
    → let session = new_session now id username groups (groups_to_identity groups) in
      is_allowed (authorize (some (session_identity session)) req) ≡ true
      → IsScoped (authorize (some (session_identity session)) req)
unfolding session_identity effective_roles
session-IsScoped now id username groups req h allowed =
    let session = new_session now id username groups (groups_to_identity groups) in
    persona-IsScoped (session_identity session) req (rw ((no_promotion groups h).1) refl) allowed

some_session_same : (a b : Session) → some a ≡ some b → a ≡ b
some_session_same a b e = cc

-- What the query of a session finds.
find_session-held :
    (id : String) (now : ℕ) (sessions : List Session) (s : Session)
    → find_session id now sessions ≡ some s
    → AnyOf (λ x. x ≡ s) sessions
      × (s.id ≡ id)
      × (now < s.expires_at)
      × (now < s.last_seen_at + idle_timeout)
unfolding find_session
find_session-held id now [] s h = absurd (cc)
find_session-held id now (x ∷ sessions) s h = elim (Bool-cases (x.id == id && is_live now x)) [
  | inl found ↦
      let same = some_session_same x s (rw found at h) in
      let own : x.id ≡ id = (eq_iff x.id id).0 (ground arith) in
      let early : now < x.expires_at = ground arith in
      let active : now < x.last_seen_at + idle_timeout = ground arith in
      (inl same, rw (← same) own, rw (← same) early, rw (← same) active)
  | inr other ↦
      let (held, own, early, active) = find_session-held id now sessions s (rw other at h) in
      (inr held, own, early, active)
]

some_account_same : (a b : Account) → some a ≡ some b → a ≡ b
some_account_same a b e = cc

find_account-held :
    (id : String) (accounts : List Account) (a : Account)
    → find_account id accounts ≡ some a
    → AnyOf (λ x. x ≡ a) accounts × (a.id ≡ id)
unfolding find_account
find_account-held id [] a h = absurd (cc)
find_account-held id (x ∷ accounts) a h = elim (Bool-cases (x.id == id)) [
  | inl found ↦
      let same = some_account_same x a (rw found at h) in
      let own : x.id ≡ id = (eq_iff x.id id).0 found in (inl same, rw (← same) own)
  | inr other ↦ let (held, own) = find_account-held id accounts a (rw other at h) in (inr held, own)
]

-- A token of that hash, not revoked and not expired, with its account.
abbrev pub IsValidToken : String → ℕ → List Account → Token → Account → Type 0
IsValidToken hash now accounts t a =
    (t.token_hash ≡ hash)
    × (t.revoked ≡ false)
    × (now < t.expires_at)
    × AnyOf (λ x. x ≡ a) accounts
    × (a.id ≡ t.account_id)

joined_same :
    (x t : Token) (found : Option Account) (a : Account)
    → joined x found ≡ some (t, a)
    → (x ≡ t) × (found ≡ some a)
joined_same x t none a h = absurd (cc)
joined_same x t (some b) a h = (cc, cc)

joined_first :
    (hash : String) (now : ℕ) (accounts : List Account) (x t : Token) (a : Account)
    (found : Option Account) (rest : Option (Token × Account))
    → find_account x.account_id accounts ≡ found
    → (x.token_hash ≡ hash) × (x.revoked ≡ false) × (now < x.expires_at)
    → joined x found <|> rest ≡ some (t, a)
    → ((x ≡ t) × IsValidToken hash now accounts t a) ⊎ (rest ≡ some (t, a))
joined_first hash now accounts x t a none rest e ok h = inr h
joined_first hash now accounts x t a (some b) rest e (own, kept, early) h =
    let (same, account) = joined_same x t (some b) a h in
    let (held, id) = find_account-held x.account_id accounts a (e ∙ account) in
    inl (same, subst (λ y. IsValidToken hash now accounts y a) same (own, kept, early, held, id))

-- What the query of a token finds.
find_token-held :
    (hash : String) (now : ℕ) (tokens : List Token) (accounts : List Account) (t : Token)
    (a : Account)
    → find_token hash now tokens accounts ≡ some (t, a)
    → AnyOf (λ x. x ≡ t) tokens × IsValidToken hash now accounts t a
unfolding find_token
find_token-held hash now [] accounts t a h = absurd (cc)
find_token-held hash now (x ∷ tokens) accounts t a h =
    elim (Bool-cases (x.token_hash == hash && not x.revoked && ltb now x.expires_at)) [
      | inl found ↦
          let own : x.token_hash ≡ hash = (eq_iff x.token_hash hash).0 (ground arith) in
          elim (joined_first hash now accounts x t a (find_account x.account_id accounts)
            (find_token hash now tokens accounts) refl (own, ground arith, ground arith)
            (rw found at h)) [
              | inl (same, valid) ↦ (inl same, valid)
              | inr later ↦
                  let (held, valid) = find_token-held hash now tokens accounts t a later in
                  (inr held, valid)
            ]
      | inr other ↦
          let (held, valid) = find_token-held hash now tokens accounts t a (rw other at h) in
          (inr held, valid)
    ]

-- What the identity of a request that needs one rests on.
abbrev pub FromSession : ℕ → Option String → Db → Identity → Type 0
FromSession now cookie db identity =
    (session : Session) × AnyOf (λ s. s ≡ session) db.sessions
    × (cookie ≡ some session.id)
    × (now < session.expires_at)
    × (now < session.last_seen_at + idle_timeout)
    × (identity ≡ session_identity session)

abbrev pub FromToken : (String → String) → ℕ → String → Db → Identity → Type 0
FromToken sha256 now header db identity =
    (secret : String) × (token : Token) × (account : Account) × (bearer_token header ≡ some secret)
    × AnyOf (λ t. t ≡ token) db.tokens
    × (token.token_hash ≡ sha256 secret)
    × (token.revoked ≡ false)
    × (now < token.expires_at)
    × AnyOf (λ a. a ≡ account) db.accounts
    × (account.id ≡ token.account_id)
    × (account.revoked ≡ false)
    × (identity ≡ account_identity account)

from_cookie :
    (sha256 : String → String) (now : ℕ) (header : String) (cookie : Option String) (db : Db)
    (identity : Identity)
    → (admit_credentials sha256 now none cookie db).1 ≡ proceed (some identity)
    → FromSession now cookie db identity
from_cookie sha256 now header none db identity h = absurd (ground arith)
from_cookie sha256 now header (some id) db identity h =
    elim (Option-cases (find_session id now db.sessions)) [
      | inl e ↦ absurd (ground arith)
      | inr (session, e) ↦
          let (held, own, early, active) = find_session-held id now db.sessions session e in
          (session, held, ap some (sym own), early, active, ground arith)
    ]

from_token :
    (sha256 : String → String) (now : ℕ) (header secret : String) (cookie : Option String) (db : Db)
    (identity : Identity)
    → bearer_token header ≡ some secret
    → (admit_credentials sha256 now (some secret) cookie db).1 ≡ proceed (some identity)
    → FromToken sha256 now header db identity
unfolding authenticate_service_account
from_token sha256 now header secret cookie db identity b h =
    elim (Option-cases (find_token (sha256 secret) now db.tokens db.accounts)) [
      | inl e ↦ absurd (ground arith)
      | inr ((token, account), e) ↦
          let (held, (own, kept, early, found, id)) =
            find_token-held (sha256 secret) now db.tokens db.accounts token account e in
          (secret, token, account, b, held, own, kept, early, found, id, ground arith, ground arith)
    ]

-- With authentication on, a request outside the open paths is given an identity only from a session in
-- the table that its cookie names, before its expiry and not idle for half an hour, where there is no
-- bearer token; or from a token in the table with the hash of the bearer token, not revoked and before
-- its expiry, of an account in the table that is not revoked. The identity is that session's or that
-- account's.
pub identity_is_backed :
    (config : Config) (sha256 : String → String) (now : ℕ) (path header : String)
    (cookie : Option String) (db : Db) (identity : Identity)
    → config.enabled ≡ true
    → is_open_path path ≡ false
    → (require_session config sha256 now path header cookie db).1 ≡ proceed (some identity)
    → ((bearer_token header ≡ none) × FromSession now cookie db identity)
      ⊎ FromToken sha256 now header db identity
unfolding require_session
identity_is_backed config sha256 now path header cookie db identity on closed h =
    elim (Option-cases (bearer_token header)) [
      | inl e ↦ inl (e, from_cookie sha256 now header cookie db identity (ground arith))
      | inr (secret, e) ↦
          inr (from_token sha256 now header secret cookie db identity e (ground arith))
    ]
