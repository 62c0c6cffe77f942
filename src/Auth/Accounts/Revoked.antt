-- ===== src/Auth/Accounts/Revoked.antt =====
-- arcanium/api/src/routes/service-accounts.js with authenticateServiceAccount of auth/index.js: no token
-- of a revoked account lets anyone in.
use mathlib.Core.Path.{subst}
use arcanium.Prelude.{
  ℕ, String, ◌≡◌, refl, ◌≢◌, inl, inr, Bool, true, false, not, ◌&&◌, Option, none, some, List, [],
  ◌∷◌, arith, ◌==◌, eq_iff, ltb, Bool-cases, Option-cases, or_default, truthy, any, AllOf, ◌<|>◌,
}
use arcanium.Auth.Authorize.{Identity, Decision, allow, allow_tenant, allow_scoped, deny}
use arcanium.Auth.Session.{
  use_account, admit_account, Account, Token, Db, proceed, find_account, find_token, joined,
  account_identity, authenticate_service_account,
}
use arcanium.Auth.Accounts.{
  Body, new_account, has_valid_roles, is_malformed, has_name, insert_account, create_account,
  issue_for, issue_token, is_live_token_of, revoke_token_for, revoke_token, Reply, account_is, asks,
  if_allowed, revoke_in, settle_revocation, revoke_account,
}

contradicts : {b : Bool} → b ≡ false → b ≡ true → ⊥
contradicts e f = absurd (cc)

abbrev IsShut : String → Account → Type 0
IsShut id a = a.id == id ≡ true → a.revoked ≡ true

revoke_in-IsShut :
    (id : String) (accounts : List Account) → AllOf (IsShut id) (revoke_in id accounts)
unfolding revoke_in
revoke_in-IsShut id [] = tt
revoke_in-IsShut id (a ∷ accounts) =
    let rest = revoke_in-IsShut id accounts in
    elim (Bool-cases (a.id == id)) [
      | inl same ↦ rw same ((λ _. refl), rest)
      | inr other ↦ rw other ((λ e. absurd (contradicts other e)), rest)
    ]

find_account-AllOf :
    (P : Account → Type 0) (x : String) (accounts : List Account) (b : Account)
    → AllOf P accounts
    → find_account x accounts ≡ some b
    → P b
unfolding find_account
find_account-AllOf P x [] b each = λ h. absurd (cc)
find_account-AllOf P x (a ∷ accounts) b (p, each) = elim (Bool-cases (a.id == x)) [
  | inl same ↦ rw same (λ h. subst P (cc (h)) p)
  | inr other ↦ rw other (find_account-AllOf P x accounts b each)
]

-- The account of a found token is one of the table.
joined-AllOf :
    (P : Account → Type 0) (t s : Token) (o : Option Account) (b : Account)
    → ((c : Account) → o ≡ some c → P c)
    → joined t o ≡ some (s, b)
    → P b
joined-AllOf P t s none b each h = absurd (cc)
joined-AllOf P t s (some c) b each h = subst P (cc (h)) (each c refl)

-- The first alternative of a round, or the rest of the loop.
or_else :
    (P : Account → Type 0) (s t : Token) (o : Option Account) (rest : Option (Token × Account))
    (b : Account)
    → ((c : Account) → o ≡ some c → P c)
    → (rest ≡ some (t, b) → P b)
    → joined s o <|> rest ≡ some (t, b)
    → P b
or_else P s t none rest b each later = later
or_else P s t (some c) rest b each later = λ h. joined-AllOf P s t (some c) b each h

find_token-AllOf :
    (P : Account → Type 0) (hash : String) (now : ℕ) (tokens : List Token) (accounts : List Account)
    (t : Token) (b : Account)
    → AllOf P accounts
    → find_token hash now tokens accounts ≡ some (t, b)
    → P b
unfolding find_token
find_token-AllOf P hash now [] accounts t b each = λ h. absurd (cc)
find_token-AllOf P hash now (s ∷ tokens) accounts t b each =
    let rest = find_token-AllOf P hash now tokens accounts t b each in
    elim (Bool-cases (s.token_hash == hash && not s.revoked && ltb now s.expires_at)) [
      | inl valid ↦ rw valid (
          or_else P s t (find_account s.account_id accounts) (find_token hash now tokens accounts) b
            (λ c. find_account-AllOf P s.account_id accounts c each) rest)
      | inr invalid ↦ rw invalid rest
    ]

settled-IsShut :
    (id : String) (found : Option Account) (db : Db) (a : Account)
    → (settle_revocation id found db).1 ≡ account_is a
    → AllOf (IsShut id) (settle_revocation id found db).0.accounts
settled-IsShut id none db a = λ h. absurd (cc)
settled-IsShut id (some c) db a = elim (Bool-cases c.revoked) [
  | inl gone ↦ rw gone (λ h. absurd (cc))
  | inr here ↦ rw here (λ _. revoke_in-IsShut id db.accounts)
]

allowed-IsShut :
    (d : Decision) (id : String) (db : Db) (next : Db × Reply) (a : Account)
    → (next.1 ≡ account_is a → AllOf (IsShut id) next.0.accounts)
    → (if_allowed d db next).1 ≡ account_is a
    → AllOf (IsShut id) (if_allowed d db next).0.accounts
allowed-IsShut (allow role) id db next a behind = behind
allowed-IsShut (allow_tenant role tenant) id db next a behind = behind
allowed-IsShut (allow_scoped role env team) id db next a behind = behind
allowed-IsShut (deny why) id db next a behind = λ h. absurd (cc)

-- Whoever is let in is of another account that is not revoked, where that one is shut.
others_only :
    (sha256 : String → String) (later : ℕ) (secret id : String) (db : Db) (who : Identity)
    → AllOf (IsShut id) db.accounts
    → (authenticate_service_account sha256 later secret db).1 ≡ proceed (some who)
    → (t : Token) × (b : Account) × (find_token (sha256 secret) later db.tokens db.accounts
        ≡ some (t, b))
      × (b.id ≢ id)
      × (b.revoked ≡ false)
      × (who ≡ account_identity b)
unfolding authenticate_service_account
others_only sha256 later secret id db who shut h =
    elim (Option-cases (find_token (sha256 secret) later db.tokens db.accounts)) [
      | inl nobody ↦ absurd (ground arith)
      | inr ((t, b), found) ↦
          let closed =
            find_token-AllOf (IsShut id) (sha256 secret) later db.tokens db.accounts t b shut
              found in
          let kept : b.revoked ≡ false = ground arith in
          let other : b.id ≢ id = λ e. contradicts kept (closed ((eq_iff b.id id).1 e)) in
          (t, b, found, other, kept, ground arith)
    ]

-- What may happen to the accounts and the tokens behind a revocation: a new account under another id, a
-- revocation, a new token, the revocation of a token, and a request with a token, which notes its use.
pub data Act : Type 0 where
  creates : (String → Bool) → String → Option Identity → Body → Act
  revokes : Option Identity → Option String → Act
  issues : String → String → Option Identity → Option String → Option ℕ → ℕ → Act
  revokes_token : Option Identity → Option (String × String) → Act
  requests : ℕ → String → Act

module _ (sha256 : String → String) where
  abbrev pub perform : Act → Db → Db
  perform (creates is_name id who body) db = (create_account is_name id who body db).0
  perform (revokes who id) db = (revoke_account who id db).0
  perform (issues token_id token who id days now) db =
      (issue_token sha256 token_id token who id days now db).0
  perform (revokes_token who ids) db = (revoke_token who ids db).0
  perform (requests now secret) db = (authenticate_service_account sha256 now secret db).0

  abbrev pub perform_all : List Act → Db → Db
  perform_all [] db = db
  perform_all (act ∷ acts) db = perform_all acts (perform act db)

-- The id of a new account is another one.
abbrev pub HasOtherId : String → Act → Type 0
HasOtherId id (creates is_name new who body) = new ≢ id
HasOtherId id _ = Unit

if_allowed-keeps :
    (P : Db → Type 0) (d : Decision) (db : Db) (next : Db × Reply)
    → P db
    → P next.0
    → P (if_allowed d db next).0
if_allowed-keeps P (allow role) db next here behind = behind
if_allowed-keeps P (allow_tenant role tenant) db next here behind = behind
if_allowed-keeps P (allow_scoped role env team) db next here behind = behind
if_allowed-keeps P (deny why) db next here behind = here

-- The account stays shut.
module _ (id : String) where
  abbrev StaysShut : Db → Type 0
  StaysShut db = AllOf (IsShut id) db.accounts

  revoke_in-keeps :
      (other : String) (accounts : List Account)
      → AllOf (IsShut id) accounts
      → AllOf (IsShut id) (revoke_in other accounts)
  unfolding revoke_in
  revoke_in-keeps other [] h = tt
  revoke_in-keeps other (a ∷ accounts) (h, hs) =
      let rest = revoke_in-keeps other accounts hs in
      elim (Bool-cases (a.id == other)) [
        | inl same ↦ rw same ((λ _. refl), rest)
        | inr differs ↦ rw differs (h, rest)
      ]

  settle_revocation-keeps :
      (other : String) (found : Option Account) (db : Db)
      → StaysShut db
      → StaysShut (settle_revocation other found db).0
  settle_revocation-keeps other none db h = h
  settle_revocation-keeps other (some c) db h = elim (Bool-cases c.revoked) [
    | inl gone ↦ rw gone h
    | inr here ↦ rw here (revoke_in-keeps other db.accounts h)
  ]

  noted-IsShut :
      (account : String) (later : ℕ) (accounts : List Account)
      → AllOf (IsShut id) accounts
      → AllOf (IsShut id) (use_account account later accounts)
  noted-IsShut account later [] h = tt
  noted-IsShut account later (a ∷ accounts) (h, hs) =
      let rest = noted-IsShut account later accounts hs in
      elim (Bool-cases (a.id == account)) [ inl e ↦ rw e (h, rest) | inr e ↦ rw e (h, rest) ]

  admit_account-keeps :
      (later : ℕ) (db : Db) (found : Option (Token × Account))
      → StaysShut db
      → StaysShut (admit_account later db found).0
  admit_account-keeps later db none h = h
  admit_account-keeps later db (some (t, b)) h = elim (Bool-cases b.revoked) [
    | inl gone ↦ rw gone h
    | inr kept ↦ rw kept (noted-IsShut b.id later db.accounts h)
  ]

  created-keeps :
      (is_name : String → Bool) (new : String) (body : Body) (db : Db)
      → new ≢ id
      → StaysShut db
      → StaysShut (insert_account is_name new body db).0
  created-keeps is_name new body db other h =
      let fresh : IsShut id (new_account new body) = λ e. absurd (other ((eq_iff new id).0 e)) in
      let account = new_account new body in
      elim (Bool-cases (not (truthy body.name && is_name (or_default body.name "")))) [
        | inl e ↦ rw e h
        | inr e ↦ elim (Bool-cases (not (has_valid_roles body.roles))) [
          | inl f ↦ rw (e, f) h
          | inr f ↦ elim (Bool-cases (is_malformed body.tenant_scopes)) [
            | inl g ↦ rw (e, f, g) h
            | inr g ↦ elim (Bool-cases (any (has_name account.name) db.accounts)) [
              | inl k ↦ rw (e, f, g, k) h
              | inr k ↦ rw (e, f, g, k) (fresh, h)
            ]
          ]
        ]
      ]

  issue_for-keeps :
      (sha256 : String → String) (token_id token account : String) (days : Option ℕ) (now : ℕ)
      (found : Option Account) (db : Db)
      → StaysShut db
      → StaysShut (issue_for sha256 token_id token account days now found db).0
  issue_for-keeps sha256 token_id token account days now none db h = h
  issue_for-keeps sha256 token_id token account days now (some a) db h =
      elim (Bool-cases a.revoked) [ inl e ↦ rw e h | inr e ↦ rw e h ]

  revoke_token_for-keeps :
      (token_id account : String) (db : Db)
      → StaysShut db
      → StaysShut (revoke_token_for account token_id db).0
  revoke_token_for-keeps token_id account db h =
      elim (Bool-cases (any (is_live_token_of token_id account) db.tokens)) [
        | inl e ↦ rw e h
        | inr e ↦ rw e h
      ]

  perform-keeps :
      (sha256 : String → String) (act : Act) (db : Db)
      → HasOtherId id act
      → StaysShut db
      → StaysShut (perform sha256 act db)
  unfolding create_account revoke_account issue_token revoke_token authenticate_service_account
  perform-keeps sha256 (creates is_name new who body) db other h =
      if_allowed-keeps StaysShut (asks who "provision") db (insert_account is_name new body db) h
        (created-keeps is_name new body db other h)
  perform-keeps sha256 (revokes who none) db other h = h
  perform-keeps sha256 (revokes who (some account)) db other h =
      let next = settle_revocation account (find_account account db.accounts) db in
      if_allowed-keeps StaysShut (asks who "provision") db next h
        (settle_revocation-keeps account (find_account account db.accounts) db h)
  perform-keeps sha256 (issues token_id token who none days now) db other h = h
  perform-keeps sha256 (issues token_id token who (some account) days now) db other h =
      let found = find_account account db.accounts in
      let next = issue_for sha256 token_id token account days now found db in
      if_allowed-keeps StaysShut (asks who "provision") db next h
        (issue_for-keeps sha256 token_id token account days now found db h)
  perform-keeps sha256 (revokes_token who none) db other h = h
  perform-keeps sha256 (revokes_token who (some (account, token_id))) db other h =
      if_allowed-keeps StaysShut (asks who "provision") db (revoke_token_for account token_id db) h
        (revoke_token_for-keeps token_id account db h)
  perform-keeps sha256 (requests now secret) db other h =
      admit_account-keeps now db (find_token (sha256 secret) now db.tokens db.accounts) h

  perform_all-keeps :
      (sha256 : String → String) (acts : List Act) (db : Db)
      → AllOf (HasOtherId id) acts
      → StaysShut db
      → StaysShut (perform_all sha256 acts db)
  perform_all-keeps sha256 [] db others h = h
  perform_all-keeps sha256 (act ∷ acts) db (other, others) h =
      perform_all-keeps sha256 acts (perform sha256 act db) others
        (perform-keeps sha256 act db other h)

-- A revocation is answered, and then any accounts are created under other ids, any accounts and tokens
-- revoked, any tokens issued and any requests made with tokens. Whoever a bearer token lets in behind
-- all that, at any time, is the identity of an account that has another id and is not revoked.
pub revoked_account_locked_out :
    (identity : Option Identity) (id : String) (db : Db) (a : Account) (sha256 : String → String)
    (acts : List Act) (later : ℕ) (secret : String) (who : Identity)
    → (revoke_account identity (some id) db).1 ≡ account_is a
    → AllOf (HasOtherId id) acts
    → let db' = perform_all sha256 acts (revoke_account identity (some id) db).0 in
      (authenticate_service_account sha256 later secret db').1 ≡ proceed (some who)
      → (t : Token) × (b : Account) × (find_token (sha256 secret) later db'.tokens db'.accounts
          ≡ some (t, b))
        × (b.id ≢ id)
        × (b.revoked ≡ false)
        × (who ≡ account_identity b)
unfolding revoke_account
revoked_account_locked_out identity id db a sha256 acts later secret who reply others let_in =
    let next = settle_revocation id (find_account id db.accounts) db in
    let shut =
      allowed-IsShut (asks identity "provision") id db next a
        (settled-IsShut id (find_account id db.accounts) db a) reply in
    let behind = perform_all sha256 acts (if_allowed (asks identity "provision") db next).0 in
    others_only sha256 later secret id behind who
      (perform_all-keeps id sha256 acts (if_allowed (asks identity "provision") db next).0 others
        shut)
      let_in
