-- ===== src/Auth/Session/Lifetime.antt =====
-- arcanium/api/src/auth/index.js: how long a session lasts, over any sequence of requests.
use arcanium.Prelude.{
  ℕ, ◌+◌, ◌<◌, String, ◌≡◌, refl, sym, ◌≢◌, ◌⊎◌, inl, inr, true, ◌&&◌, Option, none, some, List, [],
  ◌∷◌, arith, ◌==◌, eq_iff, Bool-cases, is_some, or_default, AnyOf, AllOf, AnyOf-map,
}
use mathlib.Core.Path.{subst}
use arcanium.Auth.Groups.{groups_to_identity}
use arcanium.Auth.Session.{
  new_session, touch, switch, Config, Session, Db, ttl, idle_timeout, is_live, find_session,
  update_session, delete_session, callback, logout, demo_persona, require_session, Token, Account,
  authenticate_service_account,
}

-- The requests that reach the tables.
pub data Event : Type 0 where
  signed_in : ℕ → String → String → List String → Event
  requested : ℕ → String → String → Option String → Event
  logged_out : Option String → Event
  switched : Option String → String → Event

unfoldable pub step : Config → (String → String) → Event → Db → Db
step config sha256 (signed_in now id username groups) db =
    (callback config now id username groups db).0
step config sha256 (requested now path header cookie) db =
    (require_session config sha256 now path header cookie db).0
step config sha256 (logged_out cookie) db = (logout cookie db).0
step config sha256 (switched cookie persona) db = (demo_persona config cookie persona db).0

-- The tables after a history of requests, the newest first, from tables with no session.
unfoldable pub state : Config → (String → String) → List Token → List Account → List Event → Db
state config sha256 tokens accounts [] = record {
  sessions = [];
  tokens = tokens;
  accounts = accounts;
}
state config sha256 tokens accounts (e ∷ es) =
    step config sha256 e (state config sha256 tokens accounts es)

AllOf-map :
    {A : Type 0} (P Q : A → Type 0) (f : (x : A) → P x → Q x) (xs : List A)
    → AllOf P xs
    → AllOf Q xs
AllOf-map P Q f [] h = tt
AllOf-map P Q f (x ∷ xs) h = (f x h.0, AllOf-map P Q f xs h.1)

module _ (P Q : Session → Type 0) (keep : (s : Session) → P s → Q s) where
  AllOf-update_session :
      (id : String) (change : Session → Session)
      → ((s : Session) → s.id ≡ id → P s → Q (change s))
      → (xs : List Session) → AllOf P xs
      → AllOf Q (update_session id change xs)
  unfolding update_session
  AllOf-update_session id change f [] h = tt
  AllOf-update_session id change f (x ∷ xs) h = elim (Bool-cases (x.id == id)) [
    | inl e ↦ (rw e (f x ((eq_iff x.id id).0 e) h.0), AllOf-update_session id change f xs h.1)
    | inr e ↦ (rw e (keep x h.0), AllOf-update_session id change f xs h.1)
  ]

  AllOf-delete_session :
      (id : String) (xs : List Session) → AllOf P xs → AllOf Q (delete_session id xs)
  unfolding delete_session
  AllOf-delete_session id [] h = tt
  AllOf-delete_session id (x ∷ xs) h = elim (Bool-cases (x.id == id)) [
    | inl e ↦ rw e (AllOf-delete_session id xs h.1)
    | inr e ↦ rw e (keep x h.0, AllOf-delete_session id xs h.1)
  ]

find_session-some :
    (P : Session → Type 0) (id : String) (now : ℕ) (xs : List Session) (s : Session)
    → AllOf P xs
    → find_session id now xs ≡ some s
    → P s × (s.id ≡ id) × (is_live now s ≡ true)
unfolding find_session
find_session-some P id now [] s h e = absurd (cc)
find_session-some P id now (x ∷ xs) s h e = elim (Bool-cases (x.id == id && is_live now x)) [
  | inl t ↦
      let same : x ≡ s = ground arith in
      (subst P same h.0, rw (← same) (ground (arith, eq_iff x.id id)), rw (← same) (ground arith))
  | inr f ↦ find_session-some P id now xs s h.1 (ground arith)
]

-- The event that opened the session, and the one that it was last seen by.
abbrev OpenedBy : String → ℕ → Event → Type 0
OpenedBy id expires_at (signed_in t i _ _) = (i ≡ id) × (t + ttl ≡ expires_at)
OpenedBy id expires_at _ = ⊥

abbrev SeenBy : String → ℕ → Event → Type 0
SeenBy id last_seen_at (signed_in t i _ _) = (i ≡ id) × (t ≡ last_seen_at)
SeenBy id last_seen_at (requested t _ _ (some i)) = (i ≡ id) × (t ≡ last_seen_at)
SeenBy id last_seen_at _ = ⊥

abbrev Accounted : List Event → Session → Type 0
Accounted es s = AnyOf (OpenedBy s.id s.expires_at) es × AnyOf (SeenBy s.id s.last_seen_at) es

-- A sign-in of the session less than an hour before, and a sign-in or a request of it less than
-- half an hour before.
abbrev pub SignedInWithin : String → ℕ → Event → Type 0
SignedInWithin id now (signed_in t i _ _) = (i ≡ id) × (now < t + ttl)
SignedInWithin id now _ = ⊥

abbrev pub SeenWithin : String → ℕ → Event → Type 0
SeenWithin id now (signed_in t i _ _) = (i ≡ id) × (now < t + idle_timeout)
SeenWithin id now (requested t _ _ (some i)) = (i ≡ id) × (now < t + idle_timeout)
SeenWithin id now _ = ⊥

module _ (id : String) (now time : ℕ) where
  OpenedBy-recent : now < time → (e : Event) → OpenedBy id time e → SignedInWithin id now e
  OpenedBy-recent h (signed_in t i u g) o = (o.0, omega (arith, o.1))
  OpenedBy-recent h (requested t p r c) o = absurd o
  OpenedBy-recent h (logged_out c) o = absurd o
  OpenedBy-recent h (switched c p) o = absurd o

  SeenBy-recent : now < time + idle_timeout → (e : Event) → SeenBy id time e → SeenWithin id now e
  SeenBy-recent h (signed_in t i u g) o = (o.0, omega (arith, o.1))
  SeenBy-recent h (requested t p r none) o = absurd o
  SeenBy-recent h (requested t p r (some i)) o = (o.0, omega (arith, o.1))
  SeenBy-recent h (logged_out c) o = absurd o
  SeenBy-recent h (switched c p) o = absurd o

abbrev IsAbsent : String → Session → Type 0
IsAbsent id s = s.id ≢ id

-- The event is no sign-in that gives the id out again.
abbrev pub GivesNo : String → Event → Type 0
GivesNo id (signed_in t i _ _) = i ≢ id
GivesNo id _ = Unit

module _ (config : Config) (sha256 : String → String) where
  -- What each request does to the table of sessions.
  callback-sessions :
      (now : ℕ) (id username : String) (groups : List String) (db : Db)
      → ((callback config now id username groups db).0.sessions ≡ db.sessions)
        ⊎ ((callback config now id username groups db).0.sessions
            ≡ new_session now id username groups (groups_to_identity groups) ∷ db.sessions)
  unfolding callback
  callback-sessions now id username groups db = ground arith

  require_session-sessions :
      (now : ℕ) (path header : String) (cookie : Option String) (db : Db)
      → ((require_session config sha256 now path header cookie db).0.sessions ≡ db.sessions)
        ⊎ ((require_session config sha256 now path header cookie db).0.sessions
            ≡ update_session (or_default cookie "") (touch now) db.sessions)
          × (is_some cookie ≡ true)
  unfolding require_session authenticate_service_account
  require_session-sessions now path header cookie db = ground arith

  demo_persona-sessions :
      (cookie : Option String) (persona : String) (db : Db)
      → ((demo_persona config cookie persona db).0.sessions ≡ db.sessions)
        ⊎ ((demo_persona config cookie persona db).0.sessions
            ≡ update_session (or_default cookie "") (switch persona) db.sessions)
  unfolding demo_persona
  demo_persona-sessions cookie persona db = ground arith

  logout-sessions :
      (cookie : Option String) (db : Db)
      → ((logout cookie db).0.sessions ≡ db.sessions)
        ⊎ ((logout cookie db).0.sessions ≡ delete_session (or_default cookie "") db.sessions)
  unfolding logout
  logout-sessions cookie db = ground arith

  module _ (es : List Event) (db : Db) (h : AllOf (Accounted es) db.sessions) where
    later : (e : Event) → (s : Session) → Accounted es s → Accounted (e ∷ es) s
    later e s a = (inr a.0, inr a.1)

    step-Accounted : (e : Event) → AllOf (Accounted (e ∷ es)) (step config sha256 e db).sessions
    unfolding step
    step-Accounted (signed_in now id username groups) =
        let e = signed_in now id username groups in
        let old = AllOf-map (Accounted es) (Accounted (e ∷ es)) (later e) db.sessions h in
        elim (callback-sessions now id username groups db) [
          | inl q ↦ rw q old
          | inr q ↦ rw q ((inl (refl, refl), inl (refl, refl)), old)
        ]
    step-Accounted (requested now path header none) =
        let e = requested now path header none in
        let old = AllOf-map (Accounted es) (Accounted (e ∷ es)) (later e) db.sessions h in
        elim (require_session-sessions now path header none db) [
          | inl q ↦ rw q old
          | inr q ↦ absurd (cc (q.1))
        ]
    step-Accounted (requested now path header (some id)) =
        let e = requested now path header (some id) in
        elim (require_session-sessions now path header (some id) db) [
          | inl q ↦ rw q (AllOf-map (Accounted es) (Accounted (e ∷ es)) (later e) db.sessions h)
          | inr q ↦ rw (q.0) (
              AllOf-update_session (Accounted es) (Accounted (e ∷ es)) (later e) id (touch now)
                (λ s same a. (inr a.0, inl (sym same, refl))) db.sessions h)
        ]
    step-Accounted (logged_out cookie) =
        let e = logged_out cookie in
        elim (logout-sessions cookie db) [
          | inl q ↦ rw q (AllOf-map (Accounted es) (Accounted (e ∷ es)) (later e) db.sessions h)
          | inr q ↦ rw q (
              AllOf-delete_session (Accounted es) (Accounted (e ∷ es)) (later e)
                (or_default cookie "") db.sessions h)
        ]
    step-Accounted (switched cookie persona) =
        let e = switched cookie persona in
        elim (demo_persona-sessions cookie persona db) [
          | inl q ↦ rw q (AllOf-map (Accounted es) (Accounted (e ∷ es)) (later e) db.sessions h)
          | inr q ↦ rw q (
              AllOf-update_session (Accounted es) (Accounted (e ∷ es)) (later e)
                (or_default cookie "") (switch persona) (λ s same a. (inr a.0, inr a.1)) db.sessions
                h)
        ]

  module _ (tokens : List Token) (accounts : List Account) where
    state-Accounted :
        (es : List Event) → AllOf (Accounted es) (state config sha256 tokens accounts es).sessions
    unfolding state
    state-Accounted [] = tt
    state-Accounted (e ∷ es) =
        step-Accounted es (state config sha256 tokens accounts es) (state-Accounted es) e

    -- Whatever the requests, a session that is accepted at some time was opened by a sign-in less
    -- than an hour before, and was signed in or seen less than half an hour before.
    pub session_lifetime :
        (es : List Event) (id : String) (now : ℕ) (s : Session)
        → find_session id now (state config sha256 tokens accounts es).sessions ≡ some s
        → AnyOf (SignedInWithin id now) es × AnyOf (SeenWithin id now) es
    session_lifetime es id now s found =
        let (a, same, live) =
          find_session-some (Accounted es) id now (state config sha256 tokens accounts es).sessions
            s (state-Accounted es) found in
        (
          AnyOf-map (OpenedBy s.id s.expires_at) (SignedInWithin id now)
              (rw (← same) (OpenedBy-recent s.id now s.expires_at (ground (arith, live)))) es a.0,
          AnyOf-map (SeenBy s.id s.last_seen_at) (SeenWithin id now)
              (rw (← same) (SeenBy-recent s.id now s.last_seen_at (ground (arith, live)))) es a.1,
        )

  module _ (id : String) (db : Db) (h : AllOf (IsAbsent id) db.sessions) where
    keep-IsAbsent : (s : Session) → IsAbsent id s → IsAbsent id s
    keep-IsAbsent s a = a

    step-IsAbsent :
        (e : Event) → GivesNo id e → AllOf (IsAbsent id) (step config sha256 e db).sessions
    unfolding step
    step-IsAbsent (signed_in now i username groups) other =
        elim (callback-sessions now i username groups db) [
          | inl q ↦ rw q h
          | inr q ↦ rw q (other, h)
        ]
    step-IsAbsent (requested now path header cookie) other =
        elim (require_session-sessions now path header cookie db) [
          | inl q ↦ rw q h
          | inr q ↦ rw (q.0) (
              AllOf-update_session (IsAbsent id) (IsAbsent id) keep-IsAbsent (or_default cookie "")
                (touch now) (λ s same a. a) db.sessions h)
        ]
    step-IsAbsent (logged_out cookie) other = elim (logout-sessions cookie db) [
      | inl q ↦ rw q h
      | inr q ↦ rw q (
          AllOf-delete_session (IsAbsent id) (IsAbsent id) keep-IsAbsent (or_default cookie "")
            db.sessions h)
    ]
    step-IsAbsent (switched cookie persona) other = elim (demo_persona-sessions cookie persona db) [
      | inl q ↦ rw q h
      | inr q ↦ rw q (
          AllOf-update_session (IsAbsent id) (IsAbsent id) keep-IsAbsent (or_default cookie "")
            (switch persona) (λ s same a. a) db.sessions h)
    ]

  -- Later requests on top of the tables.
  unfoldable pub replay : Db → List Event → Db
  replay db [] = db
  replay db (e ∷ es) = step config sha256 e (replay db es)

  replay-IsAbsent :
      (id : String) (db : Db) (es : List Event)
      → AllOf (IsAbsent id) db.sessions
      → AllOf (GivesNo id) es
      → AllOf (IsAbsent id) (replay db es).sessions
  unfolding replay
  replay-IsAbsent id db [] h g = h
  replay-IsAbsent id db (e ∷ es) h g =
      step-IsAbsent id (replay db es) (replay-IsAbsent id db es h g.1) e g.0

  delete-IsAbsent : (id : String) (xs : List Session) → AllOf (IsAbsent id) (delete_session id xs)
  unfolding delete_session
  delete-IsAbsent id [] = tt
  delete-IsAbsent id (x ∷ xs) = elim (Bool-cases (x.id == id)) [
    | inl e ↦ rw e (delete-IsAbsent id xs)
    | inr e ↦ rw e (ground (arith, eq_iff x.id id), delete-IsAbsent id xs)
  ]

  find_session-IsAbsent :
      (id : String) (now : ℕ) (xs : List Session)
      → AllOf (IsAbsent id) xs
      → find_session id now xs ≡ none
  unfolding find_session
  find_session-IsAbsent id now [] h = refl
  find_session-IsAbsent id now (x ∷ xs) h =
      ground (arith, eq_iff x.id id, find_session-IsAbsent id now xs h.1)

  logout-IsAbsent :
      (id : String) (db : Db) → id ≢ "" → AllOf (IsAbsent id) (logout (some id) db).0.sessions
  unfolding logout
  logout-IsAbsent id db nonempty = elim (Bool-cases (id == "")) [
    | inl e ↦ absurd (nonempty ((eq_iff id "").0 e))
    | inr e ↦ rw e (delete-IsAbsent id db.sessions)
  ]

  -- After a logout its session is accepted at no time, whatever requests follow, unless a sign-in
  -- gives the same id out again.
  pub logout_is_final :
      (id : String) (db : Db) (es : List Event) (now : ℕ)
      → id ≢ ""
      → AllOf (GivesNo id) es
      → find_session id now (replay (logout (some id) db).0 es).sessions ≡ none
  logout_is_final id db es now nonempty g =
      find_session-IsAbsent id now (replay (logout (some id) db).0 es).sessions
        (replay-IsAbsent id (logout (some id) db).0 es (logout-IsAbsent id db nonempty) g)
