-- ===== src/Reconciliation/Engine/Governance.antt =====
-- arcanium/api/src/reconciliation/engine.js: the two governed actions.
use arcanium.Prelude.{
  ℕ, ◌≤◌, ◌<◌, String, ◌≡◌, refl, inl, inr, true, false, Option, some, List, [], ◌∷◌, arith, ◌==◌,
  eq_iff, ltb, eqb, Bool-cases, truthy,
}
use arcanium.Domain.StateMachines.{legal}
use arcanium.Domain.StateMachines.Paths.{disposition_transitions}
use arcanium.Reconciliation.Diff.{Observed, Comparison}
use arcanium.Reconciliation.Engine.{
  new_run, Row, RunRow, ActionRow, Db, Outcome, returns, throws, Outside, record_run, compare_for,
  observe, get_disposition_for, is_run_of, latest_action, compute_disposition,
}
use arcanium.Reconciliation.Engine.Actions.{
  note_request, reobserve, answered, find_run, find_row, check_disposition, insert_action,
  Reconciled, Tried, conclude, confirm, try_apply, reconcile_expiry_date, reconcile_run,
  exception_action, accept_exception,
}
use arcanium.Reconciliation.Diff.{Observed}
use arcanium.Reconciliation.Engine.Events.{record_run-returned}
use arcanium.Reconciliation.Engine.Dispositions.{disposition-known, never_reconciled}

find_run-id :
    (id : ℕ) (runs : List RunRow) (run : RunRow) → find_run id runs ≡ some run → run.id ≡ id
find_run-id id [] run e = absurd (cc)
find_run-id id (r ∷ runs) run e = elim (Bool-cases (eqb r.id id)) [
  | inl same ↦ ground (arith, same)
  | inr other ↦ find_run-id id runs run (ground (arith, other))
]

pub is_run_of-found :
    (id : ℕ) (runs : List RunRow) (run : RunRow)
    → find_run id runs ≡ some run
    → is_run_of run.desired_state_id run.id runs ≡ true
is_run_of-found id [] run e = absurd (cc)
is_run_of-found id (r ∷ runs) run e = elim (Bool-cases (eqb r.id id)) [
  | inl same ↦ ground (arith, same)
  | inr other ↦ ground (arith, is_run_of-found id runs run (ground (arith, other)))
]

-- From the disposition of a drifted run every change that an action makes is legal.
check-accept :
    (a : Option ActionRow) (status : String) (now : ℕ)
    → status ≡ "DRIFTED"
    → check_disposition (compute_disposition a status now) "EXCEPTION_ACCEPTED" ≡ legal
check-accept a status now h =
    let current = compute_disposition a status now in
    let (f, g) =
      disposition_transitions current "EXCEPTION_ACCEPTED" (disposition-known a status now) refl in
    let other = never_reconciled a status now h in
    elim (Bool-cases (current == "EXCEPTION_ACCEPTED")) [
      | inl e ↦ rw e refl
      | inr e ↦ rw e (g (ground (arith, e, eq_iff current "EXCEPTION_ACCEPTED"), λ x. other x.0))
    ]

pub check-reconcile :
    (a : Option ActionRow) (status : String) (now : ℕ)
    → check_disposition (compute_disposition a status now) "RECONCILED" ≡ legal
check-reconcile a status now =
    let current = compute_disposition a status now in
    let (f, g) =
      disposition_transitions current "RECONCILED" (disposition-known a status now) refl in
    elim (Bool-cases (current == "RECONCILED")) [
      | inl e ↦ rw e refl
      | inr e ↦ rw e (g (ground (arith, e, eq_iff current "RECONCILED"), λ x. absurd (cc)))
    ]

pub latest-inserted :
    (a : ActionRow) (id : ℕ) (runs : List RunRow) (actions : List ActionRow)
    → is_run_of id a.run_id runs ≡ true
    → latest_action id runs (a ∷ actions) ≡ some a
latest-inserted a id runs actions h = rw h refl

before : (now t : ℕ) → now < t → ltb now t ≡ true
before now t h = ground arith

after : (now t : ℕ) → t ≤ now → ltb now t ≡ false
after now t h = ground arith

-- An exception with a reason and an expiry, on a drifted run, is always recorded, and the runs stay as
-- they are; in the tables that it leaves, a drift of that desired state is excepted before the expiry,
-- and open from then on.
pub accept_exception_holds :
    (run_id : ℕ) (run : RunRow) (actor reason : String) (expires_at now : ℕ) (db : Db)
    → truthy (some reason) ≡ true
    → find_run run_id db.runs ≡ some run
    → run.status ≡ "DRIFTED"
    → (a : ActionRow) × (db' : Db) × (accept_exception run_id actor
          (some reason)
          (some expires_at)
          now
          db
        ≡ answered (a, db'))
      × (db'.runs ≡ db.runs)
      × ((later : ℕ)
          → (later < expires_at
              → get_disposition_for run.desired_state_id "DRIFTED" later db' ≡ "EXCEPTION_ACCEPTED")
            × (expires_at ≤ later
                → get_disposition_for run.desired_state_id "DRIFTED" later db' ≡ "OPEN"))
unfolding accept_exception compute_disposition
accept_exception_holds run_id run actor reason expires_at now db t found drifted =
    let a = exception_action run.id actor (some reason) (some expires_at) in
    let db' = insert_action a db in
    let latest =
      latest-inserted a run.desired_state_id db.runs db.actions
        (is_run_of-found run_id db.runs run found) in
    let check =
      check-accept (latest_action run.desired_state_id db.runs db.actions) "DRIFTED" now refl in
    (
      a,
      db',
      rw (t, found, drifted, check) refl,
      refl,
      λ later. (
        λ h. rw (latest, before later expires_at h) refl,
        λ h. rw (latest, after later expires_at h) refl,
      ),
    )

is_run_of-cons :
    (id run_id : ℕ) (r : RunRow) (runs : List RunRow)
    → is_run_of id run_id runs ≡ true
    → is_run_of id run_id (r ∷ runs) ≡ true
is_run_of-cons id run_id r runs h = ground (arith, h)

pub find_row-id : (id : ℕ) (rows : List Row) (row : Row) → find_row id rows ≡ some row → row.id ≡ id
find_row-id id [] row e = absurd (cc)
find_row-id id (r ∷ rows) row e = elim (Bool-cases (eqb r.id id)) [
  | inl same ↦ ground (arith, same)
  | inr other ↦ find_row-id id rows row (ground (arith, other))
]

module _ (parse_date : String → Option ℕ) {W : Type 0} (outside : Outside W) where
  -- The attempt keeps the run that it was made for.
  module _ (id run_id : ℕ) where
    abbrev pub Keeps : Db → Type 0
    Keeps db = is_run_of id run_id db.runs ≡ true

    kept_by :
        (compared : Comparison) (w : W) (o : Outcome (RunRow × Db)) (db : Db)
        → Keeps db
        → ((run : RunRow) (db' : Db) → o ≡ returns (run, db') → Keeps db')
        → Keeps (confirm parse_date outside compared w o db).db
    kept_by compared w (throws message) db h k = h
    kept_by compared w (returns (run, db')) db h k =
        elim (Bool-cases (compared.status == "COMPLIANT")) [
          | inl e ↦ rw e (k run db' refl)
          | inr e ↦ rw e (k run db' refl)
        ]

    confirm-Keeps :
        (row : Row) (o : Observed) (compared : Comparison) (now : ℕ) (w : W) (db : Db)
        → Keeps db
        → Keeps (confirm parse_date outside compared w (record_run row o compared now db) db).db
    confirm-Keeps row o compared now w db h =
        kept_by compared w (record_run row o compared now db) db h (λ run db' e.
          let (_, q) = record_run-returned row o compared now db run db' e in
          rw q (is_run_of-cons id run_id (new_run row o compared db.next_run now) db.runs h))

    reobserve-Keeps :
        (row : Row) (now : ℕ) (db : Db) (r : W × Outcome Unit)
        → Keeps db
        → Keeps (reobserve parse_date outside row now db r).db
    reobserve-Keeps row now db (w, throws message) h = h
    reobserve-Keeps row now db (w, returns _) h =
        let o = observe parse_date outside row w in
        confirm-Keeps row o (compare_for parse_date outside now row o) now w db h

    pub try_apply-Keeps :
        (row : Row) (run : RunRow) (now : ℕ) (db : Db) (w : W)
        → Keeps db
        → Keeps (try_apply parse_date outside row run now db w).db
    unfolding try_apply
    try_apply-Keeps row run now db w h =
        let check =
          check-reconcile (latest_action run.desired_state_id db.runs db.actions) run.status now in
        elim (Bool-cases (row.requirement == "rotation_period")) [
          | inl e ↦
              rw (e, check) (reobserve-Keeps row now db (outside.apply_rotation_period row w) h)
          | inr e ↦ rw e h
        ]

    note_request-Keeps :
        (db : Db) (r : W × Outcome ℕ) → Keeps db → Keeps (note_request parse_date outside db r).db
    note_request-Keeps db (w, throws message) h = h
    note_request-Keeps db (w, returns approval) h = h

  reopened :
      (run : RunRow) (actor : String) (tried : Tried W) (later : ℕ)
      → is_run_of run.desired_state_id run.id tried.db.runs ≡ true
      → get_disposition_for run.desired_state_id "DRIFTED" later
          (conclude parse_date outside run.id actor tried).db
        ≡ "OPEN"
  unfolding compute_disposition
  reopened run actor tried later h = rw h (ground arith)

  -- Reconciling a drifted run is always answered with an action; afterwards, whatever became of the
  -- attempt and whatever exception had been accepted, a drift of that desired state is open.
  pub reconcile_reopens :
      (run_id : ℕ) (run : RunRow) (row : Row) (rows : List Row) (actor : String) (now : ℕ) (db : Db)
      (w : W)
      → find_run run_id db.runs ≡ some run
      → find_row run.desired_state_id rows ≡ some row
      → run.status ≡ "DRIFTED"
      → (r : Reconciled W) × (reconcile_run parse_date outside run_id rows actor now db w
          ≡ answered r)
        × ((later : ℕ) → get_disposition_for run.desired_state_id "DRIFTED" later r.db ≡ "OPEN")
  unfolding reconcile_run reconcile_expiry_date
  reconcile_reopens run_id run row rows actor now db w found owned drifted =
      let here = is_run_of-found run_id db.runs run found in
      let id = run.desired_state_id in
      let status = (eq_iff run.status "DRIFTED").1 drifted in
      elim (Bool-cases (row.requirement == "expiry_date")) [
        | inl e ↦
            let tried =
              note_request parse_date outside db (outside.request_key_destroy row actor w) in
            (
              conclude parse_date outside run.id actor tried,
              rw (found, owned, status, e) refl,
              λ later.
                  reopened run actor tried later (
                    note_request-Keeps id run.id db (outside.request_key_destroy row actor w) here),
            )
        | inr e ↦
            let tried = try_apply parse_date outside row run now db w in
            (
              conclude parse_date outside run.id actor tried,
              rw (found, owned, status, e) refl,
              λ later.
                  reopened run actor tried later (try_apply-Keeps id run.id row run now db w here),
            )
      ]
