-- ===== src/Reconciliation/Engine/Events.antt =====
-- arcanium/api/src/reconciliation/engine.js: what `recordRun` announces.
use arcanium.Prelude.{
  ℕ, String, ◌≡◌, refl, ap, ◌∙◌, ◌≢◌, true, false, Option, none, some, List, [], ◌∷◌, ◌++◌, arith,
  eq_iff,
}
use arcanium.Reconciliation.Diff.{Observed, Comparison}
use arcanium.Reconciliation.Diff.Sound.{IsSound}
use arcanium.Reconciliation.Engine.{
  Row, RunRow, Db, returns, prior_of, changed, status_event, expiry_event, new_run, insert_run,
  record_run,
}

pub record_run-returned :
    (row : Row) (observed : Observed) (result : Comparison) (now : ℕ) (db : Db) (run : RunRow)
    (db' : Db)
    → record_run row observed result now db ≡ returns (run, db')
    → (run ≡ new_run row observed result db.next_run now)
      × (db' ≡ insert_run row observed result (prior_of row.id db.runs) now db)
unfolding record_run
record_run-returned row observed result now db run db' h = ground (arith, h)

prior_of-first :
    (run : RunRow) (runs : List RunRow)
    → prior_of run.desired_state_id (run ∷ runs) ≡ some run.status
prior_of-first run runs = ground arith

status_event-same :
    (result : Comparison) (prior : String) (id run_id : ℕ)
    → prior ≡ result.status
    → status_event (some prior) result id run_id ≡ []
status_event-same result prior id run_id e = ground (arith, eq_iff prior result.status)

expiry_event-same :
    (result : Comparison) (prior : String) (id run_id : ℕ)
    → prior ≡ result.status
    → IsSound result
    → expiry_event (some prior) result id run_id ≡ []
expiry_event-same result prior id run_id e sound = ground (arith, sound.1, eq_iff prior "COMPLIANT")

-- A run of the same status as the one recorded before it announces nothing: neither a drift nor
-- compliance again, nor that the expiry approaches.
pub rerecord_silent :
    (row : Row) (o₁ o₂ : Observed) (r₁ r₂ : Comparison) (t₁ t₂ : ℕ) (db db₁ db₂ : Db)
    (run₁ run₂ : RunRow)
    → record_run row o₁ r₁ t₁ db ≡ returns (run₁, db₁)
    → record_run row o₂ r₂ t₂ db₁ ≡ returns (run₂, db₂)
    → IsSound r₂
    → r₁.status ≡ r₂.status
    → (db₂.emitted ≡ db₁.emitted) × (db₂.runs ≡ run₂ ∷ run₁ ∷ db.runs)
rerecord_silent row o₁ o₂ r₁ r₂ t₁ t₂ db db₁ db₂ run₁ run₂ h₁ h₂ sound e =
    let (p₁, q₁) = record_run-returned row o₁ r₁ t₁ db run₁ db₁ h₁ in
    let (p₂, q₂) = record_run-returned row o₂ r₂ t₂ db₁ run₂ db₂ h₂ in
    let prior : prior_of row.id db₁.runs ≡ some r₁.status = rw q₁ (ground arith) in
    let no_expiry = expiry_event-same r₂ r₁.status row.id db₁.next_run e sound in
    let no_status = status_event-same r₂ r₁.status row.id db₁.next_run e in
    (
      ap (λ d. d.emitted) q₂
          ∙ ap
              (λ p.
                expiry_event p r₂ row.id db₁.next_run
                ++ (status_event p r₂ row.id db₁.next_run ++ db₁.emitted))
              prior
          ∙ rw (no_expiry, no_status) refl,
      rw (q₂, p₂, q₁, p₁) refl,
    )

changed-new :
    (prior : Option String) (status : String) → prior ≢ some status → changed prior status ≡ true
changed-new none status h = refl
changed-new (some p) status h = ground (arith, eq_iff p status)

-- A run of another status than the one recorded before it, or the first run, is announced by one
-- event exactly if it found a drift or compliance.
pub change_announced :
    (row : Row) (o : Observed) (r : Comparison) (t : ℕ) (db db' : Db) (run : RunRow)
    → record_run row o r t db ≡ returns (run, db')
    → prior_of row.id db.runs ≢ some r.status
    → r.approaching_expiry ≡ false
    → ((r.status ≡ "DRIFTED")
        → db'.emitted
          ≡ record { name = "reconciliation.drifted"; desired_state_id = row.id; run_id = run.id }
            ∷ db.emitted)
      × ((r.status ≡ "COMPLIANT")
          → db'.emitted
            ≡ record {
              name = "reconciliation.compliant";
              desired_state_id = row.id;
              run_id = run.id;
            }
              ∷ db.emitted)
      × ((r.status ≡ "UNKNOWN") → db'.emitted ≡ db.emitted)
change_announced row o r t db db' run h new calm =
    let (p, q) = record_run-returned row o r t db run db' h in
    let emitted = ap (λ d. d.emitted) q in
    let differ = changed-new (prior_of row.id db.runs) r.status new in
    (
      λ e. emitted ∙ rw (calm, p, differ, e) refl,
      λ e. emitted ∙ rw (calm, p, differ, e) refl,
      λ e. emitted ∙ rw (calm, differ, e) refl,
    )
