-- ===== src/Reconciliation/Engine/Confirmation.antt =====
-- arcanium/api/src/reconciliation/engine.js: what a reconciliation that is applied has done.
use arcanium.Prelude.{
  ℕ, String, ◌≡◌, refl, sym, ap, ◌∙◌, inl, inr, true, Option, some, List, arith, ◌==◌, eq_iff,
  Bool-cases,
}
use arcanium.Reconciliation.Diff.{Comparison}
use arcanium.Reconciliation.Engine.{
  prior_of, Row, RunRow, Db, Outcome, returns, throws, Outside, record_run, compare_for, observe,
  get_disposition_for, is_run_of, latest_action, compute_disposition,
}
use arcanium.Reconciliation.Engine.Actions.{
  reobserve, answered, find_run, find_row, Reconciled, Tried, conclude, confirm, try_apply,
  reconcile_run,
}
use arcanium.Reconciliation.Engine.Events.{record_run-returned}
use arcanium.Reconciliation.Engine.Governance.{
  try_apply-Keeps, is_run_of-found, check-reconcile, find_row-id,
}

module _ (parse_date : String → Option ℕ) {W : Type 0} (outside : Outside W) where
  confirm-applied :
      (compared : Comparison) (w : W) (o : Outcome (RunRow × Db)) (db : Db) (id : ℕ)
      → ((run : RunRow) (db' : Db)
          → o ≡ returns (run, db')
          → prior_of id db'.runs ≡ some compared.status)
      → (confirm parse_date outside compared w o db).result ≡ "applied"
      → ((confirm parse_date outside compared w o db).world ≡ w)
        × (prior_of id (confirm parse_date outside compared w o db).db.runs ≡ some "COMPLIANT")
  confirm-applied compared w (throws message) db id k h = absurd (cc)
  confirm-applied compared w (returns (run, db')) db id k h =
      elim (Bool-cases (compared.status == "COMPLIANT")) [
        | inl e ↦ rw e (refl, k run db' refl ∙ ap some ((eq_iff compared.status "COMPLIANT").0 e))
        | inr e ↦ absurd (ground (arith, h, e, eq_iff "failed" "applied"))
      ]

  reobserve-applied :
      (row : Row) (now : ℕ) (db : Db) (r : W × Outcome Unit)
      → (reobserve parse_date outside row now db r).result ≡ "applied"
      → ((reobserve parse_date outside row now db r).world ≡ r.0)
        × (prior_of row.id (reobserve parse_date outside row now db r).db.runs ≡ some "COMPLIANT")
  reobserve-applied row now db (w, throws message) h = absurd (cc)
  reobserve-applied row now db (w, returns _) h =
      let o = observe parse_date outside row w in
      let compared = compare_for parse_date outside now row o in
      confirm-applied compared w (record_run row o compared now db) db row.id
        (λ run db' e.
          let (_, q) = record_run-returned row o compared now db run db' e in rw q (ground arith))
        h

  try_apply-applied :
      (row : Row) (run : RunRow) (now : ℕ) (db : Db) (w : W)
      → let tried = try_apply parse_date outside row run now db w in
        tried.result ≡ "applied"
        → (row.requirement ≡ "rotation_period")
          × (tried.world ≡ (outside.apply_rotation_period row w).0)
          × (prior_of row.id tried.db.runs ≡ some "COMPLIANT")
  unfolding try_apply
  try_apply-applied row run now db w h =
      let check =
        check-reconcile (latest_action run.desired_state_id db.runs db.actions) run.status now in
      elim (Bool-cases (row.requirement == "rotation_period")) [
        | inl e ↦
            let (p, q) =
              reobserve-applied row now db (outside.apply_rotation_period row w)
                (rw (e, check) at h) in
            ((eq_iff row.requirement "rotation_period").0 e, rw (e, check) p, rw (e, check) q)
        | inr e ↦ absurd (ground (arith, h, e, eq_iff "failed" "applied"))
      ]

  closed :
      (run : RunRow) (actor : String) (tried : Tried W) (later : ℕ)
      → is_run_of run.desired_state_id run.id tried.db.runs ≡ true
      → tried.result ≡ "applied"
      → get_disposition_for run.desired_state_id "COMPLIANT" later
          (conclude parse_date outside run.id actor tried).db
        ≡ "RECONCILED"
  unfolding compute_disposition
  closed run actor tried later h ok = rw (h, ok) refl

  answered_by :
      (run_id : ℕ) (run : RunRow) (row : Row) (rows : List Row) (actor : String) (now : ℕ) (db : Db)
      (w : W) (r : Reconciled W)
      → find_run run_id db.runs ≡ some run
      → find_row run.desired_state_id rows ≡ some row
      → (row.requirement ≡ "expiry_date" → ⊥)
      → reconcile_run parse_date outside run_id rows actor now db w ≡ answered r
      → r ≡ conclude parse_date outside run.id actor (try_apply parse_date outside row run now db w)
  unfolding reconcile_run
  answered_by run_id run row rows actor now db w r found owned direct h =
      ground (arith, found, owned, h, eq_iff row.requirement "expiry_date", direct)

  -- A reconciliation of a rotation that is answered as applied has written the period to Vault and
  -- then recorded a compliant run, by which the desired state is reconciled.
  pub reconcile_confirms :
      (run_id : ℕ) (run : RunRow) (row : Row) (rows : List Row) (actor : String) (now : ℕ) (db : Db)
      (w : W) (r : Reconciled W)
      → find_run run_id db.runs ≡ some run
      → find_row run.desired_state_id rows ≡ some row
      → (row.requirement ≡ "expiry_date" → ⊥)
      → reconcile_run parse_date outside run_id rows actor now db w ≡ answered r
      → r.action.result ≡ "applied"
      → (row.requirement ≡ "rotation_period")
        × (r.world ≡ (outside.apply_rotation_period row w).0)
        × (prior_of row.id r.db.runs ≡ some "COMPLIANT")
        × ((later : ℕ) → get_disposition_for row.id "COMPLIANT" later r.db ≡ "RECONCILED")
  reconcile_confirms run_id run row rows actor now db w r found owned direct h applied =
      let tried = try_apply parse_date outside row run now db w in
      let e = answered_by run_id run row rows actor now db w r found owned direct h in
      let ok : tried.result ≡ "applied" = sym (ap (λ x. x.action.result) e) ∙ applied in
      let (kind, world, prior) = try_apply-applied row run now db w ok in
      let same = find_row-id run.desired_state_id rows row owned in
      let here = is_run_of-found run_id db.runs run found in
      let kept =
        try_apply-Keeps parse_date outside run.desired_state_id run.id row run now db w here in
      (
        kind,
        ap (λ x. x.world) e ∙ world,
        ap (λ x. prior_of row.id x.db.runs) e ∙ prior,
        λ later.
            ap (λ x. get_disposition_for row.id "COMPLIANT" later x.db) e
            ∙ ap
                (λ i.
                  get_disposition_for i "COMPLIANT" later
                    (conclude parse_date outside run.id actor tried).db)
                same
            ∙ closed run actor tried later kept ok,
      )
