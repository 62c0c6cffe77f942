-- ===== src/Reconciliation/Engine/Dispositions.antt =====
-- arcanium/api/src/reconciliation/engine.js: `computeDisposition` and `latestAction`.
use arcanium.Prelude.{
  ℕ, String, ◌≡◌, refl, sym, ◌≢◌, ◌↔◌, ◌⊎◌, inl, inr, Bool, true, false, not, ◌&&◌, Option, none,
  some, arith, ◌==◌, eq_iff, if◌then◌else◌, includes, AnyOf-includes,
}
use arcanium.Domain.StateMachines.Paths.{dispositions}
use arcanium.Reconciliation.Engine.{ActionRow, still_valid, compute_disposition}

abbrev pub IsApplied : ActionRow → String → Type 0
IsApplied a action = (a.result ≡ "applied") × (a.action ≡ action)

abbrev ladder : Bool → Bool → Bool → Bool → Bool → String
ladder applied accepted valid reconciled compliant =
    if not applied
    then "OPEN"
    else if accepted
    then if valid then "EXCEPTION_ACCEPTED" else "OPEN"
    else if reconciled && compliant
    then "RECONCILED"
    else "OPEN"

abbrev Rungs : Bool → Bool → Bool → Bool → Bool → String → Type 0
Rungs applied accepted valid reconciled compliant d =
    ((d ≡ "EXCEPTION_ACCEPTED") ↔ ((applied ≡ true) × (accepted ≡ true) × (valid ≡ true)))
    × ((d ≡ "RECONCILED")
        ↔ ((applied ≡ true) × (accepted ≡ false) × (reconciled ≡ true) × (compliant ≡ true)))
    × ((d ≡ "EXCEPTION_ACCEPTED") ⊎ ((d ≡ "RECONCILED") ⊎ (d ≡ "OPEN")))

ladder-Rungs : (p q r s t : Bool) → Rungs p q r s t (ladder p q r s t)
ladder-Rungs false q r s t =
    ground (arith, eq_iff "OPEN" "EXCEPTION_ACCEPTED", eq_iff "OPEN" "RECONCILED")
ladder-Rungs true true true s t = ground (arith, eq_iff "EXCEPTION_ACCEPTED" "RECONCILED")
ladder-Rungs true true false s t =
    ground (arith, eq_iff "OPEN" "EXCEPTION_ACCEPTED", eq_iff "OPEN" "RECONCILED")
ladder-Rungs true false r true true = ground (arith, eq_iff "RECONCILED" "EXCEPTION_ACCEPTED")
ladder-Rungs true false r true false =
    ground (arith, eq_iff "OPEN" "EXCEPTION_ACCEPTED", eq_iff "OPEN" "RECONCILED")
ladder-Rungs true false r false t =
    ground (arith, eq_iff "OPEN" "EXCEPTION_ACCEPTED", eq_iff "OPEN" "RECONCILED")

rungs :
    (a : ActionRow) (status : String) (now : ℕ)
    → Rungs
        (a.result == "applied")
        (a.action == "accept_exception")
        (still_valid a.expires_at now)
        (a.action == "reconcile")
        (status == "COMPLIANT")
        (compute_disposition (some a) status now)
unfolding compute_disposition
rungs a status now =
    ladder-Rungs (a.result == "applied") (a.action == "accept_exception")
      (still_valid a.expires_at now) (a.action == "reconcile") (status == "COMPLIANT")

-- The disposition of a drift is EXCEPTION_ACCEPTED exactly if the latest action is an applied exception
-- that has no expiry or a later one, RECONCILED exactly if that action is an applied reconciliation and
-- the status is COMPLIANT, and OPEN in every other case.
pub disposition_exact :
    (a : ActionRow) (status : String) (now : ℕ)
    → let d = compute_disposition (some a) status now in
      ((d ≡ "EXCEPTION_ACCEPTED")
        ↔ (IsApplied a "accept_exception" × (still_valid a.expires_at now ≡ true)))
      × ((d ≡ "RECONCILED") ↔ (IsApplied a "reconcile" × (status ≡ "COMPLIANT")))
      × ((d ≡ "EXCEPTION_ACCEPTED") ⊎ ((d ≡ "RECONCILED") ⊎ (d ≡ "OPEN")))
disposition_exact a status now =
    let ((f, g), (h, k), three) = rungs a status now in
    let applied = eq_iff a.result "applied" in
    let accepted = eq_iff a.action "accept_exception" in
    let reconciled = eq_iff a.action "reconcile" in
    let compliant = eq_iff status "COMPLIANT" in
    (
      (λ e. ground (arith, f e, applied, accepted), λ e. g (ground (arith, e, applied, accepted))),
      (
        λ e. ground (arith, h e, applied, reconciled, compliant),
        λ e. k (
            ground (
              arith,
              e,
              applied,
              accepted,
              reconciled,
              compliant,
              eq_iff "reconcile" "accept_exception",
            )),
      ),
      three,
    )

pub disposition-known :
    (a : Option ActionRow) (status : String) (now : ℕ)
    → includes dispositions (compute_disposition a status now) ≡ true
unfolding compute_disposition
disposition-known none status now = refl
disposition-known (some a) status now = AnyOf-includes dispositions _ (elim (rungs a status now).2 [
  | inl e ↦ inr (inl (sym e))
  | inr (inl e) ↦ inr (inr (inl (sym e)))
  | inr (inr e) ↦ inl (sym e)
])

pub never_reconciled :
    (a : Option ActionRow) (status : String) (now : ℕ)
    → status ≡ "DRIFTED"
    → compute_disposition a status now ≢ "RECONCILED"
unfolding compute_disposition
never_reconciled none status now h e = absurd (cc)
never_reconciled (some a) status now h e =
    let (_, (f, g), _) = disposition_exact a status now in
    let compliant : status ≡ "COMPLIANT" = (f e).1 in absurd (cc)
