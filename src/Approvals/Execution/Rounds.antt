-- ===== src/Approvals/Execution/Rounds.antt =====
-- arcanium/api/src/approval-execution.js: the loop of `executeApprovedDestroys`.
use mathlib.Core.Path.{subst}
use arcanium.Prelude.{
  ℕ, zero, suc, ◌+◌, ◌≤◌, ◌<◌, ◌≡◌, refl, ◌⊎◌, inl, inr, Bool, true, false, none, some, List, [],
  ◌∷◌, arith, Bool-cases, Option-cases, length, length-select-le,
}
use arcanium.Approvals.Execution.{
  Approval, Tables, Ending, executed, already_gone, skipped, version_mismatch, error, Attempted,
  Vault, Totals, Tick, process, claim, claim_and_process_one, count_ending, after_attempt,
  after_unclaimed, next_tick, run_rounds, first_tick, execute_approved_destroys, is_claimable,
  is_listed,
}
use arcanium.Approvals.Execution.Claims.{
  Claims, IsNext, claim-Claims, remaining, remaining-excluded-lt, remaining-executed-le,
}
use arcanium.Approvals.Execution.Calls.{is_settled, process_marks}

-- No id stands in the list twice.
abbrev pub Distinct : List ℕ → Type 0
Distinct [] = Unit
Distinct (id ∷ ids) = (is_listed ids id ≡ false) × Distinct ids

-- What every round keeps.
abbrev pub IsBalanced : {V : Type 0} → Tick V → Type 0
IsBalanced tick =
    (tick.totals.checked ≡ tick.totals.executed + tick.totals.failed + tick.totals.skipped)
    × (length tick.exclude ≡ tick.totals.checked)
    × Distinct tick.exclude

count_ending-sum :
    (e : Ending) (n : Totals)
    → n.checked ≡ n.executed + n.failed + n.skipped
    → let m = count_ending e n in
      (m.checked ≡ m.executed + m.failed + m.skipped) × (m.checked ≡ suc n.checked)
count_ending-sum executed n h = (omega (arith, h), refl)
count_ending-sum already_gone n h = (omega (arith, h), refl)
count_ending-sum skipped n h = (omega (arith, h), refl)
count_ending-sum version_mismatch n h = (omega (arith, h), refl)
count_ending-sum error n h = (omega (arith, h), refl)

claimable-unlisted :
    (exclude : List ℕ) (a : Approval)
    → is_claimable exclude a ≡ true
    → is_listed exclude a.id ≡ false
claimable-unlisted exclude a h = ground (arith, h)

module _ {V : Type 0} (vault : Vault V) (connects : ℕ → Bool) (now : ℕ) where
  after_attempt-IsBalanced :
      (req : Approval) (a : Attempted V) (tick : Tick V)
      → is_claimable tick.exclude req ≡ true
      → IsBalanced tick
      → IsBalanced (after_attempt vault connects now req a tick)
  after_attempt-IsBalanced req a tick c (sum, len, distinct) =
      let (p, q) = count_ending-sum a.ending tick.totals sum in
      (p, rw q (omega (arith, len)), (claimable-unlisted tick.exclude req c, distinct))

  process-remaining :
      (exclude : List ℕ) (req : Approval) (t : Tables) (v : V)
      → remaining exclude (process vault req now t v).tables.approvals
        ≤ remaining exclude t.approvals
  process-remaining exclude req t v =
      let a = process vault req now t v in
      let marks = (process_marks vault req now t v).0 in
      elim (Bool-cases (is_settled a.ending)) [
        | inl s ↦ rw (marks, s) (remaining-executed-le req.id now exclude t.approvals)
        | inr s ↦ rw (marks, s) (omega arith)
      ]

  -- A round ends the loop, or attempts a request that could be claimed, or claims none.
  pub round_cases :
      (tick : Tick V)
      → ((next_tick vault connects now tick ≡ none)
          × (claim tick.exclude tick.tables.approvals ≡ none))
        ⊎ (((req : Approval) × IsNext tick.exclude tick.tables.approvals req
              × (next_tick vault connects now tick
                  ≡ some (
                      after_attempt vault connects now req
                        (process vault req now tick.tables tick.vault)
                        tick)))
            ⊎ ((connects tick.totals.checked ≡ false)
                × (next_tick vault connects now tick
                    ≡ some (after_unclaimed vault connects now tick))))
  unfolding next_tick claim_and_process_one
  round_cases tick =
      let fits = claim-Claims tick.exclude tick.tables.approvals in
      elim (Bool-cases (connects tick.totals.checked)) [
        | inr c ↦ inr (inr (c, rw c refl))
        | inl c ↦ elim (Option-cases (claim tick.exclude tick.tables.approvals)) [
          | inl e ↦ inl (rw (c, e) refl, e)
          | inr (req, e) ↦
              inr (
                inl (req, subst (Claims tick.exclude tick.tables.approvals) e fits, rw (c, e) refl))
        ]
      ]

  attempt_leaves_fewer :
      (tick : Tick V) (req : Approval)
      → IsNext tick.exclude tick.tables.approvals req
      → let next =
          after_attempt vault connects now req
            (process vault req now tick.tables tick.vault)
            tick in
        remaining next.exclude next.tables.approvals < remaining tick.exclude tick.tables.approvals
  attempt_leaves_fewer tick req (c, held, _) = omega (
    arith,
    process-remaining (req.id ∷ tick.exclude) req tick.tables tick.vault,
    remaining-excluded-lt req tick.exclude tick.tables.approvals c held,
  )

  run_rounds_ends :
      (fuel : ℕ) (tick : Tick V)
      → ((n : ℕ) → connects n ≡ true)
      → IsBalanced tick
      → remaining tick.exclude tick.tables.approvals < fuel
      → (end : Tick V) × (run_rounds vault connects now fuel tick ≡ some end)
        × IsBalanced end
        × (claim end.exclude end.tables.approvals ≡ none)
        × (end.totals.checked ≤ tick.totals.checked + remaining tick.exclude tick.tables.approvals)
  unfolding run_rounds
  run_rounds_ends zero tick on balanced enough = absurd (omega (arith, enough))
  run_rounds_ends (suc fuel) tick on balanced enough = elim (round_cases tick) [
    | inl (stop, e) ↦ (tick, rw stop refl, balanced, e, omega arith)
    | inr (inr (off, _)) ↦ absurd (ground (arith, off, on tick.totals.checked))
    | inr (inl (req, next, go)) ↦
        let a = process vault req now tick.tables tick.vault in
        let tick' = after_attempt vault connects now req a tick in
        let fewer = attempt_leaves_fewer tick req next in
        let one = (count_ending-sum a.ending tick.totals balanced.0).1 in
        let (end, ran, b, e, le) =
          run_rounds_ends fuel tick' on (after_attempt-IsBalanced req a tick next.0 balanced)
            (omega (arith, fewer, enough)) in
        (end, rw go ran, b, e, omega (arith, le, fewer, one))
  ]

  -- Where every transaction begins, the fuel suffices. The loop then counts each attempt once, as
  -- executed, failed or skipped; it has attempted no request twice, no more of them than there are, and
  -- left none that it could still claim.
  pub executes_all :
      (t : Tables) (v : V)
      → ((n : ℕ) → connects n ≡ true)
      → (end : Tick V) × (execute_approved_destroys vault connects now t v ≡ some end)
        × IsBalanced end
        × (claim end.exclude end.tables.approvals ≡ none)
        × (end.totals.checked ≤ length t.approvals)
  unfolding execute_approved_destroys
  executes_all t v on =
      let few = length-select-le (is_claimable []) t.approvals in
      let (end, ran, b, e, le) =
        run_rounds_ends (suc (length t.approvals)) (first_tick vault connects now t v) on
          (refl, refl, tt) (omega (arith, few)) in
      (end, ran, b, e, omega (arith, le, few))

  -- Where no transaction begins, no fuel suffices: the loop never ends.
  pub unconnected_spins :
      (fuel : ℕ) (tick : Tick V)
      → ((n : ℕ) → connects n ≡ false)
      → run_rounds vault connects now fuel tick ≡ none
  unfolding run_rounds next_tick claim_and_process_one
  unconnected_spins zero tick off = refl
  unconnected_spins (suc fuel) tick off =
      rw (off tick.totals.checked)
        (unconnected_spins fuel (after_unclaimed vault connects now tick) off)
