-- ===== src/Maturity/Levels/Bounds.antt =====
-- arcanium/api/src/maturity/controls.js: the range of the coverage.
use arcanium.Prelude.{
  ℕ, zero, suc, ◌+◌, ◌*◌, ◌≤◌, ◌<◌, ◌≡◌, refl, inl, inr, true, false, List, [], ◌∷◌, arith, leb,
  eqb, if◌then◌else◌, Bool-cases, length, select, length-select-le,
}
use native.Mathlib.Nat.{mul-le-mul_left}
use arcanium.Maturity.Controls.{Assessment, Status, pass, fail, unknown, not_applicable}
use arcanium.Maturity.Rounding.{round_percent, round_percent-near}
use arcanium.Maturity.Levels.{has_status, is_applicable, is_evidenced, compute_coverage}

-- What a row adds to the rows that apply, and to those with a verdict.
abbrev applies : Status → ℕ
applies pass = 1
applies fail = 1
applies unknown = 1
applies not_applicable = 0

abbrev has_verdict : Status → ℕ
has_verdict pass = 1
has_verdict fail = 1
has_verdict unknown = 0
has_verdict not_applicable = 0

abbrev total : (Status → ℕ) → List Assessment → ℕ
total weight [] = 0
total weight (a ∷ rows) = weight a.status + total weight rows

abbrev pub applicable_count : List Assessment → ℕ
applicable_count assessments = total applies assessments

abbrev pub evidenced_count : List Assessment → ℕ
evidenced_count assessments = total has_verdict assessments

count_front :
    (a : Assessment) (rows : List Assessment) (s : Status)
    → a.status ≡ s
    → length (select (has_status is_applicable) rows) ≡ applicable_count rows
    → length (select (has_status is_applicable) (a ∷ rows)) ≡ applicable_count (a ∷ rows)
count_front a rows pass e rest = ground (arith, e, rest)
count_front a rows fail e rest = ground (arith, e, rest)
count_front a rows unknown e rest = ground (arith, e, rest)
count_front a rows not_applicable e rest = ground (arith, e, rest)

verdict_front :
    (a : Assessment) (rows : List Assessment) (s : Status)
    → a.status ≡ s
    → length (select (has_status is_evidenced) (select (has_status is_applicable) rows))
      ≡ evidenced_count rows
    → length (select (has_status is_evidenced) (select (has_status is_applicable) (a ∷ rows)))
      ≡ evidenced_count (a ∷ rows)
verdict_front a rows pass e rest = ground (arith, e, rest)
verdict_front a rows fail e rest = ground (arith, e, rest)
verdict_front a rows unknown e rest = ground (arith, e, rest)
verdict_front a rows not_applicable e rest = ground (arith, e, rest)

-- The code's filters count the same rows.
count_applicable :
    (rows : List Assessment)
    → length (select (has_status is_applicable) rows) ≡ applicable_count rows
count_applicable [] = refl
count_applicable (a ∷ rows) = count_front a rows a.status refl (count_applicable rows)

count_evidenced :
    (rows : List Assessment)
    → length (select (has_status is_evidenced) (select (has_status is_applicable) rows))
      ≡ evidenced_count rows
count_evidenced [] = refl
count_evidenced (a ∷ rows) = verdict_front a rows a.status refl (count_evidenced rows)

above_100 : (p : ℕ) → leb p 100 ≡ false → 101 ≤ p
above_100 p h = ground arith

above_0 : (p : ℕ) → leb p 0 ≡ false → 1 ≤ p
above_0 p h = ground arith

below_100 : (p : ℕ) → leb 100 p ≡ false → p ≤ 99
below_100 p h = ground arith

reaches_100 : (p : ℕ) → leb 100 p ≡ true → 100 ≤ p
reaches_100 p h = ground arith

-- A nearest percentage of a part of a whole.
module _ (w e p : ℕ) (pos : 1 ≤ w) (part : e ≤ w) (up : 2 * (w * p) ≤ 200 * e + w)
    (down : 200 * e ≤ 2 * (w * p) + w) where
  at_most_100 : p ≤ 100
  at_most_100 = elim (Bool-cases (leb p 100)) [
    | inl h ↦ ground arith
    | inr h ↦ absurd (omega (arith, mul-le-mul_left w (above_100 p h)))
  ]

  zero_at_zero : e ≡ 0 → p ≡ 0
  zero_at_zero none_found = elim (Bool-cases (leb p 0)) [
    | inl h ↦ ground arith
    | inr h ↦ absurd (omega (arith, mul-le-mul_left w (above_0 p h)))
  ]

  full_at_whole : e ≡ w → p ≡ 100
  full_at_whole all_found = elim (Bool-cases (leb 100 p)) [
    | inl h ↦ omega (arith, at_most_100, reaches_100 p h)
    | inr h ↦ absurd (omega (arith, mul-le-mul_left w (below_100 p h)))
  ]

-- A number is 0 where no row applies, and else the share of the evidenced rows in per cent, within a
-- half.
abbrev pub IsShare : ℕ → ℕ → ℕ → Type 0
IsShare evidenced applicable p =
    (p ≤ 100)
    × (applicable ≡ 0 → p ≡ 0)
    × (1 ≤ applicable
        → (2 * (applicable * p) ≤ 200 * evidenced + applicable)
          × (200 * evidenced ≤ 2 * (applicable * p) + applicable))
    × (evidenced ≡ 0 → p ≡ 0)
    × (1 ≤ applicable → evidenced ≡ applicable → p ≡ 100)

IsShare-at :
    (e w : ℕ) → e ≤ w → w < 17592186044416 → IsShare e w (if eqb w 0 then 0 else round_percent e w)
IsShare-at e zero part bound = (
  omega arith,
  λ _. refl,
  λ h. absurd (omega (arith, h)),
  λ _. refl,
  λ h _. absurd (omega (arith, h)),
)
IsShare-at e (suc n) part bound =
    let w = suc n in
    let pos : 1 ≤ w = omega arith in
    let (up, down) = round_percent-near e w pos bound in
    let some_apply : eqb (suc n) 0 ≡ false = ground arith in
    rw some_apply (
      at_most_100 w e (round_percent e w) pos part up down,
      λ h. absurd (omega (arith, h)),
      λ _. (up, down),
      zero_at_zero w e (round_percent e w) pos part up down,
      λ _. full_at_whole w e (round_percent e w) pos part up down,
    )

-- Let fewer than 2 ^ 44 rows have a status that is not N/A. Of these rows, those with PASS or FAIL are
-- evidenced. The coverage is 0 where no row applies, and else the share of the evidenced rows in per
-- cent, within a half, though it is computed in floating point: at most 100, 0 if no row is evidenced,
-- 100 if each row that applies is.
pub coverage_bounds :
    (assessments : List Assessment)
    → applicable_count assessments < 17592186044416
    → IsShare
        (evidenced_count assessments)
        (applicable_count assessments)
        (compute_coverage assessments)
unfolding compute_coverage
coverage_bounds assessments bound =
    let applicable = select (has_status is_applicable) assessments in
    let evidenced = select (has_status is_evidenced) applicable in
    let part = length-select-le (has_status is_evidenced) applicable in
    let few : length applicable < 17592186044416 = rw (count_applicable assessments) bound in
    rw (← count_applicable assessments, ← count_evidenced assessments)
      (IsShare-at (length evidenced) (length applicable) part few)
