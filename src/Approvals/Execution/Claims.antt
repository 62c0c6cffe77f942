-- ===== src/Approvals/Execution/Claims.antt =====
-- arcanium/api/src/approval-execution.js: which request a claim takes, and what an update leaves.
use mathlib.Core.Path.{subst}
use arcanium.Prelude.{
  ℕ, ◌≤◌, ◌<◌, ◌≡◌, refl, sym, ap, ◌∙◌, inl, inr, true, false, Option, none, some, List, [], ◌∷◌,
  arith, leb, eqb, Bool-cases, length, select, AnyOf, AllOf,
}
use arcanium.Approvals.Execution.{
  Approval, is_claimable, earlier, claim_among, claim, mark_executed,
}

abbrev pub Holds : List Approval → Approval → Type 0
Holds approvals a = AnyOf (λ x. x ≡ a) approvals

abbrev pub WaitsNoLess : List ℕ → Approval → Approval → Type 0
WaitsNoLess exclude a x = is_claimable exclude x ≡ true → a.updated_at ≤ x.updated_at

-- What a claim of one of the requests promises of it.
abbrev pub IsNext : List ℕ → List Approval → Approval → Type 0
IsNext exclude approvals a =
    (is_claimable exclude a ≡ true) × Holds approvals a × AllOf (WaitsNoLess exclude a) approvals

abbrev pub Claims : List ℕ → List Approval → Option Approval → Type 0
Claims exclude approvals none = AllOf (λ x. is_claimable exclude x ≡ false) approvals
Claims exclude approvals (some a) = IsNext exclude approvals a

WaitsNoLess-trans :
    (exclude : List ℕ) (a b : Approval) (xs : List Approval)
    → a.updated_at ≤ b.updated_at
    → AllOf (WaitsNoLess exclude b) xs
    → AllOf (WaitsNoLess exclude a) xs
WaitsNoLess-trans exclude a b [] h k = tt
WaitsNoLess-trans exclude a b (x ∷ xs) h (k, ks) =
    (λ c. omega (arith, k c), WaitsNoLess-trans exclude a b xs h ks)

WaitsNoLess-vacuous :
    (exclude : List ℕ) (a : Approval) (xs : List Approval)
    → AllOf (λ x. is_claimable exclude x ≡ false) xs
    → AllOf (WaitsNoLess exclude a) xs
WaitsNoLess-vacuous exclude a [] h = tt
WaitsNoLess-vacuous exclude a (x ∷ xs) (h, hs) =
    (λ c. absurd (cc), WaitsNoLess-vacuous exclude a xs hs)

earlier-first : (a b : Approval) → leb a.updated_at b.updated_at ≡ true → earlier a (some b) ≡ a
earlier-first a b h = rw h refl

earlier-later : (a b : Approval) → leb a.updated_at b.updated_at ≡ false → earlier a (some b) ≡ b
earlier-later a b h = rw h refl

Claims-cons :
    (exclude : List ℕ) (x : Approval) (xs : List Approval) (best : Option Approval)
    → Claims exclude xs best
    → Claims exclude (x ∷ xs) (claim_among exclude x best)
Claims-cons exclude x xs none h = elim (Bool-cases (is_claimable exclude x)) [
  | inl c ↦ rw c (c, inl refl, (λ _. omega arith, WaitsNoLess-vacuous exclude x xs h))
  | inr c ↦ rw c (c, h)
]
Claims-cons exclude x xs (some b) (p, q, r) = elim (Bool-cases (is_claimable exclude x)) [
  | inr c ↦ rw c (p, inr q, (λ d. absurd (cc), r))
  | inl c ↦ rw c (elim (Bool-cases (leb x.updated_at b.updated_at)) [
    | inl first ↦ subst (IsNext exclude (x ∷ xs)) (sym (earlier-first x b first)) (
      c,
      inl refl,
      (λ _. omega arith, WaitsNoLess-trans exclude x b xs (ground (arith, first)) r),
    )
    | inr later ↦
        subst (IsNext exclude (x ∷ xs)) (sym (earlier-later x b later))
          (p, inr q, (λ _. ground (arith, later), r))
  ])
]

-- A claim takes, of the approved revocations that are neither executed nor excluded, one that was
-- updated first; it takes none exactly where there is none.
pub claim-Claims :
    (exclude : List ℕ) (approvals : List Approval)
    → Claims exclude approvals (claim exclude approvals)
unfolding claim
claim-Claims exclude [] = tt
claim-Claims exclude (x ∷ xs) =
    Claims-cons exclude x xs (claim exclude xs) (claim-Claims exclude xs)

-- How many requests may still be claimed.
abbrev pub remaining : List ℕ → List Approval → ℕ
remaining exclude approvals = length (select (is_claimable exclude) approvals)

claimable-excluded :
    (id : ℕ) (exclude : List ℕ) (x : Approval)
    → is_claimable (id ∷ exclude) x ≡ true
    → is_claimable exclude x ≡ true
claimable-excluded id exclude x h = ground (arith, h)

pub remaining-excluded-le :
    (id : ℕ) (exclude : List ℕ) (xs : List Approval)
    → remaining (id ∷ exclude) xs ≤ remaining exclude xs
remaining-excluded-le id exclude [] = omega arith
remaining-excluded-le id exclude (x ∷ xs) =
    let rest = remaining-excluded-le id exclude xs in
    let narrower = claimable-excluded id exclude x in
    elim (Bool-cases (is_claimable (id ∷ exclude) x)) [
      | inl d ↦ rw (d, narrower d) (omega (arith, rest))
      | inr d ↦ rw d (elim (Bool-cases (is_claimable exclude x)) [
        | inl c ↦ rw c (omega (arith, rest))
        | inr c ↦ rw c rest
      ])
    ]

-- Excluding a request that could be claimed leaves fewer.
pub remaining-excluded-lt :
    (a : Approval) (exclude : List ℕ) (xs : List Approval)
    → is_claimable exclude a ≡ true
    → Holds xs a
    → remaining (a.id ∷ exclude) xs < remaining exclude xs
remaining-excluded-lt a exclude [] c h = absurd h
remaining-excluded-lt a exclude (x ∷ xs) c (inl e) =
    let rest = remaining-excluded-le a.id exclude xs in
    let now_out : is_claimable (a.id ∷ exclude) a ≡ false = ground (arith, c) in
    let gone : is_claimable (a.id ∷ exclude) x ≡ false =
      ap (λ y. is_claimable (a.id ∷ exclude) y) e ∙ now_out in
    let was : is_claimable exclude x ≡ true = ap (λ y. is_claimable exclude y) e ∙ c in
    rw (gone, was) (omega (arith, rest))
remaining-excluded-lt a exclude (x ∷ xs) c (inr h) =
    let rest = remaining-excluded-lt a exclude xs c h in
    let narrower = claimable-excluded a.id exclude x in
    elim (Bool-cases (is_claimable (a.id ∷ exclude) x)) [
      | inl d ↦ rw (d, narrower d) (omega (arith, rest))
      | inr d ↦ rw d (elim (Bool-cases (is_claimable exclude x)) [
        | inl e ↦ rw e (omega (arith, rest))
        | inr e ↦ rw e rest
      ])
    ]

none_not_some : (now : ℕ) → none ≡ some now → ⊥
none_not_some now e = absurd (cc)

-- An update of a request leaves no more.
pub remaining-executed-le :
    (id now : ℕ) (exclude : List ℕ) (xs : List Approval)
    → remaining exclude (mark_executed id now xs) ≤ remaining exclude xs
unfolding mark_executed
remaining-executed-le id now exclude [] = omega arith
remaining-executed-le id now exclude (x ∷ xs) =
    let rest = remaining-executed-le id now exclude xs in
    elim (Bool-cases (eqb x.id id)) [
      | inr other ↦ rw other (elim (Bool-cases (is_claimable exclude x)) [
        | inl c ↦ rw c (omega (arith, rest))
        | inr c ↦ rw c rest
      ])
      | inl same ↦ rw same (
          let out : is_claimable exclude (record x { executed_at = some now }) ≡ false =
            ground arith in
          rw out (elim (Bool-cases (is_claimable exclude x)) [
            | inl c ↦ rw c (omega (arith, rest))
            | inr c ↦ rw c rest
          ]))
    ]

-- A request that is not executed after an update was there before it.
pub unexecuted-Holds :
    (id now : ℕ) (xs : List Approval) (a : Approval)
    → Holds (mark_executed id now xs) a
    → a.executed_at ≡ none
    → Holds xs a
unfolding mark_executed
unexecuted-Holds id now [] a h e = h
unexecuted-Holds id now (x ∷ xs) a h e = elim (Bool-cases (eqb x.id id)) [
  | inl same ↦ elim (rw same at h) [
    | inl p ↦ absurd (none_not_some now (sym e ∙ ap (λ y. y.executed_at) (sym p)))
    | inr q ↦ inr (unexecuted-Holds id now xs a q e)
  ]
  | inr other ↦ elim (rw other at h) [
    | inl p ↦ inl p
    | inr q ↦ inr (unexecuted-Holds id now xs a q e)
  ]
]
