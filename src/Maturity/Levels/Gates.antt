-- ===== src/Maturity/Levels/Gates.antt =====
-- arcanium/api/src/maturity/controls.js: what the gated level and the reason of its cap say.
use arcanium.Prelude.{
  ℕ, zero, suc, ◌≤◌, ◌<◌, String, ◌≡◌, refl, ◌↔◌, ◌⊎◌, inl, inr, Bool, true, none, some, List, [],
  ◌∷◌, map, arith, ltb, if◌then◌else◌, Bool-cases, or_default, length, select, all,
}
use arcanium.Maturity.Controls.{Status, unknown}
use arcanium.Maturity.Levels.{
  Rollup, passes, mandatory_controls, gated_from, gated_level, level_cap_reason, is_blocking,
  next_level, status_of,
}

-- The mandatory controls of a level are mandatory above it too.
nested_2 :
    (p : String → Bool) → all p (mandatory_controls 2) ≡ true → all p (mandatory_controls 1) ≡ true
nested_2 p h = ground arith

nested_3 :
    (p : String → Bool) → all p (mandatory_controls 3) ≡ true → all p (mandatory_controls 2) ≡ true
nested_3 p h = ground arith

nested_4 :
    (p : String → Bool) → all p (mandatory_controls 4) ≡ true → all p (mandatory_controls 3) ≡ true
nested_4 p h = ground arith

nested_5 :
    (p : String → Bool) → all p (mandatory_controls 5) ≡ true → all p (mandatory_controls 4) ≡ true
nested_5 p h = ground arith

-- The highest of five tests that holds, where each test implies the one below it.
abbrev highest : Bool → Bool → Bool → Bool → Bool → ℕ
highest b₁ b₂ b₃ b₄ b₅ =
    if b₅ then 5 else if b₄ then 4 else if b₃ then 3 else if b₂ then 2 else if b₁ then 1 else 0

gated_level-highest :
    (r : Rollup)
    → gated_level r
      ≡ highest
          (all (passes r) (mandatory_controls 1))
          (all (passes r) (mandatory_controls 2))
          (all (passes r) (mandatory_controls 3))
          (all (passes r) (mandatory_controls 4))
          (all (passes r) (mandatory_controls 5))
unfolding gated_level gated_from
gated_level-highest r = refl

-- One test decides whether its number is reached.
module _ (b₁ b₂ b₃ b₄ b₅ : Bool) (h₂ : b₂ ≡ true → b₁ ≡ true) (h₃ : b₃ ≡ true → b₂ ≡ true)
    (h₄ : b₄ ≡ true → b₃ ≡ true) (h₅ : b₅ ≡ true → b₄ ≡ true) where
  highest_1 : (1 ≤ highest b₁ b₂ b₃ b₄ b₅) ↔ (b₁ ≡ true)
  highest_1 = (λ h. ground arith, λ h. ground arith)

  highest_2 : (2 ≤ highest b₁ b₂ b₃ b₄ b₅) ↔ (b₂ ≡ true)
  highest_2 = (λ h. ground arith, λ h. ground arith)

  highest_3 : (3 ≤ highest b₁ b₂ b₃ b₄ b₅) ↔ (b₃ ≡ true)
  highest_3 = (λ h. ground arith, λ h. ground arith)

  highest_4 : (4 ≤ highest b₁ b₂ b₃ b₄ b₅) ↔ (b₄ ≡ true)
  highest_4 = (λ h. ground arith, λ h. ground arith)

  highest_5 : (5 ≤ highest b₁ b₂ b₃ b₄ b₅) ↔ (b₅ ≡ true)
  highest_5 = (λ h. ground arith, λ h. ground arith)

  highest_le : highest b₁ b₂ b₃ b₄ b₅ ≤ 5
  highest_le = ground arith

pub gated_level-le : (r : Rollup) → gated_level r ≤ 5
gated_level-le r = rw (gated_level-highest r) (
    highest_le (all (passes r) (mandatory_controls 1)) (all (passes r) (mandatory_controls 2))
      (all (passes r) (mandatory_controls 3)) (all (passes r) (mandatory_controls 4))
      (all (passes r) (mandatory_controls 5)) (nested_2 (passes r)) (nested_3 (passes r))
      (nested_4 (passes r)) (nested_5 (passes r)))

module _ (r : Rollup) where
  -- The five tests are those of the mandatory controls.
  abbrev Reaches : ℕ → Type 0
  Reaches n = (n ≤ gated_level r) ↔ (all (passes r) (mandatory_controls n) ≡ true)

  Reaches-each : Reaches 1 × Reaches 2 × Reaches 3 × Reaches 4 × Reaches 5
  Reaches-each =
      let p = passes r in
      let t₁ = all p (mandatory_controls 1) in
      let t₂ = all p (mandatory_controls 2) in
      let t₃ = all p (mandatory_controls 3) in
      let t₄ = all p (mandatory_controls 4) in
      let t₅ = all p (mandatory_controls 5) in
      let n₂ = nested_2 p in
      let n₃ = nested_3 p in
      let n₄ = nested_4 p in
      let n₅ = nested_5 p in
      rw (gated_level-highest r) (
        highest_1 t₁ t₂ t₃ t₄ t₅ n₂ n₃ n₄ n₅,
        highest_2 t₁ t₂ t₃ t₄ t₅ n₂ n₃ n₄ n₅,
        highest_3 t₁ t₂ t₃ t₄ t₅ n₂ n₃ n₄ n₅,
        highest_4 t₁ t₂ t₃ t₄ t₅ n₂ n₃ n₄ n₅,
        highest_5 t₁ t₂ t₃ t₄ t₅ n₂ n₃ n₄ n₅,
      )

  pub gated_level_exact :
      (n : ℕ) → 1 ≤ n → n ≤ 5 → (n ≤ gated_level r) ↔ (all (passes r) (mandatory_controls n) ≡ true)
  gated_level_exact zero l u = absurd (omega arith)
  gated_level_exact (suc zero) l u = Reaches-each.0
  gated_level_exact (suc (suc zero)) l u = Reaches-each.1
  gated_level_exact (suc (suc (suc zero))) l u = Reaches-each.2
  gated_level_exact (suc (suc (suc (suc zero)))) l u = Reaches-each.3
  gated_level_exact (suc (suc (suc (suc (suc zero))))) l u = Reaches-each.4
  gated_level_exact (suc (suc (suc (suc (suc (suc n)))))) l u = absurd (omega arith)

blocking-none :
    (r : Rollup) (ids : List String)
    → length (select (is_blocking r) ids) ≡ 0
    → all (passes r) ids ≡ true
blocking-none r [] h = refl
blocking-none r (id ∷ ids) h = elim (Bool-cases (passes r id)) [
  | inl e ↦ rw e (blocking-none r ids (ground (arith, e)))
  | inr e ↦ absurd (ground (arith, e))
]

length_cases {ℓ} : {A : Type ℓ} (xs : List A) → (length xs ≡ 0) ⊎ (1 ≤ length xs)
length_cases [] = inl refl
length_cases (x ∷ xs) = inr (omega arith)

abbrev blocking_of : Rollup → List String
blocking_of r = select (is_blocking r) (mandatory_controls (suc (gated_level r)))

abbrev named : Rollup → String → String × Status
named r id = (id, or_default (status_of r id) unknown)

blocking_some : (r : Rollup) → gated_level r < 5 → 1 ≤ length (blocking_of r)
blocking_some r lt = elim (length_cases (blocking_of r)) [
  | inl none_left ↦
      let reached =
        (gated_level_exact r (suc (gated_level r)) (omega arith) (omega arith)).1
          (blocking-none r (mandatory_controls (suc (gated_level r))) none_left) in
      absurd (omega (arith, reached))
  | inr more ↦ more
]

next_below : (n : ℕ) → n < 5 → next_level n ≡ suc n
next_below n lt = ground arith

capped :
    (r : Rollup)
    → gated_level r < 5
    → level_cap_reason r (gated_level r) ≡ some (map (named r) (blocking_of r))
unfolding level_cap_reason
capped r lt = let blocked = blocking_some r lt in rw (next_below (gated_level r) lt) (ground arith)

full_level : (r : Rollup) → 5 ≤ gated_level r → gated_level r ≡ 5
full_level r ge = omega (arith, gated_level-le r)

-- What the reason of the gated level says: nothing at level 5; below it, the mandatory controls of
-- the next level that do not pass, with their statuses, and there is one.
abbrev pub IsExplained : Rollup → Type 0
IsExplained r =
    ((gated_level r ≡ 5) × (level_cap_reason r (gated_level r) ≡ none))
    ⊎ ((gated_level r < 5)
        × (level_cap_reason r (gated_level r) ≡ some (map (named r) (blocking_of r)))
        × (1 ≤ length (blocking_of r)))

-- A level below 5 has a reason, which names just the mandatory controls of the next level that do
-- not pass, at least one of them, with their statuses; level 5 has none.
pub cap_reason_exact : (r : Rollup) → IsExplained r
unfolding level_cap_reason
cap_reason_exact r = elim (Bool-cases (ltb (gated_level r) 5)) [
  | inl lt ↦ inr (ground arith, capped r (ground arith), blocking_some r (ground arith))
  | inr ge ↦ let five = full_level r (ground arith) in inl (five, rw five refl)
]
