-- ===== src/Prelude/Loops.antt =====
-- A loop over a list that may return from its body: `none` means that the round goes on.
use mathlib.Core.Path.{◌≡◌}
use mathlib.Core.Logic.{inl, inr}
use mathlib.Core.Bool.{true}
use mathlib.Core.Option.{Option, none, some}
use mathlib.Core.List.{List, [], ◌∷◌}
use native.Mathlib.Omega.{arith}
use arcanium.Prelude.Tests.{is_some, Option-cases}
use arcanium.Prelude.Lists.{AnyOf}

infixr 30 ◌<|>◌
abbrev pub ◌<|>◌ {ℓ} : {A : Type ℓ} → Option A → Option A → Option A
none <|> b = b
some a <|> b = some a

module _ {ℓ κ} {A : Type ℓ} {B : Type κ} where
  abbrev pub first_match : (A → Option B) → List A → Option B
  first_match f [] = none
  first_match f (x ∷ xs) = f x <|> first_match f xs

-- The loop returns just when one of its rounds does.
module _ {ℓ κ} {A : Type ℓ} {B : Type κ} (f : A → Option B) (P : A → Type 0) where
  pub first_match-AnyOf :
      ((x : A) → is_some (f x) ≡ true → P x)
      → (xs : List A) → is_some (first_match f xs) ≡ true
      → AnyOf P xs
  first_match-AnyOf sound [] h = absurd (cc)
  first_match-AnyOf sound (x ∷ xs) h = elim (Option-cases (f x)) [
    | inl e ↦ inr (first_match-AnyOf sound xs (ground arith))
    | inr (c, e) ↦ inl (sound x (ground arith))
  ]

  pub AnyOf-first_match :
      ((x : A) → P x → is_some (f x) ≡ true)
      → (xs : List A) → AnyOf P xs
      → is_some (first_match f xs) ≡ true
  AnyOf-first_match complete [] h = absurd h
  AnyOf-first_match complete (x ∷ xs) (inl p) = ground (arith, complete x p)
  AnyOf-first_match complete (x ∷ xs) (inr q) = ground (arith, AnyOf-first_match complete xs q)

module _ {ℓ κ} {A : Type ℓ} {B : Type κ} (f : A → Option B) (Q : B → Type 0) where
  -- What holds of every result of a round holds of the loop's.
  pub first_match-result :
      ((x : A) (b : B) → f x ≡ some b → Q b)
      → (xs : List A) (b : B) → first_match f xs ≡ some b
      → Q b
  first_match-result each [] b h = absurd (cc)
  first_match-result each (x ∷ xs) b h = elim (Option-cases (f x)) [
    | inl e ↦ first_match-result each xs b (ground arith)
    | inr (c, e) ↦ each x b (ground arith)
  ]
