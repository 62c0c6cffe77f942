-- ===== src/Prelude/Lists.antt =====
-- Lists measured by native numbers, and the array methods that the program calls.
use Prim.Native.Nat.{ℕ, suc, ◌+◌, ◌≤◌}
use Prim.Native.String.{String}
use mathlib.Core.Path.{◌≡◌}
use mathlib.Core.Logic.{◌⊎◌, inl, inr}
use mathlib.Core.Bool.{Bool, true, false, ◌||◌, ◌&&◌}
use mathlib.Core.Option.{Option, none, some}
use mathlib.Core.List.{List, [], ◌∷◌, ◌++◌}
use native.Mathlib.Omega.{arith}
use text.Mathlib.Text.{◌==◌}
use text.Mathlib.TextEquality.{eq_iff}
use arcanium.Prelude.Tests.{if◌then◌else◌}

module _ {ℓ} {A : Type ℓ} where
  abbrev pub length : List A → ℕ
  length [] = 0
  length (x ∷ xs) = suc (length xs)

  -- `xs.filter(p)`
  abbrev pub select : (A → Bool) → List A → List A
  select p [] = []
  select p (x ∷ xs) = let rest = select p xs in if p x then x ∷ rest else rest

  -- `xs.some(p)` and `xs.every(p)`
  abbrev pub any : (A → Bool) → List A → Bool
  any p [] = false
  any p (x ∷ xs) = p x || any p xs

  abbrev pub all : (A → Bool) → List A → Bool
  all p [] = true
  all p (x ∷ xs) = p x && all p xs

  -- `xs[0]`
  abbrev pub first? : List A → Option A
  first? [] = none
  first? (x ∷ xs) = some x

  -- `xs.at(-1)`
  abbrev pub last? : List A → Option A
  last? [] = none
  last? (x ∷ []) = some x
  last? (x ∷ y ∷ xs) = last? (y ∷ xs)

  pub length-append : (xs ys : List A) → length (xs ++ ys) ≡ length xs + length ys
  length-append [] ys = omega arith
  length-append (x ∷ xs) ys = omega (arith, length-append xs ys)

  pub length-select-le : (p : A → Bool) (xs : List A) → length (select p xs) ≤ length xs
  length-select-le p [] = omega arith
  length-select-le p (x ∷ xs) = ground (arith, length-select-le p xs)

-- `xs.includes(x)`
abbrev pub includes : List String → String → Bool
includes [] y = false
includes (x ∷ xs) y = x == y || includes xs y

-- A predicate holds of some element, or of every element.
abbrev pub AnyOf {ℓ} : {A : Type ℓ} → (A → Type 0) → List A → Type 0
AnyOf P [] = ⊥
AnyOf P (x ∷ xs) = P x ⊎ AnyOf P xs

abbrev pub AllOf {ℓ} : {A : Type ℓ} → (A → Type 0) → List A → Type 0
AllOf P [] = Unit
AllOf P (x ∷ xs) = P x × AllOf P xs

pub includes-AnyOf : (xs : List String) (y : String) → includes xs y ≡ true → AnyOf (λ x. x ≡ y) xs
includes-AnyOf [] y h = absurd (cc)
includes-AnyOf (x ∷ xs) y h = ground (arith, eq_iff x y, includes-AnyOf xs y)

pub AnyOf-includes : (xs : List String) (y : String) → AnyOf (λ x. x ≡ y) xs → includes xs y ≡ true
AnyOf-includes [] y h = absurd h
AnyOf-includes (x ∷ xs) y (inl e) = ground (arith, eq_iff x y)
AnyOf-includes (x ∷ xs) y (inr h) = ground (arith, AnyOf-includes xs y h)

pub AnyOf-map {ℓ} :
    {A : Type ℓ} (P Q : A → Type 0) (f : (x : A) → P x → Q x) (xs : List A)
    → AnyOf P xs
    → AnyOf Q xs
AnyOf-map P Q f [] h = absurd h
AnyOf-map P Q f (x ∷ xs) (inl p) = inl (f x p)
AnyOf-map P Q f (x ∷ xs) (inr q) = inr (AnyOf-map P Q f xs q)

-- What holds of every element helps to move from one predicate to another.
pub AnyOf-map_all {ℓ} :
    {A : Type ℓ} (P R Q : A → Type 0) (f : (x : A) → R x → P x → Q x) (xs : List A)
    → AllOf R xs
    → AnyOf P xs
    → AnyOf Q xs
AnyOf-map_all P R Q f [] r h = absurd h
AnyOf-map_all P R Q f (x ∷ xs) r (inl p) = inl (f x r.0 p)
AnyOf-map_all P R Q f (x ∷ xs) r (inr q) = inr (AnyOf-map_all P R Q f xs r.1 q)

-- A fact that any such element gives.
pub AnyOf-elim {ℓ} :
    {A : Type ℓ} (P R : A → Type 0) (C : Type 0) (f : (x : A) → R x → P x → C) (xs : List A)
    → AllOf R xs
    → AnyOf P xs
    → C
AnyOf-elim P R C f [] r h = absurd h
AnyOf-elim P R C f (x ∷ xs) r (inl p) = f x r.0 p
AnyOf-elim P R C f (x ∷ xs) r (inr q) = AnyOf-elim P R C f xs r.1 q

-- A test that passes on a whole list of texts passes on each of its members.
pub all-includes :
    (p : String → Bool) (xs : List String) (y : String)
    → all p xs ≡ true
    → includes xs y ≡ true
    → p y ≡ true
all-includes p [] y h m = absurd (cc)
all-includes p (x ∷ xs) y h m = elim (includes-AnyOf (x ∷ xs) y m) [
  | inl e ↦ rw (← e) (ground arith)
  | inr q ↦ all-includes p xs y (ground arith) (AnyOf-includes xs y q)
]

-- Two Booleans are the same.
abbrev pub agree : Bool → Bool → Bool
agree true b = b
agree false true = false
agree false false = true
