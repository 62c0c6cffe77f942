-- ===== src/Prelude/Selections.antt =====
-- What `select`, `all` and `any` say of predicates.
use mathlib.Core.Path.{◌≡◌, refl}
use mathlib.Core.Logic.{◌↔◌, ◌⊎◌, inl, inr}
use mathlib.Core.Bool.{Bool, true, false}
use mathlib.Core.List.{List, [], ◌∷◌}
use native.Mathlib.Omega.{arith}
use arcanium.Prelude.Tests.{Bool-cases}
use arcanium.Prelude.Lists.{select, all, any, AnyOf, AllOf}

module _ {ℓ} {A : Type ℓ} (p : A → Bool) (P : A → Type 0) where
  pub AllOf-select : (xs : List A) → AllOf P (select p xs) ↔ AllOf (λ x. p x ≡ true → P x) xs
  AllOf-select [] = (λ h. h, λ h. h)
  AllOf-select (x ∷ xs) =
      let rest = AllOf-select xs in
      elim (Bool-cases (p x)) [
        | inl e ↦ rw e (λ (h, hs). (λ _. h, rest.0 hs), λ (h, hs). (h refl, rest.1 hs))
        | inr e ↦ rw e (λ hs. (λ f. absurd (cc), rest.0 hs), λ (h, hs). rest.1 hs)
      ]

  chosen :
      (x : A) (xs : List A) → p x ≡ true → AnyOf P (select p (x ∷ xs)) → P x ⊎ AnyOf P (select p xs)
  chosen x xs e = rw e (λ h. h)

  passed_over :
      (x : A) (xs : List A) → p x ≡ false → AnyOf P (select p (x ∷ xs)) → AnyOf P (select p xs)
  passed_over x xs e = rw e (λ h. h)

  pub AnyOf-selected : (xs : List A) → AnyOf P (select p xs) → AnyOf (λ x. (p x ≡ true) × P x) xs
  AnyOf-selected [] h = h
  AnyOf-selected (x ∷ xs) h = elim (Bool-cases (p x)) [
    | inl e ↦ elim (chosen x xs e h) [ inl q ↦ inl (e, q) | inr hs ↦ inr (AnyOf-selected xs hs) ]
    | inr e ↦ inr (AnyOf-selected xs (passed_over x xs e h))
  ]

  pub AnyOf-select : (xs : List A) → AnyOf (λ x. (p x ≡ true) × P x) xs → AnyOf P (select p xs)
  AnyOf-select [] h = h
  AnyOf-select (x ∷ xs) (inl (e, q)) = rw e (inl q)
  AnyOf-select (x ∷ xs) (inr h) = elim (Bool-cases (p x)) [
    | inl e ↦ rw e (inr (AnyOf-select xs h))
    | inr e ↦ rw e (AnyOf-select xs h)
  ]

module _ {ℓ} {A : Type ℓ} (p : A → Bool) where
  pub all-AllOf : (xs : List A) → (all p xs ≡ true) ↔ AllOf (λ x. p x ≡ true) xs
  all-AllOf [] = (λ _. tt, λ _. refl)
  all-AllOf (x ∷ xs) =
      let rest = all-AllOf xs in
      (λ h. (ground arith, rest.0 (ground arith)), λ (h, hs). ground (arith, rest.1 hs))

  pub any-AnyOf : (xs : List A) → (any p xs ≡ true) ↔ AnyOf (λ x. p x ≡ true) xs
  any-AnyOf [] = (λ h. absurd (cc), λ h. absurd h)
  any-AnyOf (x ∷ xs) =
      let rest = any-AnyOf xs in
      (
        λ h. elim (Bool-cases (p x)) [ inl e ↦ inl e | inr e ↦ inr (rest.0 (ground (arith, e))) ],
        λ h. elim h [ inl e ↦ ground arith | inr hs ↦ ground (arith, rest.1 hs) ],
      )

-- Predicates that say the same of each element say the same of a list.
pub AllOf-iff {ℓ} :
    {A : Type ℓ} (P Q : A → Type 0) (xs : List A) → ((x : A) → P x ↔ Q x) → AllOf P xs ↔ AllOf Q xs
AllOf-iff P Q [] h = (λ u. u, λ u. u)
AllOf-iff P Q (x ∷ xs) h =
    let rest = AllOf-iff P Q xs h in
    (λ (a, as_). ((h x).0 a, rest.0 as_), λ (a, as_). ((h x).1 a, rest.1 as_))

pub AllOf-map {ℓ} :
    {A : Type ℓ} (P Q : A → Type 0) (f : (x : A) → P x → Q x) (xs : List A)
    → AllOf P xs
    → AllOf Q xs
AllOf-map P Q f [] h = tt
AllOf-map P Q f (x ∷ xs) (p, ps) = (f x p, AllOf-map P Q f xs ps)
