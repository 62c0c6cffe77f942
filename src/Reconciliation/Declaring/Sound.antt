-- ===== src/Reconciliation/Declaring/Sound.antt =====
-- arcanium/api/src/routes/reconciliation.js with the comparators of reconciliation/diff.js: no route
-- stores a value that its own comparator cannot judge.
use mathlib.Core.Path.{subst}
use arcanium.Prelude.{
  ℕ, ◌<◌, String, ◌≡◌, refl, sym, ◌≢◌, ◌↔◌, ◌⊎◌, inl, inr, true, false, Option, none, some, arith,
  ◌==◌, eq_iff, eq_refl, Bool-cases, includes, includes-AnyOf,
}
use arcanium.Reconciliation.Json.{Json, null, bool, num, text, arr, obj, get_field}
use arcanium.Reconciliation.Diff.{
  deadline_of, is_past, today_of, instant, is_overdue, same_days, is_false, Observed, Comparison,
  finite, truthy_text, compare_rotation_period, compare_expiry_date,
}
use arcanium.Reconciliation.Declaring.{
  member, is_object, requirements, shape_desired_value, not_after_re, is_positive, only, is_date,
  validate_desired_value, matches,
}

-- A positive number of days, or a date by its form.
abbrev pub IsMeasurable : String → Json → Type 0
IsMeasurable requirement v =
    ((requirement ≡ "rotation_period") × ((n : ℕ) × (get_field v "days" ≡ some (num n)) × (0 < n)))
    ⊎ ((requirement ≡ "expiry_date")
        × ((s : String) × (get_field v "not_after" ≡ some (text s))
            × (matches not_after_re s ≡ true)))

finite_positive :
    (v : Option Json) → is_positive (finite v) ≡ true → (n : ℕ) × (v ≡ some (num n)) × (0 < n)
finite_positive none h = absurd (cc)
finite_positive (some null) h = absurd (cc)
finite_positive (some (bool b)) h = absurd (cc)
finite_positive (some (num n)) h = (n, refl, ground arith)
finite_positive (some (text s)) h = absurd (cc)
finite_positive (some (arr a)) h = absurd (cc)
finite_positive (some (obj a)) h = absurd (cc)

is_date_text :
    (v : Option Json)
    → is_date v ≡ true
    → (s : String) × (v ≡ some (text s)) × (matches not_after_re s ≡ true)
is_date_text none h = absurd (cc)
is_date_text (some null) h = absurd (cc)
is_date_text (some (bool b)) h = absurd (cc)
is_date_text (some (num n)) h = absurd (cc)
is_date_text (some (text s)) h = (s, refl, h)
is_date_text (some (arr a)) h = absurd (cc)
is_date_text (some (obj a)) h = absurd (cc)

only_member :
    (key : String) (v : Option Json) (w : Json) → v ≡ some w → get_field (only key v) key ≡ some w
only_member key none w e = absurd (cc)
only_member key (some v) w e = rw (eq_refl key) e

other_is_expiry :
    (r : String)
    → includes requirements r ≡ true
    → (r == "rotation_period") ≡ false
    → r ≡ "expiry_date"
other_is_expiry r h n = elim (includes-AnyOf requirements r h) [
  | inl e ↦
      let t : (r == "rotation_period") ≡ true = (eq_iff r "rotation_period").1 (sym e) in
      absurd (cc)
  | inr m ↦ elim m [ inl e ↦ sym e | inr f ↦ absurd f ]
]

-- What the validation lets pass is stored in a form that can be measured.
pub valid-IsMeasurable :
    (requirement : String) (value : Option Json)
    → validate_desired_value requirement value ≡ none
    → IsMeasurable requirement (shape_desired_value requirement value)
unfolding validate_desired_value shape_desired_value
valid-IsMeasurable requirement value = elim (Bool-cases (includes requirements requirement)) [
  | inr e ↦ rw e (λ h. absurd (cc))
  | inl e ↦ elim (Bool-cases (is_object value)) [
    | inr f ↦ rw (e, f) (λ h. absurd (cc))
    | inl f ↦ elim (Bool-cases (requirement == "rotation_period")) [
      | inl r ↦ elim (Bool-cases (is_positive (finite (member value "days")))) [
        | inr p ↦ rw (e, f, r, p) (λ h. absurd (cc))
        | inl p ↦
            let (n, held, more) = finite_positive (member value "days") p in
            rw (e, f, r, p)
              (λ h. inl (
                (eq_iff requirement "rotation_period").0 r,
                (n, only_member "days" (member value "days") (num n) held, more),
              ))
      ]
      | inr r ↦ elim (Bool-cases (is_date (member value "not_after"))) [
        | inr p ↦ rw (e, f, r, p) (λ h. absurd (cc))
        | inl p ↦
            let (s, held, form) = is_date_text (member value "not_after") p in
            rw (e, f, r, p)
              (λ h. inr (
                other_is_expiry requirement e r,
                (s, only_member "not_after" (member value "not_after") (text s) held, form),
              ))
      ]
    ]
  ]
]

-- The comparator of the requirement answers UNKNOWN exactly for an unknown observation.
abbrev IsJudgedAs : String → Json → (Json → Observed → Comparison) → String → Type 0
IsJudgedAs requirement v compares name =
    (requirement ≡ name)
    × ((seen : Observed) → ((compares v seen).status ≡ "UNKNOWN") ↔ (seen.status ≡ "UNKNOWN"))

abbrev pub IsJudged : (String → Option ℕ) → ℕ → String → Json → Type 0
IsJudged parse_date now requirement v =
    IsJudgedAs requirement v (compare_rotation_period parse_date now) "rotation_period"
    ⊎ IsJudgedAs requirement v (compare_expiry_date parse_date now) "expiry_date"

date_not_empty : (s : String) → matches not_after_re s ≡ true → (s == "") ≡ false
unfolding matches
date_not_empty s h = elim (Bool-cases (s == "")) [
  | inr e ↦ e
  | inl e ↦
      let empty : s ≡ "" = (eq_iff s "").0 e in
      let none_left : matches not_after_re "" ≡ true =
        subst (λ x. matches not_after_re x ≡ true) empty h in
      absurd (cc)
]

known_differs : (s : String) → (s == "UNKNOWN") ≡ false → s ≢ "UNKNOWN"
known_differs s h e = let same : (s == "UNKNOWN") ≡ true = (eq_iff s "UNKNOWN").1 e in absurd (cc)

module _ (parse_date : String → Option ℕ) (now : ℕ) (v : Json) where
  rotation_known :
      (n : ℕ) (seen : Observed)
      → get_field v "days" ≡ some (num n)
      → (seen.status == "UNKNOWN") ≡ false
      → (compare_rotation_period parse_date now v seen).status ≢ "UNKNOWN"
  unfolding compare_rotation_period
  rotation_known n seen held known =
      let created = get_field seen.value "latest_version_creation_time" in
      let age = instant parse_date now (truthy_text created) in
      rw (known, held)
        (elim (Bool-cases (is_false (get_field seen.value "active"))) [
          | inl gone ↦ rw gone (known_differs "COMPLIANT" refl)
          | inr here ↦ elim (Bool-cases (same_days (get_field seen.value "days") n)) [
            | inr other ↦ rw (here, other) (known_differs "DRIFTED" refl)
            | inl same ↦ elim (Bool-cases (is_overdue parse_date now n age)) [
              | inl late ↦ rw (here, same, late) (known_differs "DRIFTED" refl)
              | inr early ↦ rw (here, same, early) (known_differs "COMPLIANT" refl)
            ]
          ]
        ])

  expiry_known :
      (s : String) (seen : Observed)
      → get_field v "not_after" ≡ some (text s)
      → (s == "") ≡ false
      → (seen.status == "UNKNOWN") ≡ false
      → (compare_expiry_date parse_date now v seen).status ≢ "UNKNOWN"
  unfolding compare_expiry_date
  expiry_known s seen held full known =
      let today = today_of parse_date now (get_field seen.value "observed_date") in
      rw (known, held, full)
        (elim (Bool-cases (is_false (get_field seen.value "active"))) [
          | inl gone ↦ rw gone (known_differs "COMPLIANT" refl)
          | inr here ↦
              elim (Bool-cases (is_past parse_date now today (deadline_of parse_date now s))) [
                | inl past ↦ rw (here, past) (known_differs "DRIFTED" refl)
                | inr ahead ↦ rw (here, ahead) (known_differs "COMPLIANT" refl)
              ]
        ])

  -- An unknown observation is passed on.
  rotation_unknown :
      (seen : Observed)
      → (seen.status == "UNKNOWN") ≡ true
      → (compare_rotation_period parse_date now v seen).status ≡ "UNKNOWN"
  unfolding compare_rotation_period
  rotation_unknown seen h = rw h refl

  expiry_unknown :
      (seen : Observed)
      → (seen.status == "UNKNOWN") ≡ true
      → (compare_expiry_date parse_date now v seen).status ≡ "UNKNOWN"
  unfolding compare_expiry_date
  expiry_unknown seen h = rw h refl

-- Two texts that are UNKNOWN together.
unknown_together :
    (a b : String)
    → ((b == "UNKNOWN") ≡ true → a ≡ "UNKNOWN")
    → ((b == "UNKNOWN") ≡ false → a ≢ "UNKNOWN")
    → (a ≡ "UNKNOWN") ↔ (b ≡ "UNKNOWN")
unknown_together a b yes_case no_case = elim (Bool-cases (b == "UNKNOWN")) [
  | inl e ↦ (λ _. (eq_iff b "UNKNOWN").0 e, λ _. yes_case e)
  | inr e ↦ (λ h. absurd (no_case e h), λ h. absurd (known_differs b e h))
]

pub IsMeasurable-IsJudged :
    (parse_date : String → Option ℕ) (now : ℕ) (requirement : String) (v : Json)
    → IsMeasurable requirement v
    → IsJudged parse_date now requirement v
IsMeasurable-IsJudged parse_date now requirement v (inl (r, (n, held, more))) = inl (
  r,
  λ seen.
      unknown_together (compare_rotation_period parse_date now v seen).status seen.status
        (rotation_unknown parse_date now v seen) (rotation_known parse_date now v n seen held),
)
IsMeasurable-IsJudged parse_date now requirement v (inr (r, (s, held, form))) = inr (
  r,
  λ seen.
      unknown_together (compare_expiry_date parse_date now v seen).status seen.status
        (expiry_unknown parse_date now v seen)
        (expiry_known parse_date now v s seen held (date_not_empty s form)),
)
