-- ===== src/Reconciliation/Diff/Sound.antt =====
-- arcanium/api/src/reconciliation/diff.js: what holds of every verdict of the comparators.
use arcanium.Prelude.{
  ℕ, String, ◌≡◌, refl, Bool, true, false, not, Option, none, some, ◌==◌, if◌then◌else◌, includes,
}
use arcanium.Domain.StateMachines.Paths.{observation_statuses}
use arcanium.Reconciliation.Json.{Json, deep_equal, get_field}
use arcanium.Reconciliation.Diff.{
  Observed, Detail, Comparison, plain, drifted, no_detail, observed_detail, missing_days,
  missing_not_after, compare, compare_rotation_period, compare_expiry_date, finite, is_false,
  truthy_text, rotation_for, expiry_for, same_days, is_overdue,
}

abbrev pub IsKnown : String → Type 0
IsKnown status = includes observation_statuses status ≡ true

-- A known status, and the expiry flag on compliance only.
abbrev pub IsSound : Comparison → Type 0
IsSound result =
    IsKnown result.status × (result.approaching_expiry ≡ true → result.status ≡ "COMPLIANT")

if-IsSound : (b : Bool) (x y : Comparison) → IsSound x → IsSound y → IsSound (if b then x else y)
if-IsSound true x y h k = h
if-IsSound false x y h k = k

plain-IsSound : (status : String) (note : Detail) → IsKnown status → IsSound (plain status note)
plain-IsSound status note h = (h, λ e. absurd (cc))

drifted-IsSound : (a b : Json) (note : Detail) → IsSound (drifted a b note)
drifted-IsSound a b note = (refl, λ e. absurd (cc))

pub compare-IsSound : (desired : Json) (observed : Observed) → IsSound (compare desired observed)
unfolding compare
compare-IsSound desired observed =
    if-IsSound (observed.status == "UNKNOWN") _ _
      (plain-IsSound "UNKNOWN" (observed_detail observed.detail) refl)
      (if-IsSound (deep_equal desired observed.value) _ _ (plain-IsSound "COMPLIANT" no_detail refl)
        (drifted-IsSound desired observed.value no_detail))

module _ (parse_date : String → Option ℕ) (now : ℕ) where
  rotation_for-IsSound :
      (desired value : Json) (days : Option ℕ)
      → IsSound (rotation_for parse_date now desired value days)
  rotation_for-IsSound desired value none = plain-IsSound "UNKNOWN" missing_days refl
  rotation_for-IsSound desired value (some days) =
      if-IsSound (is_false (get_field value "active")) _ _
        (plain-IsSound "COMPLIANT" no_detail refl)
        (if-IsSound (not (same_days (get_field value "days") days)) _ _ (refl, λ e. absurd (cc))
          (if-IsSound (is_overdue parse_date now days _) _ _ (refl, λ e. absurd (cc))
            (plain-IsSound "COMPLIANT" no_detail refl)))

  pub rotation-IsSound :
      (desired : Json) (observed : Observed)
      → IsSound (compare_rotation_period parse_date now desired observed)
  unfolding compare_rotation_period
  rotation-IsSound desired observed =
      if-IsSound (observed.status == "UNKNOWN") _ _
        (plain-IsSound "UNKNOWN" (observed_detail observed.detail) refl)
        (rotation_for-IsSound desired observed.value (finite (get_field desired "days")))

  expiry_for-IsSound :
      (desired value : Json) (not_after : Option String)
      → IsSound (expiry_for parse_date now desired value not_after)
  expiry_for-IsSound desired value none = plain-IsSound "UNKNOWN" missing_not_after refl
  expiry_for-IsSound desired value (some not_after) =
      if-IsSound (is_false (get_field value "active")) _ _
        (plain-IsSound "COMPLIANT" no_detail refl)
        (if-IsSound _ _ _ (drifted-IsSound desired value no_detail) (refl, λ e. refl))

  pub expiry-IsSound :
      (desired : Json) (observed : Observed)
      → IsSound (compare_expiry_date parse_date now desired observed)
  unfolding compare_expiry_date
  expiry-IsSound desired observed =
      if-IsSound (observed.status == "UNKNOWN") _ _
        (plain-IsSound "UNKNOWN" (observed_detail observed.detail) refl)
        (expiry_for-IsSound desired observed.value (truthy_text (get_field desired "not_after")))
