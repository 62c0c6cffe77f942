-- ===== src/Reconciliation/Diff.antt =====
-- arcanium/api/src/reconciliation/diff.js: the three comparators. Times are milliseconds; the
-- runtime's parser of dates is an argument, `none` for an invalid date.
pub mod Verdicts
pub mod Sound
use Prim.Native.String
use arcanium.Prelude.{
  ℕ, zero, suc, ◌+◌, ◌-◌, ◌*◌, ◌/◌, ◌≤◌, ◌<◌, String, ◌≡◌, refl, sym, ap, ◌∙◌, ◌≢◌, ◌↔◌, ◌⊎◌, inl,
  inr, Bool, true, false, not, ◌&&◌, ◌||◌, Option, none, some, List, [], ◌∷◌, ◌++◌, map, arith,
  ◌==◌, eq_iff, eq_refl, ltb, leb, eqb, if◌then◌else◌, Bool-cases, Option-cases, is_some,
  or_default, truthy, length, select, any, all, first?, last?, length-append, length-select-le,
  includes, AnyOf, AllOf, agree, all-includes, includes-AnyOf, AnyOf-includes, AnyOf-map,
  AnyOf-map_all, AnyOf-elim, ◌<|>◌, first_match, first_match-AnyOf, AnyOf-first_match,
  first_match-result,
}
use arcanium.Reconciliation.Json.{
  Json, null, bool, num, text, deep_equal, get_field, obj, field, end,
}

pub record Observed : Type 0 where
  pub value : Json
  pub status : String
  pub detail : Option String

pub data Detail : Type 0 where
  no_detail : Detail
  observed_detail : Option String → Detail
  missing_days : Detail
  missing_not_after : Detail
  -- configured for so many days, and the key version is so many milliseconds old
  overdue : ℕ → ℕ → Detail

pub record Comparison : Type 0 where
  pub status : String
  pub detail : Detail
  -- the desired and the observed value of a drift
  pub drift : Option (Json × Json)
  pub approaching_expiry : Bool

abbrev pub ms_per_day : ℕ
ms_per_day = 86400000

abbrev pub approaching_expiry_days : ℕ
approaching_expiry_days = 14

abbrev pub rotation_grace_days : ℕ
rotation_grace_days = 1

abbrev pub plain : String → Detail → Comparison
plain status detail = record {
  status = status;
  detail = detail;
  drift = none;
  approaching_expiry = false;
}

abbrev pub drifted : Json → Json → Detail → Comparison
drifted desired observed detail = record {
  status = "DRIFTED";
  detail = detail;
  drift = some (desired, observed);
  approaching_expiry = false;
}

unfoldable pub compare : Json → Observed → Comparison
compare desired observed =
    if observed.status == "UNKNOWN"
    then plain "UNKNOWN" (observed_detail observed.detail)
    else if deep_equal desired observed.value
    then plain "COMPLIANT" no_detail
    else drifted desired observed.value no_detail

-- `Number.isFinite(x)`
abbrev pub finite : Option Json → Option ℕ
finite (some (num n)) = some n
finite _ = none

-- `x === false`
abbrev pub is_false : Option Json → Bool
is_false (some (bool false)) = true
is_false _ = false

-- `observedDays !== desiredDays`
abbrev pub same_days : Option Json → ℕ → Bool
same_days (some (num n)) days = eqb n days
same_days _ days = false

-- `if (creationTime)`, for a text
abbrev pub truthy_text : Option Json → Option String
truthy_text (some (text s)) = if s == "" then none else some s
truthy_text _ = none

-- `{ days: observedDays }`
abbrev days_of : Option Json → Json
days_of none = obj end
days_of (some v) = obj (field "days" v end)

module _ (parse_date : String → Option ℕ) (now : ℕ) where
  abbrev pub instant : Option String → Option ℕ
  instant none = none
  instant (some s) = parse_date s

  -- A comparison with an invalid date is false. Days and times are natural numbers here, where the code
  -- takes fractions too; the age of a version that is created after now is no age that is overdue.
  abbrev pub is_overdue : ℕ → Option ℕ → Bool
  is_overdue days none = false
  is_overdue days (some created) = ltb ((days + rotation_grace_days) * ms_per_day + created) now

  abbrev rotation_against : Json → Json → ℕ → Comparison
  rotation_against desired value days =
      let created = instant (truthy_text (get_field value "latest_version_creation_time")) in
      if is_false (get_field value "active")
      then plain "COMPLIANT" no_detail
      else if not (same_days (get_field value "days") days)
      then drifted desired (days_of (get_field value "days")) no_detail
      else if is_overdue days created
      then drifted desired (days_of (get_field value "days"))
          (overdue days (now - or_default created 0))
      else plain "COMPLIANT" no_detail

  abbrev rotation_for : Json → Json → Option ℕ → Comparison
  rotation_for desired value none = plain "UNKNOWN" missing_days
  rotation_for desired value (some days) = rotation_against desired value days

  unfoldable pub compare_rotation_period : Json → Observed → Comparison
  compare_rotation_period desired observed =
      if observed.status == "UNKNOWN"
      then plain "UNKNOWN" (observed_detail observed.detail)
      else rotation_for desired observed.value (finite (get_field desired "days"))

  -- `new Date(observed.value?.observed_date ?? Date.now())`
  abbrev pub today_of : Option Json → Option ℕ
  today_of (some (text s)) = parse_date s
  today_of (some (num n)) = some n
  today_of (some null) = some now
  today_of (some _) = none
  today_of none = some now

  abbrev pub deadline_of : String → Option ℕ
  deadline_of not_after = parse_date (String.◌++◌ not_after "T00:00:00Z")

  -- Comparisons with an invalid date are false.
  abbrev pub is_past : Option ℕ → Option ℕ → Bool
  is_past (some today) (some deadline) = ltb deadline today
  is_past _ _ = false

  -- `Math.floor((deadline - today) / MS_PER_DAY) <= 14`
  abbrev pub is_near : Option ℕ → Option ℕ → Bool
  is_near (some today) (some deadline) =
      leb ((deadline - today) / ms_per_day) approaching_expiry_days
  is_near _ _ = false

  abbrev expiry_for : Json → Json → Option String → Comparison
  expiry_for desired value none = plain "UNKNOWN" missing_not_after
  expiry_for desired value (some not_after) =
      let today = today_of (get_field value "observed_date") in
      let deadline = deadline_of not_after in
      if is_false (get_field value "active")
      then plain "COMPLIANT" no_detail
      else if is_past today deadline
      then drifted desired value no_detail
      else record {
        status = "COMPLIANT";
        detail = no_detail;
        drift = none;
        approaching_expiry = is_near today deadline;
      }

  unfoldable pub compare_expiry_date : Json → Observed → Comparison
  compare_expiry_date desired observed =
      if observed.status == "UNKNOWN"
      then plain "UNKNOWN" (observed_detail observed.detail)
      else expiry_for desired observed.value (truthy_text (get_field desired "not_after"))
