-- ===== src/Maturity/Levels.antt =====
-- arcanium/api/src/maturity/controls.js: the roll-up by control, the gated level with the reason of its
-- cap, the coverage and the confidence.
pub mod Report
pub mod Gates
pub mod Standing
pub mod Evidence
pub mod Bounds
pub mod Rollups
use Prim.Native.String
use arcanium.Prelude.{
  ℕ, zero, suc, ◌+◌, ◌-◌, ◌*◌, ◌/◌, ◌≤◌, ◌<◌, String, ◌≡◌, refl, sym, ap, ◌∙◌, ◌≢◌, ◌↔◌, ◌⊎◌, inl,
  inr, Bool, true, false, not, ◌&&◌, ◌||◌, Option, none, some, List, [], ◌∷◌, ◌++◌, map, arith,
  ◌==◌, eq_iff, eq_refl, ltb, leb, eqb, if◌then◌else◌, Bool-cases, Option-cases, is_some,
  or_default, truthy, length, select, any, all, first?, last?, length-append, length-select-le,
  includes, AnyOf, AllOf, agree, all-includes, includes-AnyOf, AnyOf-includes, AnyOf-map,
  AnyOf-map_all, AnyOf-elim, ◌<|>◌, first_match, first_match-AnyOf, AnyOf-first_match,
  first_match-result,
}
use arcanium.Maturity.Controls.{
  Status, pass, fail, unknown, not_applicable, Confidence, high, medium, low, Assessment,
}
use arcanium.Maturity.Rounding.{round_percent}

abbrev pub is_pass : Status → Bool
is_pass pass = true
is_pass _ = false

abbrev pub is_fail : Status → Bool
is_fail fail = true
is_fail _ = false

abbrev pub is_unknown : Status → Bool
is_unknown unknown = true
is_unknown _ = false

abbrev pub is_applicable : Status → Bool
is_applicable not_applicable = false
is_applicable _ = true

abbrev pub has_status : (Status → Bool) → Assessment → Bool
has_status p a = p a.status

-- `byControl`, in the order of the first row of each control
abbrev pub Groups : Type 0
Groups = List (String × List Assessment)

unfoldable pub add_row : Assessment → Groups → Groups
add_row a [] = (a.control_id, a ∷ []) ∷ []
add_row a ((id, rows) ∷ groups) =
    let rest = add_row a groups in
    if id == a.control_id then (id, rows ++ a ∷ []) ∷ groups else (id, rows) ∷ rest

unfoldable pub by_control : List Assessment → Groups → Groups
by_control [] groups = groups
by_control (a ∷ rest) groups = by_control rest (add_row a groups)

-- The worst case of a control's rows that are not N/A.
unfoldable pub worst_case : List Assessment → Status
worst_case rows =
    let applicable = select (has_status is_applicable) rows in
    if eqb (length applicable) 0
    then not_applicable
    else if any (has_status is_fail) applicable
    then fail
    else if any (has_status is_unknown) applicable
    then unknown
    else pass

abbrev pub Rollup : Type 0
Rollup = List (String × Status)

abbrev pub roll : String × List Assessment → String × Status
roll (id, rows) = (id, worst_case rows)

unfoldable pub rollup_by_control : List Assessment → Rollup
rollup_by_control assessments = map roll (by_control assessments [])

-- `rollup[id]`
unfoldable pub status_of : Rollup → String → Option Status
status_of [] id = none
status_of ((control, status) ∷ rollup) id =
    if control == id then some status else status_of rollup id

-- `rollup[id] === "PASS"`
abbrev pub is_some_pass : Option Status → Bool
is_some_pass none = false
is_some_pass (some s) = is_pass s

unfoldable pub passes : Rollup → String → Bool
passes rollup id = is_some_pass (status_of rollup id)

-- MANDATORY_CONTROLS_PER_LEVEL, the object as the list of its entries
abbrev pub mandatory_controls_per_level : List (ℕ × List String)
mandatory_controls_per_level =
    (1, "KEY-INV-01" ∷ [])
    ∷ (2, "KEY-INV-01" ∷ "TEN-ISO-01" ∷ [])
    ∷ (3, "KEY-INV-01" ∷ "TEN-ISO-01" ∷ "ROT-POL-01" ∷ "AUD-01" ∷ "WLI-01" ∷ "NEG-AUTHZ-01" ∷ [])
    ∷ (
      4,
      "KEY-INV-01" ∷ "TEN-ISO-01" ∷ "ROT-POL-01" ∷ "AUD-01" ∷ "WLI-01" ∷ "NEG-AUTHZ-01" ∷ "AUTO-01"
          ∷ [],
    )
    ∷ (
      5,
      "KEY-INV-01" ∷ "TEN-ISO-01" ∷ "ROT-POL-01" ∷ "AUD-01" ∷ "WLI-01" ∷ "NEG-AUTHZ-01" ∷ "AUTO-01"
          ∷ "GOV-01" ∷ "KML-DESTR-01" ∷ [],
    )
    ∷ []

abbrev entry_of : List (ℕ × List String) → ℕ → List String
entry_of [] level = []
entry_of ((l, ids) ∷ entries) level = if eqb l level then ids else entry_of entries level

-- `MANDATORY_CONTROLS_PER_LEVEL[level] ?? []`
abbrev pub mandatory_controls : ℕ → List String
mandatory_controls level = entry_of mandatory_controls_per_level level

-- `for (let level = 5; level >= 1; level--)`, from the given level down
unfoldable pub gated_from : Rollup → ℕ → ℕ
gated_from rollup zero = 0
gated_from rollup (suc level) =
    let below = gated_from rollup level in
    if all (passes rollup) (mandatory_controls (suc level)) then suc level else below

unfoldable pub gated_level : Rollup → ℕ
gated_level rollup = gated_from rollup 5

-- `Math.min(5, level + 1)`
abbrev pub next_level : ℕ → ℕ
next_level level = if ltb level 4 then suc level else 5

abbrev pub is_blocking : Rollup → String → Bool
is_blocking rollup id = not (passes rollup id)

-- What the reason says of each blocking control; it is printed from the level and this list.
unfoldable pub level_cap_reason : Rollup → ℕ → Option (List (String × Status))
level_cap_reason rollup level =
    let blocking = select (is_blocking rollup) (mandatory_controls (next_level level)) in
    if eqb (next_level level) level
    then none
    else if eqb (length blocking) 0
    then none
    else some (map (λ id. (id, or_default (status_of rollup id) unknown)) blocking)

abbrev pub is_evidenced : Status → Bool
is_evidenced s = is_pass s || is_fail s

unfoldable pub compute_coverage : List Assessment → ℕ
compute_coverage assessments =
    let applicable = select (has_status is_applicable) assessments in
    let evidenced = select (has_status is_evidenced) applicable in
    if eqb (length applicable) 0 then 0 else round_percent (length evidenced) (length applicable)

abbrev pub is_low : Confidence → Bool
is_low low = true
is_low _ = false

abbrev pub is_medium : Confidence → Bool
is_medium medium = true
is_medium _ = false

abbrev pub has_confidence : (Confidence → Bool) → Assessment → Bool
has_confidence p a = p a.confidence

unfoldable pub compute_confidence : List Assessment → Confidence
compute_confidence assessments =
    let scored = select (has_status is_evidenced) assessments in
    if eqb (length scored) 0
    then low
    else if any (has_confidence is_low) scored
    then low
    else if any (has_confidence is_medium) scored
    then medium
    else high
