-- ===== src/Domain/StateMachines.antt =====
-- arcanium/api/src/domain/state-machines.js. A machine is the object literal, as the list of its
-- keys with their successors.
pub mod Paths
use arcanium.Prelude.{
  String, Bool, false, Option, none, some, List, [], ◌∷◌, ◌==◌, if◌then◌else◌, includes,
}

abbrev pub Machine : Type 0
Machine = List (String × List String)

abbrev pub job_states : Machine
job_states =
    ("pending", "running" ∷ [])
    ∷ ("running", "succeeded" ∷ "failed" ∷ "rolled_back" ∷ [])
    ∷ ("succeeded", [])
    ∷ ("failed", [])
    ∷ ("rolled_back", [])
    ∷ []

abbrev pub observation_status_states : Machine
observation_status_states =
    ("COMPLIANT", "DRIFTED" ∷ "UNKNOWN" ∷ [])
    ∷ ("DRIFTED", "COMPLIANT" ∷ "UNKNOWN" ∷ [])
    ∷ ("UNKNOWN", "COMPLIANT" ∷ "DRIFTED" ∷ [])
    ∷ []

abbrev pub disposition_states : Machine
disposition_states =
    ("OPEN", "EXCEPTION_ACCEPTED" ∷ "RECONCILED" ∷ [])
    ∷ ("EXCEPTION_ACCEPTED", "OPEN" ∷ "RECONCILED" ∷ [])
    ∷ ("RECONCILED", "OPEN" ∷ [])
    ∷ []

-- `machine[from]`
unfoldable pub successors : Machine → String → Option (List String)
successors [] from = none
successors ((state, next) ∷ machine) from =
    if state == from then some next else successors machine from

pub data Checked : Type 0 where
  legal : Checked
  illegal_transition : String → String → Checked

-- `machine[from]?.includes(to)`
abbrev lists : Option (List String) → String → Bool
lists none to = false
lists (some next) to = includes next to

-- The error that is thrown is a value here.
unfoldable pub assert_transition : Machine → Option String → String → Checked
unfolding successors
assert_transition machine none to = legal
assert_transition machine (some from) to =
    if lists (successors machine from) to then legal else illegal_transition from to
