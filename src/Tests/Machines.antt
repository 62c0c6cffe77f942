-- ===== src/Tests/Machines.antt =====
-- The state machines at concrete statuses.
use arcanium.Prelude.{refl}
use arcanium.Domain.StateMachines.{job_states, assert_transition, successors}
use arcanium.Domain.StateMachines.Paths.{Writes, unwritten, write}

job_life : Writes job_states "pending" "rolled_back" 2
unfolding assert_transition successors
job_life = write {t = "running"} refl (write {t = "rolled_back"} refl unwritten)
