-- ===== src/Tests/Provisioning.antt =====
-- The runner of steps on two steps, the second of which may fail.
use arcanium.Prelude.{ℕ, suc, ◌+◌, ◌-◌, String, ◌≡◌, refl, ◌≢◌, none, some, List, [], ◌∷◌}
use arcanium.Provisioner.Steps.{
  Job, Step, done, thrown, Store, Run, returned, raised, set_status, rollback, fail_step, run_step,
  run_from, run_steps, set_at,
}
use arcanium.Provisioner.Steps.Rollback.{IsUndone, rollback_exact}
use arcanium.Domain.StateMachines.{assert_transition, successors}

-- The database counts its writes, and Vault its keys.
abbrev counting : Store ℕ
counting = record { save = λ job d. (suc d, done none); emit = λ job ev d. d }

abbrev same_text : String → String
same_text s = s

abbrev create_key : Step ℕ
create_key = record {
  name = "create key";
  run = λ v. (suc v, done none);
  undo = some (λ v. (v - 1, done none));
}

abbrev failing_step : Step ℕ
failing_step = record {
  name = "write policy";
  run = λ v. (v, thrown "permission denied");
  undo = some (λ v. (v, done none));
}

-- A step without an undo, like `create approle`, stands between them.
abbrev create_approle : Step ℕ
create_approle = record { name = "create approle"; run = λ v. (v + 10, done none); undo = none }

abbrev steps : List (Step ℕ)
steps = create_key ∷ create_approle ∷ failing_step ∷ []

abbrev new_job : Job
new_job = record {
  target_type = "key";
  target_id = "payments";
  action = "create";
  status = "pending";
  steps = [];
  error = none;
}

abbrev failing_run : Run ℕ ℕ
unfolding run_steps run_from run_step fail_step rollback set_status set_at assert_transition
    successors
failing_run = run_steps counting same_text new_job steps 7 0

abbrev job_of : Run ℕ ℕ → Job
job_of (returned j v d) = j
job_of (raised j v d) = j

abbrev vault_of : Run ℕ ℕ → ℕ
vault_of (returned j v d) = v
vault_of (raised j v d) = v

abbrev rolled_back_job : Job
rolled_back_job = record new_job {
  status = "rolled_back";
  steps =
      record { step = "create key"; status = "succeeded"; detail = none }
      ∷ record { step = "create approle"; status = "succeeded"; detail = none }
      ∷ record { step = "write policy"; status = "failed"; detail = some "permission denied" }
      ∷ record { step = "rollback: create key"; status = "succeeded"; detail = none }
      ∷ [];
  error = some "permission denied";
}

failing_run-returned :
    run_steps counting same_text new_job steps 7 0 ≡ returned rolled_back_job 17 7
unfolding run_steps run_from run_step fail_step rollback set_status set_at assert_transition
    successors
failing_run-returned = refl

not_succeeded : ◌≢◌ {A = String} "rolled_back" "succeeded"
not_succeeded e = absurd (cc)

rollback_exact_example : IsUndone steps [] 7 17
rollback_exact_example =
    rollback_exact counting same_text new_job steps 7 0 rolled_back_job 17 7 failing_run-returned
      not_succeeded
