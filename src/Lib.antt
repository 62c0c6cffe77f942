-- ===== src/Lib.antt =====
-- Verification of Arcanium, the control plane that governs keys in Vault: who may do what, how
-- intent becomes jobs and reconciliation, and when a key is destroyed. The code is the API and its
-- worker, arcanium/api/src, in JavaScript; names below are the code's, in snake case here.
--
-- The parts and how they interact:
-- - Domain/StateMachines: domain/state-machines.js. The machines of jobs, observations and
--   dispositions, as tables, and assertTransition, whose error is a value (Checked).
-- - Auth/Authorize, Auth/Groups: auth/authorize.js. The matrix of roles, roleVerdict and authorize,
--   and groupsToIdentity, which turns the groups of a sign-in into roles, tenants and scoped grants.
-- - Auth/Session: auth/index.js. The sessions and the tokens of service accounts as tables, and the
--   handlers that change them: callback, logout, demo-persona, requireSession. Auth/Accounts:
--   routes/service-accounts.js, which creates and revokes accounts and their tokens there.
-- - Auth/Scope: auth/scope.js and teams/registry.js, and tenantScope of auth/index.js. What a scoped
--   caller may read.
-- - Provisioner/Steps: provisioner/steps.js. setStatus and runSteps: steps change the state of
--   Vault, saves the database, and either may throw. Provisioner/Dispatch: provisioner/dispatch.js
--   with the requests of rotateKey and destroyKey in provisioner/key.js, and runOrQueue, which runs a
--   job at once or leaves it in the table of jobs.
-- - Worker: worker.js. The claim of a queued job, its dispatch and its end, and which duties are due in
--   a round.
-- - Reconciliation/Json, Reconciliation/Diff: reconciliation/diff.js. JSON values and the three
--   comparators.
-- - Reconciliation/Engine: reconciliation/engine.js. runSweep records a run for each row and emits
--   events; Reconciliation/Engine/Actions has reconcileRun and acceptException. The disposition of a
--   drift is computed from the latest action; the destruction of keys reads it.
-- - Reconciliation/Intent: reconciliation/desiredState.js. The one write path of intents, and their
--   histories.
-- - Approvals/Requests: routes/approvals.js. The handlers that create, approve and deny requests; they
--   call authorize and tenantScope of Auth.
-- - Approvals/Execution: approval-execution.js. Each tick of the worker claims approved requests one
--   at a time, and deletes a key only behind its gates. It reads the runs and the dispositions of
--   Reconciliation/Engine.
-- - Reconciliation/Observe: reconciliation/observe.js. The expiry date of a key from Vault's answer.
-- - Reconciliation/Declaring, Reconciliation/Governing: routes/reconciliation.js. The routes that write an
--   intent, after validation and authorization, and the ones that sweep, reconcile and accept an
--   exception; they call Reconciliation/Intent and Reconciliation/Engine behind the checks of Auth.
-- - Offboarding: offboarding.js. A tenant's applications are revoked, the destruction of its keys is
--   requested, and a sweep of the worker closes the record when none of them is left.
-- - Events/Delivery: events/emit.js and events/deliver.js. The fan-out of an event to the tenant's
--   webhooks and the attempts to deliver it.
-- - Maturity/Controls, Maturity/Levels, Maturity/Rounding: maturity/controls.js and
--   maturity/scorer.js. The assessment of the controls over the tables and Vault's answers, and the
--   level, coverage and confidence that the report draws from it; readFeatures of routes/platform.js
--   tells which features the license has.
-- - Suppliers/Isolation: suppliers/isolation.js. The live check of the boundary between tenants.
-- Prelude has what they share; Tests has the theorems at concrete inputs.
--
-- How state and operations are modelled. A table is a list of records, with new rows first; a
-- handler takes the tables and gives them back, changed, with its response. A join gives what the
-- query selects. Errors that the code throws are values. Numbers in JSON are natural numbers, and so
-- are times, in milliseconds or seconds as the code has them; ids are texts or numbers.
--
-- Arguments, for what is not in the repository: Vault (its answers, or its operations on a state of
-- any type), the parser of dates, the regular expressions of the accounts, the lower case of the
-- runtime, sha256, random ids, the schema of the API, whether the database or a webhook can be
-- reached. The operations
-- of Vault that observe and apply a rotation and request a destruction are arguments of the engine, in
-- the record Outside. So are the lists of steps that provision an application or a supplier, for the
-- worker; and sanitise of provisioner/steps.js, which masks the tokens in the message of an error.
--
-- Bounds and fuel. The loops over lists are structural. The endless loop of executeApprovedDestroys
-- runs on fuel, one round for each request and one more; the results say when that is enough. The
-- percentage of the coverage is computed as in doubles, in whole numbers over powers of two: 64 doublings
-- give a quotient its 53 bits, for a whole of at most 2 ^ 64. The bounds are the code's: a session of
-- an hour and half an hour idle, 14 days of warning before an expiry, one day of grace after a
-- rotation, a minute of cache for the isolation check, three attempts at a delivery, tokens of one to
-- 365 days, a share of the controls between 0 and 100.
--
-- Not modelled: the routes other than those of approvals, of reconciliation and of service accounts,
-- which check, call the parts above and format, and the GET routes, which list rows; Vault's client,
-- the database, configuration, telemetry and service levels; observeRotationPeriod, whose result is a
-- fraction of days; the scores of the dimensions of maturity, which do not decide the level; the lists
-- of provisioning steps; the evidence read from logs; the command line and the user interface.
-- Timestamps, log lines, signatures, delays and metrics of the modelled code are left out where no
-- result depends on them, as are failures of an UPDATE behind a deletion in Vault, and the concurrency
-- of two workers beyond the rows that a claim skips.
pub mod Prelude
pub mod Domain
pub mod Events
pub mod Maturity
pub mod Offboarding
pub mod Approvals
pub mod Auth
pub mod Provisioner
pub mod Reconciliation
pub mod Suppliers
pub mod Tests
pub mod Worker
