-- ===== src/Lib.antt =====
-- A verification library for the engineering backend (backend/app): tasks that agents develop,
-- validate, publish and merge under leases, budgets and human control.
--
-- The parts and how they interact. A task has a lifecycle (status, stage, wait reason); every
-- change is an action that `transition` accepts or refuses, and that `record_transition` writes
-- with its version and history. A stage names the unit of work that advances it; the queue holds
-- one job for that unit, a worker claims the job under a lease with a token, executes it, and
-- completes or blocks it. A Developer's turn runs under a policy of token limits that a governor
-- observes, spends money that was reserved in the Team's budget, and ends in a receipt that the
-- development control turns into an action. Delivery decides whether a pull request may be
-- merged. A coordinator talks to people and may ask for work: it claims the queued events of a task
-- for a run, asks a model for one decision, and delivers the decision's message through an outbox
-- of actions, whose uncertain deliveries are looked up and never sent again.
--
-- Which file models which part (paths of the code are under backend/app):
--   Common: Boolean tests, lists, results, tables of rows with a primary key, text methods.
--   Engineering/Lifecycle: engineering/domain/lifecycle.py. `post_init` is the constructor's check,
--     `steps` is `_STEPS`, and `dispatch` with its parts is the body of `transition`. Validity,
--     Traces and Merging hold the proofs.
--   Engineering/Phases: engineering/domain/phases.py.
--   Engineering/Rows: the columns of the tables that the modelled code reads or writes.
--   Engineering/Transitions: engineering/infrastructure/lifecycle.py, `record_transition`.
--   Engineering/Jobs: engineering/infrastructure/jobs.py, `SqlPhaseJobs`; Completion holds
--     `complete` and `block`, Feedback holds `apply_pending_feedback` of
--     intake/infrastructure/engineering_events.py, Execution holds `RunEngineeringJob.execute` of
--     engineering/application/jobs.py; Fencing and Spending hold the proofs.
--   Engineering/Queue: engineering/infrastructure/job_queue.py, `claim_next_job`; Conditions,
--     Others and Eligible state the query condition by condition, and Order, Exclusion and Capacity
--     hold the proofs.
--   Engineering/Control: engineering/application/development_control.py and
--     developer_failures.py; Reports holds the proofs.
--   Engineering/Dependencies: engineering/infrastructure/dependencies.py, `SqlTaskDependencies`;
--     Closure, Acyclic and Refusal hold the proofs.
--   Engineering/Steering: engineering/infrastructure/controls.py, `control_task`; Stops holds the
--     proof.
--   AgentRuntime/Progress, Policy, Governor: agent_runtime/domain/progress.py,
--     repair_progress.py, token_efficiency_policy.py, and
--     agent_runtime/application/developer_progress_governor.py.
--   AgentRuntime/Usage, Reservations: agent_runtime/domain/usage.py and
--     agent_runtime/infrastructure/reservations.py.
--   Delivery/Merge, Review: delivery/domain/merge.py and review.py.
--   Coordinator/Protocol: coordinator/domain/protocol.py.
--   Coordinator/Rows: coordinator/infrastructure/models.py and authority.py.
--   Coordinator/Outbox: the deliveries of coordinator/infrastructure/actions.py, with `reconcile`
--     of administration.py; Loops is coordinator/application/actions.py. Steps is the step
--     relation of its transactions; Pending, Claims, Once, Settled, Recovery and Authority hold
--     the proofs.
--   Coordinator/Runs: coordinator/infrastructure/processor.py (the claim; Decisions holds the
--     other methods) and queries.py; Process is coordinator/application/process.py. Steps is the
--     step relation of its transactions and of `execute_one`; Serial, Kept and Release hold the
--     proofs.
--   Coordinator/Guards, Actions: `execute_one` of coordinator/infrastructure/actions.py with the
--     guards of `_apply`; Outcomes lists the ways in which it ends, Decided the statuses that it
--     leaves, Serial what it keeps of the runs and the actions, and Permission, Progress and
--     Settled hold the proofs. That the rest of the program writes no run and no action is a named
--     hypothesis, `LeavesCoordination`, where it is needed.
--   Coordinator/Inbox: coordinator/infrastructure/inbox.py, with Responses; Redelivery and Answers
--     hold the proofs.
--
-- Conventions. A transaction is a function from the database to the database that it commits, or
-- to the exception that rolls it back. Identifiers, tokens and times are numbers; the clock is an
-- argument. A fresh identifier or token is the database's next number, in place of `uuid4`. Texts
-- of a closed set are data types. Every definition is total: the loops are recursion on a list, but
-- for the recursive query of Engineering/Dependencies, whose fuel is the number of edges, enough
-- because each round reaches the target of one more edge. Where workers interleave, a step
-- relation allows their transactions in any order. Amounts of money are numbers of a least unit.
--
-- Not modelled: the status messages to trackers and most event rows, `SqlPhaseJobs.recover`, the
-- intake of GitHub and Linear events, the repositories, the supervisor, the coordinator's notices
-- of engineering events and the packet for its model, the read projections, the HTTP interfaces
-- and the configuration. Parameters are the recovery of a session, the executor, SHA-256, the
-- authority of an actor, the current requirement, the Team's policy, the answers of the model, the
-- effects of a decision on the engineering and what other transactions commit meanwhile.
pub mod Common
pub mod Engineering
pub mod AgentRuntime
pub mod Delivery
pub mod Coordinator
