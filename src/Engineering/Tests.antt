-- ===== src/Engineering/Tests.antt =====
-- Tests of the database, the leases and the queue of the engineering jobs at a small database.
use dev_workflow_automation.Common.{
  String, ◌⊎◌, first_of, ℕ, ◌≡◌, ◌≢◌, ◌≤◌, refl, inl, Bool, true, false, none, some, [], ◌∷◌, In,
  ok, err, arith, eq_iff, strip, find, store, Result, Distinct, count_where,
}
use dev_workflow_automation.Engineering.Lifecycle.{
  TaskStatus, Stage, WaitReason, Action, EngineeringState, transition, post_init, is_merged,
}
use dev_workflow_automation.Engineering.Phases.{PhaseAction, phase_report, ReportOutcome}
use dev_workflow_automation.Engineering.Rows.{
  Task, Job, JobState, Team, TaskDependency, Database, task_key, job_key,
}
use dev_workflow_automation.Engineering.Transitions.{
  Error, Request, state_of, write, record_transition,
}
use dev_workflow_automation.Engineering.Transitions.Versions.{
  second_conflicts, record_transition_tasks, record_transition_phases, is_open_phase,
}
use dev_workflow_automation.Engineering.Jobs.{
  heartbeat, beat, PhaseLease, JobError, locked, is_runnable,
}
use dev_workflow_automation.Engineering.Jobs.Completion.{
  Worker, complete, advance_task, perform, block,
}
use dev_workflow_automation.Engineering.Jobs.Spending.{complete_once}
use dev_workflow_automation.Engineering.Jobs.Execution.{
  Outcome, CameTooLate, report, execute, executed_releases,
}
use dev_workflow_automation.Engineering.Queue.{
  Slots, claim_next_job, next_job, claim_row, is_eligible, already_running, occupied, running_count,
  unmet_dependencies, team_for,
}
use dev_workflow_automation.Engineering.Queue.Eligible.{Claimable}
use dev_workflow_automation.Engineering.Queue.Order.{ComesFirst, next_job_is_first}
use dev_workflow_automation.Engineering.Queue.Exclusion.{
  claim_excludes, claim_respects_dependencies,
}
use dev_workflow_automation.Engineering.Queue.Capacity.{claim_within_team}

abbrev pub task : Task
task = record {
  id = 1;
  status = TaskStatus.active;
  stage = Stage.developing;
  wait_reason = WaitReason.no_wait;
  requirement_version = 1;
  lifecycle_version = 3;
  manual_takeover = false;
  team_id = some 1;
  priority = 2;
  current_revision = none;
  started_at = some 5;
  completed_at = none;
  archived_at = none;
}

abbrev job : Job
job = record {
  id = 10;
  task_id = 1;
  action = PhaseAction.developer_turn;
  priority = 2;
  state = JobState.running;
  attempt = 1;
  lifecycle_version = 3;
  result = none;
  worker_id = some "worker";
  lease_token = some 77;
  lease_expires_at = some 100;
  retry_not_before = none;
  started_at = some 20;
  finished_at = none;
  failure_reason = none;
  created_at = 10;
}

abbrev team : Team
team = record {
  id = 1;
  enabled = true;
  execution_paused = false;
  max_concurrent_tasks = 1;
  archived_at = none;
}

abbrev pub running : Database
running = record {
  tasks = task ∷ [];
  jobs = job ∷ [];
  teams = team ∷ [];
  phase_runs = [];
  assignments = [];
  dependencies = [];
  lifecycle_events = [];
  review_cycles = [];
  sessions = [];
  next_id = 50;
  wakeups = [];
  notices = [];
}

abbrev queued : Database
queued = record running {
  jobs = record job { state = JobState.queued; lease_token = none; lease_expires_at = none } ∷ [];
}

abbrev pub lease : PhaseLease
lease = record {
  job_id = 10;
  task_id = 1;
  token = 77;
  action = PhaseAction.developer_turn;
  lifecycle_version = 3;
}

abbrev worker : Worker
worker = record { name = "worker"; coordinator_on = false; allowed = λ row. true }

abbrev request : Request
request = record {
  action = Action.implemented;
  expected_version = 3;
  actor = "worker";
  wait_reason = WaitReason.no_wait;
  external_wait = false;
}

abbrev slots : Slots
slots = record { global_developer_slots = some 1; validation_slots = some 1 }

abbrev validating : EngineeringState
validating = record {
  status = TaskStatus.active;
  stage = Stage.validating;
  wait_reason = WaitReason.no_wait;
  requirement_version = 1;
  manual_takeover = false;
}

-- The database after the request.
abbrev recorded_db : Database
recorded_db =
    write false running task Action.implemented "worker"
      (record validating { stage = Stage.developing }) validating 30

recorded-ok : record_transition false running 1 request 30 ≡ ok (recorded_db, validating)
unfolding strip record_transition state_of post_init transition find
recorded-ok = refl

late-known : strip "late" ≢ ""
unfolding strip
late-known = λ e. ground (arith, e, eq_iff "late" "")

second_conflicts_example :
    record_transition false recorded_db 1 (record request { actor = "late" }) 31
    ≡ err Error.lifecycle_conflict
second_conflicts_example =
    second_conflicts false running 1 request 30 recorded_db validating
      (record request { actor = "late" }) 31 recorded-ok refl late-known

record_transition_phases_example :
    (count_where (is_open_phase 1) recorded_db.phase_runs ≡ 1)
    × ((j : ℕ)
        → j ≢ 1
        → count_where (is_open_phase j) recorded_db.phase_runs
          ≡ count_where (is_open_phase j) running.phase_runs)
record_transition_phases_example =
    record_transition_phases false running 1 request 30 recorded_db validating recorded-ok

record_transition_tasks_example :
    ((t : Task) × (find task_key 1 recorded_db.tasks ≡ some t)
      × (t.lifecycle_version ≡ 4)
      × (t.status ≡ TaskStatus.active)
      × (t.stage ≡ Stage.validating)
      × (t.wait_reason ≡ WaitReason.no_wait)
      × (t.requirement_version ≡ 1)
      × (t.manual_takeover ≡ false))
    × ((old : Task) × (before : EngineeringState) × (find task_key 1 running.tasks ≡ some old)
        × (state_of old ≡ ok before)
        × (transition before request.action request.wait_reason request.external_wait
            ≡ ok validating))
    × ((j : ℕ) → j ≢ 1 → find task_key j recorded_db.tasks ≡ find task_key j running.tasks)
record_transition_tasks_example =
    record_transition_tasks false running 1 request 30 recorded_db validating recorded-ok

phase_report_example : ReportOutcome validating Action.validation_passed false
phase_report_example =
    phase_report validating PhaseAction.run_validation Action.validation_passed refl refl
      (ground arith) refl refl

-- What `complete` leaves.
abbrev completed_db : Result JobError Database → Database
completed_db (ok db) = db
completed_db (err e) = running

abbrev after_complete : Database
after_complete = completed_db (complete worker running lease Action.implemented 30)

complete-ok : complete worker running lease Action.implemented 30 ≡ ok after_complete
unfolding complete locked find advance_task perform strip record_transition state_of post_init
    transition
complete-ok = refl

locked-ok : locked running lease ≡ some (task, job)
unfolding locked find
locked-ok = refl

complete_once_example :
    complete worker after_complete lease Action.needs_plan 31 ≡ ok after_complete
complete_once_example =
    complete_once worker running lease Action.implemented Action.needs_plan 30 31 task job
      after_complete locked-ok refl complete-ok

abbrev after_block : Database
after_block = completed_db (block worker running lease WaitReason.no_progress "stopped" 30)

block-ok : block worker running lease WaitReason.no_progress "stopped" 30 ≡ ok after_block
unfolding block locked find strip record_transition state_of post_init transition store
block-ok = refl

spent-ok : locked queued lease ≡ none
unfolding locked find
spent-ok = refl

abbrev waiting : Job
waiting = record job { state = JobState.queued; lease_token = none; lease_expires_at = none }

abbrev claimed : Job
claimed = claim_row queued waiting "worker" 60 30

abbrev after_claim : Database
after_claim = record queued { jobs = claimed ∷ []; next_id = 51 }

nobody : Job → Bool
nobody j = false

next-ok : next_job slots nobody queued 30 ≡ some waiting
unfolding next_job first_of is_eligible find already_running occupied running_count
    unmet_dependencies nobody
next-ok = refl

claim-ok : claim_next_job slots nobody queued "worker" 60 30 ≡ (after_claim, some claimed)
unfolding claim_next_job next_job first_of is_eligible find already_running occupied running_count
    unmet_dependencies nobody store
claim-ok = refl

next_job_is_first_example :
    In waiting queued.jobs
    × Claimable slots queued 30 waiting
    × ((k : Job)
        → In k queued.jobs
        → Claimable slots queued 30 k
        → nobody k ≡ false
        → ComesFirst queued waiting k)
next_job_is_first_example = next_job_is_first slots nobody queued 30 waiting next-ok

claim_excludes_example : claimed ≡ claimed
claim_excludes_example =
    claim_excludes slots nobody queued "worker" 60 30 after_claim claimed claimed claim-ok
      (inl refl) refl refl

claim_respects_dependencies_example :
    (t : Task) × (find task_key 1 queued.tasks ≡ some t)
    × (is_runnable t.status ≡ true)
    × (t.manual_takeover ≡ false)
    × (t.archived_at ≡ none)
    × ((d : TaskDependency) (p : Task)
        → In d queued.dependencies
        → d.task_id ≡ t.id
        → find task_key d.prerequisite_id queued.tasks ≡ some p
        → is_merged p.status ≡ true)
claim_respects_dependencies_example =
    claim_respects_dependencies slots nobody queued "worker" 60 30 after_claim claimed claim-ok

team-ok : team_for queued claimed ≡ some team
unfolding find
team-ok = refl

tasks-Distinct : Distinct task_key queued.tasks
unfolding find
tasks-Distinct = (refl, tt)

jobs-Distinct : Distinct job_key queued.jobs
unfolding find
jobs-Distinct = (refl, tt)

claim_within_team_example : occupied after_claim 1 ≤ 1
claim_within_team_example =
    claim_within_team slots nobody queued "worker" 60 30 after_claim claimed team tasks-Distinct
      claim-ok team-ok refl

abbrev alone : ℕ → Database → Database
alone n db = db

abbrev no_text : JobError → String
no_text e = "ValueError"

abbrev beaten : Database
beaten = (heartbeat running lease 30 60).0

beats : heartbeat running lease 30 60 ≡ (beaten, true)
unfolding heartbeat beat locked find store
beats = refl

abbrev executed_of : Result JobError Database → Database
executed_of (ok db) = db
executed_of (err e) = running

abbrev executed_db : Database
executed_db = executed_of (execute worker no_text alone running lease 30 60 40 Outcome.revoked)

executed_ok : execute worker no_text alone running lease 30 60 40 Outcome.revoked ≡ ok executed_db
unfolding execute report heartbeat beat block locked find strip record_transition state_of post_init
    transition store
executed_ok = refl

executed_releases_example :
    (locked executed_db lease ≡ none) ⊎ CameTooLate beaten lease 40 Outcome.revoked
executed_releases_example =
    executed_releases worker no_text alone running beaten executed_db lease 30 60 40 Outcome.revoked
      beats executed_ok
