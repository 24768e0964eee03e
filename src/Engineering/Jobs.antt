-- ===== src/Engineering/Jobs.antt =====
-- engineering/infrastructure/jobs.py: `SqlPhaseJobs`, the leased execution of one phase. Each
-- method is one transaction: `ok` is what it commits, `err` an exception, which rolls it back.
-- The event rows other than those of transitions, and the reconciliation of AI runs in
-- `recover`, are not modelled.
pub mod Feedback
pub mod Fencing
pub mod Spending
pub mod Completion
pub mod Execution
use dev_workflow_automation.Common.{
  ℕ, suc, ◌+◌, ◌==◌, leb, ltb, Bool, true, false, not, ◌&&◌, ◌||◌, Option, none, some,
  if◌then◌else◌, List, [], ◌∷◌, ◌++◌, map, any, String, str_eq, Result, ok, err, find, store,
}
use dev_workflow_automation.Engineering.Lifecycle.{
  TaskStatus, Stage, WaitReason, Action, EngineeringState,
}
use dev_workflow_automation.Engineering.Phases.{PhaseAction, phase_action, phase_result}
use dev_workflow_automation.Engineering.Rows.{
  Task, Job, JobState, Team, Database, task_key, job_key, team_key,
}
use dev_workflow_automation.Engineering.Transitions.{
  Error, Request, state_of, is_missing, record_transition,
}

pub record PhaseLease : Type 0 where
  pub job_id : ℕ
  pub task_id : ℕ
  pub token : ℕ
  pub action : PhaseAction
  pub lifecycle_version : ℕ

pub data JobError : Type 0 where
  result_mismatch native_session_missing : JobError
  not_recorded : Error → JobError

-- `state in {CLAIMED, RUNNING}`
abbrev pub is_held : JobState → Bool
is_held JobState.claimed = true
is_held JobState.running = true
is_held _ = false

-- `state in {QUEUED, CLAIMED, RUNNING}`
abbrev pub is_pending : JobState → Bool
is_pending JobState.queued = true
is_pending s = is_held s

-- `status in {"NEW", "ACTIVE"}`
abbrev pub is_runnable : TaskStatus → Bool
is_runnable TaskStatus.new = true
is_runnable TaskStatus.active = true
is_runnable _ = false

abbrev pub is_value : Option ℕ → ℕ → Bool
is_value none n = false
is_value (some m) n = m == n

-- `lease_expires_at is not None and lease_expires_at > now`
abbrev pub is_after : Option ℕ → ℕ → Bool
is_after none now = false
is_after (some t) now = ltb now t

abbrev pub same_unit : PhaseAction → PhaseAction → Bool
same_unit PhaseAction.interpret_event PhaseAction.interpret_event = true
same_unit PhaseAction.thinker_turn PhaseAction.thinker_turn = true
same_unit PhaseAction.developer_turn PhaseAction.developer_turn = true
same_unit PhaseAction.run_validation PhaseAction.run_validation = true
same_unit PhaseAction.publish_pr PhaseAction.publish_pr = true
same_unit PhaseAction.merge_pr PhaseAction.merge_pr = true
same_unit _ _ = false

abbrev pub runs_unit : Option PhaseAction → PhaseAction → Bool
runs_unit none u = false
runs_unit (some v) u = same_unit v u

-- `_locked`: the rows that the lease still holds.
abbrev pub check_rows : PhaseLease → Option Task → Option Job → Option (Task × Job)
check_rows lease (some t) (some j) =
    if j.task_id == t.id && is_value j.lease_token lease.token && is_held j.state
    then some (t, j)
    else none
check_rows lease _ _ = none

unfoldable pub locked : Database → PhaseLease → Option (Task × Job)
locked db lease =
    check_rows lease (find task_key lease.task_id db.tasks) (find job_key lease.job_id db.jobs)

-- The Team of a task exists and admits work.
abbrev pub team_open : Option Team → Bool
team_open none = false
team_open (some team) = team.enabled && not team.execution_paused && is_missing team.archived_at

abbrev pub team_of : Database → Option ℕ → Option Team
team_of db none = none
team_of db (some id) = find team_key id db.teams

-- The lease is current: the guards of `heartbeat`.
abbrev pub is_current : Database → PhaseLease → ℕ → Task → Job → Bool
is_current db lease now t j =
    t.lifecycle_version == lease.lifecycle_version
    && is_runnable t.status
    && not t.manual_takeover
    && is_missing t.archived_at
    && team_open (team_of db t.team_id)
    && is_after j.lease_expires_at now
    && runs_unit (phase_action t.stage) lease.action

unfoldable pub beat : Database → PhaseLease → ℕ → ℕ → Option (Task × Job) → Database × Bool
beat db lease now lease_seconds none = (db, false)
beat db lease now lease_seconds (some (t, j)) =
    if is_current db lease now t j
    then (
      record db {
        jobs =
            store job_key
              (record j { state = JobState.running; lease_expires_at = some (now + lease_seconds) })
              db.jobs;
      },
      true,
    )
    else (db, false)

unfoldable pub heartbeat : Database → PhaseLease → ℕ → ℕ → Database × Bool
heartbeat db lease now lease_seconds = beat db lease now lease_seconds (locked db lease)

-- `enqueue_phase`: the next unit of the task, unless one is pending.
abbrev pub has_pending : Database → ℕ → Bool
has_pending db id = any (λ j. j.task_id == id && is_pending j.state) db.jobs

abbrev pub new_job : Database → Task → PhaseAction → ℕ → Job
new_job db t action now = record {
  id = db.next_id;
  task_id = t.id;
  action = action;
  priority = t.priority;
  state = JobState.queued;
  attempt = 0;
  lifecycle_version = t.lifecycle_version;
  result = none;
  worker_id = none;
  lease_token = none;
  lease_expires_at = none;
  retry_not_before = none;
  started_at = none;
  finished_at = none;
  failure_reason = none;
  created_at = now;
}

enqueue_unit : Database → Task → ℕ → Option PhaseAction → Database
enqueue_unit db t now none = db
enqueue_unit db t now (some action) =
    if has_pending db t.id
    then db
    else record db { jobs = db.jobs ++ new_job db t action now ∷ []; next_id = db.next_id + 1 }

unfoldable pub enqueue_phase : Database → Task → ℕ → Database
unfolding enqueue_unit
enqueue_phase db t now =
    if is_runnable t.status then enqueue_unit db t now (phase_action t.stage) else db
