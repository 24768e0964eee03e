-- ===== src/Engineering/Rows.antt =====
-- The rows of the engineering tables (engineering/infrastructure/task_models.py and models.py,
-- teams/infrastructure/team_models.py, platform/scheduling/states.py), with the columns that the
-- modelled code reads or writes. Identifiers, lease tokens and times are numbers.
use dev_workflow_automation.Common.{ℕ, Bool, Option, List, String}
use dev_workflow_automation.Engineering.Lifecycle.{
  TaskStatus, Stage, WaitReason, Action, EngineeringState,
}
use dev_workflow_automation.Engineering.Phases.{PhaseAction}

pub record Task : Type 0 where
  pub id : ℕ
  pub status : TaskStatus
  pub stage : Stage
  pub wait_reason : WaitReason
  pub requirement_version : ℕ
  pub lifecycle_version : ℕ
  pub manual_takeover : Bool
  pub team_id : Option ℕ
  pub priority : ℕ
  pub current_revision : Option String
  pub started_at : Option ℕ
  pub completed_at : Option ℕ
  pub archived_at : Option ℕ

pub data JobState : Type 0 where
  queued claimed running succeeded failed cancelled timed_out retry_wait : JobState
  waiting_provider waiting_integration waiting_configuration waiting_human : JobState

-- `lifecycle_version` is the key of that name in `payload`, and `result` the action in `result`.
pub record Job : Type 0 where
  pub id : ℕ
  pub task_id : ℕ
  pub action : PhaseAction
  pub priority : ℕ
  pub state : JobState
  pub attempt : ℕ
  pub lifecycle_version : ℕ
  pub result : Option Action
  pub worker_id : Option String
  pub lease_token : Option ℕ
  pub lease_expires_at : Option ℕ
  pub retry_not_before : Option ℕ
  pub started_at : Option ℕ
  pub finished_at : Option ℕ
  pub failure_reason : Option String
  pub created_at : ℕ

pub record Team : Type 0 where
  pub id : ℕ
  pub enabled : Bool
  pub execution_paused : Bool
  pub max_concurrent_tasks : ℕ
  pub archived_at : Option ℕ

pub record TaskPhaseRun : Type 0 where
  pub task_id : ℕ
  pub stage : Stage
  pub status : TaskStatus
  pub wait_reason : WaitReason
  pub actor : String
  pub requirement_version : ℕ
  pub started_at : ℕ
  pub finished_at : Option ℕ

pub data AssignmentStatus : Type 0 where
  queued running completed cancelled failed : AssignmentStatus

pub record TaskAssignment : Type 0 where
  pub task_id : ℕ
  pub status : AssignmentStatus
  pub started_at : Option ℕ
  pub completed_at : Option ℕ

pub record TaskDependency : Type 0 where
  pub task_id : ℕ
  pub prerequisite_id : ℕ

-- The event of a transition, with the keys of its payload but the cause.
pub record LifecycleEvent : Type 0 where
  pub task_id : ℕ
  pub actor : String
  pub action : Action
  pub before : EngineeringState
  pub after : EngineeringState
  pub version : ℕ

pub data ReviewDecision : Type 0 where
  classify_after_phase classify_after_resume classify_pending stale : ReviewDecision
  feedback_pending feedback_applied authority_revoked other_decision : ReviewDecision

-- `body` is the key of that name in `feedback`. The table is kept in the order of `created_at`.
pub record ReviewCycle : Type 0 where
  pub id : ℕ
  pub task_id : ℕ
  pub decision : ReviewDecision
  pub head_sha : String
  pub actor : String
  pub body : String

-- `next_feedback` is the key of that name in `checkpoint`. The latest generation of a task stands
-- first.
pub record DeveloperSession : Type 0 where
  pub id : ℕ
  pub task_id : ℕ
  pub native_session_id : Option String
  pub next_feedback : Option String

pub record Database : Type 0 where
  pub tasks : List Task
  pub jobs : List Job
  pub teams : List Team
  pub phase_runs : List TaskPhaseRun
  pub assignments : List TaskAssignment
  pub dependencies : List TaskDependency
  pub lifecycle_events : List LifecycleEvent
  pub review_cycles : List ReviewCycle
  pub sessions : List DeveloperSession
  -- The next identifier that `uuid4` gives.
  pub next_id : ℕ
  -- `enqueue_task_wakeup`: the task and its version.
  pub wakeups : List (ℕ × ℕ)
  -- `notify_engineering`: the task and the action.
  pub notices : List (ℕ × Action)

abbrev pub task_key : Task → ℕ
task_key t = t.id

abbrev pub job_key : Job → ℕ
job_key j = j.id

abbrev pub session_key : DeveloperSession → ℕ
session_key s = s.id

abbrev pub team_key : Team → ℕ
team_key t = t.id
