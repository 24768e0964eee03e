-- ===== src/Engineering/Transitions.antt =====
-- engineering/infrastructure/lifecycle.py: `record_transition`, which checks the version, applies
-- `transition` and writes the task with its history in one transaction. The queue of status
-- messages to the trackers (`enqueue_status`) is not modelled. The clock, and whether the
-- coordinator is on, are arguments.
pub mod Versions
use dev_workflow_automation.Common.{
  ℕ, suc, ◌+◌, ◌==◌, Bool, true, false, not, ◌&&◌, ◌||◌, Option, none, some, if◌then◌else◌, List,
  [], ◌∷◌, ◌++◌, map, String, str_eq, Result, ok, err, find, store, strip,
}
use dev_workflow_automation.Engineering.Lifecycle.{
  TaskStatus, Stage, WaitReason, Action, EngineeringState, is_terminal, is_merged,
  Error as TransitionError, post_init, transition,
}
use dev_workflow_automation.Engineering.Rows.{
  Task, TaskPhaseRun, TaskAssignment, AssignmentStatus, LifecycleEvent, Database, task_key,
}

pub data Error : Type 0 where
  actor_unknown task_not_found lifecycle_conflict : Error
  refused : TransitionError → Error

-- `state_of`, which runs the constructor.
unfoldable pub state_of : Task → Result TransitionError EngineeringState
state_of t = post_init (record {
  status = t.status;
  stage = t.stage;
  wait_reason = t.wait_reason;
  requirement_version = t.requirement_version;
  manual_takeover = t.manual_takeover;
})

abbrev pub is_active : TaskStatus → Bool
is_active TaskStatus.active = true
is_active _ = false

abbrev pub is_missing : Option ℕ → Bool
is_missing none = true
is_missing (some n) = false

-- `x or now`, for a column of times.
abbrev pub or_now : Option ℕ → ℕ → Option ℕ
or_now none now = some now
or_now (some t) now = some t

-- The columns of the task after a transition.
unfoldable pub write_task : Task → EngineeringState → ℕ → Task
write_task t after now = record t {
  status = after.status;
  stage = after.stage;
  wait_reason = after.wait_reason;
  requirement_version = after.requirement_version;
  manual_takeover = after.manual_takeover;
  started_at = if is_active after.status then or_now t.started_at now else t.started_at;
  completed_at = if is_merged after.status then some now else t.completed_at;
  lifecycle_version = t.lifecycle_version + 1;
}

-- An open phase of the task is finished now.
abbrev pub finish_phase : ℕ → ℕ → TaskPhaseRun → TaskPhaseRun
finish_phase id now p =
    if p.task_id == id && is_missing p.finished_at then record p { finished_at = some now } else p

abbrev pub next_phase : ℕ → String → EngineeringState → ℕ → TaskPhaseRun
next_phase id actor after now = record {
  task_id = id;
  stage = after.stage;
  status = after.status;
  wait_reason = after.wait_reason;
  actor = actor;
  requirement_version = after.requirement_version;
  started_at = now;
  finished_at = if is_terminal after.status then some now else none;
}

abbrev is_live : AssignmentStatus → Bool
is_live AssignmentStatus.queued = true
is_live AssignmentStatus.running = true
is_live _ = false

-- The status of an assignment whose task has ended.
abbrev ended : TaskStatus → AssignmentStatus
ended TaskStatus.merged = AssignmentStatus.completed
ended TaskStatus.cancelled = AssignmentStatus.cancelled
ended _ = AssignmentStatus.failed

move_assignment : ℕ → EngineeringState → ℕ → TaskAssignment → TaskAssignment
move_assignment id after now a =
    if a.task_id == id && is_live a.status
    then if is_active after.status
      then record a { status = AssignmentStatus.running; started_at = or_now a.started_at now }
      else if is_terminal after.status
      then record a { status = ended after.status; completed_at = some now }
      else a
    else a

-- The actions that the coordinator hears of.
abbrev is_notable : Action → Bool
is_notable Action.published = true
is_notable Action.merged = true
is_notable Action.block = true
is_notable Action.start = true
is_notable Action.implemented = true
is_notable Action.validation_passed = true
is_notable Action.validation_failed = true
is_notable Action.cancel = true
is_notable _ = false

-- All that one accepted transition writes.
unfoldable pub write :
    Bool → Database → Task → Action → String → EngineeringState → EngineeringState → ℕ → Database
unfolding move_assignment
write coordinator_on db t action actor before after now =
    let t' = write_task t after now in
    record db {
      tasks = store task_key t' db.tasks;
      phase_runs =
          map (finish_phase t.id now) db.phase_runs ++ next_phase t.id actor after now ∷ [];
      assignments = map (move_assignment t.id after now) db.assignments;
      lifecycle_events =
          db.lifecycle_events
          ++ record {
            task_id = t.id;
            actor = actor;
            action = action;
            before = before;
            after = after;
            version = t'.lifecycle_version;
          }
            ∷ [];
      wakeups = db.wakeups ++ (t.id, t'.lifecycle_version) ∷ [];
      notices =
          if coordinator_on && not (str_eq actor "coordinator") && is_notable action
          then db.notices ++ (t.id, action) ∷ []
          else db.notices;
    }

-- The arguments of `record_transition` but the task.
pub record Request : Type 0 where
  pub action : Action
  pub expected_version : ℕ
  pub actor : String
  pub wait_reason : WaitReason
  pub external_wait : Bool

abbrev pub after_transition :
    Bool
    → Database
    → Task
    → Request
    → ℕ
    → EngineeringState
    → Result TransitionError EngineeringState
    → Result Error (Database × EngineeringState)
after_transition on db t r now before (err e) = err (Error.refused e)
after_transition on db t r now before (ok after) =
    ok (write on db t r.action r.actor before after now, after)

abbrev pub from_state :
    Bool
    → Database
    → Task
    → Request
    → ℕ
    → Result TransitionError EngineeringState
    → Result Error (Database × EngineeringState)
from_state on db t r now (err e) = err (Error.refused e)
from_state on db t r now (ok before) =
    after_transition on db t r now before (transition before r.action r.wait_reason r.external_wait)

abbrev pub from_task :
    Bool → Database → Request → ℕ → Option Task → Result Error (Database × EngineeringState)
from_task on db r now none = err Error.task_not_found
from_task on db r now (some t) =
    if t.lifecycle_version == r.expected_version
    then from_state on db t r now (state_of t)
    else err Error.lifecycle_conflict

unfoldable pub record_transition :
    Bool → Database → ℕ → Request → ℕ → Result Error (Database × EngineeringState)
record_transition coordinator_on db id r now =
    if str_eq (strip r.actor) ""
    then err Error.actor_unknown
    else from_task coordinator_on db r now (find task_key id db.tasks)
