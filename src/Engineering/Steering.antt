-- ===== src/Engineering/Steering.antt =====
-- engineering/infrastructure/controls.py: `control_task`, the operations by which people, Teams and
-- the coordinator steer a task. `allowed` is `actor_allowed` on the rows of the feedback.
pub mod Stops
pub mod Tests
use dev_workflow_automation.Common.{
  ℕ, ◌==◌, Bool, true, false, not, ◌&&◌, ◌||◌, Option, none, some, if◌then◌else◌, map, keep, String,
  Result, ok, err, find,
}
use dev_workflow_automation.Engineering.Lifecycle.{TaskStatus, WaitReason, Action, is_reviewing}
use dev_workflow_automation.Engineering.Rows.{
  Task, Job, JobState, ReviewCycle, ReviewDecision, Database, task_key,
}
use dev_workflow_automation.Engineering.Transitions.{record_transition}
use dev_workflow_automation.Engineering.Jobs.{JobError, enqueue_phase, team_open, team_of}
use dev_workflow_automation.Engineering.Jobs.Feedback.{
  recorded, enqueue_next, takes_no_feedback, is_due, no_rows, apply_pending_feedback,
}

-- The Team's execution is off (`InvalidTransition`), or a part of the control failed.
pub data ControlError : Type 0 where
  team_closed : ControlError
  failed : JobError → ControlError

pub record Steer : Type 0 where
  pub action : Action
  pub actor : String
  pub wait_reason : WaitReason

-- `action in {RESUME, RELEASE_TAKEOVER}`
abbrev pub is_resuming : Action → Bool
is_resuming Action.resume = true
is_resuming Action.release_takeover = true
is_resuming _ = false

abbrev is_new : TaskStatus → Bool
is_new TaskStatus.new = true
is_new _ = false

-- The states that end a job are left alone.
abbrev pub is_open : JobState → Bool
is_open JobState.queued = true
is_open JobState.claimed = true
is_open JobState.running = true
is_open JobState.retry_wait = true
is_open JobState.waiting_human = true
is_open JobState.waiting_provider = true
is_open JobState.waiting_configuration = true
is_open JobState.waiting_integration = true
is_open _ = false

abbrev cancelled : ℕ → Job → Job
cancelled now j = record j {
  state = JobState.cancelled;
  finished_at = some now;
  lease_token = none;
  lease_expires_at = none;
}

abbrev pub cancel_job : ℕ → ℕ → Job → Job
cancel_job id now j = if j.task_id == id && is_open j.state then cancelled now j else j

abbrev pub cancel_jobs : ℕ → ℕ → Database → Database
cancel_jobs id now db = record db { jobs = map (cancel_job id now) db.jobs }

abbrev waits_for_resume : ReviewDecision → Bool
waits_for_resume ReviewDecision.classify_after_resume = true
waits_for_resume _ = false

abbrev reclassify : ℕ → ReviewCycle → ReviewCycle
reclassify id row =
    if row.task_id == id && waits_for_resume row.decision
    then record row { decision = ReviewDecision.classify_pending }
    else row

-- Whether `apply_pending_feedback` returns true.
abbrev applies_feedback : (ReviewCycle → Bool) → Database → Task → Bool
applies_feedback allowed db t =
    not (takes_no_feedback t.status || t.manual_takeover || not (is_reviewing t.stage))
    && not (no_rows (keep (λ row. is_due t row && allowed row) db.review_cycles))

abbrev resume_rows :
    (ReviewCycle → Bool) → Bool → ℕ → ℕ → Database → Option Task → Result JobError Database
resume_rows allowed on id now db none = ok db
resume_rows allowed on id now db (some t) =
    let acts = applies_feedback allowed db t in
    elim (apply_pending_feedback allowed on db t now) [
      | err e ↦ err e
      | ok db' ↦ ok (if acts then db' else enqueue_next id now db')
    ]

abbrev resume_task : (ReviewCycle → Bool) → Bool → ℕ → ℕ → Database → Result JobError Database
resume_task allowed on id now db =
    let db' = record db { review_cycles = map (reclassify id) db.review_cycles } in
    resume_rows allowed on id now db' (find task_key id db.tasks)

-- After the jobs are cancelled.
abbrev pub go_on :
    (ReviewCycle → Bool) → Bool → Action → ℕ → ℕ → Database → Result JobError Database
go_on allowed on action id now db =
    if is_resuming action then resume_task allowed on id now db else ok (enqueue_next id now db)

abbrev pub raised : Result JobError Database → Result ControlError Database
raised (err e) = err (ControlError.failed e)
raised (ok db) = ok db

abbrev pub stop_jobs :
    (ReviewCycle → Bool)
    → Bool
    → Action
    → ℕ
    → ℕ
    → Result JobError Database
    → Result ControlError Database
stop_jobs allowed on action id now (err e) = err (ControlError.failed e)
stop_jobs allowed on action id now (ok db) =
    raised (go_on allowed on action id now (cancel_jobs id now db))

abbrev pub steer_task :
    (ReviewCycle → Bool) → Bool → Database → Task → Steer → ℕ → Result ControlError Database
steer_task allowed on db t c now = stop_jobs allowed on c.action t.id now (
    recorded (
      record_transition on db t.id
        (record {
          action = c.action;
          expected_version = t.lifecycle_version;
          actor = c.actor;
          wait_reason = c.wait_reason;
          external_wait = false;
        })
        now))

unfoldable pub control_task :
    (ReviewCycle → Bool) → Bool → Database → Task → Steer → ℕ → Result ControlError Database
control_task allowed on db t c now =
    if is_resuming c.action && not (team_open (team_of db t.team_id))
    then err ControlError.team_closed
    else if is_resuming c.action && is_new t.status && not t.manual_takeover
    then ok (enqueue_phase db t now)
    else steer_task allowed on db t c now
