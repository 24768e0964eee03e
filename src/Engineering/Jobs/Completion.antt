-- ===== src/Engineering/Jobs/Completion.antt =====
-- `SqlPhaseJobs.complete` and `SqlPhaseJobs.block`.
use dev_workflow_automation.Common.{
  ℕ, ◌==◌, Bool, true, false, not, ◌&&◌, Option, none, some, if◌then◌else◌, map, String, Result, ok,
  err, find, store,
}
use dev_workflow_automation.Engineering.Lifecycle.{WaitReason, Action}
use dev_workflow_automation.Engineering.Phases.{phase_result}
use dev_workflow_automation.Engineering.Rows.{
  Task, Job, JobState, ReviewCycle, Database, task_key, job_key,
}
use dev_workflow_automation.Engineering.Transitions.{Request, record_transition}
use dev_workflow_automation.Engineering.Jobs.{PhaseLease, JobError, is_runnable, is_after, locked}
use dev_workflow_automation.Engineering.Jobs.Feedback.{
  recorded, then_enqueue, apply_pending_feedback, release_row,
}

-- The columns of a job whose lease has ended.
abbrev pub close_job : Job → JobState → ℕ → Job
close_job j state now = record j {
  state = state;
  finished_at = some now;
  lease_token = none;
  lease_expires_at = none;
}

abbrev pub is_published : Action → Bool
is_published Action.published = true
is_published _ = false

abbrev pub complete_request : PhaseLease → Action → String → Request
complete_request lease action worker = record {
  action = action;
  expected_version = lease.lifecycle_version;
  actor = worker;
  wait_reason = WaitReason.no_wait;
  external_wait = false;
}

abbrev pub block_request : PhaseLease → WaitReason → String → Request
block_request lease reason worker = record {
  action = Action.block;
  expected_version = lease.lifecycle_version;
  actor = worker;
  wait_reason = reason;
  external_wait = false;
}

-- The worker: its name, whether the coordinator is on, and `actor_allowed`.
pub record Worker : Type 0 where
  pub name : String
  pub coordinator_on : Bool
  pub allowed : ReviewCycle → Bool

-- After a publication: the waiting rows are released and the pending feedback is applied to the
-- task as the transition wrote it.
unfoldable pub after_publication :
    Worker → Database → ℕ → ℕ → Option Task → Result JobError Database
after_publication w db id now none = ok db
after_publication w db id now (some t) =
    apply_pending_feedback w.allowed w.coordinator_on
      (record db { review_cycles = map (release_row t) db.review_cycles }) t now

unfoldable pub publish : Worker → Database → ℕ → ℕ → Result JobError Database
publish w db id now = after_publication w db id now (find task_key id db.tasks)

-- The job is closed once its transition is written.
unfoldable pub succeed : Database → Job → Action → ℕ → Database
succeed db j action now = record db {
  jobs =
      store job_key (record (close_job j JobState.succeeded now) { result = some action }) db.jobs;
}

-- The end of the job once its transition is written, and what a publication releases.
abbrev pub then_succeed :
    Worker → ℕ → Job → Action → ℕ → Result JobError Database → Result JobError Database
then_succeed w id j action now (ok db) =
    let db' = succeed db j action now in
    if is_published action then publish w db' id now else ok db'
then_succeed w id j action now (err e) = err e

-- The transition, the job's end, and the next unit.
unfoldable pub perform :
    Worker → Database → PhaseLease → Action → ℕ → Task → Job → Result JobError Database
perform w db lease action now t j = then_enqueue t.id now (
    then_succeed w t.id j action now (
      recorded
        (record_transition w.coordinator_on db t.id (complete_request lease action w.name) now)))

-- What follows the guards of `complete`.
unfoldable pub advance_task :
    Worker → Database → PhaseLease → Action → ℕ → Task → Job → Result JobError Database
advance_task w db lease action now t j =
    if phase_result lease.action action
    then perform w db lease action now t j
    else err JobError.result_mismatch

-- The guards of `complete` after `_locked`.
abbrev pub may_complete : PhaseLease → ℕ → Task → Job → Bool
may_complete lease now t j =
    t.lifecycle_version == lease.lifecycle_version
    && is_runnable t.status
    && not t.manual_takeover
    && is_after j.lease_expires_at now

abbrev pub complete_locked :
    Worker → Database → PhaseLease → Action → ℕ → Option (Task × Job) → Result JobError Database
complete_locked w db lease action now none = ok db
complete_locked w db lease action now (some (t, j)) =
    if may_complete lease now t j then advance_task w db lease action now t j else ok db

unfoldable pub complete : Worker → Database → PhaseLease → Action → ℕ → Result JobError Database
complete w db lease action now = complete_locked w db lease action now (locked db lease)

-- `block`: the job waits for a human, and so does the task if it is still the lease's.
abbrev pub block_locked :
    Worker
    → Database
    → PhaseLease
    → WaitReason
    → String
    → ℕ
    → Option (Task × Job)
    → Result JobError Database
block_locked w db lease reason message now none = ok db
block_locked w db lease reason message now (some (t, j)) =
    let db' = record db {
      jobs =
          store job_key
            (record (close_job j JobState.waiting_human now) { failure_reason = some message })
            db.jobs;
    } in
    if t.lifecycle_version == lease.lifecycle_version && is_runnable t.status
    then recorded
        (record_transition w.coordinator_on db' t.id (block_request lease reason w.name) now)
    else ok db'

-- `message` is given cut to 1,000 characters.
unfoldable pub block :
    Worker → Database → PhaseLease → WaitReason → String → ℕ → Result JobError Database
block w db lease reason message now = block_locked w db lease reason message now (locked db lease)
