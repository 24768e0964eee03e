-- ===== src/Engineering/Jobs/Feedback.antt =====
-- intake/infrastructure/engineering_events.py: `apply_pending_feedback`, which a publication
-- runs. `allowed` is `actor_allowed`: whether the Team's policy still admits the reviewer of a row.
use Prim.Native.String.{◌++◌ as str_append, count}
use dev_workflow_automation.Common.{
  ℕ, ◌==◌, ltb, Bool, true, false, not, ◌&&◌, ◌||◌, Option, none, some, if◌then◌else◌, List, [],
  ◌∷◌, map, keep, String, str_eq, Result, ok, err, find, store,
}
use dev_workflow_automation.Engineering.Lifecycle.{
  TaskStatus, WaitReason, Action, EngineeringState, is_reviewing,
}
use dev_workflow_automation.Engineering.Rows.{
  Task, ReviewCycle, ReviewDecision, DeveloperSession, Database, task_key, session_key,
}
use dev_workflow_automation.Engineering.Transitions.{Error, record_transition}
use dev_workflow_automation.Engineering.Jobs.{JobError, enqueue_phase}

-- `status in {"PAUSED", "WAITING_HUMAN", "MERGED", "CANCELLED", "FAILED"}`
abbrev pub takes_no_feedback : TaskStatus → Bool
takes_no_feedback TaskStatus.paused = true
takes_no_feedback TaskStatus.waiting_human = true
takes_no_feedback TaskStatus.merged = true
takes_no_feedback TaskStatus.cancelled = true
takes_no_feedback TaskStatus.failed = true
takes_no_feedback _ = false

abbrev is_feedback_pending : ReviewDecision → Bool
is_feedback_pending ReviewDecision.feedback_pending = true
is_feedback_pending _ = false

abbrev is_classify_after : ReviewDecision → Bool
is_classify_after ReviewDecision.classify_after_phase = true
is_classify_after _ = false

abbrev is_revision : Option String → String → Bool
is_revision none sha = false
is_revision (some revision) sha = str_eq sha revision

-- The rows that wait for the task's current revision.
abbrev pub is_due : Task → ReviewCycle → Bool
is_due t row =
    row.task_id == t.id
    && is_feedback_pending row.decision
    && is_revision t.current_revision row.head_sha

-- `"\n\n".join(bodies)`
unfoldable pub join : List ReviewCycle → String
join [] = ""
join (row ∷ []) = row.body
join (row ∷ rows) = str_append row.body (str_append "\n\n" (join rows))

unfoldable pub decide_row : (ReviewCycle → Bool) → Task → ReviewDecision → ReviewCycle → ReviewCycle
decide_row chosen t decision row =
    if is_due t row && chosen row then record row { decision = decision } else row

abbrev session_of : ℕ → DeveloperSession → Bool
session_of id s = s.task_id == id

unfoldable pub latest_session : ℕ → List DeveloperSession → Option DeveloperSession
latest_session id [] = none
latest_session id (s ∷ sessions) = if s.task_id == id then some s else latest_session id sessions

abbrev pub recorded : Result Error (Database × EngineeringState) → Result JobError Database
recorded (ok (db, after)) = ok db
recorded (err e) = err (JobError.not_recorded e)

-- `enqueue_phase` reads the task that the transition has just written.
abbrev pub enqueue_again : ℕ → ℕ → Database → Option Task → Database
enqueue_again id now db none = db
enqueue_again id now db (some t) = enqueue_phase db t now

abbrev pub enqueue_next : ℕ → ℕ → Database → Database
enqueue_next id now db = enqueue_again id now db (find task_key id db.tasks)

abbrev pub then_enqueue : ℕ → ℕ → Result JobError Database → Result JobError Database
then_enqueue id now (ok db) = ok (enqueue_next id now db)
then_enqueue id now (err e) = err e

-- The feedback is longer than a session takes: the task waits for a human.
unfoldable pub block_oversized : Bool → Database → Task → ℕ → Result JobError Database
block_oversized on db t now = recorded (
    record_transition on db t.id
      (record {
        action = Action.block;
        expected_version = t.lifecycle_version;
        actor = "review";
        wait_reason = WaitReason.missing_requirement;
        external_wait = false;
      })
      now)

-- The feedback goes to the session, its rows are settled, and the task goes back to fixing.
unfoldable pub hand_over :
    Bool
    → Database
    → Task
    → ℕ
    → List ReviewCycle
    → (ReviewCycle → Bool)
    → DeveloperSession
    → Result JobError Database
hand_over on db t now rows allowed s =
    let feedback =
      str_append
        "Address this new authorized PR feedback; original requirement remains authoritative:\n"
        (join rows) in
    then_enqueue t.id now (
      recorded (
        record_transition on
          (record db {
            sessions = store session_key (record s { next_feedback = some feedback }) db.sessions;
            review_cycles =
                map (decide_row allowed t ReviewDecision.feedback_applied) db.review_cycles;
          })
          t.id
          (record {
            action = Action.review_fix;
            expected_version = t.lifecycle_version;
            actor = "github-review";
            wait_reason = WaitReason.no_wait;
            external_wait = false;
          })
          now))

-- A session without a native identity (`none` also stands for the empty text) is an error.
abbrev pub with_native :
    Bool
    → Database
    → Task
    → ℕ
    → List ReviewCycle
    → (ReviewCycle → Bool)
    → DeveloperSession
    → Option String
    → Result JobError Database
with_native on db t now rows allowed s none = err JobError.native_session_missing
with_native on db t now rows allowed s (some native) =
    if ltb 16000 (count (join rows))
    then block_oversized on db t now
    else hand_over on db t now rows allowed s

abbrev pub with_session :
    Bool
    → Database
    → Task
    → ℕ
    → List ReviewCycle
    → (ReviewCycle → Bool)
    → Option DeveloperSession
    → Result JobError Database
with_session on db t now rows allowed none = err JobError.native_session_missing
with_session on db t now rows allowed (some s) =
    with_native on db t now rows allowed s s.native_session_id

abbrev pub no_rows : List ReviewCycle → Bool
no_rows [] = true
no_rows (row ∷ rows) = false

unfoldable pub apply_pending_feedback :
    (ReviewCycle → Bool) → Bool → Database → Task → ℕ → Result JobError Database
apply_pending_feedback allowed on db t now =
    if takes_no_feedback t.status || t.manual_takeover || not (is_reviewing t.stage)
    then ok db
    else let rows = keep (λ row. is_due t row && allowed row) db.review_cycles in
      let db' = record db {
        review_cycles =
            map (decide_row (λ row. not (allowed row)) t ReviewDecision.authority_revoked)
              db.review_cycles;
      } in
      if no_rows rows
      then ok db'
      else with_session on db' t now rows allowed (latest_session t.id db.sessions)

-- The rows that waited for the phase to end are classified now, or are out of date.
unfoldable pub release_row : Task → ReviewCycle → ReviewCycle
release_row t row =
    if row.task_id == t.id && is_classify_after row.decision
    then record row {
      decision =
          if is_revision t.current_revision row.head_sha
          then ReviewDecision.classify_pending
          else ReviewDecision.stale;
    }
    else row
