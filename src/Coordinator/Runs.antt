-- ===== src/Coordinator/Runs.antt =====
-- coordinator/infrastructure/processor.py (`SqlCoordinationRuns`) with `requeue_run_events` of
-- queries.py. Each method is one transaction; `skipped` and `locked` tell the events and the tasks
-- that another transaction has locked, and `requirement` is `current_requirement`, whose error is
-- the first 500 characters of its text. The packet for the model, the event rows and the AI runs are not modelled.
pub mod Decisions
pub mod Serial
pub mod Kept
pub mod Steps
pub mod Process
pub mod Release
pub mod Tests
use dev_workflow_automation.Common.{
  ℕ, ◌+◌, ◌==◌, leb, ltb, Bool, true, false, not, ◌&&◌, ◌||◌, Option, none, some, List, [], ◌∷◌,
  any, keep, map, String, str_eq, if◌then◌else◌, first_of, sort_by, limit, last_where, find, amend,
  Result, ok, err,
}
use dev_workflow_automation.Engineering.Rows.{Task, Team, task_key, team_key}
use dev_workflow_automation.Engineering.Jobs.{team_open, team_of}
use dev_workflow_automation.Engineering.Transitions.{is_missing}
use dev_workflow_automation.Coordinator.Protocol.{Decision}
use dev_workflow_automation.Coordinator.Rows.{
  CoordinatorEvent, EventStatus, CoordinatorMode, CoordinatorRun, RunStatus, CoordinatorAction,
  ActionStatus, Tables, Settings, authorized, is_active, is_running, at_versions, reply_to, run_key,
  event_key,
}

-- `SituationChanged`, and the values of `ValueError`.
pub data RunError : Type 0 where
  situation_changed authority_changed identity_changed : RunError

abbrev pub is_queued : EventStatus → Bool
is_queued EventStatus.queued = true
is_queued _ = false

abbrev pub is_claimed : RunStatus → Bool
is_claimed RunStatus.claimed = true
is_claimed _ = false

-- `status in ("CLAIMED", "READY")`
abbrev pub is_live : RunStatus → Bool
is_live RunStatus.claimed = true
is_live RunStatus.ready = true
is_live _ = false

abbrev pub has_live : Tables → ℕ → Bool
has_live s id = any (λ r. r.task_id == id && is_live r.status) s.runs

abbrev pub is_due : Tables → ℕ → CoordinatorEvent → Bool
is_due s now e = is_queued e.status && leb e.available_at now && not (has_live s e.task_id)

abbrev pub next_event : (CoordinatorEvent → Bool) → Tables → ℕ → Option CoordinatorEvent
next_event skipped s now =
    first_of (λ a b. ltb a.available_at b.available_at)
      (keep (λ e. is_due s now e && not (skipped e)) s.events)

-- The five oldest events of the task.
abbrev pub batch_of : (CoordinatorEvent → Bool) → Tables → ℕ → ℕ → List CoordinatorEvent
batch_of skipped s id now = limit 5 (
    sort_by (λ a b. ltb a.created_at b.created_at)
      (keep (λ e. e.task_id == id && is_queued e.status && leb e.created_at now && not (skipped e))
        s.events))

pub data Admission : Type 0 where
  admitted suspended unauthorized : Admission

abbrev is_off : CoordinatorMode → Bool
is_off CoordinatorMode.off = true
is_off _ = false

abbrev pub admission : Settings → Task → CoordinatorEvent → Admission
admission set t e =
    if is_off set.coordinator_mode || not (any (str_eq (reply_to e)) set.coordinator_providers)
    then Admission.suspended
    else if authorized set t e
    then Admission.admitted
    else Admission.unauthorized

abbrev pub is_admitted : Admission → Bool
is_admitted Admission.admitted = true
is_admitted _ = false

-- The new columns of an event of the batch.
abbrev mark : EventStatus → ℕ → Admission → CoordinatorEvent → CoordinatorEvent
mark status run Admission.admitted e = record e { status = status; run_id = some run }
mark status run Admission.suspended e = record e { status = EventStatus.suspended }
mark status run Admission.unauthorized e = record e { status = EventStatus.unauthorized }

abbrev pub mark_batch :
    Settings
    → Task
    → EventStatus
    → ℕ
    → List CoordinatorEvent
    → List CoordinatorEvent
    → List CoordinatorEvent
mark_batch set t status run batch events =
    map (λ e. if any (λ b. b.id == e.id) batch then mark status run (admission set t e) e else e)
      events

-- `latest`: the last event that engineering has not sent, else the last.
abbrev pub latest_of : List CoordinatorEvent → Option CoordinatorEvent
latest_of events = elim (last_where (λ e. not (str_eq e.provider "engineering")) events) [
  | none ↦ last_where (λ e. true) events
  | some e ↦ some e
]

abbrev pub new_run : Settings → Tables → Task → CoordinatorEvent → ℕ → CoordinatorRun
new_run set s t e now = record {
  id = s.next_id;
  task_id = t.id;
  mode = set.coordinator_mode;
  status = RunStatus.claimed;
  requirement_revision = t.requirement_version;
  lifecycle_revision = t.lifecycle_version;
  decision = none;
  event_id = e.id;
  error = none;
  created_at = now;
  finished_at = none;
}

pub record Claimed : Type 0 where
  pub run_id : ℕ
  pub task_id : ℕ
  pub provider : String

abbrev pub add_run :
    Settings → Tables → Task → List CoordinatorEvent → EventStatus → CoordinatorRun → Tables
add_run set s t batch status r = record s {
  runs = r ∷ s.runs;
  events = mark_batch set t status r.id batch s.events;
  next_id = s.next_id + 1;
}

abbrev pub start_run :
    Settings
    → Tables
    → Task
    → List CoordinatorEvent
    → CoordinatorEvent
    → ℕ
    → Result String String
    → Tables × Option Claimed
start_run set s t batch e now (err text) = (
  add_run set s t batch EventStatus.failed (record (new_run set s t e now) {
    status = RunStatus.failed;
    error = some text;
    finished_at = some now;
  }),
  none,
)
start_run set s t batch e now (ok requirement) = (
  add_run set s t batch EventStatus.claimed (new_run set s t e now),
  some (record { run_id = s.next_id; task_id = t.id; provider = reply_to e }),
)

abbrev pub claim_latest :
    Settings
    → (Task → Result String String)
    → Tables
    → Task
    → List CoordinatorEvent
    → ℕ
    → Option CoordinatorEvent
    → Tables × Option Claimed
claim_latest set requirement s t batch now none =
    (record s { events = mark_batch set t EventStatus.claimed s.next_id batch s.events }, none)
claim_latest set requirement s t batch now (some e) = start_run set s t batch e now (requirement t)

abbrev pub claim_batch :
    Settings
    → (Task → Result String String)
    → Tables
    → Task
    → List CoordinatorEvent
    → ℕ
    → Tables × Option Claimed
claim_batch set requirement s t batch now =
    claim_latest set requirement s t batch now
      (latest_of (keep (λ e. is_admitted (admission set t e)) batch))

abbrev suspend_event : CoordinatorEvent → CoordinatorEvent
suspend_event e = record e { status = EventStatus.suspended }

abbrev pub claim_task :
    Settings
    → (Task → Result String String)
    → (CoordinatorEvent → Bool)
    → Tables
    → CoordinatorEvent
    → ℕ
    → Option Task
    → Tables × Option Claimed
claim_task set requirement skipped s e now none = (s, none)
claim_task set requirement skipped s e now (some t) =
    if has_live s t.id
    then (s, none)
    else if not (is_running s.db t) || t.manual_takeover
    then (record s { events = amend event_key e.id suspend_event s.events }, none)
    else claim_batch set requirement s t (batch_of skipped s t.id now) now

abbrev pub claim_event :
    Settings
    → (Task → Result String String)
    → (CoordinatorEvent → Bool)
    → (ℕ → Bool)
    → Tables
    → ℕ
    → Option CoordinatorEvent
    → Tables × Option Claimed
claim_event set requirement skipped locked s now none = (s, none)
claim_event set requirement skipped locked s now (some e) =
    if locked e.task_id
    then (s, none)
    else claim_task set requirement skipped s e now (find task_key e.task_id s.db.tasks)

unfoldable pub claim :
    Settings
    → (Task → Result String String)
    → (CoordinatorEvent → Bool)
    → (ℕ → Bool)
    → Tables
    → ℕ
    → Tables × Option Claimed
claim set requirement skipped locked s now =
    claim_event set requirement skipped locked s now (next_event skipped s now)
