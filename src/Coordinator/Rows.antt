-- ===== src/Coordinator/Rows.antt =====
-- The rows of coordinator/infrastructure/models.py, with the columns and the keys of the JSON
-- columns that the modelled code reads or writes, and the settings of
-- coordinator/infrastructure/authority.py. Identifiers and times (in seconds) are numbers.
use dev_workflow_automation.Common.{
  ℕ, ◌==◌, Bool, true, false, ◌&&◌, Option, none, some, List, any, String, str_eq, if◌then◌else◌,
}
use dev_workflow_automation.Engineering.Rows.{Task, Database}
use dev_workflow_automation.Engineering.Transitions.{is_missing}
use dev_workflow_automation.Engineering.Jobs.{team_open, team_of}
use dev_workflow_automation.Coordinator.Protocol.{Directive, Decision}

pub data EventStatus : Type 0 where
  queued claimed processed failed suspended unauthorized echo : EventStatus

-- The columns from `body` on are keys of `context`; a missing `body_truncated` is false.
pub record CoordinatorEvent : Type 0 where
  pub id : ℕ
  pub task_id : ℕ
  pub provider : String
  pub delivery_key : String
  pub kind : String
  pub actor : String
  pub status : EventStatus
  pub run_id : Option ℕ
  pub available_at : ℕ
  pub created_at : ℕ
  pub body : String
  pub reply_provider : Option String
  pub actor_type : Option String
  pub human_request_id : Option ℕ
  pub head_sha : Option String
  pub body_truncated : Bool
  pub review_cycle_id : Option ℕ
  pub action_id : Option ℕ

-- `coordinator_mode` of the settings.
pub data CoordinatorMode : Type 0 where
  off shadow active : CoordinatorMode

pub data RunStatus : Type 0 where
  claimed ready shadowed completed failed superseded rejected : RunStatus

-- `event_id` is the key of that name in `evidence`.
pub record CoordinatorRun : Type 0 where
  pub id : ℕ
  pub task_id : ℕ
  pub mode : CoordinatorMode
  pub status : RunStatus
  pub requirement_revision : ℕ
  pub lifecycle_revision : ℕ
  pub decision : Option Decision
  pub event_id : ℕ
  pub error : Option String
  pub created_at : ℕ
  pub finished_at : Option ℕ

pub data ActionStatus : Type 0 where
  pending waiting_engineer delivery_pending sending unknown : ActionStatus
  reconciling executed superseded rejected : ActionStatus

-- The keys of `arguments` that the effect of a decision adds.
pub record Outgoing : Type 0 where
  pub provider : String
  pub message : String
  pub requirement_revision : ℕ
  pub lifecycle_revision : ℕ

-- `decision`, `event_id`, `outgoing`, `reconcile_requested` and `reconcile_started_at` are keys of
-- `arguments`; a missing `reconcile_requested` is false.
pub record CoordinatorAction : Type 0 where
  pub id : ℕ
  pub run_id : ℕ
  pub task_id : ℕ
  pub kind : Directive
  pub status : ActionStatus
  pub decision : Decision
  pub event_id : ℕ
  pub outgoing : Option Outgoing
  pub reconcile_requested : Bool
  pub reconcile_started_at : Option ℕ
  pub provider_effect_ref : Option String
  pub error : Option String
  pub created_at : ℕ
  pub attempted_at : Option ℕ

pub data RequestStatus : Type 0 where
  opened answered cancelled : RequestStatus

pub record HumanRequest : Type 0 where
  pub id : ℕ
  pub task_id : ℕ
  pub run_id : ℕ
  pub status : RequestStatus
  pub requirement_revision : ℕ
  pub lifecycle_revision : ℕ
  pub answer : Option String
  pub created_at : ℕ
  pub answered_at : Option ℕ

pub record Tables : Type 0 where
  pub db : Database
  pub events : List CoordinatorEvent
  pub runs : List CoordinatorRun
  pub actions : List CoordinatorAction
  pub human_requests : List HumanRequest
  -- The next identifier that `uuid4` gives.
  pub next_id : ℕ

abbrev pub event_key : CoordinatorEvent → ℕ
event_key e = e.id

abbrev pub run_key : CoordinatorRun → ℕ
run_key r = r.id

abbrev pub action_key : CoordinatorAction → ℕ
action_key a = a.id

abbrev pub request_key : HumanRequest → ℕ
request_key h = h.id

-- The settings, and `actor_allowed` of intake/infrastructure/authorization.py, which reads the
-- policies of the providers: any test.
pub record Settings : Type 0 where
  pub coordinator_mode : CoordinatorMode
  pub coordinator_providers : List String
  pub actor_allowed : Task → CoordinatorEvent → Bool

unfoldable pub coordination_mode : Settings → String → CoordinatorMode
coordination_mode set provider =
    if any (str_eq provider) set.coordinator_providers
    then set.coordinator_mode
    else CoordinatorMode.off

abbrev pub is_active : CoordinatorMode → Bool
is_active CoordinatorMode.active = true
is_active _ = false

unfoldable pub authorized : Settings → Task → CoordinatorEvent → Bool
authorized set t e =
    if str_eq e.provider "dashboard"
    then str_eq e.actor "local-operator"
    else if str_eq e.provider "engineering"
    then str_eq e.actor "engineering"
    else set.actor_allowed t e

-- `context.get("reply_provider", provider)`
abbrev pub provider_of : Option String → String → String
provider_of none provider = provider
provider_of (some reply) provider = reply

abbrev pub reply_to : CoordinatorEvent → String
reply_to e = provider_of e.reply_provider e.provider

-- The Team may run and the task is not archived.
abbrev pub is_running : Database → Task → Bool
is_running db t = team_open (team_of db t.team_id) && is_missing t.archived_at

-- The versions of the task are those that a row has recorded.
abbrev pub at_versions : Task → ℕ → ℕ → Bool
at_versions t lifecycle requirement =
    t.lifecycle_version == lifecycle && t.requirement_version == requirement
