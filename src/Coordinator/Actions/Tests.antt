-- ===== src/Coordinator/Actions/Tests.antt =====
-- Tests of the execution of a request to pause.
use dev_workflow_automation.Common.{
  Distinct, inl, Bool, true, false, none, some, [], ◌∷◌, In, first_of, find, ok, err, ◌≡◌, ◌⊎◌,
  refl,
}
use dev_workflow_automation.Engineering.Lifecycle.{TaskStatus}
use dev_workflow_automation.Engineering.Rows.{Database}
use dev_workflow_automation.Coordinator.Protocol.{Directive, Decision, validate_effect}
use dev_workflow_automation.Coordinator.Rows.{
  RunStatus, CoordinatorAction, ActionStatus, Tables, action_key, coordination_mode, authorized,
}
use dev_workflow_automation.Coordinator.Outbox.Tests.{
  task, db, event, decision, settings, action, confirmed_row,
}
use dev_workflow_automation.Coordinator.Runs.Tests.{run, free_task, idle, idle-LeavesCoordination}
use dev_workflow_automation.Coordinator.Outbox.{is_executed}
use dev_workflow_automation.Coordinator.Actions.Settled.{executes, executed_stays}
use dev_workflow_automation.Coordinator.Guards.{Effects, ApplyError, latest_human_request}
use dev_workflow_automation.Coordinator.Actions.{
  is_executable, execute_one, perform, record_effect, apply,
}
use dev_workflow_automation.Coordinator.Actions.Permission.{Allowed, executed-Allowed}
use dev_workflow_automation.Coordinator.Actions.Decided.{HasMoved, RowsAre, IsDecided}
use dev_workflow_automation.Coordinator.Actions.Progress.{handled-IsDecided}

abbrev pause : Decision
pause = record decision { action = Directive.pause }

abbrev intent : CoordinatorAction
intent = record (action ActionStatus.pending none none) {
  decision = pause;
  kind = Directive.pause;
  run_id = 60;
  outgoing = none;
}

abbrev before : Tables
before = record {
  db = db;
  events = record event { run_id = some 60 } ∷ [];
  runs = record run { status = RunStatus.ready } ∷ [];
  actions = intent ∷ [];
  human_requests = [];
  next_id = 61;
}

abbrev paused_db : Database
paused_db = record db {
  tasks = record task { status = TaskStatus.paused; lifecycle_version = 4 } ∷ [];
}

abbrev effects : Effects
effects = record {
  control_task = λ s id a w. ok (record s { db = paused_db });
  request_engineering = λ s a t d. err ApplyError.engineering_busy;
  request_validation = λ s a t. ok s;
  sync_status = λ s t. s;
  has_review_target = λ t. false;
}

abbrev unlocked : CoordinatorAction → Bool
unlocked a = false

abbrev after : Tables
after = (execute_one settings effects free_task unlocked before 20).0

paused_task : after.db ≡ paused_db
unfolding execute_one first_of find apply perform record_effect validate_effect authorized
    coordination_mode latest_human_request
paused_task = refl

executed-Allowed_example :
    (after.db ≡ before.db)
    ⊎ ((a : CoordinatorAction) × In a before.actions
        × (is_executable free_task before a ≡ true)
        × Allowed settings effects before a 20 after)
executed-Allowed_example = executed-Allowed settings effects free_task unlocked before 20

was_handled : (execute_one settings effects free_task unlocked before 20).1 ≡ true
unfolding execute_one first_of find apply perform record_effect validate_effect authorized
    coordination_mode latest_human_request
was_handled = refl

handled-IsDecided_example :
    (a : CoordinatorAction) × In a before.actions
    × (is_executable free_task before a ≡ true)
    × IsDecided settings effects before a 20 after
    × (HasMoved before a → RowsAre ActionStatus.superseded a.id after)
handled-IsDecided_example =
    handled-IsDecided settings effects free_task unlocked before 20 was_handled

-- A confirmed delivery beside the intent.
abbrev beside : Tables
beside = record before { actions = confirmed_row ∷ record intent { id = 6 } ∷ [] }

beside-Distinct : Distinct action_key beside.actions
unfolding find
beside-Distinct = (refl, (refl, tt))

executed_stays_example :
    (b : CoordinatorAction) × In b
      (execute_one settings idle free_task unlocked beside 20).0.actions
    × (b.id ≡ 5)
    × (is_executed b.status ≡ true)
executed_stays_example =
    executed_stays settings idle beside (execute_one settings idle free_task unlocked beside 20).0
      confirmed_row idle-LeavesCoordination (executes beside free_task unlocked 20) beside-Distinct
      (inl refl) refl
