-- ===== src/Coordinator/Outbox/Tests.antt =====
-- Tests of the deliveries at one reply that a worker leaves in the middle.
use dev_workflow_automation.Common.{
  ℕ, Bool, true, false, ◌&&◌, Option, none, some, [], ◌∷◌, In, first_of, find, ok, ◌≡◌, refl, inl,
  Distinct, String,
}
use dev_workflow_automation.Engineering.Lifecycle.{TaskStatus, Stage, WaitReason}
use dev_workflow_automation.Engineering.Rows.{Task, Team, Database}
use dev_workflow_automation.Coordinator.Protocol.{Directive, Decision}
use dev_workflow_automation.Coordinator.Rows.{
  CoordinatorEvent, EventStatus, CoordinatorMode, CoordinatorAction, ActionStatus, Outgoing, Tables,
  Settings, coordination_mode, authorized, action_key,
}
use dev_workflow_automation.Coordinator.Outbox.{
  OutboundDelivery, DeliveryClaim, claim_delivery, fail_delivery, complete_delivery, recover,
  is_unknown, is_sending, delivery_of, is_delivery_pending,
}
use dev_workflow_automation.Coordinator.Outbox.Steps.{
  claims, fails, completes, Reaches, begins, steps,
}
use dev_workflow_automation.Coordinator.Outbox.Once.{NoRepeats, sent_once}
use dev_workflow_automation.Coordinator.Outbox.Authority.{MaySend, claimed-MaySend}
use dev_workflow_automation.Coordinator.Outbox.Recovery.{is_stuck, was_left, recover_releases}

abbrev pub task : Task
task = record {
  id = 1;
  status = TaskStatus.active;
  stage = Stage.developing;
  wait_reason = WaitReason.no_wait;
  requirement_version = 1;
  lifecycle_version = 3;
  manual_takeover = false;
  team_id = some 2;
  priority = 2;
  current_revision = none;
  started_at = none;
  completed_at = none;
  archived_at = none;
}

abbrev team : Team
team = record {
  id = 2;
  enabled = true;
  execution_paused = false;
  max_concurrent_tasks = 1;
  archived_at = none;
}

abbrev pub db : Database
db = record {
  tasks = task ∷ [];
  jobs = [];
  teams = team ∷ [];
  phase_runs = [];
  assignments = [];
  dependencies = [];
  lifecycle_events = [];
  review_cycles = [];
  sessions = [];
  next_id = 50;
  wakeups = [];
  notices = [];
}

abbrev pub event : CoordinatorEvent
event = record {
  id = 3;
  task_id = 1;
  provider = "dashboard";
  delivery_key = "k";
  kind = "MESSAGE_ADDED";
  actor = "local-operator";
  status = EventStatus.processed;
  run_id = some 4;
  available_at = 0;
  created_at = 0;
  body = "Where are we?";
  reply_provider = none;
  actor_type = none;
  human_request_id = none;
  head_sha = none;
  body_truncated = false;
  review_cycle_id = none;
  action_id = none;
}

abbrev pub decision : Decision
decision = record {
  version = 1;
  action = Directive.reply;
  message = "Nearly done.";
  engineering_request = "";
  reason = "asked";
  choices = [];
  read_tools = [];
  checkpoint = record { goal = "answer"; invariants = []; open_questions = [] };
}

abbrev outgoing : Outgoing
outgoing = record {
  provider = "dashboard";
  message = "Nearly done.";
  requirement_revision = 1;
  lifecycle_revision = 3;
}

abbrev pub action : ActionStatus → Option ℕ → Option String → CoordinatorAction
action status attempted error = record {
  id = 5;
  run_id = 4;
  task_id = 1;
  kind = Directive.reply;
  status = status;
  decision = decision;
  event_id = 3;
  outgoing = some outgoing;
  reconcile_requested = false;
  reconcile_started_at = none;
  provider_effect_ref = none;
  error = error;
  created_at = 0;
  attempted_at = attempted;
}

abbrev tables : CoordinatorAction → Tables
tables a = record {
  db = db;
  events = event ∷ [];
  runs = [];
  actions = a ∷ [];
  human_requests = [];
  next_id = 60;
}

abbrev pub settings : Settings
settings = record {
  coordinator_mode = CoordinatorMode.active;
  coordinator_providers = "trello" ∷ "dashboard" ∷ [];
  actor_allowed = λ t e. false;
}

abbrev nobody : CoordinatorAction → Bool
nobody a = false

abbrev waiting : Tables
waiting = tables (action ActionStatus.delivery_pending none none)

abbrev in_flight : Tables
in_flight = tables (action ActionStatus.sending (some 100) none)

abbrev delivery : OutboundDelivery
delivery = record {
  action_id = 5;
  task_id = 1;
  provider = "dashboard";
  message = "Nearly done.";
  kind = Directive.reply;
  attempted_at = 100;
}

abbrev sent_reply : DeliveryClaim
sent_reply = record { handled = true; delivery = some delivery }

claimed : claim_delivery settings nobody waiting 100 ≡ ok (in_flight, sent_reply)
unfolding claim_delivery first_of find coordination_mode authorized
claimed = refl

abbrev lost : Tables
lost =
    tables
      (record (action ActionStatus.unknown (some 100) (some "lost")) { reconcile_requested = true })

failed : fail_delivery in_flight delivery "lost" true ≡ ok lost
unfolding fail_delivery find
failed = refl

abbrev done : Tables
done = tables (record (action ActionStatus.executed (some 100) none) {
  provider_effect_ref = some "r1";
  reconcile_requested = true;
})

completed : complete_delivery lost delivery "r1" ≡ ok done
unfolding complete_delivery find
completed = refl

-- The failure is reported after the claim, and then the success.
run : Reaches settings waiting done (5 ∷ [])
run =
    steps
      (steps (steps begins (claims nobody 100 sent_reply claimed))
        (fails delivery "lost" true failed))
      (completes delivery "r1" completed)

sent_once_example : NoRepeats (5 ∷ [])
sent_once_example = sent_once settings waiting done (5 ∷ []) run

late : fail_delivery done delivery "lost" true ≡ ok done
unfolding fail_delivery find
late = refl

done-Distinct : Distinct action_key done.actions
unfolding find
done-Distinct = (refl, tt)

abbrev pub confirmed_row : CoordinatorAction
confirmed_row = record (action ActionStatus.executed (some 100) none) {
  provider_effect_ref = some "r1";
  reconcile_requested = true;
}

abbrev released_row : CoordinatorAction
released_row =
    record (action ActionStatus.unknown (some 100)
      (some "Interrupted delivery; inspect provider conversation before retrying")) {
        reconcile_requested = true;
      }

recovered : recover nobody in_flight 221 ≡ ok (tables released_row)
unfolding recover
recovered = refl

abbrev left_row : CoordinatorAction
left_row = action ActionStatus.sending (some 100) none

recover_releases_example :
    (b : CoordinatorAction) × In b (tables released_row).actions
    × (b.id ≡ 5)
    × (is_stuck 221 b ≡ false)
    × (is_stuck 221 left_row ≡ true → is_unknown b.status ≡ true)
    × ((is_sending left_row.status && was_left left_row.attempted_at 221) ≡ true
        → b.reconcile_requested ≡ true)
recover_releases_example =
    recover_releases nobody in_flight (tables released_row) 221 left_row recovered (inl refl) refl

claimed-MaySend_example :
    (a : CoordinatorAction) × (out : Outgoing) × In a waiting.actions
    × (is_delivery_pending a.status ≡ true)
    × (a.outgoing ≡ some out)
    × (delivery ≡ delivery_of a out 100)
    × MaySend settings waiting a out
claimed-MaySend_example =
    claimed-MaySend settings nobody waiting in_flight 100 sent_reply delivery claimed refl
