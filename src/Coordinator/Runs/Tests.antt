-- ===== src/Coordinator/Runs/Tests.antt =====
-- Tests of the runs at one question of a human.
use dev_workflow_automation.Common.{
  arith, subst, Result, ok, ℕ, ◌≤◌, Bool, true, false, none, some, [], ◌∷◌, In, first_of, sort_by,
  insert_by, limit, last_where, find, ◌≡◌, refl, inl, Distinct, String, count_where,
}
use dev_workflow_automation.Engineering.Rows.{Task}
use dev_workflow_automation.Coordinator.Protocol.{Decision}
use dev_workflow_automation.Coordinator.Rows.{
  CoordinatorEvent, EventStatus, CoordinatorRun, RunStatus, CoordinatorMode, Tables, authorized,
}
use dev_workflow_automation.Coordinator.Outbox.Tests.{db, event, decision, settings}
use dev_workflow_automation.Coordinator.Runs.{Claimed, claim}
use dev_workflow_automation.Coordinator.Runs.Decisions.{fail}
use dev_workflow_automation.Coordinator.Runs.Serial.{live_of, action_run}
use dev_workflow_automation.Coordinator.Runs.Steps.{claims, begins, steps, decided_one_at_a_time}
use dev_workflow_automation.Coordinator.Guards.{ApplyError, Effects}
use dev_workflow_automation.Coordinator.Actions.Serial.{AreLeft, LeavesCoordination}
use dev_workflow_automation.Coordinator.Runs.Process.{Failure, process_one}
use dev_workflow_automation.Coordinator.Runs.Release.{
  IsReleased, process_one_releases, superseded_requeues,
}

abbrev question : CoordinatorEvent
question = record event { status = EventStatus.queued; run_id = none }

abbrev pub asked : Tables
asked = record {
  db = db;
  events = question ∷ [];
  runs = [];
  actions = [];
  human_requests = [];
  next_id = 60;
}

abbrev required : Task → Result String String
required t = ok "Build it."

abbrev free_event : CoordinatorEvent → Bool
free_event e = false

abbrev pub free_task : ℕ → Bool
free_task id = false

abbrev pub run : CoordinatorRun
run = record {
  id = 60;
  task_id = 1;
  mode = CoordinatorMode.active;
  status = RunStatus.claimed;
  requirement_revision = 1;
  lifecycle_revision = 3;
  decision = none;
  event_id = 3;
  error = none;
  created_at = 10;
  finished_at = none;
}

abbrev held_event : CoordinatorEvent
held_event = record event { status = EventStatus.claimed; run_id = some 60 }

abbrev thinking : Tables
thinking = record asked { events = held_event ∷ []; runs = run ∷ []; next_id = 61 }

abbrev claimed_run : Claimed
claimed_run = record { run_id = 60; task_id = 1; provider = "dashboard" }

claimed : claim settings required free_event free_task asked 10 ≡ (thinking, some claimed_run)
unfolding claim first_of sort_by insert_by limit last_where find authorized
claimed = refl

-- Effects that change nothing.
abbrev pub idle : Effects
idle = record {
  control_task = λ s id a w. ok s;
  request_engineering = λ s a t d. ok s;
  request_validation = λ s a t. ok s;
  sync_status = λ s t. s;
  has_review_target = λ t. false;
}

ok_same : {s s' : Tables} → ◌≡◌ {A = Result ApplyError Tables} (ok s) (ok s') → s ≡ s'
ok_same h = cc

same-AreLeft : (s s' : Tables) → s ≡ s' → AreLeft s s'
same-AreLeft s s' e = subst (AreLeft s) e (refl, refl, omega arith)

pub idle-LeavesCoordination : LeavesCoordination idle
idle-LeavesCoordination = record {
  by_control = λ s s' id a w h. same-AreLeft s s' (ok_same h);
  by_engineering = λ s s' a t d h. same-AreLeft s s' (ok_same h);
  by_validation = λ s s' a t h. same-AreLeft s s' (ok_same h);
  by_status = λ s t. same-AreLeft s s refl;
}

decided_one_at_a_time_example :
    ((id : ℕ)
      → count_where (live_of id) (claim settings required free_event free_task asked 10).0.runs ≤ 1)
    × Distinct action_run (claim settings required free_event free_task asked 10).0.actions
decided_one_at_a_time_example =
    decided_one_at_a_time settings idle asked
      (claim settings required free_event free_task asked 10).0 idle-LeavesCoordination refl refl
      (steps begins (claims asked required free_event free_task 10))

abbrev alone : ℕ → Tables → Tables
alone n s = s

abbrev answer : ℕ → Result Failure Decision
answer n = ok decision

process_one_releases_example :
    IsReleased 60 (process_one settings required free_event free_task alone answer none asked 10).0
process_one_releases_example =
    process_one_releases settings required free_event free_task alone answer none asked thinking
      claimed_run 10 claimed

found : find (λ r. r.id) 60 thinking.runs ≡ some run
unfolding find
found = refl

superseded_requeues_example :
    In
      (record held_event { status = EventStatus.queued; run_id = none; available_at = 20 })
      (fail thinking 60 "SituationChanged" true 20).events
superseded_requeues_example =
    superseded_requeues thinking 60 "SituationChanged" 20 run held_event found refl (inl refl) refl
