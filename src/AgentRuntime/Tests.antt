-- ===== src/AgentRuntime/Tests.antt =====
-- Tests of the runtime's policies, budgets and governor at concrete values.
use dev_workflow_automation.Common.{
  String, In, ◌≢◌, ◌<◌, ℕ, ◌+◌, ◌≡◌, ◌≤◌, ◌==◌, ◌&&◌, ◌⊎◌, ◌↔◌, refl, min, true, false, none, some,
  List, [], ◌∷◌, ok, arith, find,
}
use dev_workflow_automation.Engineering.Lifecycle.{TaskStatus, Stage, WaitReason}
use dev_workflow_automation.Engineering.Rows.{Task, Database}
use dev_workflow_automation.AgentRuntime.Progress.{repair_allowance}
use dev_workflow_automation.AgentRuntime.Progress.Repairs.{repair_allowance_shrinks}
use dev_workflow_automation.AgentRuntime.Policy.{
  Mode, Effort, TokenEfficiencyPolicy, defaults, post_init, developer_effort,
}
use dev_workflow_automation.AgentRuntime.Usage.{
  amount, Usage, Pricing, budget_blocker, check_usage, calculate, complete,
}
use dev_workflow_automation.AgentRuntime.Usage.Costs.{Unblocked, budget_blocker-eq-ok_none_iff}
use dev_workflow_automation.AgentRuntime.Reservations.{
  AiRun, AutomationPolicy, Reservation, sum_cost, of_team, budget_usage, periodic_usage, admit,
  reserve_budget, development_allowance,
}
use dev_workflow_automation.AgentRuntime.Reservations.Budgets.{
  reserved_run, reservations_within_budget, development_allowance_fits, nothing_more, one_more,
}
use dev_workflow_automation.AgentRuntime.Governor.{Governor, Stop, begin}
use dev_workflow_automation.AgentRuntime.Governor.Observe.{observe, take_in}
use dev_workflow_automation.AgentRuntime.Governor.Evidence.{
  Evidence, observe-stop, observe-turn_limit,
}
use dev_workflow_automation.AgentRuntime.Governor.Snapshots.{snapshot, restore}
use dev_workflow_automation.AgentRuntime.Governor.Resumption.{
  Event, was_read, was_diffed, was_inferred, react_all, restore-snapshot,
}

defaults-ok : post_init defaults ≡ ok defaults
unfolding post_init
defaults-ok = refl

effort-ok : developer_effort defaults Effort.low (some Effort.high) ≡ ok Effort.medium
unfolding developer_effort
effort-ok = refl

abbrev usage : Usage
usage = record {
  input_tokens = some 1000;
  output_tokens = some 50;
  cache_read_input_tokens = some 600;
  cache_write_input_tokens = some 0;
  reasoning_tokens = some 20;
  provider_cost_usd = none;
}

abbrev pricing : Pricing
pricing = record {
  input_per_million = amount 5;
  output_per_million = amount 20;
  cached_input_per_million = some (amount 1);
  cache_write_per_million = none;
}

usage-ok : check_usage usage ≡ ok usage
unfolding check_usage
usage-ok = refl

cost-ok : calculate pricing usage ≡ some 3600
unfolding calculate complete
cost-ok = refl

budget_blocker-eq-ok_none_iff_example :
    (budget_blocker (amount 10) (some (amount 3)) (amount 2) ≡ ok none)
    ↔ Unblocked (amount 10) (some (amount 3)) (amount 2)
budget_blocker-eq-ok_none_iff_example =
    budget_blocker-eq-ok_none_iff (amount 10) (some (amount 3)) (amount 2)

abbrev task : Task
task = record {
  id = 1;
  status = TaskStatus.active;
  stage = Stage.developing;
  wait_reason = WaitReason.no_wait;
  requirement_version = 1;
  lifecycle_version = 3;
  manual_takeover = false;
  team_id = some 4;
  priority = 2;
  current_revision = none;
  started_at = none;
  completed_at = none;
  archived_at = none;
}

abbrev database : Database
database = record {
  tasks = task ∷ [];
  jobs = [];
  teams =
      record {
        id = 4;
        enabled = true;
        execution_paused = false;
        max_concurrent_tasks = 1;
        archived_at = none;
      }
      ∷ [];
  phase_runs = [];
  assignments = [];
  dependencies = [];
  lifecycle_events = [];
  review_cycles = [];
  sessions = [];
  next_id = 50;
  wakeups = [];
  notices = [];
}

abbrev policy_of : ℕ → AutomationPolicy
policy_of team = record {
  task_budget_usd = 100;
  team_budget_usd = 150;
  monthly_budget_usd = some 120;
}

abbrev spent : List AiRun
spent =
    record { task_id = 1; role_kind = "DEVELOPER"; cost = some 40; started_at = 3; running = false }
    ∷ []

abbrev reservation : Reservation
reservation = record {
  task_id = 1;
  value = amount 60;
  role_kind = none;
  role_budget = none;
  allow_coordination = false;
}

reserve-ok : reserve_budget (some 500) policy_of database 0 spent reservation ≡ ok tt
unfolding reserve_budget admit periodic_usage budget_usage sum_cost find
reserve-ok = refl

abbrev grown : List AiRun
grown = reserved_run reservation 60 "DEVELOPER" 9 ∷ spent

spent-within : sum_cost (of_team database 4) spent ≤ 150
unfolding sum_cost find
spent-within = omega arith

reservations_within_budget_example : sum_cost (of_team database 4) grown ≤ 150
reservations_within_budget_example =
    reservations_within_budget (some 500) policy_of database 0 spent grown 4
      (one_more nothing_more reservation 60 "DEVELOPER" 9 reserve-ok refl) spent-within

allowance-ok : development_allowance (some 500) policy_of database 0 spent task 90 5 ≡ ok 50
unfolding development_allowance budget_usage sum_cost find
allowance-ok = refl

development_allowance_fits_example :
    (team : ℕ) × (some 4 ≡ some team)
    × (1 ≤ 50)
    × (sum_cost (of_team database team) spent + 50 ≤ 150)
    × (sum_cost (λ r. of_team database team r && r.task_id == 1) spent + 50 ≤ min 90 100)
development_allowance_fits_example =
    development_allowance_fits (some 500) policy_of database 0 spent task 90 5 50 allowance-ok

abbrev enforcing : TokenEfficiencyPolicy
enforcing = record defaults { mode = Mode.enforce }

abbrev governor : Governor
governor = begin enforcing 0

stop-ok : (observe governor 250000 none none).2 ≡ some Stop.turn_input_limit
stop-ok = observe-turn_limit governor 250000 none none refl (omega arith)

observe-stop_example :
    (governor.stop_reason ≡ some Stop.turn_input_limit)
    ⊎ (governor.policy.mode ≡ Mode.enforce)
      × Evidence (take_in governor 250000 none none) Stop.turn_input_limit
observe-stop_example = observe-stop governor 250000 none none Stop.turn_input_limit stop-ok

abbrev events : List Event
events = was_read "src" 10 ∷ was_diffed "first" 3000 ∷ was_inferred 5000 (some 4000) none ∷ []

restore-snapshot_example :
    let g = react_all (begin enforcing 0) events in
    restore governor (snapshot g) ≡ record governor {
      total = g.total;
      first_edit = g.first_edit;
      cached_input = g.cached_input;
      inference_cycles = g.inference_cycles;
      last_progress = g.last_progress;
      peak_context = g.peak_context;
      diff_fingerprint = g.diff_fingerprint;
      warnings = g.warnings;
      compaction_count = g.compaction_count;
    }
restore-snapshot_example = restore-snapshot enforcing 0 events governor

abbrev failed_before : List String
failed_before = "a" ∷ "b" ∷ []

abbrev failed_now : List String
failed_now = "b" ∷ []

repair-ok : (repair_allowance (some failed_before) failed_now 1 3).continue_work ≡ true
unfolding repair_allowance
repair-ok = refl

repair_allowance_shrinks_example :
    (1 < 3)
    × (failed_now ≢ [])
    × ((x : String) → In x failed_now → In x failed_before)
    × (x : String) × In x failed_before
    × (In x failed_now → ⊥)
repair_allowance_shrinks_example = repair_allowance_shrinks failed_before failed_now 1 3 repair-ok
