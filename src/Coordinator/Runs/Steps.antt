-- ===== src/Coordinator/Runs/Steps.antt =====
-- The transactions of `SqlCoordinationRuns` and the execution of actions, in any order.
use dev_workflow_automation.Common.{
  ℕ, ◌≤◌, Bool, [], String, find, Distinct, count_where, Result, ok, ◌≡◌, refl, arith,
}
use dev_workflow_automation.Engineering.Rows.{Task}
use dev_workflow_automation.Coordinator.Protocol.{Decision}
use dev_workflow_automation.Coordinator.Rows.{
  CoordinatorEvent, CoordinatorAction, CoordinatorRun, Tables, Settings, run_key,
}
use dev_workflow_automation.Coordinator.Runs.{claim, next_event}
use dev_workflow_automation.Coordinator.Runs.Decisions.{complete, fail, recover}
use dev_workflow_automation.Coordinator.Guards.{Effects}
use dev_workflow_automation.Coordinator.Actions.{execute_one}
use dev_workflow_automation.Coordinator.Actions.Serial.{LeavesCoordination, execute_one-IsSerial}
use dev_workflow_automation.Coordinator.Runs.Serial.{
  IsSerial, live_of, action_run, fail_row-IsSerial, recover-IsSerial,
}
use dev_workflow_automation.Coordinator.Runs.Kept.{complete_row-IsSerial, claim_event-IsSerial}

-- One transaction of `SqlCoordinationRuns`, or `execute_one`, with any arguments and at any time.
pub data Step (set : Settings) (fx : Effects) : Tables → Tables → Type 0 where
  claims :
      (s : Tables) (requirement : Task → Result String String) (skipped : CoordinatorEvent → Bool)
      (locked : ℕ → Bool) (now : ℕ)
      → Step set fx s (claim set requirement skipped locked s now).0
  completes :
      {s s' : Tables} (run_id task_id : ℕ) (d : Decision) (now : ℕ)
      → complete s run_id task_id d now ≡ ok s'
      → Step set fx s s'
  fails :
      (s : Tables) (run_id : ℕ) (reason : String) (superseded : Bool) (now : ℕ)
      → Step set fx s (fail s run_id reason superseded now)
  recovers :
      (s : Tables) (skipped : CoordinatorRun → Bool) (now : ℕ)
      → Step set fx s (recover skipped s now)
  executes :
      (s : Tables) (infers : ℕ → Bool) (skipped : CoordinatorAction → Bool) (now : ℕ)
      → Step set fx s (execute_one set fx infers skipped s now).0

pub data Reaches (set : Settings) (fx : Effects) (start : Tables) : Tables → Type 0 where
  begins : Reaches set fx start start
  steps : {s s' : Tables} → Reaches set fx start s → Step set fx s s' → Reaches set fx start s'

-- Every transaction keeps this invariant: identifiers are unique, a task has one run at most that
-- is claimed or ready, and a run has one action at most, once it is decided.
pub Step-IsSerial :
    (set : Settings) (fx : Effects) (s s' : Tables)
    → LeavesCoordination fx
    → Step set fx s s'
    → IsSerial s
    → IsSerial s'
unfolding claim complete fail
Step-IsSerial set fx s _ leaves (claims _ requirement skipped locked now) serial =
    claim_event-IsSerial set requirement skipped locked s now (next_event skipped s now) serial
Step-IsSerial set fx s s' leaves (completes run_id task_id d now h) serial =
    complete_row-IsSerial s s' run_id task_id d now (find run_key run_id s.runs) serial refl h
Step-IsSerial set fx s _ leaves (fails _ run_id reason superseded now) serial =
    fail_row-IsSerial s reason superseded now (find run_key run_id s.runs) serial
Step-IsSerial set fx s _ leaves (recovers _ skipped now) serial =
    recover-IsSerial skipped s now serial
Step-IsSerial set fx s _ leaves (executes _ infers skipped now) serial =
    execute_one-IsSerial set fx infers skipped s now leaves serial

reached-IsSerial :
    {set : Settings} {fx : Effects} {start s : Tables}
    → LeavesCoordination fx
    → IsSerial start
    → Reaches set fx start s
    → IsSerial s
reached-IsSerial leaves serial begins = serial
reached-IsSerial leaves serial (steps before next) =
    Step-IsSerial _ _ _ _ leaves next (reached-IsSerial leaves serial before)

empty-IsSerial : (s : Tables) → s.runs ≡ [] → s.actions ≡ [] → IsSerial s
empty-IsSerial s no_runs no_actions = record {
  runs_distinct = rw no_runs tt;
  runs_given = λ r m. absurd (rw no_runs at m);
  one_live = λ id. rw no_runs omega arith;
  actions_distinct = rw no_actions tt;
  actions_given = λ a m. absurd (rw no_actions at m);
  actions_decided = λ a r m. absurd (rw no_actions at m);
}

-- From tables without runs and actions, after any claims, completions, failures and recoveries of
-- runs and any executions of actions, in any order, a task has at most one run that is claimed or
-- ready, and no two actions are of the same run, if the effects of the executions leave the runs and
-- the actions alone.
pub decided_one_at_a_time :
    (set : Settings) (fx : Effects) (start s : Tables)
    → LeavesCoordination fx
    → start.runs ≡ []
    → start.actions ≡ []
    → Reaches set fx start s
    → ((id : ℕ) → count_where (live_of id) s.runs ≤ 1) × Distinct action_run s.actions
decided_one_at_a_time set fx start s leaves no_runs no_actions run =
    let serial = reached-IsSerial leaves (empty-IsSerial start no_runs no_actions) run in
    (serial.one_live, serial.actions_distinct)
