-- ===== src/Coordinator/Runs/Decisions.antt =====
-- coordinator/infrastructure/processor.py: `ensure_authorized`, `complete`, `fail` and `recover`,
-- with `requeue_run_events` of queries.py.
use dev_workflow_automation.Common.{
  ℕ, ◌+◌, ◌==◌, ltb, Bool, true, false, not, ◌&&◌, ◌||◌, Option, none, some, List, ◌∷◌, any, map,
  String, if◌then◌else◌, find, amend, Result, ok, err,
}
use dev_workflow_automation.Engineering.Rows.{Task, task_key}
use dev_workflow_automation.Coordinator.Protocol.{Decision}
use dev_workflow_automation.Coordinator.Rows.{
  CoordinatorEvent, EventStatus, CoordinatorMode, CoordinatorRun, RunStatus, CoordinatorAction,
  ActionStatus, Tables, is_active, is_running, at_versions, run_key,
}
use dev_workflow_automation.Coordinator.Runs.{RunError, is_claimed}

abbrev pub is_run : Option ℕ → ℕ → Bool
is_run none id = false
is_run (some i) id = i == id

-- `update(CoordinatorEvent).where(CoordinatorEvent.run_id == run_id)`
abbrev pub update_events :
    ℕ → (CoordinatorEvent → CoordinatorEvent) → List CoordinatorEvent → List CoordinatorEvent
update_events run f events = map (λ e. if is_run e.run_id run then f e else e) events

abbrev pub requeue : ℕ → CoordinatorEvent → CoordinatorEvent
requeue now e = record e { status = EventStatus.queued; run_id = none; available_at = now }

unfoldable pub requeue_run_events : ℕ → ℕ → List CoordinatorEvent → List CoordinatorEvent
requeue_run_events run now events = update_events run (requeue now) events

abbrev with_status : EventStatus → CoordinatorEvent → CoordinatorEvent
with_status status e = record e { status = status }

-- The run's task is at the versions that the run has recorded.
abbrev pub is_current : CoordinatorRun → Task → Bool
is_current r t = at_versions t r.lifecycle_revision r.requirement_revision

abbrev ensure_rows : Tables → Option CoordinatorRun → Option Task → Result RunError Unit
ensure_rows s (some r) (some t) =
    if not (is_claimed r.status) || not (is_running s.db t) || t.manual_takeover
    then err RunError.authority_changed
    else if not (is_current r t)
    then err RunError.situation_changed
    else ok tt
ensure_rows s _ _ = err RunError.authority_changed

abbrev task_of : Tables → Option CoordinatorRun → Option Task
task_of s none = none
task_of s (some r) = find task_key r.task_id s.db.tasks

-- The task has a Team, or the join has no row: `is_running` is false then.
unfoldable pub ensure_authorized : Tables → ℕ → Result RunError Unit
ensure_authorized s run_id = let r = find run_key run_id s.runs in ensure_rows s r (task_of s r)

abbrev pub is_shadow : CoordinatorMode → Bool
is_shadow CoordinatorMode.shadow = true
is_shadow _ = false

abbrev pub decided : Decision → ℕ → CoordinatorRun → CoordinatorRun
decided d now r = record r {
  decision = some d;
  status = if is_shadow r.mode then RunStatus.shadowed else RunStatus.ready;
  finished_at = some now;
}

abbrev pub new_action : Tables → CoordinatorRun → Decision → ℕ → CoordinatorAction
new_action s r d now = record {
  id = s.next_id;
  run_id = r.id;
  task_id = r.task_id;
  kind = d.action;
  status = ActionStatus.pending;
  decision = d;
  event_id = r.event_id;
  outgoing = none;
  reconcile_requested = false;
  reconcile_started_at = none;
  provider_effect_ref = none;
  error = none;
  created_at = now;
  attempted_at = none;
}

abbrev pub decide_run : Tables → CoordinatorRun → Decision → ℕ → Tables
decide_run s r d now = record s {
  runs = amend run_key r.id (decided d now) s.runs;
  actions = if is_active r.mode then new_action s r d now ∷ s.actions else s.actions;
  events = update_events r.id (with_status EventStatus.processed) s.events;
  next_id = s.next_id + 1;
}

abbrev pub complete_run :
    Tables → CoordinatorRun → Decision → ℕ → Option Task → Result RunError Tables
complete_run s r d now none = err RunError.situation_changed
complete_run s r d now (some t) =
    if not (is_current r t) then err RunError.situation_changed else ok (decide_run s r d now)

abbrev pub complete_row : Tables → ℕ → Decision → ℕ → Option CoordinatorRun → Result RunError Tables
complete_row s task_id d now none = ok s
complete_row s task_id d now (some r) =
    if not (is_claimed r.status)
    then ok s
    else if not (r.task_id == task_id)
    then err RunError.identity_changed
    else complete_run s r d now (find task_key task_id s.db.tasks)

unfoldable pub complete : Tables → ℕ → ℕ → Decision → ℕ → Result RunError Tables
complete s run_id task_id d now = complete_row s task_id d now (find run_key run_id s.runs)

abbrev end_run : RunStatus → String → ℕ → CoordinatorRun → CoordinatorRun
end_run status reason now r = record r {
  status = status;
  error = some reason;
  finished_at = some now;
}

abbrev pub fail_row : Tables → String → Bool → ℕ → Option CoordinatorRun → Tables
fail_row s reason superseded now none = s
fail_row s reason superseded now (some r) =
    if not (is_claimed r.status)
    then s
    else if superseded
    then record s {
      runs = amend run_key r.id (end_run RunStatus.superseded reason now) s.runs;
      events = requeue_run_events r.id now s.events;
    }
    else record s {
      runs = amend run_key r.id (end_run RunStatus.failed reason now) s.runs;
      events = update_events r.id (with_status EventStatus.failed) s.events;
    }

unfoldable pub fail : Tables → ℕ → String → Bool → ℕ → Tables
fail s run_id reason superseded now = fail_row s reason superseded now (find run_key run_id s.runs)

-- `created_at < now - timedelta(minutes=5)`
abbrev pub is_stale : (CoordinatorRun → Bool) → ℕ → CoordinatorRun → Bool
is_stale skipped now r = is_claimed r.status && ltb (r.created_at + 300) now && not (skipped r)

abbrev pub recover_run : (CoordinatorRun → Bool) → ℕ → CoordinatorRun → CoordinatorRun
recover_run skipped now r =
    if is_stale skipped now r
    then record r {
      status = RunStatus.failed;
      error = some "Interrupted decision; inspect usage before retrying";
    }
    else r

-- The event is of one of the runs that recovery ends.
abbrev is_of_stale : (CoordinatorRun → Bool) → ℕ → List CoordinatorRun → CoordinatorEvent → Bool
is_of_stale skipped now runs e = any (λ r. is_stale skipped now r && is_run e.run_id r.id) runs

unfoldable pub recover : (CoordinatorRun → Bool) → Tables → ℕ → Tables
recover skipped s now = record s {
  runs = map (recover_run skipped now) s.runs;
  events =
      map (λ e. if is_of_stale skipped now s.runs e then with_status EventStatus.failed e else e)
        s.events;
}
