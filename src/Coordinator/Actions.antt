-- ===== src/Coordinator/Actions.antt =====
-- coordinator/infrastructure/actions.py: `execute_one`, `_apply`, `_ask_human` and
-- `_record_effect`. `infers` tells the tasks with a running AI run, `skipped` the rows that another
-- transaction has locked. The messages and the event rows are not modelled.
pub mod Outcomes
pub mod Decided
pub mod Permission
pub mod Progress
pub mod Serial
pub mod Settled
pub mod Tests
use dev_workflow_automation.Common.{
  ℕ, ◌+◌, ◌==◌, ltb, Bool, true, false, not, ◌&&◌, ◌||◌, Option, none, some, List, [], ◌∷◌, any,
  all, keep, map, String, str_eq, if◌then◌else◌, first_of, find, amend, Result, ok, err, ◌>>=◌,
}
use dev_workflow_automation.Engineering.Lifecycle.{Action, WaitReason}
use dev_workflow_automation.Engineering.Rows.{Task, Database, ReviewCycle, ReviewDecision, task_key}
use dev_workflow_automation.Coordinator.Protocol.{
  Directive, Decision, MessageKind, ReviewDisposition, DeliveryStatus, Situation, EffectError,
  outbound_message, review_disposition, delivery_status, validate_effect, only_talks, asks_review,
}
use dev_workflow_automation.Coordinator.Rows.{
  CoordinatorEvent, CoordinatorMode, CoordinatorRun, RunStatus, CoordinatorAction, ActionStatus,
  Outgoing, HumanRequest, RequestStatus, Tables, Settings, coordination_mode, is_active, authorized,
  reply_to, is_running, at_versions, run_key, event_key, action_key, request_key,
}
use dev_workflow_automation.Coordinator.Outbox.{oldest}
use dev_workflow_automation.Coordinator.Runs.{is_queued}
use dev_workflow_automation.Coordinator.Runs.Decisions.{is_run, is_current, requeue_run_events}
use dev_workflow_automation.Coordinator.Guards.{
  Refusal, ApplyError, Effects, is_answered, latest_human_request, source_events, is_entitled,
  is_other_head, is_outdated, answers, continues, situation_of, has_newer, asks_work, guards,
}

abbrev cancel_request : HumanRequest → HumanRequest
cancel_request h = record h { status = RequestStatus.cancelled }

abbrev pub close_request : Option HumanRequest → List HumanRequest → List HumanRequest
close_request none requests = requests
close_request (some h) requests = amend request_key h.id cancel_request requests

-- The task, with the columns that an effect has changed.
abbrev now_of : Task → Option Task → Task
now_of t none = t
now_of t (some t') = t'

abbrev pub refreshed : Tables → Task → Task
refreshed s t = now_of t (find task_key t.id s.db.tasks)

abbrev pub open_request : CoordinatorAction → ℕ → Tables → Task → Tables
open_request a now s t = record s {
  human_requests =
      record {
        id = s.next_id;
        task_id = t.id;
        run_id = a.run_id;
        status = RequestStatus.opened;
        requirement_revision = t.requirement_version;
        lifecycle_revision = t.lifecycle_version;
        answer = none;
        created_at = now;
        answered_at = none;
      }
      ∷ s.human_requests;
  next_id = s.next_id + 1;
}

-- `_ask_human`
unfoldable pub ask_human :
    Effects → Tables → CoordinatorAction → Task → ℕ → Result ApplyError Tables
ask_human fx s a t now =
    fx.control_task
      (record s { human_requests = close_request (latest_human_request s t) s.human_requests }) t.id
      Action.block WaitReason.missing_requirement
    >>= (λ s'. ok (open_request a now s' (refreshed s' t)))

unfoldable pub perform :
    Effects → Tables → CoordinatorAction → Task → Decision → ℕ → Result ApplyError Tables
perform fx s a t d now = elim d.action [
  | Directive.ask_human ↦ ask_human fx s a t now
  | Directive.implement ↦ fx.request_engineering s a t d
  | Directive.repair ↦ fx.request_engineering s a t d
  | Directive.pause ↦ fx.control_task s t.id Action.pause WaitReason.no_wait
  | Directive.cancel ↦ fx.control_task s t.id Action.cancel WaitReason.no_wait
  | Directive.request_validation ↦ fx.request_validation s a t
  | Directive.sync_status ↦ ok (fx.sync_status s t)
  | _ ↦ ok s
]

-- The texts of a review cycle's decision.
abbrev disposed : ReviewDisposition → ReviewDecision
disposed ReviewDisposition.feedback_applied = ReviewDecision.feedback_applied
disposed _ = ReviewDecision.other_decision

abbrev cycle_key : ReviewCycle → ℕ
cycle_key c = c.id

abbrev dispose : Option ℕ → Decision → Database → Database
dispose none d db = db
dispose (some id) d db = record db {
  review_cycles =
      amend cycle_key id (λ c. record c { decision = disposed (review_disposition d) })
        db.review_cycles;
}

abbrev pub status_of : DeliveryStatus → ActionStatus
status_of DeliveryStatus.delivery_pending = ActionStatus.delivery_pending
status_of DeliveryStatus.executed = ActionStatus.executed

abbrev pub effected : CoordinatorEvent → Task → Decision → CoordinatorAction → CoordinatorAction
effected e t d a = record a {
  outgoing = some (record {
    provider = reply_to e;
    message = outbound_message d;
    requirement_revision = t.requirement_version;
    lifecycle_revision = t.lifecycle_version;
  });
  status = status_of (delivery_status d);
}

abbrev pub with_run_status : RunStatus → CoordinatorRun → CoordinatorRun
with_run_status status r = record r { status = status }

-- `_record_effect`
unfoldable pub record_effect :
    Tables → CoordinatorAction → Task → CoordinatorRun → CoordinatorEvent → Decision → Tables
record_effect s a t r e d = record s {
  db = dispose e.review_cycle_id d s.db;
  actions = amend action_key a.id (effected e (refreshed s t) d) s.actions;
  runs = amend run_key r.id (with_run_status RunStatus.completed) s.runs;
}

abbrev pub apply_rows :
    Settings
    → Effects
    → Tables
    → CoordinatorAction
    → Task
    → ℕ
    → Option CoordinatorRun
    → Option CoordinatorEvent
    → Result ApplyError Tables
apply_rows set fx s a t now (some r) (some e) =
    guards set fx s r e t a.decision
    >>= (λ u. perform fx s a t a.decision now)
    >>= (λ s'. ok (record_effect s' a t r e a.decision))
apply_rows set fx s a t now _ _ = err (ApplyError.refused Refusal.authority_revoked)

-- `_apply`
unfoldable pub apply :
    Settings → Effects → Tables → CoordinatorAction → Task → ℕ → Result ApplyError Tables
apply set fx s a t now =
    apply_rows set fx s a t now (find run_key a.run_id s.runs) (find event_key a.event_id s.events)

abbrev pub is_pending : ActionStatus → Bool
is_pending ActionStatus.pending = true
is_pending _ = false

abbrev pub is_waiting : ActionStatus → Bool
is_waiting ActionStatus.waiting_engineer = true
is_waiting _ = false

-- A queued event of the task that came after the action.
abbrev pub has_later : Tables → CoordinatorAction → Bool
has_later s a =
    any (λ e. e.task_id == a.task_id && is_queued e.status && ltb a.created_at e.created_at)
      s.events

-- The `where` of `execute_one`.
abbrev pub is_executable : (ℕ → Bool) → Tables → CoordinatorAction → Bool
is_executable infers s a =
    is_pending a.status || is_waiting a.status && (not (infers a.task_id) || has_later s a)

abbrev text_of : Refusal → String
text_of Refusal.authority_revoked = "Coordinator event authority was revoked"
text_of Refusal.suspended = "Task or Team is suspended"
text_of Refusal.coalesced_authority = "Authority changed for a coalesced event"
text_of Refusal.provider_disabled = "Active coordination was disabled for this provider"
text_of Refusal.older_revision = "Feedback refers to an older PR revision"
text_of Refusal.too_long = "Feedback exceeds the context bound; request a concise clarification"
text_of Refusal.review_disabled = "Active GitHub coordination is required to request review"
text_of Refusal.no_reviewer = "Review requests require a published PR and explicit reviewer IDs"
text_of Refusal.no_task = "Task no longer exists"
text_of (Refusal.effect EffectError.task_changed) = "Task changed after this decision"
text_of (Refusal.effect EffectError.manual_takeover_owns) = "Manual takeover owns this task"
text_of (Refusal.effect EffectError.competing_work) =
    "Engineering notifications cannot dispatch competing work"
text_of (Refusal.effect EffectError.needs_operator) =
    "Suspended or terminal tasks require explicit operator control"
text_of (Refusal.effect EffectError.resolve_human_first) = "Resolve the current human request first"
text_of (Refusal.because text) = text

abbrev pub with_status : ActionStatus → CoordinatorAction → CoordinatorAction
with_status status a = record a { status = status }

abbrev pub with_error : ActionStatus → String → CoordinatorAction → CoordinatorAction
with_error status error a = record a { status = status; error = some error }

abbrev end_run : RunStatus → CoordinatorAction → Tables → Tables
end_run status a s = record s { runs = amend run_key a.run_id (with_run_status status) s.runs }

abbrev mark_action : (CoordinatorAction → CoordinatorAction) → CoordinatorAction → Tables → Tables
mark_action f a s = record s { actions = amend action_key a.id f s.actions }

abbrev requeue : CoordinatorAction → ℕ → Tables → Tables
requeue a now s = record s { events = requeue_run_events a.run_id now s.events }

abbrev pub settle : Tables → CoordinatorAction → ℕ → Result ApplyError Tables → Tables
settle s a now (ok done) = done
settle s a now (err ApplyError.new_information) = requeue a now (
    end_run RunStatus.superseded a (
      mark_action
        (with_error ActionStatus.superseded "New information arrived; a newer decision is required")
        a s))
settle s a now (err ApplyError.engineering_busy) =
    mark_action
      (with_error ActionStatus.waiting_engineer
        "Waiting for the current Developer generation to settle")
      a s
settle s a now (err (ApplyError.refused r)) =
    end_run RunStatus.rejected a (mark_action (with_error ActionStatus.rejected (text_of r)) a s)

abbrev pub supersede : Tables → CoordinatorAction → ℕ → Tables
supersede s a now =
    requeue a now
      (end_run RunStatus.superseded a (mark_action (with_status ActionStatus.superseded) a s))

abbrev pub moved_on : Option Task → Option CoordinatorRun → Bool
moved_on (some t) (some r) = not (is_current r t)
moved_on _ _ = false

abbrev pub apply_task :
    Settings → Effects → Tables → CoordinatorAction → ℕ → Option Task → Result ApplyError Tables
apply_task set fx s a now none = err (ApplyError.refused Refusal.no_task)
apply_task set fx s a now (some t) = apply set fx s a t now

abbrev pub execute_row : Settings → Effects → Tables → ℕ → Option CoordinatorAction → Tables × Bool
execute_row set fx s now none = (s, false)
execute_row set fx s now (some a) =
    let t = find task_key a.task_id s.db.tasks in
    if moved_on t (find run_key a.run_id s.runs)
    then (supersede s a now, true)
    else (settle s a now (apply_task set fx s a now t), true)

unfoldable pub execute_one :
    Settings → Effects → (ℕ → Bool) → (CoordinatorAction → Bool) → Tables → ℕ → Tables × Bool
execute_one set fx infers skipped s now =
    execute_row set fx s now (oldest (is_executable infers s) skipped s.actions)
