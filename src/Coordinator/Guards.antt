-- ===== src/Coordinator/Guards.antt =====
-- coordinator/infrastructure/actions.py: the guards of `_apply`, in its order, with
-- `latest_human_request` of queries.py, and what the rest of the program does for an effect, which is
-- an argument.
use dev_workflow_automation.Common.{
  ℕ, ◌==◌, ltb, Bool, true, false, not, ◌&&◌, Option, none, some, List, [], ◌∷◌, any, all, keep,
  String, str_eq, first_of, Result, check, ok, err, ◌>>=◌,
}
use dev_workflow_automation.Engineering.Lifecycle.{Action, WaitReason}
use dev_workflow_automation.Engineering.Rows.{Task}
use dev_workflow_automation.Coordinator.Protocol.{
  Directive, Decision, Situation, EffectError, validate_effect, only_talks, asks_review,
}
use dev_workflow_automation.Coordinator.Rows.{
  CoordinatorEvent, CoordinatorRun, CoordinatorAction, HumanRequest, RequestStatus, Tables,
  Settings, coordination_mode, is_active, authorized, reply_to, is_running, at_versions,
}
use dev_workflow_automation.Coordinator.Runs.{is_queued}
use dev_workflow_automation.Coordinator.Runs.Decisions.{is_run}

-- The exceptions of `_apply`: `NewInformation`, `EngineeringBusy`, and the values of `ValueError`.
pub data Refusal : Type 0 where
  authority_revoked suspended coalesced_authority provider_disabled older_revision : Refusal
  too_long review_disabled no_reviewer no_task : Refusal
  effect : EffectError → Refusal
  because : String → Refusal

pub data ApplyError : Type 0 where
  new_information engineering_busy : ApplyError
  refused : Refusal → ApplyError

-- What the rest of the program does for a decision: the control of a task, the request of work, the
-- request of a validation, the status message, and the test that a review can be requested of a
-- task (a published pull request and named reviewers).
pub record Effects : Type 0 where
  pub control_task : Tables → ℕ → Action → WaitReason → Result ApplyError Tables
  pub request_engineering : Tables → CoordinatorAction → Task → Decision → Result ApplyError Tables
  pub request_validation : Tables → CoordinatorAction → Task → Result ApplyError Tables
  pub sync_status : Tables → Task → Tables
  pub has_review_target : Task → Bool

abbrev pub is_answered : RequestStatus → Bool
is_answered RequestStatus.answered = true
is_answered _ = false

-- `status in ("OPEN", "ANSWERED")`
abbrev pub is_current_request : RequestStatus → Bool
is_current_request RequestStatus.cancelled = false
is_current_request _ = true

unfoldable pub latest_human_request : Tables → Task → Option HumanRequest
latest_human_request s t =
    first_of (λ a b. ltb b.created_at a.created_at)
      (keep
        (λ h.
          h.task_id == t.id
          && is_current_request h.status
          && at_versions t h.lifecycle_revision h.requirement_revision)
        s.human_requests)

abbrev pub source_events : Tables → CoordinatorRun → List CoordinatorEvent
source_events s r = keep (λ e. is_run e.run_id r.id) s.events

-- The event's provider coordinates actively, and its author is authorised.
abbrev pub is_entitled : Settings → Task → CoordinatorEvent → Bool
is_entitled set t e = is_active (coordination_mode set (reply_to e)) && authorized set t e

-- `context.get("head_sha")` is a text, and not the task's revision.
abbrev pub is_other_head : Option String → Option String → Bool
is_other_head none revision = false
is_other_head (some head) none = not (str_eq head "")
is_other_head (some head) (some revision) = not (str_eq head "") && not (str_eq head revision)

abbrev pub is_outdated : Task → CoordinatorEvent → Bool
is_outdated t e = str_eq e.provider "github" && is_other_head e.head_sha t.current_revision

abbrev pub answers : HumanRequest → CoordinatorEvent → Bool
answers h e = str_eq e.kind "HUMAN_RESPONSE" && is_run e.human_request_id h.id

abbrev pub continues : Option HumanRequest → List CoordinatorEvent → Bool
continues none sources = false
continues (some h) sources = is_answered h.status && any (answers h) sources

abbrev pub situation_of : Tables → CoordinatorRun → CoordinatorEvent → Task → Situation
situation_of s r e t = record {
  status = t.status;
  manual_takeover = t.manual_takeover;
  expected_revision = r.lifecycle_revision;
  current_revision = t.lifecycle_version;
  expected_requirement = r.requirement_revision;
  current_requirement = t.requirement_version;
  human_continuation = continues (latest_human_request s t) (source_events s r);
  engineering_event = str_eq e.provider "engineering";
}

-- A queued event of the task that came after the run.
abbrev pub has_newer : Tables → Task → CoordinatorRun → Bool
has_newer s t r =
    any (λ e. e.task_id == t.id && ltb r.created_at e.created_at && is_queued e.status) s.events

abbrev pub asks_work : Directive → Bool
asks_work Directive.implement = true
asks_work Directive.repair = true
asks_work _ = false

abbrev pub checked_effect : Decision → Situation → Result ApplyError Unit
checked_effect d situation = elim (validate_effect d situation) [
  | err e ↦ err (ApplyError.refused (Refusal.effect e))
  | ok u ↦ ok u
]

abbrev refusal : Bool → Refusal → Bool × ApplyError
refusal holds r = (holds, ApplyError.refused r)

-- The guards of `_apply` before `validate_effect`, in its order.
abbrev pub guards_before :
    Settings
    → Tables
    → CoordinatorRun
    → CoordinatorEvent
    → Task
    → Decision
    → List (Bool × ApplyError)
guards_before set s r e t d =
    refusal (not (authorized set t e)) Refusal.authority_revoked
    ∷ refusal (not (is_running s.db t)) Refusal.suspended
    ∷ refusal (not (all (is_entitled set t) (source_events s r))) Refusal.coalesced_authority
    ∷ refusal (not (is_active (coordination_mode set (reply_to e)))) Refusal.provider_disabled
    ∷ refusal (any (is_outdated t) (source_events s r) && not (only_talks d.action))
        Refusal.older_revision
    ∷ []

-- The guards after it.
abbrev pub guards_after :
    Settings → Effects → Tables → CoordinatorRun → Task → Decision → List (Bool × ApplyError)
guards_after set fx s r t d =
    (has_newer s t r, ApplyError.new_information)
    ∷ refusal (any (λ x. x.body_truncated) (source_events s r) && asks_work d.action)
        Refusal.too_long
    ∷ refusal (asks_review d.action && not (is_active (coordination_mode set "github")))
        Refusal.review_disabled
    ∷ refusal (asks_review d.action && not (fx.has_review_target t)) Refusal.no_reviewer
    ∷ []

abbrev pub guards :
    Settings
    → Effects
    → Tables
    → CoordinatorRun
    → CoordinatorEvent
    → Task
    → Decision
    → Result ApplyError Unit
guards set fx s r e t d =
    check (guards_before set s r e t d) tt
    >>= (λ u. checked_effect d (situation_of s r e t))
    >>= (λ u. check (guards_after set fx s r t d) tt)
