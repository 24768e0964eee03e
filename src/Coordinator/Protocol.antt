-- ===== src/Coordinator/Protocol.antt =====
-- coordinator/domain/protocol.py: `Directive`, `Checkpoint`, `Decision` and `validate_effect`.
use dev_workflow_automation.Common.{
  ℕ, ◌==◌, Bool, true, false, not, ◌&&◌, ◌||◌, List, [], ◌∷◌, String, str_eq, if◌then◌else◌, Result,
  ok, check, ◌≡◌, ◌↔◌, ◌⊎◌, arith,
}
use dev_workflow_automation.Engineering.Lifecycle.{TaskStatus}

pub data Directive : Type 0 where
  wait reply request_review update_summary sync_status request_validation : Directive
  ask_human implement repair pause cancel : Directive

pub record Checkpoint : Type 0 where
  pub goal : String
  pub invariants : List String
  pub open_questions : List String

pub record Decision : Type 0 where
  pub version : ℕ
  pub action : Directive
  pub message : String
  pub engineering_request : String
  pub reason : String
  pub choices : List String
  pub read_tools : List String
  pub checkpoint : Checkpoint

unfoldable pub outbound_message : Decision → String
outbound_message d = elim d.action [ Directive.wait ↦ "" | _ ↦ d.message ]

pub data MessageKind : Type 0 where
  question update : MessageKind

unfoldable pub message_kind : Decision → MessageKind
message_kind d = elim d.action [
  | Directive.ask_human ↦ MessageKind.question
  | _ ↦ MessageKind.update
]

pub data ReviewDisposition : Type 0 where
  feedback_applied ignored needs_classification : ReviewDisposition

unfoldable pub review_disposition : Decision → ReviewDisposition
review_disposition d = elim d.action [
  | Directive.repair ↦ ReviewDisposition.feedback_applied
  | Directive.reply ↦ ReviewDisposition.ignored
  | Directive.wait ↦ ReviewDisposition.ignored
  | _ ↦ ReviewDisposition.needs_classification
]

pub data DeliveryStatus : Type 0 where
  delivery_pending executed : DeliveryStatus

abbrev pub asks_review : Directive → Bool
asks_review Directive.request_review = true
asks_review _ = false

unfoldable pub delivery_status : Decision → DeliveryStatus
delivery_status d =
    if not (str_eq (outbound_message d) "") || asks_review d.action
    then DeliveryStatus.delivery_pending
    else DeliveryStatus.executed

-- `action in {WAIT, REPLY}`
abbrev pub only_talks : Directive → Bool
only_talks Directive.wait = true
only_talks Directive.reply = true
only_talks _ = false

-- `status in {"MERGED", "FAILED", "CANCELLED", "PAUSED"}`
abbrev pub is_suspended : TaskStatus → Bool
is_suspended TaskStatus.merged = true
is_suspended TaskStatus.failed = true
is_suspended TaskStatus.cancelled = true
is_suspended TaskStatus.paused = true
is_suspended _ = false

abbrev pub is_waiting_human : TaskStatus → Bool
is_waiting_human TaskStatus.waiting_human = true
is_waiting_human _ = false

-- The task that an effect is checked against.
pub record Situation : Type 0 where
  pub status : TaskStatus
  pub manual_takeover : Bool
  pub expected_revision : ℕ
  pub current_revision : ℕ
  pub expected_requirement : ℕ
  pub current_requirement : ℕ
  pub human_continuation : Bool
  pub engineering_event : Bool

pub data EffectError : Type 0 where
  task_changed manual_takeover_owns competing_work needs_operator resolve_human_first : EffectError

unfoldable pub validate_effect : Decision → Situation → Result EffectError Unit
validate_effect d s =
    check
      ((
        not (
            s.expected_revision == s.current_revision
            && s.expected_requirement == s.current_requirement),
        EffectError.task_changed,
      )
        ∷ (s.manual_takeover, EffectError.manual_takeover_owns)
        ∷ (s.engineering_event && not (only_talks d.action), EffectError.competing_work)
        ∷ (is_suspended s.status && not (only_talks d.action), EffectError.needs_operator)
        ∷ (
          is_waiting_human s.status && not s.human_continuation && not (only_talks d.action),
          EffectError.resolve_human_first,
        )
        ∷ [])
      tt

-- The task has not changed since the decision, and nobody has taken it over.
abbrev pub is_fresh : Situation → Bool
is_fresh s =
    s.expected_revision == s.current_revision
    && s.expected_requirement == s.current_requirement
    && not s.manual_takeover

-- The task admits work from the coordinator: no engineering event is being answered, the task is
-- neither suspended nor ended, and a human request is open only to its own continuation.
unfoldable pub admits_work : Situation → Bool
admits_work s = not s.engineering_event && elim s.status [
  | TaskStatus.new ↦ true
  | TaskStatus.active ↦ true
  | TaskStatus.waiting_human ↦ s.human_continuation
  | TaskStatus.waiting_external ↦ true
  | _ ↦ false
]

-- An effect is accepted exactly if the task is unchanged and not taken over, and either the
-- decision only talks (it waits or replies) or the task admits work.
pub validate_effect-eq-ok_iff :
    (d : Decision) (s : Situation)
    → (validate_effect d s ≡ ok tt)
      ↔ ((is_fresh s ≡ true) × ((only_talks d.action ≡ true) ⊎ (admits_work s ≡ true)))
unfolding validate_effect admits_work
validate_effect-eq-ok_iff d s = ground arith
