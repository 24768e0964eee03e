-- ===== src/Engineering/Lifecycle.antt =====
-- engineering/domain/lifecycle.py: the fixed business transition of a task. `EngineeringState`
-- is the frozen dataclass, `post_init` its `__post_init__`, `transition` the function of that
-- name. `raise` is `err`; every raise site has a constructor of `Error`.
pub mod Validity
pub mod Traces
pub mod Merging
pub mod Tests
use dev_workflow_automation.Common.{
  ℕ, ◌+◌, ltb, Bool, true, false, not, ◌&&◌, ◌||◌, Option, none, some, Result, ok, err, refuse,
  ◌>>◌, if◌then◌else◌,
}

pub data TaskStatus : Type 0 where
  new active waiting_external waiting_human paused failed cancelled merged : TaskStatus

pub data Stage : Type 0 where
  intake planning developing validating publishing reviewing fixing merging complete : Stage

pub data WaitReason : Type 0 where
  no_wait github_review github_checks provider_rate_limit provider_outage : WaitReason
  integration_failure missing_configuration budget_exhausted token_limit no_progress : WaitReason
  runtime_failure missing_requirement approval_required merge_conflict : WaitReason
  manual_takeover : WaitReason

pub data Action : Type 0 where
  start needs_plan plan_ready implemented bounded_repair validate_candidate : Action
  validation_passed validation_failed published review_fix requirement_changed : Action
  revise_requirement merge_authorized merge_recheck merged pause resume cancel : Action
  takeover release_takeover block : Action

pub record EngineeringState : Type 0 where
  pub status : TaskStatus
  pub stage : Stage
  pub wait_reason : WaitReason
  pub requirement_version : ℕ
  pub manual_takeover : Bool

-- The defaults of the dataclass.
abbrev pub initial : EngineeringState
initial = record {
  status = TaskStatus.new;
  stage = Stage.intake;
  wait_reason = WaitReason.no_wait;
  requirement_version = 1;
  manual_takeover = false;
}

pub data Error : Type 0 where
  version_not_positive runnable_with_reason waiting_without_reason : Error
  complete_mismatch takeover_not_paused : Error
  terminal_task revision_not_paused not_suspended takeover_held paused_work : Error
  blocker_without_reason human_blocker external_wait : Error
  cannot_follow : Action → Stage → Error
  key_error : Action → Error

abbrev pub is_no_wait : WaitReason → Bool
is_no_wait WaitReason.no_wait = true
is_no_wait _ = false

-- `status in {NEW, ACTIVE, MERGED}`
abbrev pub is_runnable_or_merged : TaskStatus → Bool
is_runnable_or_merged TaskStatus.new = true
is_runnable_or_merged TaskStatus.active = true
is_runnable_or_merged TaskStatus.merged = true
is_runnable_or_merged _ = false

-- `status in {WAITING_EXTERNAL, WAITING_HUMAN}`
abbrev pub is_waiting : TaskStatus → Bool
is_waiting TaskStatus.waiting_external = true
is_waiting TaskStatus.waiting_human = true
is_waiting _ = false

abbrev pub is_merged : TaskStatus → Bool
is_merged TaskStatus.merged = true
is_merged _ = false

abbrev pub is_paused : TaskStatus → Bool
is_paused TaskStatus.paused = true
is_paused _ = false

abbrev pub is_waiting_human : TaskStatus → Bool
is_waiting_human TaskStatus.waiting_human = true
is_waiting_human _ = false

abbrev pub is_waiting_external : TaskStatus → Bool
is_waiting_external TaskStatus.waiting_external = true
is_waiting_external _ = false

abbrev pub is_complete : Stage → Bool
is_complete Stage.complete = true
is_complete _ = false

abbrev pub is_intake : Stage → Bool
is_intake Stage.intake = true
is_intake _ = false

abbrev pub is_reviewing : Stage → Bool
is_reviewing Stage.reviewing = true
is_reviewing _ = false

-- `status in {MERGED, CANCELLED, FAILED}`
abbrev pub is_terminal : TaskStatus → Bool
is_terminal TaskStatus.merged = true
is_terminal TaskStatus.cancelled = true
is_terminal TaskStatus.failed = true
is_terminal _ = false

-- `status in {PAUSED, WAITING_HUMAN, WAITING_EXTERNAL}`
abbrev pub is_suspended : TaskStatus → Bool
is_suspended status = is_paused status || is_waiting status

abbrev differ : Bool → Bool → Bool
differ true b = not b
differ false b = b

-- `__post_init__`; every `replace` runs it on the new value.
unfoldable pub post_init : EngineeringState → Result Error EngineeringState
post_init s = do
  refuse (ltb s.requirement_version 1) Error.version_not_positive
  refuse (is_runnable_or_merged s.status && not (is_no_wait s.wait_reason))
      Error.runnable_with_reason
  refuse (is_waiting s.status && is_no_wait s.wait_reason) Error.waiting_without_reason
  refuse (differ (is_merged s.status) (is_complete s.stage)) Error.complete_mismatch
  refuse (s.manual_takeover && not (is_paused s.status)) Error.takeover_not_paused
  ok s

abbrev pub is_planning : Stage → Bool
is_planning Stage.planning = true
is_planning _ = false

abbrev pub is_developing : Stage → Bool
is_developing Stage.developing = true
is_developing _ = false

abbrev pub is_developing_or_fixing : Stage → Bool
is_developing_or_fixing Stage.developing = true
is_developing_or_fixing Stage.fixing = true
is_developing_or_fixing _ = false

abbrev pub is_validating : Stage → Bool
is_validating Stage.validating = true
is_validating _ = false

abbrev pub is_publishing : Stage → Bool
is_publishing Stage.publishing = true
is_publishing _ = false

abbrev pub is_merging : Stage → Bool
is_merging Stage.merging = true
is_merging _ = false

-- `_STEPS`: the permitted stages (a test) and the target; `none` is a missing key.
abbrev pub steps : Action → Option ((Stage → Bool) × Stage)
steps Action.start = some (is_intake, Stage.developing)
steps Action.needs_plan = some (is_developing_or_fixing, Stage.planning)
steps Action.plan_ready = some (is_planning, Stage.developing)
steps Action.implemented = some (is_developing_or_fixing, Stage.validating)
steps Action.bounded_repair = some (is_developing, Stage.fixing)
steps Action.validate_candidate = some (is_developing_or_fixing, Stage.validating)
steps Action.validation_failed = some (is_validating, Stage.fixing)
steps Action.validation_passed = some (is_validating, Stage.publishing)
steps Action.published = some (is_publishing, Stage.reviewing)
steps Action.review_fix = some (is_reviewing, Stage.fixing)
steps Action.merge_authorized = some (is_reviewing, Stage.merging)
steps Action.merge_recheck = some (is_merging, Stage.reviewing)
steps Action.merged = some (is_merging, Stage.complete)
steps _ = none

-- `replace(state, …)` for PAUSE (`requested` false) and TAKEOVER (true).
suspend : Bool → EngineeringState → Result Error EngineeringState
suspend requested s =
    let takeover = requested || s.manual_takeover in
    post_init (record s {
      status = TaskStatus.paused;
      manual_takeover = takeover;
      wait_reason = if takeover then WaitReason.manual_takeover else s.wait_reason;
    })

revise : EngineeringState → Result Error EngineeringState
revise s = do
  refuse (not (is_paused s.status)) Error.revision_not_paused
  post_init (record s {
    stage = if is_intake s.stage then Stage.intake else Stage.fixing;
    requirement_version = s.requirement_version + 1;
  })

-- RESUME (`released` false) and RELEASE_TAKEOVER (true).
resume_task : Bool → EngineeringState → Result Error EngineeringState
resume_task released s = do
  refuse (not (is_suspended s.status)) Error.not_suspended
  refuse (s.manual_takeover && not released) Error.takeover_held
  let reviewing = is_reviewing s.stage
  post_init (record s {
    status = if reviewing then TaskStatus.waiting_external else TaskStatus.active;
    wait_reason = if reviewing then WaitReason.github_review else WaitReason.no_wait;
    manual_takeover = false;
  })

block_task : WaitReason → Bool → EngineeringState → Result Error EngineeringState
block_task wait_reason external s = do
  refuse (is_paused s.status || s.manual_takeover) Error.paused_work
  refuse (is_no_wait wait_reason) Error.blocker_without_reason
  post_init (record s {
    status = if external then TaskStatus.waiting_external else TaskStatus.waiting_human;
    wait_reason = wait_reason;
  })

change_requirement : EngineeringState → Result Error EngineeringState
change_requirement s = do
  refuse (is_paused s.status || s.manual_takeover) Error.paused_work
  refuse (is_waiting_human s.status) Error.human_blocker
  post_init (record s {
    status = TaskStatus.active;
    stage = Stage.fixing;
    wait_reason = WaitReason.no_wait;
    requirement_version = s.requirement_version + 1;
  })

-- `action in {REVIEW_FIX, MERGE_AUTHORIZED}`
abbrev pub resolves_external : Action → Bool
resolves_external Action.review_fix = true
resolves_external Action.merge_authorized = true
resolves_external _ = false

-- The status and the reason after a step of the table.
abbrev pub landing : Action → TaskStatus × WaitReason
landing Action.published = (TaskStatus.waiting_external, WaitReason.github_review)
landing Action.merge_recheck = (TaskStatus.waiting_external, WaitReason.github_review)
landing Action.merged = (TaskStatus.merged, WaitReason.no_wait)
landing _ = (TaskStatus.active, WaitReason.no_wait)

-- The steps of the table, from `permitted, target = _STEPS[action]` on.
advance_by :
    Action → Option ((Stage → Bool) × Stage) → EngineeringState → Result Error EngineeringState
advance_by action none s = err (Error.key_error action)
advance_by action (some (permitted, target)) s = do
  refuse (not (permitted s.stage)) (Error.cannot_follow action s.stage)
  refuse (is_waiting_external s.status && not (resolves_external action)) Error.external_wait
  post_init
      (record s { status = (landing action).0; stage = target; wait_reason = (landing action).1 })

advance : Action → EngineeringState → Result Error EngineeringState
unfolding advance_by
advance action s = do
  refuse (is_paused s.status || s.manual_takeover) Error.paused_work
  refuse (is_waiting_human s.status) Error.human_blocker
  advance_by action (steps action) s

-- The tests on `action` between the first guard and the table, in the order of the code.
dispatch : Action → WaitReason → Bool → EngineeringState → Result Error EngineeringState
unfolding suspend revise resume_task block_task change_requirement advance
dispatch Action.cancel wait_reason external s =
    post_init (record s { status = TaskStatus.cancelled; manual_takeover = false })
dispatch Action.pause wait_reason external s = suspend false s
dispatch Action.takeover wait_reason external s = suspend true s
dispatch Action.revise_requirement wait_reason external s = revise s
dispatch Action.resume wait_reason external s = resume_task false s
dispatch Action.release_takeover wait_reason external s = resume_task true s
dispatch Action.block wait_reason external s = block_task wait_reason external s
dispatch Action.requirement_changed wait_reason external s = change_requirement s
dispatch action wait_reason external s = advance action s

-- `transition(state, action, wait_reason=…, external_wait=…)`
unfoldable pub transition :
    EngineeringState → Action → WaitReason → Bool → Result Error EngineeringState
unfolding dispatch
transition s action wait_reason external =
    if is_terminal s.status then err Error.terminal_task else dispatch action wait_reason external s
