-- ===== src/Engineering/Phases.antt =====
-- engineering/domain/phases.py: which execution unit a stage runs, and which actions that unit
-- may report.
use dev_workflow_automation.Common.{◌≡◌, ◌≢◌, Bool, true, false, Option, none, some, ok, err, arith}
use dev_workflow_automation.Engineering.Lifecycle.{
  TaskStatus, Stage, WaitReason, Action, EngineeringState, Error, transition, post_init, steps,
  landing,
}

-- `Phase.action`: the name of an execution unit.
pub data PhaseAction : Type 0 where
  interpret_event thinker_turn developer_turn run_validation publish_pr merge_pr : PhaseAction

-- `PHASE_ACTIONS`; `none` is a stage with no unit.
abbrev pub phase_action : Stage → Option PhaseAction
phase_action Stage.intake = some PhaseAction.interpret_event
phase_action Stage.planning = some PhaseAction.thinker_turn
phase_action Stage.developing = some PhaseAction.developer_turn
phase_action Stage.fixing = some PhaseAction.developer_turn
phase_action Stage.validating = some PhaseAction.run_validation
phase_action Stage.publishing = some PhaseAction.publish_pr
phase_action Stage.merging = some PhaseAction.merge_pr
phase_action _ = none

-- `action in PHASE_RESULTS[unit]`
abbrev pub phase_result : PhaseAction → Action → Bool
phase_result PhaseAction.interpret_event Action.start = true
phase_result PhaseAction.thinker_turn Action.plan_ready = true
phase_result PhaseAction.developer_turn Action.implemented = true
phase_result PhaseAction.developer_turn Action.needs_plan = true
phase_result PhaseAction.developer_turn Action.bounded_repair = true
phase_result PhaseAction.developer_turn Action.validate_candidate = true
phase_result PhaseAction.run_validation Action.validation_passed = true
phase_result PhaseAction.run_validation Action.validation_failed = true
phase_result PhaseAction.publish_pr Action.published = true
phase_result PhaseAction.merge_pr Action.merged = true
phase_result PhaseAction.merge_pr Action.merge_recheck = true
phase_result _ _ = false

-- The state that a report of the table leads to.
abbrev pub reported : EngineeringState → Action → Option ((Stage → Bool) × Stage) → EngineeringState
reported s a none = s
reported s a (some (permitted, target)) = record s {
  status = (landing a).0;
  stage = target;
  wait_reason = (landing a).1;
}

-- The outcome of a report: `true` where the lifecycle refuses it.
abbrev pub ReportOutcome : EngineeringState → Action → Bool → Type 0
ReportOutcome s a true =
    transition s a WaitReason.no_wait false ≡ err (Error.cannot_follow a s.stage)
ReportOutcome s a false = transition s a WaitReason.no_wait false ≡ ok (reported s a (steps a))

abbrev pub is_refused : Stage → Action → Bool
is_refused Stage.fixing Action.bounded_repair = true
is_refused _ _ = false

-- While a task is active, nobody has taken it over and its requirement has a version, every result that the unit of its stage may
-- report is accepted and leads to the stage of the table, but for a bounded repair that is reported
-- while the task is in fixing, which is refused.
pub phase_report :
    (s : EngineeringState) (u : PhaseAction) (a : Action)
    → s.status ≡ TaskStatus.active
    → s.manual_takeover ≡ false
    → s.requirement_version ≢ 0
    → phase_action s.stage ≡ some u
    → phase_result u a ≡ true
    → ReportOutcome s a (is_refused s.stage a)
unfolding transition post_init
phase_report s u Action.start h m v p r = ground arith
phase_report s u _ h m v p r = ground arith
