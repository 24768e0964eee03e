-- ===== src/Engineering/Control/Tests.antt =====
-- Tests of a Developer turn with a world that counts calls.
use dev_workflow_automation.Common.{
  ℕ, ◌≡◌, refl, true, false, none, some, ok, ap, arith, ◌⊎◌, Result, ◌+◌,
}
use dev_workflow_automation.Engineering.Lifecycle.{Action}
use dev_workflow_automation.Engineering.Phases.{PhaseAction, phase_result}
use dev_workflow_automation.AgentRuntime.Policy.{defaults, post_init}
use dev_workflow_automation.Engineering.Control.{
  FailureCode, Harness, WorkOutcome, TurnReceipt, DevelopmentSession, Fault, Turn, Effects, finish,
  finish_failed, recover_candidate, finish_outcome,
}
use dev_workflow_automation.Engineering.Control.Reports.{failed_turn_reports, finish-phase_result}

-- Each call is counted; there is no candidate, and a repair is always possible.
abbrev counting : Effects ℕ
counting = record {
  validate_candidate = λ session n. (n + 1, false);
  repair = λ session n. (n + 1, true);
  rollover = λ version summary n. (n + 1, true);
  execute = λ turn n. (n + 1, ok Action.implemented);
}

abbrev session : DevelopmentSession
session = record {
  session_id = 1;
  requirement_version = 1;
  native_session_id = some "native";
  harness = Harness.native;
  rollover_digest = none;
  continuity_acknowledged = none;
  active_context_estimate = none;
  next_feedback = none;
  summary = none;
  compaction_count = 0;
}

abbrev cut : TurnReceipt
cut = record {
  completed = false;
  failure_code = some FailureCode.turn_input_limit;
  summary = "";
  outcome = none;
}

abbrev planless : TurnReceipt
planless = record {
  completed = true;
  failure_code = none;
  summary = "";
  outcome = some WorkOutcome.needs_plan;
}

cut-repaired : finish counting session defaults cut 0 ≡ (2, ok Action.bounded_repair)
unfolding finish finish_failed recover_candidate
cut-repaired = refl

planless-reported : finish counting session defaults planless 0 ≡ (0, ok Action.needs_plan)
unfolding finish finish_outcome
planless-reported = refl

failed_turn_reports_example :
    (cut.failure_code ≡ some FailureCode.turn_input_limit)
    × (((Action.bounded_repair ≡ Action.validate_candidate)
          × (counting.validate_candidate 1 0 ≡ (2, true)))
        ⊎ ((Action.bounded_repair ≡ Action.bounded_repair)
            × ((m : ℕ) × (counting.validate_candidate 1 0 ≡ (m, false))
                × (counting.repair 1 m ≡ (2, true)))))
failed_turn_reports_example =
    failed_turn_reports counting session defaults cut 0 2 Action.bounded_repair refl cut-repaired

counting-reports :
    (x x' : ℕ) (b : Action)
    → counting.execute Turn.plain x ≡ (x', ok b)
    → phase_result PhaseAction.developer_turn b ≡ true
counting-reports x x' b h =
    let e : ◌≡◌ {A = Result Fault Action} (ok Action.implemented) (ok b) = ap (λ p. p.1) h in
    ground arith

finish-phase_result_example : phase_result PhaseAction.developer_turn Action.needs_plan ≡ true
finish-phase_result_example =
    finish-phase_result counting session defaults planless 0 0 Action.needs_plan counting-reports
      planless-reported

defaults-ok : post_init defaults ≡ ok defaults
unfolding post_init
defaults-ok = refl
