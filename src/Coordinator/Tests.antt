-- ===== src/Coordinator/Tests.antt =====
-- A test of an effect on a paused task.
use dev_workflow_automation.Common.{◌≡◌, ◌↔◌, ◌⊎◌, true, false, [], ok}
use dev_workflow_automation.Engineering.Lifecycle.{TaskStatus}
use dev_workflow_automation.Coordinator.Protocol.{
  Directive, Decision, Situation, validate_effect, only_talks, is_fresh, admits_work,
  validate_effect-eq-ok_iff,
}

abbrev decision : Decision
decision = record {
  version = 1;
  action = Directive.reply;
  message = "Paused.";
  engineering_request = "";
  reason = "asked";
  choices = [];
  read_tools = [];
  checkpoint = record { goal = "answer"; invariants = []; open_questions = [] };
}

abbrev situation : Situation
situation = record {
  status = TaskStatus.paused;
  manual_takeover = false;
  expected_revision = 2;
  current_revision = 2;
  expected_requirement = 1;
  current_requirement = 1;
  human_continuation = false;
  engineering_event = false;
}

validate_effect-eq-ok_iff_example : (validate_effect decision situation ≡ ok tt) ↔ (
    (is_fresh situation ≡ true)
    × ((only_talks Directive.reply ≡ true) ⊎ (admits_work situation ≡ true)))
validate_effect-eq-ok_iff_example = validate_effect-eq-ok_iff decision situation
