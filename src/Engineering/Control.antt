-- ===== src/Engineering/Control.antt =====
-- engineering/application/development_control.py and developer_failures.py: how a Developer turn
-- continues and what its receipt reports. The recovery, the phase's own execution and the world
-- they change are parameters. The message of a block is not modelled, only its wait reason.
pub mod Reports
pub mod Tests
use dev_workflow_automation.Common.{
  ℕ, ltb, leb, ◌==◌, Bool, true, false, not, ◌&&◌, ◌||◌, Option, none, some, if◌then◌else◌, String,
  str_eq, Result, ok, err, starts_with, skip, take, strip, first_line,
}
use dev_workflow_automation.Engineering.Lifecycle.{WaitReason, Action}
use dev_workflow_automation.AgentRuntime.Policy.{Mode, Effort, TokenEfficiencyPolicy}

-- `bounded_repair_policy`, before its constructor.
unfoldable pub bounded_repair_policy : TokenEfficiencyPolicy → TokenEfficiencyPolicy
bounded_repair_policy p = record p {
  mode = Mode.enforce;
  reasoning_effort = Effort.low;
  first_edit_warning_tokens = 20000;
  exploration_hard_tokens = 50000;
  no_progress_tokens = 20000;
  max_turn_input_tokens = 80000;
  automatic_rollover = false;
}

-- The failure codes that the code names; `other_code` is every other text.
pub data FailureCode : Type 0 where
  turn_input_limit context_hard_limit exploration_limit supervisor_stop no_progress : FailureCode
  repeated_tool_loop repeated_read_loop turn_budget_exhausted budget_limit patch_limit : FailureCode
  patch_tool_failure patch_failed usage_incomplete response_incomplete : FailureCode
  patch_already_attempted provider_authentication_failed other_code : FailureCode

pub data Harness : Type 0 where
  responses patch native : Harness

pub data WorkOutcome : Type 0 where
  implemented needs_plan needs_human milestone_complete failed : WorkOutcome

-- `outcome` is that of `result.payload`, if there is a result.
pub record TurnReceipt : Type 0 where
  pub completed : Bool
  pub failure_code : Option FailureCode
  pub summary : String
  pub outcome : Option WorkOutcome

-- `DevelopmentSession`, with the keys of its checkpoint that the code reads. A text that is absent
-- or empty is `none`.
pub record DevelopmentSession : Type 0 where
  pub session_id : ℕ
  pub requirement_version : ℕ
  pub native_session_id : Option String
  pub harness : Harness
  pub rollover_digest : Option String
  pub continuity_acknowledged : Option String
  pub active_context_estimate : Option ℕ
  pub next_feedback : Option String
  pub summary : Option String
  pub compaction_count : ℕ

-- `PhaseBlocked`, or any other exception of the execution.
pub data Fault : Type 0 where
  blocked : WaitReason → Fault
  raised : Fault

-- The map of the codes of the patch harness.
abbrev patch_reason : Option FailureCode → WaitReason
patch_reason (some FailureCode.budget_limit) = WaitReason.budget_exhausted
patch_reason (some FailureCode.patch_limit) = WaitReason.no_progress
patch_reason (some FailureCode.patch_tool_failure) = WaitReason.runtime_failure
patch_reason (some FailureCode.patch_failed) = WaitReason.runtime_failure
patch_reason (some FailureCode.usage_incomplete) = WaitReason.runtime_failure
patch_reason (some FailureCode.response_incomplete) = WaitReason.runtime_failure
patch_reason (some FailureCode.turn_input_limit) = WaitReason.no_progress
patch_reason (some FailureCode.patch_already_attempted) = WaitReason.no_progress
patch_reason _ = WaitReason.missing_requirement

abbrev native_reason : Option FailureCode → WaitReason
native_reason (some FailureCode.provider_authentication_failed) = WaitReason.missing_configuration
native_reason _ = WaitReason.missing_requirement

abbrev harness_reason : Harness → Option FailureCode → WaitReason
harness_reason Harness.patch code = patch_reason code
harness_reason _ code = native_reason code

-- `block_failed_turn`: the wait reason of the block that it raises.
unfoldable pub block_failed_turn : Option FailureCode → Harness → WaitReason
block_failed_turn (some FailureCode.turn_input_limit) h = WaitReason.token_limit
block_failed_turn (some FailureCode.context_hard_limit) h = WaitReason.token_limit
block_failed_turn (some FailureCode.exploration_limit) h = WaitReason.token_limit
block_failed_turn (some FailureCode.supervisor_stop) h = WaitReason.runtime_failure
block_failed_turn (some FailureCode.no_progress) h = WaitReason.no_progress
block_failed_turn (some FailureCode.repeated_tool_loop) h = WaitReason.no_progress
block_failed_turn (some FailureCode.repeated_read_loop) h = WaitReason.no_progress
block_failed_turn (some FailureCode.turn_budget_exhausted) h = WaitReason.budget_exhausted
block_failed_turn code h = harness_reason h code

-- The flags with which the phase is executed again.
pub data Turn : Type 0 where
  plain continuity compaction compacted : Turn

abbrev pub is_turn_limit : Option FailureCode → Bool
is_turn_limit (some FailureCode.turn_input_limit) = true
is_turn_limit _ = false

abbrev pub is_enforce : Mode → Bool
is_enforce Mode.enforce = true
is_enforce _ = false

abbrev keeps_context : Harness → Bool
keeps_context Harness.native = true
keeps_context _ = false

abbrev is_present : Option String → Bool
is_present none = false
is_present (some s) = true

abbrev is_text : Option String → String → Bool
is_text none s = false
is_text (some t) s = str_eq t s

abbrev at_least : Option ℕ → ℕ → Bool
at_least none n = false
at_least (some m) n = leb n m

-- A checkpoint that its session has not acknowledged.
abbrev unacknowledged : Option String → Option String → Bool
unacknowledged none acknowledged = false
unacknowledged (some digest) acknowledged = not (is_text acknowledged digest)

abbrev or_text : Option String → String → String
or_text none default = default
or_text (some s) default = s

-- What the recovery and the execution do to the world `S`; `rollover` gives false for one of the
-- three exceptions that are caught.
pub record Effects (S : Type 0) : Type 0 where
  pub validate_candidate : ℕ → S → S × Bool
  pub repair : ℕ → S → S × Bool
  pub rollover : ℕ → String → S → S × Bool
  pub execute : Turn → S → S × Result Fault Action

module _ {S : Type 0} (run : Effects S) where
  -- A call whose exception ends the method.
  abbrev and_execute : Turn → S × Result Fault Action → S × Result Fault Action
  and_execute turn (s, ok action) = run.execute turn s
  and_execute turn (s, err fault) = (s, err fault)

  abbrev as_some : S × Result Fault Action → S × Result Fault (Option Action)
  as_some (s, ok action) = (s, ok (some action))
  as_some (s, err fault) = (s, err fault)

  abbrev pub after_rollover : WaitReason → S × Bool → S × Result Fault Action
  after_rollover reason (s, true) = run.execute Turn.plain s
  after_rollover reason (s, false) = (s, err (Fault.blocked reason))

  abbrev pub after_repair : S × Bool → S × Option Action
  after_repair (s, true) = (s, some Action.bounded_repair)
  after_repair (s, false) = (s, none)

  abbrev pub after_candidate : ℕ → Bool → S × Bool → S × Option Action
  after_candidate session allow_repair (s, true) = (s, some Action.validate_candidate)
  after_candidate session allow_repair (s, false) =
      if allow_repair then after_repair (run.repair session s) else (s, none)

  unfoldable pub recover_candidate : ℕ → Bool → S → S × Option Action
  recover_candidate session allow_repair s =
      after_candidate session allow_repair (run.validate_candidate session s)

  -- The guards of the two ways to shrink the context.
  abbrev pub wants_rollover : DevelopmentSession → TokenEfficiencyPolicy → Turn → Bool
  wants_rollover st p turn =
      not (elim turn [ Turn.compaction ↦ true | Turn.continuity ↦ true | _ ↦ false ])
      && is_present st.native_session_id
      && is_present st.next_feedback
      && p.automatic_rollover
      && keeps_context st.harness
      && is_enforce p.mode
      && at_least st.active_context_estimate p.active_context_soft_tokens

  abbrev pub wants_compaction : ℕ → DevelopmentSession → TokenEfficiencyPolicy → Turn → Bool
  wants_compaction threshold st p turn =
      not (elim turn [ Turn.compaction ↦ true | Turn.compacted ↦ true | _ ↦ false ])
      && not (threshold == 0)
      && keeps_context st.harness
      && is_present st.native_session_id
      && at_least st.active_context_estimate threshold
      && ltb st.compaction_count p.max_compactions
      && is_present st.next_feedback

  abbrev is_continuity : Turn → Bool
  is_continuity Turn.continuity = true
  is_continuity _ = false

  -- `threshold` is `compact_before_feedback_tokens`; at most one of the three flags is set.
  unfoldable pub continue_session :
      ℕ → DevelopmentSession → TokenEfficiencyPolicy → Turn → S → S × Result Fault (Option Action)
  continue_session threshold st p turn s =
      if unacknowledged st.rollover_digest st.continuity_acknowledged && not (is_continuity turn)
      then if is_present st.native_session_id
        then (s, err (Fault.blocked WaitReason.missing_requirement))
        else as_some (and_execute Turn.plain (run.execute Turn.continuity s))
      else if wants_rollover st p turn
      then as_some (
          after_rollover WaitReason.missing_requirement (
            run.rollover st.requirement_version
              (take 1800 (
                or_text st.summary
                  "Continue from current validated code and pending review feedback."))
              s))
      else if wants_compaction threshold st p turn
      then as_some (and_execute Turn.compacted (run.execute Turn.compaction s))
      else (s, ok none)

  abbrev pub block_or : Option FailureCode → Harness → S × Option Action → S × Result Fault Action
  block_or code h (s, some action) = (s, ok action)
  block_or code h (s, none) = (s, err (Fault.blocked (block_failed_turn code h)))

  -- A receipt that is not completed.
  unfoldable pub finish_failed : DevelopmentSession → TurnReceipt → S → S × Result Fault Action
  finish_failed st r s =
      block_or r.failure_code st.harness
        (if is_turn_limit r.failure_code then recover_candidate st.session_id true s else (s, none))

  unfoldable pub finish_milestone :
      DevelopmentSession → TokenEfficiencyPolicy → TurnReceipt → S → S × Result Fault Action
  finish_milestone st p r s =
      if not p.automatic_rollover || not (is_enforce p.mode)
      then (s, err (Fault.blocked WaitReason.missing_requirement))
      else after_rollover WaitReason.missing_requirement (
          run.rollover st.requirement_version (take 1800 (skip "MILESTONE_COMPLETE\n" r.summary)) s)

  -- The outcome of a completed turn; without a result the summary's first line tells it.
  unfoldable pub finish_outcome :
      DevelopmentSession
      → TokenEfficiencyPolicy
      → TurnReceipt
      → Option WorkOutcome
      → S
      → S × Result Fault Action
  finish_outcome st p r (some WorkOutcome.needs_human) s =
      (s, err (Fault.blocked WaitReason.missing_requirement))
  finish_outcome st p r (some WorkOutcome.failed) s =
      (s, err (Fault.blocked WaitReason.runtime_failure))
  finish_outcome st p r (some WorkOutcome.milestone_complete) s = finish_milestone st p r s
  finish_outcome st p r (some WorkOutcome.needs_plan) s = (s, ok Action.needs_plan)
  finish_outcome st p r (some WorkOutcome.implemented) s = (s, ok Action.implemented)
  finish_outcome st p r none s =
      if starts_with "MILESTONE_COMPLETE\n" r.summary
      then finish_milestone st p r s
      else if str_eq (strip (first_line (strip r.summary))) "NEEDS_PLAN"
      then (s, ok Action.needs_plan)
      else (s, ok Action.implemented)

  unfoldable pub finish :
      DevelopmentSession → TokenEfficiencyPolicy → TurnReceipt → S → S × Result Fault Action
  finish st p r s = if r.completed then finish_outcome st p r r.outcome s else finish_failed st r s
