-- ===== src/AgentRuntime/Governor.antt =====
-- agent_runtime/application/developer_progress_governor.py: the state of
-- `DeveloperProgressGovernor` and its methods. `self` is passed and returned. The clock
-- (`monotonic`) is an argument, in ticks. A `dict` is an association list; a set of warnings is
-- its membership test. `shell_output_bytes` is written by the adapters and read by none of this.
pub mod Observe
pub mod Snapshots
pub mod Resumption
pub mod Warnings
pub mod Evidence
use dev_workflow_automation.Common.{
  ℕ, ◌+◌, ◌-◌, ltb, ◌==◌, Bool, true, false, not, ◌&&◌, ◌||◌, Option, none, some, if◌then◌else◌,
  List, [], ◌∷◌, String, str_eq, ℤ, pos, negsuc, sub_ℕ, get, put, pop, count_or,
}
use dev_workflow_automation.AgentRuntime.Policy.{TokenEfficiencyPolicy}

pub data Warning : Type 0 where
  context_warning exploration_warning no_progress_warning repeated_command_warning : Warning
  repeated_compaction_warning repeated_read_warning turn_input_limit_warning : Warning
  unchanged_validation_warning : Warning

pub data Stop : Type 0 where
  exploration_limit repeated_tool_loop context_hard_limit repeated_read_loop : Stop
  repeated_compaction turn_input_limit : Stop

pub data PhaseLabel : Type 0 where
  discovery editing targeted_validation debugging : PhaseLabel

-- `previous_window`, with the keys of its dict.
pub record Window : Type 0 where
  pub input : ℕ
  pub cached : ℕ
  pub diffs : ℕ
  pub improvements : ℕ
  pub regressions : ℕ
  pub reads : ℕ

pub record Governor : Type 0 where
  pub policy : TokenEfficiencyPolicy
  pub total : ℕ
  pub last_progress : ℤ
  pub first_edit : Option ℕ
  pub active_context : Option ℕ
  pub peak_context : Option ℕ
  pub diff_fingerprint : Option String
  pub warnings : Warning → Bool
  pub repeats : List (String × ℕ)
  pub stop_reason : Option Stop
  pub tool_calls : ℕ
  pub diff_changes : ℕ
  pub source_read_bytes : ℕ
  pub shell_output_bytes : ℕ
  pub repeated_read_count : ℕ
  pub reads : List (String × ℕ)
  pub checks : List (String × String)
  pub check_improvements : ℕ
  pub started : ℕ
  pub first_tool_seconds : Option ℕ
  pub first_edit_seconds : Option ℕ
  pub source_read_count : ℕ
  pub compaction_count : ℕ
  pub phase : PhaseLabel
  pub failed_checks : List (String × ℕ)
  pub inference_cycles : ℕ
  pub cached_input : ℕ
  pub previous_window : Window
  pub check_regressions : ℕ

-- The defaults of the dataclass; a key missing from `previous_window` reads as 0.
abbrev pub begin : TokenEfficiencyPolicy → ℕ → Governor
begin policy now = record {
  policy = policy;
  total = 0;
  last_progress = pos 0;
  first_edit = none;
  active_context = none;
  peak_context = none;
  diff_fingerprint = none;
  warnings = λ w. false;
  repeats = [];
  stop_reason = none;
  tool_calls = 0;
  diff_changes = 0;
  source_read_bytes = 0;
  shell_output_bytes = 0;
  repeated_read_count = 0;
  reads = [];
  checks = [];
  check_improvements = 0;
  started = now;
  first_tool_seconds = none;
  first_edit_seconds = none;
  source_read_count = 0;
  compaction_count = 0;
  phase = PhaseLabel.discovery;
  failed_checks = [];
  inference_cycles = 0;
  cached_input = 0;
  previous_window = record {
    input = 0;
    cached = 0;
    diffs = 0;
    improvements = 0;
    regressions = 0;
    reads = 0;
  };
  check_regressions = 0;
}

-- `total - last_progress`; `last_progress` is never ahead of `total`.
abbrev pub behind : ℕ → ℤ → ℕ
behind total (pos p) = total - p
behind total (negsuc k) = total + k + 1

-- `read`: the source text of a fingerprint was read.
unfoldable pub read : Governor → String → ℕ → Governor
read g fingerprint size =
    let times = count_or 0 (get fingerprint g.reads) + 1 in
    record g {
      source_read_count = g.source_read_count + 1;
      source_read_bytes = g.source_read_bytes + size;
      reads = put fingerprint times g.reads;
      repeated_read_count =
          if ltb 1 times then g.repeated_read_count + 1 else g.repeated_read_count;
    }

abbrev is_passed : String → Bool
is_passed outcome = str_eq outcome "passed"

-- `previous == outcome`, where `previous` may be None.
abbrev same_outcome : Option String → String → Bool
same_outcome none outcome = false
same_outcome (some p) outcome = str_eq p outcome

abbrev was_passed : Option String → Bool
was_passed none = false
was_passed (some p) = is_passed p

-- `failed_checks` after `check`.
failed_after : Option String → String → String → List (String × ℕ) → List (String × ℕ)
failed_after previous command outcome failed =
    if same_outcome previous outcome && not (is_passed outcome)
    then put command (count_or 1 (get command failed) + 1) failed
    else if not (same_outcome previous outcome)
    then pop command failed
    else failed

-- `previous is not None and outcome != previous`
abbrev changed : Option String → String → Bool
changed none outcome = false
changed (some p) outcome = not (str_eq p outcome)

-- `check`: a validation command ended with an outcome.
unfoldable pub check : Governor → String → String → Governor
unfolding failed_after
check g command outcome =
    let previous = get command g.checks in
    record g {
      phase = if is_passed outcome then PhaseLabel.targeted_validation else PhaseLabel.debugging;
      failed_checks = failed_after previous command outcome g.failed_checks;
      last_progress = if changed previous outcome then pos g.total else g.last_progress;
      check_improvements =
          if changed previous outcome && is_passed outcome
          then g.check_improvements + 1
          else g.check_improvements;
      check_regressions =
          if was_passed previous && not (is_passed outcome)
          then g.check_regressions + 1
          else g.check_regressions;
      checks = put command outcome g.checks;
    }

-- `x if x is not None else y`
abbrev pub first_of_both : Option ℕ → ℕ → Option ℕ
first_of_both none n = some n
first_of_both (some m) n = some m

abbrev is_fingerprint : Option String → String → Bool
is_fingerprint none f = false
is_fingerprint (some d) f = str_eq d f

-- `progress`: the fingerprint of the worktree's diff was taken.
unfoldable pub progress : Governor → String → ℕ → Governor
progress g fingerprint now = if is_fingerprint g.diff_fingerprint fingerprint then g else record g {
  first_edit = first_of_both g.first_edit g.total;
  first_edit_seconds = first_of_both g.first_edit_seconds (now - g.started);
  phase = PhaseLabel.editing;
  diff_fingerprint = some fingerprint;
  last_progress = pos g.total;
  diff_changes = g.diff_changes + 1;
  repeats = [];
  reads = [];
  failed_checks = [];
}

-- `command`: a tool call of the Developer ended.
unfoldable pub command : Governor → String → Bool → Bool → ℕ → Governor
command g fingerprint failed expensive now = record g {
  tool_calls = g.tool_calls + 1;
  first_tool_seconds = first_of_both g.first_tool_seconds (now - g.started);
  repeats =
      if failed && expensive
      then put fingerprint (count_or 0 (get fingerprint g.repeats) + 1) g.repeats
      else g.repeats;
}
