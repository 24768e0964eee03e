-- ===== src/AgentRuntime/Governor/Snapshots.antt =====
-- `snapshot` and `restore`. Of the snapshot's dict the fields are modelled that are computed here
-- or read back by `restore`; `policy` and `measurement_quality` are copies and constants.
use dev_workflow_automation.Common.{
  ℕ, ◌+◌, ◌-◌, ltb, false, Option, some, List, String, sub_ℕ, keep, max_value, sum_repeats,
}
use dev_workflow_automation.AgentRuntime.Progress.{ProgressWindow, Progress, Recommendation, view}
use dev_workflow_automation.AgentRuntime.Governor.{Governor, Warning, Stop, PhaseLabel, behind}
use dev_workflow_automation.AgentRuntime.Governor.Observe.{in_order, member}

pub record Snapshot : Type 0 where
  pub progress_window : ProgressWindow × Progress × Recommendation
  pub input_tokens_observed : ℕ
  pub cached_input_tokens_observed : ℕ
  pub uncached_input_tokens_observed : ℕ
  pub inference_cycle_count : ℕ
  pub tokens_to_first_edit : Option ℕ
  pub active_context_estimate : Option ℕ
  pub context_peak_tokens : Option ℕ
  pub tokens_since_last_progress : ℕ
  pub tool_call_count : ℕ
  pub diff_changes : ℕ
  pub diff_fingerprint : Option String
  pub source_read_bytes : ℕ
  pub shell_output_bytes : ℕ
  pub repeated_read_count : ℕ
  pub targeted_check_improvements : ℕ
  pub source_read_count : ℕ
  pub time_to_first_tool_seconds : Option ℕ
  pub time_to_first_edit_seconds : Option ℕ
  pub compaction_count : ℕ
  pub phase_label : PhaseLabel
  pub repeated_command_count : ℕ
  pub warnings : List Warning
  pub stop_reason : Option Stop

-- The window since the previous observation. The differences stop at 0 as in the code
-- (`max(0, …)`).
window : Governor → ProgressWindow
window g = record {
  input_tokens = g.total - g.previous_window.input;
  uncached_input_tokens =
      some (g.total + g.previous_window.cached - (g.cached_input + g.previous_window.input));
  diff_changed = ltb g.previous_window.diffs g.diff_changes;
  checks_improved = ltb g.previous_window.improvements g.check_improvements;
  checks_regressed = ltb g.previous_window.regressions g.check_regressions;
  milestone_advanced = false;
  new_localization = false;
  repeated_commands = max_value g.repeats;
  repeated_failures = max_value g.failed_checks;
  repeated_reads = g.repeated_read_count - g.previous_window.reads;
}

unfoldable pub snapshot : Governor → Snapshot
unfolding window
snapshot g = record {
  progress_window = view (window g);
  input_tokens_observed = g.total;
  cached_input_tokens_observed = g.cached_input;
  uncached_input_tokens_observed = g.total - g.cached_input;
  inference_cycle_count = g.inference_cycles;
  tokens_to_first_edit = g.first_edit;
  active_context_estimate = g.active_context;
  context_peak_tokens = g.peak_context;
  tokens_since_last_progress = behind g.total g.last_progress;
  tool_call_count = g.tool_calls;
  diff_changes = g.diff_changes;
  diff_fingerprint = g.diff_fingerprint;
  source_read_bytes = g.source_read_bytes;
  shell_output_bytes = g.shell_output_bytes;
  repeated_read_count = g.repeated_read_count;
  targeted_check_improvements = g.check_improvements;
  source_read_count = g.source_read_count;
  time_to_first_tool_seconds = g.first_tool_seconds;
  time_to_first_edit_seconds = g.first_edit_seconds;
  compaction_count = g.compaction_count;
  phase_label = g.phase;
  repeated_command_count = sum_repeats g.repeats;
  warnings = keep g.warnings in_order;
  stop_reason = g.stop_reason;
}

unfoldable pub restore : Governor → Snapshot → Governor
restore g s = record g {
  total = s.input_tokens_observed;
  first_edit = s.tokens_to_first_edit;
  cached_input = s.cached_input_tokens_observed;
  inference_cycles = s.inference_cycle_count;
  last_progress = sub_ℕ s.input_tokens_observed s.tokens_since_last_progress;
  peak_context = s.context_peak_tokens;
  diff_fingerprint = s.diff_fingerprint;
  warnings = λ w. member w s.warnings;
  compaction_count = s.compaction_count;
}
