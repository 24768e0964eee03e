-- ===== src/AgentRuntime/Governor/Observe.antt =====
-- `observe`: the usage of one inference is taken in and judged. The tests of the method, in its
-- order, are functions on the warnings and the stop gathered so far.
use dev_workflow_automation.Common.{
  ℕ, ◌+◌, ◌-◌, max, ltb, leb, ◌==◌, Bool, true, false, not, ◌&&◌, ◌||◌, Option, none, some,
  if◌then◌else◌, List, [], ◌∷◌, ◌++◌, any, keep, max_value,
}
use dev_workflow_automation.AgentRuntime.Policy.{Mode}
use dev_workflow_automation.AgentRuntime.Governor.{Governor, Warning, Stop, behind}

-- `conditions` and `stop`.
pub record Signals : Type 0 where
  pub conditions : List Warning
  pub stop : Option Stop

abbrev pub quiet : Signals
quiet = record { conditions = []; stop = none }

-- `conditions.append(w)`, and `stop = s` if `hard` holds.
abbrev pub warn_and : Signals → Warning → Bool → Stop → Signals
warn_and sig w hard s = record {
  conditions = sig.conditions ++ w ∷ [];
  stop = if hard then some s else sig.stop;
}

abbrev pub is_none : Option ℕ → Bool
is_none none = true
is_none (some n) = false

-- `x is not None and x >= n`
abbrev pub reaches : Option ℕ → ℕ → Bool
reaches none n = false
reaches (some x) n = leb n x

module _ (g : Governor) (sig : Signals) where
  unfoldable pub exploration : Signals
  exploration =
      if is_none g.first_edit && leb g.policy.first_edit_warning_tokens g.total
      then warn_and sig Warning.exploration_warning
          (leb g.policy.exploration_hard_tokens g.total
            && leb 4 g.tool_calls
            && g.diff_changes == 0)
          Stop.exploration_limit
      else sig

  unfoldable pub stagnation : Signals
  stagnation =
      if leb g.policy.no_progress_tokens (behind g.total g.last_progress)
      then record sig { conditions = sig.conditions ++ Warning.no_progress_warning ∷ [] }
      else sig

  unfoldable pub repetition : Signals
  repetition =
      let repeated = max_value g.repeats in
      if leb (g.policy.repeated_command_threshold - 1) repeated
      then warn_and sig Warning.repeated_command_warning
          (leb g.policy.repeated_command_threshold repeated) Stop.repeated_tool_loop
      else sig

  unfoldable pub context : Signals
  context =
      if reaches g.active_context g.policy.active_context_soft_tokens
      then warn_and sig Warning.context_warning
          (reaches g.active_context g.policy.active_context_hard_tokens) Stop.context_hard_limit
      else sig

  unfoldable pub rereading : Signals
  rereading =
      if leb 3 (max_value g.reads) && leb 40000 g.source_read_bytes
      then warn_and sig Warning.repeated_read_warning (g.diff_changes == 0) Stop.repeated_read_loop
      else sig

  unfoldable pub validation : Signals
  validation =
      if leb g.policy.repeated_failure_threshold (max_value g.failed_checks)
      then warn_and sig Warning.unchanged_validation_warning true Stop.repeated_tool_loop
      else sig

  unfoldable pub compaction : Signals
  compaction =
      if ltb g.policy.max_compactions g.compaction_count
      then warn_and sig Warning.repeated_compaction_warning
          (leb g.policy.no_progress_tokens (behind g.total g.last_progress))
          Stop.repeated_compaction
      else sig

  unfoldable pub turn_limit : Signals
  turn_limit =
      if leb g.policy.max_turn_input_tokens g.total
      then warn_and sig Warning.turn_input_limit_warning true Stop.turn_input_limit
      else sig

-- All the tests, the first one innermost.
unfoldable pub judge : Governor → Signals
judge g = turn_limit g (
    compaction g
      (validation g (rereading g (context g (repetition g (stagnation g (exploration g quiet)))))))

-- `self.peak_context` once a context is known.
abbrev pub peak : Option ℕ → Option ℕ → Option ℕ
peak p none = p
peak none (some c) = some c
peak (some p) (some c) = some (max p c)

abbrev pub add_known : ℕ → Option ℕ → ℕ
add_known n none = n
add_known n (some m) = n + m

-- The counters after the usage is taken in.
unfoldable pub take_in : Governor → ℕ → Option ℕ → Option ℕ → Governor
take_in g total active_context cached_input = record g {
  previous_window = record {
    input = g.total;
    cached = g.cached_input;
    diffs = g.diff_changes;
    improvements = g.check_improvements;
    regressions = g.check_regressions;
    reads = g.repeated_read_count;
  };
  total = max g.total total;
  inference_cycles = g.inference_cycles + 1;
  cached_input = add_known g.cached_input cached_input;
  active_context = active_context;
  peak_context = peak g.peak_context active_context;
}

abbrev pub same_warning : Warning → Warning → Bool
same_warning Warning.context_warning Warning.context_warning = true
same_warning Warning.exploration_warning Warning.exploration_warning = true
same_warning Warning.no_progress_warning Warning.no_progress_warning = true
same_warning Warning.repeated_command_warning Warning.repeated_command_warning = true
same_warning Warning.repeated_compaction_warning Warning.repeated_compaction_warning = true
same_warning Warning.repeated_read_warning Warning.repeated_read_warning = true
same_warning Warning.turn_input_limit_warning Warning.turn_input_limit_warning = true
same_warning Warning.unchanged_validation_warning Warning.unchanged_validation_warning = true
same_warning _ _ = false

-- All warnings in the order of their texts: `sorted(s)` keeps those of `s`.
abbrev pub in_order : List Warning
in_order =
    Warning.context_warning ∷ Warning.exploration_warning ∷ Warning.no_progress_warning
    ∷ Warning.repeated_command_warning ∷ Warning.repeated_compaction_warning
    ∷ Warning.repeated_read_warning ∷ Warning.turn_input_limit_warning
    ∷ Warning.unchanged_validation_warning ∷ []

abbrev pub member : Warning → List Warning → Bool
member w ws = any (same_warning w) ws

abbrev pub is_enforce : Mode → Bool
is_enforce Mode.enforce = true
is_enforce _ = false

abbrev pub is_instrument : Mode → Bool
is_instrument Mode.instrument = true
is_instrument _ = false

-- `if mode == "ENFORCE" and stop: stop_reason = stop`
abbrev pub enforced : Bool → Option Stop → Option Stop → Option Stop
enforced true (some s) old = some s
enforced _ _ old = old

unfoldable pub conclude : Governor → Signals → Governor × List Warning × Option Stop
conclude g sig =
    let stop = enforced (is_enforce g.policy.mode) sig.stop g.stop_reason in
    (
      record g { warnings = λ w. g.warnings w || member w sig.conditions; stop_reason = stop },
      if is_instrument g.policy.mode
          then []
          else keep (λ w. member w sig.conditions && not (g.warnings w)) in_order,
      stop,
    )

-- The new state, the warnings that were not given before, and the reason to stop.
unfoldable pub observe : Governor → ℕ → Option ℕ → Option ℕ → Governor × List Warning × Option Stop
observe g total active_context cached_input =
    let g' = take_in g total active_context cached_input in conclude g' (judge g')
