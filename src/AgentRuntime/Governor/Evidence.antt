-- ===== src/AgentRuntime/Governor/Evidence.antt =====
-- A hard stop rests on evidence, and a policy that does not enforce stops nothing.
use dev_workflow_automation.Common.{
  ℕ, ◌≤◌, ◌<◌, max, Bool, true, false, Option, none, some, max_value, ◌≡◌, refl, ◌⊎◌, inl, inr,
  arith, subst, le→leb,
}
use dev_workflow_automation.AgentRuntime.Policy.{Mode}
use dev_workflow_automation.AgentRuntime.Governor.{Governor, Warning, Stop, behind}
use dev_workflow_automation.AgentRuntime.Governor.Observe.{
  Signals, quiet, exploration, stagnation, repetition, context, rereading, validation, compaction,
  turn_limit, judge, take_in, conclude, observe, reaches, enforced, is_enforce,
}

-- What each reason to stop says of the state that was judged.
abbrev pub Evidence : Governor → Stop → Type 0
Evidence g Stop.exploration_limit =
    (g.first_edit ≡ none)
    × (g.policy.exploration_hard_tokens ≤ g.total)
    × (4 ≤ g.tool_calls)
    × (g.diff_changes ≡ 0)
Evidence g Stop.repeated_tool_loop =
    (g.policy.repeated_command_threshold ≤ max_value g.repeats)
    ⊎ (g.policy.repeated_failure_threshold ≤ max_value g.failed_checks)
Evidence g Stop.context_hard_limit =
    reaches g.active_context g.policy.active_context_hard_tokens ≡ true
Evidence g Stop.repeated_read_loop =
    (3 ≤ max_value g.reads) × (40000 ≤ g.source_read_bytes) × (g.diff_changes ≡ 0)
Evidence g Stop.repeated_compaction =
    (g.policy.max_compactions < g.compaction_count)
    × (g.policy.no_progress_tokens ≤ behind g.total g.last_progress)
Evidence g Stop.turn_input_limit = g.policy.max_turn_input_tokens ≤ g.total

abbrev pub Supported : Governor → Option Stop → Type 0
Supported g none = Unit
Supported g (some s) = Evidence g s

module _ (g : Governor) (sig : Signals) (h : Supported g sig.stop) where
  exploration-Supported : Supported g (exploration g sig).stop
  unfolding exploration
  exploration-Supported = ground arith

  stagnation-Supported : Supported g (stagnation g sig).stop
  unfolding stagnation
  stagnation-Supported = ground arith

  repetition-Supported : Supported g (repetition g sig).stop
  unfolding repetition
  repetition-Supported = ground arith

  context-Supported : Supported g (context g sig).stop
  unfolding context
  context-Supported = ground arith

  rereading-Supported : Supported g (rereading g sig).stop
  unfolding rereading
  rereading-Supported = ground arith

  validation-Supported : Supported g (validation g sig).stop
  unfolding validation
  validation-Supported = ground arith

  compaction-Supported : Supported g (compaction g sig).stop
  unfolding compaction
  compaction-Supported = ground arith

  turn_limit-Supported : Supported g (turn_limit g sig).stop
  unfolding turn_limit
  turn_limit-Supported = ground arith

judge-Supported : (g : Governor) → Supported g (judge g).stop
unfolding judge
judge-Supported g = turn_limit-Supported g _ (
    compaction-Supported g _ (
      validation-Supported g _ (
        rereading-Supported g _ (
          context-Supported g _ (
            repetition-Supported g _
              (stagnation-Supported g _ (exploration-Supported g quiet tt)))))))

pub enforced-eq-some :
    (b : Bool) (new old : Option Stop) (s : Stop)
    → enforced b new old ≡ some s
    → (old ≡ some s) ⊎ (b ≡ true) × (new ≡ some s)
enforced-eq-some true (some n) old s h = inr (refl, h)
enforced-eq-some true none old s h = inl h
enforced-eq-some false new old s h = inl h

is_enforce-eq_true : (m : Mode) → is_enforce m ≡ true → m ≡ Mode.enforce
is_enforce-eq_true m h = ground arith

-- A reason to stop that `observe` gives was given before, or the policy enforces its limits and
-- the state with the new usage taken in shows what the reason says: no edit and at least four
-- tool calls past the exploration limit, a command or a check repeated to its threshold, and so
-- on (`Evidence`).
pub observe-stop :
    (g : Governor) (total : ℕ) (active cached : Option ℕ) (s : Stop)
    → (observe g total active cached).2 ≡ some s
    → (g.stop_reason ≡ some s)
      ⊎ (g.policy.mode ≡ Mode.enforce) × Evidence (take_in g total active cached) s
unfolding observe conclude take_in
observe-stop g total active cached s h =
    let g' : Governor = take_in g total active cached in
    elim (enforced-eq-some (is_enforce g.policy.mode) (judge g').stop g.stop_reason s h) [
      | inl old ↦ inl old
      | inr (b, new) ↦
          inr (is_enforce-eq_true g.policy.mode b, subst (Supported g') new (judge-Supported g'))
    ]

-- Under a policy that enforces, a turn that has used its input limit is stopped for that reason,
-- whatever else the tests find.
pub observe-turn_limit :
    (g : Governor) (total : ℕ) (active cached : Option ℕ)
    → g.policy.mode ≡ Mode.enforce
    → g.policy.max_turn_input_tokens ≤ max g.total total
    → (observe g total active cached).2 ≡ some Stop.turn_input_limit
unfolding observe conclude take_in judge turn_limit
observe-turn_limit g total active cached m h = ground (arith, le→leb _ _ h)

-- The state after an observation: the total only grows and is at least what was reported, the
-- Developer's work (edits, tool calls, checks, reads) is untouched, and no warning is forgotten.
pub observe_keeps :
    (g : Governor) (total : ℕ) (active cached : Option ℕ)
    → let g' = (observe g total active cached).0 in
      (g.total ≤ g'.total)
      × (total ≤ g'.total)
      × (g'.last_progress ≡ g.last_progress)
      × (g'.diff_changes ≡ g.diff_changes)
      × (g'.tool_calls ≡ g.tool_calls)
      × (g'.repeats ≡ g.repeats)
      × (g'.failed_checks ≡ g.failed_checks)
      × ((w : Warning) → g.warnings w ≡ true → g'.warnings w ≡ true)
unfolding observe conclude take_in
observe_keeps g total active cached =
    (omega arith, omega arith, refl, refl, refl, refl, refl, λ w h. rw h refl)
