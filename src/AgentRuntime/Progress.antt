-- ===== src/AgentRuntime/Progress.antt =====
-- agent_runtime/domain/progress.py and agent_runtime/domain/repair_progress.py.
pub mod Repairs
use dev_workflow_automation.Common.{
  ℕ, leb, Bool, true, false, not, ◌&&◌, ◌||◌, Option, none, some, if◌then◌else◌, String, List, any,
  all, str_eq,
}

pub record ProgressWindow : Type 0 where
  pub input_tokens : ℕ
  pub uncached_input_tokens : Option ℕ
  pub diff_changed : Bool
  pub checks_improved : Bool
  pub checks_regressed : Bool
  pub milestone_advanced : Bool
  pub new_localization : Bool
  pub repeated_commands : ℕ
  pub repeated_failures : ℕ
  pub repeated_reads : ℕ

pub data Progress : Type 0 where
  productive marginal stalled regressing : Progress

pub data Recommendation : Type 0 where
  continue_within_budget narrow_context replan_or_ask_human stop_and_reassess : Recommendation

unfoldable pub classify : ProgressWindow → Progress
classify w =
    if w.checks_regressed && not w.checks_improved
    then Progress.regressing
    else if w.checks_improved || w.milestone_advanced || w.new_localization
    then Progress.productive
    else if leb 2 w.repeated_failures || leb 2 w.repeated_commands || leb 3 w.repeated_reads
    then Progress.stalled
    else Progress.marginal

-- The fields that `view` adds to the window.
unfoldable pub recommendation : Progress → Recommendation
recommendation Progress.productive = Recommendation.continue_within_budget
recommendation Progress.marginal = Recommendation.narrow_context
recommendation Progress.stalled = Recommendation.replan_or_ask_human
recommendation Progress.regressing = Recommendation.stop_and_reassess

unfoldable pub view : ProgressWindow → ProgressWindow × Progress × Recommendation
view w = let state = classify w in (w, state, recommendation state)

pub record RepairAllowance : Type 0 where
  pub classification : Progress
  pub continue_work : Bool
  pub effort_medium : Bool

-- `x in s`, for a frozenset given by its elements.
abbrev pub contains : List String → String → Bool
contains s x = any (λ y. str_eq x y) s

-- `a <= b` on sets.
abbrev pub is_subset : List String → List String → Bool
is_subset a b = all (contains b) a

abbrev pub is_empty : List String → Bool
is_empty List.[] = true
is_empty _ = false

-- `effort` is "medium" or "low"; the reasons are texts for a reader and are left out.
unfoldable pub allow : Progress → Bool → Bool → RepairAllowance
allow classification continue_work medium = record {
  classification = classification;
  continue_work = continue_work;
  effort_medium = medium;
}

unfoldable pub compare_failures : Option (List String) → List String → RepairAllowance
unfolding allow
compare_failures none current = allow Progress.marginal true false
compare_failures (some previous) current =
    if is_subset current previous && not (is_subset previous current)
    then allow Progress.productive true true
    else if not (is_subset current previous)
    then allow Progress.regressing false false
    else allow Progress.stalled false false

unfoldable pub repair_allowance : Option (List String) → List String → ℕ → ℕ → RepairAllowance
unfolding compare_failures
repair_allowance previous current attempts hard_attempt_limit =
    if is_empty current
    then allow Progress.productive false false
    else if leb hard_attempt_limit attempts
    then allow Progress.stalled false false
    else compare_failures previous current
