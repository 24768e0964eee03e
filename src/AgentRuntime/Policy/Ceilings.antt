-- ===== src/AgentRuntime/Policy/Ceilings.antt =====
-- What an accepted policy guarantees.
use dev_workflow_automation.Common.{
  ℕ, ◌≤◌, ◌<◌, Option, none, some, ◌≡◌, subst, sym, ◌⊎◌, ok, arith, check-eq-ok, NoneHolds,
}
use dev_workflow_automation.AgentRuntime.Policy.{
  Effort, TokenEfficiencyPolicy, post_init, rank, requested, developer_effort, guards,
}

-- The limits stand in the order in which the governor reads them.
pub record IsOrdered (p : TokenEfficiencyPolicy) : Type 0 where
  pub warning_first : p.first_edit_warning_tokens < p.exploration_hard_tokens
  pub stop_within_turn : p.exploration_hard_tokens ≤ p.max_turn_input_tokens
  pub soft_first : p.active_context_soft_tokens < p.active_context_hard_tokens
  pub context_bounded : p.active_context_hard_tokens ≤ 250000
  pub turn_bounded : p.max_turn_input_tokens ≤ 1000000
  pub progress_positive : 1000 ≤ p.no_progress_tokens
  pub commands : (2 ≤ p.repeated_command_threshold) × (p.repeated_command_threshold ≤ 20)
  pub failures : (2 ≤ p.repeated_failure_threshold) × (p.repeated_failure_threshold ≤ 20)
  pub rollovers : p.max_rollovers ≤ 10
  pub compactions : p.max_compactions ≤ 5

ordered : (p : TokenEfficiencyPolicy) → NoneHolds (guards p) → IsOrdered p
ordered p held = ground arith

-- The constructor changes nothing, and what it accepts has its limits in order and in range.
pub post_init-IsOrdered : (p q : TokenEfficiencyPolicy) → post_init p ≡ ok q → (q ≡ p) × IsOrdered q
unfolding post_init
post_init-IsOrdered p q h =
    let (same, held) = check-eq-ok (guards p) p h in
    (same, subst IsOrdered (sym same) (ordered p held))

abbrev pub RankLe : Option ℕ → Option ℕ → Type 0
RankLe (some i) (some j) = i ≤ j
RankLe _ _ = ⊥

-- An effort is known and no higher than another.
abbrev pub NoHigher : Effort → Effort → Type 0
NoHigher a b = RankLe (rank a) (rank b)

-- A Developer gets at most the effort that was asked for and at most the ceiling of the policy,
-- and it is one of the two.
pub developer_effort-NoHigher :
    (p : TokenEfficiencyPolicy) (profile_effort : Effort) (override : Option Effort) (e : Effort)
    → developer_effort p profile_effort override ≡ ok e
    → NoHigher e p.reasoning_effort
      × NoHigher e (requested profile_effort override)
      × ((e ≡ p.reasoning_effort) ⊎ (e ≡ requested profile_effort override))
unfolding developer_effort
developer_effort-NoHigher p profile_effort none e h = ground arith
developer_effort-NoHigher p profile_effort (some o) e h = ground arith
