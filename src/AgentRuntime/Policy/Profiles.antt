-- ===== src/AgentRuntime/Policy/Profiles.antt =====
-- `TokenEfficiencyPolicy.parse`, and that each profile is a policy.
use dev_workflow_automation.Common.{ℕ, Bool, Option, none, some, List, ◌≡◌, refl, ◌≢◌, Result, ok}
use dev_workflow_automation.AgentRuntime.Policy.{
  Profile, Mode, Effort, Role, TokenEfficiencyPolicy, Error, post_init, profile_defaults,
}

-- The keys that the caller gives; `none` is a missing key.
pub record Values : Type 0 where
  pub execution_profile : Option Profile
  pub mode : Option Mode
  pub reasoning_effort : Option Effort
  pub first_edit_warning_tokens : Option ℕ
  pub exploration_hard_tokens : Option ℕ
  pub no_progress_tokens : Option ℕ
  pub active_context_soft_tokens : Option ℕ
  pub active_context_hard_tokens : Option ℕ
  pub max_turn_input_tokens : Option ℕ
  pub repeated_command_threshold : Option ℕ
  pub repeated_failure_threshold : Option ℕ
  pub max_rollovers : Option ℕ
  pub max_compactions : Option ℕ
  pub max_model_visible_tool_result_tokens : Option ℕ
  pub automatic_rollover : Option Bool
  pub adaptive_replans : Option ℕ
  pub model_routes : Option (List Role)

abbrev pub no_values : Profile → Values
no_values profile = record {
  execution_profile = some profile;
  mode = none;
  reasoning_effort = none;
  first_edit_warning_tokens = none;
  exploration_hard_tokens = none;
  no_progress_tokens = none;
  active_context_soft_tokens = none;
  active_context_hard_tokens = none;
  max_turn_input_tokens = none;
  repeated_command_threshold = none;
  repeated_failure_threshold = none;
  max_rollovers = none;
  max_compactions = none;
  max_model_visible_tool_result_tokens = none;
  automatic_rollover = none;
  adaptive_replans = none;
  model_routes = none;
}

-- `values.get(key, default)`, and `defaults | values` at one key.
abbrev get_or {ℓ} : {A : Type ℓ} → Option A → A → A
get_or none d = d
get_or (some v) d = v

merge : Values → TokenEfficiencyPolicy → TokenEfficiencyPolicy
merge v d = record {
  execution_profile = get_or v.execution_profile d.execution_profile;
  mode = get_or v.mode d.mode;
  reasoning_effort = get_or v.reasoning_effort d.reasoning_effort;
  first_edit_warning_tokens = get_or v.first_edit_warning_tokens d.first_edit_warning_tokens;
  exploration_hard_tokens = get_or v.exploration_hard_tokens d.exploration_hard_tokens;
  no_progress_tokens = get_or v.no_progress_tokens d.no_progress_tokens;
  active_context_soft_tokens = get_or v.active_context_soft_tokens d.active_context_soft_tokens;
  active_context_hard_tokens = get_or v.active_context_hard_tokens d.active_context_hard_tokens;
  max_turn_input_tokens = get_or v.max_turn_input_tokens d.max_turn_input_tokens;
  repeated_command_threshold = get_or v.repeated_command_threshold d.repeated_command_threshold;
  repeated_failure_threshold = get_or v.repeated_failure_threshold d.repeated_failure_threshold;
  max_rollovers = get_or v.max_rollovers d.max_rollovers;
  max_compactions = get_or v.max_compactions d.max_compactions;
  max_model_visible_tool_result_tokens =
      get_or v.max_model_visible_tool_result_tokens d.max_model_visible_tool_result_tokens;
  automatic_rollover = get_or v.automatic_rollover d.automatic_rollover;
  adaptive_replans = get_or v.adaptive_replans d.adaptive_replans;
  model_routes = get_or v.model_routes d.model_routes;
}

-- `cls(**merged)` runs `__post_init__`.
pub parse : Values → Result Error TokenEfficiencyPolicy
unfolding merge
parse v = post_init (merge v (profile_defaults (get_or v.execution_profile Profile.standard)))

-- Every profile that the class knows parses, with no other key given, to its own defaults.
pub parse-profile :
    (profile : Profile)
    → profile ≢ Profile.unknown_profile
    → parse (no_values profile) ≡ ok (profile_defaults profile)
unfolding parse post_init profile_defaults
parse-profile Profile.fast h = refl
parse-profile Profile.standard h = refl
parse-profile Profile.large h = refl
parse-profile Profile.custom h = refl
parse-profile Profile.unknown_profile h = absurd (h refl)
