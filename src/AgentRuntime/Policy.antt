-- ===== src/AgentRuntime/Policy.antt =====
-- agent_runtime/domain/token_efficiency_policy.py. The texts of a closed set are data, with
-- `unknown` for every other text; `post_init` is `__post_init__`. That a limit is an integer is
-- its type here.
pub mod Profiles
pub mod Ceilings
use dev_workflow_automation.Common.{
  ℕ, ltb, leb, Bool, true, false, not, ◌&&◌, ◌||◌, Option, none, some, if◌then◌else◌, List, [], ◌∷◌,
  Result, ok, err, check, length, any, all, String,
}

pub data Profile : Type 0 where
  fast standard large custom unknown_profile : Profile

pub data Mode : Type 0 where
  instrument warn enforce unknown_mode : Mode

pub data Effort : Type 0 where
  no_effort low medium high unknown_effort : Effort

-- The role of a `ModelPolicy`, which is what this class reads of a route.
pub data Role : Type 0 where
  planning investigation repair : Role

pub record TokenEfficiencyPolicy : Type 0 where
  pub execution_profile : Profile
  pub mode : Mode
  pub reasoning_effort : Effort
  pub first_edit_warning_tokens : ℕ
  pub exploration_hard_tokens : ℕ
  pub no_progress_tokens : ℕ
  pub active_context_soft_tokens : ℕ
  pub active_context_hard_tokens : ℕ
  pub max_turn_input_tokens : ℕ
  pub repeated_command_threshold : ℕ
  pub repeated_failure_threshold : ℕ
  pub max_rollovers : ℕ
  pub max_compactions : ℕ
  pub max_model_visible_tool_result_tokens : ℕ
  pub automatic_rollover : Bool
  pub adaptive_replans : ℕ
  pub model_routes : List Role

abbrev pub defaults : TokenEfficiencyPolicy
defaults = record {
  execution_profile = Profile.standard;
  mode = Mode.instrument;
  reasoning_effort = Effort.medium;
  first_edit_warning_tokens = 40000;
  exploration_hard_tokens = 110000;
  no_progress_tokens = 35000;
  active_context_soft_tokens = 120000;
  active_context_hard_tokens = 170000;
  max_turn_input_tokens = 250000;
  repeated_command_threshold = 3;
  repeated_failure_threshold = 3;
  max_rollovers = 3;
  max_compactions = 2;
  max_model_visible_tool_result_tokens = 4000;
  automatic_rollover = false;
  adaptive_replans = 1;
  model_routes = [];
}

pub data Error : Type 0 where
  unknown_execution_profile unknown_governor_mode unknown_reasoning_effort : Error
  token_limit_range exploration_order turn_limit_order context_order tool_result_limit : Error
  loop_threshold_range context_transitions too_many_replans duplicate_routes : Error
  effort_not_in_list : Error

-- The position in `["none", "low", "medium", "high"]`.
abbrev pub rank : Effort → Option ℕ
rank Effort.no_effort = some 0
rank Effort.low = some 1
rank Effort.medium = some 2
rank Effort.high = some 3
rank Effort.unknown_effort = none

-- `min(a, b, key=order.index)`: the first of the least; `index` raises on a text outside.
min_effort : Effort → Effort → Option ℕ → Option ℕ → Result Error Effort
min_effort a b none _ = err Error.effort_not_in_list
min_effort a b (some i) none = err Error.effort_not_in_list
min_effort a b (some i) (some j) = ok (if ltb j i then b else a)

abbrev pub requested : Effort → Option Effort → Effort
requested profile_effort none = profile_effort
requested profile_effort (some override) = override

-- `override or profile_effort`; the override is `none` if absent or the empty text.
unfoldable pub developer_effort :
    TokenEfficiencyPolicy → Effort → Option Effort → Result Error Effort
unfolding min_effort
developer_effort p profile_effort override =
    let wanted = requested profile_effort override in
    min_effort wanted p.reasoning_effort (rank wanted) (rank p.reasoning_effort)

abbrev pub is_known_profile : Profile → Bool
is_known_profile Profile.unknown_profile = false
is_known_profile _ = true

abbrev pub is_known_mode : Mode → Bool
is_known_mode Mode.unknown_mode = false
is_known_mode _ = true

-- `reasoning_effort in {"low", "medium", "high"}`
abbrev pub is_ceiling : Effort → Bool
is_ceiling Effort.low = true
is_ceiling Effort.medium = true
is_ceiling Effort.high = true
is_ceiling _ = false

abbrev pub in_token_range : ℕ → Bool
in_token_range n = leb 1000 n && leb n 1000000

-- The fields whose name ends in "tokens".
abbrev pub token_limits : TokenEfficiencyPolicy → List ℕ
token_limits p =
    p.first_edit_warning_tokens ∷ p.exploration_hard_tokens ∷ p.no_progress_tokens
    ∷ p.active_context_soft_tokens ∷ p.active_context_hard_tokens ∷ p.max_turn_input_tokens
    ∷ p.max_model_visible_tool_result_tokens ∷ []

abbrev pub same_role : Role → Role → Bool
same_role Role.planning Role.planning = true
same_role Role.investigation Role.investigation = true
same_role Role.repair Role.repair = true
same_role _ _ = false

-- `len(set(roles)) == len(roles)`
abbrev pub distinct_roles : List Role → Bool
distinct_roles [] = true
distinct_roles (r ∷ rs) = not (any (same_role r) rs) && distinct_roles rs

abbrev pub guards : TokenEfficiencyPolicy → List (Bool × Error)
guards p =
    (not (is_known_profile p.execution_profile), Error.unknown_execution_profile)
    ∷ (not (is_known_mode p.mode), Error.unknown_governor_mode)
    ∷ (not (is_ceiling p.reasoning_effort), Error.unknown_reasoning_effort)
    ∷ (not (all in_token_range (token_limits p)), Error.token_limit_range)
    ∷ (not (ltb p.first_edit_warning_tokens p.exploration_hard_tokens), Error.exploration_order)
    ∷ (ltb p.max_turn_input_tokens p.exploration_hard_tokens, Error.turn_limit_order)
    ∷ (
      not (
          ltb p.active_context_soft_tokens p.active_context_hard_tokens
          && leb p.active_context_hard_tokens 250000),
      Error.context_order,
    )
    ∷ (ltb 10000 p.max_model_visible_tool_result_tokens, Error.tool_result_limit)
    ∷ (
      not (leb 2 p.repeated_command_threshold && leb p.repeated_command_threshold 20)
          || not (leb 2 p.repeated_failure_threshold && leb p.repeated_failure_threshold 20),
      Error.loop_threshold_range,
    )
    ∷ (not (leb p.max_rollovers 10) || not (leb p.max_compactions 5), Error.context_transitions)
    ∷ (ltb 1 p.adaptive_replans, Error.too_many_replans)
    ∷ (ltb 3 (length p.model_routes) || not (distinct_roles p.model_routes), Error.duplicate_routes)
    ∷ []

unfoldable pub post_init : TokenEfficiencyPolicy → Result Error TokenEfficiencyPolicy
post_init p = check (guards p) p

-- The defaults that `parse` takes for each profile.
unfoldable pub profile_defaults : Profile → TokenEfficiencyPolicy
profile_defaults Profile.fast = record defaults {
  execution_profile = Profile.fast;
  reasoning_effort = Effort.low;
  first_edit_warning_tokens = 20000;
  exploration_hard_tokens = 35000;
  no_progress_tokens = 20000;
  active_context_soft_tokens = 70000;
  active_context_hard_tokens = 100000;
  max_turn_input_tokens = 120000;
  repeated_failure_threshold = 2;
  max_rollovers = 1;
}
profile_defaults Profile.large = record defaults {
  execution_profile = Profile.large;
  first_edit_warning_tokens = 60000;
  exploration_hard_tokens = 110000;
  no_progress_tokens = 50000;
  active_context_soft_tokens = 160000;
  active_context_hard_tokens = 220000;
  max_turn_input_tokens = 500000;
  repeated_command_threshold = 4;
  max_rollovers = 6;
}
profile_defaults profile = record defaults { execution_profile = profile }
