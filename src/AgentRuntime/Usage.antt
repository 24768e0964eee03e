-- ===== src/AgentRuntime/Usage.antt =====
-- agent_runtime/domain/usage.py: `Usage`, `Pricing` and `budget_blocker`. A finite amount of money
-- is a number of the least unit; `not_finite` is NaN or an infinity. A cost is in millionths of
-- that unit, as the division by 1,000,000 is left to the reader of the amount. That a count is an
-- integer that is not negative is its type here.
pub mod Costs
use dev_workflow_automation.Common.{
  ℕ, ◌+◌, ◌*◌, ◌-◌, ltb, leb, ◌==◌, Bool, true, false, not, ◌&&◌, ◌||◌, Option, none, some,
  if◌then◌else◌, List, [], ◌∷◌, Result, ok, err, check, any,
}

-- A `Decimal` that is compared with 0: its sign, and the amount.
pub data Amount : Type 0 where
  amount : ℕ → Amount
  negative not_finite : Amount

abbrev pub is_invalid : Amount → Bool
is_invalid (amount n) = false
is_invalid _ = true

abbrev is_invalid_price : Option Amount → Bool
is_invalid_price none = false
is_invalid_price (some a) = is_invalid a

pub record Usage : Type 0 where
  pub input_tokens : Option ℕ
  pub output_tokens : Option ℕ
  pub cache_read_input_tokens : Option ℕ
  pub cache_write_input_tokens : Option ℕ
  pub reasoning_tokens : Option ℕ
  pub provider_cost_usd : Option Amount

pub data UsageError : Type 0 where
  invalid_provider_cost cached_input_exceeds reasoning_exceeds invalid_price : UsageError
  invalid_cost_budget invalid_consumed : UsageError

-- `x or 0`
abbrev pub or_zero : Option ℕ → ℕ
or_zero none = 0
or_zero (some n) = n

abbrev exceeds : ℕ → Option ℕ → Bool
exceeds n none = false
exceeds n (some bound) = ltb bound n

abbrev pub cached : Usage → ℕ
cached u = or_zero u.cache_read_input_tokens + or_zero u.cache_write_input_tokens

abbrev pub usage_guards : Usage → List (Bool × UsageError)
usage_guards u =
    (is_invalid_price u.provider_cost_usd, UsageError.invalid_provider_cost)
    ∷ (exceeds (cached u) u.input_tokens, UsageError.cached_input_exceeds)
    ∷ (exceeds (or_zero u.reasoning_tokens) u.output_tokens, UsageError.reasoning_exceeds)
    ∷ []

unfoldable pub check_usage : Usage → Result UsageError Usage
check_usage u = check (usage_guards u) u

abbrev is_known : Option ℕ → Bool
is_known none = false
is_known (some n) = true

unfoldable pub complete : Usage → Bool
complete u =
    is_known u.input_tokens
    && is_known u.output_tokens
    && is_known u.cache_read_input_tokens
    && is_known u.cache_write_input_tokens

pub record Pricing : Type 0 where
  pub input_per_million : Amount
  pub output_per_million : Amount
  pub cached_input_per_million : Option Amount
  pub cache_write_per_million : Option Amount

abbrev pub price_guards : Pricing → List (Bool × UsageError)
price_guards p =
    (
      any is_invalid_price (
          some p.input_per_million
          ∷ some p.output_per_million
          ∷ p.cached_input_per_million
          ∷ p.cache_write_per_million
          ∷ []),
      UsageError.invalid_price,
    )
    ∷ []

unfoldable pub check_pricing : Pricing → Result UsageError Pricing
check_pricing p = check (price_guards p) p

-- The number of an amount that `check_pricing` accepts.
abbrev pub value : Amount → ℕ
value (amount n) = n
value _ = 0

abbrev pub value_or_zero : Option Amount → ℕ
value_or_zero none = 0
value_or_zero (some a) = value a

abbrev is_unpriced : ℕ → Option Amount → Bool
is_unpriced tokens none = not (tokens == 0)
is_unpriced tokens (some a) = false

abbrev pub total : Pricing → Usage → ℕ
total p u =
    (or_zero u.input_tokens
        - or_zero u.cache_read_input_tokens
        - or_zero u.cache_write_input_tokens)
      * value p.input_per_million
    + or_zero u.cache_read_input_tokens * value_or_zero p.cached_input_per_million
    + or_zero u.cache_write_input_tokens * value_or_zero p.cache_write_per_million
    + or_zero u.output_tokens * value p.output_per_million

-- The early returns of `calculate`.
abbrev pub no_cost : Pricing → Usage → Bool
no_cost p u =
    not (complete u)
    || is_unpriced (or_zero u.cache_read_input_tokens) p.cached_input_per_million
    || is_unpriced (or_zero u.cache_write_input_tokens) p.cache_write_per_million

-- `calculate`; `check_usage` keeps the subtraction from going below 0.
unfoldable pub calculate : Pricing → Usage → Option ℕ
calculate p u = if no_cost p u then none else some (total p u)

pub data Blocker : Type 0 where
  usage_incomplete budget_exhausted : Blocker

abbrev pub blocked_by : ℕ → ℕ → Amount → Result UsageError (Option Blocker)
blocked_by limit reserved (amount consumed) =
    ok (if leb limit (consumed + reserved) then some Blocker.budget_exhausted else none)
blocked_by limit reserved _ = err UsageError.invalid_consumed

abbrev pub blocked_at : ℕ → ℕ → Option Amount → Result UsageError (Option Blocker)
blocked_at limit reserved none = ok (some Blocker.usage_incomplete)
blocked_at limit reserved (some consumed) = blocked_by limit reserved consumed

unfoldable pub budget_blocker : Amount → Option Amount → Amount → Result UsageError (Option Blocker)
budget_blocker (amount limit) consumed (amount reserved) =
    if limit == 0 then err UsageError.invalid_cost_budget else blocked_at limit reserved consumed
budget_blocker _ consumed _ = err UsageError.invalid_cost_budget
