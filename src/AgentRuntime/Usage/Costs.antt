-- ===== src/AgentRuntime/Usage/Costs.antt =====
-- What the costs and the budget of a turn guarantee.
use dev_workflow_automation.Common.{
  none-some, ℕ, ◌+◌, ◌*◌, ◌-◌, ◌<◌, Option, none, some, ok, ◌≡◌, ◌↔◌, refl, inl, inr, sym,
  Bool-cases, Option-cases, arith, check-eq-ok,
}
use dev_workflow_automation.AgentRuntime.Usage.{
  Amount, Usage, Pricing, or_zero, cached, usage_guards, check_usage, complete, value,
  value_or_zero, total, no_cost, calculate, budget_blocker, amount,
}

number : {m n : ℕ} → some m ≡ some n → m ≡ n
number h = cc

-- All amounts are finite and not negative, and what is consumed and reserved is under the limit.
abbrev pub Unblocked : Amount → Option Amount → Amount → Type 0
Unblocked limit consumed reserved =
    (l : ℕ) × (c : ℕ) × (r : ℕ) × (limit ≡ amount l)
    × (consumed ≡ some (amount c))
    × (reserved ≡ amount r)
    × (c + r < l)

unblocked :
    (limit : Amount) (consumed : Option Amount) (reserved : Amount)
    → budget_blocker limit consumed reserved ≡ ok none
    → Unblocked limit consumed reserved
unfolding budget_blocker
unblocked (amount l) (some (amount c)) (amount r) h = (l, c, r, refl, refl, refl, ground arith)
unblocked (amount l) (some Amount.negative) (amount r) h = ground arith
unblocked (amount l) (some Amount.not_finite) (amount r) h = ground arith
unblocked (amount l) none (amount r) h = ground arith
unblocked (amount l) consumed Amount.negative h = cc
unblocked (amount l) consumed Amount.not_finite h = cc
unblocked Amount.negative consumed reserved h = cc
unblocked Amount.not_finite consumed reserved h = cc

under_limit :
    (l c r : ℕ) → c + r < l → budget_blocker (amount l) (some (amount c)) (amount r) ≡ ok none
unfolding budget_blocker
under_limit l c r h = ground arith

-- A turn is unblocked exactly if its limit is a positive amount, what is consumed is known, and
-- what is consumed and reserved together stays under the limit, all being finite and not negative.
pub budget_blocker-eq-ok_none_iff :
    (limit : Amount) (consumed : Option Amount) (reserved : Amount)
    → (budget_blocker limit consumed reserved ≡ ok none) ↔ Unblocked limit consumed reserved
budget_blocker-eq-ok_none_iff limit consumed reserved = (
  unblocked limit consumed reserved,
  λ (l, c, r, e, f, g, below). rw (e, f, g) (under_limit l c r below),
)

calculate_total :
    (u : Usage) (p : Pricing) (cost : ℕ) → calculate p u ≡ some cost → cost ≡ total p u
unfolding calculate
calculate_total u p cost k = elim (Bool-cases (no_cost p u)) [
  | inl e ↦ absurd (none-some (rw e at k))
  | inr e ↦ sym (number (rw e at k))
]

complete_covers :
    (u : Usage) (p : Pricing) (cost : ℕ)
    → calculate p u ≡ some cost
    → (n : ℕ) × (u.input_tokens ≡ some n)
unfolding calculate complete
complete_covers u p cost k = elim (Option-cases u.input_tokens) [
  | inl missing ↦ absurd (none-some (rw missing at k))
  | inr known ↦ known
]

-- An accepted usage has a cost exactly as its parts say: each input token is charged once, as
-- fresh, as read from the cache or as written to it.
pub calculate_charges_once :
    (u : Usage) (p : Pricing) (cost : ℕ)
    → check_usage u ≡ ok u
    → calculate p u ≡ some cost
    → (fresh : ℕ) × (fresh + cached u ≡ or_zero u.input_tokens)
      × (cost
          ≡ fresh * value p.input_per_million
            + or_zero u.cache_read_input_tokens * value_or_zero p.cached_input_per_million
            + or_zero u.cache_write_input_tokens * value_or_zero p.cache_write_per_million
            + or_zero u.output_tokens * value p.output_per_million)
unfolding check_usage
calculate_charges_once u p cost h k =
    let (_, (known, (within, _))) = check-eq-ok (usage_guards u) u h in
    let charged : cost ≡ total p u = calculate_total u p cost k in
    let covered = complete_covers u p cost k in
    (
      or_zero u.input_tokens
          - or_zero u.cache_read_input_tokens
          - or_zero u.cache_write_input_tokens,
      ground (arith, covered),
      charged,
    )
