-- ===== src/AgentRuntime/Reservations.antt =====
-- agent_runtime/infrastructure/reservations.py: `budget_usage`, `periodic_usage`,
-- `development_allowance` and `reserve_budget`, with the rows that they lock as one database. The
-- Team's policy, which teams/infrastructure/automation.py reads, and the account's limit are
-- arguments. Amounts of money are numbers of the least unit. The query for an idle database and
-- the advisory lock are not modelled.
pub mod Budgets
use dev_workflow_automation.Common.{
  ℕ, ◌+◌, ◌-◌, ◌==◌, ltb, leb, min, Bool, true, false, not, ◌&&◌, ◌||◌, Option, none, some,
  if◌then◌else◌, List, [], ◌∷◌, String, str_eq, any, Result, ok, err, ◌>>=◌, find,
}
use dev_workflow_automation.Engineering.Lifecycle.{TaskStatus}
use dev_workflow_automation.Engineering.Rows.{Task, Team, Database, task_key}
use dev_workflow_automation.Engineering.Jobs.{is_value, team_open, team_of}
use dev_workflow_automation.Engineering.Queue.{team_id_of}
use dev_workflow_automation.AgentRuntime.Usage.{Amount, amount}

-- `AIRun`, with its `budget_cost`: `none` is a cost that is not known.
pub record AiRun : Type 0 where
  pub task_id : ℕ
  pub role_kind : String
  pub cost : Option ℕ
  pub started_at : ℕ
  pub running : Bool

pub record AutomationPolicy : Type 0 where
  pub task_budget_usd : ℕ
  pub team_budget_usd : ℕ
  pub monthly_budget_usd : Option ℕ

-- `DevelopmentBlocked`, by its message.
pub data Refusal : Type 0 where
  unknown_native_cost team_required exhausted below_minimum positive_required : Refusal
  suspended account_exhausted monthly_exhausted role_exhausted : Refusal

-- `coalesce(sum(cost), 0)` over the runs of a condition: `sum` leaves out unknown costs.
abbrev pub cost_of : AiRun → ℕ
cost_of r = elim r.cost [ none ↦ 0 | some n ↦ n ]

unfoldable pub sum_cost : (AiRun → Bool) → List AiRun → ℕ
sum_cost p [] = 0
sum_cost p (r ∷ runs) = (if p r then cost_of r else 0) + sum_cost p runs

abbrev pub is_unknown : AiRun → Bool
is_unknown r = elim r.cost [ none ↦ true | some n ↦ false ]

abbrev pub is_role : Option String → String → Bool
is_role none kind = false
is_role (some role) kind = str_eq kind role

-- The run's task belongs to a Team.
abbrev pub of_team : Database → ℕ → AiRun → Bool
of_team db team r = is_value (team_id_of (find task_key r.task_id db.tasks)) team

-- The totals of the Team, the task and its role.
pub record Totals : Type 0 where
  pub team_total : ℕ
  pub task_total : ℕ
  pub role_total : ℕ

unfoldable pub budget_usage : Database → List AiRun → ℕ → ℕ → Option String → Result Refusal Totals
budget_usage db runs team task role =
    if any (λ r. of_team db team r && is_unknown r) runs
    then err Refusal.unknown_native_cost
    else ok (record {
      team_total = sum_cost (of_team db team) runs;
      task_total = sum_cost (λ r. of_team db team r && r.task_id == task) runs;
      role_total =
          sum_cost (λ r. of_team db team r && r.task_id == task && is_role role r.role_kind) runs;
    })

-- The runs of a period: those begun in it, and those not settled.
abbrev in_period : ℕ → AiRun → Bool
in_period since r = leb since r.started_at || r.running || is_unknown r

abbrev in_scope : Database → Option ℕ → AiRun → Bool
in_scope db none r = true
in_scope db (some team) r = of_team db team r

unfoldable pub periodic_usage : Database → List AiRun → ℕ → Option ℕ → ℕ × Bool
periodic_usage db runs since team = (
  sum_cost (λ r. in_period since r && in_scope db team r) runs,
  any (λ r. in_period since r && in_scope db team r && is_unknown r) runs,
)

-- A total that does not admit an amount: it is unknown, or the limit would be passed.
abbrev is_over : ℕ → ℕ → ℕ × Bool → Bool
is_over limit n (total, unknown) = unknown || ltb limit (total + n)

abbrev pub check_period : Refusal → Option ℕ → ℕ → ℕ × Bool → Result Refusal Unit
check_period refusal none n usage = ok tt
check_period refusal (some limit) n usage = if is_over limit n usage then err refusal else ok tt

abbrev role_over : Option String → ℕ → ℕ → Option Amount → Bool
role_over role total n none = false
role_over none total n (some budget) = true
role_over (some role) total n (some (amount limit)) = ltb limit (total + n)
role_over (some role) total n (some Amount.negative) = true
role_over (some role) total n (some Amount.not_finite) = true

abbrev pub check_totals :
    AutomationPolicy → Option String → Option Amount → ℕ → Totals → Result Refusal Unit
check_totals policy role role_budget n totals =
    if ltb policy.team_budget_usd (totals.team_total + n)
      || ltb policy.task_budget_usd (totals.task_total + n)
    then err Refusal.exhausted
    else if role_over role totals.role_total n role_budget
    then err Refusal.role_exhausted
    else ok tt

-- The checks one after the other, each of which may end the method.
abbrev pub in_order :
    (Totals → Result Refusal Unit)
    → Result Refusal Unit
    → Result Refusal Unit
    → Result Refusal Totals
    → Result Refusal Unit
in_order last (err e) monthly totals = err e
in_order last (ok _) (err e) totals = err e
in_order last (ok _) (ok _) (err e) = err e
in_order last (ok _) (ok _) (ok totals) = last totals

-- `status in {"NEW", "ACTIVE", "WAITING_EXTERNAL"}`
abbrev is_spending : TaskStatus → Bool
is_spending TaskStatus.new = true
is_spending TaskStatus.active = true
is_spending TaskStatus.waiting_external = true
is_spending _ = false

abbrev is_missing_time : Option ℕ → Bool
is_missing_time none = true
is_missing_time (some t) = false

abbrev coordinates : Bool → Option String → Bool
coordinates allow none = false
coordinates allow (some role) = allow && str_eq role "COORDINATOR"

-- What a reservation asks for: the arguments of `reserve_budget`.
pub record Reservation : Type 0 where
  pub task_id : ℕ
  pub value : Amount
  pub role_kind : Option String
  pub role_budget : Option Amount
  pub allow_coordination : Bool

module _ (account_limit : Option ℕ) (policy_of : ℕ → AutomationPolicy) (db : Database)
    (month : ℕ) where
  -- The guards on the locked rows.
  abbrev pub may_spend : Reservation → Task → ℕ → Bool
  may_spend q t team =
      team_open (team_of db (some team))
      && is_missing_time t.archived_at
      && not t.manual_takeover
      && (is_spending t.status || coordinates q.allow_coordination q.role_kind)

  -- What follows the guards, for a positive amount.
  unfoldable pub admit : List AiRun → Reservation → ℕ → ℕ → Result Refusal Unit
  admit runs q team n =
      in_order (check_totals (policy_of team) q.role_kind q.role_budget n)
        (check_period Refusal.account_exhausted account_limit n (periodic_usage db runs month none))
        (check_period Refusal.monthly_exhausted (policy_of team).monthly_budget_usd n
          (periodic_usage db runs month (some team)))
        (budget_usage db runs team q.task_id q.role_kind)

  abbrev pub reserve_of :
      List AiRun → Reservation → Amount → Option Task → Option ℕ → Result Refusal Unit
  reserve_of runs q (amount n) (some t) (some team) =
      if n == 0
      then err Refusal.positive_required
      else if may_spend q t team
      then admit runs q team n
      else err Refusal.suspended
  reserve_of runs q _ _ _ = err Refusal.positive_required

  unfoldable pub reserve_budget : List AiRun → Reservation → Result Refusal Unit
  reserve_budget runs q =
      let t = find task_key q.task_id db.tasks in reserve_of runs q q.value t (team_id_of t)

  -- `development_allowance`: what a turn may spend, within the limit of its caller.
  abbrev pub allow : ℕ → ℕ → ℕ → Totals → Result Refusal ℕ
  allow hard_limit minimum team totals =
      let remaining = min (hard_limit - totals.task_total) (
        min ((policy_of team).task_budget_usd - totals.task_total)
          ((policy_of team).team_budget_usd - totals.team_total)) in
      if remaining == 0
      then err Refusal.exhausted
      else if ltb remaining minimum
      then err Refusal.below_minimum
      else ok remaining

  abbrev pub allowance_of : List AiRun → Task → ℕ → ℕ → Option ℕ → Result Refusal ℕ
  allowance_of runs t hard_limit minimum none = err Refusal.team_required
  allowance_of runs t hard_limit minimum (some team) =
      budget_usage db runs team t.id none >>= allow hard_limit minimum team

  unfoldable pub development_allowance : List AiRun → Task → ℕ → ℕ → Result Refusal ℕ
  development_allowance runs t hard_limit minimum = allowance_of runs t hard_limit minimum t.team_id
