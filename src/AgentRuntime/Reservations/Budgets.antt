-- ===== src/AgentRuntime/Reservations/Budgets.antt =====
-- That admitted reservations stay within the budgets of their Team and task.
use dev_workflow_automation.Common.{
  ℕ, ◌+◌, ◌==◌, ◌≤◌, ltb, min, true, ◌&&◌, ◌||◌, Option, none, some, List, ◌∷◌, String, any, Result,
  ok, err, >>=-eq-ok, find, ◌≡◌, refl, sym, inl, inr, arith, Bool-cases, subst, ap, ◌∙◌,
}
use dev_workflow_automation.Engineering.Rows.{Task, Database, task_key}
use dev_workflow_automation.Engineering.Jobs.{is_value}
use dev_workflow_automation.AgentRuntime.Usage.{Amount, amount}
use dev_workflow_automation.Engineering.Queue.{team_id_of}
use dev_workflow_automation.AgentRuntime.Reservations.{
  AiRun, AutomationPolicy, Refusal, Totals, Reservation, of_team, sum_cost, budget_usage,
  check_totals, in_order, is_unknown, may_spend, admit, check_period, periodic_usage, reserve_of,
  reserve_budget, allow, allowance_of, development_allowance,
}

-- The run that the caller of `reserve_budget` inserts in the same transaction.
abbrev pub reserved_run : Reservation → ℕ → String → ℕ → AiRun
reserved_run q n role now = record {
  task_id = q.task_id;
  role_kind = role;
  cost = some n;
  started_at = now;
  running = true;
}

in_order-eq-ok :
    (last : Totals → Result Refusal Unit) (account monthly : Result Refusal Unit)
    (usage : Result Refusal Totals)
    → in_order last account monthly usage ≡ ok tt
    → (totals : Totals) × (usage ≡ ok totals) × (last totals ≡ ok tt)
in_order-eq-ok last (err e) monthly usage h = cc
in_order-eq-ok last (ok _) (err e) usage h = cc
in_order-eq-ok last (ok _) (ok _) (err e) h = cc
in_order-eq-ok last (ok _) (ok _) (ok totals) h = (totals, refl, h)

ok-injective : {t u : Totals} → ◌≡◌ {A = Result Refusal Totals} (ok t) (ok u) → t ≡ u
ok-injective h = cc

budget_usage-eq-ok :
    (db : Database) (runs : List AiRun) (team task : ℕ) (role : Option String) (totals : Totals)
    → budget_usage db runs team task role ≡ ok totals
    → (totals.team_total ≡ sum_cost (of_team db team) runs)
      × (totals.task_total ≡ sum_cost (λ r. of_team db team r && r.task_id == task) runs)
unfolding budget_usage
budget_usage-eq-ok db runs team task role totals h =
    elim (Bool-cases (any (λ r. of_team db team r && is_unknown r) runs)) [
      | inl unknown ↦ (let e = rw unknown at h in cc)
      | inr known ↦
          let e = sym (ok-injective (rw known at h)) in
          (ap (λ t. t.team_total) e, ap (λ t. t.task_total) e)
    ]

check_totals-eq-ok :
    (policy : AutomationPolicy) (role : Option String) (budget : Option Amount) (n : ℕ)
    (totals : Totals)
    → check_totals policy role budget n totals ≡ ok tt
    → (totals.team_total + n ≤ policy.team_budget_usd)
      × (totals.task_total + n ≤ policy.task_budget_usd)
check_totals-eq-ok policy role budget n totals h =
    elim (Bool-cases (
      ltb policy.team_budget_usd (totals.team_total + n)
      || ltb policy.task_budget_usd (totals.task_total + n))) [
        | inl over ↦ (let e = rw over at h in cc)
        | inr within ↦ (ground arith, ground arith)
      ]

its_team : (id team : ℕ) → is_value (some id) team ≡ true → id ≡ team
its_team id team h = ground arith

module _ (account_limit : Option ℕ) (policy_of : ℕ → AutomationPolicy) (db : Database)
    (month : ℕ) where
  admit-eq-ok :
      (runs : List AiRun) (q : Reservation) (team n : ℕ)
      → admit account_limit policy_of db month runs q team n ≡ ok tt
      → (sum_cost (of_team db team) runs + n ≤ (policy_of team).team_budget_usd)
        × (sum_cost (λ r. of_team db team r && r.task_id == q.task_id) runs + n
            ≤ (policy_of team).task_budget_usd)
  unfolding admit
  admit-eq-ok runs q team n h =
      let (totals, read, last) =
        in_order-eq-ok (check_totals (policy_of team) q.role_kind q.role_budget n)
          (check_period Refusal.account_exhausted account_limit n
            (periodic_usage db runs month none))
          (check_period Refusal.monthly_exhausted (policy_of team).monthly_budget_usd n
            (periodic_usage db runs month (some team)))
          (budget_usage db runs team q.task_id q.role_kind) h in
      let (e, f) = budget_usage-eq-ok db runs team q.task_id q.role_kind totals read in
      rw (sym e, sym f)
        (check_totals-eq-ok (policy_of team) q.role_kind q.role_budget n totals last)

  -- What an admitted reservation has been checked to be.
  reserve_of-eq-ok :
      (runs : List AiRun) (q : Reservation) (a : Amount) (o : Option Task) (team : Option ℕ)
      → reserve_of account_limit policy_of db month runs q a o team ≡ ok tt
      → (n : ℕ) × (t : Task) × (id : ℕ) × (a ≡ amount n)
        × (o ≡ some t)
        × (team ≡ some id)
        × (admit account_limit policy_of db month runs q id n ≡ ok tt)
  reserve_of-eq-ok runs q (amount n) (some t) (some id) h = elim (Bool-cases (n == 0)) [
    | inl nothing ↦ (let e = rw nothing at h in cc)
    | inr positive ↦ elim (Bool-cases (may_spend account_limit policy_of db month q t id)) [
      | inl spends ↦ (n, t, id, refl, refl, refl, rw spends at (rw positive at h))
      | inr suspended ↦ (let e = rw suspended at (rw positive at h) in cc)
    ]
  ]
  reserve_of-eq-ok runs q (amount n) none team h = cc
  reserve_of-eq-ok runs q (amount n) (some t) none h = cc
  reserve_of-eq-ok runs q Amount.negative o team h = cc
  reserve_of-eq-ok runs q Amount.not_finite o team h = cc

  -- Runs grow by admitted reservations, whose caller inserts the run with its cost.
  pub data Reserved (start : List AiRun) : List AiRun → Type 0 where
    nothing_more : Reserved start start
    one_more :
        {runs : List AiRun} (before : Reserved start runs) (q : Reservation) (n : ℕ) (role : String)
        (now : ℕ)
        → reserve_budget account_limit policy_of db month runs q ≡ ok tt
        → q.value ≡ amount n
        → Reserved start (reserved_run q n role now ∷ runs)

  amount-injective : {m n : ℕ} → amount m ≡ amount n → m ≡ n
  amount-injective h = cc

  -- One reservation, for any Team.
  one_within :
      (runs : List AiRun) (q : Reservation) (n : ℕ) (role : String) (now team : ℕ)
      → reserve_budget account_limit policy_of db month runs q ≡ ok tt
      → q.value ≡ amount n
      → sum_cost (of_team db team) runs ≤ (policy_of team).team_budget_usd
      → sum_cost (of_team db team) (reserved_run q n role now ∷ runs)
        ≤ (policy_of team).team_budget_usd
  unfolding reserve_budget sum_cost
  one_within runs q n role now team h v within =
      let (m, t, id, e, f, g, admitted) = reserve_of-eq-ok runs q q.value _ _ h in
      let same : m ≡ n = amount-injective (sym e ∙ v) in
      let (team_within, _) = admit-eq-ok runs q id m admitted in
      elim (Bool-cases (of_team db team (reserved_run q n role now))) [
        | inl its ↦
            let same_team : id ≡ team =
              its_team id team (subst (λ o. is_value o team ≡ true) g its) in
            let within_budget =
              subst (λ i. sum_cost (of_team db i) runs + m ≤ (policy_of i).team_budget_usd)
                same_team team_within in
            rw its (ground (arith, same, within_budget))
        | inr other ↦ rw other (omega (arith, within))
      ]

  -- However many reservations are admitted one after another, each inserted with its cost, a Team
  -- whose known costs are within its budget stays within it; the policies, tasks and Teams are those
  -- of one database.
  pub reservations_within_budget :
      (start runs : List AiRun) (team : ℕ)
      → Reserved start runs
      → sum_cost (of_team db team) start ≤ (policy_of team).team_budget_usd
      → sum_cost (of_team db team) runs ≤ (policy_of team).team_budget_usd
  reservations_within_budget start _ team nothing_more within = within
  reservations_within_budget start _ team (one_more before q n role now h v) within =
      one_within _ q n role now team h v (reservations_within_budget start _ team before within)

  -- An admitted reservation is of a positive amount, and the run that it stands for keeps the known
  -- costs of its task within the task's budget.
  pub reserve_budget_within_task :
      (runs : List AiRun) (q : Reservation)
      → reserve_budget account_limit policy_of db month runs q ≡ ok tt
      → (n : ℕ) × (id : ℕ) × (q.value ≡ amount n)
        × (team_id_of (find task_key q.task_id db.tasks) ≡ some id)
        × (sum_cost (λ r. of_team db id r && r.task_id == q.task_id) runs + n
            ≤ (policy_of id).task_budget_usd)
  unfolding reserve_budget
  reserve_budget_within_task runs q h =
      let (m, t, id, e, f, g, admitted) = reserve_of-eq-ok runs q q.value _ _ h in
      (m, id, e, g, (admit-eq-ok runs q id m admitted).1)

  allow-eq-ok :
      (hard_limit minimum team n : ℕ) (totals : Totals)
      → allow account_limit policy_of db month hard_limit minimum team totals ≡ ok n
      → (1 ≤ n)
        × (totals.team_total + n ≤ (policy_of team).team_budget_usd)
        × (totals.task_total + n ≤ min hard_limit (policy_of team).task_budget_usd)
  allow-eq-ok hard_limit minimum team n totals h = ground arith

  -- What a turn is allowed, added to what its task and its Team have spent, stays within both
  -- budgets and within the limit of the caller, and is positive.
  pub development_allowance_fits :
      (runs : List AiRun) (t : Task) (hard_limit minimum n : ℕ)
      → development_allowance account_limit policy_of db month runs t hard_limit minimum ≡ ok n
      → (team : ℕ) × (t.team_id ≡ some team)
        × (1 ≤ n)
        × (sum_cost (of_team db team) runs + n ≤ (policy_of team).team_budget_usd)
        × (sum_cost (λ r. of_team db team r && r.task_id == t.id) runs + n
            ≤ min hard_limit (policy_of team).task_budget_usd)
  unfolding development_allowance
  development_allowance_fits runs t hard_limit minimum n h = from_team t.team_id h
    where
      from_team :
          (o : Option ℕ)
          → allowance_of account_limit policy_of db month runs t hard_limit minimum o ≡ ok n
          → (team : ℕ) × (o ≡ some team)
            × (1 ≤ n)
            × (sum_cost (of_team db team) runs + n ≤ (policy_of team).team_budget_usd)
            × (sum_cost (λ r. of_team db team r && r.task_id == t.id) runs + n
                ≤ min hard_limit (policy_of team).task_budget_usd)
      from_team none h = cc
      from_team (some team) h =
          let (totals, read, last) =
            >>=-eq-ok (budget_usage db runs team t.id none)
              (allow account_limit policy_of db month hard_limit minimum team) h in
          let (e, f) = budget_usage-eq-ok db runs team t.id none totals read in
          let (positive, team_fits, task_fits) =
            allow-eq-ok hard_limit minimum team n totals last in
          (team, refl, positive, rw (sym e) team_fits, rw (sym f) task_fits)
