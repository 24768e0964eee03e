-- ===== src/Engineering/Queue/Eligible.antt =====
-- What the `where` of `claim_next_job` asks of a job, its task and its Team, condition by condition.
use dev_workflow_automation.Common.{
  ℕ, ◌≤◌, true, false, Option, none, some, In, find, ◌≡◌, ◌⊎◌, refl, arith, and-eq_true,
}
use dev_workflow_automation.Engineering.Lifecycle.{is_merged}
use dev_workflow_automation.Engineering.Rows.{
  Task, Job, JobState, Team, TaskDependency, Database, task_key, team_key,
}
use dev_workflow_automation.Engineering.Jobs.{is_held, team_of}
use dev_workflow_automation.Engineering.Queue.{
  Slots, takes_slot, is_validation, already_running, unmet_dependencies, is_eligible_rows,
  is_eligible, task_of, team_for, team_id_of,
}
use dev_workflow_automation.Engineering.Queue.Others.{held_alone, alone_held, ready_met, met_ready}
use dev_workflow_automation.Engineering.Queue.Conditions.{
  IsWorkable, HasRoom, FitsLimit, limit-fits, fits-limit, team_open-HasRoom, HasRoom-team_open,
  is_admitted-IsWorkable, IsWorkable-is_admitted, is_ready-waits, waits-is_ready,
}

-- A job that may be claimed: it waits and is not put off, its task is workable, of a Team that has
-- room, has no other job that is held, and no prerequisite with a row that is not merged, and the
-- bounds over all Teams leave room.
pub record Claimable (slots : Slots) (db : Database) (now : ℕ) (j : Job) : Type 0 where
  pub task : Task
  pub team : Team
  pub team_id : ℕ
  pub of_task : find task_key j.task_id db.tasks ≡ some task
  pub names_team : task.team_id ≡ some team_id
  pub of_team : find team_key team_id db.teams ≡ some team
  pub waits : (j.state ≡ JobState.queued) ⊎ (j.state ≡ JobState.retry_wait)
  pub due : (at : ℕ) → j.retry_not_before ≡ some at → at ≤ now
  pub workable : IsWorkable task
  pub room : HasRoom db j team
  pub alone :
      (k : Job) → In k db.jobs → k.task_id ≡ j.task_id → is_held k.state ≡ true → k.id ≡ j.id
  pub ready :
      (d : TaskDependency) (p : Task)
      → In d db.dependencies
      → d.task_id ≡ task.id
      → find task_key d.prerequisite_id db.tasks ≡ some p
      → is_merged p.status ≡ true
  pub shared : FitsLimit takes_slot slots.global_developer_slots db j
  pub validated : FitsLimit is_validation slots.validation_slots db j

-- The Team of a task, looked up.
team_found :
    (db : Database) (o : Option ℕ) (m : Team)
    → team_of db o ≡ some m
    → (id : ℕ) × (o ≡ some id) × (find team_key id db.teams ≡ some m)
team_found db none m h = cc
team_found db (some id) m h = (id, refl, h)

rows-Claimable :
    (slots : Slots) (db : Database) (now : ℕ) (j : Job) (ot : Option Task) (om : Option Team)
    → task_of db j ≡ ot
    → team_of db (team_id_of ot) ≡ om
    → is_eligible_rows slots db now j ot om ≡ true
    → Claimable slots db now j
rows-Claimable slots db now j none none ft fm h = cc
rows-Claimable slots db now j none (some m) ft fm h = cc
rows-Claimable slots db now j (some t) none ft fm h = cc
rows-Claimable slots db now j (some t) (some m) ft fm h =
    let (id, names, found) = team_found db t.team_id m fm in
    let (h7, validates) = and-eq_true _ _ h in
    let (h6, shares) = and-eq_true _ _ h7 in
    let (h5, met) = and-eq_true _ _ h6 in
    let (h4, idle) = and-eq_true _ _ h5 in
    let (h3, slot) = and-eq_true _ _ h4 in
    let (h2, opens) = and-eq_true _ _ h3 in
    let (h1, admits) = and-eq_true _ _ h2 in
    let (waits, due) = is_ready-waits j now h1 in
    let unmet : unmet_dependencies db t.id ≡ false = ground arith in
    let free : already_running db j ≡ false = ground arith in
    record {
      task = t;
      team = m;
      team_id = id;
      of_task = ft;
      names_team = names;
      of_team = found;
      waits = waits;
      due = due;
      workable = is_admitted-IsWorkable t admits;
      room = team_open-HasRoom db j m opens slot;
      alone = λ k place same held. held_alone db j k free place same held;
      ready = λ d p place same there. met_ready db t d p unmet place same there;
      shared = limit-fits takes_slot slots.global_developer_slots db j shares;
      validated = limit-fits is_validation slots.validation_slots db j validates;
    }

-- What meets the query is what may be claimed.
pub is_eligible-Claimable :
    (slots : Slots) (db : Database) (now : ℕ) (j : Job)
    → is_eligible slots db now j ≡ true
    → Claimable slots db now j
unfolding is_eligible
is_eligible-Claimable slots db now j h =
    rows-Claimable slots db now j (task_of db j) (team_for db j) refl refl h

pub Claimable-is_eligible :
    (slots : Slots) (db : Database) (now : ℕ) (j : Job)
    → Claimable slots db now j
    → is_eligible slots db now j ≡ true
unfolding is_eligible
Claimable-is_eligible slots db now j c =
    let task = c.of_task in
    let names = c.names_team in
    let team = c.of_team in
    let ready = waits-is_ready j now c.waits c.due in
    let admits = IsWorkable-is_admitted c.task c.workable in
    let (opens, slot) = HasRoom-team_open db j c.team c.room in
    let free = alone_held db j c.alone in
    let met = ready_met db c.task c.ready in
    let shares = fits-limit takes_slot slots.global_developer_slots db j c.shared in
    let validates = fits-limit is_validation slots.validation_slots db j c.validated in
    rw task
      (rw names (rw team (rw (ready, admits, opens, slot, free, met, shares, validates) refl)))
