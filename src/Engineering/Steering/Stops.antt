-- ===== src/Engineering/Steering/Stops.antt =====
-- A control that does not resume a task takes its work from every worker.
use dev_workflow_automation.Common.{
  ℕ, ◌==◌, Bool, true, false, ◌&&◌, Option, none, some, List, [], ◌∷◌, ◌++◌, map, any, any_of_In,
  find-In, Result, ok, err, find, find-key, ◌≡◌, refl, sym, ◌∙◌, subst, inl, inr, arith,
  Option-cases, true-false,
}
use dev_workflow_automation.Engineering.Lifecycle.{Action}
use dev_workflow_automation.Engineering.Phases.{phase_action}
use dev_workflow_automation.Engineering.Rows.{Task, Job, ReviewCycle, Database, task_key, job_key}
use dev_workflow_automation.Engineering.Jobs.{
  PhaseLease, JobError, is_held, locked, enqueue_phase, new_job,
}
use dev_workflow_automation.Engineering.Jobs.Feedback.{enqueue_next, enqueue_again}
use dev_workflow_automation.Engineering.Jobs.Fencing.{locked-eq-some}
use dev_workflow_automation.Engineering.Steering.{
  ControlError, Steer, is_resuming, cancel_job, cancel_jobs, stop_jobs, control_task,
}

-- A worker may hold the job.
abbrev held_of : ℕ → Job → Bool
held_of id j = j.task_id == id && is_held j.state

abbrev NoneHeld : ℕ → List Job → Type 0
NoneHeld id jobs = any (held_of id) jobs ≡ false

cancel-NoneHeld : (id now : ℕ) (jobs : List Job) → NoneHeld id (map (cancel_job id now) jobs)
cancel-NoneHeld id now [] = refl
cancel-NoneHeld id now (j ∷ jobs) = ground (arith, cancel-NoneHeld id now jobs)

append-NoneHeld :
    (id : ℕ) (jobs : List Job) (j : Job)
    → NoneHeld id jobs
    → is_held j.state ≡ false
    → NoneHeld id (jobs ++ j ∷ [])
append-NoneHeld id [] j none_held free = ground arith
append-NoneHeld id (x ∷ jobs) j none_held free = ground (arith, append-NoneHeld id jobs j)

enqueue_phase-NoneHeld :
    (id : ℕ) (db : Database) (t : Task) (now : ℕ)
    → NoneHeld id db.jobs
    → NoneHeld id (enqueue_phase db t now).jobs
unfolding enqueue_phase
enqueue_phase-NoneHeld id db t now none_held = elim (Option-cases (phase_action t.stage)) [
  | inl no_unit ↦ ground arith
  | inr (u, unit) ↦ ground (arith, append-NoneHeld id db.jobs (new_job db t u now) none_held refl)
]

enqueue_again-NoneHeld :
    (id k : ℕ) (now : ℕ) (db : Database) (o : Option Task)
    → NoneHeld id db.jobs
    → NoneHeld id (enqueue_again k now db o).jobs
enqueue_again-NoneHeld id k now db none none_held = none_held
enqueue_again-NoneHeld id k now db (some t) none_held = enqueue_phase-NoneHeld id db t now none_held

ok-injective :
    {db db' : Database} → ◌≡◌ {A = Result ControlError Database} (ok db) (ok db') → db ≡ db'
ok-injective h = cc

stop_jobs-NoneHeld :
    (allowed : ReviewCycle → Bool) (on : Bool) (action : Action) (id now : ℕ)
    (result : Result JobError Database) {db' : Database}
    → is_resuming action ≡ false
    → stop_jobs allowed on action id now result ≡ ok db'
    → NoneHeld id db'.jobs
stop_jobs-NoneHeld allowed on action id now (err e) stops h = cc
stop_jobs-NoneHeld allowed on action id now (ok db) stops h =
    let left = cancel_jobs id now db in
    let done : enqueue_next id now left ≡ _ = ok-injective (rw stops at h) in
    subst (λ d. NoneHeld id d.jobs) done
      (enqueue_again-NoneHeld id id now left (find task_key id left.tasks)
        (cancel-NoneHeld id now db.jobs))

control_task-NoneHeld :
    (allowed : ReviewCycle → Bool) (on : Bool) (db : Database) (t : Task) (c : Steer) (now : ℕ)
    (db' : Database)
    → is_resuming c.action ≡ false
    → control_task allowed on db t c now ≡ ok db'
    → NoneHeld t.id db'.jobs
unfolding control_task
control_task-NoneHeld allowed on db t c now db' stops h =
    stop_jobs-NoneHeld allowed on c.action t.id now _ stops (rw stops at h)

-- A control that does not resume the task (a pause, a takeover, a cancellation, a block, a change
-- of the requirement), when it succeeds, leaves no lease on the task: a worker that still runs can
-- neither renew, complete nor block its job.
pub controlled_task_stops :
    (allowed : ReviewCycle → Bool) (on : Bool) (db : Database) (t : Task) (c : Steer) (now : ℕ)
    (db' : Database) (lease : PhaseLease)
    → is_resuming c.action ≡ false
    → control_task allowed on db t c now ≡ ok db'
    → lease.task_id ≡ t.id
    → locked db' lease ≡ none
controlled_task_stops allowed on db t c now db' lease stops h same =
    let none_held = control_task-NoneHeld allowed on db t c now db' stops h in
    elim (Option-cases (locked db' lease)) [
      | inl spent ↦ spent
      | inr ((u, j), held) ↦
          let (row, job, _, runs, of_task) = locked-eq-some db' lease u j held in
          let place = find-In job_key lease.job_id db'.jobs j job in
          let id = find-key task_key lease.task_id db'.tasks u row in
          let here : j.task_id ≡ t.id = of_task ∙ id ∙ same in
          let is_one : held_of t.id j ≡ true = rw (here, runs) ground arith in
          absurd (true-false (sym (any_of_In (held_of t.id) j db'.jobs place is_one) ∙ none_held))
    ]
