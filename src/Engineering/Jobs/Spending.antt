-- ===== src/Engineering/Jobs/Spending.antt =====
-- The fencing of `SqlPhaseJobs.complete` and `SqlPhaseJobs.block` by the lease token.
use dev_workflow_automation.Common.{
  ℕ, ◌==◌, true, false, ◌&&◌, none, some, String, ok, find, store, ◌≡◌, subst, refl, inl, inr,
  Bool-cases,
}
use dev_workflow_automation.Engineering.Lifecycle.{WaitReason, Action}
use dev_workflow_automation.Engineering.Rows.{Task, Job, JobState, Database, job_key}
use dev_workflow_automation.Engineering.Jobs.{PhaseLease, is_runnable, locked, heartbeat, beat}
use dev_workflow_automation.Engineering.Phases.{phase_result}
use dev_workflow_automation.Engineering.Jobs.Completion.{
  Worker, close_job, may_complete, advance_task, complete, block,
}
use dev_workflow_automation.Engineering.Jobs.Fencing.{
  locked-eq-some, Spent, Spent-locked, close-Spent, perform-Spent, KeepsJobs-Spent, of_same_jobs,
  record_transition-jobs, ok-injective,
}

advance_task-Spent :
    (w : Worker) (db : Database) (lease : PhaseLease) (action : Action) (now : ℕ) (t : Task)
    (j : Job) {db' : Database}
    → find job_key lease.job_id db.jobs ≡ some j
    → advance_task w db lease action now t j ≡ ok db'
    → Spent db' lease
unfolding advance_task
advance_task-Spent w db lease action now t j f h =
    elim (Bool-cases (phase_result lease.action action)) [
      | inl e ↦ perform-Spent w lease action now t j db f (rw e at h)
      | inr e ↦ cc
    ]

-- When `complete` ends on a lease that holds its rows and meets the guards of `complete`, the
-- lease holds no row of the database that it leaves.
pub complete_spends :
    (w : Worker) (db : Database) (lease : PhaseLease) (action : Action) (now : ℕ) (t : Task)
    (j : Job) (db' : Database)
    → locked db lease ≡ some (t, j)
    → may_complete lease now t j ≡ true
    → complete w db lease action now ≡ ok db'
    → locked db' lease ≡ none
unfolding complete
complete_spends w db lease action now t j db' l m h =
    let (_, f, _, _, _) = locked-eq-some db lease t j l in
    Spent-locked db' lease (advance_task-Spent w db lease action now t j f (rw m at (rw l at h)))

-- When `block` ends on a lease that holds its rows, the lease holds no row of the database that
-- it leaves.
pub block_spends :
    (w : Worker) (db : Database) (lease : PhaseLease) (reason : WaitReason) (message : String)
    (now : ℕ) (t : Task) (j : Job) (db' : Database)
    → locked db lease ≡ some (t, j)
    → block w db lease reason message now ≡ ok db'
    → locked db' lease ≡ none
unfolding block
block_spends w db lease reason message now t j db' l h =
    let (_, f, _, _, _) = locked-eq-some db lease t j l in
    let new = record (close_job j JobState.waiting_human now) { failure_reason = some message } in
    let left = record db { jobs = store job_key new db.jobs } in
    let closed = close-Spent db lease j new f refl refl in
    let blocked = rw l at h in
    Spent-locked db' lease
      (elim (Bool-cases (t.lifecycle_version == lease.lifecycle_version && is_runnable t.status)) [
        | inl e ↦
            KeepsJobs-Spent left db' lease
              (of_same_jobs left db' (record_transition-jobs _ _ _ _ _ (rw e at blocked))) closed
        | inr e ↦ subst (λ x. Spent x lease) (ok-injective (rw e at blocked)) closed
      ])

-- A lease that holds no row of the database changes nothing: its heartbeat is refused, and
-- `complete` and `block` leave the database as it is.
pub spent_lease_is_inert :
    (w : Worker) (db : Database) (lease : PhaseLease) (action : Action) (reason : WaitReason)
    (message : String) (now seconds : ℕ)
    → locked db lease ≡ none
    → (heartbeat db lease now seconds ≡ (db, false))
      × (complete w db lease action now ≡ ok db)
      × (block w db lease reason message now ≡ ok db)
unfolding heartbeat complete block beat
spent_lease_is_inert w db lease action reason message now seconds l =
    (rw l refl, rw l refl, rw l refl)

-- If `complete` ends on a lease that holds its rows and meets the guards, a second call with the
-- same lease leaves the database as the first left it, whatever it reports and whenever.
pub complete_once :
    (w : Worker) (db : Database) (lease : PhaseLease) (action again : Action) (now later : ℕ)
    (t : Task) (j : Job) (db' : Database)
    → locked db lease ≡ some (t, j)
    → may_complete lease now t j ≡ true
    → complete w db lease action now ≡ ok db'
    → complete w db' lease again later ≡ ok db'
complete_once w db lease action again now later t j db' l m h =
    (spent_lease_is_inert w db' lease again WaitReason.no_wait "" later 0
      (complete_spends w db lease action now t j db' l m h)).1
