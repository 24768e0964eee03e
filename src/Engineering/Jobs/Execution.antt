-- ===== src/Engineering/Jobs/Execution.antt =====
-- engineering/application/jobs.py: `RunEngineeringJob.execute`. What ends the wait for the executor
-- and the watcher first is an argument, and so is what other transactions commit before each of
-- this worker's own after the heartbeat; the text of an exception is the one that the worker may
-- keep.
use Prim.Native.String.{◌++◌ as str_append}
use dev_workflow_automation.Common.{
  ℕ, Bool, true, false, none, some, String, Result, ok, err, ◌≡◌, ◌⊎◌, refl, inl, inr, subst,
  Bool-cases, Option-cases,
}
use dev_workflow_automation.Engineering.Lifecycle.{WaitReason, Action}
use dev_workflow_automation.Engineering.Rows.{Task, Job, Database}
use dev_workflow_automation.Engineering.Jobs.{PhaseLease, JobError, locked, heartbeat}
use dev_workflow_automation.Engineering.Jobs.Completion.{Worker, may_complete, complete, block}
use dev_workflow_automation.Engineering.Jobs.Fencing.{ok-injective}
use dev_workflow_automation.Engineering.Jobs.Spending.{complete_spends, block_spends}

-- The executor ends with an action, `PhaseBlocked` or another exception; the watcher finds the lease
-- revoked, or fails; or the controller stops.
pub data Outcome : Type 0 where
  finished : Action → Outcome
  phase_blocked : WaitReason → String → Outcome
  failed : String → Outcome
  revoked stopped : Outcome

abbrev block_failed : Worker → Database → PhaseLease → String → ℕ → Result JobError Database
block_failed w db lease text now =
    block w db lease WaitReason.missing_configuration (str_append "Execution failed: " text) now

-- An exception of the completion is a failure of the execution; `text_of` is its text.
abbrev completed :
    Worker
    → (JobError → String)
    → Database
    → PhaseLease
    → ℕ
    → Result JobError Database
    → Result JobError Database
completed w text_of db lease now (ok done) = ok done
completed w text_of db lease now (err e) = block_failed w db lease (text_of e) now

unfoldable pub report :
    Worker
    → (JobError → String)
    → (ℕ → Database → Database)
    → Database
    → PhaseLease
    → ℕ
    → Outcome
    → Result JobError Database
report w text_of others db lease now (finished action) =
    let before = others 0 db in
    completed w text_of (others 1 before) lease now (complete w before lease action now)
report w text_of others db lease now (phase_blocked reason message) =
    block w (others 0 db) lease reason message now
report w text_of others db lease now (failed text) = block_failed w (others 0 db) lease text now
report w text_of others db lease now revoked =
    block w (others 0 db) lease WaitReason.missing_configuration "Execution lease was revoked" now
report w text_of others db lease now stopped =
    block w (others 0 db) lease WaitReason.missing_configuration
      "Controller stopped; inspect preserved session before resuming" now

abbrev pub run :
    Worker
    → (JobError → String)
    → (ℕ → Database → Database)
    → PhaseLease
    → ℕ
    → Outcome
    → Database × Bool
    → Result JobError Database
run w text_of others lease later outcome (db, false) = ok db
run w text_of others lease later outcome (db, true) = report w text_of others db lease later outcome

-- `later` is the time of the report.
unfoldable pub execute :
    Worker
    → (JobError → String)
    → (ℕ → Database → Database)
    → Database
    → PhaseLease
    → ℕ
    → ℕ
    → ℕ
    → Outcome
    → Result JobError Database
execute w text_of others db lease now seconds later outcome =
    run w text_of others lease later outcome (heartbeat db lease now seconds)

-- A block leaves nothing to the lease, also if the lease held nothing.
blocked_releases :
    (w : Worker) (db : Database) (lease : PhaseLease) (reason : WaitReason) (message : String)
    (now : ℕ) (db' : Database)
    → block w db lease reason message now ≡ ok db'
    → locked db' lease ≡ none
unfolding block
blocked_releases w db lease reason message now db' h = elim (Option-cases (locked db lease)) [
  | inl spent ↦
      (let same = ok-injective (rw spent at h) in subst (λ d. locked d lease ≡ none) same spent)
  | inr ((t, j), held) ↦ block_spends w db lease reason message now t j db' held h
]

-- The lease held its rows when the action was reported, but the action came too late.
abbrev pub CameTooLate : Database → PhaseLease → ℕ → Outcome → Type 0
CameTooLate before lease later outcome =
    (action : Action) × (t : Task) × (j : Job) × (outcome ≡ finished action)
    × (locked before lease ≡ some (t, j))
    × (may_complete lease later t j ≡ false)

completed_releases :
    (w : Worker) (db : Database) (lease : PhaseLease) (action : Action) (now : ℕ) (db' : Database)
    → complete w db lease action now ≡ ok db'
    → (locked db' lease ≡ none) ⊎ CameTooLate db lease now (finished action)
unfolding complete
completed_releases w db lease action now db' h = elim (Option-cases (locked db lease)) [
  | inl spent ↦
      (let same = ok-injective (rw spent at h) in
        inl (subst (λ d. locked d lease ≡ none) same spent))
  | inr ((t, j), held) ↦ elim (Bool-cases (may_complete lease now t j)) [
    | inl may ↦ inl (complete_spends w db lease action now t j db' held may h)
    | inr late ↦ inr (action, t, j, refl, held, late)
  ]
]

reported_releases :
    (w : Worker) (text_of : JobError → String) (others : ℕ → Database → Database) (db : Database)
    (lease : PhaseLease) (now : ℕ) (outcome : Outcome) (db' : Database)
    → report w text_of others db lease now outcome ≡ ok db'
    → (locked db' lease ≡ none) ⊎ CameTooLate (others 0 db) lease now outcome
unfolding report
reported_releases w text_of others db lease now (finished action) db' h =
    split (complete w (others 0 db) lease action now) refl h
  where
    split :
        (o : Result JobError Database)
        → complete w (others 0 db) lease action now ≡ o
        → completed w text_of (others 1 (others 0 db)) lease now o ≡ ok db'
        → (locked db' lease ≡ none) ⊎ CameTooLate (others 0 db) lease now (finished action)
    split (ok done) e k =
        let same = ok-injective k in
        completed_releases w (others 0 db) lease action now db' (rw same at e)
    split (err x) e k = inl (
        blocked_releases w (others 1 (others 0 db)) lease WaitReason.missing_configuration _ now db'
          k)
reported_releases w text_of others db lease now (phase_blocked reason message) db' h =
    inl (blocked_releases w (others 0 db) lease reason message now db' h)
reported_releases w text_of others db lease now (failed text) db' h =
    inl (blocked_releases w (others 0 db) lease WaitReason.missing_configuration _ now db' h)
reported_releases w text_of others db lease now revoked db' h =
    inl (blocked_releases w (others 0 db) lease WaitReason.missing_configuration _ now db' h)
reported_releases w text_of others db lease now stopped db' h =
    inl (blocked_releases w (others 0 db) lease WaitReason.missing_configuration _ now db' h)

-- When a worker whose first heartbeat is accepted returns from `execute`, its lease holds nothing
-- any more, however the execution ended and whatever other transactions commit meanwhile. The one
-- exception is an action that `complete` turns down as too late (the task has moved on or the
-- lease has expired), which leaves the lease to the recovery.
pub executed_releases :
    (w : Worker) (text_of : JobError → String) (others : ℕ → Database → Database)
    (db beaten db' : Database) (lease : PhaseLease) (now seconds later : ℕ) (outcome : Outcome)
    → heartbeat db lease now seconds ≡ (beaten, true)
    → execute w text_of others db lease now seconds later outcome ≡ ok db'
    → (locked db' lease ≡ none) ⊎ CameTooLate (others 0 beaten) lease later outcome
unfolding execute
executed_releases w text_of others db beaten db' lease now seconds later outcome beats h =
    reported_releases w text_of others beaten lease later outcome db' (rw beats at h)
