-- ===== src/Engineering/Queue/Conditions.antt =====
-- The conditions of the query of `claim_next_job`, each against its test.
use dev_workflow_automation.Common.{
  ℕ, ◌≤◌, ◌<◌, Bool, true, false, Option, none, some, ◌≡◌, ◌⊎◌, refl, inl, inr, arith, Bool-cases,
  and-eq_true,
}
use dev_workflow_automation.Engineering.Lifecycle.{TaskStatus}
use dev_workflow_automation.Engineering.Phases.{PhaseAction}
use dev_workflow_automation.Engineering.Rows.{Task, Job, JobState, Team, Database}
use dev_workflow_automation.Engineering.Transitions.{is_missing}
use dev_workflow_automation.Engineering.Jobs.{is_runnable, team_open}
use dev_workflow_automation.Engineering.Queue.{
  takes_slot, is_waiting, occupied, running_count, has_room, within_limit, is_retry_due, is_ready,
  is_admitted, has_slot,
}

-- A task that may be worked on: new or active, not taken over, not archived.
pub record IsWorkable (t : Task) : Type 0 where
  pub status : (t.status ≡ TaskStatus.new) ⊎ (t.status ≡ TaskStatus.active)
  pub untaken : t.manual_takeover ≡ false
  pub kept : t.archived_at ≡ none

-- A Team that runs and has room: a job for a slot needs a free one.
pub record HasRoom (db : Database) (j : Job) (m : Team) : Type 0 where
  pub enabled : m.enabled ≡ true
  pub running : m.execution_paused ≡ false
  pub kept : m.archived_at ≡ none
  pub free : takes_slot j.action ≡ true → occupied db m.id < m.max_concurrent_tasks

-- A bound on the running jobs of some actions, if there is one, leaves room for the job.
abbrev pub FitsLimit : (PhaseAction → Bool) → Option ℕ → Database → Job → Type 0
FitsLimit p limit db j = p j.action ≡ true → (n : ℕ) → limit ≡ some n → running_count p db < n

runnable-statuses :
    (x : TaskStatus) → is_runnable x ≡ true → (x ≡ TaskStatus.new) ⊎ (x ≡ TaskStatus.active)
runnable-statuses TaskStatus.new h = inl refl
runnable-statuses TaskStatus.active h = inr refl
runnable-statuses TaskStatus.waiting_external h = cc
runnable-statuses TaskStatus.waiting_human h = cc
runnable-statuses TaskStatus.paused h = cc
runnable-statuses TaskStatus.failed h = cc
runnable-statuses TaskStatus.cancelled h = cc
runnable-statuses TaskStatus.merged h = cc

waiting-states :
    (x : JobState) → is_waiting x ≡ true → (x ≡ JobState.queued) ⊎ (x ≡ JobState.retry_wait)
waiting-states JobState.queued h = inl refl
waiting-states JobState.claimed h = cc
waiting-states JobState.running h = cc
waiting-states JobState.succeeded h = cc
waiting-states JobState.failed h = cc
waiting-states JobState.cancelled h = cc
waiting-states JobState.timed_out h = cc
waiting-states JobState.retry_wait h = inr refl
waiting-states JobState.waiting_provider h = cc
waiting-states JobState.waiting_integration h = cc
waiting-states JobState.waiting_configuration h = cc
waiting-states JobState.waiting_human h = cc

missing-none : (o : Option ℕ) → is_missing o ≡ true → o ≡ none
missing-none none h = refl
missing-none (some n) h = cc

retry-due : (o : Option ℕ) (now : ℕ) → is_retry_due o now ≡ true → (at : ℕ) → o ≡ some at → at ≤ now
retry-due none now h at e = cc
retry-due (some x) now h at e = ground arith

due-retry :
    (o : Option ℕ) (now : ℕ) → ((at : ℕ) → o ≡ some at → at ≤ now) → is_retry_due o now ≡ true
due-retry none now h = refl
due-retry (some x) now h = (let bound = h x refl in ground arith)

pub limit-fits :
    (p : PhaseAction → Bool) (limit : Option ℕ) (db : Database) (j : Job)
    → within_limit p limit db j ≡ true
    → FitsLimit p limit db j
limit-fits p none db j h asks n e = cc
limit-fits p (some x) db j h asks n e = ground arith

pub fits-limit :
    (p : PhaseAction → Bool) (limit : Option ℕ) (db : Database) (j : Job)
    → FitsLimit p limit db j
    → within_limit p limit db j ≡ true
fits-limit p limit db j h = elim (Bool-cases (p j.action)) [
  | inl asks ↦ rw asks (room limit (h asks))
  | inr other ↦ rw other refl
]
  where
    room :
        (o : Option ℕ)
        → ((n : ℕ) → o ≡ some n → running_count p db < n)
        → has_room (running_count p db) o ≡ true
    room none h = refl
    room (some n) h = (let bound = h n refl in ground arith)

has_slot-free :
    (db : Database) (j : Job) (m : Team)
    → has_slot db j m ≡ true
    → takes_slot j.action ≡ true
    → occupied db m.id < m.max_concurrent_tasks
has_slot-free db j m h asks = ground arith

pub team_open-HasRoom :
    (db : Database) (j : Job) (m : Team)
    → team_open (some m) ≡ true
    → has_slot db j m ≡ true
    → HasRoom db j m
team_open-HasRoom db j m h slot = record {
  enabled = ground arith;
  running = ground arith;
  kept = missing-none m.archived_at (ground arith);
  free = has_slot-free db j m slot;
}

pub HasRoom-team_open :
    (db : Database) (j : Job) (m : Team)
    → HasRoom db j m
    → (team_open (some m) ≡ true) × (has_slot db j m ≡ true)
HasRoom-team_open db j m r =
    let on = r.enabled in
    let runs = r.running in
    let kept = r.kept in
    (
      rw (on, runs, kept) refl,
      elim (Bool-cases (takes_slot j.action)) [
        | inl asks ↦ (let bound = r.free asks in rw asks (ground (arith, bound)))
        | inr other ↦ rw other refl
      ],
    )

pub is_admitted-IsWorkable : (t : Task) → is_admitted t ≡ true → IsWorkable t
is_admitted-IsWorkable t h = record {
  status = runnable-statuses t.status (ground arith);
  untaken = ground arith;
  kept = missing-none t.archived_at (ground arith);
}

pub IsWorkable-is_admitted : (t : Task) → IsWorkable t → is_admitted t ≡ true
IsWorkable-is_admitted t w =
    let untaken = w.untaken in
    let kept = w.kept in
    elim w.status [
      | inl new ↦ rw (new, untaken, kept) refl
      | inr active ↦ rw (active, untaken, kept) refl
    ]

pub is_ready-waits :
    (j : Job) (now : ℕ)
    → is_ready j now ≡ true
    → ((j.state ≡ JobState.queued) ⊎ (j.state ≡ JobState.retry_wait))
      × ((at : ℕ) → j.retry_not_before ≡ some at → at ≤ now)
is_ready-waits j now h =
    let (waits, due) = and-eq_true (is_waiting j.state) _ h in
    (waiting-states j.state waits, retry-due j.retry_not_before now due)

pub waits-is_ready :
    (j : Job) (now : ℕ)
    → (j.state ≡ JobState.queued) ⊎ (j.state ≡ JobState.retry_wait)
    → ((at : ℕ) → j.retry_not_before ≡ some at → at ≤ now)
    → is_ready j now ≡ true
waits-is_ready j now (inl queued) due =
    (let d = due-retry j.retry_not_before now due in rw (queued, d) refl)
waits-is_ready j now (inr again) due =
    (let d = due-retry j.retry_not_before now due in rw (again, d) refl)
