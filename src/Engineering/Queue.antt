-- ===== src/Engineering/Queue.antt =====
-- engineering/infrastructure/job_queue.py: `claim_next_job`, with `unmet_dependencies` of
-- dependencies.py and `SqlPhaseJobs.claim` of jobs.py. A claim is one step on the database, as the
-- advisory lock of `lock_admission` serialises the claims; `skipped` tells the job rows that
-- another transaction has locked. Between jobs that the order leaves equal, the first is taken.
pub mod Conditions
pub mod Others
pub mod Eligible
pub mod Exclusion
pub mod Capacity
pub mod Order
use dev_workflow_automation.Common.{
  first_of, ℕ, suc, ◌+◌, ◌==◌, leb, ltb, Bool, true, false, not, ◌&&◌, ◌||◌, Option, none, some,
  if◌then◌else◌, List, [], ◌∷◌, any, keep, max, String, Result, ok, err, find, store, count_where,
}
use dev_workflow_automation.Engineering.Lifecycle.{WaitReason, is_merged}
use dev_workflow_automation.Engineering.Phases.{PhaseAction}
use dev_workflow_automation.Engineering.Rows.{
  Task, Job, JobState, Team, TaskDependency, Database, task_key, job_key, team_key,
}
use dev_workflow_automation.Engineering.Transitions.{is_missing}
use dev_workflow_automation.Engineering.Jobs.{
  PhaseLease, JobError, is_held, is_runnable, is_value, team_open, team_of, heartbeat,
}
use dev_workflow_automation.Engineering.Jobs.Completion.{Worker, block}

-- `CONCURRENCY_SLOT_ACTIONS`
abbrev pub takes_slot : PhaseAction → Bool
takes_slot PhaseAction.interpret_event = true
takes_slot PhaseAction.thinker_turn = true
takes_slot PhaseAction.developer_turn = true
takes_slot _ = false

abbrev pub is_validation : PhaseAction → Bool
is_validation PhaseAction.run_validation = true
is_validation _ = false

-- `state in {QUEUED, RETRY_WAIT}`
abbrev pub is_waiting : JobState → Bool
is_waiting JobState.queued = true
is_waiting JobState.retry_wait = true
is_waiting _ = false

-- The slots that all controllers share: `none` sets no bound.
pub record Slots : Type 0 where
  pub global_developer_slots : Option ℕ
  pub validation_slots : Option ℕ

-- `already_running`: another job of the task is held.
unfoldable pub already_running : Database → Job → Bool
already_running db j =
    any (λ k. k.task_id == j.task_id && not (k.id == j.id) && is_held k.state) db.jobs

-- A task holds a slot while one of its jobs of these actions is held.
abbrev pub is_busy : Database → ℕ → Bool
is_busy db id = any (λ j. j.task_id == id && is_held j.state && takes_slot j.action) db.jobs

-- `occupied`: the distinct tasks of a Team that hold a slot.
unfoldable pub occupied : Database → ℕ → ℕ
occupied db team = count_where (λ t. is_value t.team_id team && is_busy db t.id) db.tasks

-- The held jobs of some actions, of all Teams.
unfoldable pub running_count : (PhaseAction → Bool) → Database → ℕ
running_count p db = count_where (λ j. is_held j.state && p j.action) db.jobs

abbrev pub has_room : ℕ → Option ℕ → Bool
has_room n none = true
has_room n (some capacity) = ltb n capacity

-- One of `limits`.
abbrev pub within_limit : (PhaseAction → Bool) → Option ℕ → Database → Job → Bool
within_limit p capacity db j = not (p j.action) || has_room (running_count p db) capacity

-- `unmet_dependencies`: a prerequisite that has a row is not merged.
abbrev pub is_open : Option Task → Bool
is_open none = false
is_open (some t) = not (is_merged t.status)

unfoldable pub unmet_dependencies : Database → ℕ → Bool
unmet_dependencies db id =
    any (λ d. d.task_id == id && is_open (find task_key d.prerequisite_id db.tasks)) db.dependencies

abbrev pub is_retry_due : Option ℕ → ℕ → Bool
is_retry_due none now = true
is_retry_due (some t) now = leb t now

abbrev pub is_ready : Job → ℕ → Bool
is_ready j now = is_waiting j.state && is_retry_due j.retry_not_before now

abbrev pub is_admitted : Task → Bool
is_admitted t = is_runnable t.status && not t.manual_takeover && is_missing t.archived_at

-- The condition on the Team's slots: `occupied < Team.max_concurrent_tasks`.
abbrev pub has_slot : Database → Job → Team → Bool
has_slot db j team =
    not (takes_slot j.action) || ltb (occupied db team.id) team.max_concurrent_tasks

-- The `where` of the query, on a job joined with its task and its Team.
abbrev pub is_eligible_rows : Slots → Database → ℕ → Job → Option Task → Option Team → Bool
is_eligible_rows slots db now j (some t) (some team) =
    is_ready j now
    && is_admitted t
    && team_open (some team)
    && has_slot db j team
    && not (already_running db j)
    && not (unmet_dependencies db t.id)
    && within_limit takes_slot slots.global_developer_slots db j
    && within_limit is_validation slots.validation_slots db j
is_eligible_rows slots db now j _ _ = false

abbrev pub team_id_of : Option Task → Option ℕ
team_id_of none = none
team_id_of (some t) = t.team_id

abbrev pub task_of : Database → Job → Option Task
task_of db j = find task_key j.task_id db.tasks

abbrev pub team_for : Database → Job → Option Team
team_for db j = team_of db (team_id_of (task_of db j))

unfoldable pub is_eligible : Slots → Database → ℕ → Job → Bool
is_eligible slots db now j = is_eligible_rows slots db now j (task_of db j) (team_for db j)

-- `last_dispatch` of a Team, `nullsfirst`: 0 for none, else one more than the time.
abbrev rank : Option ℕ → ℕ
rank none = 0
rank (some t) = suc t

abbrev in_team : Database → Option ℕ → Job → Bool
in_team db none j = false
in_team db (some team) j = is_value (team_id_of (task_of db j)) team

abbrev latest : (Job → Bool) → List Job → ℕ
latest p [] = 0
latest p (j ∷ jobs) = let rest = latest p jobs in if p j then max (rank j.started_at) rest else rest

unfoldable pub last_dispatch : Database → Job → ℕ
last_dispatch db j =
    latest (λ k. in_team db (team_id_of (task_of db j)) k && takes_slot k.action) db.jobs

-- `order_by(Job.priority, last_dispatch, Job.created_at)`
unfoldable pub precedes : Database → Job → Job → Bool
precedes db a b =
    ltb a.priority b.priority
    || a.priority == b.priority
      && (ltb (last_dispatch db a) (last_dispatch db b)
          || last_dispatch db a == last_dispatch db b && ltb a.created_at b.created_at)

unfoldable pub next_job : Slots → (Job → Bool) → Database → ℕ → Option Job
next_job slots skipped db now =
    first_of (precedes db) (keep (λ j. is_eligible slots db now j && not (skipped j)) db.jobs)

abbrev pub claim_row : Database → Job → String → ℕ → ℕ → Job
claim_row db j worker seconds now = record j {
  state = JobState.claimed;
  worker_id = some worker;
  lease_token = some db.next_id;
  lease_expires_at = some (now + seconds);
  retry_not_before = none;
  finished_at = none;
  attempt = j.attempt + 1;
  started_at = some now;
}

-- The checks after the Team's lock.
abbrev pub still_admits : Database → Job → Option Team → Bool
still_admits db j none = false
still_admits db j (some team) = team_open (some team) && has_slot db j team

abbrev pub claim_chosen : Database → String → ℕ → ℕ → Option Job → Database × Option Job
claim_chosen db worker seconds now none = (db, none)
claim_chosen db worker seconds now (some j) =
    let claimed = claim_row db j worker seconds now in
    if still_admits db j (team_for db j)
    then (
      record db { jobs = store job_key claimed db.jobs; next_id = db.next_id + 1 },
      some claimed,
    )
    else (db, none)

unfoldable pub claim_next_job :
    Slots → (Job → Bool) → Database → String → ℕ → ℕ → Database × Option Job
claim_next_job slots skipped db worker seconds now =
    claim_chosen db worker seconds now (next_job slots skipped db now)

abbrev lease_of : Job → ℕ → PhaseLease
lease_of j token = record {
  job_id = j.id;
  task_id = j.task_id;
  token = token;
  action = j.action;
  lifecycle_version = j.lifecycle_version;
}

-- A lease whose first heartbeat fails is blocked.
abbrev blocked_claim : Result JobError Database → Result JobError (Database × Option PhaseLease)
blocked_claim (ok db) = ok (db, none)
blocked_claim (err e) = err e

abbrev first_beat :
    Worker → PhaseLease → ℕ → Database × Bool → Result JobError (Database × Option PhaseLease)
first_beat w lease now (db, true) = ok (db, some lease)
first_beat w lease now (db, false) = blocked_claim (
    block w db lease WaitReason.missing_configuration
      "Stale phase job; task changed before execution" now)

abbrev claim_lease :
    Worker → ℕ → ℕ → Database × Option Job → Result JobError (Database × Option PhaseLease)
claim_lease w seconds now (db, none) = ok (db, none)
claim_lease w seconds now (db, some j) = claim_token j.lease_token
  where
    claim_token : Option ℕ → Result JobError (Database × Option PhaseLease)
    claim_token none = ok (db, none)
    claim_token (some token) =
        first_beat w (lease_of j token) now (heartbeat db (lease_of j token) now seconds)

-- `SqlPhaseJobs.claim`, with the time of the claim for that of the heartbeat.
unfoldable pub claim :
    Slots
    → (Job → Bool)
    → Worker
    → Database
    → ℕ
    → ℕ
    → Result JobError (Database × Option PhaseLease)
claim slots skipped w db seconds now =
    claim_lease w seconds now (claim_next_job slots skipped db w.name seconds now)
