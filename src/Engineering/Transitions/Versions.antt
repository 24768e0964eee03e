-- ===== src/Engineering/Transitions/Versions.antt =====
-- Optimistic locking by `lifecycle_version`, and the open phase of a task.
use dev_workflow_automation.Common.{
  ℕ, ◌+◌, ◌==◌, Bool, ◌&&◌, Option, none, some, if◌then◌else◌, List, [], ◌∷◌, ◌++◌, map, str_eq,
  strip, Result, ok, err, find, find-store, find-key, count_where, ◌≡◌, ◌≢◌, refl, arith, eq_iff,
  Bool-cases, inl, inr,
}
use dev_workflow_automation.Engineering.Lifecycle.{
  EngineeringState, is_terminal, Error as TransitionError, transition,
}
use dev_workflow_automation.Engineering.Rows.{Task, TaskPhaseRun, Database, task_key}
use dev_workflow_automation.Engineering.Transitions.{
  Error, Request, state_of, write_task, write, finish_phase, next_phase, is_missing, from_task,
  from_state, after_transition, record_transition,
}

-- What a successful `record_transition` found and did.
pub record Recorded (on : Bool) (db : Database) (id : ℕ) (r : Request) (now : ℕ) (db' : Database)
    (after : EngineeringState) : Type 0 where
  pub task : Task
  pub before : EngineeringState
  pub found : find task_key id db.tasks ≡ some task
  pub current : task.lifecycle_version ≡ r.expected_version
  pub read : state_of task ≡ ok before
  pub stepped : transition before r.action r.wait_reason r.external_wait ≡ ok after
  pub written : db' ≡ write on db task r.action r.actor before after now

module _ (on : Bool) (db : Database) (id : ℕ) (r : Request) (now : ℕ) {db' : Database}
    {after : EngineeringState} where
  of_step :
      (task : Task) (before : EngineeringState)
      → find task_key id db.tasks ≡ some task
      → task.lifecycle_version ≡ r.expected_version
      → state_of task ≡ ok before
      → (result : Result TransitionError EngineeringState)
      → transition before r.action r.wait_reason r.external_wait ≡ result
      → after_transition on db task r now before result ≡ ok (db', after)
      → Recorded on db id r now db' after
  of_step task before found current read (err e) s h = cc
  of_step task before found current read (ok t) s h = record {
    task = task;
    before = before;
    found = found;
    current = current;
    read = read;
    stepped = ground arith;
    written = ground arith;
  }

  of_state :
      (task : Task)
      → find task_key id db.tasks ≡ some task
      → task.lifecycle_version ≡ r.expected_version
      → (result : Result TransitionError EngineeringState) → state_of task ≡ result
      → from_state on db task r now result ≡ ok (db', after)
      → Recorded on db id r now db' after
  of_state task found current (err e) s h = cc
  of_state task found current (ok before) s h = of_step task before found current s _ refl h

  of_task :
      (o : Option Task)
      → find task_key id db.tasks ≡ o
      → from_task on db r now o ≡ ok (db', after)
      → Recorded on db id r now db' after
  of_task none f h = cc
  of_task (some task) f h = elim (Bool-cases (task.lifecycle_version == r.expected_version)) [
    | inl same ↦ of_state task f (ground arith) _ refl (rw same at h)
    | inr other ↦ cc (rw other at h)
  ]

  -- A transition is recorded only on a task that exists and is still at the expected version.
  pub record_transition-Recorded :
      record_transition on db id r now ≡ ok (db', after) → Recorded on db id r now db' after
  unfolding record_transition
  record_transition-Recorded h = elim (Bool-cases (str_eq (strip r.actor) "")) [
    | inl blank ↦ cc (rw blank at h)
    | inr known ↦ of_task _ refl (rw known at h)
  ]

-- The rows of the tasks after a recorded transition.
module _ (on : Bool) (db : Database) (id : ℕ) (r : Request) (now : ℕ) (db' : Database)
    (after : EngineeringState) (h : record_transition on db id r now ≡ ok (db', after)) where
  -- A recorded transition raises the version of its task by one, from the expected version, gives
  -- it each field of the state that `transition` computes from the state it had, for the action of
  -- the request, and leaves every other task as it was.
  pub record_transition_tasks :
      ((t : Task) × (find task_key id db'.tasks ≡ some t)
        × (t.lifecycle_version ≡ r.expected_version + 1)
        × (t.status ≡ after.status)
        × (t.stage ≡ after.stage)
        × (t.wait_reason ≡ after.wait_reason)
        × (t.requirement_version ≡ after.requirement_version)
        × (t.manual_takeover ≡ after.manual_takeover))
      × ((old : Task) × (before : EngineeringState) × (find task_key id db.tasks ≡ some old)
          × (state_of old ≡ ok before)
          × (transition before r.action r.wait_reason r.external_wait ≡ ok after))
      × ((j : ℕ) → j ≢ id → find task_key j db'.tasks ≡ find task_key j db.tasks)
  unfolding write write_task
  record_transition_tasks =
      let rec = record_transition-Recorded on db id r now h in
      let same : rec.task.id ≡ id = find-key task_key id db.tasks rec.task rec.found in
      let t' : Task = write_task rec.task after now in
      (
        (
          t',
          ground (arith, find-store task_key id t' db.tasks, rec.found, rec.written, same),
          ground (arith, rec.current),
          refl,
          refl,
          refl,
          refl,
          refl,
        ),
        (rec.task, rec.before, rec.found, rec.read, rec.stepped),
        λ j other. ground (arith, find-store task_key j t' db.tasks, rec.written, same),
      )

-- The first writer wins: of two operations that read the same version of a task, the one that is
-- recorded second is refused with a conflict, whatever it asks for, if its actor is known.
pub second_conflicts :
    (on : Bool) (db : Database) (id : ℕ) (r : Request) (now : ℕ) (db' : Database)
    (after : EngineeringState) (later : Request) (now' : ℕ)
    → record_transition on db id r now ≡ ok (db', after)
    → later.expected_version ≡ r.expected_version
    → strip later.actor ≢ ""
    → record_transition on db' id later now' ≡ err Error.lifecycle_conflict
unfolding record_transition
second_conflicts on db id r now db' after later now' h e known =
    let (first, _, _) = record_transition_tasks on db id r now db' after h in
    rw first.1 (ground (arith, eq_iff (strip later.actor) "", first.2, e))

-- The open phases of a task.
abbrev pub is_open_phase : ℕ → TaskPhaseRun → Bool
is_open_phase id p = p.task_id == id && is_missing p.finished_at

count-append :
    {R : Type 0} (p : R → Bool) (xs ys : List R)
    → count_where p (xs ++ ys) ≡ count_where p xs + count_where p ys
count-append p [] ys = omega arith
count-append p (x ∷ xs) ys = omega (arith, count-append p xs ys)

finish_all :
    (id now j : ℕ) (runs : List TaskPhaseRun)
    → count_where (is_open_phase j) (map (finish_phase id now) runs)
      ≡ (if j == id then 0 else count_where (is_open_phase j) runs)
finish_all id now j [] = ground arith
finish_all id now j (p ∷ runs) = ground (arith, finish_all id now j runs)

-- After a recorded transition the task has exactly one open phase, or none if it has ended,
-- whatever phases were open before; the open phases of every other task are as many as they were.
pub record_transition_phases :
    (on : Bool) (db : Database) (id : ℕ) (r : Request) (now : ℕ) (db' : Database)
    (after : EngineeringState)
    → record_transition on db id r now ≡ ok (db', after)
    → (count_where (is_open_phase id) db'.phase_runs ≡ (if is_terminal after.status then 0 else 1))
      × ((j : ℕ)
          → j ≢ id
          → count_where (is_open_phase j) db'.phase_runs
            ≡ count_where (is_open_phase j) db.phase_runs)
unfolding write
record_transition_phases on db id r now db' after h =
    let rec = record_transition-Recorded on db id r now h in
    let same : rec.task.id ≡ id = find-key task_key id db.tasks rec.task rec.found in
    let last : TaskPhaseRun = next_phase rec.task.id r.actor after now in
    let runs : List TaskPhaseRun = map (finish_phase rec.task.id now) db.phase_runs in
    (
      ground (
        arith,
        rec.written,
        same,
        count-append (is_open_phase id) runs (last ∷ []),
        finish_all rec.task.id now id db.phase_runs,
      ),
      λ j other. ground (
        arith,
        rec.written,
        same,
        count-append (is_open_phase j) runs (last ∷ []),
        finish_all rec.task.id now j db.phase_runs,
      ),
    )
