-- ===== src/Engineering/Queue/Others.antt =====
-- The conditions of the query of `claim_next_job` on the other jobs and the prerequisites.
use dev_workflow_automation.Common.{
  ℕ, ◌==◌, true, false, not, ◌&&◌, Option, none, some, In, any-eq_true, any_of_In, find, ◌≡◌, refl,
  sym, ◌∙◌, inl, inr, arith, Bool-cases, true-false, and-eq_true,
}
use dev_workflow_automation.Engineering.Lifecycle.{is_merged}
use dev_workflow_automation.Engineering.Rows.{Task, Job, TaskDependency, Database, task_key}
use dev_workflow_automation.Engineering.Jobs.{is_held}
use dev_workflow_automation.Engineering.Queue.{already_running, is_open, unmet_dependencies}

pub held_alone :
    (db : Database) (j k : Job)
    → already_running db j ≡ false
    → In k db.jobs
    → k.task_id ≡ j.task_id
    → is_held k.state ≡ true
    → k.id ≡ j.id
unfolding already_running
held_alone db j k h place same held = elim (Bool-cases (k.id == j.id)) [
  | inl mine ↦ ground arith
  | inr other ↦
      let found =
        any_of_In (λ i. i.task_id == j.task_id && not (i.id == j.id) && is_held i.state) k db.jobs
          place (ground arith) in
      absurd (true-false (sym found ∙ h))
]

pub alone_held :
    (db : Database) (j : Job)
    → ((k : Job) → In k db.jobs → k.task_id ≡ j.task_id → is_held k.state ≡ true → k.id ≡ j.id)
    → already_running db j ≡ false
unfolding already_running
alone_held db j h = elim (Bool-cases (already_running db j)) [
  | inl busy ↦
      let (k, place, meets) =
        any-eq_true (λ i. i.task_id == j.task_id && not (i.id == j.id) && is_held i.state) db.jobs
          busy in
      let mine = h k place (ground arith) (ground arith) in ground (arith, mine)
  | inr free ↦ free
]

open_missing :
    (o : Option Task) → is_open o ≡ true → (p : Task) × (o ≡ some p) × (is_merged p.status ≡ false)
open_missing none h = cc
open_missing (some p) h = (p, refl, ground arith)

same_number : (m n : ℕ) → (m == n) ≡ true → m ≡ n
same_number m n h = ground arith

pub ready_met :
    (db : Database) (t : Task)
    → ((d : TaskDependency) (p : Task)
        → In d db.dependencies
        → d.task_id ≡ t.id
        → find task_key d.prerequisite_id db.tasks ≡ some p
        → is_merged p.status ≡ true)
    → unmet_dependencies db t.id ≡ false
unfolding unmet_dependencies
ready_met db t h = elim (Bool-cases (unmet_dependencies db t.id)) [
  | inl unmet ↦
      let (d, place, meets) =
        any-eq_true (λ d. d.task_id == t.id && is_open (find task_key d.prerequisite_id db.tasks))
          db.dependencies unmet in
      let (of_task, opens) = and-eq_true (d.task_id == t.id) _ meets in
      let (p, found, waits) = open_missing (find task_key d.prerequisite_id db.tasks) opens in
      absurd (true-false (sym (h d p place (same_number d.task_id t.id of_task) found) ∙ waits))
  | inr met ↦ met
]

pub met_ready :
    (db : Database) (t : Task) (d : TaskDependency) (p : Task)
    → unmet_dependencies db t.id ≡ false
    → In d db.dependencies
    → d.task_id ≡ t.id
    → find task_key d.prerequisite_id db.tasks ≡ some p
    → is_merged p.status ≡ true
unfolding unmet_dependencies
met_ready db t d p met place of_task found = elim (Bool-cases (is_merged p.status)) [
  | inl merged ↦ merged
  | inr waits ↦
      let here : is_open (find task_key d.prerequisite_id db.tasks) ≡ true =
        rw found (rw waits refl) in
      let unmet =
        any_of_In (λ d. d.task_id == t.id && is_open (find task_key d.prerequisite_id db.tasks)) d
          db.dependencies place (ground (arith, here, of_task)) in
      absurd (true-false (sym unmet ∙ met))
]
