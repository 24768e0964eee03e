-- ===== src/Engineering/Queue/Exclusion.antt =====
-- What the conditions of `claim_next_job` keep apart: one held job to a task, merged prerequisites.
use dev_workflow_automation.Common.{
  true-false, ℕ, ◌==◌, Bool, true, false, not, ◌&&◌, Option, none, some, List, [], ◌∷◌, In,
  any_of_In, String, ◌≡◌, ◌∙◌, refl, sym, inl, inr, ◌⊎◌, subst, arith, Bool-cases, find, store, ap,
}
use dev_workflow_automation.Engineering.Lifecycle.{is_merged}
use dev_workflow_automation.Engineering.Rows.{
  Task, Job, Team, TaskDependency, Database, task_key, job_key,
}
use dev_workflow_automation.Engineering.Jobs.{is_held, is_runnable}
use dev_workflow_automation.Engineering.Queue.{
  Slots, takes_slot, is_validation, already_running, unmet_dependencies, within_limit, is_eligible,
  is_eligible_rows, task_of, team_for, claim_next_job, is_admitted, is_open, next_job,
}
use dev_workflow_automation.Engineering.Queue.Order.{next_job-eq-some, claim_next_job-eq-some}

eligible_rows :
    (slots : Slots) (db : Database) (now : ℕ) (j : Job) (ot : Option Task) (om : Option Team)
    → is_eligible_rows slots db now j ot om ≡ true
    → (t : Task) × (ot ≡ some t)
      × (is_admitted t ≡ true)
      × (already_running db j ≡ false)
      × (unmet_dependencies db t.id ≡ false)
      × (within_limit takes_slot slots.global_developer_slots db j ≡ true)
      × (within_limit is_validation slots.validation_slots db j ≡ true)
eligible_rows slots db now j none none h = cc
eligible_rows slots db now j none (some m) h = cc
eligible_rows slots db now j (some t) none h = cc
eligible_rows slots db now j (some t) (some m) h =
    (t, refl, ground arith, ground arith, ground arith, ground arith, ground arith)

-- What holds of the job and its task when a claim is made.
pub claimed_facts :
    (slots : Slots) (skipped : Job → Bool) (db : Database) (now : ℕ) (j : Job)
    → next_job slots skipped db now ≡ some j
    → (t : Task) × (task_of db j ≡ some t)
      × (is_admitted t ≡ true)
      × (already_running db j ≡ false)
      × (unmet_dependencies db t.id ≡ false)
      × (within_limit takes_slot slots.global_developer_slots db j ≡ true)
      × (within_limit is_validation slots.validation_slots db j ≡ true)
unfolding is_eligible
claimed_facts slots skipped db now j h =
    let (row, meets, _) = next_job-eq-some slots skipped db now j h in
    eligible_rows slots db now j (task_of db j) (team_for db j) meets

In-store :
    (new k : Job) (jobs : List Job)
    → In k (store job_key new jobs)
    → (k ≡ new) ⊎ (In k jobs × ((k.id == new.id) ≡ false))
unfolding store
In-store new k [] m = absurd m
In-store new k (j ∷ jobs) (inl e) = elim (Bool-cases (j.id == new.id)) [
  | inl same ↦ inl (ground arith)
  | inr other ↦ inr (inl (ground arith), ground arith)
]
In-store new k (j ∷ jobs) (inr m) = elim (In-store new k jobs m) [
  | inl e ↦ inl e
  | inr (place, other) ↦ inr (inr place, other)
]

-- A held job of the claimed job's task is the row that `already_running` looks for.
alone_test :
    (j k : Job)
    → k.task_id ≡ j.task_id
    → (k.id == j.id) ≡ false
    → is_held k.state ≡ true
    → (k.task_id == j.task_id && not (k.id == j.id) && is_held k.state) ≡ true
alone_test j k task other held = ground arith

-- After a claim, the claimed row is the only held job of its task.
pub claim_excludes :
    (slots : Slots) (skipped : Job → Bool) (db : Database) (worker : String) (seconds now : ℕ)
    (db' : Database) (claimed k : Job)
    → claim_next_job slots skipped db worker seconds now ≡ (db', some claimed)
    → In k db'.jobs
    → k.task_id ≡ claimed.task_id
    → is_held k.state ≡ true
    → k ≡ claimed
unfolding already_running
claim_excludes slots skipped db worker seconds now db' claimed k h m same held =
    let (j, chosen, _, row, left) =
      claim_next_job-eq-some slots skipped db worker seconds now db' claimed h in
    let (_, _, _, alone, _, _, _) = claimed_facts slots skipped db now j chosen in
    elim (In-store _ k db.jobs (subst (λ d. In k d.jobs) (sym left) m)) [
      | inl e ↦ e ∙ row
      | inr (place, other) ↦
          let found =
            any_of_In (λ i. i.task_id == j.task_id && not (i.id == j.id) && is_held i.state) k
              db.jobs place (alone_test j k (same ∙ ap (λ i. i.task_id) (sym row)) other held) in
          absurd (true-false (sym found ∙ alone))
    ]

prerequisite_merged :
    (db : Database) (t : Task) (d : TaskDependency) (p : Task) {b : Bool}
    → d.task_id ≡ t.id
    → find task_key d.prerequisite_id db.tasks ≡ some p
    → ((d.task_id == t.id && is_open (find task_key d.prerequisite_id db.tasks)) ≡ true → b ≡ true)
    → b ≡ false
    → is_merged p.status ≡ true
prerequisite_merged db t d p e f counted met = elim (Bool-cases (is_merged p.status)) [
  | inl merged ↦ merged
  | inr waits ↦ absurd (true-false (sym (counted (rw (f, waits) ground arith)) ∙ met))
]

-- A claim is made only for an admitted task: it is new or active, nobody has taken it over, it is
-- not archived, and each prerequisite that has a row is merged.
pub claim_respects_dependencies :
    (slots : Slots) (skipped : Job → Bool) (db : Database) (worker : String) (seconds now : ℕ)
    (db' : Database) (claimed : Job)
    → claim_next_job slots skipped db worker seconds now ≡ (db', some claimed)
    → (t : Task) × (find task_key claimed.task_id db.tasks ≡ some t)
      × (is_runnable t.status ≡ true)
      × (t.manual_takeover ≡ false)
      × (t.archived_at ≡ none)
      × ((d : TaskDependency) (p : Task)
          → In d db.dependencies
          → d.task_id ≡ t.id
          → find task_key d.prerequisite_id db.tasks ≡ some p
          → is_merged p.status ≡ true)
unfolding unmet_dependencies
claim_respects_dependencies slots skipped db worker seconds now db' claimed h =
    let (j, chosen, _, row, _) =
      claim_next_job-eq-some slots skipped db worker seconds now db' claimed h in
    let (t, found, admits, _, met, _, _) = claimed_facts slots skipped db now j chosen in
    (
      t,
      subst (λ k. find task_key k.task_id db.tasks ≡ some t) row found,
      ground arith,
      ground arith,
      ground arith,
      λ d p i e f.
          prerequisite_merged db t d p e f
            (any_of_In
              (λ d. d.task_id == t.id && is_open (find task_key d.prerequisite_id db.tasks)) d
              db.dependencies i)
            met,
    )
