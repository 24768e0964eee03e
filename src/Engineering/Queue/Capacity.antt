-- ===== src/Engineering/Queue/Capacity.antt =====
-- The capacity that a claim keeps: a Team's concurrent tasks, and the slots all Teams share.
use dev_workflow_automation.Common.{
  ℕ, ◌+◌, ◌==◌, ◌≤◌, Bool, true, false, ◌&&◌, some, List, any, String, ◌≡◌, ◌∙◌, refl, sym, subst,
  arith, store, ap, count_where_one, count_where-store-le, any-store, Distinct,
}
use dev_workflow_automation.Engineering.Phases.{PhaseAction}
use dev_workflow_automation.Engineering.Rows.{Job, Team, Database, task_key, job_key}
use dev_workflow_automation.Engineering.Jobs.{is_held, is_value}
use dev_workflow_automation.Engineering.Queue.{
  Slots, takes_slot, is_validation, is_busy, occupied, running_count, within_limit, team_for,
  claim_row, claim_next_job, still_admits,
}
use dev_workflow_automation.Engineering.Queue.Order.{claim_next_job-eq-some}
use dev_workflow_automation.Engineering.Queue.Exclusion.{claimed_facts}

not_its :
    (id : ℕ) (new : Job) (a b : Bool)
    → (id == new.task_id) ≡ false
    → (new.task_id == id && a && b) ≡ false
not_its id new a b away = let e : (new.task_id == id) ≡ false = ground arith in rw e refl

-- Storing a row of one task leaves the other tasks as busy as before.
busy_elsewhere :
    (id : ℕ) (new : Job) (jobs : List Job)
    → (id == new.task_id) ≡ false
    → any (λ j. j.task_id == id && is_held j.state && takes_slot j.action) (store job_key new jobs)
      ≡ true
    → any (λ j. j.task_id == id && is_held j.state && takes_slot j.action) jobs ≡ true
busy_elsewhere id new jobs away h =
    any-store job_key (λ j. j.task_id == id && is_held j.state && takes_slot j.action) new jobs
      (not_its id new _ _ away) h

and_kept : (a b c : Bool) → (a && b) ≡ true → (b ≡ true → c ≡ true) → (a && c) ≡ true
and_kept true b c h kept = kept h
and_kept false b c h kept = h

-- A claimed job takes at most one more slot of a Team.
occupied_one :
    (db : Database) (new : Job) (n team : ℕ)
    → Distinct task_key db.tasks
    → occupied (record db { jobs = store job_key new db.jobs; next_id = n }) team
      ≤ 1 + occupied db team
unfolding occupied
occupied_one db new n team d =
    count_where_one task_key new.task_id (λ t. is_value t.team_id team && is_busy db t.id)
      (λ t.
        is_value t.team_id team
        && is_busy (record db { jobs = store job_key new db.jobs; next_id = n }) t.id)
      (λ t away h. and_kept _ _ _ h (busy_elsewhere t.id new db.jobs away)) db.tasks d

-- After a claim for a slot, the Team of the claimed job has no more tasks in its slots than its
-- `max_concurrent_tasks`, if the identifiers of the tasks are distinct.
pub claim_within_team :
    (slots : Slots) (skipped : Job → Bool) (db : Database) (worker : String) (seconds now : ℕ)
    (db' : Database) (claimed : Job) (team : Team)
    → Distinct task_key db.tasks
    → claim_next_job slots skipped db worker seconds now ≡ (db', some claimed)
    → team_for db claimed ≡ some team
    → takes_slot claimed.action ≡ true
    → occupied db' team.id ≤ team.max_concurrent_tasks
claim_within_team slots skipped db worker seconds now db' claimed team d h of slot =
    let (j, chosen, admits, row, left) =
      claim_next_job-eq-some slots skipped db worker seconds now db' claimed h in
    let one = occupied_one db (claim_row db j worker seconds now) (db.next_id + 1) team.id d in
    let at_j : team_for db j ≡ some team = subst (λ k. team_for db k ≡ some team) (sym row) of in
    let slot_j : takes_slot j.action ≡ true = ap (λ k. takes_slot k.action) row ∙ slot in
    let free : still_admits db j (some team) ≡ true =
      subst (λ o. still_admits db j o ≡ true) at_j admits in
    subst (λ x. occupied x team.id ≤ team.max_concurrent_tasks) left (ground (arith, one))

running_one :
    (p : PhaseAction → Bool) (db : Database) (new : Job) (n : ℕ)
    → Distinct job_key db.jobs
    → running_count p (record db { jobs = store job_key new db.jobs; next_id = n })
      ≤ 1 + running_count p db
unfolding running_count
running_one p db new n d =
    count_where-store-le job_key (λ j. is_held j.state && p j.action) new db.jobs d

limit_kept :
    (p : PhaseAction → Bool) (capacity : ℕ) (db : Database) (new j : Job) (n : ℕ)
    → Distinct job_key db.jobs
    → within_limit p (some capacity) db j ≡ true
    → p j.action ≡ true
    → running_count p (record db { jobs = store job_key new db.jobs; next_id = n }) ≤ capacity
limit_kept p capacity db new j n d within slot =
    let one = running_one p db new n d in ground (arith, one)

-- After a claim for a slot, no more jobs are held for the actions of that slot than the bound that
-- all controllers share, for the developers' slots and for the validation's, if the identifiers of
-- the jobs are distinct.
pub claim_within_slots :
    (slots : Slots) (skipped : Job → Bool) (db : Database) (worker : String) (seconds now : ℕ)
    (db' : Database) (claimed : Job) (capacity : ℕ)
    → Distinct job_key db.jobs
    → claim_next_job slots skipped db worker seconds now ≡ (db', some claimed)
    → (slots.global_developer_slots ≡ some capacity
        → takes_slot claimed.action ≡ true
        → running_count takes_slot db' ≤ capacity)
      × (slots.validation_slots ≡ some capacity
          → is_validation claimed.action ≡ true
          → running_count is_validation db' ≤ capacity)
claim_within_slots slots skipped db worker seconds now db' claimed capacity d h =
    let (j, chosen, _, row, left) =
      claim_next_job-eq-some slots skipped db worker seconds now db' claimed h in
    let (_, _, _, _, _, developers, validation) = claimed_facts slots skipped db now j chosen in
    let new = claim_row db j worker seconds now in
    (
      λ e a.
          subst (λ x. running_count takes_slot x ≤ capacity) left
            (limit_kept takes_slot capacity db new j _ d
              (subst (λ o. within_limit takes_slot o db j ≡ true) e developers)
              (ap (λ k. takes_slot k.action) row ∙ a)),
      λ e a.
          subst (λ x. running_count is_validation x ≤ capacity) left
            (limit_kept is_validation capacity db new j _ d
              (subst (λ o. within_limit is_validation o db j ≡ true) e validation)
              (ap (λ k. is_validation k.action) row ∙ a)),
    )
