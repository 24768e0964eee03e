-- ===== src/Engineering/Queue/Order.antt =====
-- Which job `claim_next_job` takes.
use dev_workflow_automation.Common.{
  ◌≤◌, first_of-In, some-injective, none-some, keep-In, In-keep, ℕ, and-eq_true, ◌+◌, Bool, true,
  false, Option, none, some, In, String, ◌≡◌, refl, inl, inr, arith, Bool-cases, store, ap,
}
use dev_workflow_automation.Engineering.Rows.{Job, Database, job_key}
use dev_workflow_automation.Engineering.Queue.{
  Slots, is_eligible, last_dispatch, precedes, next_job, claim_row, still_admits, team_for,
  claim_chosen, claim_next_job,
}
use dev_workflow_automation.Engineering.Queue.Eligible.{
  Claimable, is_eligible-Claimable, Claimable-is_eligible,
}

precedes-transitive :
    (db : Database) (a b c : Job)
    → precedes db a b ≡ false
    → precedes db b c ≡ false
    → precedes db a c ≡ false
unfolding precedes
precedes-transitive db a b c h k = ground arith

precedes-asymmetric : (db : Database) (a b : Job) → precedes db a b ≡ true → precedes db b a ≡ false
unfolding precedes
precedes-asymmetric db a b h = ground arith

precedes-irreflexive : (db : Database) (a : Job) → precedes db a a ≡ false
unfolding precedes
precedes-irreflexive db a = ground arith

-- The chosen row meets the query, and no other row that does comes sooner.
pub next_job-eq-some :
    (slots : Slots) (skipped : Job → Bool) (db : Database) (now : ℕ) (j : Job)
    → next_job slots skipped db now ≡ some j
    → In j db.jobs
      × (is_eligible slots db now j ≡ true)
      × ((k : Job)
          → In k db.jobs
          → is_eligible slots db now k ≡ true
          → skipped k ≡ false
          → precedes db k j ≡ false)
unfolding next_job
next_job-eq-some slots skipped db now j h =
    let (place, least) =
      first_of-In (precedes db) (precedes-irreflexive db) (precedes-transitive db)
        (precedes-asymmetric db) _ j h in
    let (row, meets) = keep-In _ j db.jobs place in
    (row, (and-eq_true _ _ meets).0, λ k m e f. least k (In-keep _ k db.jobs m (rw (e, f) refl)))

-- The first job is served no later than the second: by priority, then by the last dispatch of its
-- Team, then by age.
pub record ComesFirst (db : Database) (j k : Job) : Type 0 where
  pub by_priority : j.priority ≤ k.priority
  pub by_dispatch : j.priority ≡ k.priority → last_dispatch db j ≤ last_dispatch db k
  pub by_age :
      j.priority ≡ k.priority
      → last_dispatch db j ≡ last_dispatch db k
      → j.created_at ≤ k.created_at

precedes-ComesFirst : (db : Database) (j k : Job) → precedes db k j ≡ false → ComesFirst db j k
unfolding precedes
precedes-ComesFirst db j k h = record {
  by_priority = ground arith;
  by_dispatch = λ same. ground arith;
  by_age = λ same dispatched. ground arith;
}

-- The job that `claim_next_job` takes was a row that may be claimed: it waits and is not put off,
-- its task may be worked on, has no other job that is held and waits for no prerequisite, its Team
-- runs and has room, and the shared bounds leave room. Of all rows that may be claimed and are not
-- locked, it has the smallest priority; among those of its priority, a Team that was dispatched
-- earliest; and among those, the earliest creation.
pub next_job_is_first :
    (slots : Slots) (skipped : Job → Bool) (db : Database) (now : ℕ) (j : Job)
    → next_job slots skipped db now ≡ some j
    → In j db.jobs
      × Claimable slots db now j
      × ((k : Job)
          → In k db.jobs
          → Claimable slots db now k
          → skipped k ≡ false
          → ComesFirst db j k)
next_job_is_first slots skipped db now j h =
    let (row, meets, least) = next_job-eq-some slots skipped db now j h in
    (
      row,
      is_eligible-Claimable slots db now j meets,
      λ k place c free.
          precedes-ComesFirst db j k (least k place (Claimable-is_eligible slots db now k c) free),
    )

claim_chosen-eq-some :
    (db : Database) (worker : String) (seconds now : ℕ) (db' : Database) (claimed : Job)
    (o : Option Job)
    → claim_chosen db worker seconds now o ≡ (db', some claimed)
    → (j : Job) × (o ≡ some j)
      × (still_admits db j (team_for db j) ≡ true)
      × (claim_row db j worker seconds now ≡ claimed)
      × (record db {
        jobs = store job_key (claim_row db j worker seconds now) db.jobs;
        next_id = db.next_id + 1;
      }
          ≡ db')
claim_chosen-eq-some db worker seconds now db' claimed none h = absurd (none-some (ap (λ r. r.1) h))
claim_chosen-eq-some db worker seconds now db' claimed (some j) h =
    elim (Bool-cases (still_admits db j (team_for db j))) [
      | inl admits ↦
          let e = rw (admits, claim_chosen) at h in
          (j, refl, admits, some-injective (ap (λ r. r.1) e), ap (λ r. r.0) e)
      | inr refused ↦ absurd (none-some (ap (λ r. r.1) (rw (refused, claim_chosen) at h)))
    ]

-- A call of `claim_next_job` that gives a job has taken a row of the queue and stored it claimed.
pub claim_next_job-eq-some :
    (slots : Slots) (skipped : Job → Bool) (db : Database) (worker : String) (seconds now : ℕ)
    (db' : Database) (claimed : Job)
    → claim_next_job slots skipped db worker seconds now ≡ (db', some claimed)
    → (j : Job) × (next_job slots skipped db now ≡ some j)
      × (still_admits db j (team_for db j) ≡ true)
      × (claim_row db j worker seconds now ≡ claimed)
      × (record db {
        jobs = store job_key (claim_row db j worker seconds now) db.jobs;
        next_id = db.next_id + 1;
      }
          ≡ db')
unfolding claim_next_job
claim_next_job-eq-some slots skipped db worker seconds now db' claimed h =
    claim_chosen-eq-some db worker seconds now db' claimed (next_job slots skipped db now) h
