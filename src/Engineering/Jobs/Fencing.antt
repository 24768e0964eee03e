-- ===== src/Engineering/Jobs/Fencing.antt =====
-- What the operations of `SqlPhaseJobs` do to the job rows and their lease tokens.
use Prim.Native.String.{count}
use dev_workflow_automation.Common.{
  ltb, keep, ℕ, Bool, true, not, ◌&&◌, ◌||◌, Option, none, some, List, [], ◌∷◌, ◌++◌, String,
  Result, ok, err, find, store, find-store, find-key, ◌≡◌, refl, sym, ap, subst, inl, inr, arith,
  Bool-cases, Option-cases,
}
use dev_workflow_automation.Engineering.Lifecycle.{Action, EngineeringState, is_reviewing}
use dev_workflow_automation.Engineering.Phases.{phase_action}
use dev_workflow_automation.Engineering.Rows.{
  Task, Job, JobState, ReviewCycle, DeveloperSession, Database, task_key, job_key,
}
use dev_workflow_automation.Engineering.Transitions.{Error, Request, write, record_transition}
use dev_workflow_automation.Engineering.Transitions.Versions.{record_transition-Recorded}
use dev_workflow_automation.Engineering.Jobs.{
  PhaseLease, JobError, is_held, locked, enqueue_phase, new_job,
}
use dev_workflow_automation.Engineering.Jobs.Feedback.{
  recorded, enqueue_next, enqueue_again, then_enqueue, join, block_oversized, hand_over,
  with_native, with_session, no_rows, is_due, latest_session, takes_no_feedback,
  apply_pending_feedback,
}
use dev_workflow_automation.Engineering.Jobs.Completion.{
  Worker, is_published, close_job, after_publication, then_succeed, publish, succeed, perform,
  close_job,
}

-- The rows that a lease holds: its job carries its token and is claimed or running.
pub locked-eq-some :
    (db : Database) (lease : PhaseLease) (t : Task) (j : Job)
    → locked db lease ≡ some (t, j)
    → (find task_key lease.task_id db.tasks ≡ some t)
      × (find job_key lease.job_id db.jobs ≡ some j)
      × (j.lease_token ≡ some lease.token)
      × (is_held j.state ≡ true)
      × (j.task_id ≡ t.id)
unfolding locked
locked-eq-some db lease t j h = ground arith

-- A job with no token is held by no lease.
no_token :
    (db : Database) (lease : PhaseLease) (j : Job)
    → find job_key lease.job_id db.jobs ≡ some j
    → j.lease_token ≡ none
    → locked db lease ≡ none
unfolding locked
no_token db lease j f h = ground arith

-- Every job row of a database stands unchanged in another one.
abbrev pub KeepsJobs : Database → Database → Type 0
KeepsJobs db db' =
    (id : ℕ) (j : Job) → find job_key id db.jobs ≡ some j → find job_key id db'.jobs ≡ some j

find_append :
    (id : ℕ) (rows more : List Job) (j : Job)
    → find job_key id rows ≡ some j
    → find job_key id (rows ++ more) ≡ some j
unfolding find
find_append id [] more j h = cc
find_append id (x ∷ rows) more j h = ground (arith, find_append id rows more j)

enqueue_phase-KeepsJobs :
    (db : Database) (t : Task) (now : ℕ) → KeepsJobs db (enqueue_phase db t now)
unfolding enqueue_phase
enqueue_phase-KeepsJobs db t now id j h = elim (Option-cases (phase_action t.stage)) [
  | inl no_unit ↦ ground arith
  | inr (u, unit) ↦ ground (arith, find_append id db.jobs (new_job db t u now ∷ []) j h)
]

enqueue_next-KeepsJobs : (id now : ℕ) (db : Database) → KeepsJobs db (enqueue_next id now db)
enqueue_next-KeepsJobs id now db = from_row (find task_key id db.tasks)
  where
    from_row : (o : Option Task) → KeepsJobs db (enqueue_again id now db o)
    from_row none k j h = h
    from_row (some t) k j h = enqueue_phase-KeepsJobs db t now k j h

pub recorded-eq-ok :
    (result : Result Error (Database × EngineeringState)) {db : Database}
    → recorded result ≡ ok db
    → (after : EngineeringState) × (result ≡ ok (db, after))
recorded-eq-ok (ok (d, after)) h = (after, ground arith)
recorded-eq-ok (err e) h = cc

pub record_transition-jobs :
    (on : Bool) (db : Database) (id : ℕ) (r : Request) (now : ℕ) {db' : Database}
    → recorded (record_transition on db id r now) ≡ ok db'
    → db'.jobs ≡ db.jobs
unfolding write
record_transition-jobs on db id r now h =
    let (after, e) = recorded-eq-ok _ h in
    ap (λ (d : Database). d.jobs) (record_transition-Recorded on db id r now e).written

pub ok-injective :
    {db db' : Database} → ◌≡◌ {A = Result JobError Database} (ok db) (ok db') → db ≡ db'
ok-injective h = cc

pub of_same_jobs : (db db' : Database) → db'.jobs ≡ db.jobs → KeepsJobs db db'
of_same_jobs db db' same id j h = rw same h

then_enqueue-KeepsJobs :
    (db : Database) (id now : ℕ) (result : Result JobError Database) {db' : Database}
    → ((d : Database) → result ≡ ok d → KeepsJobs db d)
    → then_enqueue id now result ≡ ok db'
    → KeepsJobs db db'
then_enqueue-KeepsJobs db id now (ok d) keeps h =
    λ k j f. ground (arith, enqueue_next-KeepsJobs id now d k j (keeps d refl k j f))
then_enqueue-KeepsJobs db id now (err e) keeps h = cc

module _ (allowed : ReviewCycle → Bool) (on : Bool) (db : Database) (t : Task) (now : ℕ)
    (rows : List ReviewCycle) {db' : Database} where
  hand_over-KeepsJobs :
      (s : DeveloperSession) → hand_over on db t now rows allowed s ≡ ok db' → KeepsJobs db db'
  unfolding hand_over
  hand_over-KeepsJobs s h =
      then_enqueue-KeepsJobs db t.id now _
        (λ d e. of_same_jobs db d (record_transition-jobs on _ t.id _ now e)) h

  with_native-KeepsJobs :
      (s : DeveloperSession) (o : Option String)
      → with_native on db t now rows allowed s o ≡ ok db'
      → KeepsJobs db db'
  unfolding block_oversized
  with_native-KeepsJobs s none h = cc
  with_native-KeepsJobs s (some native) h = elim (Bool-cases (ltb 16000 (count (join rows)))) [
    | inl long ↦ of_same_jobs db db' (record_transition-jobs on db t.id _ now (rw long at h))
    | inr short ↦ hand_over-KeepsJobs s (rw short at h)
  ]

  with_session-KeepsJobs :
      (o : Option DeveloperSession)
      → with_session on db t now rows allowed o ≡ ok db'
      → KeepsJobs db db'
  with_session-KeepsJobs none h = cc
  with_session-KeepsJobs (some s) h = with_native-KeepsJobs s s.native_session_id h

feedback-KeepsJobs :
    (allowed : ReviewCycle → Bool) (on : Bool) (db : Database) (t : Task) (now : ℕ) {db' : Database}
    → apply_pending_feedback allowed on db t now ≡ ok db'
    → KeepsJobs db db'
unfolding apply_pending_feedback
feedback-KeepsJobs allowed on db t now h =
    elim (Bool-cases
      (takes_no_feedback t.status || t.manual_takeover || not (is_reviewing t.stage))) [
        | inl closed ↦ λ k j f. ground arith
        | inr open_ ↦
            elim (Bool-cases
              (no_rows (keep (λ row. is_due t row && allowed row) db.review_cycles))) [
                | inl nothing ↦ λ k j f. ground arith
                | inr some_rows ↦
                    with_session-KeepsJobs allowed on _ t now _ (latest_session t.id db.sessions)
                      (rw some_rows at (rw open_ at h))
              ]
      ]

-- Once a lease is spent its job carries no token.
abbrev pub Spent : Database → PhaseLease → Type 0
Spent db lease = (j : Job) × (find job_key lease.job_id db.jobs ≡ some j) × (j.lease_token ≡ none)

pub Spent-locked : (db : Database) (lease : PhaseLease) → Spent db lease → locked db lease ≡ none
Spent-locked db lease (j, f, e) = no_token db lease j f e

pub KeepsJobs-Spent :
    (db db' : Database) (lease : PhaseLease) → KeepsJobs db db' → Spent db lease → Spent db' lease
KeepsJobs-Spent db db' lease keeps (j, f, e) = (j, keeps _ j f, e)

publish-KeepsJobs :
    (w : Worker) (db : Database) (id now : ℕ) {db' : Database}
    → publish w db id now ≡ ok db'
    → KeepsJobs db db'
unfolding publish after_publication
publish-KeepsJobs w db id now h = from_row (find task_key id db.tasks) h
  where
    from_row :
        (o : Option Task) {db' : Database}
        → after_publication w db id now o ≡ ok db'
        → KeepsJobs db db'
    from_row none {db'} h = of_same_jobs db db' (ap (λ d. d.jobs) (sym (ok-injective h)))
    from_row (some t) h = feedback-KeepsJobs w.allowed w.coordinator_on _ t now h

pub close-Spent :
    (db : Database) (lease : PhaseLease) (j new : Job)
    → find job_key lease.job_id db.jobs ≡ some j
    → new.id ≡ j.id
    → new.lease_token ≡ none
    → Spent (record db { jobs = store job_key new db.jobs }) lease
close-Spent db lease j new f i e =
    let k = find-key job_key lease.job_id db.jobs j f in
    (new, rw (find-store job_key lease.job_id new db.jobs, f) ground arith, e)

module _ (w : Worker) (lease : PhaseLease) (action : Action) (now : ℕ) (t : Task) (j : Job) where
  then_succeed-Spent :
      (before : Database) (result : Result JobError Database) {db : Database}
      → find job_key lease.job_id before.jobs ≡ some j
      → ((d : Database) → result ≡ ok d → d.jobs ≡ before.jobs)
      → then_succeed w t.id j action now result ≡ ok db
      → Spent db lease
  unfolding succeed
  then_succeed-Spent before (err e) f same h = cc
  then_succeed-Spent before (ok d) {db} f same h =
      let closed =
        close-Spent d lease j (record (close_job j JobState.succeeded now) { result = some action })
          (rw (same d refl) f) refl refl in
      elim (Bool-cases (is_published action)) [
        | inl e ↦
            KeepsJobs-Spent (succeed d j action now) db lease
              (publish-KeepsJobs w (succeed d j action now) t.id now (rw e at h)) closed
        | inr e ↦ subst (λ x. Spent x lease) (ok-injective (rw e at h)) closed
      ]

  then_enqueue-Spent :
      (result : Result JobError Database) {db : Database}
      → ((d : Database) → result ≡ ok d → Spent d lease)
      → then_enqueue t.id now result ≡ ok db
      → Spent db lease
  then_enqueue-Spent (err e) spent h = cc
  then_enqueue-Spent (ok d) {db} spent h =
      KeepsJobs-Spent d db lease
        (subst (KeepsJobs d) (ok-injective h) (enqueue_next-KeepsJobs t.id now d)) (spent d refl)

  pub perform-Spent :
      (db : Database) {db' : Database}
      → find job_key lease.job_id db.jobs ≡ some j
      → perform w db lease action now t j ≡ ok db'
      → Spent db' lease
  unfolding perform
  perform-Spent db f h =
      then_enqueue-Spent _
        (λ d e. then_succeed-Spent db _ f (λ d e. record_transition-jobs _ _ _ _ _ e) e) h
