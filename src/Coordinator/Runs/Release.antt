-- ===== src/Coordinator/Runs/Release.antt =====
-- A claimed run is released, and the events of a superseded one are kept.
use dev_workflow_automation.Common.{
  In, In-map, ℕ, Bool, true, false, not, ◌==◌, Option, none, some, List, String, if◌then◌else◌,
  Result, ok, err, >>=-eq-ok, find, find-amend, ◌≡◌, refl, sym, ◌∙◌, inl, inr, arith, Bool-cases,
  subst, if-err-eq-ok, none-some, some-injective,
}
use dev_workflow_automation.Engineering.Rows.{Task, task_key}
use dev_workflow_automation.Coordinator.Protocol.{Decision}
use dev_workflow_automation.Coordinator.Rows.{
  EventStatus, CoordinatorEvent, CoordinatorRun, Tables, Settings, run_key,
}
use dev_workflow_automation.Coordinator.Runs.{RunError, Claimed, is_claimed, claim}
use dev_workflow_automation.Coordinator.Runs.Decisions.{
  ensure_authorized, complete, complete_row, complete_run, decide_run, decided, fail, fail_row,
  is_current, is_run, requeue, requeue_run_events,
}
use dev_workflow_automation.Coordinator.Runs.Process.{
  Failure, raised, ask_model, conclude, operation, process_one,
}

-- The run of that identifier, if there is one, is not claimed.
abbrev pub IsFree : ℕ → List CoordinatorRun → Type 0
IsFree id runs = (r : CoordinatorRun) → find run_key id runs ≡ some r → is_claimed r.status ≡ false

abbrev pub IsReleased : ℕ → Tables → Type 0
IsReleased id s = IsFree id s.runs

kept : (id : ℕ) (s : Tables) → find run_key id s.runs ≡ none → IsReleased id s
kept id s absent r found = absurd (none-some (sym absent ∙ found))

-- A run that is found and not claimed.
other_status :
    (id : ℕ) (runs : List CoordinatorRun) (r : CoordinatorRun)
    → find run_key id runs ≡ some r
    → is_claimed r.status ≡ false
    → IsFree id runs
other_status id runs r found free x there =
    let same : r ≡ x = some-injective (sym found ∙ there) in
    subst (λ y. is_claimed y.status ≡ false) same free

decided_free :
    (d : Decision) (now : ℕ) (r : CoordinatorRun) → is_claimed (decided d now r).status ≡ false
decided_free d now r = ground arith

fail_row-IsReleased :
    (s : Tables) (id : ℕ) (reason : String) (superseded : Bool) (now : ℕ)
    (o : Option CoordinatorRun)
    → o ≡ find run_key id s.runs
    → IsReleased id (fail_row s reason superseded now o)
fail_row-IsReleased s id reason superseded now none found = kept id s (sym found)
fail_row-IsReleased s id reason superseded now (some r) found =
    elim (Bool-cases (is_claimed r.status)) [
      | inl held ↦ rw held (elim (Bool-cases superseded) [
        | inl again ↦
            rw again
              (other_status id _ _ (find-amend run_key id _ s.runs r (λ x. refl) (sym found)) refl)
        | inr over ↦
            rw over
              (other_status id _ _ (find-amend run_key id _ s.runs r (λ x. refl) (sym found)) refl)
      ])
      | inr free ↦ rw free (other_status id s.runs r (sym found) free)
    ]

ok-injective : {s s' : Tables} → ◌≡◌ {A = Result RunError Tables} (ok s) (ok s') → s ≡ s'
ok-injective h = cc

complete_run-IsReleased :
    (s s' : Tables) (id : ℕ) (r : CoordinatorRun) (d : Decision) (now : ℕ) (t : Option Task)
    → find run_key id s.runs ≡ some r
    → complete_run s r d now t ≡ ok s'
    → IsReleased id s'
complete_run-IsReleased s s' id r d now none found h = cc
complete_run-IsReleased s s' id r d now (some t) found h =
    let (_, done) =
      if-err-eq-ok (not (is_current r t)) RunError.situation_changed (ok (decide_run s r d now))
        h in
    subst (IsReleased id) (ok-injective done) (
      other_status id _ _ (find-amend run_key id (decided d now) s.runs r (λ x. refl) found)
        (decided_free d now r))

complete_row-IsReleased :
    (s s' : Tables) (id task_id : ℕ) (d : Decision) (now : ℕ) (o : Option CoordinatorRun)
    → o ≡ find run_key id s.runs
    → complete_row s task_id d now o ≡ ok s'
    → IsReleased id s'
complete_row-IsReleased s s' id task_id d now none found h =
    subst (IsReleased id) (ok-injective h) (kept id s (sym found))
complete_row-IsReleased s s' id task_id d now (some r) found h =
    elim (Bool-cases (is_claimed r.status)) [
      | inl held ↦
          let (_, goes) =
            if-err-eq-ok (not (r.task_id == task_id)) RunError.identity_changed
              (complete_run s r d now (find task_key task_id s.db.tasks)) (rw held at h) in
          complete_run-IsReleased s s' id r d now _ (sym found) goes
      | inr free ↦
          subst (IsReleased id) (ok-injective (rw free at h))
            (other_status id s.runs r (sym found) free)
    ]

raised-eq-ok : {A : Type 0} (x : Result RunError A) {a : A} → raised x ≡ ok a → x ≡ ok a
raised-eq-ok (err e) h = cc
raised-eq-ok (ok b) h = cc

conclude-IsReleased :
    (s : Tables) (c : Claimed) (now : ℕ) (o : Result Failure Tables)
    → ((done : Tables) → o ≡ ok done → IsReleased c.run_id done)
    → IsReleased c.run_id (conclude s c now o)
unfolding fail
conclude-IsReleased s c now (ok done) released = released done refl
conclude-IsReleased s c now (err f) released =
    fail_row-IsReleased s c.run_id _ _ now (find run_key c.run_id s.runs) refl

operation-IsReleased :
    (model : ℕ → Result Failure Decision) (interrupt : Option Failure) (checked last : Tables)
    (c : Claimed) (now : ℕ) (done : Tables)
    → operation model interrupt checked last c now ≡ ok done
    → IsReleased c.run_id done
unfolding complete
operation-IsReleased model (some f) checked last c now done h = cc
operation-IsReleased model none checked last c now done h =
    let (d, _, h1) = >>=-eq-ok (ask_model model) _ h in
    let (_, _, h2) = >>=-eq-ok (raised (ensure_authorized checked c.run_id)) _ h1 in
    complete_row-IsReleased last done c.run_id c.task_id d now (find run_key c.run_id last.runs)
      refl (raised-eq-ok (complete last c.run_id c.task_id d now) h2)

-- When `process_one` has claimed a run and returns, the run is no longer claimed: whatever the
-- model answers, whether the watcher or the time limit ends the operation first, and whatever other
-- transactions commit meanwhile.
pub process_one_releases :
    (set : Settings) (requirement : Task → Result String String) (skipped : CoordinatorEvent → Bool)
    (locked : ℕ → Bool) (others : ℕ → Tables → Tables) (model : ℕ → Result Failure Decision)
    (interrupt : Option Failure) (s claimed : Tables) (c : Claimed) (now : ℕ)
    → claim set requirement skipped locked s now ≡ (claimed, some c)
    → IsReleased c.run_id
        (process_one set requirement skipped locked others model interrupt s now).0
unfolding process_one
process_one_releases set requirement skipped locked others model interrupt s claimed c now h =
    let checked = others 0 claimed in
    let last = others 1 checked in
    let o = operation model interrupt checked last c now in
    rw h (
      conclude-IsReleased (others 2 last) c now o
        (λ done e. operation-IsReleased model interrupt checked last c now done e))

-- A superseded decision loses no event: each event of a run that is claimed becomes QUEUED, of no
-- run and available at once, and keeps every other column, its content among them.
pub superseded_requeues :
    (s : Tables) (id : ℕ) (reason : String) (now : ℕ) (r : CoordinatorRun) (e : CoordinatorEvent)
    → find run_key id s.runs ≡ some r
    → is_claimed r.status ≡ true
    → In e s.events
    → e.run_id ≡ some r.id
    → In
        (record e { status = EventStatus.queued; run_id = none; available_at = now })
        (fail s id reason true now).events
unfolding fail requeue_run_events
superseded_requeues s id reason now r e found held place of_run =
    let image = In-map (λ x. if is_run x.run_id r.id then requeue now x else x) e s.events place in
    let same : (r.id == r.id) ≡ true = ground arith in rw (found, held) (rw (of_run, same) at image)
