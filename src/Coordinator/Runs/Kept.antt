-- ===== src/Coordinator/Runs/Kept.antt =====
-- The claim and the completion of a run keep the invariant of the runs.
use dev_workflow_automation.Common.{
  ℕ, ◌==◌, Bool, true, false, not, ◌||◌, Option, none, some, List, ◌∷◌, In, String, find, find-In,
  In-find, amend, amend-In, find_absent, Result, ok, err, ◌≡◌, refl, sym, ◌∙◌, inl, inr, arith,
  Bool-cases, subst, ap, true-false, if-err-eq-ok, some-injective,
}
use dev_workflow_automation.Engineering.Rows.{Task, task_key}
use dev_workflow_automation.Coordinator.Protocol.{Decision}
use dev_workflow_automation.Coordinator.Rows.{
  CoordinatorEvent, CoordinatorRun, RunStatus, Tables, Settings, is_active, is_running, run_key,
}
use dev_workflow_automation.Coordinator.Runs.{
  RunError, is_claimed, is_live, has_live, claim_event, claim_task, claim_latest, start_run,
  batch_of,
}
use dev_workflow_automation.Coordinator.Runs.Decisions.{
  complete_row, complete_run, decide_run, decided, new_action, is_current,
}
use dev_workflow_automation.Coordinator.Runs.Serial.{
  IsSerial, action_run, amended-IsSerial, bumped-IsSerial, action-IsSerial, run-IsSerial,
}

-- A decided run is not claimed.
decided-not_claimed :
    (d : Decision) (now : ℕ) (r : CoordinatorRun) → is_claimed (decided d now r).status ≡ false
decided-not_claimed d now r = ground arith

claimed-live : (x : RunStatus) → is_claimed x ≡ true → is_live x ≡ true
claimed-live x h = ground arith

module _ (s : Tables) (r : CoordinatorRun) (d : Decision) (now : ℕ) (serial : IsSerial s)
    (place : In r s.runs) (held : is_claimed r.status ≡ true) where
  -- The run of that identifier is this one.
  only_row : (x : CoordinatorRun) → In x s.runs → x.id ≡ r.id → x ≡ r
  only_row x there same =
      let mine = In-find run_key s.runs r serial.runs_distinct place in
      let other =
        subst (λ k. find run_key k s.runs ≡ some x) same
          (In-find run_key s.runs x serial.runs_distinct there) in
      some-injective (sym other ∙ mine)

  abbrev with_decision : Tables
  with_decision = record s { runs = amend run_key r.id (decided d now) s.runs }

  with_decision-IsSerial : IsSerial with_decision
  with_decision-IsSerial =
      amended-IsSerial s with_decision r.id (decided d now) refl refl refl (λ x. refl) (λ x. refl)
        (λ x m same h.
          subst (λ y. is_live y.status ≡ true) (sym (only_row x m same))
            (claimed-live r.status held))
        (decided-not_claimed d now) serial

  no_action : find action_run r.id s.actions ≡ none
  no_action =
      find_absent action_run r.id s.actions
        (λ a m e. true-false (sym held ∙ serial.actions_decided a r m place (sym e)))

  runs_decided :
      (x : CoordinatorRun) → In x with_decision.runs → x.id ≡ r.id → is_claimed x.status ≡ false
  runs_decided x there same =
      let (old, _, shape) = amend-In run_key r.id (decided d now) s.runs x there in
      elim (Bool-cases (old.id == r.id)) [
        | inl here ↦
            let e : x ≡ decided d now old = rw here at shape in
            subst (λ y. is_claimed y.status ≡ false) (sym e) (decided-not_claimed d now old)
        | inr away ↦
            let e : x ≡ old = rw away at shape in
            let id : old.id ≡ r.id = sym (ap run_key e) ∙ same in ground (arith, id, away)
      ]

  decide_run-IsSerial : IsSerial (decide_run s r d now)
  decide_run-IsSerial = elim (Bool-cases (is_active r.mode)) [
    | inl acts ↦ rw acts (
        bumped-IsSerial (record with_decision { actions = new_action s r d now ∷ s.actions }) _
          (action-IsSerial with_decision (new_action s r d now) (serial.runs_given r place)
            no_action runs_decided with_decision-IsSerial))
    | inr idle ↦ rw idle (bumped-IsSerial with_decision _ with_decision-IsSerial)
  ]

ok-injective : {s s' : Tables} → ◌≡◌ {A = Result RunError Tables} (ok s) (ok s') → s ≡ s'
ok-injective h = cc

complete_run-IsSerial :
    (s s' : Tables) (r : CoordinatorRun) (d : Decision) (now : ℕ) (t : Option Task)
    → IsSerial s
    → In r s.runs
    → is_claimed r.status ≡ true
    → complete_run s r d now t ≡ ok s'
    → IsSerial s'
complete_run-IsSerial s s' r d now none serial place held h = cc
complete_run-IsSerial s s' r d now (some t) serial place held h =
    let (_, done) =
      if-err-eq-ok (not (is_current r t)) RunError.situation_changed (ok (decide_run s r d now))
        h in
    subst IsSerial (ok-injective done) (decide_run-IsSerial s r d now serial place held)

pub complete_row-IsSerial :
    (s s' : Tables) (run_id task_id : ℕ) (d : Decision) (now : ℕ) (o : Option CoordinatorRun)
    → IsSerial s
    → o ≡ find run_key run_id s.runs
    → complete_row s task_id d now o ≡ ok s'
    → IsSerial s'
complete_row-IsSerial s s' run_id task_id d now none serial found h =
    subst IsSerial (ok-injective h) serial
complete_row-IsSerial s s' run_id task_id d now (some r) serial found h =
    let place = find-In run_key run_id s.runs r (sym found) in
    elim (Bool-cases (is_claimed r.status)) [
      | inl held ↦
          let (_, goes) =
            if-err-eq-ok (not (r.task_id == task_id)) RunError.identity_changed
              (complete_run s r d now (find task_key task_id s.db.tasks)) (rw held at h) in
          complete_run-IsSerial s s' r d now _ serial place held goes
      | inr free ↦ subst IsSerial (ok-injective (rw free at h)) serial
    ]

events-IsSerial :
    (s : Tables) (events : List CoordinatorEvent)
    → IsSerial s
    → IsSerial (record s { events = events })
events-IsSerial s events i = record {
  runs_distinct = i.runs_distinct;
  runs_given = i.runs_given;
  one_live = i.one_live;
  actions_distinct = i.actions_distinct;
  actions_given = i.actions_given;
  actions_decided = i.actions_decided;
}

start_run-IsSerial :
    (set : Settings) (s : Tables) (t : Task) (batch : List CoordinatorEvent) (e : CoordinatorEvent)
    (now : ℕ) (required : Result String String)
    → has_live s t.id ≡ false
    → IsSerial s
    → IsSerial (start_run set s t batch e now required).0
start_run-IsSerial set s t batch e now (err text) free serial =
    events-IsSerial _ _ (run-IsSerial s _ refl free serial)
start_run-IsSerial set s t batch e now (ok requirement) free serial =
    events-IsSerial _ _ (run-IsSerial s _ refl free serial)

claim_latest-IsSerial :
    (set : Settings) (requirement : Task → Result String String) (s : Tables) (t : Task)
    (batch : List CoordinatorEvent) (now : ℕ) (o : Option CoordinatorEvent)
    → has_live s t.id ≡ false
    → IsSerial s
    → IsSerial (claim_latest set requirement s t batch now o).0
claim_latest-IsSerial set requirement s t batch now none free serial = events-IsSerial s _ serial
claim_latest-IsSerial set requirement s t batch now (some e) free serial =
    start_run-IsSerial set s t batch e now (requirement t) free serial

claim_task-IsSerial :
    (set : Settings) (requirement : Task → Result String String) (skipped : CoordinatorEvent → Bool)
    (s : Tables) (e : CoordinatorEvent) (now : ℕ) (t : Option Task)
    → IsSerial s
    → IsSerial (claim_task set requirement skipped s e now t).0
claim_task-IsSerial set requirement skipped s e now none serial = serial
claim_task-IsSerial set requirement skipped s e now (some t) serial =
    elim (Bool-cases (has_live s t.id)) [
      | inl busy ↦ rw busy serial
      | inr free ↦ rw free (elim (Bool-cases (not (is_running s.db t) || t.manual_takeover)) [
        | inl closed ↦ rw closed (events-IsSerial s _ serial)
        | inr works ↦ rw works (
            claim_latest-IsSerial set requirement s t (batch_of skipped s t.id now) now _ free
              serial)
      ])
    ]

pub claim_event-IsSerial :
    (set : Settings) (requirement : Task → Result String String) (skipped : CoordinatorEvent → Bool)
    (locked : ℕ → Bool) (s : Tables) (now : ℕ) (o : Option CoordinatorEvent)
    → IsSerial s
    → IsSerial (claim_event set requirement skipped locked s now o).0
claim_event-IsSerial set requirement skipped locked s now none serial = serial
claim_event-IsSerial set requirement skipped locked s now (some e) serial =
    elim (Bool-cases (locked e.task_id)) [
      | inl held ↦ rw held serial
      | inr free ↦ rw free (claim_task-IsSerial set requirement skipped s e now _ serial)
    ]
