-- ===== src/Coordinator/Actions/Progress.antt =====
-- Each turn of the loop that finds an action decides it.
use dev_workflow_automation.Common.{
  true-false, ℕ, ◌==◌, Bool, true, if◌then◌else◌, Option, none, some, List, In, find, amend,
  amend-In, Result, ok, err, ◌≡◌, ◌⊎◌, refl, sym, ◌∙◌, inl, inr, arith, Bool-cases, subst, ap,
}
use dev_workflow_automation.Engineering.Rows.{Task, task_key}
use dev_workflow_automation.Coordinator.Protocol.{
  Directive, Decision, DeliveryStatus, delivery_status, outbound_message,
}
use dev_workflow_automation.Coordinator.Rows.{
  CoordinatorAction, ActionStatus, Tables, Settings, action_key,
}
use dev_workflow_automation.Coordinator.Guards.{Refusal, ApplyError, Effects}
use dev_workflow_automation.Coordinator.Actions.{
  effected, status_of, record_effect, is_executable, settle, supersede, apply_task, execute_one,
  with_error, with_status, refreshed,
}
use dev_workflow_automation.Coordinator.Actions.Outcomes.{
  Executed, Ending, overtaken, executed, settled, execute_one-Ending,
}
use dev_workflow_automation.Coordinator.Actions.Decided.{
  RowsAre, speaks, HasMoved, Answers, IsDecided, moved, to_deliver, quiet, informed, waits, refused,
  moved-HasMoved, current-stays,
}

amend-RowsAre :
    (status : ActionStatus) (id : ℕ) (f : CoordinatorAction → CoordinatorAction)
    (rows : List CoordinatorAction)
    → ((x : CoordinatorAction) → (f x).status ≡ status)
    → (b : CoordinatorAction) → In b (amend action_key id f rows)
    → b.id ≡ id
    → b.status ≡ status
amend-RowsAre status id f rows decides b place same =
    let (old, _, shape) = amend-In action_key id f rows b place in
    elim (Bool-cases (old.id == id)) [
      | inl here ↦ let e : b ≡ f old = rw here at shape in ap (λ y. y.status) e ∙ decides old
      | inr away ↦
          let e : b ≡ old = rw away at shape in
          let id' : old.id ≡ id = sym (ap action_key e) ∙ same in ground (arith, id', away)
    ]

-- What a decision sends, by its status.
speaks-delivery_status :
    (d : Decision) (x : Directive)
    → d.action ≡ x
    → delivery_status d
      ≡ (if speaks d then DeliveryStatus.delivery_pending else DeliveryStatus.executed)
unfolding delivery_status outbound_message
speaks-delivery_status d Directive.wait e = rw e refl
speaks-delivery_status d Directive.reply e = rw e (ground arith)
speaks-delivery_status d Directive.request_review e = rw e (ground arith)
speaks-delivery_status d Directive.update_summary e = rw e (ground arith)
speaks-delivery_status d Directive.sync_status e = rw e (ground arith)
speaks-delivery_status d Directive.request_validation e = rw e (ground arith)
speaks-delivery_status d Directive.ask_human e = rw e (ground arith)
speaks-delivery_status d Directive.implement e = rw e (ground arith)
speaks-delivery_status d Directive.repair e = rw e (ground arith)
speaks-delivery_status d Directive.pause e = rw e (ground arith)
speaks-delivery_status d Directive.cancel e = rw e (ground arith)

Executed-RowsAre :
    (set : Settings) (fx : Effects) (s : Tables) (a : CoordinatorAction) (now : ℕ) (after : Tables)
    → Executed set fx s a now after
    → RowsAre (status_of (delivery_status a.decision)) a.id after
unfolding record_effect
Executed-RowsAre set fx s a now after x =
    subst (RowsAre (status_of (delivery_status a.decision)) a.id) (sym x.recorded) (
      amend-RowsAre (status_of (delivery_status a.decision)) a.id
        (effected x.event (refreshed x.changed x.task) a.decision) x.changed.actions (λ y. refl))

answered :
    (set : Settings) (fx : Effects) (s : Tables) (a : CoordinatorAction) (now : ℕ) (o : Option Task)
    {result : Result ApplyError Tables}
    → find task_key a.task_id s.db.tasks ≡ o
    → apply_task set fx s a now o ≡ result
    → ((o ≡ none) × (result ≡ err (ApplyError.refused Refusal.no_task)))
      ⊎ Answers set fx s a now result
answered set fx s a now none found h = inl (refl, sym h)
answered set fx s a now (some t) found h = inr (t, found, h)

executed-IsDecided :
    (set : Settings) (fx : Effects) (s : Tables) (a : CoordinatorAction) (now : ℕ) (after : Tables)
    → Answers set fx s a now (ok after)
    → Executed set fx s a now after
    → IsDecided set fx s a now after
executed-IsDecided set fx s a now after answer x =
    let rows = Executed-RowsAre set fx s a now after x in
    let status = speaks-delivery_status a.decision a.decision.action refl in
    elim (Bool-cases (speaks a.decision)) [
      | inl speaking ↦ to_deliver answer speaking (rw (status, speaking) at rows)
      | inr silent ↦ quiet answer silent (rw (status, silent) at rows)
    ]

settled-IsDecided :
    (set : Settings) (fx : Effects) (s : Tables) (a : CoordinatorAction) (now : ℕ) (x : ApplyError)
    → apply_task set fx s a now (find task_key a.task_id s.db.tasks) ≡ err x
    → IsDecided set fx s a now (settle s a now (err x))
settled-IsDecided set fx s a now ApplyError.new_information h =
    elim (answered set fx s a now (find task_key a.task_id s.db.tasks) refl h) [
      | inl (_, other) ↦ cc
      | inr answer ↦ informed answer (
          amend-RowsAre ActionStatus.superseded a.id (with_error ActionStatus.superseded _)
            s.actions (λ y. refl))
    ]
settled-IsDecided set fx s a now ApplyError.engineering_busy h =
    elim (answered set fx s a now (find task_key a.task_id s.db.tasks) refl h) [
      | inl (_, other) ↦ cc
      | inr answer ↦ waits answer (
          amend-RowsAre ActionStatus.waiting_engineer a.id
            (with_error ActionStatus.waiting_engineer _) s.actions (λ y. refl))
    ]
settled-IsDecided set fx s a now (ApplyError.refused r) h =
    let rows =
      amend-RowsAre ActionStatus.rejected a.id (with_error ActionStatus.rejected _) s.actions
        (λ y. refl) in
    elim (answered set fx s a now (find task_key a.task_id s.db.tasks) refl h) [
      | inl (absent, _) ↦ refused (inl absent) rows
      | inr answer ↦ refused (inr (r, answer)) rows
    ]

superseded-RowsAre :
    (s : Tables) (a : CoordinatorAction) (now : ℕ)
    → RowsAre ActionStatus.superseded a.id (supersede s a now)
superseded-RowsAre s a now =
    amend-RowsAre ActionStatus.superseded a.id (with_status ActionStatus.superseded) s.actions
      (λ x. refl)

Ending-IsDecided :
    (set : Settings) (fx : Effects) (s : Tables) (a : CoordinatorAction) (now : ℕ) (after : Tables)
    → Ending set fx s a now after
    → IsDecided set fx s a now after × (HasMoved s a → RowsAre ActionStatus.superseded a.id after)
Ending-IsDecided set fx s a now after (overtaken changed e) =
    let rows = subst (RowsAre ActionStatus.superseded a.id) (sym e) (superseded-RowsAre s a now) in
    (moved (moved-HasMoved s a _ _ refl refl changed) rows, λ m. rows)
Ending-IsDecided set fx s a now after (executed current answer x) = (
  elim (answered set fx s a now (find task_key a.task_id s.db.tasks) refl answer) [
    | inl (_, other) ↦ cc
    | inr answer' ↦ executed-IsDecided set fx s a now after answer' x
  ],
  λ m. absurd (current-stays s a current m),
)
Ending-IsDecided set fx s a now after (settled current x failed e) = (
  subst (IsDecided set fx s a now) (sym e) (settled-IsDecided set fx s a now x failed),
  λ m. absurd (current-stays s a current m),
)

-- When `execute_one` reports that it handled an action, that action was due, and its rows are left
-- in one status: SUPERSEDED when the task has moved on from the versions of the run or new
-- information arrived, WAITING_ENGINEER when the Developer is busy, REJECTED when the task is gone
-- or the action is refused, and else DELIVERY_PENDING or EXECUTED, as the decision sends something
-- or not. This holds whatever the effects of the rest of the program do.
pub handled-IsDecided :
    (set : Settings) (fx : Effects) (infers : ℕ → Bool) (skipped : CoordinatorAction → Bool)
    (s : Tables) (now : ℕ)
    → (execute_one set fx infers skipped s now).1 ≡ true
    → (a : CoordinatorAction) × In a s.actions
      × (is_executable infers s a ≡ true)
      × IsDecided set fx s a now (execute_one set fx infers skipped s now).0
      × (HasMoved s a
          → RowsAre ActionStatus.superseded a.id (execute_one set fx infers skipped s now).0)
handled-IsDecided set fx infers skipped s now h =
    elim (execute_one-Ending set fx infers skipped s now) [
      | inl idle ↦ absurd (true-false (sym h ∙ ap (λ x. x.1) idle))
      | inr (a, place, due, ending) ↦
          let (decided, superseded) =
            Ending-IsDecided set fx s a now (execute_one set fx infers skipped s now).0 ending in
          (a, place, due, decided, superseded)
    ]
