-- ===== src/Coordinator/Actions/Settled.antt =====
-- A confirmed delivery stays confirmed: no transaction on the actions takes it back.
use dev_workflow_automation.Common.{
  ℕ, Bool, true, false, List, In, amend, Distinct, err, ◌≡◌, refl, sym, inl, inr, arith, subst, ap,
}
use dev_workflow_automation.Coordinator.Rows.{
  CoordinatorAction, ActionStatus, Tables, Settings, action_key,
}
use dev_workflow_automation.Coordinator.Outbox.{is_executed}
use dev_workflow_automation.Coordinator.Outbox.Steps.{Step}
use dev_workflow_automation.Coordinator.Outbox.Settled.{Stays, same-Stays, change-Stays, Step-Stays}
use dev_workflow_automation.Coordinator.Guards.{ApplyError, Effects}
use dev_workflow_automation.Coordinator.Actions.{
  record_effect, settle, supersede, execute_one, is_executable, effected, refreshed, with_status,
  with_error,
}
use dev_workflow_automation.Coordinator.Actions.Outcomes.{
  Ending, overtaken, executed, settled, execute_one-Ending,
}
use dev_workflow_automation.Coordinator.Actions.Serial.{LeavesCoordination, Executed-AreLeft}

-- One transaction of `SqlCoordinationActions` or the operator's request of a check.
pub data Transaction (set : Settings) (fx : Effects) : Tables → Tables → Type 0 where
  executes :
      (s : Tables) (infers : ℕ → Bool) (skipped : CoordinatorAction → Bool) (now : ℕ)
      → Transaction set fx s (execute_one set fx infers skipped s now).0
  delivers : {s s' : Tables} {log log' : List ℕ} → Step set s log s' log' → Transaction set fx s s'

due-open :
    (infers : ℕ → Bool) (s : Tables) (a : CoordinatorAction)
    → is_executable infers s a ≡ true
    → is_executed a.status ≡ false
due-open infers s a due = ground arith

-- The rows after a change of one that is not confirmed.
changed-Stays :
    (s m s' : Tables) (a : CoordinatorAction) (f : CoordinatorAction → CoordinatorAction)
    → m.actions ≡ s.actions
    → s'.actions ≡ amend action_key a.id f m.actions
    → Distinct action_key s.actions
    → In a s.actions
    → is_executed a.status ≡ false
    → Stays s s'
changed-Stays s m s' a f same acted d place still b there done =
    let (c, image, e, stays) = change-Stays s a f d place still b there done in
    (c, (rw (acted, same) image), e, stays)

settled-Stays :
    (s : Tables) (a : CoordinatorAction) (now : ℕ) (x : ApplyError)
    → Distinct action_key s.actions
    → In a s.actions
    → is_executed a.status ≡ false
    → Stays s (settle s a now (err x))
settled-Stays s a now ApplyError.new_information d place still =
    changed-Stays s s (settle s a now (err ApplyError.new_information)) a
      (with_error ActionStatus.superseded _) refl refl d place still
settled-Stays s a now ApplyError.engineering_busy d place still =
    changed-Stays s s (settle s a now (err ApplyError.engineering_busy)) a
      (with_error ActionStatus.waiting_engineer _) refl refl d place still
settled-Stays s a now (ApplyError.refused r) d place still =
    changed-Stays s s (settle s a now (err (ApplyError.refused r))) a
      (with_error ActionStatus.rejected _) refl refl d place still

Ending-Stays :
    (set : Settings) (fx : Effects) (s : Tables) (a : CoordinatorAction) (now : ℕ) (after : Tables)
    → LeavesCoordination fx
    → Distinct action_key s.actions
    → In a s.actions
    → is_executed a.status ≡ false
    → Ending set fx s a now after
    → Stays s after
unfolding record_effect
Ending-Stays set fx s a now after leaves d place still (overtaken moved e) =
    subst (Stays s) (sym e) (
      changed-Stays s s (supersede s a now) a (with_status ActionStatus.superseded) refl refl d
        place still)
Ending-Stays set fx s a now after leaves d place still (executed current answer x) =
    let (_, actions, _) = Executed-AreLeft set fx s a now after leaves x in
    subst (Stays s) (sym x.recorded) (
      changed-Stays s x.changed (record_effect x.changed a x.task x.run x.event a.decision) a
        (effected x.event (refreshed x.changed x.task) a.decision) actions refl d place still)
Ending-Stays set fx s a now after leaves d place still (settled current x failed e) =
    subst (Stays s) (sym e) (settled-Stays s a now x d place still)

execute_one-Stays :
    (set : Settings) (fx : Effects) (infers : ℕ → Bool) (skipped : CoordinatorAction → Bool)
    (s : Tables) (now : ℕ)
    → LeavesCoordination fx
    → Distinct action_key s.actions
    → Stays s (execute_one set fx infers skipped s now).0
execute_one-Stays set fx infers skipped s now leaves d =
    elim (execute_one-Ending set fx infers skipped s now) [
      | inl idle ↦ subst (Stays s) (sym (ap (λ x. x.0) idle)) (same-Stays s)
      | inr (a, place, due, ending) ↦
          Ending-Stays set fx s a now (execute_one set fx infers skipped s now).0 leaves d place
            (due-open infers s a due) ending
    ]

-- Where the identifiers of the actions are unique and the rest of the program leaves the actions
-- alone, an action that is EXECUTED stays so in each of these transactions: `execute_one`, the claim
-- of a delivery, its completion or failure, the claim of a check and its result, the recovery, and
-- the operator's request of a check.
pub executed_stays :
    (set : Settings) (fx : Effects) (s s' : Tables) (a : CoordinatorAction)
    → LeavesCoordination fx
    → Transaction set fx s s'
    → Distinct action_key s.actions
    → In a s.actions
    → is_executed a.status ≡ true
    → (b : CoordinatorAction) × In b s'.actions × (b.id ≡ a.id) × (is_executed b.status ≡ true)
executed_stays set fx s _ a leaves (executes _ infers skipped now) d =
    execute_one-Stays set fx infers skipped s now leaves d a
executed_stays set fx s s' a leaves (delivers step) d = Step-Stays set s s' _ _ step d a
