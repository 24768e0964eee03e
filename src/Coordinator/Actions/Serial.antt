-- ===== src/Coordinator/Actions/Serial.antt =====
-- What `execute_one` keeps of the runs and of the actions.
use dev_workflow_automation.Common.{
  ℕ, ◌≤◌, ◌==◌, Bool, false, In, map, map-In, amend, amend-map, Distinct-map, if◌then◌else◌, ok,
  err, ◌≡◌, refl, sym, ◌∙◌, inl, inr, arith, Bool-cases, subst, ap,
}
use dev_workflow_automation.Engineering.Lifecycle.{Action, WaitReason}
use dev_workflow_automation.Engineering.Rows.{Task}
use dev_workflow_automation.Coordinator.Protocol.{Directive, Decision}
use dev_workflow_automation.Coordinator.Rows.{
  CoordinatorAction, RunStatus, ActionStatus, Tables, Settings, run_key, action_key,
}
use dev_workflow_automation.Coordinator.Runs.{is_claimed, is_live}
use dev_workflow_automation.Coordinator.Runs.Serial.{
  IsSerial, action_run, amended-IsSerial, ended_not_live,
}
use dev_workflow_automation.Coordinator.Guards.{ApplyError, Effects}
use dev_workflow_automation.Coordinator.Actions.{
  record_effect, settle, supersede, execute_one, effected, refreshed, with_status, with_error,
  with_run_status,
}
use dev_workflow_automation.Coordinator.Actions.Outcomes.{
  Performed, perform-Performed, Executed, Ending, overtaken, executed, settled, execute_one-Ending,
}

-- The runs and the actions stay, and identifiers are only given out.
abbrev pub AreLeft : Tables → Tables → Type 0
AreLeft s s' = (s'.runs ≡ s.runs) × (s'.actions ≡ s.actions) × (s.next_id ≤ s'.next_id)

-- The rest of the program writes neither the runs nor the actions: only the coordinator does.
pub record LeavesCoordination (fx : Effects) : Type 0 where
  pub by_control :
      (s s' : Tables) (id : ℕ) (a : Action) (w : WaitReason)
      → fx.control_task s id a w ≡ ok s'
      → AreLeft s s'
  pub by_engineering :
      (s s' : Tables) (a : CoordinatorAction) (t : Task) (d : Decision)
      → fx.request_engineering s a t d ≡ ok s'
      → AreLeft s s'
  pub by_validation :
      (s s' : Tables) (a : CoordinatorAction) (t : Task)
      → fx.request_validation s a t ≡ ok s'
      → AreLeft s s'
  pub by_status : (s : Tables) (t : Task) → AreLeft s (fx.sync_status s t)

unchanged : (s s' : Tables) → s' ≡ s → AreLeft s s'
unchanged s s' e = subst (AreLeft s) (sym e) (refl, refl, omega arith)

Performed-AreLeft :
    (fx : Effects) (s : Tables) (a : CoordinatorAction) (t : Task) (d : Decision) (now : ℕ)
    (s' : Tables) (x : Directive)
    → LeavesCoordination fx
    → Performed x fx s a t d now s'
    → AreLeft s s'
Performed-AreLeft fx s a t d now s' Directive.wait leaves h = unchanged s s' h
Performed-AreLeft fx s a t d now s' Directive.reply leaves h = unchanged s s' h
Performed-AreLeft fx s a t d now s' Directive.request_review leaves h = unchanged s s' h
Performed-AreLeft fx s a t d now s' Directive.update_summary leaves h = unchanged s s' h
Performed-AreLeft fx s a t d now s' Directive.implement leaves h =
    leaves.by_engineering s s' a t d h
Performed-AreLeft fx s a t d now s' Directive.repair leaves h = leaves.by_engineering s s' a t d h
Performed-AreLeft fx s a t d now s' Directive.pause leaves h = leaves.by_control s s' t.id _ _ h
Performed-AreLeft fx s a t d now s' Directive.cancel leaves h = leaves.by_control s s' t.id _ _ h
Performed-AreLeft fx s a t d now s' Directive.request_validation leaves h =
    leaves.by_validation s s' a t h
Performed-AreLeft fx s a t d now s' Directive.sync_status leaves h =
    subst (AreLeft s) (sym h) (leaves.by_status s t)
Performed-AreLeft fx s a t d now s' Directive.ask_human leaves (m, blocked, opened) =
    let (runs, actions, next) = leaves.by_control _ m t.id _ _ blocked in
    subst (AreLeft s) (sym opened) (runs, actions, omega (arith, next))

pub Executed-AreLeft :
    (set : Settings) (fx : Effects) (s : Tables) (a : CoordinatorAction) (now : ℕ) (after : Tables)
    → LeavesCoordination fx
    → (x : Executed set fx s a now after) → AreLeft s x.changed
Executed-AreLeft set fx s a now after leaves x =
    Performed-AreLeft fx s a x.task a.decision now x.changed a.decision.action leaves
      (perform-Performed fx s a x.task a.decision now x.changed a.decision.action refl x.called)

-- The actions change, each of the run it was of, and identifiers are given out.
mapped-IsSerial :
    (s s' : Tables) (g : CoordinatorAction → CoordinatorAction)
    → s'.runs ≡ s.runs
    → s'.actions ≡ map g s.actions
    → s.next_id ≤ s'.next_id
    → ((a : CoordinatorAction) → (g a).run_id ≡ a.run_id)
    → IsSerial s
    → IsSerial s'
mapped-IsSerial s s' g runs actions next same i = record {
  runs_distinct = rw runs i.runs_distinct;
  runs_given = λ r m. (let given = i.runs_given r (rw runs at m) in omega (arith, given, next));
  one_live = λ id. (let bound = i.one_live id in rw runs bound);
  actions_distinct = rw actions (Distinct-map action_run g same s.actions i.actions_distinct);
  actions_given = λ a m.
      let (old, place, e) = image a m in
      let given = i.actions_given old place in
      let kept : a.run_id ≡ old.run_id = ap action_run e ∙ same old in
      omega (arith, given, kept, next);
  actions_decided = λ a r ma mr e.
      let (old, place, shape) = image a ma in
      i.actions_decided old r place (rw runs at mr) (e ∙ ap action_run shape ∙ same old);
}
  where
    image :
        (a : CoordinatorAction)
        → In a s'.actions
        → (old : CoordinatorAction) × In old s.actions × (a ≡ g old)
    image a m = map-In g a s.actions (subst (In a) actions m)

-- One action changes and its run ends, in COMPLETED, SUPERSEDED or REJECTED.
pub marked-IsSerial :
    (s m s' : Tables) (i j : ℕ) (f : CoordinatorAction → CoordinatorAction) (status : RunStatus)
    → AreLeft s m
    → s'.actions ≡ amend action_key i f m.actions
    → s'.runs ≡ amend run_key j (with_run_status status) m.runs
    → s'.next_id ≡ m.next_id
    → ((a : CoordinatorAction) → (f a).run_id ≡ a.run_id)
    → is_live status ≡ false
    → is_claimed status ≡ false
    → IsSerial s
    → IsSerial s'
marked-IsSerial s m s' i j f status (runs, actions, next) acted ran given same dead free serial =
    let between : Tables = record m { actions = s'.actions } in
    let mid : IsSerial between =
      mapped-IsSerial s between (λ a. if a.id == i then f a else a) runs
        (acted ∙ ap (amend action_key i f) actions ∙ amend-map action_key i f s.actions) next
        (λ a. elim (Bool-cases (a.id == i)) [
          | inl here ↦ rw here (same a)
          | inr away ↦ rw away refl
        ])
        serial in
    amended-IsSerial between s' j (with_run_status status) ran refl given (λ x. refl) (λ x. refl)
      (λ x place e h. ended_not_live (sym dead ∙ h)) (λ x. free) mid

settled-IsSerial :
    (s : Tables) (a : CoordinatorAction) (now : ℕ) (x : ApplyError)
    → IsSerial s
    → IsSerial (settle s a now (err x))
settled-IsSerial s a now ApplyError.new_information serial =
    marked-IsSerial s s _ a.id a.run_id (with_error ActionStatus.superseded _) RunStatus.superseded
      (unchanged s s refl) refl refl refl (λ y. refl) refl refl serial
settled-IsSerial s a now ApplyError.engineering_busy serial =
    mapped-IsSerial s _
      (λ b. if b.id == a.id then with_error ActionStatus.waiting_engineer _ b else b) refl
      (amend-map action_key a.id (with_error ActionStatus.waiting_engineer _) s.actions)
      (omega arith)
      (λ b. elim (Bool-cases (b.id == a.id)) [ inl here ↦ rw here refl | inr away ↦ rw away refl ])
      serial
settled-IsSerial s a now (ApplyError.refused r) serial =
    marked-IsSerial s s _ a.id a.run_id (with_error ActionStatus.rejected _) RunStatus.rejected
      (unchanged s s refl) refl refl refl (λ y. refl) refl refl serial

Ending-IsSerial :
    (set : Settings) (fx : Effects) (s : Tables) (a : CoordinatorAction) (now : ℕ) (after : Tables)
    → LeavesCoordination fx
    → Ending set fx s a now after
    → IsSerial s
    → IsSerial after
unfolding record_effect
Ending-IsSerial set fx s a now after leaves (overtaken changed e) serial = subst IsSerial (sym e) (
    marked-IsSerial s s (supersede s a now) a.id a.run_id (with_status ActionStatus.superseded)
      RunStatus.superseded (unchanged s s refl) refl refl refl (λ y. refl) refl refl serial)
Ending-IsSerial set fx s a now after leaves (executed current answer x) serial =
    subst IsSerial (sym x.recorded) (
      marked-IsSerial s x.changed (record_effect x.changed a x.task x.run x.event a.decision) a.id
        x.run.id (effected x.event (refreshed x.changed x.task) a.decision) RunStatus.completed
        (Executed-AreLeft set fx s a now after leaves x) refl refl refl (λ y. refl) refl refl
        serial)
Ending-IsSerial set fx s a now after leaves (settled current x failed e) serial =
    subst IsSerial (sym e) (settled-IsSerial s a now x serial)

-- `execute_one` keeps the invariant of the runs and the actions, if the effects leave them alone.
pub execute_one-IsSerial :
    (set : Settings) (fx : Effects) (infers : ℕ → Bool) (skipped : CoordinatorAction → Bool)
    (s : Tables) (now : ℕ)
    → LeavesCoordination fx
    → IsSerial s
    → IsSerial (execute_one set fx infers skipped s now).0
execute_one-IsSerial set fx infers skipped s now leaves serial =
    elim (execute_one-Ending set fx infers skipped s now) [
      | inl idle ↦ subst IsSerial (sym (ap (λ x. x.0) idle)) serial
      | inr (a, place, due, ending) ↦
          Ending-IsSerial set fx s a now (execute_one set fx infers skipped s now).0 leaves ending
            serial
    ]
