-- ===== src/Coordinator/Actions/Outcomes.antt =====
-- The ways in which `execute_one` ends.
use dev_workflow_automation.Common.{
  ℕ, Bool, true, false, not, ◌&&◌, Option, none, some, In, keep-In, first_of-mem, find, Result, ok,
  err, ◌>>=◌, >>=-eq-ok, ◌≡◌, ◌⊎◌, refl, sym, inl, inr, and-eq_true, Bool-cases,
}
use dev_workflow_automation.Engineering.Lifecycle.{Action, WaitReason}
use dev_workflow_automation.Engineering.Rows.{Task, task_key}
use dev_workflow_automation.Coordinator.Protocol.{Directive, Decision}
use dev_workflow_automation.Coordinator.Rows.{
  CoordinatorEvent, CoordinatorRun, CoordinatorAction, Tables, Settings, run_key, event_key,
}
use dev_workflow_automation.Coordinator.Outbox.{oldest}
use dev_workflow_automation.Coordinator.Guards.{ApplyError, Effects, guards, latest_human_request}
use dev_workflow_automation.Coordinator.Actions.{
  ask_human, perform, record_effect, apply_rows, apply, is_executable, settle, supersede, moved_on,
  apply_task, execute_row, execute_one, close_request, open_request, refreshed,
}

-- What a directive has done: the one call of the rest of the program that it stands for, or none.
abbrev pub Performed :
    Directive → Effects → Tables → CoordinatorAction → Task → Decision → ℕ → Tables → Type 0
Performed Directive.wait fx s a t d now s' = s' ≡ s
Performed Directive.reply fx s a t d now s' = s' ≡ s
Performed Directive.request_review fx s a t d now s' = s' ≡ s
Performed Directive.update_summary fx s a t d now s' = s' ≡ s
Performed Directive.implement fx s a t d now s' = fx.request_engineering s a t d ≡ ok s'
Performed Directive.repair fx s a t d now s' = fx.request_engineering s a t d ≡ ok s'
Performed Directive.pause fx s a t d now s' =
    fx.control_task s t.id Action.pause WaitReason.no_wait ≡ ok s'
Performed Directive.cancel fx s a t d now s' =
    fx.control_task s t.id Action.cancel WaitReason.no_wait ≡ ok s'
Performed Directive.request_validation fx s a t d now s' = fx.request_validation s a t ≡ ok s'
Performed Directive.sync_status fx s a t d now s' = s' ≡ fx.sync_status s t
Performed Directive.ask_human fx s a t d now s' =
    (m : Tables) × (fx.control_task
        (record s { human_requests = close_request (latest_human_request s t) s.human_requests })
        t.id Action.block WaitReason.missing_requirement
      ≡ ok m)
    × (s' ≡ open_request a now m (refreshed m t))

ok-injective : {s s' : Tables} → ◌≡◌ {A = Result ApplyError Tables} (ok s) (ok s') → s ≡ s'
ok-injective h = cc

ask_human-Performed :
    (fx : Effects) (s : Tables) (a : CoordinatorAction) (t : Task) (d : Decision) (now : ℕ)
    (s' : Tables)
    → ask_human fx s a t now ≡ ok s'
    → Performed Directive.ask_human fx s a t d now s'
unfolding ask_human
ask_human-Performed fx s a t d now s' h =
    let (m, blocked, opened) =
      >>=-eq-ok
        (fx.control_task
          (record s { human_requests = close_request (latest_human_request s t) s.human_requests })
          t.id Action.block WaitReason.missing_requirement)
        (λ x. ok (open_request a now x (refreshed x t))) h in
    (m, blocked, sym (ok-injective opened))

pub perform-Performed :
    (fx : Effects) (s : Tables) (a : CoordinatorAction) (t : Task) (d : Decision) (now : ℕ)
    (s' : Tables) (x : Directive)
    → d.action ≡ x
    → perform fx s a t d now ≡ ok s'
    → Performed x fx s a t d now s'
unfolding perform
perform-Performed fx s a t d now s' Directive.wait e h = sym (ok-injective (rw (perform, e) at h))
perform-Performed fx s a t d now s' Directive.reply e h = sym (ok-injective (rw (perform, e) at h))
perform-Performed fx s a t d now s' Directive.request_review e h =
    sym (ok-injective (rw (perform, e) at h))
perform-Performed fx s a t d now s' Directive.update_summary e h =
    sym (ok-injective (rw (perform, e) at h))
perform-Performed fx s a t d now s' Directive.implement e h = rw (perform, e) at h
perform-Performed fx s a t d now s' Directive.repair e h = rw (perform, e) at h
perform-Performed fx s a t d now s' Directive.pause e h = rw (perform, e) at h
perform-Performed fx s a t d now s' Directive.cancel e h = rw (perform, e) at h
perform-Performed fx s a t d now s' Directive.request_validation e h = rw (perform, e) at h
perform-Performed fx s a t d now s' Directive.sync_status e h =
    sym (ok-injective (rw (perform, e) at h))
perform-Performed fx s a t d now s' Directive.ask_human e h =
    ask_human-Performed fx s a t d now s' (rw (perform, e) at h)

-- The rows that an executed intent is about, and the call that it has made.
pub record Executed (set : Settings) (fx : Effects) (s : Tables) (a : CoordinatorAction) (now : ℕ)
    (after : Tables) : Type 0 where
  pub task : Task
  pub run : CoordinatorRun
  pub event : CoordinatorEvent
  pub changed : Tables
  pub of_task : find task_key a.task_id s.db.tasks ≡ some task
  pub of_run : find run_key a.run_id s.runs ≡ some run
  pub of_event : find event_key a.event_id s.events ≡ some event
  pub passed : guards set fx s run event task a.decision ≡ ok tt
  pub called : perform fx s a task a.decision now ≡ ok changed
  pub recorded : after ≡ record_effect changed a task run event a.decision

apply_rows-Executed :
    (set : Settings) (fx : Effects) (s : Tables) (a : CoordinatorAction) (t : Task) (now : ℕ)
    (r : Option CoordinatorRun) (e : Option CoordinatorEvent) (done : Tables)
    → find task_key a.task_id s.db.tasks ≡ some t
    → find run_key a.run_id s.runs ≡ r
    → find event_key a.event_id s.events ≡ e
    → apply_rows set fx s a t now r e ≡ ok done
    → Executed set fx s a now done
apply_rows-Executed set fx s a t now none none done ft fr fe h = cc
apply_rows-Executed set fx s a t now none (some e) done ft fr fe h = cc
apply_rows-Executed set fx s a t now (some r) none done ft fr fe h = cc
apply_rows-Executed set fx s a t now (some r) (some e) done ft fr fe h =
    let (s', most, last) =
      >>=-eq-ok (guards set fx s r e t a.decision >>= (λ u. perform fx s a t a.decision now))
        (λ s'. ok (record_effect s' a t r e a.decision)) h in
    let (u, pass, acts) =
      >>=-eq-ok (guards set fx s r e t a.decision) (λ u. perform fx s a t a.decision now) most in
    record {
      task = t;
      run = r;
      event = e;
      changed = s';
      of_task = ft;
      of_run = fr;
      of_event = fe;
      passed = pass;
      called = acts;
      recorded = sym (ok-injective last);
    }

pub apply_task-Executed :
    (set : Settings) (fx : Effects) (s : Tables) (a : CoordinatorAction) (now : ℕ) (o : Option Task)
    (done : Tables)
    → find task_key a.task_id s.db.tasks ≡ o
    → apply_task set fx s a now o ≡ ok done
    → Executed set fx s a now done
unfolding apply
apply_task-Executed set fx s a now none done found h = cc
apply_task-Executed set fx s a now (some t) done found h =
    apply_rows-Executed set fx s a t now (find run_key a.run_id s.runs)
      (find event_key a.event_id s.events) done found refl refl h

-- The three ends of an action that was found.
pub data Ending (set : Settings) (fx : Effects) (s : Tables) (a : CoordinatorAction) (now : ℕ)
    (after : Tables) : Type 0 where
  overtaken :
      moved_on (find task_key a.task_id s.db.tasks) (find run_key a.run_id s.runs) ≡ true
      → after ≡ supersede s a now
      → Ending set fx s a now after
  executed :
      moved_on (find task_key a.task_id s.db.tasks) (find run_key a.run_id s.runs) ≡ false
      → apply_task set fx s a now (find task_key a.task_id s.db.tasks) ≡ ok after
      → Executed set fx s a now after
      → Ending set fx s a now after
  settled :
      moved_on (find task_key a.task_id s.db.tasks) (find run_key a.run_id s.runs) ≡ false
      → (x : ApplyError) → apply_task set fx s a now (find task_key a.task_id s.db.tasks) ≡ err x
      → after ≡ settle s a now (err x)
      → Ending set fx s a now after

settle-Ending :
    (set : Settings) (fx : Effects) (s : Tables) (a : CoordinatorAction) (now : ℕ)
    (o : Result ApplyError Tables)
    → moved_on (find task_key a.task_id s.db.tasks) (find run_key a.run_id s.runs) ≡ false
    → apply_task set fx s a now (find task_key a.task_id s.db.tasks) ≡ o
    → Ending set fx s a now (settle s a now o)
settle-Ending set fx s a now (ok done) same h =
    executed same h
      (apply_task-Executed set fx s a now (find task_key a.task_id s.db.tasks) done refl h)
settle-Ending set fx s a now (err x) same h = settled same x h refl

execute_row-Ending :
    (set : Settings) (fx : Effects) (infers : ℕ → Bool) (skipped : CoordinatorAction → Bool)
    (s : Tables) (now : ℕ) (o : Option CoordinatorAction)
    → o ≡ oldest (is_executable infers s) skipped s.actions
    → (execute_row set fx s now o ≡ (s, false))
      ⊎ ((a : CoordinatorAction) × In a s.actions
          × (is_executable infers s a ≡ true)
          × Ending set fx s a now (execute_row set fx s now o).0)
execute_row-Ending set fx infers skipped s now none found = inl refl
execute_row-Ending set fx infers skipped s now (some a) found =
    let t = find task_key a.task_id s.db.tasks in
    let first = first_of-mem _ _ a (sym found) in
    let (place, meets) =
      keep-In (λ b. is_executable infers s b && not (skipped b)) a s.actions first in
    let due = (and-eq_true (is_executable infers s a) _ meets).0 in
    elim (Bool-cases (moved_on t (find run_key a.run_id s.runs))) [
      | inl changed ↦ rw changed (inr (a, place, due, overtaken changed refl))
      | inr same ↦ rw same (
          inr (a, place, due, settle-Ending set fx s a now (apply_task set fx s a now t) same refl))
    ]

-- `execute_one` finds nothing to do, or takes a due action to one of its ends.
pub execute_one-Ending :
    (set : Settings) (fx : Effects) (infers : ℕ → Bool) (skipped : CoordinatorAction → Bool)
    (s : Tables) (now : ℕ)
    → (execute_one set fx infers skipped s now ≡ (s, false))
      ⊎ ((a : CoordinatorAction) × In a s.actions
          × (is_executable infers s a ≡ true)
          × Ending set fx s a now (execute_one set fx infers skipped s now).0)
unfolding execute_one
execute_one-Ending set fx infers skipped s now =
    execute_row-Ending set fx infers skipped s now
      (oldest (is_executable infers s) skipped s.actions) refl
