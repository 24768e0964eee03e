-- ===== src/Coordinator/Actions/Permission.antt =====
-- An intent changes the engineering only if it is permitted when it is executed.
use dev_workflow_automation.Common.{
  ap, ◌∙◌, ℕ, Bool, true, false, not, ◌&&◌, some, In, any, all, find, Result, check, check-eq-ok,
  ok, err, ◌>>=◌, >>=-eq-ok, ◌≡◌, ◌⊎◌, refl, inl, inr,
}
use dev_workflow_automation.Engineering.Rows.{Task, task_key}
use dev_workflow_automation.Coordinator.Protocol.{
  Decision, EffectError, only_talks, is_fresh, admits_work, validate_effect-eq-ok_iff,
}
use dev_workflow_automation.Coordinator.Rows.{
  CoordinatorEvent, CoordinatorRun, CoordinatorAction, Tables, Settings, coordination_mode,
  is_active, authorized, reply_to, is_running, run_key, event_key,
}
use dev_workflow_automation.Coordinator.Guards.{
  Refusal, ApplyError, Effects, source_events, is_entitled, is_outdated, situation_of, has_newer,
  guards, guards_before, guards_after, checked_effect,
}
use dev_workflow_automation.Coordinator.Actions.{record_effect, is_executable, settle, execute_one}
use dev_workflow_automation.Coordinator.Actions.Outcomes.{
  Performed, perform-Performed, Executed, Ending, overtaken, executed, settled, execute_one-Ending,
}

-- The event and its batch are of authorised authors and active providers, the task is not archived
-- and in an open Team, and unchanged since the decision; nobody has taken it over; no newer event
-- waits; and a decision that does more than wait or reply has a task that admits work, and is not
-- about an older revision.
abbrev pub Permitted :
    Settings → Tables → CoordinatorRun → CoordinatorEvent → Task → Decision → Type 0
Permitted set s r e t d =
    (authorized set t e ≡ true)
    × (is_running s.db t ≡ true)
    × (all (is_entitled set t) (source_events s r) ≡ true)
    × (is_active (coordination_mode set (reply_to e)) ≡ true)
    × (is_fresh (situation_of s r e t) ≡ true)
    × ((only_talks d.action ≡ true)
        ⊎ ((admits_work (situation_of s r e t) ≡ true)
            × (any (is_outdated t) (source_events s r) ≡ false)))
    × (has_newer s t r ≡ false)

not-false : {b : Bool} → not b ≡ false → b ≡ true
not-false {b = true} h = refl
not-false {b = false} h = cc

checked_cases :
    (o : Result EffectError (Unit {0})) {u : Unit {0}}
    → ◌≡◌ {A = Result ApplyError (Unit {0})}
        (elim o [ err e ↦ err (ApplyError.refused (Refusal.effect e)) | ok v ↦ ok v ])
        (ok u)
    → o ≡ ok tt
checked_cases (err e) h = cc
checked_cases (ok v) h = refl

only_known :
    {A : Type 0} (talks outdated : Bool)
    → (outdated && not talks) ≡ false
    → ((talks ≡ true) ⊎ A)
    → (talks ≡ true) ⊎ (A × (outdated ≡ false))
only_known true outdated head works = inl refl
only_known false true head works = cc
only_known false false head (inl talks) = cc
only_known false false head (inr admits) = inr (admits, refl)

guards-Permitted :
    (set : Settings) (fx : Effects) (s : Tables) (r : CoordinatorRun) (e : CoordinatorEvent)
    (t : Task) (d : Decision) {u : Unit {0}}
    → guards set fx s r e t d ≡ ok u
    → Permitted set s r e t d
guards-Permitted set fx s r e t d h =
    let (_, most, last) =
      >>=-eq-ok
        (check (guards_before set s r e t d) tt >>= (λ u. checked_effect d (situation_of s r e t)))
        (λ u. check (guards_after set fx s r t d) tt) h in
    let (_, first, valid) =
      >>=-eq-ok (check (guards_before set s r e t d) tt)
        (λ u. checked_effect d (situation_of s r e t)) most in
    let (_, before) = check-eq-ok (guards_before set s r e t d) tt first in
    let (_, after) = check-eq-ok (guards_after set fx s r t d) tt last in
    let (fresh, works) =
      (validate_effect-eq-ok_iff d (situation_of s r e t)).0 (checked_cases _ valid) in
    let (author, (running, (batch, (provider, (head, _))))) = before in
    let (newer, _) = after in
    (
      not-false author,
      not-false running,
      not-false batch,
      not-false provider,
      fresh,
      only_known (only_talks d.action) (any (is_outdated t) (source_events s r)) head works,
      newer,
    )

-- The intent's task, its run and its event, the permission, and what was done: the call of the
-- directive of the decision and nothing else, and then the record of the effect.
abbrev pub Allowed : Settings → Effects → Tables → CoordinatorAction → ℕ → Tables → Type 0
Allowed set fx s a now after =
    (t : Task) × (r : CoordinatorRun) × (e : CoordinatorEvent) × (s' : Tables) × (find task_key
        a.task_id s.db.tasks
      ≡ some t)
    × (find run_key a.run_id s.runs ≡ some r)
    × (find event_key a.event_id s.events ≡ some e)
    × Permitted set s r e t a.decision
    × Performed a.decision.action fx s a t a.decision now s'
    × (after ≡ record_effect s' a t r e a.decision)

Executed-Allowed :
    (set : Settings) (fx : Effects) (s : Tables) (a : CoordinatorAction) (now : ℕ) (after : Tables)
    → Executed set fx s a now after
    → Allowed set fx s a now after
Executed-Allowed set fx s a now after x = (
  x.task,
  x.run,
  x.event,
  x.changed,
  x.of_task,
  x.of_run,
  x.of_event,
  guards-Permitted set fx s x.run x.event x.task a.decision x.passed,
  perform-Performed fx s a x.task a.decision now x.changed a.decision.action refl x.called,
  x.recorded,
)

settle_db :
    (s : Tables) (a : CoordinatorAction) (now : ℕ) (x : ApplyError)
    → (settle s a now (err x)).db ≡ s.db
settle_db s a now ApplyError.new_information = refl
settle_db s a now ApplyError.engineering_busy = refl
settle_db s a now (ApplyError.refused r) = refl

Ending-Allowed :
    (set : Settings) (fx : Effects) (s : Tables) (a : CoordinatorAction) (now : ℕ) (after : Tables)
    → Ending set fx s a now after
    → (after.db ≡ s.db) ⊎ Allowed set fx s a now after
Ending-Allowed set fx s a now after (overtaken moved e) = inl (ap (λ x. x.db) e)
Ending-Allowed set fx s a now after (executed current answer x) =
    inr (Executed-Allowed set fx s a now after x)
Ending-Allowed set fx s a now after (settled current x failed e) =
    inl (ap (λ y. y.db) e ∙ settle_db s a now x)

-- `execute_one` either leaves the engineering tables as they were, or has executed an action that
-- was due and permitted: its event and the whole batch are authorised and of active providers, its
-- task runs, is unchanged since the decision and not taken over, no newer event waits, and unless
-- the decision only talks, the task admits work and the feedback is not of another revision. What
-- it then has done is the call that belongs to the directive of that action's decision, made on the
-- tables and the task that were checked, and the record of its effect. This holds whatever the
-- effects of the rest of the program do.
pub executed-Allowed :
    (set : Settings) (fx : Effects) (infers : ℕ → Bool) (skipped : CoordinatorAction → Bool)
    (s : Tables) (now : ℕ)
    → ((execute_one set fx infers skipped s now).0.db ≡ s.db)
      ⊎ ((a : CoordinatorAction) × In a s.actions
          × (is_executable infers s a ≡ true)
          × Allowed set fx s a now (execute_one set fx infers skipped s now).0)
executed-Allowed set fx infers skipped s now =
    elim (execute_one-Ending set fx infers skipped s now) [
      | inl idle ↦ inl (ap (λ x. x.0.db) idle)
      | inr (a, place, due, ending) ↦
          elim (Ending-Allowed set fx s a now (execute_one set fx infers skipped s now).0 ending) [
            | inl kept ↦ inl kept
            | inr allowed ↦ inr (a, place, due, allowed)
          ]
    ]
