-- ===== src/Coordinator/Actions/Decided.antt =====
-- The status in which `execute_one` leaves an action, and the reason for it.
use dev_workflow_automation.Common.{
  ℕ, Bool, true, false, not, Option, none, some, In, find, Result, ok, err, str_eq, ◌≡◌, ◌⊎◌, arith,
}
use dev_workflow_automation.Engineering.Rows.{Task, task_key}
use dev_workflow_automation.Coordinator.Protocol.{Directive, Decision}
use dev_workflow_automation.Coordinator.Rows.{
  CoordinatorRun, CoordinatorAction, ActionStatus, Tables, Settings, run_key,
}
use dev_workflow_automation.Coordinator.Guards.{Refusal, ApplyError, Effects}
use dev_workflow_automation.Coordinator.Actions.{apply, moved_on}

-- Each row of that identifier has that status.
abbrev pub RowsAre : ActionStatus → ℕ → Tables → Type 0
RowsAre status id s = (b : CoordinatorAction) → In b s.actions → b.id ≡ id → b.status ≡ status

-- A decision sends something to the provider: a request for review, or else a text, which a
-- decision to wait never sends.
abbrev pub speaks : Decision → Bool
speaks d = elim d.action [
  | Directive.request_review ↦ true
  | Directive.wait ↦ false
  | _ ↦ not (str_eq d.message "")
]

-- The task and the run of the action are there, at versions that differ, or not.
abbrev pub HasMoved : Tables → CoordinatorAction → Type 0
HasMoved s a =
    (t : Task) × (r : CoordinatorRun) × (find task_key a.task_id s.db.tasks ≡ some t)
    × (find run_key a.run_id s.runs ≡ some r)
    × ¬ (
        (t.lifecycle_version ≡ r.lifecycle_revision)
        × (t.requirement_version ≡ r.requirement_revision))

-- What `_apply` answers for the action.
abbrev pub Answers :
    Settings → Effects → Tables → CoordinatorAction → ℕ → Result ApplyError Tables → Type 0
Answers set fx s a now o =
    (t : Task) × (find task_key a.task_id s.db.tasks ≡ some t) × (apply set fx s a t now ≡ o)

-- The status in which the rows of the action are left, with the reason for it.
pub data IsDecided (set : Settings) (fx : Effects) (s : Tables) (a : CoordinatorAction) (now : ℕ)
    (after : Tables) : Type 0 where
  moved : HasMoved s a → RowsAre ActionStatus.superseded a.id after → IsDecided set fx s a now after
  to_deliver :
      Answers set fx s a now (ok after)
      → speaks a.decision ≡ true
      → RowsAre ActionStatus.delivery_pending a.id after
      → IsDecided set fx s a now after
  quiet :
      Answers set fx s a now (ok after)
      → speaks a.decision ≡ false
      → RowsAre ActionStatus.executed a.id after
      → IsDecided set fx s a now after
  informed :
      Answers set fx s a now (err ApplyError.new_information)
      → RowsAre ActionStatus.superseded a.id after
      → IsDecided set fx s a now after
  waits :
      Answers set fx s a now (err ApplyError.engineering_busy)
      → RowsAre ActionStatus.waiting_engineer a.id after
      → IsDecided set fx s a now after
  refused :
      (find task_key a.task_id s.db.tasks ≡ none)
        ⊎ ((r : Refusal) × Answers set fx s a now (err (ApplyError.refused r)))
      → RowsAre ActionStatus.rejected a.id after
      → IsDecided set fx s a now after

pub moved-HasMoved :
    (s : Tables) (a : CoordinatorAction) (t : Option Task) (r : Option CoordinatorRun)
    → find task_key a.task_id s.db.tasks ≡ t
    → find run_key a.run_id s.runs ≡ r
    → moved_on t r ≡ true
    → HasMoved s a
moved-HasMoved s a none none ft fr h = cc
moved-HasMoved s a none (some r) ft fr h = cc
moved-HasMoved s a (some t) none ft fr h = cc
moved-HasMoved s a (some t) (some r) ft fr h = (
  t,
  r,
  ft,
  fr,
  λ both. (let (lifecycle, requirement) = both in ground (arith, lifecycle, requirement)),
)

pub current-stays :
    (s : Tables) (a : CoordinatorAction)
    → moved_on (find task_key a.task_id s.db.tasks) (find run_key a.run_id s.runs) ≡ false
    → ¬ HasMoved s a
current-stays s a h (t, r, ft, fr, differ) =
    let same = rw (ft, fr) at h in differ (ground arith, ground arith)
