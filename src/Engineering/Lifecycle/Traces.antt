-- ===== src/Engineering/Lifecycle/Traces.antt =====
-- Histories of accepted transitions from a new task, and what every one of them keeps.
use dev_workflow_automation.Common.{
  ℕ, ◌+◌, ◌≡◌, refl, ◌⊎◌, Bool, true, false, List, [], ◌∷◌, ok, err, arith, subst, if◌then◌else◌,
}
use dev_workflow_automation.Engineering.Lifecycle.{
  TaskStatus, Stage, WaitReason, Action, EngineeringState, Error, initial, is_terminal, transition,
  post_init,
}
use dev_workflow_automation.Engineering.Lifecycle.Validity.{
  IsValid, IsSound, post_init-eq, transition-IsSound,
}

-- One accepted action, with the keyword arguments that the caller chose.
pub data Step (s : EngineeringState) (a : Action) (t : EngineeringState) : Type 0 where
  accepted : (w : WaitReason) (x : Bool) → transition s a w x ≡ ok t → Step s a t

-- The accepted actions of a task since its creation, the latest first, and the state they led to.
pub data History : List Action → EngineeringState → Type 0 where
  created : History [] initial
  extend :
      {past : List Action} {s t : EngineeringState} (a : Action)
      → History past s
      → Step s a t
      → History (a ∷ past) t

initial-IsValid : IsValid initial
initial-IsValid = ground arith

pub Step-IsValid : {s t : EngineeringState} {a : Action} → IsValid s → Step s a t → IsValid t
Step-IsValid {s} {t} {a} v (accepted w x e) = subst IsSound e (transition-IsSound s w x v a)

-- Every state that a task can reach is one that the constructor accepts.
pub History-IsValid : {past : List Action} {s : EngineeringState} → History past s → IsValid s
History-IsValid created = initial-IsValid
History-IsValid (extend a h st) = Step-IsValid (History-IsValid h) st

-- A merged, cancelled or failed task refuses every action, whatever its arguments.
pub terminal_absorbs :
    (s : EngineeringState) (a : Action) (w : WaitReason) (x : Bool)
    → is_terminal s.status ≡ true
    → transition s a w x ≡ err Error.terminal_task
unfolding transition
terminal_absorbs s a w x h = ground arith

-- The two actions that change the requirement.
abbrev pub bump : Action → ℕ
bump Action.revise_requirement = 1
bump Action.requirement_changed = 1
bump _ = 0

-- BLOCK changes the status and the reason alone.
pub block_keeps :
    (s t : EngineeringState) (w : WaitReason) (x : Bool)
    → transition s Action.block w x ≡ ok t
    → (t.stage ≡ s.stage)
      × (t.requirement_version ≡ s.requirement_version)
      × (t.manual_takeover ≡ s.manual_takeover)
unfolding transition
block_keeps s t w x h = ground (
  arith,
  post_init-eq
      (record s {
        status = if x then TaskStatus.waiting_external else TaskStatus.waiting_human;
        wait_reason = w;
      })
      t,
)

version-transition :
    (s t : EngineeringState) (w : WaitReason) (x : Bool) (a : Action)
    → transition s a w x ≡ ok t
    → t.requirement_version ≡ s.requirement_version + bump a
unfolding transition post_init
version-transition s t w x Action.cancel h = ground arith
version-transition s t w x Action.block h = ground (arith, block_keeps s t w x h)
version-transition s t w x _ h = ground arith

abbrev pub bumps : List Action → ℕ
bumps [] = 0
bumps (a ∷ past) = bump a + bumps past

-- The requirement version of a task counts the accepted requirement changes of its history.
pub version_counts :
    {past : List Action} {s : EngineeringState}
    → History past s
    → s.requirement_version ≡ 1 + bumps past
version_counts created = refl
version_counts (extend {s} {t} a h (accepted w x e)) =
    omega (arith, version_counts h, version-transition s t w x a e)

-- `action in {CANCEL, PAUSE, TAKEOVER, REVISE_REQUIREMENT, RELEASE_TAKEOVER}`
abbrev pub is_operator_control : Action → Bool
is_operator_control Action.cancel = true
is_operator_control Action.pause = true
is_operator_control Action.takeover = true
is_operator_control Action.revise_requirement = true
is_operator_control Action.release_takeover = true
is_operator_control _ = false

-- In a valid state that an operator holds, only the operator's own controls are accepted; and all
-- but a release and a cancellation leave the hold in place.
pub takeover_holds :
    (s t : EngineeringState) (w : WaitReason) (x : Bool) (a : Action)
    → IsValid s
    → s.manual_takeover ≡ true
    → transition s a w x ≡ ok t
    → (is_operator_control a ≡ true)
      × ((t.manual_takeover ≡ true) ⊎ (a ≡ Action.release_takeover) ⊎ (a ≡ Action.cancel))
unfolding transition post_init
takeover_holds s t w x Action.cancel v m h = ground arith
takeover_holds s t w x _ v m h = ground arith

abbrev pub resumed_status : Stage → TaskStatus
resumed_status Stage.reviewing = TaskStatus.waiting_external
resumed_status _ = TaskStatus.active

abbrev pub resumed_reason : Stage → WaitReason
resumed_reason Stage.reviewing = WaitReason.github_review
resumed_reason _ = WaitReason.no_wait

-- From a valid active state, pausing and then resuming are accepted and give back the same state,
-- but for a task under review, which waits for the review again.
pub pause-resume :
    (s : EngineeringState) (w w' : WaitReason) (x x' : Bool)
    → IsValid s
    → s.status ≡ TaskStatus.active
    → (p : EngineeringState) × (transition s Action.pause w x ≡ ok p)
      × (transition p Action.resume w' x'
          ≡ ok (record s { status = resumed_status s.stage; wait_reason = resumed_reason s.stage }))
unfolding transition post_init
pause-resume s w w' x x' v h = (record s { status = TaskStatus.paused }, ground arith, ground arith)
