-- ===== src/Engineering/Lifecycle/Validity.antt =====
-- What the constructor of `EngineeringState` promises, and that `transition` keeps it.
use dev_workflow_automation.Common.{◌≤◌, ◌≡◌, ◌≢◌, Bool, true, Result, ok, err, arith}
use dev_workflow_automation.Engineering.Lifecycle.{
  TaskStatus, WaitReason, Action, EngineeringState, Error, is_runnable_or_merged, is_waiting,
  is_merged, is_complete, post_init, transition,
}

pub record IsValid (s : EngineeringState) : Type 0 where
  pub version_positive : 1 ≤ s.requirement_version
  pub runnable_no_wait : is_runnable_or_merged s.status ≡ true → s.wait_reason ≡ WaitReason.no_wait
  pub waiting_has_reason : is_waiting s.status ≡ true → s.wait_reason ≢ WaitReason.no_wait
  pub complete_iff : is_merged s.status ≡ is_complete s.stage
  pub takeover_paused : s.manual_takeover ≡ true → s.status ≡ TaskStatus.paused

-- The errors that `transition` raises as `InvalidTransition`; the others are the `ValueError`s
-- of the constructor and a `KeyError` of the table.
abbrev pub IsInvalidTransition : Error → Type 0
IsInvalidTransition Error.version_not_positive = ⊥
IsInvalidTransition Error.runnable_with_reason = ⊥
IsInvalidTransition Error.waiting_without_reason = ⊥
IsInvalidTransition Error.complete_mismatch = ⊥
IsInvalidTransition Error.takeover_not_paused = ⊥
IsInvalidTransition (Error.key_error _) = ⊥
IsInvalidTransition _ = Unit

abbrev pub IsSound : Result Error EngineeringState → Type 0
IsSound (ok t) = IsValid t
IsSound (err e) = IsInvalidTransition e

-- The constructor accepts exactly the valid states, and changes none.
pub post_init-ok_iff : (s : EngineeringState) → IsValid s → post_init s ≡ ok s
unfolding post_init
post_init-ok_iff s v = ground arith

-- What the constructor accepts is the value that it was given.
pub post_init-eq : (s t : EngineeringState) → post_init s ≡ ok t → t ≡ s
unfolding post_init
post_init-eq s t h = ground arith

module _ (s : EngineeringState) (w : WaitReason) (x : Bool) (v : IsValid s) where
  -- From a valid state every action either yields a valid state or raises `InvalidTransition`:
  -- the constructor never refuses the new state and the table never misses a key.
  pub transition-IsSound : (a : Action) → IsSound (transition s a w x)
  unfolding transition post_init
  transition-IsSound Action.cancel = ground arith
  transition-IsSound _ = ground arith
