-- ===== src/Engineering/Lifecycle/Merging.antt =====
-- What stands between a new task and a merge.
use dev_workflow_automation.Common.{◌≡◌, Bool, true, false, List, [], ◌∷◌, Result, ok, arith, ◌>>=◌}
use dev_workflow_automation.Engineering.Lifecycle.{
  TaskStatus, Stage, WaitReason, Action, EngineeringState, Error, transition, post_init,
}
use dev_workflow_automation.Engineering.Lifecycle.Validity.{IsValid}
use dev_workflow_automation.Engineering.Lifecycle.Traces.{
  accepted, History, created, extend, block_keeps, History-IsValid,
}

-- What the history has shown of the code as it stands: it passed validation, it was published
-- after that, and its merge was authorised after that.
pub record Clearance : Type 0 where
  pub validated : Bool
  pub published : Bool
  pub authorized : Bool

abbrev pub uncleared : Clearance
uncleared = record { validated = false; published = false; authorized = false }

-- Rework of any kind, and a changed requirement, lose it all.
abbrev pub observe : Action → Clearance → Clearance
observe Action.validation_passed c = record {
  validated = true;
  published = false;
  authorized = false;
}
observe Action.published c = record {
  validated = c.validated;
  published = c.validated;
  authorized = false;
}
observe Action.merge_authorized c = record {
  validated = c.validated;
  published = c.published;
  authorized = c.published;
}
observe Action.merge_recheck c = record {
  validated = c.validated;
  published = c.published;
  authorized = false;
}
observe Action.start c = uncleared
observe Action.needs_plan c = uncleared
observe Action.plan_ready c = uncleared
observe Action.implemented c = uncleared
observe Action.bounded_repair c = uncleared
observe Action.validate_candidate c = uncleared
observe Action.validation_failed c = uncleared
observe Action.review_fix c = uncleared
observe Action.requirement_changed c = uncleared
observe Action.revise_requirement c = uncleared
observe _ c = c

abbrev pub clearance : List Action → Clearance
clearance [] = uncleared
clearance (a ∷ past) = observe a (clearance past)

-- What each stage needs.
abbrev Cleared : Stage → Clearance → Type 0
Cleared Stage.publishing c = c.validated ≡ true
Cleared Stage.reviewing c = (c.validated ≡ true) × (c.published ≡ true)
Cleared Stage.merging c = (c.validated ≡ true) × (c.published ≡ true) × (c.authorized ≡ true)
Cleared Stage.complete c = (c.validated ≡ true) × (c.published ≡ true) × (c.authorized ≡ true)
Cleared _ c = Unit

transition-Cleared :
    (s t : EngineeringState) (w : WaitReason) (x : Bool) (c : Clearance) (a : Action)
    → Cleared s.stage c
    → transition s a w x ≡ ok t
    → Cleared t.stage (observe a c)
unfolding transition post_init
transition-Cleared s t w x c Action.cancel k h = ground arith
transition-Cleared s t w x c Action.block k h = rw (block_keeps s t w x h).0 k
transition-Cleared s t w x c _ k h = ground arith

History-Cleared :
    {past : List Action} {s : EngineeringState} → History past s → Cleared s.stage (clearance past)
History-Cleared created = tt
History-Cleared (extend {past} {s} {t} a h (accepted w x e)) =
    transition-Cleared s t w x (clearance past) a (History-Cleared h) e

-- A task is merged only after its code passed validation, was then published and was then
-- authorised, with no rework and no change of the requirement since the validation.
pub merged_was_cleared :
    {past : List Action} {s : EngineeringState}
    → History past s
    → s.status ≡ TaskStatus.merged
    → clearance past ≡ record { validated = true; published = true; authorized = true }
merged_was_cleared {past} {s} h m = ground (arith, History-Cleared h, History-IsValid h)

abbrev pub route_from_validating : List Action
route_from_validating =
    Action.validation_passed ∷ Action.published ∷ Action.merge_authorized ∷ Action.merged ∷ []

-- The actions that lead from each stage to the merge, the next one first.
abbrev pub route : Stage → List Action
route Stage.intake = Action.start ∷ Action.implemented ∷ route_from_validating
route Stage.planning = Action.plan_ready ∷ Action.implemented ∷ route_from_validating
route Stage.developing = Action.implemented ∷ route_from_validating
route Stage.fixing = Action.implemented ∷ route_from_validating
route Stage.validating = route_from_validating
route Stage.publishing = Action.published ∷ Action.merge_authorized ∷ Action.merged ∷ []
route Stage.reviewing = Action.merge_authorized ∷ Action.merged ∷ []
route Stage.merging = Action.merged ∷ []
route Stage.complete = []

pub follow : EngineeringState → List Action → Result Error EngineeringState
follow s [] = ok s
follow s (a ∷ past) = do t ← transition s a WaitReason.no_wait false; follow t past

-- From every valid active state the engineering actions of its stage lead, each of them accepted, to
-- the merged and complete task with the same requirement: no active stage is a dead end.
pub active_can_merge :
    (s : EngineeringState)
    → IsValid s
    → s.status ≡ TaskStatus.active
    → follow s (route s.stage)
      ≡ ok (record s {
        status = TaskStatus.merged;
        stage = Stage.complete;
        wait_reason = WaitReason.no_wait;
      })
unfolding transition post_init follow
active_can_merge s v h = ground arith
