-- ===== src/Engineering/Lifecycle/Tests.antt =====
-- Tests of the lifecycle at concrete histories.
use dev_workflow_automation.Common.{◌≡◌, refl, ◌⊎◌, true, false, List, [], ◌∷◌, ok, arith}
use dev_workflow_automation.Engineering.Lifecycle.{
  TaskStatus, Stage, WaitReason, Action, EngineeringState, transition, post_init,
}
use dev_workflow_automation.Engineering.Lifecycle.Validity.{IsValid, IsSound, transition-IsSound}
use dev_workflow_automation.Engineering.Lifecycle.Traces.{
  History, accepted, created, extend, takeover_holds, is_operator_control, pause-resume,
  resumed_status, resumed_reason,
}
use dev_workflow_automation.Engineering.Lifecycle.Merging.{
  clearance, follow, route, merged_was_cleared, active_can_merge,
}

abbrev at_stage : TaskStatus → Stage → WaitReason → EngineeringState
at_stage status stage reason = record {
  status = status;
  stage = stage;
  wait_reason = reason;
  requirement_version = 1;
  manual_takeover = false;
}

abbrev held : EngineeringState
held = record {
  status = TaskStatus.paused;
  stage = Stage.developing;
  wait_reason = WaitReason.manual_takeover;
  requirement_version = 1;
  manual_takeover = true;
}

abbrev working : EngineeringState
working = at_stage TaskStatus.active Stage.developing WaitReason.no_wait

working-IsValid : IsValid working
working-IsValid = ground arith

held-IsValid : IsValid held
held-IsValid = ground arith

abbrev actions : List Action
actions =
    Action.merged ∷ Action.merge_authorized ∷ Action.published ∷ Action.validation_passed
    ∷ Action.implemented ∷ Action.start ∷ []

abbrev done : EngineeringState
done = at_stage TaskStatus.merged Stage.complete WaitReason.no_wait

merged-History : History actions done
unfolding transition post_init
merged-History =
    extend Action.merged
      (extend Action.merge_authorized
        (extend Action.published
          (extend Action.validation_passed
            (extend Action.implemented
              (extend Action.start created (accepted WaitReason.no_wait false refl))
              (accepted WaitReason.no_wait false refl))
            (accepted WaitReason.no_wait false refl))
          (accepted WaitReason.no_wait false refl))
        (accepted WaitReason.no_wait false refl))
      (accepted WaitReason.no_wait false refl)

merged_was_cleared_example :
    clearance actions ≡ record { validated = true; published = true; authorized = true }
merged_was_cleared_example = merged_was_cleared {past = actions} {s = done} merged-History refl

active_can_merge_example :
    follow working (route Stage.developing)
    ≡ ok (record working {
      status = TaskStatus.merged;
      stage = Stage.complete;
      wait_reason = WaitReason.no_wait;
    })
active_can_merge_example = active_can_merge working working-IsValid refl

transition-IsSound_example : IsSound (transition working Action.pause WaitReason.no_wait false)
transition-IsSound_example =
    transition-IsSound working WaitReason.no_wait false working-IsValid Action.pause

takeover_holds_example :
    (is_operator_control Action.revise_requirement ≡ true)
    × ((true ≡ true)
        ⊎ (Action.revise_requirement ≡ Action.release_takeover)
        ⊎ (Action.revise_requirement ≡ Action.cancel))
unfolding transition post_init
takeover_holds_example =
    takeover_holds held _ WaitReason.no_wait false Action.revise_requirement held-IsValid refl refl

pause-resume_example :
    (p : EngineeringState) × (transition working Action.pause WaitReason.no_wait false ≡ ok p)
    × (transition p Action.resume WaitReason.no_wait false
        ≡ ok (record working {
          status = resumed_status Stage.developing;
          wait_reason = resumed_reason Stage.developing;
        }))
pause-resume_example =
    pause-resume working WaitReason.no_wait WaitReason.no_wait false false working-IsValid refl
