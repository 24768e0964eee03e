-- ===== src/Engineering/Steering/Tests.antt =====
-- Tests of a pause while a worker runs the task.
use dev_workflow_automation.Common.{
  Bool, true, false, none, ok, err, ◌≡◌, refl, strip, find, store, Result,
}
use dev_workflow_automation.Engineering.Lifecycle.{WaitReason, Action, transition, post_init}
use dev_workflow_automation.Engineering.Rows.{ReviewCycle, Database}
use dev_workflow_automation.Engineering.Transitions.{state_of, record_transition, write}
use dev_workflow_automation.Engineering.Jobs.{locked, enqueue_phase}
use dev_workflow_automation.Engineering.Steering.{Steer, ControlError, control_task}
use dev_workflow_automation.Engineering.Steering.Stops.{controlled_task_stops}
use dev_workflow_automation.Engineering.Tests.{running, task, lease}

abbrev pause : Steer
pause = record { action = Action.pause; actor = "dashboard"; wait_reason = WaitReason.no_wait }

abbrev any_row : ReviewCycle → Bool
any_row row = true

abbrev database_of : Result ControlError Database → Database
database_of (ok db) = db
database_of (err e) = running

abbrev after : Database
after = database_of (control_task any_row false running task pause 30)

paused : control_task any_row false running task pause 30 ≡ ok after
unfolding control_task strip record_transition state_of post_init transition find store write
    enqueue_phase
paused = refl

controlled_task_stops_example : locked after lease ≡ none
controlled_task_stops_example =
    controlled_task_stops any_row false running task pause 30 after lease refl paused refl
