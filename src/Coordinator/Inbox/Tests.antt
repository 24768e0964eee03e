-- ===== src/Coordinator/Inbox/Tests.antt =====
-- Tests of the inbox at one message of the dashboard.
use dev_workflow_automation.Common.{
  Bool, true, none, strip, take, first_of, find, Result, ok, err, ◌≡◌, refl,
}
use dev_workflow_automation.Coordinator.Rows.{Tables, coordination_mode, authorized}
use dev_workflow_automation.Coordinator.Outbox.Tests.{settings, task}
use dev_workflow_automation.Coordinator.Runs.Tests.{asked}
use dev_workflow_automation.Coordinator.Inbox.{Message, InboxError, Surroundings, enqueue}
use dev_workflow_automation.Coordinator.Inbox.Redelivery.{enqueue_idempotent}
use dev_workflow_automation.Coordinator.Inbox.Answers.{Remembers, enqueue-Remembers}

abbrev surroundings : Surroundings
surroundings = record { settings = settings; identity = λ provider. none; debounce = 3 }

abbrev message : Message
message = record {
  provider = "dashboard";
  key = "k2";
  actor = "local-operator";
  body = "Use blue.";
  kind = "MESSAGE_ADDED";
  effect_ref = none;
  reply_provider = none;
  actor_type = none;
  human_request_id = none;
  head_sha = none;
  review_cycle_id = none;
}

abbrev tables_of : Result InboxError (Tables × Bool) → Tables
tables_of (ok (s, b)) = s
tables_of (err e) = asked

abbrev after : Tables
after = tables_of (enqueue surroundings asked task message 40)

taken : enqueue surroundings asked task message 40 ≡ ok (after, true)
unfolding enqueue coordination_mode authorized find first_of strip take
taken = refl

enqueue_idempotent_example : enqueue surroundings after task message 90 ≡ ok (after, true)
enqueue_idempotent_example =
    enqueue_idempotent surroundings asked after task message 40 90 true taken

enqueue-Remembers_example : Remembers asked after
enqueue-Remembers_example = enqueue-Remembers surroundings asked after task message 40 true taken
