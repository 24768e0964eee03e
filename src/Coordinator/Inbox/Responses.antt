-- ===== src/Coordinator/Inbox/Responses.antt =====
-- coordinator/infrastructure/inbox.py: `human_response` and `notify_observation`.
use Prim.Native.String.{◌++◌ as str_append}
use dev_workflow_automation.Common.{
  ℕ, ◌+◌, ◌==◌, Bool, false, not, ◌&&◌, ◌||◌, Option, none, some, any, String, str_eq, take,
  if◌then◌else◌, find, Result, ok, err,
}
use dev_workflow_automation.Engineering.Rows.{Task}
use dev_workflow_automation.Coordinator.Protocol.{is_suspended}
use dev_workflow_automation.Coordinator.Rows.{
  CoordinatorEvent, EventStatus, HumanRequest, Tables, coordination_mode, is_active, is_running,
  at_versions, request_key,
}
use dev_workflow_automation.Coordinator.Inbox.{
  Message, InboxError, Surroundings, is_off, add_event, is_opened, enqueue,
}

abbrev answer_message : (ℕ → String) → ℕ → String → Message
answer_message text id body = record {
  provider = "dashboard";
  key = str_append "human:" (text id);
  actor = "local-operator";
  body = body;
  kind = "HUMAN_RESPONSE";
  effect_ref = none;
  reply_provider = none;
  actor_type = none;
  human_request_id = some id;
  head_sha = none;
  review_cycle_id = none;
}

abbrev sent : Result InboxError (Tables × Bool) → Result InboxError Tables
sent (ok (s, active)) = ok s
sent (err e) = err e

abbrev pub respond_row :
    Surroundings
    → (ℕ → String)
    → Tables
    → Task
    → ℕ
    → String
    → ℕ
    → Option HumanRequest
    → Result InboxError Tables
respond_row w text s t id body now none = err InboxError.not_found
respond_row w text s t id body now (some h) =
    if not (h.task_id == t.id)
    then err InboxError.not_found
    else if not (is_opened h.status)
    then err InboxError.already_answered
    else if not (at_versions t h.lifecycle_revision h.requirement_revision)
    then err InboxError.task_changed
    else if not (is_active (coordination_mode w.settings "dashboard"))
    then err InboxError.inactive
    else sent (enqueue w s t (answer_message text id body) now)

-- `text` is the text of an identifier.
unfoldable pub human_response :
    Surroundings → (ℕ → String) → Tables → Task → ℕ → String → ℕ → Result InboxError Tables
human_response w text s t id body now =
    if not (is_running s.db t) || t.manual_takeover || is_suspended t.status
    then err InboxError.suspended
    else respond_row w text s t id body now (find request_key id s.human_requests)

abbrev observation :
    Surroundings → Tables → Task → String → String → String → String → ℕ → CoordinatorEvent
observation w s t kind key provider body now = record {
  id = s.next_id;
  task_id = t.id;
  provider = "engineering";
  delivery_key = key;
  kind = kind;
  actor = "engineering";
  status = EventStatus.queued;
  run_id = none;
  available_at = now + w.debounce;
  created_at = now;
  body = take 8000 body;
  reply_provider = some provider;
  actor_type = none;
  human_request_id = none;
  head_sha = none;
  body_truncated = false;
  review_cycle_id = none;
  action_id = none;
}

-- `key` is the whole delivery key, with the task.
unfoldable pub notify_observation :
    Surroundings → Tables → Task → String → String → String → String → ℕ → Tables
notify_observation w s t kind key provider body now =
    if is_off (coordination_mode w.settings provider)
    then s
    else if any (λ e. str_eq e.provider "engineering" && str_eq e.delivery_key key) s.events
    then s
    else add_event (observation w s t kind key provider body now) s
