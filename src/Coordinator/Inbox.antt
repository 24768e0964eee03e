-- ===== src/Coordinator/Inbox.antt =====
-- coordinator/infrastructure/inbox.py: `enqueue`. The identities of the integrations (`identity`,
-- none for none or an empty one) and the delay before a decision (`debounce`) are arguments.
pub mod Redelivery
pub mod Answers
pub mod Responses
pub mod Tests
use Prim.Native.String.{◌++◌ as str_append, count}
use dev_workflow_automation.Common.{
  ℕ, ◌+◌, ◌==◌, ltb, Bool, true, false, not, ◌&&◌, ◌||◌, Option, none, some, List, [], ◌∷◌, any,
  keep, String, str_eq, strip, take, if◌then◌else◌, first_of, find, amend, Result, ok, err,
}
use dev_workflow_automation.Engineering.Lifecycle.{TaskStatus}
use dev_workflow_automation.Engineering.Rows.{Task, task_key}
use dev_workflow_automation.Coordinator.Protocol.{is_suspended}
use dev_workflow_automation.Coordinator.Rows.{
  CoordinatorEvent, EventStatus, CoordinatorMode, CoordinatorAction, ActionStatus, Outgoing,
  HumanRequest, RequestStatus, Tables, Settings, coordination_mode, is_active, authorized,
  is_running, at_versions, action_key, request_key,
}
use dev_workflow_automation.Coordinator.Guards.{is_current_request}

-- The arguments of `enqueue`; the columns from `effect_ref` on are keys of `context`.
pub record Message : Type 0 where
  pub provider : String
  pub key : String
  pub actor : String
  pub body : String
  pub kind : String
  pub effect_ref : Option String
  pub reply_provider : Option String
  pub actor_type : Option String
  pub human_request_id : Option ℕ
  pub head_sha : Option String
  pub review_cycle_id : Option ℕ

pub data InboxError : Type 0 where
  bad_length suspended not_found already_answered task_changed inactive : InboxError

-- What `enqueue` is told of the rest of the program.
pub record Surroundings : Type 0 where
  pub settings : Settings
  pub identity : String → Option String
  pub debounce : ℕ

abbrev pub is_off : CoordinatorMode → Bool
is_off CoordinatorMode.off = true
is_off _ = false

abbrev pub is_same_delivery : Message → CoordinatorEvent → Bool
is_same_delivery m e = str_eq e.provider m.provider && str_eq e.delivery_key m.key

abbrev pub is_known : Tables → Message → Bool
is_known s m = any (is_same_delivery m) s.events

abbrev is_text : Option String → String → Bool
is_text none text = false
is_text (some x) text = str_eq x text

-- An effect of the coordinator on the task has this reference.
abbrev pub is_own_effect : Tables → Task → Option String → Bool
is_own_effect s t none = false
is_own_effect s t (some ref) =
    not (str_eq ref "")
    && any (λ a. is_text a.provider_effect_ref ref && a.task_id == t.id) s.actions

abbrev is_outside : String → Bool
is_outside provider = not (str_eq provider "dashboard" || str_eq provider "engineering")

abbrev pub is_own_actor : Surroundings → Message → Bool
is_own_actor w m = is_outside m.provider && is_text (w.identity m.provider) m.actor

-- `status in ("SENDING", "UNKNOWN", "RECONCILING", "EXECUTED")`
abbrev may_have_left : ActionStatus → Bool
may_have_left ActionStatus.sending = true
may_have_left ActionStatus.unknown = true
may_have_left ActionStatus.reconciling = true
may_have_left ActionStatus.executed = true
may_have_left _ = false

abbrev says : Option Outgoing → Message → Bool
says none m = false
says (some out) m = str_eq out.provider m.provider && str_eq out.message m.body

-- The latest message of the outbox that the message may be the echo of.
abbrev pub echoed : Tables → Task → Message → Option CoordinatorAction
echoed s t m =
    first_of (λ a b. ltb b.created_at a.created_at)
      (keep (λ a. a.task_id == t.id && may_have_left a.status && says a.outgoing m) s.actions)

abbrev pub confirm : Option String → CoordinatorAction → CoordinatorAction
confirm none a = a
confirm (some ref) a =
    if str_eq ref ""
    then a
    else record a { provider_effect_ref = some ref; status = ActionStatus.executed }

abbrev pub add_event : CoordinatorEvent → Tables → Tables
add_event e s = record s { events = e ∷ s.events; next_id = s.next_id + 1 }

abbrev pub echo_event : Tables → Task → Message → CoordinatorAction → ℕ → CoordinatorEvent
echo_event s t m a now = record {
  id = s.next_id;
  task_id = t.id;
  provider = m.provider;
  delivery_key = m.key;
  kind = "EFFECT_CONFIRMED";
  actor = m.actor;
  status = EventStatus.echo;
  run_id = none;
  available_at = now;
  created_at = now;
  body = "";
  reply_provider = none;
  actor_type = none;
  human_request_id = none;
  head_sha = none;
  body_truncated = false;
  review_cycle_id = none;
  action_id = some a.id;
}

abbrev pub note_echo : Tables → Task → Message → CoordinatorAction → ℕ → Tables
note_echo s t m a now =
    add_event (echo_event s t m a now)
      (record s { actions = amend action_key a.id (confirm m.effect_ref) s.actions })

abbrev pub new_event : Surroundings → Tables → Task → Message → ℕ → CoordinatorEvent
new_event w s t m now = record {
  id = s.next_id;
  task_id = t.id;
  provider = m.provider;
  delivery_key = m.key;
  kind = m.kind;
  actor = m.actor;
  status = EventStatus.queued;
  run_id = none;
  available_at = now + w.debounce;
  created_at = now;
  body = take 8000 m.body;
  reply_provider = m.reply_provider;
  actor_type = m.actor_type;
  human_request_id = m.human_request_id;
  head_sha = m.head_sha;
  body_truncated = ltb 8000 (count m.body);
  review_cycle_id = m.review_cycle_id;
  action_id = none;
}

abbrev asked_on : String → Option Outgoing → Bool
asked_on provider none = false
asked_on provider (some out) = str_eq out.provider provider

-- An action of the request's run was sent to the provider; the dashboard answers all of them.
abbrev is_asked_there : Tables → String → HumanRequest → Bool
is_asked_there s provider h =
    any (λ a. a.run_id == h.run_id && (asked_on provider a.outgoing || str_eq provider "dashboard"))
      s.actions

-- The latest current request that the same conversation can answer.
abbrev pub open_question : Tables → Task → String → Option HumanRequest
open_question s t provider =
    first_of (λ a b. ltb b.created_at a.created_at)
      (keep
        (λ h.
          h.task_id == t.id
          && is_current_request h.status
          && at_versions t h.lifecycle_revision h.requirement_revision
          && is_asked_there s provider h)
        s.human_requests)

abbrev id_of : Option HumanRequest → Option ℕ
id_of none = none
id_of (some h) = some h.id

-- The request that the message says, or that the conversation has open.
abbrev pub request_named : Tables → Task → Message → Option ℕ → Option ℕ
request_named s t m (some id) = some id
request_named s t m none = id_of (open_question s t m.provider)

abbrev fits : Task → HumanRequest → Bool
fits t h = h.task_id == t.id && is_current_request h.status

abbrev of_task : Task → Option HumanRequest → Option HumanRequest
of_task t none = none
of_task t (some h) = if fits t h then some h else none

abbrev pub request_of : Tables → Task → Option ℕ → Option HumanRequest
request_of s t none = none
request_of s t (some id) = of_task t (find request_key id s.human_requests)

abbrev pub is_opened : RequestStatus → Bool
is_opened RequestStatus.opened = true
is_opened _ = false

abbrev pub answer : String → ℕ → HumanRequest → HumanRequest
answer body now h =
    if is_opened h.status
    then record h {
      answer = some (take 8000 body);
      status = RequestStatus.answered;
      answered_at = some now;
    }
    else h

abbrev pub responded : ℕ → CoordinatorEvent → CoordinatorEvent
responded id e = record e { kind = "HUMAN_RESPONSE"; human_request_id = some id }

abbrev pub with_request : Option ℕ → CoordinatorEvent → CoordinatorEvent
with_request id e = record e { human_request_id = id }

abbrev pub attach_row :
    Tables → Task → Message → CoordinatorEvent → Option ℕ → ℕ → Option HumanRequest → Tables
attach_row s t m e id now none = add_event (with_request id e) s
attach_row s t m e id now (some h) =
    if at_versions t h.lifecycle_revision h.requirement_revision
    then add_event (responded h.id e)
        (record s { human_requests = amend request_key h.id (answer m.body now) s.human_requests })
    else add_event (with_request id e) s

abbrev pub attach : Tables → Task → Message → CoordinatorEvent → Bool → ℕ → Tables
attach s t m e false now = add_event e s
attach s t m e true now =
    let id = request_named s t m m.human_request_id in attach_row s t m e id now (request_of s t id)

abbrev pub refuse : CoordinatorEvent → CoordinatorEvent
refuse e = record e { status = EventStatus.unauthorized }

abbrev pub admit : Surroundings → Tables → Task → Message → Bool → ℕ → Tables
admit w s t m active now =
    let e = new_event w s t m now in
    if not (authorized w.settings t e) then add_event (refuse e) s else attach s t m e active now

abbrev pub take_in :
    Surroundings → Tables → Task → Message → Bool → ℕ → Option CoordinatorAction → Tables
take_in w s t m active now none = admit w s t m active now
take_in w s t m active now (some a) =
    if is_own_actor w m then note_echo s t m a now else admit w s t m active now

abbrev pub now_of : Task → Option Task → Task
now_of t none = t
now_of t (some t') = t'

abbrev pub is_bad_length : String → Bool
is_bad_length body = str_eq (strip body) "" || ltb 16000 (count body)

unfoldable pub enqueue :
    Surroundings → Tables → Task → Message → ℕ → Result InboxError (Tables × Bool)
enqueue w s task m now =
    let mode = coordination_mode w.settings m.provider in
    let t = now_of task (find task_key task.id s.db.tasks) in
    if is_off mode
    then ok (s, false)
    else if is_bad_length m.body
    then err InboxError.bad_length
    else if is_known s m
    then ok (s, is_active mode)
    else if is_own_effect s t m.effect_ref
    then ok (s, is_active mode)
    else ok (take_in w s t m (is_active mode) now (echoed s t m), is_active mode)
