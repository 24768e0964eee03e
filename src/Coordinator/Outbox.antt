-- ===== src/Coordinator/Outbox.antt =====
-- The deliveries of coordinator/infrastructure/actions.py (`SqlCoordinationActions`) and the
-- operator's request of coordinator/infrastructure/administration.py. Each method is one
-- transaction, `err` rolls it back; `skipped` tells the rows that another transaction has locked.
-- The event rows are not modelled, and the texts of Loops leave out the name of an exception.
pub mod Steps
pub mod Pending
pub mod Claims
pub mod Once
pub mod Settled
pub mod Recovery
pub mod Authority
pub mod Loops
pub mod Tests
use dev_workflow_automation.Common.{
  ℕ, ◌+◌, ◌==◌, ltb, Bool, true, false, not, ◌&&◌, ◌||◌, Option, none, some, List, any, keep, map,
  String, if◌then◌else◌, first_of, find, amend, Result, ok, err, ◌>>=◌,
}
use dev_workflow_automation.Engineering.Rows.{Task, task_key}
use dev_workflow_automation.Coordinator.Protocol.{Directive, asks_review}
use dev_workflow_automation.Coordinator.Rows.{
  CoordinatorEvent, CoordinatorAction, ActionStatus, Outgoing, Tables, Settings, coordination_mode,
  is_active, authorized, is_running, at_versions, action_key, event_key,
}

pub record OutboundDelivery : Type 0 where
  pub action_id : ℕ
  pub task_id : ℕ
  pub provider : String
  pub message : String
  pub kind : Directive
  pub attempted_at : ℕ

pub record DeliveryClaim : Type 0 where
  pub handled : Bool
  pub delivery : Option OutboundDelivery

-- A key of `arguments` is missing, a time is missing, a row is gone, or the operator's request is
-- refused.
pub data DeliveryError : Type 0 where
  missing_argument missing_time missing_row not_found not_uncertain is_review : DeliveryError

abbrev pub is_delivery_pending : ActionStatus → Bool
is_delivery_pending ActionStatus.delivery_pending = true
is_delivery_pending _ = false

abbrev pub is_executed : ActionStatus → Bool
is_executed ActionStatus.executed = true
is_executed _ = false

abbrev pub is_unknown : ActionStatus → Bool
is_unknown ActionStatus.unknown = true
is_unknown _ = false

abbrev pub is_sending : ActionStatus → Bool
is_sending ActionStatus.sending = true
is_sending _ = false

abbrev pub is_reconciling : ActionStatus → Bool
is_reconciling ActionStatus.reconciling = true
is_reconciling _ = false

-- `order_by(created_at).with_for_update(skip_locked=True).limit(1)`
abbrev pub oldest :
    (CoordinatorAction → Bool)
    → (CoordinatorAction → Bool)
    → List CoordinatorAction
    → Option CoordinatorAction
oldest meets skipped rows =
    first_of (λ a b. ltb a.created_at b.created_at) (keep (λ a. meets a && not (skipped a)) rows)

abbrev pub change : Tables → ℕ → (CoordinatorAction → CoordinatorAction) → Tables
change s id f = record s { actions = amend action_key id f s.actions }

-- The conditions that come before the first key of `arguments`.
abbrev pub may_run : Tables → Option Task → Option CoordinatorEvent → Bool
may_run s (some t) (some e) = is_running s.db t && not t.manual_takeover
may_run s _ _ = false

abbrev pub may_send : Settings → Outgoing → Option Task → Option CoordinatorEvent → Bool
may_send set out (some t) (some e) =
    is_active (coordination_mode set out.provider)
    && at_versions t out.lifecycle_revision out.requirement_revision
    && authorized set t e
may_send set out _ _ = false

-- `_delivery`
abbrev pub delivery_of : CoordinatorAction → Outgoing → ℕ → OutboundDelivery
delivery_of a out attempted = record {
  action_id = a.id;
  task_id = a.task_id;
  provider = out.provider;
  message = out.message;
  kind = a.kind;
  attempted_at = attempted;
}

abbrev taken : Option OutboundDelivery → DeliveryClaim
taken d = record { handled = true; delivery = d }

abbrev reject : String → CoordinatorAction → CoordinatorAction
reject reason a = record a { status = ActionStatus.rejected; error = some reason }

abbrev pub begin_send : ℕ → CoordinatorAction → CoordinatorAction
begin_send now a = record a { status = ActionStatus.sending; attempted_at = some now }

abbrev pub revoke : Tables → CoordinatorAction → Tables × DeliveryClaim
revoke s a = (change s a.id (reject "Task changed or reply authority was revoked"), taken none)

abbrev pub hand_over : Settings → Tables → CoordinatorAction → Outgoing → ℕ → Tables × DeliveryClaim
hand_over set s a out now =
    if asks_review a.kind && not (is_active (coordination_mode set "github"))
    then (
      change s a.id (λ r. reject "GitHub coordination was disabled" (begin_send now r)),
      taken none,
    )
    else (change s a.id (begin_send now), taken (some (delivery_of a out now)))

abbrev pub claim_row :
    Settings
    → Tables
    → ℕ
    → CoordinatorAction
    → Option Outgoing
    → Result DeliveryError (Tables × DeliveryClaim)
claim_row set s now a none =
    if may_run s (find task_key a.task_id s.db.tasks) (find event_key a.event_id s.events)
    then err DeliveryError.missing_argument
    else ok (revoke s a)
claim_row set s now a (some out) =
    let t = find task_key a.task_id s.db.tasks in
    let e = find event_key a.event_id s.events in
    ok (if may_run s t e && may_send set out t e then hand_over set s a out now else revoke s a)

abbrev pub claim_oldest :
    Settings → Tables → ℕ → Option CoordinatorAction → Result DeliveryError (Tables × DeliveryClaim)
claim_oldest set s now none = ok (s, record { handled = false; delivery = none })
claim_oldest set s now (some a) = claim_row set s now a a.outgoing

unfoldable pub claim_delivery :
    Settings
    → (CoordinatorAction → Bool)
    → Tables
    → ℕ
    → Result DeliveryError (Tables × DeliveryClaim)
claim_delivery set skipped s now =
    claim_oldest set s now (oldest (λ a. is_delivery_pending a.status) skipped s.actions)

abbrev pub uncertain : String → Bool → CoordinatorAction → CoordinatorAction
uncertain reason reconcile a = record a {
  reconcile_requested = reconcile;
  status = ActionStatus.unknown;
  error = some reason;
}

abbrev pub confirmed : String → CoordinatorAction → CoordinatorAction
confirmed reference a = record a {
  status = ActionStatus.executed;
  provider_effect_ref = some reference;
  error = none;
}

abbrev pub unless_executed :
    Tables
    → (CoordinatorAction → CoordinatorAction)
    → Option CoordinatorAction
    → Result DeliveryError Tables
unless_executed s f none = err DeliveryError.missing_row
unless_executed s f (some a) = ok (if is_executed a.status then s else change s a.id f)

unfoldable pub fail_delivery :
    Tables → OutboundDelivery → String → Bool → Result DeliveryError Tables
fail_delivery s d reason reconcile =
    unless_executed s (uncertain reason reconcile) (find action_key d.action_id s.actions)

abbrev pub confirm : Tables → String → Option CoordinatorAction → Result DeliveryError Tables
confirm s reference none = err DeliveryError.missing_row
confirm s reference (some a) = ok (change s a.id (confirmed reference))

unfoldable pub complete_delivery : Tables → OutboundDelivery → String → Result DeliveryError Tables
complete_delivery s d reference = confirm s reference (find action_key d.action_id s.actions)

abbrev begin_check : ℕ → CoordinatorAction → CoordinatorAction
begin_check now a = record a {
  status = ActionStatus.reconciling;
  reconcile_requested = false;
  reconcile_started_at = some now;
}

abbrev pub check_row :
    Tables
    → ℕ
    → CoordinatorAction
    → Option ℕ
    → Option Outgoing
    → Result DeliveryError (Tables × Option OutboundDelivery)
check_row s now a none out = ok (s, none)
check_row s now a (some attempted) none = err DeliveryError.missing_argument
check_row s now a (some attempted) (some out) =
    ok (change s a.id (begin_check now), some (delivery_of a out attempted))

abbrev pub check_oldest :
    Tables → ℕ → Option CoordinatorAction → Result DeliveryError (Tables × Option OutboundDelivery)
check_oldest s now none = ok (s, none)
check_oldest s now (some a) = check_row s now a a.attempted_at a.outgoing

unfoldable pub claim_reconciliation :
    (CoordinatorAction → Bool)
    → Tables
    → ℕ
    → Result DeliveryError (Tables × Option OutboundDelivery)
claim_reconciliation skipped s now =
    check_oldest s now
      (oldest (λ a. is_unknown a.status && a.reconcile_requested) skipped s.actions)

abbrev pub verdict : Option String → String → CoordinatorAction → CoordinatorAction
verdict none error a = record a {
  status = ActionStatus.unknown;
  provider_effect_ref = none;
  error = some error;
}
verdict (some reference) error a = confirmed reference a

unfoldable pub complete_reconciliation :
    Tables → OutboundDelivery → Option String → String → Result DeliveryError Tables
complete_reconciliation s d reference error =
    unless_executed s (verdict reference error) (find action_key d.action_id s.actions)

-- `started < now - timedelta(minutes=2)`
abbrev pub is_stale : ℕ → ℕ → Bool
is_stale start now = ltb (start + 120) now

abbrev pub was_stale : Option ℕ → ℕ → Bool
was_stale none now = false
was_stale (some start) now = is_stale start now

abbrev pub recover_sending : ℕ → CoordinatorAction → CoordinatorAction
recover_sending now a =
    if is_sending a.status && was_stale a.attempted_at now
    then uncertain "Interrupted delivery; inspect provider conversation before retrying"
        (not (asks_review a.kind)) a
    else a

abbrev pub recover_checking : ℕ → CoordinatorAction → CoordinatorAction
recover_checking now a =
    if is_reconciling a.status && was_stale a.reconcile_started_at now
    then record a {
      status = ActionStatus.unknown;
      error = some "Delivery verification was interrupted; check again";
    }
    else a

abbrev has_no_start : CoordinatorAction → Bool
has_no_start a =
    is_reconciling a.status && elim a.reconcile_started_at [ none ↦ true | some n ↦ false ]

-- A check that has no recorded start raises an exception.
unfoldable pub recover : (CoordinatorAction → Bool) → Tables → ℕ → Result DeliveryError Tables
recover skipped s now =
    if any (λ a. has_no_start a && not (skipped a)) s.actions
    then err DeliveryError.missing_time
    else ok (record s {
      actions =
          map (λ a. if skipped a then a else recover_checking now (recover_sending now a))
            s.actions;
    })

abbrev pub ask_row : Tables → ℕ → Option CoordinatorAction → Result DeliveryError Tables
ask_row s task_id none = err DeliveryError.not_found
ask_row s task_id (some a) =
    if not (a.task_id == task_id)
    then err DeliveryError.not_found
    else if not (is_unknown a.status)
    then err DeliveryError.not_uncertain
    else if asks_review a.kind
    then err DeliveryError.is_review
    else ok (change s a.id (λ r. record r { reconcile_requested = true }))

-- `SqlCoordinationAdministration.reconcile`
unfoldable pub reconcile : Tables → ℕ → ℕ → Result DeliveryError Tables
reconcile s task_id action_id = ask_row s task_id (find action_key action_id s.actions)
