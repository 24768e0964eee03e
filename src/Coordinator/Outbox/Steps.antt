-- ===== src/Coordinator/Outbox/Steps.antt =====
-- The transactions of the workers and of the operator, in any order.
use dev_workflow_automation.Common.{ℕ, Bool, Option, none, some, List, [], ◌∷◌, String, ok, ◌≡◌}
use dev_workflow_automation.Coordinator.Rows.{CoordinatorAction, Tables, Settings}
use dev_workflow_automation.Coordinator.Outbox.{
  OutboundDelivery, DeliveryClaim, claim_delivery, complete_delivery, fail_delivery,
  claim_reconciliation, complete_reconciliation, recover, reconcile,
}

-- The message of this claim goes to the provider.
abbrev pub sent : Option OutboundDelivery → List ℕ → List ℕ
sent none log = log
sent (some d) log = d.action_id ∷ log

-- One transaction of a worker or of the operator, with the messages handed over so far. A report
-- may come at any time, or never, and for any delivery.
pub data Step (set : Settings) : Tables → List ℕ → Tables → List ℕ → Type 0 where
  claims :
      {s s' : Tables} {log : List ℕ} (skipped : CoordinatorAction → Bool) (now : ℕ)
      (c : DeliveryClaim)
      → claim_delivery set skipped s now ≡ ok (s', c)
      → Step set s log s' (sent c.delivery log)
  completes :
      {s s' : Tables} {log : List ℕ} (d : OutboundDelivery) (reference : String)
      → complete_delivery s d reference ≡ ok s'
      → Step set s log s' log
  fails :
      {s s' : Tables} {log : List ℕ} (d : OutboundDelivery) (reason : String) (again : Bool)
      → fail_delivery s d reason again ≡ ok s'
      → Step set s log s' log
  checks :
      {s s' : Tables} {log : List ℕ} (skipped : CoordinatorAction → Bool) (now : ℕ)
      (o : Option OutboundDelivery)
      → claim_reconciliation skipped s now ≡ ok (s', o)
      → Step set s log s' log
  checked :
      {s s' : Tables} {log : List ℕ} (d : OutboundDelivery) (reference : Option String)
      (error : String)
      → complete_reconciliation s d reference error ≡ ok s'
      → Step set s log s' log
  recovers :
      {s s' : Tables} {log : List ℕ} (skipped : CoordinatorAction → Bool) (now : ℕ)
      → recover skipped s now ≡ ok s'
      → Step set s log s' log
  asks :
      {s s' : Tables} {log : List ℕ} (task_id action_id : ℕ)
      → reconcile s task_id action_id ≡ ok s'
      → Step set s log s' log

pub data Reaches (set : Settings) (start : Tables) : Tables → List ℕ → Type 0 where
  begins : Reaches set start start []
  steps :
      {s s' : Tables} {log log' : List ℕ}
      → Reaches set start s log
      → Step set s log s' log'
      → Reaches set start s' log'
