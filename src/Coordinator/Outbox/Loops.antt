-- ===== src/Coordinator/Outbox/Loops.antt =====
-- coordinator/application/actions.py: `deliver_one` and `reconcile_one`, with what the provider
-- answers as an argument.
use dev_workflow_automation.Common.{
  ℕ, Bool, true, false, not, Option, none, some, String, Result, ok, ◌>>=◌,
}
use dev_workflow_automation.Coordinator.Protocol.{asks_review}
use dev_workflow_automation.Coordinator.Rows.{CoordinatorAction, Tables, Settings}
use dev_workflow_automation.Coordinator.Outbox.{
  OutboundDelivery, DeliveryClaim, DeliveryError, claim_delivery, fail_delivery, complete_delivery,
  claim_reconciliation, complete_reconciliation,
}

-- `deliver_one`, with the provider's answer: the reference of the effect, or none for an exception.
abbrev report_delivery : Tables → OutboundDelivery → Option String → Result DeliveryError Tables
report_delivery s d none =
    fail_delivery s d "Delivery not confirmed; inspect the original conversation before retrying"
      (not (asks_review d.kind))
report_delivery s d (some reference) = complete_delivery s d reference

abbrev pub deliver_claimed :
    (OutboundDelivery → Option String)
    → Tables × DeliveryClaim
    → Result DeliveryError (Tables × Bool)
deliver_claimed send (s, claim) = elim claim.delivery [
  | none ↦ ok (s, claim.handled)
  | some d ↦ report_delivery s d (send d) >>= (λ s. ok (s, true))
]

unfoldable pub deliver_one :
    Settings
    → (CoordinatorAction → Bool)
    → (OutboundDelivery → Option String)
    → Tables
    → ℕ
    → Result DeliveryError (Tables × Bool)
deliver_one set skipped send s now = claim_delivery set skipped s now >>= deliver_claimed send

-- What the provider's history says of a message: an exception, no match, or the match.
pub data Lookup : Type 0 where
  unavailable no_match : Lookup
  matched : String → Lookup

abbrev report_check : Tables → OutboundDelivery → Lookup → Result DeliveryError Tables
report_check s d Lookup.unavailable =
    complete_reconciliation s d none "Delivery verification unavailable; no resend occurred"
report_check s d Lookup.no_match =
    complete_reconciliation s d none
      "Delivery still uncertain; bounded provider history did not identify a unique matching message. No resend occurred."
report_check s d (Lookup.matched reference) = complete_reconciliation s d (some reference) ""

abbrev pub check_claimed :
    (OutboundDelivery → Lookup)
    → Tables × Option OutboundDelivery
    → Result DeliveryError (Tables × Bool)
check_claimed lookup (s, none) = ok (s, false)
check_claimed lookup (s, some d) = report_check s d (lookup d) >>= (λ s. ok (s, true))

unfoldable pub reconcile_one :
    (CoordinatorAction → Bool)
    → (OutboundDelivery → Lookup)
    → Tables
    → ℕ
    → Result DeliveryError (Tables × Bool)
reconcile_one skipped lookup s now = claim_reconciliation skipped s now >>= check_claimed lookup
