-- ===== src/Coordinator/Outbox/Once.antt =====
-- No message is handed to a provider twice, whatever the workers do and wherever they stop.
use dev_workflow_automation.Common.{
  ℕ, Bool, true, not, ◌&&◌, Option, none, some, List, [], ◌∷◌, In, keep-In, first_of-mem, ok, ◌≡◌,
  refl, sym, ◌∙◌, inl, inr, and-eq_true, subst, ap,
}
use dev_workflow_automation.Coordinator.Rows.{CoordinatorAction, Tables, Settings}
use dev_workflow_automation.Coordinator.Outbox.{
  DeliveryClaim, claim_delivery, claim_oldest, complete_delivery, fail_delivery,
  claim_reconciliation, complete_reconciliation, reconcile, oldest, is_delivery_pending,
}
use dev_workflow_automation.Coordinator.Outbox.Pending.{
  NoneAdded, not-pending, ok-pair-injective, confirm-Keeps, unless_executed-Keeps, verdict-Keeps,
  check_oldest-Keeps, ask_row-Keeps, recover-Keeps,
}
use dev_workflow_automation.Coordinator.Outbox.Claims.{
  Takes, claim_row-Takes, Takes-NoneAdded, Takes-away,
}
use dev_workflow_automation.Coordinator.Outbox.Steps.{
  sent, Step, claims, completes, fails, checks, checked, recovers, asks, Reaches, begins, steps,
}

-- No identifier stands twice.
abbrev pub NoRepeats : List ℕ → Type 0
NoRepeats [] = Unit
NoRepeats (i ∷ log) = (¬ In i log) × NoRepeats log

-- A pending delivery has not been handed over.
abbrev Unsent : Tables → List ℕ → Type 0
Unsent s log =
    (a : CoordinatorAction) → In a s.actions → is_delivery_pending a.status ≡ true → ¬ In a.id log

abbrev IsFresh : Tables → List ℕ → Type 0
IsFresh s log = NoRepeats log × Unsent s log

NoneAdded-IsFresh :
    (s s' : Tables) (log : List ℕ) → NoneAdded s.actions s'.actions → IsFresh s log → IsFresh s' log
NoneAdded-IsFresh s s' log fewer (once, unsent) = (
  once,
  λ a place waits before.
      let (b, old, waited, same) = fewer a place waits in
      unsent b old waited (subst (λ i. In i log) (sym same) before),
)

Takes-IsFresh :
    (s s' : Tables) (log : List ℕ) (a : CoordinatorAction) (c : DeliveryClaim)
    → In a s.actions
    → is_delivery_pending a.status ≡ true
    → Takes s a s' c
    → IsFresh s log
    → IsFresh s' (sent c.delivery log)
Takes-IsFresh s s' log a c place waits takes (once, unsent) =
    let kept = NoneAdded-IsFresh s s' log (Takes-NoneAdded s s' a c takes) (once, unsent) in
    elim takes.4 [
      | inl none_sent ↦ subst (λ o. IsFresh s' (sent o log)) (sym none_sent) kept
      | inr (d, some_sent, same) ↦
          subst (λ o. IsFresh s' (sent o log)) (sym some_sent)
            (
              (λ m. unsent a place waits (subst (λ i. In i log) same m), once),
              λ b there w m. elim m [
                | inl e ↦ Takes-away s s' a c takes b there w (e ∙ same)
                | inr before ↦ kept.1 b there w before
              ],
            )
    ]

claim-IsFresh :
    (set : Settings) (skipped : CoordinatorAction → Bool) (s s' : Tables) (log : List ℕ) (now : ℕ)
    (c : DeliveryClaim) (o : Option CoordinatorAction)
    → o ≡ oldest (λ a. is_delivery_pending a.status) skipped s.actions
    → claim_oldest set s now o ≡ ok (s', c)
    → IsFresh s log
    → IsFresh s' (sent c.delivery log)
claim-IsFresh set skipped s s' log now c none found h fresh =
    let (same, idle) = ok-pair-injective h in
    let none_sent : none ≡ c.delivery = ap (λ x. x.delivery) idle in
    subst (λ q. IsFresh q (sent c.delivery log)) same
      (subst (λ m. IsFresh s (sent m log)) none_sent fresh)
claim-IsFresh set skipped s s' log now c (some a) found h fresh =
    let first = first_of-mem _ _ a (sym found) in
    let (place, meets) =
      keep-In (λ b. is_delivery_pending b.status && not (skipped b)) a s.actions first in
    Takes-IsFresh s s' log a c place (and-eq_true (is_delivery_pending a.status) _ meets).0
      (claim_row-Takes set s s' now a a.outgoing c h) fresh

Step-IsFresh :
    {set : Settings} {s s' : Tables} {log log' : List ℕ}
    → Step set s log s' log'
    → IsFresh s log
    → IsFresh s' log'
unfolding claim_delivery complete_delivery fail_delivery claim_reconciliation
    complete_reconciliation reconcile
Step-IsFresh {s = s} {s' = s'} {log = log} (claims skipped now c h) fresh =
    claim-IsFresh _ skipped s s' log now c _ refl h fresh
Step-IsFresh {s = s} {s' = s'} {log = log} (completes d reference h) fresh =
    NoneAdded-IsFresh s s' log (confirm-Keeps s s' reference _ h) fresh
Step-IsFresh {s = s} {s' = s'} {log = log} (fails d reason again h) fresh =
    NoneAdded-IsFresh s s' log (unless_executed-Keeps s s' _ _ (λ a w. not-pending w) (λ a. refl) h)
      fresh
Step-IsFresh {s = s} {s' = s'} {log = log} (checks skipped now o h) fresh =
    NoneAdded-IsFresh s s' log (check_oldest-Keeps s s' now _ o h) fresh
Step-IsFresh {s = s} {s' = s'} {log = log} (checked d reference error h) fresh =
    NoneAdded-IsFresh s s' log
      (unless_executed-Keeps s s' _ _
        (λ a w. not-pending (sym (verdict-Keeps reference error a).0 ∙ w))
        (λ a. (verdict-Keeps reference error a).1) h)
      fresh
Step-IsFresh {s = s} {s' = s'} {log = log} (recovers skipped now h) fresh =
    NoneAdded-IsFresh s s' log (recover-Keeps skipped s s' now h) fresh
Step-IsFresh {s = s} {s' = s'} {log = log} (asks task_id action_id h) fresh =
    NoneAdded-IsFresh s s' log (ask_row-Keeps s s' task_id _ h) fresh

-- Over any interleaving of claims, reports, checks, recoveries and requests of the operator, with
-- reports that are late, lost or of any delivery, no action's message is handed over twice.
pub sent_once :
    (set : Settings) (start s : Tables) (log : List ℕ) → Reaches set start s log → NoRepeats log
sent_once set start s log run = (reached-IsFresh run).0
  where
    reached-IsFresh : {s' : Tables} {log' : List ℕ} → Reaches set start s' log' → IsFresh s' log'
    reached-IsFresh begins = (tt, λ a place waits m. m)
    reached-IsFresh (steps before next) = Step-IsFresh next (reached-IsFresh before)
