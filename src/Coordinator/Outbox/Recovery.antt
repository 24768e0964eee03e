-- ===== src/Coordinator/Outbox/Recovery.antt =====
-- Recovery releases the deliveries that a stopped worker has left.
use dev_workflow_automation.Common.{
  ℕ, ◌+◌, ltb, Option, none, some, Bool, true, false, not, ◌&&◌, ◌||◌, In, In-map, ok, ◌≡◌, arith,
  subst, if-err-eq-ok,
}
use dev_workflow_automation.Coordinator.Protocol.{asks_review}
use dev_workflow_automation.Coordinator.Rows.{CoordinatorAction, Tables}
use dev_workflow_automation.Coordinator.Outbox.{
  DeliveryError, recover, is_sending, is_reconciling, is_unknown, recover_sending, recover_checking,
}
use dev_workflow_automation.Coordinator.Outbox.Pending.{ok-injective}
use dev_workflow_automation.Coordinator.Outbox.Settled.{released}

-- That time was more than two minutes ago.
abbrev pub was_left : Option ℕ → ℕ → Bool
was_left none now = false
was_left (some start) now = ltb (start + 120) now

-- A worker has left the row in the middle of a delivery or of a check, for two minutes.
abbrev pub is_stuck : ℕ → CoordinatorAction → Bool
is_stuck now a =
    is_sending a.status && was_left a.attempted_at now
    || is_reconciling a.status && was_left a.reconcile_started_at now

releases :
    (now : ℕ) (a : CoordinatorAction)
    → is_stuck now (recover_checking now (recover_sending now a)) ≡ false
releases now a = ground arith

interrupted :
    (now : ℕ) (a : CoordinatorAction)
    → (is_stuck now a ≡ true
        → is_unknown (recover_checking now (recover_sending now a)).status ≡ true)
      × ((is_sending a.status && was_left a.attempted_at now) ≡ true
          → (recover_checking now (recover_sending now a)).reconcile_requested
            ≡ not (asks_review a.kind))
interrupted now a = ground arith

same_id :
    (now : ℕ) (a : CoordinatorAction) → (recover_checking now (recover_sending now a)).id ≡ a.id
same_id now a = ground arith

-- When recovery succeeds, each action whose row is not locked is still there and is not stuck: a
-- delivery or a check that was left for two minutes is UNKNOWN, and an interrupted delivery is
-- looked up in the provider's history exactly if it is not a request for review.
pub recover_releases :
    (skipped : CoordinatorAction → Bool) (s s' : Tables) (now : ℕ) (a : CoordinatorAction)
    → recover skipped s now ≡ ok s'
    → In a s.actions
    → skipped a ≡ false
    → (b : CoordinatorAction) × In b s'.actions
      × (b.id ≡ a.id)
      × (is_stuck now b ≡ false)
      × (is_stuck now a ≡ true → is_unknown b.status ≡ true)
      × ((is_sending a.status && was_left a.attempted_at now) ≡ true
          → b.reconcile_requested ≡ not (asks_review a.kind))
unfolding recover
recover_releases skipped s s' now a h place free =
    let (_, done) = if-err-eq-ok _ DeliveryError.missing_time _ h in
    let image =
      subst (λ z. In (released skipped now a) z.actions) (ok-injective done)
        (In-map (released skipped now) a s.actions place) in
    let (uncertain, looked_up) = interrupted now a in
    (
      recover_checking now (recover_sending now a),
      (rw free at image),
      same_id now a,
      releases now a,
      uncertain,
      looked_up,
    )
