-- ===== src/Coordinator/Outbox/Settled.antt =====
-- A confirmed delivery stays confirmed, and an interrupted one is released.
use dev_workflow_automation.Common.{
  ℕ, ◌==◌, Bool, true, false, not, ◌&&◌, Option, none, some, List, In, In-map, map, keep-In, String,
  if◌then◌else◌, first_of-mem, find, find-In, In-find, Distinct, In-amend, ok, ◌≡◌, refl, sym, ◌∙◌,
  inl, inr, arith, and-eq_true, Bool-cases, subst, ap, true-false, if-err-eq-ok, some-injective,
}
use dev_workflow_automation.Coordinator.Protocol.{asks_review}
use dev_workflow_automation.Coordinator.Rows.{
  CoordinatorAction, ActionStatus, Outgoing, Tables, Settings, action_key,
}
use dev_workflow_automation.Coordinator.Outbox.{
  OutboundDelivery, DeliveryClaim, DeliveryError, claim_delivery, claim_oldest, complete_delivery,
  fail_delivery, claim_reconciliation, complete_reconciliation, recover, reconcile, change, oldest,
  is_delivery_pending, is_executed, is_unknown, is_sending, is_reconciling, unless_executed,
  confirm, confirmed, check_row, check_oldest, ask_row, recover_sending, recover_checking,
}
use dev_workflow_automation.Coordinator.Outbox.Pending.{ok-injective, ok-pair-injective}
use dev_workflow_automation.Coordinator.Outbox.Claims.{claim_row-Takes}
use dev_workflow_automation.Coordinator.Outbox.Steps.{
  Step, claims, completes, fails, checks, checked, recovers, asks,
}

-- A confirmed row is a confirmed row of the same identifier afterwards.
abbrev pub Stays : Tables → Tables → Type 0
Stays s s' =
    (a : CoordinatorAction)
    → In a s.actions
    → is_executed a.status ≡ true
    → (b : CoordinatorAction) × In b s'.actions × (b.id ≡ a.id) × (is_executed b.status ≡ true)

pub same-Stays : (s : Tables) → Stays s s
same-Stays s a place done = (a, place, refl, done)

-- The one row of an identifier is not confirmed.
unconfirmed :
    (s : Tables) (a old : CoordinatorAction)
    → Distinct action_key s.actions
    → In old s.actions
    → is_executed old.status ≡ false
    → In a s.actions
    → is_executed a.status ≡ true
    → (a.id == old.id) ≡ false
unconfirmed s a old d there free place done = elim (Bool-cases (a.id == old.id)) [
  | inl here ↦
      let same : a.id ≡ old.id = ground arith in
      let found =
        subst (λ i. find action_key i s.actions ≡ some a) same
          (In-find action_key s.actions a d place) in
      let e : a ≡ old = some-injective (sym found ∙ In-find action_key s.actions old d there) in
      absurd (true-false (sym done ∙ ap (λ r. is_executed r.status) e ∙ free))
  | inr away ↦ away
]

waiting-open : (x : ActionStatus) → is_delivery_pending x ≡ true → is_executed x ≡ false
waiting-open x h = ground arith

unknown-open : (x : ActionStatus) → is_unknown x ≡ true → is_executed x ≡ false
unknown-open x h = ground arith

pub change-Stays :
    (s : Tables) (old : CoordinatorAction) (f : CoordinatorAction → CoordinatorAction)
    → Distinct action_key s.actions
    → In old s.actions
    → is_executed old.status ≡ false
    → Stays s (change s old.id f)
change-Stays s old f d there free a place done =
    let away = unconfirmed s a old d there free place done in
    let image = In-amend action_key old.id f s.actions a place in
    (a, (rw away at image), refl, done)

confirm-Stays :
    (s s' : Tables) (reference : String) (o : Option CoordinatorAction)
    → confirm s reference o ≡ ok s'
    → Stays s s'
confirm-Stays s s' reference none h = cc
confirm-Stays s s' reference (some old) h = subst (Stays s) (ok-injective h) (λ a place done.
    let image = In-amend action_key old.id (confirmed reference) s.actions a place in
    elim (Bool-cases (a.id == old.id)) [
      | inl here ↦ (_, (rw here at image), refl, refl)
      | inr away ↦ (a, (rw away at image), refl, done)
    ])

unless_executed-Stays :
    (s s' : Tables) (i : ℕ) (f : CoordinatorAction → CoordinatorAction)
    (o : Option CoordinatorAction)
    → Distinct action_key s.actions
    → o ≡ find action_key i s.actions
    → unless_executed s f o ≡ ok s'
    → Stays s s'
unless_executed-Stays s s' i f none d found h = cc
unless_executed-Stays s s' i f (some a) d found h = elim (Bool-cases (is_executed a.status)) [
  | inl settled ↦ subst (Stays s) (ok-injective (rw settled at h)) (same-Stays s)
  | inr still ↦
      subst (Stays s) (ok-injective (rw still at h))
        (change-Stays s a f d (find-In action_key i s.actions a (sym found)) still)
]

claim-Stays :
    (set : Settings) (skipped : CoordinatorAction → Bool) (s s' : Tables) (now : ℕ)
    (c : DeliveryClaim) (o : Option CoordinatorAction)
    → Distinct action_key s.actions
    → o ≡ oldest (λ a. is_delivery_pending a.status) skipped s.actions
    → claim_oldest set s now o ≡ ok (s', c)
    → Stays s s'
claim-Stays set skipped s s' now c none d found h =
    subst (Stays s) (ok-pair-injective h).0 (same-Stays s)
claim-Stays set skipped s s' now c (some a) d found h =
    let first = first_of-mem _ _ a (sym found) in
    let (place, meets) =
      keep-In (λ b. is_delivery_pending b.status && not (skipped b)) a s.actions first in
    let waits : is_delivery_pending a.status ≡ true =
      (and-eq_true (is_delivery_pending a.status) _ meets).0 in
    let (f, e, _, _, _) = claim_row-Takes set s s' now a a.outgoing c h in
    subst (Stays s) (sym e) (change-Stays s a f d place (waiting-open a.status waits))

check_row-Stays :
    (s s' : Tables) (now : ℕ) (a : CoordinatorAction) (t : Option ℕ) (out : Option Outgoing)
    (o : Option OutboundDelivery)
    → Distinct action_key s.actions
    → In a s.actions
    → is_executed a.status ≡ false
    → check_row s now a t out ≡ ok (s', o)
    → Stays s s'
check_row-Stays s s' now a none out o d place still h =
    subst (Stays s) (ok-pair-injective h).0 (same-Stays s)
check_row-Stays s s' now a (some t) none o d place still h = cc
check_row-Stays s s' now a (some t) (some out) o d place still h =
    subst (Stays s) (ok-pair-injective h).0 (change-Stays s a _ d place still)

check-Stays :
    (skipped : CoordinatorAction → Bool) (s s' : Tables) (now : ℕ) (c : Option OutboundDelivery)
    (o : Option CoordinatorAction)
    → Distinct action_key s.actions
    → o ≡ oldest (λ a. is_unknown a.status && a.reconcile_requested) skipped s.actions
    → check_oldest s now o ≡ ok (s', c)
    → Stays s s'
check-Stays skipped s s' now c none d found h =
    subst (Stays s) (ok-pair-injective h).0 (same-Stays s)
check-Stays skipped s s' now c (some a) d found h =
    let first = first_of-mem _ _ a (sym found) in
    let (place, meets) =
      keep-In (λ b. (is_unknown b.status && b.reconcile_requested) && not (skipped b)) a s.actions
        first in
    let asked = (and-eq_true (is_unknown a.status && a.reconcile_requested) _ meets).0 in
    let unknown = (and-eq_true (is_unknown a.status) _ asked).0 in
    check_row-Stays s s' now a a.attempted_at a.outgoing c d place (unknown-open a.status unknown) h

ask_row-Stays :
    (s s' : Tables) (task_id i : ℕ) (o : Option CoordinatorAction)
    → Distinct action_key s.actions
    → o ≡ find action_key i s.actions
    → ask_row s task_id o ≡ ok s'
    → Stays s s'
ask_row-Stays s s' task_id i none d found h = cc
ask_row-Stays s s' task_id i (some a) d found h =
    let (_, h1) = if-err-eq-ok (not (a.task_id == task_id)) DeliveryError.not_found _ h in
    let (unknown, h2) = if-err-eq-ok (not (is_unknown a.status)) DeliveryError.not_uncertain _ h1 in
    let (_, h3) = if-err-eq-ok (asks_review a.kind) DeliveryError.is_review _ h2 in
    let is_open : is_executed a.status ≡ false = unknown-open a.status ground arith in
    subst (Stays s) (ok-injective h3)
      (change-Stays s a _ d (find-In action_key i s.actions a (sym found)) is_open)

abbrev pub released : (CoordinatorAction → Bool) → ℕ → CoordinatorAction → CoordinatorAction
released skipped now a = if skipped a then a else recover_checking now (recover_sending now a)

-- Recovery leaves a confirmed row as it is.
released-executed :
    (skipped : CoordinatorAction → Bool) (now : ℕ) (a : CoordinatorAction)
    → is_executed a.status ≡ true
    → released skipped now a ≡ a
released-executed skipped now a done =
    let sends : is_sending a.status ≡ false = ground arith in
    let checks : is_reconciling a.status ≡ false = ground arith in
    elim (Bool-cases (skipped a)) [
      | inl locked ↦ rw locked refl
      | inr free ↦ rw free (rw sends (rw checks refl))
    ]

recover-Stays :
    (skipped : CoordinatorAction → Bool) (s s' : Tables) (now : ℕ)
    → recover skipped s now ≡ ok s'
    → Stays s s'
unfolding recover
recover-Stays skipped s s' now h =
    let (_, done) = if-err-eq-ok _ DeliveryError.missing_time _ h in
    subst (Stays s) (ok-injective done) (λ a place executed.
      let image = In-map (released skipped now) a s.actions place in
      let same = released-executed skipped now a executed in
      (a, subst (λ r. In r (map (released skipped now) s.actions)) same image, refl, executed))

-- Each transaction of the deliveries keeps what is confirmed, where identifiers are unique.
pub Step-Stays :
    (set : Settings) (s s' : Tables) (log log' : List ℕ)
    → Step set s log s' log'
    → Distinct action_key s.actions
    → Stays s s'
unfolding claim_delivery complete_delivery fail_delivery claim_reconciliation
    complete_reconciliation reconcile
Step-Stays set s s' log _ (claims skipped now c h) d = claim-Stays set skipped s s' now c _ d refl h
Step-Stays set s s' log _ (completes d reference h) distinct = confirm-Stays s s' reference _ h
Step-Stays set s s' log _ (fails d reason again h) distinct =
    unless_executed-Stays s s' d.action_id _ _ distinct refl h
Step-Stays set s s' log _ (checks skipped now o h) d = check-Stays skipped s s' now o _ d refl h
Step-Stays set s s' log _ (checked d reference error h) distinct =
    unless_executed-Stays s s' d.action_id _ _ distinct refl h
Step-Stays set s s' log _ (recovers skipped now h) d = recover-Stays skipped s s' now h
Step-Stays set s s' log _ (asks task_id action_id h) d =
    ask_row-Stays s s' task_id action_id _ d refl h
