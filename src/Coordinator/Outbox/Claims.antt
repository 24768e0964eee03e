-- ===== src/Coordinator/Outbox/Claims.antt =====
-- What `claim_delivery` does with the row that it takes.
use dev_workflow_automation.Common.{
  ℕ, ◌==◌, true, false, not, ◌&&◌, Option, none, some, In, find, amend-In, Result, ok, ◌≡◌, ◌≢◌,
  ◌⊎◌, refl, sym, ◌∙◌, inl, inr, arith, Bool-cases, subst, ap, true-false, if-err-eq-ok,
}
use dev_workflow_automation.Engineering.Rows.{task_key}
use dev_workflow_automation.Coordinator.Protocol.{asks_review}
use dev_workflow_automation.Coordinator.Rows.{
  CoordinatorAction, Outgoing, Tables, Settings, coordination_mode, is_active, action_key,
  event_key,
}
use dev_workflow_automation.Coordinator.Outbox.{
  OutboundDelivery, DeliveryClaim, DeliveryError, claim_row, change, hand_over, may_run, may_send,
  is_delivery_pending, revoke,
}
use dev_workflow_automation.Coordinator.Outbox.Pending.{NoneAdded, change-NoneAdded, not-pending}

-- What a claim does with a row: it is no longer pending, and only its message may be sent.
abbrev pub Takes : Tables → CoordinatorAction → Tables → DeliveryClaim → Type 0
Takes s a s' c =
    (f : CoordinatorAction → CoordinatorAction) × (s' ≡ change s a.id f)
    × ((r : CoordinatorAction) → is_delivery_pending (f r).status ≡ false)
    × ((r : CoordinatorAction) → (f r).id ≡ r.id)
    × ((c.delivery ≡ none)
        ⊎ ((d : OutboundDelivery) × (c.delivery ≡ some d) × (d.action_id ≡ a.id)))

hand_over-Takes :
    (set : Settings) (s : Tables) (a : CoordinatorAction) (out : Outgoing) (now : ℕ)
    → Takes s a (hand_over set s a out now).0 (hand_over set s a out now).1
hand_over-Takes set s a out now =
    elim (Bool-cases (asks_review a.kind && not (is_active (coordination_mode set "github")))) [
      | inl off ↦ rw off (_, refl, λ r. refl, λ r. refl, inl refl)
      | inr on ↦ rw on (_, refl, λ r. refl, λ r. refl, inr (_, refl, refl))
    ]

revoke-Takes : (s : Tables) (a : CoordinatorAction) → Takes s a (revoke s a).0 (revoke s a).1
revoke-Takes s a = (_, refl, λ r. refl, λ r. refl, inl refl)

moved :
    (s s' : Tables) (a : CoordinatorAction) (c : DeliveryClaim) (p : Tables × DeliveryClaim)
    → Takes s a p.0 p.1
    → ◌≡◌ {A = Result DeliveryError (Tables × DeliveryClaim)} (ok p) (ok (s', c))
    → Takes s a s' c
moved s s' a c p takes h = let e : p ≡ (s', c) = cc in subst (λ q. Takes s a q.0 q.1) e takes

pub claim_row-Takes :
    (set : Settings) (s s' : Tables) (now : ℕ) (a : CoordinatorAction) (o : Option Outgoing)
    (c : DeliveryClaim)
    → claim_row set s now a o ≡ ok (s', c)
    → Takes s a s' c
claim_row-Takes set s s' now a none c h =
    let (_, done) = if-err-eq-ok _ DeliveryError.missing_argument _ h in
    moved s s' a c (revoke s a) (revoke-Takes s a) done
claim_row-Takes set s s' now a (some out) c h =
    let t = find task_key a.task_id s.db.tasks in
    let e = find event_key a.event_id s.events in
    elim (Bool-cases (may_run s t e && may_send set out t e)) [
      | inl may ↦
          moved s s' a c (hand_over set s a out now) (hand_over-Takes set s a out now) (rw may at h)
      | inr may ↦ moved s s' a c (revoke s a) (revoke-Takes s a) (rw may at h)
    ]

pub Takes-NoneAdded :
    (s s' : Tables) (a : CoordinatorAction) (c : DeliveryClaim)
    → Takes s a s' c
    → NoneAdded s.actions s'.actions
Takes-NoneAdded s s' a c (f, e, gone, same, _) =
    subst (λ z. NoneAdded s.actions z.actions) (sym e)
      (change-NoneAdded s a.id f (λ r w. not-pending (sym (gone r) ∙ w)) same)

-- The rows of the claimed identifier are no longer pending.
pub Takes-away :
    (s s' : Tables) (a : CoordinatorAction) (c : DeliveryClaim)
    → Takes s a s' c
    → (b : CoordinatorAction) → In b s'.actions
    → is_delivery_pending b.status ≡ true
    → b.id ≢ a.id
Takes-away s s' a c (f, e, gone, same, _) b place waits equal =
    let there : In b (change s a.id f).actions = subst (λ z. In b z.actions) e place in
    let (old, _, shape) = amend-In action_key a.id f s.actions b there in
    elim (Bool-cases (old.id == a.id)) [
      | inl here ↦
          let is_f : b ≡ f old = rw here at shape in
          true-false (sym waits ∙ ap (λ r. is_delivery_pending r.status) is_f ∙ gone old)
      | inr away ↦
          let is_old : b ≡ old = rw away at shape in
          let id : old.id ≡ a.id = sym (ap (λ r. r.id) is_old) ∙ equal in ground (arith, id, away)
    ]
