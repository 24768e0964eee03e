-- ===== src/Coordinator/Outbox/Authority.antt =====
-- A message leaves only while its task and its author are entitled to it.
use dev_workflow_automation.Common.{
  ℕ, Bool, true, false, not, ◌&&◌, Option, none, some, In, keep-In, first_of-mem, find, Result, ok,
  ◌≡◌, ◌≢◌, refl, sym, ◌∙◌, inl, inr, arith, and-eq_true, Bool-cases, ap, if-err-eq-ok, none-some,
  some-injective,
}
use dev_workflow_automation.Engineering.Rows.{Task, task_key}
use dev_workflow_automation.Coordinator.Protocol.{asks_review}
use dev_workflow_automation.Coordinator.Rows.{
  CoordinatorEvent, CoordinatorAction, Outgoing, Tables, Settings, coordination_mode, is_active,
  authorized, is_running, at_versions, event_key,
}
use dev_workflow_automation.Coordinator.Outbox.{
  OutboundDelivery, DeliveryClaim, DeliveryError, claim_delivery, claim_oldest, claim_row,
  delivery_of, hand_over, revoke, may_run, may_send, oldest, is_delivery_pending,
}

-- The task of the action is at the versions of its effect, runs in an open Team and nobody has
-- taken it over; the provider coordinates actively and the event's author is authorised.
abbrev pub MaySend : Settings → Tables → CoordinatorAction → Outgoing → Type 0
MaySend set s a out =
    (t : Task) × (e : CoordinatorEvent) × (find task_key a.task_id s.db.tasks ≡ some t)
    × (find event_key a.event_id s.events ≡ some e)
    × (is_running s.db t ≡ true)
    × (t.manual_takeover ≡ false)
    × (is_active (coordination_mode set out.provider) ≡ true)
    × (at_versions t out.lifecycle_revision out.requirement_revision ≡ true)
    × (authorized set t e ≡ true)

may_both :
    (set : Settings) (s : Tables) (a : CoordinatorAction) (out : Outgoing) (t : Option Task)
    (e : Option CoordinatorEvent)
    → find task_key a.task_id s.db.tasks ≡ t
    → find event_key a.event_id s.events ≡ e
    → (may_run s t e && may_send set out t e) ≡ true
    → MaySend set s a out
may_both set s a out none e ht he h = cc
may_both set s a out (some t) none ht he h = cc
may_both set s a out (some t) (some e) ht he h =
    let (runs, sends) = and-eq_true (is_running s.db t && not t.manual_takeover) _ h in
    let (running, free) = and-eq_true (is_running s.db t) _ runs in
    let (both, entitled) =
      and-eq_true
        (is_active (coordination_mode set out.provider)
          && at_versions t out.lifecycle_revision out.requirement_revision)
        (authorized set t e) sends in
    let (active, fresh) = and-eq_true (is_active (coordination_mode set out.provider)) _ both in
    (t, e, ht, he, running, ground arith, active, fresh, entitled)

ok-second :
    {s' : Tables} {c : DeliveryClaim} (p : Tables × DeliveryClaim)
    → ◌≡◌ {A = Result DeliveryError (Tables × DeliveryClaim)} (ok p) (ok (s', c))
    → p.1 ≡ c
ok-second {s' = s'} {c = c} p h = (let e : p ≡ (s', c) = cc in ap (λ q. q.1) e)

module _ (set : Settings) (s : Tables) (now : ℕ) (d : OutboundDelivery) where
  revoked_sends_none :
      {s' : Tables} {c : DeliveryClaim} (a : CoordinatorAction)
      → ◌≡◌ {A = Result DeliveryError (Tables × DeliveryClaim)} (ok (revoke s a)) (ok (s', c))
      → c.delivery ≢ some d
  revoked_sends_none {c = c} a h sends =
      let e : none ≡ c.delivery = ap (λ x. x.delivery) (ok-second (revoke s a) h) in
      none-some (e ∙ sends)

  hand_over_sends :
      {s' : Tables} {c : DeliveryClaim} (a : CoordinatorAction) (out : Outgoing)
      → ◌≡◌ {A = Result DeliveryError (Tables × DeliveryClaim)}
          (ok (hand_over set s a out now))
          (ok (s', c))
      → c.delivery ≡ some d
      → d ≡ delivery_of a out now
  hand_over_sends {c = c} a out h sends =
      let e = ap (λ x. x.delivery) (ok-second (hand_over set s a out now) h) ∙ sends in
      elim (Bool-cases (asks_review a.kind && not (is_active (coordination_mode set "github")))) [
        | inl off ↦ absurd (none-some (rw off at e))
        | inr on ↦ sym (some-injective (rw on at e))
      ]

  claim_row-MaySend :
      {s' : Tables} {c : DeliveryClaim} (a : CoordinatorAction) (o : Option Outgoing)
      → claim_row set s now a o ≡ ok (s', c)
      → c.delivery ≡ some d
      → (out : Outgoing) × (o ≡ some out) × (d ≡ delivery_of a out now) × MaySend set s a out
  claim_row-MaySend a none h sends =
      let (_, done) = if-err-eq-ok _ DeliveryError.missing_argument (ok (revoke s a)) h in
      absurd (revoked_sends_none a done sends)
  claim_row-MaySend a (some out) h sends =
      let t = find task_key a.task_id s.db.tasks in
      let e = find event_key a.event_id s.events in
      elim (Bool-cases (may_run s t e && may_send set out t e)) [
        | inl may ↦ (
          out,
          refl,
          hand_over_sends a out (rw may at h) sends,
          may_both set s a out t e refl refl may,
        )
        | inr may ↦ absurd (revoked_sends_none a (rw may at h) sends)
      ]

  claim_oldest-MaySend :
      {s' : Tables} {c : DeliveryClaim} (skipped : CoordinatorAction → Bool)
      (o : Option CoordinatorAction)
      → o ≡ oldest (λ a. is_delivery_pending a.status) skipped s.actions
      → claim_oldest set s now o ≡ ok (s', c)
      → c.delivery ≡ some d
      → (a : CoordinatorAction) × (out : Outgoing) × In a s.actions
        × (is_delivery_pending a.status ≡ true)
        × (a.outgoing ≡ some out)
        × (d ≡ delivery_of a out now)
        × MaySend set s a out
  claim_oldest-MaySend skipped none found h sends =
      let e = ap (λ x. x.delivery) (ok-second (s, record { handled = false; delivery = none }) h) in
      absurd (none-some (e ∙ sends))
  claim_oldest-MaySend skipped (some a) found h sends =
      let first = first_of-mem _ _ a (sym found) in
      let (place, meets) =
        keep-In (λ b. is_delivery_pending b.status && not (skipped b)) a s.actions first in
      let (out, same, shape, may) = claim_row-MaySend a a.outgoing h sends in
      (a, out, place, (and-eq_true (is_delivery_pending a.status) _ meets).0, same, shape, may)

-- A delivery that a claim returns is that of a pending action of the table, and at the claim its
-- message may be sent: the task is at the versions of the effect, not archived, not taken over and
-- in an open Team, the provider coordinates actively and the event's author is authorised.
pub claimed-MaySend :
    (set : Settings) (skipped : CoordinatorAction → Bool) (s s' : Tables) (now : ℕ)
    (c : DeliveryClaim) (d : OutboundDelivery)
    → claim_delivery set skipped s now ≡ ok (s', c)
    → c.delivery ≡ some d
    → (a : CoordinatorAction) × (out : Outgoing) × In a s.actions
      × (is_delivery_pending a.status ≡ true)
      × (a.outgoing ≡ some out)
      × (d ≡ delivery_of a out now)
      × MaySend set s a out
unfolding claim_delivery
claimed-MaySend set skipped s s' now c d h sends =
    claim_oldest-MaySend set s now d skipped _ refl h sends
