-- ===== src/Coordinator/Outbox/Pending.antt =====
-- No transaction of a worker or of the operator makes a delivery pending.
use dev_workflow_automation.Common.{
  ℕ, ◌==◌, Bool, true, false, not, Option, none, some, List, In, map-In, String, if◌then◌else◌,
  amend-In, Result, ok, ◌≡◌, refl, sym, ◌∙◌, inl, inr, arith, Bool-cases, subst, ap, true-false,
  if-err-eq-ok,
}
use dev_workflow_automation.Coordinator.Protocol.{asks_review}
use dev_workflow_automation.Coordinator.Rows.{CoordinatorAction, Outgoing, Tables, action_key}
use dev_workflow_automation.Coordinator.Outbox.{
  OutboundDelivery, DeliveryError, recover, change, is_delivery_pending, is_executed,
  unless_executed, verdict, confirm, check_row, check_oldest, ask_row, recover_sending,
  recover_checking,
}

-- Rows whose delivery was pending before, under the same identifier.
abbrev pub NoneAdded : List CoordinatorAction → List CoordinatorAction → Type 0
NoneAdded before after =
    (a : CoordinatorAction)
    → In a after
    → is_delivery_pending a.status ≡ true
    → (b : CoordinatorAction) × In b before × (is_delivery_pending b.status ≡ true) × (b.id ≡ a.id)

mapped-NoneAdded :
    (before after : List CoordinatorAction) (g : CoordinatorAction → CoordinatorAction)
    → ((a : CoordinatorAction)
        → In a after
        → (old : CoordinatorAction) × In old before × (a ≡ g old))
    → ((a : CoordinatorAction)
        → is_delivery_pending (g a).status ≡ true
        → is_delivery_pending a.status ≡ true)
    → ((a : CoordinatorAction) → (g a).id ≡ a.id)
    → NoneAdded before after
mapped-NoneAdded before after g arises keeps same a place waits =
    let (old, there, e) = arises a place in
    let waited = subst (λ r. is_delivery_pending r.status ≡ true) e waits in
    (old, there, keeps old waited, sym (same old) ∙ sym (ap (λ r. r.id) e))

abbrev pub at : ℕ → (CoordinatorAction → CoordinatorAction) → CoordinatorAction → CoordinatorAction
at i f r = if r.id == i then f r else r

pub change-NoneAdded :
    (s : Tables) (i : ℕ) (f : CoordinatorAction → CoordinatorAction)
    → ((a : CoordinatorAction)
        → is_delivery_pending (f a).status ≡ true
        → is_delivery_pending a.status ≡ true)
    → ((a : CoordinatorAction) → (f a).id ≡ a.id)
    → NoneAdded s.actions (change s i f).actions
change-NoneAdded s i f keeps same =
    mapped-NoneAdded s.actions (change s i f).actions (at i f)
      (λ a place. amend-In action_key i f s.actions a place)
      (λ a h. elim (Bool-cases (a.id == i)) [
        | inl here ↦ keeps a (rw here at h)
        | inr there ↦ (rw there at h)
      ])
      (λ a. elim (Bool-cases (a.id == i)) [
        | inl here ↦ rw here (same a)
        | inr there ↦ rw there refl
      ])

abbrev pub Keeps : Tables → Tables → Type 0
Keeps s s' = NoneAdded s.actions s'.actions

same-Keeps : (s : Tables) → Keeps s s
same-Keeps s a place waits = (a, place, waits, refl)

pub not-pending : {P : Type 0} → ◌≡◌ {A = Bool} false true → P
not-pending h = absurd (true-false (sym h))

pub ok-injective : {s s' : Tables} → ◌≡◌ {A = Result DeliveryError Tables} (ok s) (ok s') → s ≡ s'
ok-injective h = cc

pub ok-pair-injective :
    {C : Type 0} {s s' : Tables} {c c' : C}
    → ◌≡◌ {A = Result DeliveryError (Tables × C)} (ok (s, c)) (ok (s', c'))
    → (s ≡ s') × (c ≡ c')
ok-pair-injective h = (cc, cc)

pub confirm-Keeps :
    (s s' : Tables) (reference : String) (o : Option CoordinatorAction)
    → confirm s reference o ≡ ok s'
    → Keeps s s'
confirm-Keeps s s' reference none h = cc
confirm-Keeps s s' reference (some a) h =
    subst (Keeps s) (ok-injective h) (change-NoneAdded s a.id _ (λ b w. not-pending w) (λ b. refl))

pub unless_executed-Keeps :
    (s s' : Tables) (f : CoordinatorAction → CoordinatorAction) (o : Option CoordinatorAction)
    → ((a : CoordinatorAction)
        → is_delivery_pending (f a).status ≡ true
        → is_delivery_pending a.status ≡ true)
    → ((a : CoordinatorAction) → (f a).id ≡ a.id)
    → unless_executed s f o ≡ ok s'
    → Keeps s s'
unless_executed-Keeps s s' f none keeps same h = cc
unless_executed-Keeps s s' f (some a) keeps same h = elim (Bool-cases (is_executed a.status)) [
  | inl settled ↦ subst (Keeps s) (ok-injective (rw settled at h)) (same-Keeps s)
  | inr still ↦
      subst (Keeps s) (ok-injective (rw still at h)) (change-NoneAdded s a.id f keeps same)
]

pub verdict-Keeps :
    (reference : Option String) (error : String) (a : CoordinatorAction)
    → (is_delivery_pending (verdict reference error a).status ≡ false)
      × ((verdict reference error a).id ≡ a.id)
verdict-Keeps none error a = (refl, refl)
verdict-Keeps (some reference) error a = (refl, refl)

check_row-Keeps :
    (s s' : Tables) (now : ℕ) (a : CoordinatorAction) (t : Option ℕ) (out : Option Outgoing)
    (o : Option OutboundDelivery)
    → check_row s now a t out ≡ ok (s', o)
    → Keeps s s'
check_row-Keeps s s' now a none out o h = subst (Keeps s) (ok-pair-injective h).0 (same-Keeps s)
check_row-Keeps s s' now a (some t) none o h = cc
check_row-Keeps s s' now a (some t) (some out) o h =
    subst (Keeps s) (ok-pair-injective h).0
      (change-NoneAdded s a.id _ (λ b w. not-pending w) (λ b. refl))

pub check_oldest-Keeps :
    (s s' : Tables) (now : ℕ) (a o : _) → check_oldest s now a ≡ ok (s', o) → Keeps s s'
check_oldest-Keeps s s' now none o h = subst (Keeps s) (ok-pair-injective h).0 (same-Keeps s)
check_oldest-Keeps s s' now (some a) o h = check_row-Keeps s s' now a a.attempted_at a.outgoing o h

pub ask_row-Keeps :
    (s s' : Tables) (task_id : ℕ) (o : Option CoordinatorAction)
    → ask_row s task_id o ≡ ok s'
    → Keeps s s'
ask_row-Keeps s s' task_id none h = cc
ask_row-Keeps s s' task_id (some a) h =
    let (_, h1) = if-err-eq-ok (not (a.task_id == task_id)) DeliveryError.not_found _ h in
    let (_, h2) = if-err-eq-ok _ DeliveryError.not_uncertain _ h1 in
    let (_, h3) = if-err-eq-ok (asks_review a.kind) DeliveryError.is_review _ h2 in
    subst (Keeps s) (ok-injective h3) (change-NoneAdded s a.id _ (λ b w. w) (λ b. refl))

abbrev recovered : (CoordinatorAction → Bool) → ℕ → CoordinatorAction → CoordinatorAction
recovered skipped now a = if skipped a then a else recover_checking now (recover_sending now a)

sending-Keeps :
    (now : ℕ) (a : CoordinatorAction)
    → (is_delivery_pending (recover_sending now a).status ≡ true
        → is_delivery_pending a.status ≡ true)
      × ((recover_sending now a).id ≡ a.id)
sending-Keeps now a = ground arith

checking-Keeps :
    (now : ℕ) (a : CoordinatorAction)
    → (is_delivery_pending (recover_checking now a).status ≡ true
        → is_delivery_pending a.status ≡ true)
      × ((recover_checking now a).id ≡ a.id)
checking-Keeps now a = ground arith

recovered-Keeps :
    (skipped : CoordinatorAction → Bool) (now : ℕ) (a : CoordinatorAction)
    → (is_delivery_pending (recovered skipped now a).status ≡ true
        → is_delivery_pending a.status ≡ true)
      × ((recovered skipped now a).id ≡ a.id)
recovered-Keeps skipped now a =
    let b = recover_sending now a in
    let (keeps, same) = sending-Keeps now a in
    let (keeps', same') = checking-Keeps now b in
    elim (Bool-cases (skipped a)) [
      | inl locked ↦ rw locked (λ h. h, refl)
      | inr free ↦ rw free (λ h. keeps (keeps' h), same' ∙ same)
    ]

pub recover-Keeps :
    (skipped : CoordinatorAction → Bool) (s s' : Tables) (now : ℕ)
    → recover skipped s now ≡ ok s'
    → Keeps s s'
unfolding recover
recover-Keeps skipped s s' now h =
    let (_, done) = if-err-eq-ok _ DeliveryError.missing_time _ h in
    subst (Keeps s) (ok-injective done) (
      mapped-NoneAdded s.actions _ (recovered skipped now)
        (λ a place. map-In (recovered skipped now) a s.actions place)
        (λ a. (recovered-Keeps skipped now a).0) (λ a. (recovered-Keeps skipped now a).1))
