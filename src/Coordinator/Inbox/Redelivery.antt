-- ===== src/Coordinator/Inbox/Redelivery.antt =====
-- A delivery that comes again changes nothing.
use dev_workflow_automation.Common.{
  ℕ, Bool, true, false, Option, none, some, List, ◌∷◌, any, String, str_eq, eq_iff, find, Result,
  ok, ◌≡◌, refl, inl, inr, arith, Bool-cases, subst, ap, if-err-eq-ok,
}
use dev_workflow_automation.Engineering.Rows.{Task, task_key}
use dev_workflow_automation.Coordinator.Rows.{
  CoordinatorEvent, CoordinatorAction, HumanRequest, Tables, coordination_mode, is_active,
  authorized, at_versions,
}
use dev_workflow_automation.Coordinator.Inbox.{
  Message, InboxError, Surroundings, is_off, is_same_delivery, is_known, is_own_effect,
  is_own_actor, echoed, echo_event, with_request, responded, new_event, request_named, request_of,
  attach_row, attach, refuse, admit, take_in, is_bad_length, now_of, enqueue,
}

same_text : (x : String) → str_eq x x ≡ true
same_text x = ground (arith, eq_iff x x)

-- The event that is added has the delivery of the message.
added :
    (m : Message) (e : CoordinatorEvent) (events : List CoordinatorEvent)
    → e.provider ≡ m.provider
    → e.delivery_key ≡ m.key
    → any (is_same_delivery m) (e ∷ events) ≡ true
added m e events provider key = rw (provider, key) (rw (same_text m.provider, same_text m.key) refl)

attach_row-known :
    (s : Tables) (t : Task) (m : Message) (e : CoordinatorEvent) (id : Option ℕ) (now : ℕ)
    (o : Option HumanRequest)
    → e.provider ≡ m.provider
    → e.delivery_key ≡ m.key
    → is_known (attach_row s t m e id now o) m ≡ true
attach_row-known s t m e id now none provider key =
    added m (with_request id e) s.events provider key
attach_row-known s t m e id now (some h) provider key =
    elim (Bool-cases (at_versions t h.lifecycle_revision h.requirement_revision)) [
      | inl current ↦ rw current (added m (responded h.id e) s.events provider key)
      | inr changed ↦ rw changed (added m (with_request id e) s.events provider key)
    ]

attach-known :
    (s : Tables) (t : Task) (m : Message) (e : CoordinatorEvent) (active : Bool) (now : ℕ)
    → e.provider ≡ m.provider
    → e.delivery_key ≡ m.key
    → is_known (attach s t m e active now) m ≡ true
attach-known s t m e false now provider key = added m e s.events provider key
attach-known s t m e true now provider key =
    let id = request_named s t m m.human_request_id in
    attach_row-known s t m e id now (request_of s t id) provider key

admit-known :
    (w : Surroundings) (s : Tables) (t : Task) (m : Message) (active : Bool) (now : ℕ)
    → is_known (admit w s t m active now) m ≡ true
admit-known w s t m active now =
    let e = new_event w s t m now in
    elim (Bool-cases (authorized w.settings t e)) [
      | inl may ↦ rw may (attach-known s t m e active now refl refl)
      | inr other ↦ rw other (added m (refuse e) s.events refl refl)
    ]

take_in-known :
    (w : Surroundings) (s : Tables) (t : Task) (m : Message) (active : Bool) (now : ℕ)
    (o : Option CoordinatorAction)
    → is_known (take_in w s t m active now o) m ≡ true
take_in-known w s t m active now none = admit-known w s t m active now
take_in-known w s t m active now (some a) = elim (Bool-cases (is_own_actor w m)) [
  | inl own ↦ rw own (added m (echo_event s t m a now) s.events refl refl)
  | inr other ↦ rw other (admit-known w s t m active now)
]

ok-pair-injective :
    {s s' : Tables} {b b' : Bool}
    → ◌≡◌ {A = Result InboxError (Tables × Bool)} (ok (s, b)) (ok (s', b'))
    → (s ≡ s') × (b ≡ b')
ok-pair-injective h = (cc, cc)

-- When a message has been taken in, the same delivery changes nothing and gives the same answer,
-- at any later time: also if it was an echo of the coordinator's own message, or was refused for
-- its author.
pub enqueue_idempotent :
    (w : Surroundings) (s s' : Tables) (task : Task) (m : Message) (now later : ℕ) (active : Bool)
    → enqueue w s task m now ≡ ok (s', active)
    → enqueue w s' task m later ≡ ok (s', active)
unfolding enqueue
enqueue_idempotent w s s' task m now later active h =
    let mode = coordination_mode w.settings m.provider in
    let t = now_of task (find task_key task.id s.db.tasks) in
    elim (Bool-cases (is_off mode)) [
      | inl off ↦
          let (same, answer) = ok-pair-injective (rw off at h) in
          rw off (ap (λ b. ok (s', b)) answer)
      | inr on ↦
          let (fine, h1) =
            if-err-eq-ok (is_bad_length m.body) InboxError.bad_length _ (rw on at h) in
          elim (Bool-cases (is_known s m)) [
            | inl known ↦
                let (same, answer) = ok-pair-injective (rw known at h1) in
                subst
                  (λ z.
                    ◌≡◌ {A = Result InboxError (Tables × Bool)} (enqueue w z task m later)
                      (ok (z, active)))
                  same (rw (on, fine, known) (ap (λ b. ok (s, b)) answer))
            | inr new ↦ elim (Bool-cases (is_own_effect s t m.effect_ref)) [
              | inl own ↦
                  let (same, answer) = ok-pair-injective (rw (new, own) at h1) in
                  subst
                    (λ z.
                      ◌≡◌ {A = Result InboxError (Tables × Bool)} (enqueue w z task m later)
                        (ok (z, active)))
                    same (rw (on, fine, new, own) (ap (λ b. ok (s, b)) answer))
              | inr other ↦
                  let (same, answer) = ok-pair-injective (rw (new, other) at h1) in
                  let known = take_in-known w s t m (is_active mode) now (echoed s t m) in
                  let known' = subst (λ z. is_known z m ≡ true) same known in
                  rw (on, fine, known') (ap (λ b. ok (s', b)) answer)
            ]
          ]
    ]
