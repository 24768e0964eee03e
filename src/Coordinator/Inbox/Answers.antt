-- ===== src/Coordinator/Inbox/Answers.antt =====
-- What has arrived and what has been answered stays.
use dev_workflow_automation.Common.{
  ℕ, Bool, true, false, ◌==◌, Option, none, some, In, In-amend, find, Result, ok, ◌≡◌, inl, inr,
  Bool-cases, subst, if-err-eq-ok,
}
use dev_workflow_automation.Engineering.Rows.{Task, task_key}
use dev_workflow_automation.Coordinator.Rows.{
  CoordinatorEvent, CoordinatorAction, HumanRequest, Tables, coordination_mode, authorized,
  at_versions, request_key,
}
use dev_workflow_automation.Coordinator.Inbox.{
  Message, InboxError, Surroundings, is_off, is_known, is_own_effect, is_own_actor, is_opened,
  echoed, new_event, answer, request_named, request_of, attach_row, attach, admit, take_in,
  is_bad_length, now_of, enqueue,
}

-- Every event stands as before, and so does every request that is answered or cancelled.
abbrev pub Remembers : Tables → Tables → Type 0
Remembers s s' =
    ((e : CoordinatorEvent) → In e s.events → In e s'.events)
    × ((h : HumanRequest)
        → In h s.human_requests
        → is_opened h.status ≡ false
        → In h s'.human_requests)

same-Remembers : (s : Tables) → Remembers s s
same-Remembers s = (λ e m. m, λ h m settled. m)

attach_row-Remembers :
    (s : Tables) (t : Task) (m : Message) (e : CoordinatorEvent) (id : Option ℕ) (now : ℕ)
    (o : Option HumanRequest)
    → Remembers s (attach_row s t m e id now o)
attach_row-Remembers s t m e id now none = (λ x p. inr p, λ h p settled. p)
attach_row-Remembers s t m e id now (some r) =
    elim (Bool-cases (at_versions t r.lifecycle_revision r.requirement_revision)) [
      | inl current ↦ rw current (
        λ x p. inr p,
        λ h p settled.
            let image = In-amend request_key r.id (answer m.body now) s.human_requests h p in
            elim (Bool-cases (h.id == r.id)) [
              | inl here ↦ (rw (here, settled) at image)
              | inr away ↦ (rw away at image)
            ],
      )
      | inr changed ↦ rw changed (λ x p. inr p, λ h p settled. p)
    ]

attach-Remembers :
    (s : Tables) (t : Task) (m : Message) (e : CoordinatorEvent) (active : Bool) (now : ℕ)
    → Remembers s (attach s t m e active now)
attach-Remembers s t m e false now = (λ x p. inr p, λ h p settled. p)
attach-Remembers s t m e true now =
    let id = request_named s t m m.human_request_id in
    attach_row-Remembers s t m e id now (request_of s t id)

admit-Remembers :
    (w : Surroundings) (s : Tables) (t : Task) (m : Message) (active : Bool) (now : ℕ)
    → Remembers s (admit w s t m active now)
admit-Remembers w s t m active now =
    let e = new_event w s t m now in
    elim (Bool-cases (authorized w.settings t e)) [
      | inl may ↦ rw may (attach-Remembers s t m e active now)
      | inr other ↦ rw other (λ x p. inr p, λ h p settled. p)
    ]

take_in-Remembers :
    (w : Surroundings) (s : Tables) (t : Task) (m : Message) (active : Bool) (now : ℕ)
    (o : Option CoordinatorAction)
    → Remembers s (take_in w s t m active now o)
take_in-Remembers w s t m active now none = admit-Remembers w s t m active now
take_in-Remembers w s t m active now (some a) = elim (Bool-cases (is_own_actor w m)) [
  | inl own ↦ rw own (λ x p. inr p, λ h p settled. p)
  | inr other ↦ rw other (admit-Remembers w s t m active now)
]

ok-first :
    {s s' : Tables} {b b' : Bool}
    → ◌≡◌ {A = Result InboxError (Tables × Bool)} (ok (s, b)) (ok (s', b'))
    → s ≡ s'
ok-first h = cc

-- Taking a message in rewrites no event and no answer: every event of the inbox stays as it is, and
-- so does every request of a human that is answered or cancelled.
pub enqueue-Remembers :
    (w : Surroundings) (s s' : Tables) (task : Task) (m : Message) (now : ℕ) (active : Bool)
    → enqueue w s task m now ≡ ok (s', active)
    → Remembers s s'
unfolding enqueue
enqueue-Remembers w s s' task m now active h =
    let t = now_of task (find task_key task.id s.db.tasks) in
    elim (Bool-cases (is_off (coordination_mode w.settings m.provider))) [
      | inl off ↦ subst (Remembers s) (ok-first (rw off at h)) (same-Remembers s)
      | inr on ↦
          let (_, h1) = if-err-eq-ok (is_bad_length m.body) InboxError.bad_length _ (rw on at h) in
          elim (Bool-cases (is_known s m)) [
            | inl known ↦ subst (Remembers s) (ok-first (rw known at h1)) (same-Remembers s)
            | inr new ↦ elim (Bool-cases (is_own_effect s t m.effect_ref)) [
              | inl own ↦ subst (Remembers s) (ok-first (rw (new, own) at h1)) (same-Remembers s)
              | inr other ↦
                  subst (Remembers s) (ok-first (rw (new, other) at h1))
                    (take_in-Remembers w s t m _ now (echoed s t m))
            ]
          ]
    ]
