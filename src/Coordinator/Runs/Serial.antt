-- ===== src/Coordinator/Runs/Serial.antt =====
-- The decisions of a task are made one at a time, and a decision becomes one action at most.
use dev_workflow_automation.Common.{
  ℕ, ◌+◌, ◌≤◌, ◌<◌, ◌==◌, Bool, true, false, ◌&&◌, Option, none, some, List, [], ◌∷◌, In, map,
  map-In, any, String, if◌then◌else◌, find, Distinct, amend, amend-map, count_where,
  count_where-map-le, Distinct-map, find_absent, ◌≡◌, refl, sym, ◌∙◌, inl, inr, arith, and-eq_true,
  Bool-cases, subst, ap, true-false,
}
use dev_workflow_automation.Coordinator.Rows.{
  CoordinatorEvent, CoordinatorRun, CoordinatorAction, Tables, run_key,
}
use dev_workflow_automation.Coordinator.Runs.{is_claimed, is_live, has_live}
use dev_workflow_automation.Coordinator.Runs.Decisions.{fail_row, recover, recover_run}

abbrev pub live_of : ℕ → CoordinatorRun → Bool
live_of id r = r.task_id == id && is_live r.status

abbrev pub action_run : CoordinatorAction → ℕ
action_run a = a.run_id

-- Identifiers are unique and have been given out; a task has one run at most that is claimed or
-- ready; an action's run is decided, and has no other action.
pub record IsSerial (s : Tables) : Type 0 where
  pub runs_distinct : Distinct run_key s.runs
  pub runs_given : (r : CoordinatorRun) → In r s.runs → r.id < s.next_id
  pub one_live : (id : ℕ) → count_where (live_of id) s.runs ≤ 1
  pub actions_distinct : Distinct action_run s.actions
  pub actions_given : (a : CoordinatorAction) → In a s.actions → a.run_id < s.next_id
  pub actions_decided :
      (a : CoordinatorAction) (r : CoordinatorRun)
      → In a s.actions
      → In r s.runs
      → r.id ≡ a.run_id
      → is_claimed r.status ≡ false

-- A change of the runs that claims none and revives none.
ended-IsSerial :
    (s s' : Tables) (g : CoordinatorRun → CoordinatorRun)
    → s'.runs ≡ map g s.runs
    → s'.actions ≡ s.actions
    → s'.next_id ≡ s.next_id
    → ((r : CoordinatorRun) → (g r).id ≡ r.id)
    → ((r : CoordinatorRun) → (g r).task_id ≡ r.task_id)
    → ((r : CoordinatorRun) → In r s.runs → is_live (g r).status ≡ true → is_live r.status ≡ true)
    → ((r : CoordinatorRun) → is_claimed (g r).status ≡ true → is_claimed r.status ≡ true)
    → IsSerial s
    → IsSerial s'
ended-IsSerial s s' g runs actions next same task live claimed i = record {
  runs_distinct = rw runs (Distinct-map run_key g same s.runs i.runs_distinct);
  runs_given = λ r m.
      let (old, place, e) = image r m in
      let given = i.runs_given old place in
      let kept : r.id ≡ old.id = ap (λ x. x.id) e ∙ same old in rw (next, kept) given;
  one_live = λ id.
      let fewer = count_where-map-le (live_of id) g s.runs (λ r m h. live_kept id r m h) in
      let bound = i.one_live id in rw runs omega (arith, fewer, bound);
  actions_distinct = rw actions i.actions_distinct;
  actions_given = λ a m. (let given = i.actions_given a (rw actions at m) in rw next given);
  actions_decided = λ a r ma mr e.
      let (old, place, shape) = image r mr in
      let kept : old.id ≡ a.run_id = sym (same old) ∙ sym (ap (λ x. x.id) shape) ∙ e in
      let before = i.actions_decided a old (rw actions at ma) place kept in
      elim (Bool-cases (is_claimed r.status)) [
        | inl again ↦
            let was = claimed old (subst (λ x. is_claimed x.status ≡ true) shape again) in
            absurd (true-false (sym was ∙ before))
        | inr not_claimed ↦ not_claimed
      ];
}
  where
    image :
        (r : CoordinatorRun) → In r s'.runs → (old : CoordinatorRun) × In old s.runs × (r ≡ g old)
    image r m = map-In g r s.runs (subst (In r) runs m)

    live_kept :
        (id : ℕ) (r : CoordinatorRun) → In r s.runs → live_of id (g r) ≡ true → live_of id r ≡ true
    live_kept id r m h =
        let (of_task, lives) = and-eq_true ((g r).task_id == id) _ h in
        let lived = live r m lives in
        let of_same : (r.task_id == id) ≡ true = subst (λ k. (k == id) ≡ true) (task r) of_task in
        rw (of_same, lived) refl

-- The same for the runs of one identifier.
pub amended-IsSerial :
    (s s' : Tables) (i : ℕ) (f : CoordinatorRun → CoordinatorRun)
    → s'.runs ≡ amend run_key i f s.runs
    → s'.actions ≡ s.actions
    → s'.next_id ≡ s.next_id
    → ((r : CoordinatorRun) → (f r).id ≡ r.id)
    → ((r : CoordinatorRun) → (f r).task_id ≡ r.task_id)
    → ((r : CoordinatorRun)
        → In r s.runs
        → r.id ≡ i
        → is_live (f r).status ≡ true
        → is_live r.status ≡ true)
    → ((r : CoordinatorRun) → is_claimed (f r).status ≡ false)
    → IsSerial s
    → IsSerial s'
amended-IsSerial s s' i f runs actions next same task live claimed serial =
    ended-IsSerial s s' (λ r. if r.id == i then f r else r) (runs ∙ amend-map run_key i f s.runs)
      actions next
      (λ r. elim (Bool-cases (r.id == i)) [ inl here ↦ rw here (same r) | inr away ↦ rw away refl ])
      (λ r. elim (Bool-cases (r.id == i)) [ inl here ↦ rw here (task r) | inr away ↦ rw away refl ])
      (λ r m lives. elim (Bool-cases (r.id == i)) [
        | inl here ↦ (let e : r.id ≡ i = ground arith in live r m e (rw here at lives))
        | inr away ↦ (rw away at lives)
      ])
      (λ r again. elim (Bool-cases (r.id == i)) [
        | inl here ↦ absurd (true-false (sym (rw here at again) ∙ claimed r))
        | inr away ↦ (rw away at again)
      ])
      serial

pub ended_not_live : {P : Type 0} → ◌≡◌ {A = Bool} false true → P
ended_not_live h = absurd (true-false (sym h))

pub fail_row-IsSerial :
    (s : Tables) (reason : String) (superseded : Bool) (now : ℕ) (o : Option CoordinatorRun)
    → IsSerial s
    → IsSerial (fail_row s reason superseded now o)
fail_row-IsSerial s reason superseded now none serial = serial
fail_row-IsSerial s reason superseded now (some r) serial =
    elim (Bool-cases (is_claimed r.status)) [
      | inl held ↦ rw held (elim (Bool-cases superseded) [
        | inl again ↦ rw again (
            amended-IsSerial s _ r.id _ refl refl refl (λ x. refl) (λ x. refl)
              (λ x m e h. ended_not_live h) (λ x. refl) serial)
        | inr over ↦ rw over (
            amended-IsSerial s _ r.id _ refl refl refl (λ x. refl) (λ x. refl)
              (λ x m e h. ended_not_live h) (λ x. refl) serial)
      ])
      | inr free ↦ rw free serial
    ]

recover_run-keeps :
    (skipped : CoordinatorRun → Bool) (now : ℕ) (r : CoordinatorRun)
    → ((recover_run skipped now r).id ≡ r.id)
      × ((recover_run skipped now r).task_id ≡ r.task_id)
      × (is_live (recover_run skipped now r).status ≡ true → is_live r.status ≡ true)
      × (is_claimed (recover_run skipped now r).status ≡ true → is_claimed r.status ≡ true)
recover_run-keeps skipped now r = ground arith

pub recover-IsSerial :
    (skipped : CoordinatorRun → Bool) (s : Tables) (now : ℕ)
    → IsSerial s
    → IsSerial (recover skipped s now)
unfolding recover
recover-IsSerial skipped s now serial =
    ended-IsSerial s _ (recover_run skipped now) refl refl refl
      (λ r. (recover_run-keeps skipped now r).0) (λ r. (recover_run-keeps skipped now r).1)
      (λ r m. (recover_run-keeps skipped now r).2) (λ r. (recover_run-keeps skipped now r).3) serial

-- More identifiers are given out, and the events change.
pub bumped-IsSerial :
    (s : Tables) (events : List CoordinatorEvent)
    → IsSerial s
    → IsSerial (record s { events = events; next_id = s.next_id + 1 })
bumped-IsSerial s events i = record {
  runs_distinct = i.runs_distinct;
  runs_given = λ r m. (let given = i.runs_given r m in omega (arith, given));
  one_live = i.one_live;
  actions_distinct = i.actions_distinct;
  actions_given = λ a m. (let given = i.actions_given a m in omega (arith, given));
  actions_decided = i.actions_decided;
}

-- An action of a decided run that has none.
pub action-IsSerial :
    (s : Tables) (a : CoordinatorAction)
    → a.run_id < s.next_id
    → find action_run a.run_id s.actions ≡ none
    → ((r : CoordinatorRun) → In r s.runs → r.id ≡ a.run_id → is_claimed r.status ≡ false)
    → IsSerial s
    → IsSerial (record s { actions = a ∷ s.actions })
action-IsSerial s a given absent decided i = record {
  runs_distinct = i.runs_distinct;
  runs_given = i.runs_given;
  one_live = i.one_live;
  actions_distinct = (absent, i.actions_distinct);
  actions_given = λ b m. elim m [ inl e ↦ rw e given | inr old ↦ i.actions_given b old ];
  actions_decided = λ b r m place same. elim m [
    | inl e ↦ decided r place (same ∙ ap action_run e)
    | inr old ↦ i.actions_decided b r old place same
  ];
}

count_where_none :
    {R : Type 0} (p : R → Bool) (rows : List R) → any p rows ≡ false → count_where p rows ≡ 0
count_where_none p [] h = refl
count_where_none p (r ∷ rows) h = elim (Bool-cases (p r)) [
  | inl e ↦ absurd (true-false (rw e at h))
  | inr e ↦ (let rest = count_where_none p rows (rw e at h) in rw e omega (arith, rest))
]

at_most_one : (b : Bool) → (if b then 1 else 0) ≤ 1
at_most_one true = omega arith
at_most_one false = omega arith

-- A new run of a task that has no live one.
pub run-IsSerial :
    (s : Tables) (r : CoordinatorRun)
    → r.id ≡ s.next_id
    → has_live s r.task_id ≡ false
    → IsSerial s
    → IsSerial (record s { runs = r ∷ s.runs; next_id = s.next_id + 1 })
run-IsSerial s r fresh no_live i = record {
  runs_distinct = (
    find_absent run_key r.id s.runs
        (λ x m e. (let given = i.runs_given x m in omega (arith, given, e, fresh))),
    i.runs_distinct,
  );
  runs_given = λ x m. elim m [
    | inl e ↦ (let same : x.id ≡ r.id = ap run_key e in omega (arith, same, fresh))
    | inr old ↦ (let given = i.runs_given x old in omega (arith, given))
  ];
  one_live = λ id. elim (Bool-cases (r.task_id == id)) [
    | inl here ↦
        let same : r.task_id ≡ id = ground arith in
        let free = subst (λ k. has_live s k ≡ false) same no_live in
        let others = count_where_none (live_of id) s.runs free in
        omega (arith, others, at_most_one (live_of id r))
    | inr away ↦ (let others = i.one_live id in rw away omega (arith, others))
  ];
  actions_distinct = i.actions_distinct;
  actions_given = λ a m. (let given = i.actions_given a m in omega (arith, given));
  actions_decided = λ a x m place same. elim place [
    | inl e ↦
        let given = i.actions_given a m in
        let here : r.id ≡ a.run_id = sym (ap run_key e) ∙ same in
        let never : ⊥ = omega (arith, given, here, fresh) in absurd never
    | inr old ↦ i.actions_decided a x m old same
  ];
}
