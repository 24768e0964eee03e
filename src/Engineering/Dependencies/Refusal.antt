-- ===== src/Engineering/Dependencies/Refusal.antt =====
-- A cycle is reported only where the requested prerequisites would bring one.
use dev_workflow_automation.Common.{
  ℕ, zero, suc, ◌==◌, Bool, true, false, not, ◌||◌, Option, none, some, List, [], ◌∷◌, ◌++◌, In,
  In-keep, map, keep, length, all, err, find, ◌≡◌, ◌⊎◌, inl, inr, refl, sym, arith, Bool-cases,
  Option-cases, subst, ap, ltb,
}
use dev_workflow_automation.Engineering.Rows.{Task, TaskDependency, Database, task_key}
use dev_workflow_automation.Engineering.Transitions.{is_missing}
use dev_workflow_automation.Engineering.Dependencies.{
  DependencyError, has, leads_out, reachable, link, relink, closes_cycle, replace_links,
  replace_for, replace, sorted_set, same_set, existing, is_editable, is_executing, exists_task,
}
use dev_workflow_automation.Engineering.Dependencies.Closure.{has-In, leads_out-eq-some}
use dev_workflow_automation.Engineering.Dependencies.Acyclic.{Waits, directly, through}

In-append_left : (x : TaskDependency) (xs ys : List TaskDependency) → In x xs → In x (xs ++ ys)
In-append_left x [] ys m = absurd m
In-append_left x (y ∷ xs) ys (inl e) = inl e
In-append_left x (y ∷ xs) ys (inr m) = inr (In-append_left x xs ys m)

In-append_right : (x : TaskDependency) (xs ys : List TaskDependency) → In x ys → In x (xs ++ ys)
In-append_right x [] ys m = m
In-append_right x (y ∷ xs) ys m = inr (In-append_right x xs ys m)

In-links : (id p : ℕ) (ps : List ℕ) → In p ps → In (link id p) (map (link id) ps)
In-links id p [] m = absurd m
In-links id p (q ∷ ps) (inl e) = inl (ap (link id) e)
In-links id p (q ∷ ps) (inr m) = inr (In-links id p ps m)

module _ (rows : List TaskDependency) (id : ℕ) (requested : List ℕ) where
  -- The task waits for the other one after the replacement, or for itself.
  abbrev Awaited : ℕ → Type 0
  Awaited i = Waits (relink rows id requested) id i ⊎ Waits (relink rows id requested) id id

  requested-Awaited : (i : ℕ) → In i requested → Awaited i
  unfolding relink
  requested-Awaited i m = inl (
      directly (link id i) (
        In-append_right (link id i) (keep (λ d. not (d.task_id == id)) rows)
          (map (link id) requested) (In-links id i requested m)))

  old-In :
      (d : TaskDependency) → In d rows → (d.task_id == id) ≡ false → In d (relink rows id requested)
  unfolding relink
  old-In d m other =
      In-append_left d (keep (λ d. not (d.task_id == id)) rows) (map (link id) requested)
        (In-keep (λ d. not (d.task_id == id)) d rows m (rw other refl))

  next-Awaited : (d : TaskDependency) → In d rows → Awaited d.task_id → Awaited d.prerequisite_id
  next-Awaited d m (inr back) = inr back
  next-Awaited d m (inl walk) = elim (Bool-cases (d.task_id == id)) [
    | inl here ↦
        let same : d.task_id ≡ id = ground arith in
        inr (subst (Waits (relink rows id requested) id) same walk)
    | inr other ↦ inl (through walk d (old-In d m other) refl)
  ]

  reachable-Awaited :
      (fuel : ℕ) (seen : List ℕ)
      → ((i : ℕ) → In i seen → Awaited i)
      → (i : ℕ) → In i (reachable fuel rows seen)
      → Awaited i
  unfolding reachable
  reachable-Awaited zero seen known i m = known i m
  reachable-Awaited (suc fuel) seen known i m = elim (Option-cases (leads_out seen rows)) [
    | inl nothing ↦
        let stops : reachable (suc fuel) rows seen ≡ seen = ground arith in
        known i (subst (In i) stops m)
    | inr (next, found) ↦
        let goes_on : reachable (suc fuel) rows seen ≡ reachable fuel rows (next ∷ seen) =
          ground arith in
        let (d, place, from, _, e) = leads_out-eq-some seen rows next found in
        let new =
          subst Awaited e (next-Awaited d place (known d.task_id (has-In seen d.task_id from))) in
        reachable-Awaited fuel (next ∷ seen) (extended seen next known new) i
          (subst (In i) goes_on m)
  ]
    where
      extended :
          (seen : List ℕ) (next : ℕ)
          → ((i : ℕ) → In i seen → Awaited i)
          → Awaited next
          → (i : ℕ) → In i (next ∷ seen)
          → Awaited i
      extended seen next known new i (inl e) = subst Awaited (sym e) new
      extended seen next known new i (inr m) = known i m

links_refused :
    (infers : ℕ → Bool) (db : Database) (t : Task) (id : ℕ) (requested : List ℕ)
    → replace_links infers db t id requested ≡ err DependencyError.cycle
    → closes_cycle db id requested ≡ true
links_refused infers db t id requested h =
    elim (Bool-cases (not (is_editable t.status) || not (is_missing t.archived_at))) [
      | inl a ↦ (let e = rw a at h in cc)
      | inr a ↦ elim (Bool-cases (is_executing db infers id)) [
        | inl b ↦ (let e = rw b at (rw a at h) in cc)
        | inr b ↦ elim (Bool-cases (not (all (exists_task db) requested))) [
          | inl c ↦ (let e = rw c at (rw b at (rw a at h)) in cc)
          | inr c ↦ elim (Bool-cases (closes_cycle db id requested)) [
            | inl d ↦ d
            | inr d ↦ (let e = rw d at (rw c at (rw b at (rw a at h))) in cc)
          ]
        ]
      ]
    ]

for_refused :
    (infers : ℕ → Bool) (db : Database) (id : ℕ) (requested expected : List ℕ) (o : Option Task)
    → replace_for infers db id requested expected o ≡ err DependencyError.cycle
    → closes_cycle db id requested ≡ true
for_refused infers db id requested expected none h = cc
for_refused infers db id requested expected (some t) h =
    elim (Bool-cases (not (same_set (existing db.dependencies id) expected))) [
      | inl stale ↦ (let e = rw stale at h in cc)
      | inr current ↦ elim (Bool-cases (same_set (existing db.dependencies id) requested)) [
        | inl same ↦ (let e = rw same at (rw current at h) in cc)
        | inr other ↦ links_refused infers db t id requested (rw other at (rw current at h))
      ]
    ]

-- A replacement is refused for a cycle only where it would bring one: with the requested
-- prerequisites the task would wait for itself.
pub cycle_refused :
    (infers : ℕ → Bool) (db : Database) (id : ℕ) (prerequisites expected : List ℕ)
    → replace infers db id prerequisites expected ≡ err DependencyError.cycle
    → Waits (relink db.dependencies id (sorted_set prerequisites)) id id
unfolding replace
cycle_refused infers db id prerequisites expected h =
    let requested = sorted_set prerequisites in
    elim (Bool-cases (ltb 32 (length prerequisites) || has requested id)) [
      | inl outside ↦ (let e = rw outside at h in cc)
      | inr inside ↦
          let back =
            for_refused infers db id requested expected (find task_key id db.tasks)
              (rw inside at h) in
          elim (reachable-Awaited db.dependencies id requested (length db.dependencies) requested
            (requested-Awaited db.dependencies id requested) id (has-In _ id back)) [
              | inl walk ↦ walk
              | inr walk ↦ walk
            ]
    ]
