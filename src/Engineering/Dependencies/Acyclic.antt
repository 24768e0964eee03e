-- ===== src/Engineering/Dependencies/Acyclic.antt =====
-- No replacement of prerequisites brings a cycle into the dependencies.
use dev_workflow_automation.Common.{
  append_cases, keep-In, map-In, true-false, if-err-eq-ok, ℕ, ◌==◌, Bool, false, not, ◌||◌, Option,
  none, some, List, In, map, keep, length, Result, ok, find, ◌≡◌, ◌≢◌, ◌⊎◌, inl, inr, sym, ◌∙◌,
  arith, Bool-cases, subst, ap, all,
}
use dev_workflow_automation.Engineering.Transitions.{is_missing}
use dev_workflow_automation.Engineering.Rows.{Task, TaskDependency, Database, task_key}
use dev_workflow_automation.Engineering.Dependencies.{
  DependencyError, reachable, link, relink, closes_cycle, replace_links, replace_for, replace,
  sorted_set, same_set, existing, is_editable, is_executing, exists_task,
}
use dev_workflow_automation.Engineering.Dependencies.Closure.{In-has, Closes, reachable-Closes}

-- The first task waits for the second, directly or through others.
pub data Waits (rows : List TaskDependency) : ℕ → ℕ → Type 0 where
  directly : (d : TaskDependency) → In d rows → Waits rows d.task_id d.prerequisite_id
  through :
      {a b : ℕ} (before : Waits rows a b) (d : TaskDependency)
      → In d rows
      → d.task_id ≡ b
      → Waits rows a d.prerequisite_id

-- No task waits for itself.
abbrev pub IsAcyclic : List TaskDependency → Type 0
IsAcyclic rows = (id : ℕ) → ¬ Waits rows id id

-- A row of the new table is an old row of another task, or a new row of this one.
In-relink :
    (rows : List TaskDependency) (id : ℕ) (requested : List ℕ) (d : TaskDependency)
    → In d (relink rows id requested)
    → (In d rows × (d.task_id ≢ id)) ⊎ ((d.task_id ≡ id) × In d.prerequisite_id requested)
unfolding relink
In-relink rows id requested d m =
    elim (append_cases d (keep (λ d. not (d.task_id == id)) rows) (map (link id) requested) m) [
      | inl kept ↦
          let (old, other) = keep-In (λ d. not (d.task_id == id)) d rows kept in
          inl (old, λ e. ground (arith, e))
      | inr new ↦
          let (p, place, e) = map-In (link id) d requested new in
          inr (
            ap (λ x. x.task_id) e,
            subst (λ x. In x requested) (sym (ap (λ x. x.prerequisite_id) e)) place,
          )
    ]

module _ (rows : List TaskDependency) (id : ℕ) (requested closed : List ℕ)
    (closes : Closes rows requested closed) (apart : ¬ In id closed) where
  -- From a task of the closed set only old rows are followed, and they stay in it.
  stays :
      (d : TaskDependency)
      → In d (relink rows id requested)
      → In d.task_id closed
      → In d rows × In d.prerequisite_id closed
  stays d m from = elim (In-relink rows id requested d m) [
    | inl (old, _) ↦ (old, closes.1 d old from)
    | inr (same, _) ↦ absurd (apart (subst (λ x. In x closed) same from))
  ]

  stays_through :
      {a b : ℕ} → In a closed → Waits (relink rows id requested) a b → Waits rows a b × In b closed
  stays_through from (directly d m) = let (old, target) = stays d m from in (directly d old, target)
  stays_through from (through before d m e) =
      let (walk, inside) = stays_through from before in
      let (old, target) = stays d m (subst (λ x. In x closed) (sym e) inside) in
      (through walk d old e, target)

  -- A new chain is an old one, or it ends in the closed set.
  old_or_inside : {a b : ℕ} → Waits (relink rows id requested) a b → Waits rows a b ⊎ In b closed
  old_or_inside (directly d m) = elim (In-relink rows id requested d m) [
    | inl (old, _) ↦ inl (directly d old)
    | inr (_, new) ↦ inr (closes.0 d.prerequisite_id new)
  ]
  old_or_inside (through before d m e) = elim (old_or_inside before) [
    | inl walk ↦ elim (In-relink rows id requested d m) [
      | inl (old, _) ↦ inl (through walk d old e)
      | inr (_, new) ↦ inr (closes.0 d.prerequisite_id new)
    ]
    | inr inside ↦ inr (stays d m (subst (λ x. In x closed) (sym e) inside)).1
  ]

  relink-IsAcyclic : IsAcyclic rows → IsAcyclic (relink rows id requested)
  relink-IsAcyclic acyclic i walk = elim (old_or_inside walk) [
    | inl old ↦ acyclic i old
    | inr inside ↦ acyclic i (stays_through inside walk).0
  ]

ok-injective :
    {db db' : Database} → ◌≡◌ {A = Result DependencyError Database} (ok db) (ok db') → db ≡ db'
ok-injective h = cc

abbrev Replaced : Database → ℕ → List ℕ → Database → Type 0
Replaced db id requested db' =
    (db' ≡ db)
    ⊎ ((closes_cycle db id requested ≡ false)
        × (record db { dependencies = relink db.dependencies id requested } ≡ db'))

Replaced-links :
    (infers : ℕ → Bool) (db : Database) (t : Task) (id : ℕ) (requested : List ℕ) (db' : Database)
    → replace_links infers db t id requested ≡ ok db'
    → Replaced db id requested db'
Replaced-links infers db t id requested db' h =
    let (_, h1) =
      if-err-eq-ok (not (is_editable t.status) || not (is_missing t.archived_at))
        DependencyError.not_paused _ h in
    let (_, h2) = if-err-eq-ok (is_executing db infers id) DependencyError.executing _ h1 in
    let (_, h3) =
      if-err-eq-ok (not (all (exists_task db) requested)) DependencyError.prerequisite_missing _
        h2 in
    let (apart, h4) = if-err-eq-ok (closes_cycle db id requested) DependencyError.cycle _ h3 in
    inr (apart, ok-injective h4)

Replaced-for :
    (infers : ℕ → Bool) (db : Database) (id : ℕ) (requested expected : List ℕ) (db' : Database)
    (o : Option Task)
    → replace_for infers db id requested expected o ≡ ok db'
    → Replaced db id requested db'
Replaced-for infers db id requested expected db' none h = cc
Replaced-for infers db id requested expected db' (some t) h =
    let before = existing db.dependencies id in
    let (_, h1) = if-err-eq-ok (not (same_set before expected)) DependencyError.changed _ h in
    elim (Bool-cases (same_set before requested)) [
      | inl same ↦ inl (sym (ok-injective (rw same at h1)))
      | inr other ↦ Replaced-links infers db t id requested db' (rw other at h1)
    ]

replaced :
    (infers : ℕ → Bool) (db : Database) (id : ℕ) (prerequisites expected : List ℕ) (db' : Database)
    → replace infers db id prerequisites expected ≡ ok db'
    → Replaced db id (sorted_set prerequisites) db'
unfolding replace
replaced infers db id prerequisites expected db' h =
    let requested = sorted_set prerequisites in
    let (_, guarded) =
      if-err-eq-ok _ _ (replace_for infers db id requested expected (find task_key id db.tasks))
        h in
    Replaced-for infers db id requested expected db' (find task_key id db.tasks) guarded

-- A task's prerequisites are replaced only so that no task waits for itself, if none did before:
-- whatever is asked for, the dependencies stay without a cycle.
pub replace-IsAcyclic :
    (infers : ℕ → Bool) (db : Database) (id : ℕ) (prerequisites expected : List ℕ) (db' : Database)
    → IsAcyclic db.dependencies
    → replace infers db id prerequisites expected ≡ ok db'
    → IsAcyclic db'.dependencies
replace-IsAcyclic infers db id prerequisites expected db' acyclic h =
    elim (replaced infers db id prerequisites expected db' h) [
      | inl same ↦ subst (λ d. IsAcyclic d.dependencies) (sym same) acyclic
      | inr (none_back, new) ↦
          let requested = sorted_set prerequisites in
          let closed = reachable (length db.dependencies) db.dependencies requested in
          subst (λ d. IsAcyclic d.dependencies) new
            (relink-IsAcyclic db.dependencies id requested closed
              (reachable-Closes db.dependencies requested)
              (λ m. true-false (sym (In-has closed id m) ∙ none_back)) acyclic)
    ]
