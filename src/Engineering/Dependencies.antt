-- ===== src/Engineering/Dependencies.antt =====
-- engineering/infrastructure/dependencies.py: `SqlTaskDependencies.replace`, one transaction under
-- the lock that also serialises the claims. A set of identifiers is a list, sorted and without
-- repetitions where the code sorts it. The event row and `updated_at` are not modelled.
pub mod Closure
pub mod Acyclic
pub mod Refusal
pub mod Tests
use dev_workflow_automation.Common.{
  ℕ, zero, suc, ◌==◌, ltb, Bool, true, false, not, ◌&&◌, ◌||◌, Option, none, some, if◌then◌else◌,
  List, [], ◌∷◌, ◌++◌, map, keep, any, all, length, Result, ok, err, find,
}
use dev_workflow_automation.Engineering.Lifecycle.{TaskStatus}
use dev_workflow_automation.Engineering.Rows.{Task, Job, TaskDependency, Database, task_key}
use dev_workflow_automation.Engineering.Transitions.{is_missing}
use dev_workflow_automation.Engineering.Jobs.{is_held}

pub data DependencyError : Type 0 where
  too_many_or_self task_missing changed not_paused executing prerequisite_missing : DependencyError
  cycle : DependencyError

-- `x in s`, for a set of identifiers.
abbrev pub has : List ℕ → ℕ → Bool
has s x = any (λ y. x == y) s

-- `a == b`, for sets.
abbrev pub same_set : List ℕ → List ℕ → Bool
same_set a b = all (has b) a && all (has a) b

-- `sorted(set(...))`
unfoldable pub insert : ℕ → List ℕ → List ℕ
insert x [] = x ∷ []
insert x (y ∷ ys) =
    let rest = insert x ys in if x == y then y ∷ ys else if ltb x y then x ∷ y ∷ ys else y ∷ rest

unfoldable pub sorted_set : List ℕ → List ℕ
unfolding insert
sorted_set [] = []
sorted_set (x ∷ xs) = insert x (sorted_set xs)

-- The prerequisites that the table holds for a task.
unfoldable pub existing : List TaskDependency → ℕ → List ℕ
existing rows id = map (λ d. d.prerequisite_id) (keep (λ d. d.task_id == id) rows)

-- The recursive query: from the rows of its base, one row after another whose edge leads out of
-- what is reached, until no edge does. `fuel` bounds the rounds.
unfoldable pub leads_out : List ℕ → List TaskDependency → Option ℕ
leads_out seen [] = none
leads_out seen (d ∷ rows) =
    let rest = leads_out seen rows in
    if has seen d.task_id && not (has seen d.prerequisite_id) then some d.prerequisite_id else rest

unfoldable pub reachable : ℕ → List TaskDependency → List ℕ → List ℕ
reachable zero rows seen = seen
reachable (suc fuel) rows seen = elim (leads_out seen rows) [
  | none ↦ seen
  | some id ↦ reachable fuel rows (id ∷ seen)
]

-- `status in {"NEW", "PAUSED"}`
abbrev pub is_editable : TaskStatus → Bool
is_editable TaskStatus.new = true
is_editable TaskStatus.paused = true
is_editable _ = false

abbrev pub exists_task : Database → ℕ → Bool
exists_task db id = elim (find task_key id db.tasks) [ none ↦ false | some t ↦ true ]

abbrev pub link : ℕ → ℕ → TaskDependency
link id prerequisite = record { task_id = id; prerequisite_id = prerequisite }

-- The rows of the task are deleted and the requested ones inserted.
unfoldable pub relink : List TaskDependency → ℕ → List ℕ → List TaskDependency
relink rows id requested = keep (λ d. not (d.task_id == id)) rows ++ map (link id) requested

-- A held job of the task, or an AI run of it that is running.
abbrev pub is_executing : Database → (ℕ → Bool) → ℕ → Bool
is_executing db infers id = any (λ j. j.task_id == id && is_held j.state) db.jobs || infers id

-- The task that the edges of the query come back to.
abbrev pub closes_cycle : Database → ℕ → List ℕ → Bool
closes_cycle db id requested = has (reachable (length db.dependencies) db.dependencies requested) id

abbrev pub replace_links :
    (ℕ → Bool) → Database → Task → ℕ → List ℕ → Result DependencyError Database
replace_links infers db t id requested =
    if not (is_editable t.status) || not (is_missing t.archived_at)
    then err DependencyError.not_paused
    else if is_executing db infers id
    then err DependencyError.executing
    else if not (all (exists_task db) requested)
    then err DependencyError.prerequisite_missing
    else if closes_cycle db id requested
    then err DependencyError.cycle
    else ok (record db { dependencies = relink db.dependencies id requested })

abbrev pub replace_for :
    (ℕ → Bool) → Database → ℕ → List ℕ → List ℕ → Option Task → Result DependencyError Database
replace_for infers db id requested expected none = err DependencyError.task_missing
replace_for infers db id requested expected (some t) =
    let before = existing db.dependencies id in
    if not (same_set before expected)
    then err DependencyError.changed
    else if same_set before requested
    then ok db
    else replace_links infers db t id requested

-- `infers` tells the tasks with a running AI run.
unfoldable pub replace :
    (ℕ → Bool) → Database → ℕ → List ℕ → List ℕ → Result DependencyError Database
replace infers db id prerequisites expected =
    let requested = sorted_set prerequisites in
    if ltb 32 (length prerequisites) || has requested id
    then err DependencyError.too_many_or_self
    else replace_for infers db id requested expected (find task_key id db.tasks)
