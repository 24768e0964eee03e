-- ===== src/Engineering/Dependencies/Tests.antt =====
-- Tests of the replacement of prerequisites at three tasks.
use dev_workflow_automation.Common.{
  ℕ, Bool, false, none, some, [], ◌∷◌, ok, err, find, ◌≡◌, refl, arith, inl, inr, ap,
}
use dev_workflow_automation.Engineering.Lifecycle.{TaskStatus, Stage, WaitReason}
use dev_workflow_automation.Engineering.Rows.{Task, Database}
use dev_workflow_automation.Engineering.Dependencies.{
  DependencyError, sorted_set, existing, leads_out, reachable, link, relink, replace,
}
use dev_workflow_automation.Engineering.Dependencies.Acyclic.{
  Waits, directly, through, IsAcyclic, replace-IsAcyclic,
}
use dev_workflow_automation.Engineering.Dependencies.Refusal.{cycle_refused}

abbrev paused : ℕ → Task
paused id = record {
  id = id;
  status = TaskStatus.paused;
  stage = Stage.developing;
  wait_reason = WaitReason.no_wait;
  requirement_version = 1;
  lifecycle_version = 3;
  manual_takeover = false;
  team_id = some 1;
  priority = 2;
  current_revision = none;
  started_at = none;
  completed_at = none;
  archived_at = none;
}

-- Task 1 waits for task 2.
abbrev linked : Database
linked = record {
  tasks = paused 1 ∷ paused 2 ∷ paused 3 ∷ [];
  jobs = [];
  teams = [];
  phase_runs = [];
  assignments = [];
  dependencies = link 1 2 ∷ [];
  lifecycle_events = [];
  review_cycles = [];
  sessions = [];
  next_id = 50;
  wakeups = [];
  notices = [];
}

abbrev idle : ℕ → Bool
idle id = false

below : {a b : ℕ} → Waits linked.dependencies a b → (a ≡ 1) × (b ≡ 2)
below (directly d (inl e)) = (ap (λ x. x.task_id) e, ap (λ x. x.prerequisite_id) e)
below (through before d (inl e) same) =
    let (_, two) = below before in
    let one : d.task_id ≡ 1 = ap (λ x. x.task_id) e in absurd (omega arith)
below (directly d (inr m)) = elim m [ ]
below (through before d (inr m) same) = elim m [ ]

linked-IsAcyclic : IsAcyclic linked.dependencies
linked-IsAcyclic id walk = (let (one, two) = below walk in omega arith)

abbrev chained : Database
chained = record linked { dependencies = link 1 2 ∷ link 2 3 ∷ [] }

chained-ok : replace idle linked 2 (3 ∷ 3 ∷ []) [] ≡ ok chained
unfolding replace sorted_set existing leads_out reachable relink find
chained-ok = refl

replace-IsAcyclic_example : IsAcyclic chained.dependencies
replace-IsAcyclic_example =
    replace-IsAcyclic idle linked 2 (3 ∷ 3 ∷ []) [] chained linked-IsAcyclic chained-ok

refused : replace idle linked 2 (1 ∷ []) [] ≡ err DependencyError.cycle
unfolding replace sorted_set existing leads_out reachable relink find
refused = refl

cycle_refused_example : Waits (relink linked.dependencies 2 (sorted_set (1 ∷ []))) 2 2
cycle_refused_example = cycle_refused idle linked 2 (1 ∷ []) [] refused
