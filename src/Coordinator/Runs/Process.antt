-- ===== src/Coordinator/Runs/Process.antt =====
-- coordinator/application/process.py: `ProcessCoordinator.process_one` and `_decide`. The model's
-- answers are an argument, by the number of the call; so is the failure, if any, with which the
-- watcher or the time limit ends the operation first, and what other transactions commit in
-- each of the three gaps between this worker's own. The evidence for the second call is not
-- modelled.
use dev_workflow_automation.Common.{
  ℕ, Bool, true, false, not, Option, none, some, List, [], String, if◌then◌else◌, Result, ok, err,
  ◌>>=◌,
}
use dev_workflow_automation.Engineering.Rows.{Task}
use dev_workflow_automation.Coordinator.Protocol.{Decision}
use dev_workflow_automation.Coordinator.Rows.{CoordinatorEvent, Tables, Settings}
use dev_workflow_automation.Coordinator.Runs.{RunError, Claimed, claim}
use dev_workflow_automation.Coordinator.Runs.Decisions.{ensure_authorized, complete, fail}

-- `SituationChanged`, or the text of another exception.
pub data Failure : Type 0 where
  changed : Failure
  because : String → Failure

abbrev failure_of : RunError → Failure
failure_of RunError.situation_changed = Failure.changed
failure_of RunError.authority_changed =
    Failure.because "Coordinator authority changed during inference"
failure_of RunError.identity_changed = Failure.because "Coordinator task identity changed"

abbrev pub raised : {A : Type 0} → Result RunError A → Result Failure A
raised (err e) = err (failure_of e)
raised (ok a) = ok a

abbrev is_empty : List String → Bool
is_empty [] = true
is_empty _ = false

abbrev pub last_answer : Decision → Result Failure Decision
last_answer d =
    if not (is_empty d.read_tools)
    then err (Failure.because "Coordinator exhausted its context expansion")
    else ok d

abbrev pub expand : (ℕ → Result Failure Decision) → Decision → Result Failure Decision
expand model d = if is_empty d.read_tools then ok d else model 1 >>= last_answer

-- One call of the model, and a second one with the evidence that the first asks for.
unfoldable pub ask_model : (ℕ → Result Failure Decision) → Result Failure Decision
ask_model model = model 0 >>= expand model

-- `_decide`, on the tables before the check and on those before the completion.
abbrev pub decide :
    (ℕ → Result Failure Decision) → Tables → Tables → Claimed → ℕ → Result Failure Tables
decide model checked last c now = ask_model model >>= (λ d.
    raised (ensure_authorized checked c.run_id)
    >>= (λ u. raised (complete last c.run_id c.task_id d now)))

abbrev reason_of : Failure → String
reason_of Failure.changed = "SituationChanged"
reason_of (Failure.because text) = text

abbrev is_changed : Failure → Bool
is_changed Failure.changed = true
is_changed (Failure.because text) = false

abbrev pub conclude : Tables → Claimed → ℕ → Result Failure Tables → Tables
conclude s c now (ok done) = done
conclude s c now (err f) = fail s c.run_id (reason_of f) (is_changed f) now

abbrev pub operation :
    (ℕ → Result Failure Decision)
    → Option Failure
    → Tables
    → Tables
    → Claimed
    → ℕ
    → Result Failure Tables
operation model (some f) checked last c now = err f
operation model none checked last c now = decide model checked last c now

abbrev pub process_claimed :
    (ℕ → Tables → Tables)
    → (ℕ → Result Failure Decision)
    → Option Failure
    → ℕ
    → Tables × Option Claimed
    → Tables × Bool
process_claimed others model interrupt now (s, none) = (s, false)
process_claimed others model interrupt now (s, some c) =
    let checked = others 0 s in
    let last = others 1 checked in
    (conclude (others 2 last) c now (operation model interrupt checked last c now), true)

unfoldable pub process_one :
    Settings
    → (Task → Result String String)
    → (CoordinatorEvent → Bool)
    → (ℕ → Bool)
    → (ℕ → Tables → Tables)
    → (ℕ → Result Failure Decision)
    → Option Failure
    → Tables
    → ℕ
    → Tables × Bool
process_one set requirement skipped locked others model interrupt s now =
    process_claimed others model interrupt now (claim set requirement skipped locked s now)
