-- ===== src/Engineering/Control/Reports.antt =====
-- What a Developer turn reports after its receipt.
use dev_workflow_automation.Common.{
  ℕ, refl, Bool, true, false, not, ◌||◌, Option, none, some, ok, ◌≡◌, ◌⊎◌, inl, inr, arith,
  Bool-cases, check-eq-ok, check_ok, starts_with, skip, take,
}
use dev_workflow_automation.Engineering.Lifecycle.{WaitReason, Action}
use dev_workflow_automation.Engineering.Phases.{PhaseAction, phase_result}
use dev_workflow_automation.AgentRuntime.Policy.{TokenEfficiencyPolicy, post_init, guards}
use dev_workflow_automation.Engineering.Control.{
  bounded_repair_policy, block_or, after_repair, after_candidate, is_turn_limit, Harness,
  FailureCode, WorkOutcome, TurnReceipt, DevelopmentSession, Turn, Effects, is_enforce,
  after_rollover, recover_candidate, finish_failed, finish_milestone, finish_outcome, finish,
}

-- The policy of a bounded repair is accepted whenever the policy that it narrows is.
pub bounded_repair_policy-ok :
    (p : TokenEfficiencyPolicy)
    → post_init p ≡ ok p
    → post_init (bounded_repair_policy p) ≡ ok (bounded_repair_policy p)
unfolding post_init bounded_repair_policy
bounded_repair_policy-ok p h =
    let (_, held) = check-eq-ok (guards p) p h in
    check_ok (guards (bounded_repair_policy p)) (bounded_repair_policy p) (ground arith)

module _ {S : Type 0} (run : Effects S) where
  repair_reports :
      (s' : S) (a : Action) (code : Option FailureCode) (h : Harness) (o : S × Bool)
      → block_or run code h (after_repair run o) ≡ (s', ok a)
      → (a ≡ Action.bounded_repair) × (o ≡ (s', true))
  repair_reports s' a code h (x, true) e = (ground arith, ground arith)
  repair_reports s' a code h (x, false) e = cc

  candidate_reports :
      (session : ℕ) (s' : S) (a : Action) (code : Option FailureCode) (h : Harness) (o : S × Bool)
      → block_or run code h (after_candidate run session true o) ≡ (s', ok a)
      → ((a ≡ Action.validate_candidate) × (o ≡ (s', true)))
        ⊎ ((a ≡ Action.bounded_repair)
            × ((m : S) × (o ≡ (m, false)) × (run.repair session m ≡ (s', true))))
  candidate_reports session s' a code h (x, true) e = inl (ground arith, ground arith)
  candidate_reports session s' a code h (x, false) e =
      let (which, started) = repair_reports s' a code h (run.repair session x) e in
      inr (which, (x, refl, started))

  recovered_reports :
      (session : ℕ) (s s' : S) (a : Action) (code : Option FailureCode) (h : Harness)
      → block_or run code h (recover_candidate run session true s) ≡ (s', ok a)
      → ((a ≡ Action.validate_candidate) × (run.validate_candidate session s ≡ (s', true)))
        ⊎ ((a ≡ Action.bounded_repair)
            × ((m : S) × (run.validate_candidate session s ≡ (m, false))
                × (run.repair session m ≡ (s', true))))
  unfolding recover_candidate
  recovered_reports session s s' a code h e =
      candidate_reports session s' a code h (run.validate_candidate session s) e

  -- Two things only are reported from a receipt that is not completed, and both only of a turn cut
  -- at its input limit: a candidate to validate, when there was one, and a bounded repair, when
  -- there was no candidate and the repair was started.
  pub failed_turn_reports :
      (st : DevelopmentSession) (p : TokenEfficiencyPolicy) (r : TurnReceipt) (s s' : S)
      (a : Action)
      → r.completed ≡ false
      → finish run st p r s ≡ (s', ok a)
      → (r.failure_code ≡ some FailureCode.turn_input_limit)
        × (((a ≡ Action.validate_candidate) × (run.validate_candidate st.session_id s ≡ (s', true)))
            ⊎ ((a ≡ Action.bounded_repair)
                × ((m : S) × (run.validate_candidate st.session_id s ≡ (m, false))
                    × (run.repair st.session_id m ≡ (s', true)))))
  unfolding finish finish_failed
  failed_turn_reports st p r s s' a incomplete h =
      let failed = rw (incomplete, finish_failed) at h in
      elim (Bool-cases (is_turn_limit r.failure_code)) [
        | inl cut ↦ (
          ground arith,
          recovered_reports st.session_id s s' a r.failure_code st.harness (rw cut at failed),
        )
        | inr other ↦ cc (rw other at failed)
      ]

  module _
      (reports : (x x' : S) (b : Action)
        → run.execute Turn.plain x ≡ (x', ok b)
        → phase_result PhaseAction.developer_turn b ≡ true)
      (st : DevelopmentSession) (p : TokenEfficiencyPolicy) (r : TurnReceipt) (s' : S)
      (a : Action) where
    after_rollover-reports :
        (reason : WaitReason) (x : S × Bool)
        → after_rollover run reason x ≡ (s', ok a)
        → phase_result PhaseAction.developer_turn a ≡ true
    after_rollover-reports reason (s, true) h = reports s s' a h
    after_rollover-reports reason (s, false) h = ground arith

    milestone-reports :
        (s : S)
        → finish_milestone run st p r s ≡ (s', ok a)
        → phase_result PhaseAction.developer_turn a ≡ true
    unfolding finish_milestone
    milestone-reports s h =
        elim (Bool-cases (not p.automatic_rollover || not (is_enforce p.mode))) [
          | inl manual ↦ (let e = rw manual at h in ground (arith, e))
          | inr rolls ↦
              after_rollover-reports WaitReason.missing_requirement
                (run.rollover st.requirement_version
                  (take 1800 (skip "MILESTONE_COMPLETE\n" r.summary)) s)
                (rw rolls at h)
        ]

    outcome-reports :
        (o : Option WorkOutcome) (s : S)
        → finish_outcome run st p r o s ≡ (s', ok a)
        → phase_result PhaseAction.developer_turn a ≡ true
    unfolding finish_outcome
    outcome-reports (some WorkOutcome.needs_human) s h = ground arith
    outcome-reports (some WorkOutcome.failed) s h = ground arith
    outcome-reports (some WorkOutcome.milestone_complete) s h = milestone-reports s h
    outcome-reports (some WorkOutcome.needs_plan) s h = ground arith
    outcome-reports (some WorkOutcome.implemented) s h = ground arith
    outcome-reports none s h = elim (Bool-cases (starts_with "MILESTONE_COMPLETE\n" r.summary)) [
      | inl milestone ↦ milestone-reports s (rw milestone at h)
      | inr other ↦ (let e = rw other at h in ground (arith, e))
    ]

  -- A turn reports only what the unit of a Developer's phase may report, if each further execution
  -- that it starts does.
  pub finish-phase_result :
      (st : DevelopmentSession) (p : TokenEfficiencyPolicy) (r : TurnReceipt) (s s' : S)
      (a : Action)
      → ((x x' : S) (b : Action)
          → run.execute Turn.plain x ≡ (x', ok b)
          → phase_result PhaseAction.developer_turn b ≡ true)
      → finish run st p r s ≡ (s', ok a)
      → phase_result PhaseAction.developer_turn a ≡ true
  unfolding finish finish_outcome finish_milestone
  finish-phase_result st p r s s' a reports h = elim (Bool-cases r.completed) [
    | inl completed ↦ outcome-reports reports st p r s' a r.outcome s (rw completed at h)
    | inr failed ↦
        let (_, which) = failed_turn_reports st p r s s' a failed h in
        elim which [
          | inl (candidate, _) ↦ ground (arith, candidate)
          | inr (repair, _) ↦ ground (arith, repair)
        ]
  ]
