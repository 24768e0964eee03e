-- ===== src/Delivery/Tests.antt =====
-- Tests of the merge policy and of the reviews at concrete evidence.
use dev_workflow_automation.Common.{◌≡◌, ◌↔◌, true, false, some, [], ◌∷◌, String, In, refl}
use dev_workflow_automation.Delivery.Merge.{
  MergeEvidence, MergePolicy, blockers, IsMergeable, blockers-eq-nil_iff,
}
use dev_workflow_automation.Delivery.Review.{
  ReviewMessage, ReviewedMessage, message_key, matches, is_unclassified, resolved_duplicate,
  Settles, resolved_duplicate_settled,
}

abbrev policy : MergePolicy
policy = record {
  team_auto_merge = true;
  repository_auto_merge = true;
  authorized_actor_ids = "7" ∷ [];
  require_formal_approval = true;
  any_human_reviewer = false;
}

abbrev evidence : MergeEvidence
evidence = record {
  expected_sha = "abc";
  current_sha = "abc";
  validated_sha = some "abc";
  pr_open = true;
  checks_complete = true;
  checks_passed = true;
  blocking_review = false;
  mergeable = some true;
  task_runnable = true;
  approval = some (record { actor_id = "7"; head_sha = "abc"; evidence_id = "e"; formal = true });
  pending_review_messages = false;
}

blockers-eq-nil_iff_example : (blockers policy evidence ≡ []) ↔ IsMergeable policy evidence
blockers-eq-nil_iff_example = blockers-eq-nil_iff policy evidence

-- A digest for the test: the text itself.
abbrev digest : String → String
digest body = body

abbrev message : ReviewMessage
message = record {
  source = "comment";
  source_id = "1";
  actor_id = "7";
  head_sha = "abc";
  body = "LGTM";
  updated_at = "2026-01-01";
}

abbrev newer : ReviewMessage
newer = record message { source_id = "2"; updated_at = "2026-01-02" }

abbrev approved : ReviewedMessage
approved = record {
  key = message_key newer;
  actor_id = "7";
  head_sha = "abc";
  digest = "LGTM";
  updated_at = "2026-01-02";
  decision = "APPROVAL_INTERPRETED";
}

abbrev saved : ReviewedMessage
saved = record approved {
  key = message_key message;
  updated_at = "2026-01-01";
  decision = "NEEDS_CLASSIFICATION";
}

resolved : resolved_duplicate digest message (some saved) (newer ∷ []) (approved ∷ []) ≡ true
unfolding resolved_duplicate matches
resolved = refl

resolved_duplicate_settled_example :
    (is_unclassified digest (some saved) ≡ true)
    × (later_message : ReviewMessage) × In later_message (newer ∷ [])
    × (r : ReviewedMessage) × In r (approved ∷ [])
    × (matches digest r later_message ≡ true)
    × Settles digest message r
resolved_duplicate_settled_example =
    resolved_duplicate_settled digest message (some saved) (newer ∷ []) (approved ∷ []) resolved
