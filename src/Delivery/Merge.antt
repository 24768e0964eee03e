-- ===== src/Delivery/Merge.antt =====
-- delivery/domain/merge.py: the policy that decides whether a pull request may be merged.
use dev_workflow_automation.Common.{
  Bool, true, false, not, ◌&&◌, ◌||◌, Option, none, some, if◌then◌else◌, List, [], ◌∷◌, String,
  str_eq, eq_iff, any, any-eq_true, any_of_In, In, Bool-cases, inl, inr, subst, sym, and-eq_true,
  collect, collect-eq-nil, collect_nil, NoneHolds, ◌≡◌, ◌≢◌, refl, ◌⊎◌, ◌↔◌, arith,
}

pub record Approval : Type 0 where
  pub actor_id : String
  pub head_sha : String
  pub evidence_id : String
  pub formal : Bool

-- `review_messages` is carried for the record and read by none of this.
pub record MergeEvidence : Type 0 where
  pub expected_sha : String
  pub current_sha : String
  pub validated_sha : Option String
  pub pr_open : Bool
  pub checks_complete : Bool
  pub checks_passed : Bool
  pub blocking_review : Bool
  pub mergeable : Option Bool
  pub task_runnable : Bool
  pub approval : Option Approval
  pub pending_review_messages : Bool

pub record MergePolicy : Type 0 where
  pub team_auto_merge : Bool
  pub repository_auto_merge : Bool
  pub authorized_actor_ids : List String
  pub require_formal_approval : Bool
  pub any_human_reviewer : Bool

pub data Blocker : Type 0 where
  auto_merge_disabled pr_not_open head_changed validation_stale checks_not_green : Blocker
  blocking_review review_messages_pending mergeability_unconfirmed task_suspended : Blocker
  approval_missing approver_unauthorized approval_stale formal_approval_required : Blocker

-- `not s`, for a text.
abbrev pub is_blank : String → Bool
is_blank s = str_eq s ""

abbrev pub allows_actor : MergePolicy → String → Bool
allows_actor p actor_id =
    not (is_blank actor_id)
    && (p.any_human_reviewer || any (λ a. str_eq actor_id a) p.authorized_actor_ids)

-- `validated_sha != current_sha or not validated_sha`
abbrev pub is_stale : Option String → String → Bool
is_stale none current = true
is_stale (some sha) current = not (str_eq sha current) || is_blank sha

-- `mergeable is not True`
abbrev pub is_unconfirmed : Option Bool → Bool
is_unconfirmed (some true) = false
is_unconfirmed _ = true

approval_tests : MergePolicy → String → Option Approval → List (Bool × Blocker)
approval_tests p current none = (true, Blocker.approval_missing) ∷ []
approval_tests p current (some a) =
    if is_blank a.evidence_id
    then (true, Blocker.approval_missing) ∷ []
    else (not (allows_actor p a.actor_id), Blocker.approver_unauthorized)
      ∷ (not (str_eq a.head_sha current), Blocker.approval_stale)
      ∷ (p.require_formal_approval && not a.formal, Blocker.formal_approval_required)
      ∷ []

tests : MergePolicy → MergeEvidence → List (Bool × Blocker)
unfolding approval_tests
tests p e =
    (not p.team_auto_merge || not p.repository_auto_merge, Blocker.auto_merge_disabled)
    ∷ (not e.pr_open, Blocker.pr_not_open)
    ∷ (is_blank e.expected_sha || not (str_eq e.current_sha e.expected_sha), Blocker.head_changed)
    ∷ (is_stale e.validated_sha e.current_sha, Blocker.validation_stale)
    ∷ (not e.checks_complete || not e.checks_passed, Blocker.checks_not_green)
    ∷ (e.blocking_review, Blocker.blocking_review)
    ∷ (e.pending_review_messages, Blocker.review_messages_pending)
    ∷ (is_unconfirmed e.mergeable, Blocker.mergeability_unconfirmed)
    ∷ (not e.task_runnable, Blocker.task_suspended)
    ∷ approval_tests p e.current_sha e.approval

unfoldable pub blockers : MergePolicy → MergeEvidence → List Blocker
unfolding tests
blockers p e = collect (tests p e)

-- Who may approve.
abbrev pub MayApprove : MergePolicy → String → Type 0
MayApprove p actor =
    (actor ≢ "") × ((p.any_human_reviewer ≡ true) ⊎ In actor p.authorized_actor_ids)

-- The approval that a merge rests on.
pub record IsApproved (p : MergePolicy) (current : String) (a : Approval) : Type 0 where
  pub has_evidence : a.evidence_id ≢ ""
  pub by_authority : MayApprove p a.actor_id
  pub of_current : a.head_sha ≡ current
  pub formal_if_required : p.require_formal_approval ≡ true → a.formal ≡ true

-- Everything that must hold of a merge, as the delivery policy states it.
pub record IsMergeable (p : MergePolicy) (e : MergeEvidence) : Type 0 where
  pub team_agrees : p.team_auto_merge ≡ true
  pub repository_agrees : p.repository_auto_merge ≡ true
  pub is_open : e.pr_open ≡ true
  pub sha_known : e.current_sha ≢ ""
  pub head_expected : e.current_sha ≡ e.expected_sha
  pub head_validated : e.validated_sha ≡ some e.current_sha
  pub checks_green : (e.checks_complete ≡ true) × (e.checks_passed ≡ true)
  pub no_objection : (e.blocking_review ≡ false) × (e.pending_review_messages ≡ false)
  pub confirmed : e.mergeable ≡ some true
  pub runnable : e.task_runnable ≡ true
  pub approved : (a : Approval) × (e.approval ≡ some a) × IsApproved p e.current_sha a

may_approve : (p : MergePolicy) (actor : String) → allows_actor p actor ≡ true → MayApprove p actor
may_approve p actor h =
    let (named, allowed) =
      and-eq_true (not (is_blank actor))
        (p.any_human_reviewer || any (λ a. str_eq actor a) p.authorized_actor_ids) h in
    (
      ground (arith, eq_iff actor ""),
      elim (Bool-cases p.any_human_reviewer) [
        | inl anyone ↦ inl anyone
        | inr listed ↦
            let (a, place, same) =
              any-eq_true (λ a. str_eq actor a) p.authorized_actor_ids (rw listed at allowed) in
            inr (subst (λ x. In x p.authorized_actor_ids) (sym ((eq_iff actor a).0 same)) place)
      ],
    )

allowed : (p : MergePolicy) (actor : String) → MayApprove p actor → allows_actor p actor ≡ true
allowed p actor (named, inl anyone) = ground (arith, eq_iff actor "")
allowed p actor (named, inr place) = ground (
  arith,
  eq_iff actor "",
  any_of_In (λ a. str_eq actor a) actor p.authorized_actor_ids place ((eq_iff actor actor).1 refl),
)

approved_of_tests :
    (p : MergePolicy) (current : String) (o : Option Approval)
    → NoneHolds (approval_tests p current o)
    → (a : Approval) × (o ≡ some a) × IsApproved p current a
unfolding approval_tests
approved_of_tests p current none h = cc
approved_of_tests p current (some a) h =
    let blank = eq_iff a.evidence_id "" in
    let of_current = eq_iff a.head_sha current in
    let by_authority = may_approve p a.actor_id in
    (
      a,
      refl,
      record {
        has_evidence = ground (arith, blank);
        by_authority = by_authority (ground (arith, blank));
        of_current = ground (arith, blank, of_current);
        formal_if_required = λ required. ground (arith, blank);
      },
    )

stale_validated :
    (o : Option String) (current : String) → is_stale o current ≡ false → o ≡ some current
stale_validated none current h = cc
stale_validated (some sha) current h = ground (arith, eq_iff sha current)

sound : (p : MergePolicy) (e : MergeEvidence) → NoneHolds (tests p e) → IsMergeable p e
unfolding tests
sound p e
      (
        auto,
        (
          is_open,
          (head, (stale, (checks, (blocking, (pending, (unconfirmed, (suspended, rest))))))),
        ),
      ) =
    record {
      team_agrees = ground arith;
      repository_agrees = ground arith;
      is_open = ground arith;
      sha_known = ground (arith, eq_iff e.expected_sha "", eq_iff e.current_sha e.expected_sha);
      head_expected = ground (arith, eq_iff e.current_sha e.expected_sha);
      head_validated = stale_validated e.validated_sha e.current_sha stale;
      checks_green = ground arith;
      no_objection = (blocking, pending);
      confirmed = ground arith;
      runnable = ground arith;
      approved = approved_of_tests p e.current_sha e.approval rest;
    }

tests_of_approved :
    (p : MergePolicy) (current : String) (a : Approval)
    → IsApproved p current a
    → NoneHolds (approval_tests p current (some a))
unfolding approval_tests
tests_of_approved p current a h =
    ground (
      arith,
      eq_iff a.evidence_id "",
      eq_iff a.head_sha current,
      allowed p a.actor_id h.by_authority,
    )

complete : (p : MergePolicy) (e : MergeEvidence) → IsMergeable p e → NoneHolds (tests p e)
unfolding tests
complete p e m =
    let (a, known, approved) = m.approved in
    (
      ground arith,
      (
        ground arith,
        (
          ground (arith, eq_iff e.expected_sha "", eq_iff e.current_sha e.expected_sha),
          (
            rw m.head_validated
                (ground (arith, eq_iff e.current_sha e.current_sha, eq_iff e.current_sha "")),
            (
              ground arith,
              (
                m.no_objection.0,
                (
                  m.no_objection.1,
                  (
                    ground arith,
                    (ground arith, rw known (tests_of_approved p e.current_sha a approved)),
                  ),
                ),
              ),
            ),
          ),
        ),
      ),
    )

-- The policy names no blocker exactly when everything holds that a merge needs.
pub blockers-eq-nil_iff :
    (p : MergePolicy) (e : MergeEvidence) → (blockers p e ≡ []) ↔ IsMergeable p e
unfolding blockers
blockers-eq-nil_iff p e =
    (λ h. sound p e (collect-eq-nil (tests p e) h), λ m. collect_nil (tests p e) (complete p e m))
