-- ===== src/AgentRuntime/Governor/Resumption.antt =====
-- A governor that is restored from a snapshot goes on where the other stopped.
use dev_workflow_automation.Common.{
  ℕ, ◌≤◌, Bool, true, false, ◌&&◌, ◌||◌, Option, List, [], ◌∷◌, String, ◌≡◌, refl, arith, ℤ, pos,
  negsuc, sub_ℕ, keep, Bool-cases, inl, inr, ap, ◌∙◌,
}
use mathlib.Core.Path.{fun_ext}
use dev_workflow_automation.AgentRuntime.Policy.{TokenEfficiencyPolicy}
use dev_workflow_automation.AgentRuntime.Governor.{
  Governor, Warning, begin, behind, read, check, progress, command,
}
use dev_workflow_automation.AgentRuntime.Governor.Observe.{
  in_order, member, same_warning, observe, take_in, conclude,
}
use dev_workflow_automation.AgentRuntime.Governor.Warnings.{same_warning-eq}
use dev_workflow_automation.AgentRuntime.Governor.Snapshots.{Snapshot, snapshot, restore}

-- `last_progress` is a reading of `total` at an earlier time, or lies before its start.
abbrev pub IsPast : ℕ → ℤ → Type 0
IsPast total (pos p) = p ≤ total
IsPast total (negsuc k) = Unit

-- What the adapters report to a governor.
pub data Event : Type 0 where
  was_read : String → ℕ → Event
  was_checked : String → String → Event
  was_diffed : String → ℕ → Event
  was_called : String → Bool → Bool → ℕ → Event
  was_inferred : ℕ → Option ℕ → Option ℕ → Event
  was_restored : Snapshot → Event

pub react : Governor → Event → Governor
react g (was_read fingerprint size) = read g fingerprint size
react g (was_checked name outcome) = check g name outcome
react g (was_diffed fingerprint now) = progress g fingerprint now
react g (was_called fingerprint failed expensive now) = command g fingerprint failed expensive now
react g (was_inferred total active cached) = (observe g total active cached).0
react g (was_restored s) = restore g s

pub react_all : Governor → List Event → Governor
react_all g [] = g
react_all g (e ∷ es) = react_all (react g e) es

react-IsPast :
    (g : Governor) (e : Event)
    → IsPast g.total g.last_progress
    → IsPast (react g e).total (react g e).last_progress
unfolding react read check progress command observe conclude take_in restore
react-IsPast g (was_read fingerprint size) h = h
react-IsPast g (was_checked name outcome) h = ground arith
react-IsPast g (was_diffed fingerprint now) h = ground arith
react-IsPast g (was_called fingerprint failed expensive now) h = h
react-IsPast g (was_inferred total active cached) h = ground arith
react-IsPast g (was_restored s) h = ground arith

react_all-IsPast :
    (g : Governor) (es : List Event)
    → IsPast g.total g.last_progress
    → IsPast (react_all g es).total (react_all g es).last_progress
unfolding react_all
react_all-IsPast g [] h = h
react_all-IsPast g (e ∷ es) h = react_all-IsPast (react g e) es (react-IsPast g e h)

kept :
    (same pw m k : Bool)
    → (same ≡ true → pw ≡ true)
    → k ≡ (pw && m)
    → (same || k) ≡ (pw && (same || m))
kept true pw m k h e = ground arith
kept false pw m k h e = e

dropped :
    (same pw m k : Bool) → (same ≡ true → pw ≡ false) → k ≡ (pw && m) → k ≡ (pw && (same || m))
dropped true pw m k h e = ground arith
dropped false pw m k h e = e

member-keep :
    (p : Warning → Bool) (w : Warning) (xs : List Warning)
    → member w (keep p xs) ≡ (p w && member w xs)
member-keep p w [] = ground arith
member-keep p w (x ∷ xs) = elim (Bool-cases (p x)) [
  | inl on ↦ rw on (
      kept (same_warning w x) (p w) (member w xs) (member w (keep p xs))
        (λ e. ap p (same_warning-eq w x e) ∙ on) (member-keep p w xs))
  | inr off ↦ rw off (
      dropped (same_warning w x) (p w) (member w xs) (member w (keep p xs))
        (λ e. ap p (same_warning-eq w x e) ∙ off) (member-keep p w xs))
]

member-in_order : (w : Warning) → member w in_order ≡ true
member-in_order Warning.context_warning = refl
member-in_order _ = refl

sub_behind : (total : ℕ) (p : ℤ) → IsPast total p → sub_ℕ total (behind total p) ≡ p
sub_behind total (pos p) h = ground arith
sub_behind total (negsuc k) h = ground arith

restored_warnings : (p : Warning → Bool) → (λ w. member w (keep p in_order)) ≡ p
restored_warnings p = fun_ext (λ w. ground (arith, member-keep p w in_order, member-in_order w))

-- After any events since its creation, a governor's snapshot restores into any other governor
-- exactly its usage so far (total, cached input, cycles, peak context, compactions), its first
-- edit and last progress, the fingerprint of its diff and the warnings already given.
pub restore-snapshot :
    (policy : TokenEfficiencyPolicy) (now : ℕ) (es : List Event) (h : Governor)
    → let g = react_all (begin policy now) es in
      restore h (snapshot g) ≡ record h {
        total = g.total;
        first_edit = g.first_edit;
        cached_input = g.cached_input;
        inference_cycles = g.inference_cycles;
        last_progress = g.last_progress;
        peak_context = g.peak_context;
        diff_fingerprint = g.diff_fingerprint;
        warnings = g.warnings;
        compaction_count = g.compaction_count;
      }
unfolding restore snapshot
restore-snapshot policy now es h =
    let g = react_all (begin policy now) es in
    rw (sub_behind g.total g.last_progress (react_all-IsPast (begin policy now) es (omega arith))) (
      let same : (λ w. member w (keep g.warnings in_order)) ≡ g.warnings =
        restored_warnings g.warnings in
      λ i. record h {
        total = g.total;
        first_edit = g.first_edit;
        cached_input = g.cached_input;
        inference_cycles = g.inference_cycles;
        last_progress = g.last_progress;
        peak_context = g.peak_context;
        diff_fingerprint = g.diff_fingerprint;
        warnings = same i;
        compaction_count = g.compaction_count;
      })
