-- ===== src/AgentRuntime/Progress/Repairs.antt =====
-- When a repair may go on.
use dev_workflow_automation.Common.{
  true-false, ℕ, ◌<◌, leb, Bool, true, false, some, String, List, [], ◌∷◌, all, In, str_eq, eq_iff,
  any-eq_true, any_of_In, all_of_In, ◌≡◌, ◌≢◌, inl, inr, refl, sym, ◌∙◌, subst, arith, Bool-cases,
}
use dev_workflow_automation.AgentRuntime.Progress.{
  contains, is_subset, allow, compare_failures, repair_allowance,
}

contains-In : (s : List String) (x : String) → contains s x ≡ true → In x s
contains-In s x h =
    let (y, place, same) = any-eq_true (λ y. str_eq x y) s h in
    subst (λ z. In z s) (sym ((eq_iff x y).0 same)) place

In-contains : (s : List String) (x : String) → In x s → contains s x ≡ true
In-contains s x m = any_of_In (λ y. str_eq x y) x s m ((eq_iff x x).1 refl)

-- A list that is not a subset has an element outside.
missing :
    (p : String → Bool) (a : List String) → all p a ≡ false → (x : String) × In x a × (p x ≡ false)
missing p [] h = cc
missing p (x ∷ a) h = elim (Bool-cases (p x)) [
  | inl holds ↦ (let (y, place, fails) = missing p a (rw holds at h) in (y, inr place, fails))
  | inr fails ↦ (x, inl refl, fails)
]

nonempty : (x : String) (a : List String) → x ∷ a ≢ []
nonempty x a h = cc

guards_met :
    (previous current : List String) (attempts limit : ℕ)
    → (repair_allowance (some previous) current attempts limit).continue_work ≡ true
    → (current ≢ [])
      × (leb limit attempts ≡ false)
      × (is_subset current previous ≡ true)
      × (is_subset previous current ≡ false)
unfolding repair_allowance compare_failures allow
guards_met previous [] attempts limit h = cc
guards_met previous (x ∷ current) attempts limit h =
    (nonempty x current, ground arith, ground arith, ground arith)

-- A repair goes on after an earlier failure only below the limit of attempts and with strictly
-- fewer failures: some are left, all of them failed before, and one that failed before is gone.
pub repair_allowance_shrinks :
    (previous current : List String) (attempts limit : ℕ)
    → (repair_allowance (some previous) current attempts limit).continue_work ≡ true
    → (attempts < limit)
      × (current ≢ [])
      × ((x : String) → In x current → In x previous)
      × (x : String) × In x previous
      × (In x current → ⊥)
unfolding repair_allowance compare_failures allow
repair_allowance_shrinks previous current attempts limit h =
    let (some_left, below, subset, other) = guards_met previous current attempts limit h in
    let (x, place, gone) = missing (contains current) previous other in
    (
      ground arith,
      some_left,
      λ y m. contains-In previous y (all_of_In (contains previous) y current subset m),
      x,
      place,
      λ m. true-false (sym (In-contains current x m) ∙ gone),
    )
