-- ===== src/AgentRuntime/Governor/Warnings.antt =====
-- Each warning reaches the operator at most once in the life of a governor.
use dev_workflow_automation.Common.{
  ℕ, ◌+◌, ◌≤◌, Bool, true, false, not, ◌&&◌, Option, if◌then◌else◌, List, [], ◌∷◌, ◌++◌, keep, ◌≡◌,
  refl, arith,
}
use dev_workflow_automation.AgentRuntime.Governor.{Governor, Warning}
use dev_workflow_automation.AgentRuntime.Governor.Observe.{
  same_warning, member, in_order, observe, conclude, take_in, judge,
}

-- How often a warning stands in a report.
abbrev pub occurs : Warning → List Warning → ℕ
occurs w [] = 0
occurs w (x ∷ xs) = (if same_warning w x then 1 else 0) + occurs w xs

occurs-append :
    (w : Warning) (xs ys : List Warning) → occurs w (xs ++ ys) ≡ occurs w xs + occurs w ys
occurs-append w [] ys = omega arith
occurs-append w (x ∷ xs) ys = omega (arith, occurs-append w xs ys)

pub same_warning-eq : (w x : Warning) → same_warning w x ≡ true → w ≡ x
same_warning-eq w x h = ground arith

occurs-keep-le :
    (p : Warning → Bool) (w : Warning) (xs : List Warning)
    → occurs w (keep p xs) ≤ (if p w then occurs w xs else 0)
occurs-keep-le p w [] = ground arith
occurs-keep-le p w (x ∷ xs) = ground (arith, occurs-keep-le p w xs, same_warning-eq w x)

occurs-in_order : (w : Warning) → occurs w in_order ≡ 1
occurs-in_order Warning.context_warning = refl
occurs-in_order _ = refl

-- What one observation reports of a warning that was given before, and of one that was not.
abbrev pub room : Bool → ℕ
room true = 0
room false = 1

reported-le :
    (g : Governor) (total : ℕ) (active cached : Option ℕ) (w : Warning)
    → let (g', fresh, stop) = observe g total active cached in
      occurs w fresh + room (g'.warnings w) ≤ room (g.warnings w)
unfolding observe conclude take_in
reported-le g total active cached w =
    let g' : Governor = take_in g total active cached in
    ground (
      arith,
      occurs-keep-le (λ v. member v (judge g').conditions && not (g.warnings v)) w in_order,
      occurs-in_order w,
    )

-- A sequence of observations, each with the total, the context and the cached input reported.
abbrev pub Report : Type 0
Report = ℕ × Option ℕ × Option ℕ

-- Everything that the observations report, in order.
pub all_fresh : Governor → List Report → List Warning
all_fresh g [] = []
all_fresh g ((total, active, cached) ∷ reports) =
    let (g', fresh, stop) = observe g total active cached in fresh ++ all_fresh g' reports

all_fresh-le :
    (g : Governor) (reports : List Report) (w : Warning)
    → occurs w (all_fresh g reports) ≤ room (g.warnings w)
unfolding all_fresh
all_fresh-le g [] w = omega arith
all_fresh-le g ((total, active, cached) ∷ reports) w =
    let (g', fresh, stop) = observe g total active cached in
    omega (
      arith,
      occurs-append w fresh (all_fresh g' reports),
      all_fresh-le g' reports w,
      reported-le g total active cached w,
    )

-- Over any sequence of observations a warning is reported at most once, and never if it was
-- given before the first of them.
pub warned_once :
    (g : Governor) (reports : List Report) (w : Warning)
    → (occurs w (all_fresh g reports) ≤ 1)
      × (g.warnings w ≡ true → occurs w (all_fresh g reports) ≡ 0)
warned_once g reports w = ground (arith, all_fresh-le g reports w)
